-- ===== src/Sandbox/File.antt =====
-- sandbox/file_checker.go: the checks of a path before (CheckFile) and at (EnforceFile) its use.
-- `p` is the policy that s.policy.Load() gives; matchGlob is used without its cache, which changes
-- no answer.
pub mod Boundary
pub mod Members
pub mod Sensitive
pub mod Admission
pub mod Agreement
use goharness.Prelude.{
  ℕ, ◌==◌, Bool, true, false, not, ◌&&◌, ◌||◌, List, [], ◌∷◌, ◌++◌, Option, none, some, Text,
  text_eq, contains, map, any, if◌then◌else◌,
}
use goharness.Sandbox.Host.{Host, Resolved, resolved, not_exist, unreadable, to_lower}
use goharness.Sandbox.Path.{separator, split, clean, base, path_within_dir}
use goharness.Sandbox.Glob.{star, match_glob}
use goharness.Sandbox.Policy.{SandboxPolicy}
use goharness.Sandbox.Decision.{
  Decision, allow, deny, ask_user, Reason, no_reason, sensitive_file, device_file,
  outside_workspace, FileDecision, Enforced, ok, denied, system_error,
}

abbrev pub resolved_or : Text → Resolved → Text
resolved_or path (resolved r) = r
resolved_or path not_exist = path
resolved_or path unreadable = path

unfoldable pub resolve_symlinks : Host → Text → Text
resolve_symlinks h path = resolved_or path (h.eval_symlinks path)

-- strings.Contains(s, "*")
unfoldable pub has_star : Text → Bool
has_star [] = false
has_star (c ∷ s) = c == star || has_star s

-- The text before the first star, and from it on.
abbrev pub cut_star : Text → Text × Text
cut_star [] = ([], [])
cut_star (c ∷ s) = let rest = cut_star s in if c == star then ([], c ∷ s) else (c ∷ rest.0, rest.1)

-- strings.HasSuffix(s, "/")
abbrev pub ends_in_separator : Text → Bool
ends_in_separator [] = false
ends_in_separator (c ∷ []) = c == separator
ends_in_separator (c ∷ d ∷ s) = ends_in_separator (d ∷ s)

abbrev pub with_separator : Text → Text → Text
with_separator prefix r =
    if ends_in_separator prefix && not (ends_in_separator r) then r ++ separator ∷ [] else r

unfoldable pub resolve_glob_prefix : Host → Text → Text
unfolding has_star resolve_symlinks
resolve_glob_prefix h pattern =
    let (prefix, rest) = cut_star pattern in
    if has_star pattern
    then with_separator prefix (resolve_symlinks h prefix) ++ rest
    else resolve_symlinks h pattern

unfoldable pub is_device_path : Text → SandboxPolicy → Bool
unfolding clean contains
is_device_path path p = contains p.denied_device_paths (clean path)

unfoldable pub is_denied_file : Host → Text → SandboxPolicy → Bool
unfolding to_lower base match_glob
is_denied_file h path p = any (λ glob. match_glob glob (to_lower h (base path))) p.denied_file_globs

abbrev pub is_allowed_path : Text → Text → Bool
is_allowed_path clean_path allowed =
    if has_star allowed then match_glob allowed clean_path else text_eq clean_path allowed

unfoldable pub is_allowed_file : Host → Text → SandboxPolicy → Bool
unfolding to_lower base match_glob clean has_star text_eq
is_allowed_file h path p =
    if any (λ glob. match_glob glob (to_lower h (base path))) p.allowed_file_globs
    then true
    else any (is_allowed_path (clean path)) p.allowed_file_paths

abbrev pub is_denied_part : Host → SandboxPolicy → Text → Bool
is_denied_part h p [] = false
is_denied_part h p (c ∷ part) =
    any (λ glob. match_glob glob (to_lower h (c ∷ part))) p.denied_dir_globs

unfoldable pub is_in_denied_dir : Host → Text → SandboxPolicy → Bool
unfolding to_lower match_glob clean split
is_in_denied_dir h path p = any (is_denied_part h p) (split (clean path))

abbrev pub is_empty : List Text → Bool
is_empty [] = true
is_empty (d ∷ dirs) = false

unfoldable pub is_outside_workspace : Text → Text → SandboxPolicy → Bool
unfolding path_within_dir text_eq
is_outside_workspace path project_dir p =
    if not (text_eq project_dir []) && path_within_dir path project_dir
    then false
    else if any (path_within_dir path) p.allowed_dirs
    then false
    else if text_eq project_dir [] && is_empty p.allowed_dirs
    then false
    else true

-- The three checks that a whitelisted file is spared.
unfoldable pub is_sensitive : Host → Text → SandboxPolicy → Bool
unfolding is_denied_file is_in_denied_dir contains
is_sensitive h path p =
    is_denied_file h path p || is_in_denied_dir h path p || contains p.denied_file_paths path

-- The whitelist as CheckFile compares it, and as EnforceFile does.
abbrev pub checked_entry : Host → Text → Text
checked_entry h ap = if has_star ap then resolve_glob_prefix h ap else ap

abbrev pub enforced_entry : Host → Text → Text
enforced_entry h ap = if has_star ap then resolve_glob_prefix h ap else resolve_symlinks h ap

abbrev pub with_allowed_paths : List Text → SandboxPolicy → SandboxPolicy
with_allowed_paths paths p = record p { allowed_file_paths = paths }

abbrev pub with_allowed_dirs : List Text → SandboxPolicy → SandboxPolicy
with_allowed_dirs dirs p = record p { allowed_dirs = dirs }

-- Is the path whitelisted for CheckFile? A miss is tried again with the resolved path.
unfoldable pub is_whitelisted : Host → SandboxPolicy → Text → Bool
unfolding is_allowed_file has_star resolve_glob_prefix resolve_symlinks
is_whitelisted h p path =
    let q = with_allowed_paths (map (checked_entry h) p.allowed_file_paths) p in
    is_allowed_file h path q
    || (not (is_empty p.allowed_file_paths) && is_allowed_file h (resolve_symlinks h path) q)

-- `CheckFile`
unfoldable pub check_file : Host → SandboxPolicy → Text → Text → FileDecision
unfolding is_device_path is_whitelisted is_sensitive is_outside_workspace
check_file h p path project_dir =
    if not (h.stat_ok path)
    then record { decision = allow; reason = no_reason }
    else if is_device_path path p
    then record { decision = deny; reason = device_file path }
    else if not (is_whitelisted h p path) && is_sensitive h path p
    then record { decision = deny; reason = sensitive_file path }
    else if is_outside_workspace path project_dir p
    then record { decision = ask_user; reason = outside_workspace path project_dir }
    else record { decision = allow; reason = no_reason }

abbrev pub allow_or_deny : Text → Text → Decision → FileDecision → FileDecision
allow_or_deny path project_dir ask_user dec = record {
  decision = deny;
  reason = outside_workspace path project_dir;
}
allow_or_deny path project_dir allow dec = dec
allow_or_deny path project_dir deny dec = dec

-- `CheckFileAllowOrDeny`
unfoldable pub check_file_allow_or_deny : Host → SandboxPolicy → Text → Text → FileDecision
unfolding check_file
check_file_allow_or_deny h p path project_dir =
    let dec = check_file h p path project_dir in allow_or_deny path project_dir (dec.decision) dec

-- The checks of enforceFile on the real path: `listed` is the policy with the whitelist and
-- `bounded` the policy with the directories that they use.
unfoldable pub enforce_real :
    Host → SandboxPolicy → SandboxPolicy → SandboxPolicy → Text → Text → Enforced
unfolding is_device_path is_allowed_file is_sensitive is_outside_workspace
enforce_real h p listed bounded real_path project_dir =
    if is_device_path real_path p
    then denied (device_file real_path)
    else if not (is_allowed_file h real_path listed) && is_sensitive h real_path p
    then denied (sensitive_file real_path)
    else if is_outside_workspace real_path project_dir bounded
    then denied (outside_workspace real_path project_dir)
    else ok

abbrev pub enforce_resolved : Host → SandboxPolicy → Text → Text → List Text → Resolved → Enforced
enforce_resolved h p path project_dir extra (resolved real_path) =
    let r = resolve_symlinks h in
    enforce_real h p (with_allowed_paths (map (enforced_entry h) p.allowed_file_paths) p)
      (with_allowed_dirs (map r p.allowed_dirs ++ map r extra) p) real_path (r project_dir)
enforce_resolved h p path project_dir extra not_exist =
    enforce_real h p p (with_allowed_dirs (p.allowed_dirs ++ extra) p) path project_dir
enforce_resolved h p path project_dir extra unreadable = system_error

-- `enforceFile`
unfoldable pub enforce_file : Host → SandboxPolicy → Text → Text → List Text → Enforced
unfolding enforce_real resolve_symlinks resolve_glob_prefix has_star
enforce_file h p path project_dir extra =
    enforce_resolved h p path project_dir extra (h.eval_symlinks path)
