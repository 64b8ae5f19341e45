-- ===== src/Sandbox/File/Agreement.antt =====
-- The two phases against each other: CheckFile before the user is asked, EnforceFile at the use,
-- and CheckFileAllowOrDeny, which never asks.
use goharness.Prelude.{
  ◌≡◌, ◌≢◌, ◌↔◌, refl, sym, ◌∙◌, ap, ap₂, Bool, true, false, not, ◌&&◌, ◌||◌, List, [], ◌∷◌, ◌++◌,
  Text, text_eq, text_eq-eq, map, all, append-nil, arith, if◌then◌else◌,
}
use goharness.Sandbox.Host.{Host, resolved}
use goharness.Sandbox.Policy.{SandboxPolicy}
use goharness.Sandbox.Decision.{
  Decision, allow, deny, ask_user, Reason, no_reason, FileDecision, Enforced, ok, denied,
  outside_workspace, device_file, sensitive_file,
}
use goharness.Sandbox.File.{
  resolved_or, is_empty, is_device_path, is_sensitive, is_allowed_file, is_whitelisted,
  is_outside_workspace, checked_entry, enforced_entry, with_allowed_paths, with_allowed_dirs,
  resolve_symlinks, enforce_real, enforce_resolved, enforce_file, check_file,
  check_file_allow_or_deny, allow_or_deny,
}

allow_or_deny-lem :
    (path project_dir : Text) (d : Decision) (r : Reason)
    → let dec : FileDecision = record { decision = d; reason = r } in
      let res = allow_or_deny path project_dir d dec in
      (res.decision ≢ ask_user) × ((res.decision ≡ allow) ↔ (d ≡ allow))
allow_or_deny-lem path project_dir allow r = (λ e. absurd (cc e), (λ e. e, λ e. e))
allow_or_deny-lem path project_dir deny r = (λ e. absurd (cc e), (λ e. e, λ e. e))
allow_or_deny-lem path project_dir ask_user r =
    (λ e. absurd (cc e), (λ e. absurd (cc e), λ e. absurd (cc e)))

-- CheckFileAllowOrDeny never asks the user, and allows exactly what CheckFile allows.
pub check_file_allow_or_deny-allow :
    (h : Host) (p : SandboxPolicy) (path project_dir : Text)
    → ((check_file_allow_or_deny h p path project_dir).decision ≢ ask_user)
      × (((check_file_allow_or_deny h p path project_dir).decision ≡ allow)
          ↔ ((check_file h p path project_dir).decision ≡ allow))
unfolding check_file_allow_or_deny
check_file_allow_or_deny-allow h p path project_dir =
    let dec = check_file h p path project_dir in
    allow_or_deny-lem path project_dir dec.decision dec.reason

-- What a decision of the first phase comes to when the user is not asked.
abbrev pub outcome : Decision → Reason → Enforced
outcome allow r = ok
outcome deny r = denied r
outcome ask_user r = denied r

abbrev pub without_asking : FileDecision → Enforced
without_asking dec = outcome dec.decision dec.reason

-- No entry of the list changes when its links are resolved.
abbrev pub plain : Host → List Text → Bool
plain h = all (λ t. text_eq (resolve_symlinks h t) t)

map-plain : (h : Host) (ts : List Text) → plain h ts ≡ true → map (resolve_symlinks h) ts ≡ ts
map-plain h [] e = refl
map-plain h (t ∷ ts) e =
    ap₂ (λ x y. x ∷ y) (text_eq-eq (resolve_symlinks h t) t (ground arith))
      (map-plain h ts (ground arith))

entry-plain :
    (h : Host) (t : Text)
    → text_eq (resolve_symlinks h t) t ≡ true
    → enforced_entry h t ≡ checked_entry h t
entry-plain h t e = let q = text_eq-eq (resolve_symlinks h t) t e in rw q refl

entries-plain :
    (h : Host) (ts : List Text)
    → plain h ts ≡ true
    → map (enforced_entry h) ts ≡ map (checked_entry h) ts
entries-plain h [] e = refl
entries-plain h (t ∷ ts) e =
    ap₂ (λ x y. x ∷ y) (entry-plain h t (ground arith)) (entries-plain h ts (ground arith))

twice : (a n b : Bool) → b ≡ a → (a || (n && b)) ≡ a
twice true n b e = refl
twice false n b e = ground arith

whitelisted-plain :
    (h : Host) (p : SandboxPolicy) (path : Text)
    → h.eval_symlinks path ≡ resolved path
    → is_whitelisted h p path
      ≡ is_allowed_file h path (with_allowed_paths (map (checked_entry h) p.allowed_file_paths) p)
unfolding is_whitelisted resolve_symlinks
whitelisted-plain h p path e =
    let q = with_allowed_paths (map (checked_entry h) p.allowed_file_paths) p in
    twice (is_allowed_file h path q) (not (is_empty p.allowed_file_paths))
      (is_allowed_file h (resolve_symlinks h path) q)
      (ap (λ r. is_allowed_file h (resolved_or path r) q) e)

-- The decision of CheckFile on an existing path.
abbrev decided : Text → Text → Bool → Bool → Bool → Bool → FileDecision
decided path project_dir device allowed secret outside =
    if device
    then record { decision = deny; reason = device_file path }
    else if not allowed && secret
    then record { decision = deny; reason = sensitive_file path }
    else if outside
    then record { decision = ask_user; reason = outside_workspace path project_dir }
    else record { decision = allow; reason = no_reason }

verdicts :
    (path project_dir : Text) (device allowed secret outside : Bool)
    → (if device
        then denied (device_file path)
        else if not allowed && secret
        then denied (sensitive_file path)
        else if outside
        then denied (outside_workspace path project_dir)
        else ok)
      ≡ without_asking (decided path project_dir device allowed secret outside)
verdicts path project_dir device allowed secret outside = ground arith

check_file-existing :
    (h : Host) (p : SandboxPolicy) (path project_dir : Text)
    → h.stat_ok path ≡ true
    → check_file h p path project_dir
      ≡ decided path project_dir
          (is_device_path path p)
          (is_whitelisted h p path)
          (is_sensitive h path p)
          (is_outside_workspace path project_dir p)
unfolding check_file
check_file-existing h p path project_dir e = rw e refl

-- The policy that EnforceFile judges by, where no link is on the way.
enforce_file-plain :
    (h : Host) (p : SandboxPolicy) (path project_dir : Text)
    → h.eval_symlinks path ≡ resolved path
    → plain h (project_dir ∷ p.allowed_dirs) ≡ true
    → plain h p.allowed_file_paths ≡ true
    → enforce_file h p path project_dir []
      ≡ enforce_real h p
          (with_allowed_paths (map (checked_entry h) p.allowed_file_paths) p)
          (with_allowed_dirs p.allowed_dirs p)
          path
          project_dir
unfolding enforce_file
enforce_file-plain h p path project_dir e d f =
    ap (enforce_resolved h p path project_dir []) e
    ∙ ap
        (λ es.
          enforce_real h p (with_allowed_paths es p)
            (with_allowed_dirs (map (resolve_symlinks h) p.allowed_dirs ++ []) p) path
            (resolve_symlinks h project_dir))
        (entries-plain h p.allowed_file_paths f)
    ∙ ap
        (λ ds.
          enforce_real h p (with_allowed_paths (map (checked_entry h) p.allowed_file_paths) p)
            (with_allowed_dirs ds p) path (resolve_symlinks h project_dir))
        (append-nil (map (resolve_symlinks h) p.allowed_dirs)
          ∙ map-plain h p.allowed_dirs (ground arith))
    ∙ ap
        (enforce_real h p (with_allowed_paths (map (checked_entry h) p.allowed_file_paths) p)
          (with_allowed_dirs p.allowed_dirs p) path)
        (text_eq-eq (resolve_symlinks h project_dir) project_dir (ground arith))

-- For an existing path without symbolic links on the way, in it, in the project directory or in
-- the policy's directories and whitelisted paths, the two phases agree: EnforceFile admits what
-- CheckFile allows, and refuses, for the same reason, what CheckFile denies or asks the user
-- about.
pub enforce_file-check_file :
    (h : Host) (p : SandboxPolicy) (path project_dir : Text)
    → h.stat_ok path ≡ true
    → h.eval_symlinks path ≡ resolved path
    → plain h (project_dir ∷ p.allowed_dirs) ≡ true
    → plain h p.allowed_file_paths ≡ true
    → enforce_file h p path project_dir [] ≡ without_asking (check_file h p path project_dir)
unfolding enforce_real
enforce_file-check_file h p path project_dir s e d f =
    let w =
      is_allowed_file h path (with_allowed_paths (map (checked_entry h) p.allowed_file_paths) p) in
    let o = is_outside_workspace path project_dir p in
    enforce_file-plain h p path project_dir e d f
    ∙ verdicts path project_dir (is_device_path path p) w (is_sensitive h path p) o
    ∙ ap
        (λ a.
          without_asking
            (decided path project_dir (is_device_path path p) a (is_sensitive h path p) o))
        (sym (whitelisted-plain h p path e))
    ∙ sym (ap without_asking (check_file-existing h p path project_dir s))
