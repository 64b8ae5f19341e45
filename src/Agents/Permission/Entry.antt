-- ===== src/Agents/Permission/Entry.antt =====
-- agents/permission.go: what is written into the session's whitelist when the user allows a tool for
-- the session (buildWhitelistEntry, buildWhitelistNetworkHosts, normalizeWebFetchURL).
use goharness.Prelude.{
  ℕ, ◌==◌, Bool, true, false, not, ◌&&◌, ◌||◌, List, [], ◌∷◌, ◌++◌, map, Option, none, some, Text,
  codes, text_eq, has_prefix, contains, is_space, trim_space, any, drop, if◌then◌else◌,
}
use goharness.Session.State.{PendingPermission}
use goharness.Session.Whitelist.{lower_rune}
use goharness.Sandbox.Net.{Net}
use goharness.Sandbox.Policy.{SandboxPolicy}
use goharness.Sandbox.Decision.{Decision, ask_user}
use goharness.Sandbox.Path.{is_rooted, clean}
use goharness.Sandbox.Url.{check_url, host_of}
use goharness.Sandbox.Extract.{http, https, extract_urls_from_command}
use goharness.Tools.Params.{Params, Place, lookup, get_param, join_path, resolve_target_path}

-- strings.Fields
abbrev pub onto_field : ℕ → Bool × List Text → Bool × List Text
onto_field c (true, f ∷ fs) = (true, (c ∷ f) ∷ fs)
onto_field c (true, []) = (true, (c ∷ []) ∷ [])
onto_field c (false, fs) = (true, (c ∷ []) ∷ fs)

-- The fields of a text, and whether the first of them starts at its head.
unfoldable pub scan_fields : Text → Bool × List Text
unfolding is_space
scan_fields [] = (false, [])
scan_fields (c ∷ s) =
    let rest = scan_fields s in if is_space c then (false, rest.1) else onto_field c rest

unfoldable pub fields : Text → List Text
unfolding scan_fields
fields s = (scan_fields s).1

-- A value that is missing is read as the empty text.
abbrev pub or_blank : Option Text → Text
or_blank none = []
or_blank (some t) = t

abbrev pub first_field : List Text → Text
first_field [] = []
first_field (f ∷ fs) = f

abbrev either : Option Text → Option Text → Option Text
either none o = o
either (some t) o = some t

-- strings.ContainsAny(s, "./\\")
abbrev pub looks_like_path : Text → Bool
looks_like_path s = any (λ c. c == b'.' || c == b'/' || c == 92) s

abbrev script_candidate : List Text → Text
script_candidate [] = []
script_candidate (p ∷ []) = p
script_candidate (p ∷ q ∷ ps) = if looks_like_path p then p else q

-- filepath.Abs, "" where the working directory is unknown.
unfoldable pub absolute_path : Place → Text → Text
unfolding clean join_path
absolute_path place path =
    if is_rooted path
    then clean path
    else if text_eq place.cwd []
    then []
    else join_path place.cwd path

abbrev or_dot : Text → Text
or_dot [] = codes "."
or_dot (c ∷ s) = c ∷ s

abbrev script_in : Place → Text → Text → Text
script_in place dir [] = []
script_in place dir (c ∷ s) =
    if is_rooted (c ∷ s)
    then absolute_path place (c ∷ s)
    else absolute_path place (join_path dir (c ∷ s))

module _ (place : Place) (project_dir session_dir : Text) where
  abbrev pub resolved_entry : Text → Text
  resolved_entry [] = []
  resolved_entry (c ∷ path) = (resolve_target_path place (c ∷ path) project_dir session_dir).0

  unfoldable pub script_entry : Params → Text
  unfolding get_param resolve_target_path fields absolute_path join_path
  script_entry args =
      let dir =
        (resolve_target_path place (or_dot (or_blank (get_param args (codes "working_dir"))))
          project_dir session_dir).0 in
      script_in place (or_dot dir)
        (script_candidate (fields (or_blank (get_param args (codes "command")))))

  -- `buildWhitelistEntry`
  unfoldable pub build_whitelist_entry : PendingPermission → Text
  unfolding lookup get_param fields resolve_target_path script_entry lower_rune text_eq
  build_whitelist_entry p =
      let name = map lower_rune p.tool_name in
      if text_eq name (codes "bash")
      then first_field (fields (or_blank (lookup p.arguments (codes "command"))))
      else if text_eq name (codes "write")
          || text_eq name (codes "edit")
          || text_eq name (codes "read")
      then resolved_entry (
          or_blank (
            either (get_param p.arguments (codes "filePath"))
              (get_param p.arguments (codes "file_path"))))
      else if text_eq name (codes "ls")
      then resolved_entry (or_blank (get_param p.arguments (codes "path")))
      else if text_eq name (codes "run_script")
      then script_entry p.arguments
      else []

-- `normalizeWebFetchURL`
abbrev secured : Text → Text
secured url = if has_prefix url http then https ++ drop 7 url else url

abbrev with_scheme : Text → Text
with_scheme url = if has_prefix url https then url else https ++ url

unfoldable pub normalize_web_fetch_url : Text → Text
unfolding trim_space has_prefix
normalize_web_fetch_url raw = with_scheme (secured (trim_space raw))

abbrev fetched : Text → List Text
fetched [] = []
fetched (c ∷ url) = normalize_web_fetch_url (c ∷ url) ∷ []

-- The URLs that the call is about.
unfoldable pub urls_of : PendingPermission → List Text
unfolding lookup extract_urls_from_command normalize_web_fetch_url lower_rune text_eq
urls_of p =
    let name = map lower_rune p.tool_name in
    if text_eq name (codes "bash")
    then extract_urls_from_command (or_blank (lookup p.arguments (codes "command")))
    else if text_eq name (codes "web_fetch")
    then fetched (or_blank (lookup p.arguments (codes "url")))
    else []

abbrev is_asked : Decision → Bool
is_asked ask_user = true
is_asked _ = false

abbrev new_host : Text → List Text → Bool
new_host [] seen = false
new_host (c ∷ h) seen = not (contains seen (c ∷ h))

-- The loop over the URLs; `hosts` is also the set of those seen.
unfoldable pub collect_hosts : Net → SandboxPolicy → List Text → List Text → List Text
unfolding check_url contains
collect_hosts n policy [] hosts = hosts
collect_hosts n policy (u ∷ us) hosts =
    let h = host_of (n.parse_url u) in
    collect_hosts n policy us (
      if is_asked (check_url n policy u).decision && new_host h hosts
      then hosts ++ h ∷ []
      else hosts)

-- `buildWhitelistNetworkHosts`; `none` is a runtime without a sandbox.
unfoldable pub build_whitelist_network_hosts :
    Net → Option SandboxPolicy → PendingPermission → List Text
unfolding urls_of collect_hosts
build_whitelist_network_hosts n none p = []
build_whitelist_network_hosts n (some policy) p = collect_hosts n policy (urls_of p) []
