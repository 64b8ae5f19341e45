-- ===== src/Examples/Sandbox.antt =====
-- The theorems on the sandbox at a sample policy, and paths that it admits and refuses.
use goharness.Prelude.{
  ◌≡◌, ◌↔◌, refl, true, false, [], ◌∷◌, some, Text, codes, text_eq, has_prefix, any, contains,
}
use goharness.Sandbox.Host.{Host, resolved, not_exist, to_lower}
use goharness.Sandbox.Path.{segments, path_within_dir, base, split, clean}
use goharness.Sandbox.Glob.{Cache, glob_regexp, compile, load, match_glob, match_glob_cached}
use goharness.Sandbox.Glob.Escape.{items, compile-glob_regexp}
use goharness.Sandbox.Glob.Laws.{
  GlobMatches, match_glob_iff, CacheIsValid, match_glob_cached-match_glob,
}
use goharness.Sandbox.Policy.{SandboxPolicy}
use goharness.Sandbox.Decision.{Enforced, ok, denied, sensitive_file, outside_workspace}
use goharness.Sandbox.File.{resolve_symlinks, check_file, enforce_file}
use goharness.Sandbox.File.Boundary.{limited, Widened, enforce_file-Widened}
use goharness.Sandbox.File.Admission.{Admitted, enforce_file_iff}
use goharness.Sandbox.File.Agreement.{plain, without_asking, enforce_file-check_file}

-- A machine without links on which every path exists, and one on which none does.
abbrev pub host : Host
host = record { stat_ok = λ p. true; eval_symlinks = λ p. resolved p; lower_wide = λ c. c }

abbrev bare_host : Host
bare_host = record { stat_ok = λ p. false; eval_symlinks = λ p. not_exist; lower_wide = λ c. c }

abbrev pub open_policy : SandboxPolicy
open_policy = record {
  allowed_dirs = [];
  allowed_file_paths = [];
  allowed_file_globs = codes ".env.example" ∷ [];
  denied_file_globs = codes ".env*" ∷ [];
  denied_file_paths = [];
  denied_dir_globs = codes ".ssh" ∷ [];
  denied_device_paths = codes "/dev/zero" ∷ [];
  max_file_bytes = 0;
  network_deny_subnets = [];
  network_allow_subnets = [];
  allowed_commands = [];
  denied_command_patterns = [];
  network_commands = [];
}

abbrev policy : SandboxPolicy
policy = record open_policy { allowed_dirs = codes "/work" ∷ [] }

-- What EnforceFile says of a path in the project directory "/work".
abbrev enforce : Text → Enforced
enforce path = enforce_file host policy path (codes "/work") []

admits_file : enforce (codes "/work/a/../b.go") ≡ ok
unfolding enforce_file clean base split path_within_dir text_eq has_prefix match_glob to_lower
    contains
admits_file = refl

refuses_env :
    enforce (codes "/work/.ENV.local") ≡ denied (sensitive_file (codes "/work/.ENV.local"))
unfolding enforce_file clean base split path_within_dir text_eq has_prefix match_glob to_lower
    contains
refuses_env = refl

refuses_dots :
    enforce (codes "/work/../etc/x")
    ≡ denied (outside_workspace (codes "/work/../etc/x") (codes "/work"))
unfolding enforce_file clean base split path_within_dir text_eq has_prefix match_glob to_lower
    contains
refuses_dots = refl

enforce_file_iff_example :
    (enforce_file host policy (codes "/work/x") (codes "/work") [] ≡ ok)
    ↔ Admitted host policy (codes "/work/x") (codes "/work") [] (resolved (codes "/work/x"))
enforce_file_iff_example = enforce_file_iff host policy (codes "/work/x") (codes "/work") []

work_limits : limited (codes "/work") policy.allowed_dirs ≡ true
unfolding text_eq
work_limits = refl

real_work_limits : limited (resolve_symlinks host (codes "/work")) policy.allowed_dirs ≡ true
unfolding text_eq resolve_symlinks
real_work_limits = refl

enforce_file-Widened_example :
    Widened
      (enforce_file host policy (codes "/tmp/x") (codes "/work") [])
      (enforce_file host policy (codes "/tmp/x") (codes "/work") (codes "/tmp" ∷ []))
enforce_file-Widened_example =
    enforce_file-Widened host policy (codes "/tmp/x") (codes "/work") (codes "/tmp" ∷ [])
      work_limits real_work_limits

not_within : any (path_within_dir (codes "/work/x")) (codes "/tmp" ∷ []) ≡ false
unfolding path_within_dir clean text_eq has_prefix
not_within = refl

open_admits : enforce_file bare_host open_policy (codes "/work/x") [] [] ≡ ok
unfolding enforce_file clean base split path_within_dir text_eq has_prefix match_glob to_lower
    contains
open_admits = refl

plain_dirs : plain host (codes "/work" ∷ codes "/work" ∷ []) ≡ true
unfolding resolve_symlinks text_eq
plain_dirs = refl

enforce_file-check_file_example :
    enforce_file host policy (codes "/tmp/x") (codes "/work") []
    ≡ without_asking (check_file host policy (codes "/tmp/x") (codes "/work"))
enforce_file-check_file_example =
    enforce_file-check_file host policy (codes "/tmp/x") (codes "/work") refl refl plain_dirs refl

match_glob_iff_example :
    (match_glob (codes "*.pem") (codes "key.pem") ≡ true)
    ↔ GlobMatches (codes "*.pem") (codes "key.pem")
match_glob_iff_example = match_glob_iff (codes "*.pem") (codes "key.pem")

-- A line feed in a name is matched by no star.
line_feed_escapes : match_glob (codes "*.pem") (b'a' ∷ 10 ∷ codes "key.pem") ≡ false
unfolding match_glob
line_feed_escapes = refl

compile-glob_regexp_example : compile (glob_regexp (codes "a.*")) ≡ some (items (codes "a.*"))
compile-glob_regexp_example = compile-glob_regexp (codes "a.*")

empty-IsValid : CacheIsValid []
unfolding load
empty-IsValid = λ p re h. absurd (cc h)

-- The cache behind a first call.
abbrev cache : Cache
cache = (match_glob_cached [] (codes "*.pem") (codes "other")).1

cache-IsValid : CacheIsValid cache
cache-IsValid = (match_glob_cached-match_glob [] (codes "*.pem") (codes "other") empty-IsValid).1

segments_a : segments (codes "/a") ≡ codes "a" ∷ []
unfolding segments split text_eq
segments_a = refl
