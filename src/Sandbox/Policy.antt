-- ===== src/Sandbox/Policy.antt =====
-- sandbox/policy.go: the policy and its compilation, with its three validations.
-- A subnet is what *net.IPNet answers (Contains), and a pattern what *regexp.Regexp answers
-- (String, MatchString); `none` is the nil pointer. A nil slice is the empty list.
pub mod Laws
use goharness.Prelude.{
  ℕ, ◌+◌, Bool, not, List, [], ◌∷◌, Option, none, some, Text, is_blank, map, keep,
}
use goharness.Sandbox.Host.{Host, to_lower}
use goharness.Sandbox.Path.{clean}

pub record IpNet : Type 0 where
  pub contains_ip : Text → Bool

pub record Pattern : Type 0 where
  pub string : Text
  pub match_string : Text → Bool

pub record SandboxPolicy : Type 0 where
  pub allowed_dirs : List Text
  pub allowed_file_paths : List Text
  pub allowed_file_globs : List Text
  pub denied_file_globs : List Text
  pub denied_file_paths : List Text
  pub denied_dir_globs : List Text
  pub denied_device_paths : List Text
  pub max_file_bytes : ℕ
  pub network_deny_subnets : List (Option IpNet)
  pub network_allow_subnets : List (Option IpNet)
  pub allowed_commands : List Text
  pub denied_command_patterns : List (Option Pattern)
  pub network_commands : List Text

abbrev pub visible : List Text → List Text
visible = keep (λ t. not (is_blank t))

unfoldable pub normalize_paths : List Text → List Text
unfolding clean is_blank
normalize_paths paths = map clean (visible paths)

unfoldable pub normalize_globs : Host → List Text → List Text
unfolding to_lower is_blank
normalize_globs h globs = map (to_lower h) (visible globs)

unfoldable pub normalize_lower_strings : Host → List Text → List Text
unfolding to_lower is_blank
normalize_lower_strings h strs = map (to_lower h) (visible strs)

pub data PolicyError : Type 0 where
  nil_deny_subnet : ℕ → PolicyError
  nil_allow_subnet : ℕ → PolicyError
  nil_pattern : ℕ → PolicyError

pub data Compiled : Type 0 where
  ok : SandboxPolicy → Compiled
  fail : PolicyError → Compiled

module _ {ℓ} {A : Type ℓ} where
  -- The loop that looks for a nil element; `i` is the index of the head.
  unfoldable pub first_nil : ℕ → List (Option A) → Option ℕ
  first_nil i [] = none
  first_nil i (none ∷ xs) = some i
  first_nil i (some x ∷ xs) = first_nil (i + 1) xs

-- The policy after the normalisation of its lists.
unfoldable pub normalized : Host → SandboxPolicy → SandboxPolicy
unfolding normalize_paths normalize_globs normalize_lower_strings
normalized h p = record p {
  allowed_dirs = normalize_paths p.allowed_dirs;
  allowed_file_paths = normalize_paths p.allowed_file_paths;
  denied_file_paths = normalize_paths p.denied_file_paths;
  denied_device_paths = normalize_paths p.denied_device_paths;
  allowed_file_globs = normalize_globs h p.allowed_file_globs;
  denied_file_globs = normalize_globs h p.denied_file_globs;
  denied_dir_globs = normalize_globs h p.denied_dir_globs;
  allowed_commands = normalize_lower_strings h p.allowed_commands;
  network_commands = normalize_lower_strings h p.network_commands;
}

abbrev pub checked_patterns : SandboxPolicy → Option ℕ → Compiled
checked_patterns p (some i) = fail (nil_pattern i)
checked_patterns p none = ok p

abbrev pub checked_allow : SandboxPolicy → Option ℕ → Compiled
checked_allow p (some i) = fail (nil_allow_subnet i)
checked_allow p none = checked_patterns p (first_nil 0 p.denied_command_patterns)

abbrev pub checked_deny : SandboxPolicy → Option ℕ → Compiled
checked_deny p (some i) = fail (nil_deny_subnet i)
checked_deny p none = checked_allow p (first_nil 0 p.network_allow_subnets)

unfoldable pub compile : Host → SandboxPolicy → Compiled
unfolding normalized first_nil
compile h p = let q = normalized h p in checked_deny q (first_nil 0 q.network_deny_subnets)
