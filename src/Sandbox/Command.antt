-- ===== src/Sandbox/Command.antt =====
-- sandbox/command_checker.go, with containsLower of sandbox/defaults.go. A denied pattern is what its
-- regular expression answers.
pub mod Laws
pub mod Fuel
use goharness.Prelude.{
  ℕ, zero, suc, ◌+◌, ◌==◌, Bool, true, false, not, ◌&&◌, ◌||◌, List, [], ◌∷◌, ◌++◌, Option, none,
  some, Text, codes, text_eq, has_prefix, contains, trim_space, length, drop, leb, any,
  if◌then◌else◌,
}
use goharness.Sandbox.Extract.{extract_urls_from_command}
use goharness.Sandbox.Host.{Host, to_lower}
use goharness.Sandbox.Path.{base}
use goharness.Sandbox.Policy.{Pattern, SandboxPolicy}
use goharness.Sandbox.Decision.{
  Decision, allow, deny, ask_user, Reason, no_reason, command_denied, dangerous_pattern,
}

-- `IndexAny(s, " \t")`
abbrev pub is_gap : ℕ → Bool
is_gap c = c == 32 || c == 9

-- The text before the first gap, and from it on.
unfoldable pub before_gap : Text → Text
before_gap [] = []
before_gap (c ∷ s) = let rest = before_gap s in if is_gap c then [] else c ∷ rest

unfoldable pub from_gap : Text → Option Text
from_gap [] = none
from_gap (c ∷ s) = let rest = from_gap s in if is_gap c then some (c ∷ s) else rest

-- The text before and behind the first `=`.
unfoldable pub before_equals : Text → Text
before_equals [] = []
before_equals (c ∷ s) = let rest = before_equals s in if c == b'=' then [] else c ∷ rest

unfoldable pub behind_equals : Text → Option Text
behind_equals [] = none
behind_equals (c ∷ s) = let rest = behind_equals s in if c == b'=' then some s else rest

abbrev is_letter : ℕ → Bool
is_letter c = (leb b'a' c && leb c b'z') || (leb b'A' c && leb c b'Z') || c == b'_'

abbrev all_name_runes : Text → Bool
all_name_runes [] = true
all_name_runes (c ∷ s) = (is_letter c || (leb b'0' c && leb c b'9')) && all_name_runes s

-- `isValidVarName`
unfoldable pub is_valid_var_name : Text → Bool
is_valid_var_name [] = false
is_valid_var_name (c ∷ s) = is_letter c && all_name_runes s

-- The result of the loop over leading assignments: nothing is left, or a command.
pub data Stripped : Type 0 where
  only_assignments : Stripped
  command : Text → Stripped
  out_of_fuel : Stripped

-- What follows the `=` of a leading assignment.
abbrev pub value_of : Text → Option Text → Option Text
value_of key none = none
value_of key (some rest) = if is_valid_var_name key then some rest else none

unfoldable pub assignment : Text → Option Text
unfolding before_equals behind_equals is_valid_var_name
assignment s = value_of (before_equals s) (behind_equals s)

-- The loop of `extractBaseCommand`.
unfoldable pub strip_assignments : ℕ → Text → Stripped
unfolding assignment from_gap trim_space
strip_assignments zero s = out_of_fuel
strip_assignments (suc fuel) s = elim (assignment s) [
  | none ↦ command s
  | some rest ↦ elim (from_gap rest) [
    | none ↦ only_assignments
    | some more ↦ strip_assignments fuel (trim_space more)
  ]
]

abbrev pub token_of : Text → Text → Text
token_of s [] = s
token_of s (c ∷ t) = c ∷ t

-- The text before the first gap, or all of it if there is none behind the first character.
abbrev pub token : Text → Text
token s = token_of s (before_gap s)

abbrev pub behind_token : Text → Option Text → Text
behind_token [] more = []
behind_token (c ∷ t) none = []
behind_token (c ∷ t) (some more) = trim_space more

abbrev pub sudo : Text
sudo = codes "sudo"

-- The command behind `sudo`, or `sudo` itself.
abbrev pub behind_sudo : Host → Text → Text
behind_sudo h [] = sudo
behind_sudo h (c ∷ rest) = to_lower h (base (token (c ∷ rest)))

abbrev pub command_name : Host → Stripped → Text
command_name h only_assignments = []
command_name h out_of_fuel = []
command_name h (command []) = []
command_name h (command (c ∷ s)) =
    if text_eq (to_lower h (token (c ∷ s))) sudo
    then behind_sudo h (behind_token (before_gap (c ∷ s)) (from_gap (c ∷ s)))
    else to_lower h (base (token (c ∷ s)))

-- `extractBaseCommand`
unfoldable pub extract_base_command : Host → Text → Text
unfolding strip_assignments trim_space before_gap from_gap to_lower base
extract_base_command h s =
    let t = trim_space s in command_name h (strip_assignments (suc (length t)) t)

-- `containsLower`
unfoldable pub contains_lower : Host → List Text → Text → Bool
unfolding contains to_lower
contains_lower h items s = contains items (to_lower h s)

pub record CommandDecision : Type 0 where
  pub decision : Decision
  pub reason : Reason
  pub need_url_check : Bool
  pub urls : List Text

-- The first pattern that is not nil and matches.
unfoldable pub first_match : Text → List (Option Pattern) → Option Pattern
first_match s [] = none
first_match s (none ∷ ps) = first_match s ps
first_match s (some p ∷ ps) =
    let rest = first_match s ps in if p.match_string s then some p else rest

abbrev no_entries : List Text → Bool
no_entries [] = true
no_entries (t ∷ ts) = false

abbrev pub plain_allow : CommandDecision
plain_allow = record { decision = allow; reason = no_reason; need_url_check = false; urls = [] }

abbrev pub with_urls : List Text → CommandDecision
with_urls [] = plain_allow
with_urls (u ∷ us) = record {
  decision = allow;
  reason = no_reason;
  need_url_check = true;
  urls = u ∷ us;
}

abbrev pub not_listed : Text → Text
not_listed name = codes "命令 " ++ name ++ codes " 不在白名单中"

abbrev pub check_undenied : Host → SandboxPolicy → Text → Text → CommandDecision
check_undenied h p s name =
    if not (no_entries p.allowed_commands) && not (contains_lower h p.allowed_commands name)
    then record {
      decision = ask_user;
      reason = command_denied s (not_listed name);
      need_url_check = false;
      urls = [];
    }
    else if contains_lower h p.network_commands name
    then with_urls (extract_urls_from_command s)
    else plain_allow

abbrev pub check_against : Host → SandboxPolicy → Text → Option Pattern → CommandDecision
check_against h p s (some d) = record {
  decision = deny;
  reason = dangerous_pattern s d.string;
  need_url_check = false;
  urls = [];
}
check_against h p s none = check_undenied h p s (extract_base_command h s)

-- `CheckCommand`
unfoldable pub check_command : Host → SandboxPolicy → Text → CommandDecision
unfolding first_match extract_base_command contains_lower extract_urls_from_command
check_command h p s = check_against h p s (first_match s p.denied_command_patterns)
