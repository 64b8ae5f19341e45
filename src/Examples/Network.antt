-- ===== src/Examples/Network.antt =====
-- The theorems on the policy, the URL checks and the command checks at a sample policy.
use goharness.Prelude.{
  ◌≡◌, ◌↔◌, refl, true, [], ◌∷◌, none, some, Text, codes, text_eq, has_prefix, contains, trim_space,
  is_space,
}
use goharness.Sandbox.Host.{to_lower}
use goharness.Sandbox.Path.{base, split}
use goharness.Sandbox.Policy.{IpNet, Pattern, SandboxPolicy, normalized}
use goharness.Sandbox.State.{
  Sandbox, made, new_sandbox, created, update_policy, updated, IsCompiled, Reachable-IsCompiled,
}
use goharness.Sandbox.Decision.{allow, ask_user}
use goharness.Sandbox.Net.{Net}
use goharness.Sandbox.Net
use goharness.Sandbox.Url.{check_url, extract_url_host, enforce_url}
use goharness.Sandbox.Url.Laws.{Open, check_url_iff, Enforces, enforce_url_iff}
use goharness.Sandbox.Extract.{extract_urls_from_command}
use goharness.Sandbox.Command.{extract_base_command, check_command}
use goharness.Sandbox.Command.Laws.{Judged, check_command-Judged}
use goharness.Examples.Sandbox.{host, open_policy}

-- Every text is an address, and the host of a URL is the URL itself.
abbrev net : Net
net = record {
  parse_url = λ u. Net.host u;
  parse_ip = λ t. some t;
  lookup_ip = λ t. none;
  equal_fold = λ a b. text_eq a b;
}

abbrev home : IpNet
home = record { contains_ip = λ ip. has_prefix ip (codes "10.") }

abbrev wipe : Pattern
wipe = record { string = codes "rm -rf /"; match_string = λ s. has_prefix s (codes "rm -rf /") }

abbrev net_policy : SandboxPolicy
net_policy = record open_policy {
  network_deny_subnets = some home ∷ [];
  denied_command_patterns = some wipe ∷ [];
  allowed_commands = codes "curl" ∷ codes "ls" ∷ [];
  network_commands = codes "curl" ∷ [];
}

abbrev fetch : Text
fetch = codes "A=1 /usr/bin/CURL http://10.0.0.1/x; ls"

names_curl : extract_base_command host fetch ≡ codes "curl"
unfolding extract_base_command text_eq to_lower base split trim_space is_space
names_curl = refl

finds_url : extract_urls_from_command fetch ≡ codes "http://10.0.0.1/x" ∷ []
unfolding extract_urls_from_command has_prefix contains
finds_url = refl

asks_about_home : (check_url net net_policy (codes "10.0.0.1")).decision ≡ ask_user
unfolding check_url has_prefix
asks_about_home = refl

check_url_iff_example :
    ((check_url net net_policy (codes "8.8.8.8")).decision ≡ allow)
    ↔ Open net net_policy (Net.host (codes "8.8.8.8"))
check_url_iff_example = check_url_iff net net_policy (codes "8.8.8.8")

enforce_url_iff_example :
    ((enforce_url net net_policy (codes "10.0.0.1") (codes "10.0.0.1" ∷ [])).decision ≡ allow)
    ↔ Enforces net
        (extract_url_host net (codes "10.0.0.1"))
        (codes "10.0.0.1" ∷ [])
        (check_url net net_policy (codes "10.0.0.1")).decision
enforce_url_iff_example = enforce_url_iff net net_policy (codes "10.0.0.1") (codes "10.0.0.1" ∷ [])

check_command-Judged_example :
    Judged host net_policy fetch
      (extract_base_command host fetch)
      (check_command host net_policy fetch).decision
check_command-Judged_example = check_command-Judged host net_policy fetch

needs_check : (check_command host net_policy fetch).need_url_check ≡ true
unfolding check_command text_eq to_lower base split trim_space is_space has_prefix contains
needs_check = refl

abbrev sandbox : Sandbox
sandbox = record { policy = normalized host net_policy }

sandbox_made : new_sandbox host (some net_policy) true ≡ made sandbox
unfolding new_sandbox normalized
sandbox_made = refl

abbrev updated_sandbox : Sandbox
updated_sandbox = (update_policy host sandbox (some open_policy)).0

Reachable-IsCompiled_example : IsCompiled host updated_sandbox.policy
Reachable-IsCompiled_example =
    Reachable-IsCompiled host updated_sandbox
      (updated (some open_policy) (created (some net_policy) true sandbox_made))
