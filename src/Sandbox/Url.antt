-- ===== src/Sandbox/Url.antt =====
-- sandbox/url_checker.go: the check of a URL before and at its use.
pub mod Laws
use goharness.Prelude.{
  Bool, true, false, List, [], ◌∷◌, Option, none, some, Text, codes, any, if◌then◌else◌,
}
use goharness.Sandbox.Policy.{IpNet, SandboxPolicy}
use goharness.Sandbox.Decision.{
  Decision, allow, deny, ask_user, Reason, no_reason, url_parse_failed, ssrf_blocked,
}
use goharness.Sandbox.Net.{Net, Parsed, failed, host}

pub record UrlDecision : Type 0 where
  pub decision : Decision
  pub reason : Reason
  pub resolved_ips : List Text

-- `n != nil && n.Contains(ip)`
abbrev pub in_subnet : Text → Option IpNet → Bool
in_subnet ip none = false
in_subnet ip (some n) = n.contains_ip ip

abbrev pub is_address_denied : SandboxPolicy → Option Text → Bool
is_address_denied p none = true
is_address_denied p (some ip) =
    if any (in_subnet ip) p.network_allow_subnets
    then false
    else any (in_subnet ip) p.network_deny_subnets

-- `isIPDenied`
unfoldable pub is_ip_denied : Net → Text → SandboxPolicy → Bool
is_ip_denied net ip p = is_address_denied p (net.parse_ip ip)

abbrev pub address_or_lookup : Net → Text → Option Text → Option (List Text)
address_or_lookup net name (some ip) = some (ip ∷ [])
address_or_lookup net name none = net.lookup_ip name

-- `resolveHostIPs`
unfoldable pub resolve_host_ips : Net → Text → Option (List Text)
resolve_host_ips net name = address_or_lookup net name (net.parse_ip name)

abbrev pub refused : Text → Text → UrlDecision
refused raw_url cause = record {
  decision = deny;
  reason = url_parse_failed raw_url cause;
  resolved_ips = [];
}

abbrev pub check_addresses : Net → SandboxPolicy → Text → Option (List Text) → UrlDecision
check_addresses net p raw_url none = refused raw_url (codes "主机名解析失败")
check_addresses net p raw_url (some []) = refused raw_url (codes "主机名解析失败")
check_addresses net p raw_url (some (ip ∷ ips)) =
    if any (λ i. is_ip_denied net i p) (ip ∷ ips)
    then record {
      decision = ask_user;
      reason = ssrf_blocked raw_url (ip ∷ ips);
      resolved_ips = ip ∷ ips;
    }
    else record { decision = allow; reason = no_reason; resolved_ips = ip ∷ ips }

abbrev pub check_parsed : Net → SandboxPolicy → Text → Parsed → UrlDecision
check_parsed net p raw_url (failed e) = refused raw_url e
check_parsed net p raw_url (host []) = refused raw_url (codes "URL 中缺少 host")
check_parsed net p raw_url (host (c ∷ name)) =
    check_addresses net p raw_url (resolve_host_ips net (c ∷ name))

-- `CheckURL`
unfoldable pub check_url : Net → SandboxPolicy → Text → UrlDecision
unfolding is_ip_denied resolve_host_ips
check_url net p raw_url = check_parsed net p raw_url (net.parse_url raw_url)

abbrev pub host_of : Parsed → Text
host_of (failed e) = []
host_of (host name) = name

-- `extractURLHost`
unfoldable pub extract_url_host : Net → Text → Text
extract_url_host net raw_url = host_of (net.parse_url raw_url)

-- The loop over the granted hosts, for a host that is not empty.
abbrev pub granted : Net → List Text → Text → UrlDecision → UrlDecision
granted net allowed_hosts [] dec = dec
granted net allowed_hosts (c ∷ name) dec =
    if any (λ allowed. net.equal_fold allowed (c ∷ name)) allowed_hosts
    then record { decision = allow; reason = no_reason; resolved_ips = dec.resolved_ips }
    else dec

abbrev pub enforce_decided : Net → Text → List Text → Decision → UrlDecision → UrlDecision
enforce_decided net raw_url allowed_hosts allow dec = dec
enforce_decided net raw_url allowed_hosts deny dec = dec
enforce_decided net raw_url [] ask_user dec = dec
enforce_decided net raw_url (a ∷ allowed_hosts) ask_user dec =
    granted net (a ∷ allowed_hosts) (extract_url_host net raw_url) dec

-- `EnforceURLWithWhitelist`
unfoldable pub enforce_url : Net → SandboxPolicy → Text → List Text → UrlDecision
unfolding check_url extract_url_host
enforce_url net p raw_url allowed_hosts =
    let dec = check_url net p raw_url in enforce_decided net raw_url allowed_hosts dec.decision dec
