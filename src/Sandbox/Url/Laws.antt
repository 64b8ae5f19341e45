-- ===== src/Sandbox/Url/Laws.antt =====
-- Which URLs are allowed, and what the hosts that a session granted change.
use mathlib.Core.List.{Memᴰ}
use goharness.Prelude.{
  ◌≡◌, ◌≢◌, ◌↔◌, refl, ◌∙◌, ap, true, false, List, [], ◌∷◌, Option, none, some, Text, any, inl, inr,
  Bool-cases, arith,
}
use goharness.Sandbox.Policy.{IpNet, SandboxPolicy}
use goharness.Sandbox.Decision.{Decision, allow, deny, ask_user}
use goharness.Sandbox.Net.{Net, Parsed, failed, host}
use goharness.Sandbox.File.Members.{any-Mem, Mem-any, any-none, none-any}
use goharness.Sandbox.Url.{
  UrlDecision, in_subnet, is_address_denied, is_ip_denied, resolve_host_ips, check_addresses,
  check_parsed, check_url, extract_url_host, granted, enforce_decided, enforce_url,
}

-- An address that may be contacted: it is one, and it lies in an allowed subnet or in no denied one.
pub data Reachable (net : Net) (p : SandboxPolicy) (text : Text) : Type 0 where
  by_allowed :
      {ip : Text} {n : IpNet}
      → net.parse_ip text ≡ some ip
      → Memᴰ (some n) p.network_allow_subnets
      → n.contains_ip ip ≡ true
      → Reachable net p text
  by_no_denied :
      {ip : Text}
      → net.parse_ip text ≡ some ip
      → ((n : IpNet) → Memᴰ (some n) p.network_deny_subnets → n.contains_ip ip ≡ false)
      → Reachable net p text

subnet-Mem :
    (ip : Text) (ns : List (Option IpNet))
    → any (in_subnet ip) ns ≡ true
    → (n : IpNet) × Memᴰ (some n) ns × (n.contains_ip ip ≡ true)
subnet-Mem ip ns h = from (any-Mem (in_subnet ip) ns h)
  where
    from :
        ((o : Option IpNet) × Memᴰ o ns × (in_subnet ip o ≡ true))
        → (n : IpNet) × Memᴰ (some n) ns × (n.contains_ip ip ≡ true)
    from (none, m, k) = absurd (cc k)
    from (some n, m, k) = (n, m, k)

no_subnet :
    (ip : Text) (ns : List (Option IpNet))
    → ((n : IpNet) → Memᴰ (some n) ns → n.contains_ip ip ≡ false)
    → any (in_subnet ip) ns ≡ false
no_subnet ip ns k = none-any (in_subnet ip) ns each
  where
    each : (o : Option IpNet) → Memᴰ o ns → in_subnet ip o ≡ false
    each none m = refl
    each (some n) m = k n m

address-Reachable :
    (net : Net) (p : SandboxPolicy) (text : Text) (o : Option Text)
    → net.parse_ip text ≡ o
    → is_address_denied p o ≡ false
    → Reachable net p text
address-Reachable net p text none e h = absurd (cc h)
address-Reachable net p text (some ip) e h =
    elim (Bool-cases (any (in_subnet ip) p.network_allow_subnets)) [
      | inl a ↦ let (n, m, k) = subnet-Mem ip p.network_allow_subnets a in by_allowed e m k
      | inr a ↦
          by_no_denied e
            λ n m. any-none (in_subnet ip) p.network_deny_subnets (ground arith) (some n) m
    ]

Reachable-address :
    (net : Net) (p : SandboxPolicy) (text : Text)
    → Reachable net p text
    → is_ip_denied net text p ≡ false
unfolding is_ip_denied
Reachable-address net p text (by_allowed {ip} {n} e m k) =
    let a = Mem-any (in_subnet ip) (some n) p.network_allow_subnets m k in
    ap (is_address_denied p) e ∙ rw a refl
Reachable-address net p text (by_no_denied {ip} e k) =
    let a = no_subnet ip p.network_deny_subnets k in ap (is_address_denied p) e ∙ ground arith

is_ip_denied-Reachable :
    (net : Net) (p : SandboxPolicy) (text : Text)
    → is_ip_denied net text p ≡ false
    → Reachable net p text
unfolding is_ip_denied
is_ip_denied-Reachable net p text h = address-Reachable net p text (net.parse_ip text) refl h

-- The host has an address, and each of its addresses is reachable.
abbrev pub Addresses : Net → SandboxPolicy → Option (List Text) → Type 0
Addresses net p none = ⊥
Addresses net p (some ips) = (ips ≢ []) × ((ip : Text) → Memᴰ ip ips → Reachable net p ip)

abbrev pub Open : Net → SandboxPolicy → Parsed → Type 0
Open net p (failed e) = ⊥
Open net p (host name) = (name ≢ []) × Addresses net p (resolve_host_ips net name)

Addresses-Open :
    (net : Net) (p : SandboxPolicy) (raw_url : Text) (o : Option (List Text))
    → ((check_addresses net p raw_url o).decision ≡ allow) ↔ Addresses net p o
Addresses-Open net p raw_url none = (λ e. absurd (cc e), λ q. absurd q)
Addresses-Open net p raw_url (some []) = (λ e. absurd (cc e), λ q. absurd (q.0 refl))
Addresses-Open net p raw_url (some (ip ∷ ips)) = (to, from)
  where
    to :
        (check_addresses net p raw_url (some (ip ∷ ips))).decision ≡ allow
        → Addresses net p (some (ip ∷ ips))
    to e = elim (Bool-cases (any (λ i. is_ip_denied net i p) (ip ∷ ips))) [
      | inl a ↦ absurd (ground arith)
      | inr a ↦ (
        λ q. absurd (cc q),
        λ i m.
            is_ip_denied-Reachable net p i (any-none (λ j. is_ip_denied net j p) (ip ∷ ips) a i m),
      )
    ]

    from :
        Addresses net p (some (ip ∷ ips))
        → (check_addresses net p raw_url (some (ip ∷ ips))).decision ≡ allow
    from q =
        let a =
          none-any (λ j. is_ip_denied net j p) (ip ∷ ips)
            (λ i m. Reachable-address net p i (q.1 i m)) in
        rw a refl

parsed-Open :
    (net : Net) (p : SandboxPolicy) (raw_url : Text) (u : Parsed)
    → ((check_parsed net p raw_url u).decision ≡ allow) ↔ Open net p u
parsed-Open net p raw_url (failed e) = (λ h. absurd (cc h), λ q. absurd q)
parsed-Open net p raw_url (host []) = (λ h. absurd (cc h), λ q. absurd (q.0 refl))
parsed-Open net p raw_url (host (c ∷ name)) =
    let (to, from) = Addresses-Open net p raw_url (resolve_host_ips net (c ∷ name)) in
    (λ h. (λ q. absurd (cc q), to h), λ q. from q.1)

-- CheckURL allows a URL exactly when it parses, its host is not empty and resolves to at least
-- one address, and each address is one that lies in an allowed subnet or in no denied one.
pub check_url_iff :
    (net : Net) (p : SandboxPolicy) (raw_url : Text)
    → ((check_url net p raw_url).decision ≡ allow) ↔ Open net p (net.parse_url raw_url)
unfolding check_url
check_url_iff net p raw_url = parsed-Open net p raw_url (net.parse_url raw_url)

-- The URL has a host that equals a granted one, letter case apart.
abbrev pub Granted : Net → Text → List Text → Type 0
Granted net name allowed_hosts =
    (name ≢ []) × (a : Text) × Memᴰ a allowed_hosts × (net.equal_fold a name ≡ true)

granted-Granted :
    (net : Net) (hosts : List Text) (name : Text) (dec : UrlDecision)
    → dec.decision ≡ ask_user
    → ((granted net hosts name dec).decision ≡ allow) ↔ Granted net name hosts
granted-Granted net hosts [] dec d = (λ e. absurd (cc (e, d)), λ q. absurd (q.0 refl))
granted-Granted net hosts (c ∷ name) dec d = (to, from)
  where
    to : (granted net hosts (c ∷ name) dec).decision ≡ allow → Granted net (c ∷ name) hosts
    to e = elim (Bool-cases (any (λ a. net.equal_fold a (c ∷ name)) hosts)) [
      | inl a ↦
          let (x, m, k) = any-Mem (λ x. net.equal_fold x (c ∷ name)) hosts a in
          (λ q. absurd (cc q), x, m, k)
      | inr a ↦ absurd (ground arith)
    ]

    from : Granted net (c ∷ name) hosts → (granted net hosts (c ∷ name) dec).decision ≡ allow
    from (n, a, m, k) = rw (Mem-any (λ x. net.equal_fold x (c ∷ name)) a hosts m k) refl

-- What the granted hosts decide: `d` is the decision of CheckURL.
abbrev pub Enforces : Net → Text → List Text → Decision → Type 0
Enforces net name allowed_hosts allow = Unit {0}
Enforces net name allowed_hosts deny = ⊥
Enforces net name allowed_hosts ask_user = Granted net name allowed_hosts

decided-Enforces :
    (net : Net) (raw_url : Text) (hosts : List Text) (d : Decision) (dec : UrlDecision)
    → dec.decision ≡ d
    → ((enforce_decided net raw_url hosts d dec).decision ≡ allow)
      ↔ Enforces net (extract_url_host net raw_url) hosts d
decided-Enforces net raw_url hosts allow dec e = (λ h. tt, λ q. e)
decided-Enforces net raw_url hosts deny dec e = (λ h. absurd (cc (h, e)), λ q. absurd q)
decided-Enforces net raw_url [] ask_user dec e =
    (λ h. absurd (cc (h, e)), λ q. let (n, a, m, k) = q in elim m [ ])
decided-Enforces net raw_url (a ∷ hosts) ask_user dec e =
    granted-Granted net (a ∷ hosts) (extract_url_host net raw_url) dec e

-- EnforceURLWithWhitelist allows a URL exactly when CheckURL allows it, or CheckURL asks about it
-- and its host, which is not empty, equals a granted host, letter case apart; what CheckURL
-- denies stays denied.
pub enforce_url_iff :
    (net : Net) (p : SandboxPolicy) (raw_url : Text) (hosts : List Text)
    → ((enforce_url net p raw_url hosts).decision ≡ allow)
      ↔ Enforces net (extract_url_host net raw_url) hosts (check_url net p raw_url).decision
unfolding enforce_url
enforce_url_iff net p raw_url hosts =
    decided-Enforces net raw_url hosts (check_url net p raw_url).decision (check_url net p raw_url)
      refl
