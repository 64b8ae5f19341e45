-- ===== src/Sandbox/Command/Laws.antt =====
-- What CheckCommand denies, asks about and allows, and that the loop over assignments ends.
use mathlib.Core.List.{Memᴰ}
use goharness.Prelude.{
  ◌≡◌, ◌≢◌, ◌⊎◌, inl, inr, refl, sym, ◌∙◌, ap, subst, true, false, List, [], ◌∷◌, Option, none,
  some, Text, all, Bool-cases, arith,
}
use mathlib.Core.Option.{some-injective}
use goharness.Sandbox.Host.{Host}
use goharness.Sandbox.Policy.{Pattern, SandboxPolicy}
use goharness.Sandbox.Decision.{Decision, allow, deny, ask_user}
use goharness.Sandbox.Extract.{extract_urls_from_command}
use goharness.Sandbox.Extract.Laws.{is_url, extract_urls_from_command-is_url}
use goharness.Sandbox.Command.{
  CommandDecision, first_match, contains_lower, extract_base_command, check_undenied, check_against,
  check_command, with_urls, no_entries,
}

-- Some pattern that is not nil matches the command.
abbrev pub Dangerous : Text → List (Option Pattern) → Type 0
Dangerous s ps = (d : Pattern) × Memᴰ (some d) ps × (d.match_string s ≡ true)

first_match-Dangerous :
    (s : Text) (ps : List (Option Pattern)) (d : Pattern)
    → first_match s ps ≡ some d
    → Dangerous s ps
unfolding first_match
first_match-Dangerous s [] d e = absurd (cc e)
first_match-Dangerous s (none ∷ ps) d e =
    let (x, m, k) = first_match-Dangerous s ps d e in (x, Memᴰ.tail m, k)
first_match-Dangerous s (some p ∷ ps) d e = elim (Bool-cases (p.match_string s)) [
  | inl k ↦ (p, Memᴰ.head refl, k)
  | inr k ↦ let (x, m, q) = first_match-Dangerous s ps d (ground arith) in (x, Memᴰ.tail m, q)
]

first_match-none :
    (s : Text) (ps : List (Option Pattern))
    → first_match s ps ≡ none
    → (d : Pattern) → Memᴰ (some d) ps
    → d.match_string s ≡ false
unfolding first_match
first_match-none s [] e d m = elim m [ ]
first_match-none s (none ∷ ps) e d (Memᴰ.head q) = absurd (cc q)
first_match-none s (none ∷ ps) e d (Memᴰ.tail m) = first_match-none s ps e d m
first_match-none s (some p ∷ ps) e d m = elim (Bool-cases (p.match_string s)) [
  | inl k ↦ absurd (ground arith)
  | inr k ↦ elim m [
    | Memᴰ.head q ↦ ap (λ x. x.match_string s) (some-injective d p q) ∙ k
    | Memᴰ.tail t ↦ first_match-none s ps (ground arith) d t
  ]
]

abbrev pub Harmless : Text → List (Option Pattern) → Type 0
Harmless s ps = (d : Pattern) → Memᴰ (some d) ps → d.match_string s ≡ false

-- What a decision means for the command `s` of base name `name`.
abbrev pub Judged : Host → SandboxPolicy → Text → Text → Decision → Type 0
Judged h p s name deny = Dangerous s p.denied_command_patterns
Judged h p s name ask_user =
    Harmless s p.denied_command_patterns
    × (p.allowed_commands ≢ [])
    × (contains_lower h p.allowed_commands name ≡ false)
Judged h p s name allow =
    Harmless s p.denied_command_patterns
    × ((p.allowed_commands ≡ []) ⊎ (contains_lower h p.allowed_commands name ≡ true))

with_urls-allow : (us : List Text) → (with_urls us).decision ≡ allow
with_urls-allow [] = refl
with_urls-allow (u ∷ us) = refl

entries-nil : (ts : List Text) → no_entries ts ≡ true → ts ≡ []
entries-nil [] e = refl
entries-nil (t ∷ ts) e = absurd (cc e)

entries-ne : (ts : List Text) → no_entries ts ≡ false → ts ≢ []
entries-ne ts e q = absurd (cc (ap no_entries q, e))

-- The decision is `allow` unless the whitelist is there and does not hold the name.
undenied-ask :
    (h : Host) (p : SandboxPolicy) (s name : Text)
    → no_entries p.allowed_commands ≡ false
    → contains_lower h p.allowed_commands name ≡ false
    → (check_undenied h p s name).decision ≡ ask_user
undenied-ask h p s name a b = rw (a, b) refl

undenied-allow :
    (h : Host) (p : SandboxPolicy) (s name : Text)
    → (no_entries p.allowed_commands ≡ true) ⊎ (contains_lower h p.allowed_commands name ≡ true)
    → (check_undenied h p s name).decision ≡ allow
undenied-allow h p s name c = let u = with_urls-allow (extract_urls_from_command s) in ground arith

undenied-Judged :
    (h : Host) (p : SandboxPolicy) (s name : Text)
    → Harmless s p.denied_command_patterns
    → Judged h p s name (check_undenied h p s name).decision
undenied-Judged h p s name k = elim (Bool-cases (no_entries p.allowed_commands)) [
  | inl a ↦
      subst (Judged h p s name) (sym (undenied-allow h p s name (inl a)))
        (k, inl (entries-nil p.allowed_commands a))
  | inr a ↦ elim (Bool-cases (contains_lower h p.allowed_commands name)) [
    | inl b ↦ subst (Judged h p s name) (sym (undenied-allow h p s name (inr b))) (k, inr b)
    | inr b ↦
        subst (Judged h p s name) (sym (undenied-ask h p s name a b))
          (k, entries-ne p.allowed_commands a, b)
  ]
]

against-Judged :
    (h : Host) (p : SandboxPolicy) (s : Text) (o : Option Pattern)
    → first_match s p.denied_command_patterns ≡ o
    → Judged h p s (extract_base_command h s) (check_against h p s o).decision
against-Judged h p s (some d) e = first_match-Dangerous s p.denied_command_patterns d e
against-Judged h p s none e =
    undenied-Judged h p s (extract_base_command h s)
      (first_match-none s p.denied_command_patterns e)

-- CheckCommand denies a command that some denied pattern matches. Of the others it asks about
-- those whose base name is not in the list of allowed commands, when there is such a list, and
-- allows the rest.
pub check_command-Judged :
    (h : Host) (p : SandboxPolicy) (s : Text)
    → Judged h p s (extract_base_command h s) (check_command h p s).decision
unfolding check_command
check_command-Judged h p s = against-Judged h p s (first_match s p.denied_command_patterns) refl

-- The URLs that are to be checked.
abbrev pub Prechecked : Host → SandboxPolicy → Text → CommandDecision → Type 0
Prechecked h p s dec =
    (contains_lower h p.network_commands (extract_base_command h s) ≡ true)
    × (dec.urls ≡ extract_urls_from_command s)
    × (dec.urls ≢ [])
    × (all is_url dec.urls ≡ true)

with_urls-urls :
    (us : List Text)
    → (with_urls us).need_url_check ≡ true
    → ((with_urls us).urls ≡ us) × ((with_urls us).urls ≢ [])
with_urls-urls [] e = absurd (cc e)
with_urls-urls (u ∷ us) e = (refl, λ q. absurd (cc q))

undenied-urls :
    (h : Host) (p : SandboxPolicy) (s name : Text)
    → (check_undenied h p s name).need_url_check ≡ true
    → (contains_lower h p.network_commands name ≡ true)
      × (check_undenied h p s name ≡ with_urls (extract_urls_from_command s))
undenied-urls h p s name e = elim (Bool-cases (contains_lower h p.network_commands name)) [
  | inl n ↦ (n, ground arith)
  | inr n ↦ absurd (ground arith)
]

against-Prechecked :
    (h : Host) (p : SandboxPolicy) (s : Text) (o : Option Pattern)
    → (check_against h p s o).need_url_check ≡ true
    → Prechecked h p s (check_against h p s o)
against-Prechecked h p s (some d) e = absurd (cc e)
against-Prechecked h p s none e =
    let us = extract_urls_from_command s in
    let (n, q) = undenied-urls h p s (extract_base_command h s) e in
    let (a, b) = with_urls-urls us (ap (λ d. d.need_url_check) (sym q) ∙ e) in
    let c = ap (λ d. d.urls) q ∙ a in
    (
      n,
      c,
      λ z. absurd (b (sym (ap (λ d. d.urls) q) ∙ z)),
      ap (all is_url) c ∙ extract_urls_from_command-is_url s,
    )

-- When CheckCommand wants a check of URLs, the base name is a network command, the URLs are those
-- that are extracted from the command, at least one, and each begins with http:// or https://,
-- also after its trailing stops are trimmed.
pub check_command-Prechecked :
    (h : Host) (p : SandboxPolicy) (s : Text)
    → (check_command h p s).need_url_check ≡ true
    → Prechecked h p s (check_command h p s)
unfolding check_command
check_command-Prechecked h p s e =
    against-Prechecked h p s (first_match s p.denied_command_patterns) e
