-- ===== src/Sandbox/Extract/Laws.antt =====
-- What the extraction of URLs finds.
use mathlib.Core.Option.{some-injective}
use goharness.Prelude.{
  ℕ, zero, suc, ◌≡◌, ◌⊎◌, inl, inr, refl, sym, ◌∙◌, ap, Bool, true, ◌||◌, List, [], ◌∷◌, ◌++◌, some,
  Text, has_prefix, contains, length, drop, all, Bool-cases, Option-cases, arith,
}
use goharness.Sandbox.Extract.{
  url_run, http, https, with_run, match_url, find_all, keep_unless_stop, trim_stops, dedupe,
  extract_urls_from_command,
}

abbrev pub is_url : Text → Bool
is_url t = has_prefix t http || has_prefix t https

-- A match, before its stops are trimmed: the prefix and a run behind it.
abbrev Matched : Text → Type 0
Matched t = ((r : Text) × (t ≡ http ++ r)) ⊎ ((r : Text) × (t ≡ https ++ r))

with_run-Matched : (p run t : Text) → with_run p run ≡ some t → (r : Text) × (t ≡ p ++ r)
with_run-Matched p [] t e = absurd (cc e)
with_run-Matched p (c ∷ run) t e = (c ∷ run, sym (some-injective (p ++ c ∷ run) t e))

match_url-Matched : (s t : Text) → match_url s ≡ some t → Matched t
unfolding match_url
match_url-Matched s t e = elim (Bool-cases (has_prefix s http)) [
  | inl a ↦ inl (with_run-Matched http (url_run (drop 7 s)) t (ground arith))
  | inr a ↦ elim (Bool-cases (has_prefix s https)) [
    | inl b ↦ inr (with_run-Matched https (url_run (drop 8 s)) t (ground arith))
    | inr b ↦ absurd (ground arith)
  ]
]

-- Stops are trimmed no further than the slashes of the prefix.
slashes : (q : Text) → keep_unless_stop b'/' (keep_unless_stop b'/' q) ≡ b'/' ∷ b'/' ∷ q
slashes [] = refl
slashes (d ∷ q) = refl

abbrev scheme : Text → Text
scheme q =
    keep_unless_stop b'h' (keep_unless_stop b't' (keep_unless_stop b't' (keep_unless_stop b'p' q)))

trim_stops-http : (r : Text) → trim_stops (http ++ r) ≡ http ++ trim_stops r
unfolding trim_stops
trim_stops-http r = ap (λ x. scheme (keep_unless_stop b':' x)) (slashes (trim_stops r))

trim_stops-https : (r : Text) → trim_stops (https ++ r) ≡ https ++ trim_stops r
unfolding trim_stops
trim_stops-https r =
    ap (λ x. scheme (keep_unless_stop b's' (keep_unless_stop b':' x))) (slashes (trim_stops r))

http-is_url : (q : Text) → is_url (http ++ q) ≡ true
unfolding has_prefix
http-is_url q = refl

https-is_url : (q : Text) → is_url (https ++ q) ≡ true
unfolding has_prefix
https-is_url q = refl

Matched-is_url : (t : Text) → Matched t → is_url (trim_stops t) ≡ true
Matched-is_url t (inl (r, e)) =
    ap (λ x. is_url (trim_stops x)) e ∙ ap is_url (trim_stops-http r) ∙ http-is_url (trim_stops r)
Matched-is_url t (inr (r, e)) =
    ap (λ x. is_url (trim_stops x)) e ∙ ap is_url (trim_stops-https r) ∙ https-is_url (trim_stops r)

abbrev AllMatched : List Text → Type 0
AllMatched [] = Unit {0}
AllMatched (m ∷ ms) = Matched m × AllMatched ms

find_all-AllMatched : (skip : ℕ) (s : Text) → AllMatched (find_all skip s)
unfolding find_all
find_all-AllMatched zero [] = tt
find_all-AllMatched (suc skip) [] = tt
find_all-AllMatched (suc skip) (c ∷ s) = find_all-AllMatched skip s
find_all-AllMatched zero (c ∷ s) = elim (Option-cases (match_url (c ∷ s))) [
  | inl e ↦ rw (AllMatched, e) (find_all-AllMatched zero s)
  | inr (m, e) ↦
      rw (AllMatched, e) (match_url-Matched (c ∷ s) m e, find_all-AllMatched (length (drop 1 m)) s)
]

dedupe-is_url : (seen ms : List Text) → AllMatched ms → all is_url (dedupe seen ms) ≡ true
unfolding dedupe
dedupe-is_url seen [] a = refl
dedupe-is_url seen (m ∷ ms) (a, b) = elim (Bool-cases (contains seen m)) [
  | inl e ↦ rw e (dedupe-is_url seen ms b)
  | inr e ↦ rw (e, Matched-is_url m a) (dedupe-is_url (m ∷ seen) ms b)
]

-- extractURLsFromCommand
pub extract_urls_from_command-is_url : (s : Text) → all is_url (extract_urls_from_command s) ≡ true
unfolding extract_urls_from_command
extract_urls_from_command-is_url s = dedupe-is_url [] (find_all zero s) (find_all-AllMatched zero s)
