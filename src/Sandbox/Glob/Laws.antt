-- ===== src/Sandbox/Glob/Laws.antt =====
-- matchGlob against its meaning: a star stands for any run of characters without a line feed, and
-- every other character for itself. The cache changes no answer.
use goharness.Prelude.{
  ℕ, ◌==◌, ==_iff, ==_refl, ◌≡◌, ◌↔◌, ◌⊎◌, refl, sym, ◌∙◌, ap, subst, true, false, [], ◌∷◌, Option,
  none, some, Text, text_eq, text_eq-eq, inl, inr, Bool-cases, arith,
}
use goharness.Sandbox.Glob.{
  rune, any_run, Regexp, star, line_feed, glob_regexp, compile, match_string, match_glob, Cache,
  load, match_glob_cached, match_loaded, matches, store_compiled,
}
use goharness.Sandbox.Glob.Escape.{items, item-star, item-rune, compile-glob_regexp}

pub data GlobMatches : Text → Text → Type 0 where
  done : GlobMatches [] []
  same :
      {c : ℕ} {pattern name : Text}
      → (c == star) ≡ false
      → GlobMatches pattern name
      → GlobMatches (c ∷ pattern) (c ∷ name)
  leave :
      {c : ℕ} {pattern name : Text}
      → (c == star) ≡ true
      → GlobMatches pattern name
      → GlobMatches (c ∷ pattern) name
  eat :
      {c d : ℕ} {pattern name : Text}
      → (c == star) ≡ true
      → (d == line_feed) ≡ false
      → GlobMatches (c ∷ pattern) name
      → GlobMatches (c ∷ pattern) (d ∷ name)

run-leave :
    (re : Regexp) (s : Text) → match_string re s ≡ true → match_string (any_run ∷ re) s ≡ true
unfolding match_string
run-leave re [] h = h
run-leave re (c ∷ s) h = rw h refl

run-eat :
    (re : Regexp) (d : ℕ) (s : Text)
    → (d == line_feed) ≡ false
    → match_string (any_run ∷ re) s ≡ true
    → match_string (any_run ∷ re) (d ∷ s) ≡ true
unfolding match_string
run-eat re d s n h = ground arith

-- Every text in the relation is matched.
GlobMatches→match : {p s : Text} → GlobMatches p s → match_string (items p) s ≡ true
unfolding match_string
GlobMatches→match done = refl
GlobMatches→match (same {c} {pattern} {name} n d) = rw n (rw (==_refl c) (GlobMatches→match d))
GlobMatches→match (leave {c} {pattern} {name} e d) =
    rw e (run-leave (items pattern) name (GlobMatches→match d))
GlobMatches→match (eat {c} {d} {pattern} {name} e n g) = rw e (
    run-eat (items pattern) d name n
      (ap (λ i. match_string (i ∷ items pattern) name) (item-star c e) ∙ GlobMatches→match g))

run-inv :
    (re : Regexp) (d : ℕ) (s : Text)
    → match_string (any_run ∷ re) (d ∷ s) ≡ true
    → (match_string re (d ∷ s) ≡ true)
      ⊎ (((d == line_feed) ≡ false) × (match_string (any_run ∷ re) s ≡ true))
unfolding match_string
run-inv re d s h = elim (Bool-cases (match_string re (d ∷ s))) [
  | inl m ↦ inl m
  | inr m ↦ elim (Bool-cases (d == line_feed)) [
    | inl e ↦ absurd (ground arith)
    | inr e ↦ inr (e, ground arith)
  ]
]

rune-inv :
    (r d : ℕ) (re : Regexp) (s : Text)
    → match_string (rune r ∷ re) (d ∷ s) ≡ true
    → (r ≡ d) × (match_string re s ≡ true)
unfolding match_string
rune-inv r d re s h = elim (Bool-cases (d == r)) [
  | inl e ↦ (sym ((==_iff d r).0 e), ground arith)
  | inr e ↦ absurd (ground arith)
]

-- A star at the head, with what a run may do at each length of the name.
star-matches :
    (c : ℕ) (p : Text)
    → (c == star) ≡ true
    → ((s : Text) → match_string (items p) s ≡ true → GlobMatches p s)
    → (s : Text) → match_string (any_run ∷ items p) s ≡ true
    → GlobMatches (c ∷ p) s
unfolding match_string
star-matches c p e rest [] h = leave e (rest [] h)
star-matches c p e rest (d ∷ s) h = elim (run-inv (items p) d s h) [
  | inl m ↦ leave e (rest (d ∷ s) m)
  | inr q ↦ eat e (q.0) (star-matches c p e rest s (q.1))
]

rune-matches :
    (c : ℕ) (p : Text)
    → (c == star) ≡ false
    → ((s : Text) → match_string (items p) s ≡ true → GlobMatches p s)
    → (s : Text) → match_string (rune c ∷ items p) s ≡ true
    → GlobMatches (c ∷ p) s
unfolding match_string
rune-matches c p e rest [] h = absurd (ground arith)
rune-matches c p e rest (d ∷ s) h =
    let (q, m) = rune-inv c d (items p) s h in
    subst (λ x. GlobMatches (c ∷ p) (x ∷ s)) q (same e (rest s m))

match→GlobMatches : (p s : Text) → match_string (items p) s ≡ true → GlobMatches p s
unfolding match_string
match→GlobMatches [] [] h = done
match→GlobMatches [] (d ∷ s) h = absurd (ground arith)
match→GlobMatches (c ∷ p) s h = elim (Bool-cases (c == star)) [
  | inl e ↦
      star-matches c p e (match→GlobMatches p) s
        (ap (λ i. match_string (i ∷ items p) s) (item-star c e) ∙ h)
  | inr e ↦
      rune-matches c p e (match→GlobMatches p) s
        (ap (λ i. match_string (i ∷ items p) s) (item-rune c e) ∙ h)
]

match_glob-items : (p s : Text) → match_glob p s ≡ match_string (items p) s
unfolding match_glob
match_glob-items p s = ap (λ r. matches r s) (compile-glob_regexp p)

-- matchGlob answers yes exactly where the name reads as the pattern with each star replaced by a
-- run of characters without a line feed, every other character of the pattern standing for
-- itself.
pub match_glob_iff : (p s : Text) → (match_glob p s ≡ true) ↔ GlobMatches p s
match_glob_iff p s = (
  λ h. match→GlobMatches p s (sym (match_glob-items p s) ∙ h),
  λ g. match_glob-items p s ∙ GlobMatches→match g,
)

-- A cache of which every entry is the compiled expression of its own pattern.
abbrev pub CacheIsValid : Cache → Type 0
CacheIsValid cache =
    (p : Text) (re : Regexp) → load p cache ≡ some re → compile (glob_regexp p) ≡ some re

load-here :
    (p q : Text) (re : Regexp) (cache : Cache)
    → text_eq p q ≡ true
    → load q ((p, re) ∷ cache) ≡ some re
unfolding load
load-here p q re cache t = rw t refl

load-there :
    (p q : Text) (re : Regexp) (cache : Cache)
    → text_eq p q ≡ false
    → load q ((p, re) ∷ cache) ≡ load q cache
unfolding load
load-there p q re cache t = rw t refl

store_compiled-lem :
    (cache : Cache) (p s : Text) (r : Option Regexp)
    → compile (glob_regexp p) ≡ r
    → CacheIsValid cache
    → ((store_compiled p s cache r).0 ≡ matches r s) × CacheIsValid ((store_compiled p s cache r).1)
store_compiled-lem cache p s none e v = (refl, v)
store_compiled-lem cache p s (some re) e v = (
  refl,
  λ q re' h. elim (Bool-cases (text_eq p q)) [
    | inl t ↦
        ap (λ x. compile (glob_regexp x)) (sym (text_eq-eq p q t))
        ∙ e
        ∙ sym (load-here p q re cache t)
        ∙ h
    | inr t ↦ v q re' (sym (load-there p q re cache t) ∙ h)
  ],
)

match_loaded-lem :
    (cache : Cache) (p s : Text) (r : Option Regexp)
    → load p cache ≡ r
    → CacheIsValid cache
    → ((match_loaded p s cache r).0 ≡ match_glob p s) × CacheIsValid ((match_loaded p s cache r).1)
unfolding match_glob
match_loaded-lem cache p s (some re) e v = (sym (ap (λ r. matches r s) (v p re e)), v)
match_loaded-lem cache p s none e v = store_compiled-lem cache p s (compile (glob_regexp p)) refl v

-- With a cache of which every entry is the compiled expression of its own pattern, matchGlob
-- answers as it does without a cache, and leaves such a cache.
pub match_glob_cached-match_glob :
    (cache : Cache) (p s : Text)
    → CacheIsValid cache
    → ((match_glob_cached cache p s).0 ≡ match_glob p s)
      × CacheIsValid ((match_glob_cached cache p s).1)
unfolding match_glob_cached
match_glob_cached-match_glob cache p s v = match_loaded-lem cache p s (load p cache) refl v
