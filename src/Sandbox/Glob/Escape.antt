-- ===== src/Sandbox/Glob/Escape.antt =====
-- The expression that matchGlob writes for a pattern compiles, to the pattern's own characters with
-- a run for each star: no character of a pattern is read as an operator.
use goharness.Prelude.{
  ℕ, ◌==◌, ◌⊎◌, ◌≡◌, refl, sym, ◌∙◌, ap, true, false, [], ◌∷◌, some, Text, if◌then◌else◌, inl, inr,
  Bool-cases, arith,
}
use goharness.Sandbox.Glob.{
  Item, rune, any_run, Regexp, star, backslash, is_meta, glob_body, glob_regexp, compile_body,
  compile, consed,
}

abbrev pub item : ℕ → Item
item r = if r == star then any_run else rune r

abbrev pub items : Text → Regexp
items [] = []
items (r ∷ pattern) = item r ∷ items pattern

-- What the loop writes has at least the closing anchor.
glob_body-cons : (p : Text) → (c : ℕ) × (s : Text) × (glob_body p ≡ c ∷ s)
unfolding glob_body
glob_body-cons [] = (b'$', [], refl)
glob_body-cons (r ∷ p) = elim (Bool-cases (r == star)) [
  | inl e ↦ (b'.', star ∷ glob_body p, rw e refl)
  | inr e ↦ elim (Bool-cases (is_meta r)) [
    | inl m ↦ (backslash, r ∷ glob_body p, ground arith)
    | inr m ↦ (r, glob_body p, ground arith)
  ]
]

compile_body-plain :
    (r c : ℕ) (s : Text)
    → (r == star) ≡ false
    → is_meta r ≡ false
    → compile_body (r ∷ c ∷ s) ≡ consed (rune r) (compile_body (c ∷ s))
unfolding compile_body
compile_body-plain r c s e m = ground arith

compile_body-run : (s : Text) → compile_body (b'.' ∷ star ∷ s) ≡ consed any_run (compile_body s)
unfolding compile_body
compile_body-run s = refl

compile_body-quoted :
    (r : ℕ) (s : Text) → compile_body (backslash ∷ r ∷ s) ≡ consed (rune r) (compile_body s)
unfolding compile_body
compile_body-quoted r s = refl

glob_body-star :
    (r : ℕ) (p : Text) → (r == star) ≡ true → glob_body (r ∷ p) ≡ b'.' ∷ star ∷ glob_body p
unfolding glob_body
glob_body-star r p e = rw e refl

glob_body-meta :
    (r : ℕ) (p : Text)
    → (r == star) ≡ false
    → is_meta r ≡ true
    → glob_body (r ∷ p) ≡ backslash ∷ r ∷ glob_body p
unfolding glob_body
glob_body-meta r p e m = ground arith

glob_body-plain :
    (r : ℕ) (p : Text)
    → (r == star) ≡ false
    → is_meta r ≡ false
    → glob_body (r ∷ p) ≡ r ∷ glob_body p
unfolding glob_body
glob_body-plain r p e m = ground arith

pub item-star : (r : ℕ) → (r == star) ≡ true → any_run ≡ item r
item-star r e = rw e refl

pub item-rune : (r : ℕ) → (r == star) ≡ false → rune r ≡ item r
item-rune r e = rw e refl

compile_body-cons :
    (r : ℕ) (p : Text)
    → ((r == star) ≡ true) ⊎ ((r == star) ≡ false)
    → (is_meta r ≡ true) ⊎ (is_meta r ≡ false)
    → compile_body (glob_body p) ≡ some (items p)
    → compile_body (glob_body (r ∷ p)) ≡ some (items (r ∷ p))
compile_body-cons r p (inl e) m ih =
    ap compile_body (glob_body-star r p e)
    ∙ compile_body-run (glob_body p)
    ∙ ap (consed any_run) ih
    ∙ ap (λ i. some (i ∷ items p)) (item-star r e)
compile_body-cons r p (inr e) (inl m) ih =
    ap compile_body (glob_body-meta r p e m)
    ∙ compile_body-quoted r (glob_body p)
    ∙ ap (consed (rune r)) ih
    ∙ ap (λ i. some (i ∷ items p)) (item-rune r e)
compile_body-cons r p (inr e) (inr m) ih =
    let (c, s, k) = glob_body-cons p in
    ap compile_body (glob_body-plain r p e m)
    ∙ ap (λ t. compile_body (r ∷ t)) k
    ∙ compile_body-plain r c s e m
    ∙ ap (λ t. consed (rune r) (compile_body t)) (sym k)
    ∙ ap (consed (rune r)) ih
    ∙ ap (λ i. some (i ∷ items p)) (item-rune r e)

compile_body-glob_body : (p : Text) → compile_body (glob_body p) ≡ some (items p)
unfolding glob_body compile_body
compile_body-glob_body [] = refl
compile_body-glob_body (r ∷ p) =
    compile_body-cons r p (Bool-cases (r == star)) (Bool-cases (is_meta r))
      (compile_body-glob_body p)

-- A pattern's expression compiles to one item for each of its characters.
pub compile-glob_regexp : (p : Text) → compile (glob_regexp p) ≡ some (items p)
unfolding compile glob_regexp
compile-glob_regexp p = compile_body-glob_body p
