-- ===== src/Tools/Strings/Replace.antt =====
-- Replace: the text falls into pieces between the places of the old text, and the new text stands
-- between the same pieces.
use goharness.Prelude.{
  ℕ, zero, suc, ◌≤◌, ◌≡◌, ◌∙◌, refl, sym, ap, subst, true, false, not, ◌&&◌, List, [], ◌∷◌, ◌++◌,
  Option, none, some, is_some, inl, inr, ◌⊎◌, Text, has_prefix, length, drop, length-drop, ltb,
  Bool-cases, if◌then◌else◌, arith,
}
use goharness.Tools.Params.{join}
use goharness.Tools.Strings.{
  index, contains_text, later, count_from, count_text, Limit, all_of_them, at_most, is_spent,
  one_less, replace_from, replace,
}
use goharness.Tools.Strings.Laws.{has_prefix-append}

-- How many of the places are replaced.
abbrev pub bounded : Limit → ℕ → ℕ
bounded all_of_them n = n
bounded (at_most k) n = if ltb n k then n else k

-- The old text does not stand in a piece, the last one apart.
abbrev pub Lacking : Text → List Text → Type 0
Lacking old [] = Unit
Lacking old (q ∷ []) = Unit
Lacking old (q ∷ r ∷ qs) = (contains_text q old ≡ false) × Lacking old (r ∷ qs)

-- `t` is `s` with the first `k` places of the old text replaced.
abbrev pub Rewrites : Text → Text → ℕ → Text → Text → Type 0
Rewrites old new k s t =
    (q : Text) × (qs : List Text) × (s ≡ join old (q ∷ qs))
    × (t ≡ join new (q ∷ qs))
    × (length qs ≡ k)
    × Lacking old (q ∷ qs)

join-cons :
    (sep : Text) (c : ℕ) (q : Text) (qs : List Text)
    → join sep ((c ∷ q) ∷ qs) ≡ c ∷ join sep (q ∷ qs)
unfolding join
join-cons sep c q [] = refl
join-cons sep c q (r ∷ qs) = refl

join-next : (sep q : Text) (qs : List Text) → join sep ([] ∷ q ∷ qs) ≡ sep ++ join sep (q ∷ qs)
unfolding join
join-next sep q qs = refl

has_prefix-longer : (q r old : Text) → has_prefix q old ≡ true → has_prefix (q ++ r) old ≡ true
unfolding has_prefix
has_prefix-longer q r [] h = refl
has_prefix-longer [] r (b ∷ old) h = cc
has_prefix-longer (a ∷ q) r (b ∷ old) h = ground (arith, has_prefix-longer q r old)

skip-replace :
    (old new : Text) (n : Limit) (k : ℕ) (s : Text)
    → replace_from old new n k s ≡ replace_from old new n zero (drop k s)
unfolding replace_from
skip-replace old new n zero s = refl
skip-replace old new n (suc k) [] = refl
skip-replace old new n (suc k) (c ∷ s) = skip-replace old new n k s

skip-count : (old : Text) (k : ℕ) (s : Text) → count_from old k s ≡ count_from old zero (drop k s)
unfolding count_from
skip-count old zero s = refl
skip-count old (suc k) [] = refl
skip-count old (suc k) (c ∷ s) = skip-count old k s

module _ (old : Text) (c : ℕ) (s : Text) where
  replace-pass :
      (new : Text) (n : Limit)
      → (not (is_spent n) && has_prefix (c ∷ s) old) ≡ false
      → replace_from old new n zero (c ∷ s) ≡ c ∷ replace_from old new n zero s
  unfolding replace_from
  replace-pass new n h =
      ap
        (λ k.
          if k
          then new ++ replace_from old new (one_less n) (length (drop 1 old)) s
          else c ∷ replace_from old new n zero s)
        h

  replace-match :
      (new : Text) (n : Limit)
      → (not (is_spent n) && has_prefix (c ∷ s) old) ≡ true
      → replace_from old new n zero (c ∷ s)
        ≡ new ++ replace_from old new (one_less n) (length (drop 1 old)) s
  unfolding replace_from
  replace-match new n h =
      ap
        (λ k.
          if k
          then new ++ replace_from old new (one_less n) (length (drop 1 old)) s
          else c ∷ replace_from old new n zero s)
        h

  count-pass : has_prefix (c ∷ s) old ≡ false → count_from old zero (c ∷ s) ≡ count_from old zero s
  unfolding count_from
  count-pass h =
      ap (λ k. if k then suc (count_from old (length (drop 1 old)) s) else count_from old zero s) h

  count-match :
      has_prefix (c ∷ s) old ≡ true
      → count_from old zero (c ∷ s) ≡ suc (count_from old (length (drop 1 old)) s)
  unfolding count_from
  count-match h =
      ap (λ k. if k then suc (count_from old (length (drop 1 old)) s) else count_from old zero s) h

bounded-spent : (n : Limit) (k : ℕ) → is_spent n ≡ true → bounded n k ≡ 0
bounded-spent all_of_them k h = cc
bounded-spent (at_most zero) k h = ground arith
bounded-spent (at_most (suc n)) k h = cc

bounded-zero : (n : Limit) → bounded n 0 ≡ 0
bounded-zero all_of_them = refl
bounded-zero (at_most zero) = ground arith
bounded-zero (at_most (suc n)) = ground arith

is_some-later : (o : Option ℕ) → is_some (later o) ≡ is_some o
is_some-later none = refl
is_some-later (some i) = refl

contains_text-cons :
    (c : ℕ) (q old : Text)
    → has_prefix (c ∷ q) old ≡ false
    → contains_text q old ≡ false
    → contains_text (c ∷ q) old ≡ false
unfolding contains_text index
contains_text-cons c q old h k = rw h (is_some-later (index old q) ∙ k)

bounded-suc :
    (n : Limit) (k : ℕ) → is_spent n ≡ false → bounded n (suc k) ≡ suc (bounded (one_less n) k)
bounded-suc all_of_them k h = refl
bounded-suc (at_most zero) k h = cc
bounded-suc (at_most (suc n)) k h = ground arith

module _ (b : ℕ) (o new : Text) where
  abbrev Cut : Limit → Text → Type 0
  Cut n s =
      Rewrites (b ∷ o) new (bounded n (count_from (b ∷ o) zero s)) s
        (replace_from (b ∷ o) new n zero s)

  Lacking-cons :
      (c : ℕ) (q : Text) (qs : List Text)
      → (qs ≡ []) ⊎ (has_prefix (c ∷ join (b ∷ o) (q ∷ qs)) (b ∷ o) ≡ false)
      → Lacking (b ∷ o) (q ∷ qs)
      → Lacking (b ∷ o) ((c ∷ q) ∷ qs)
  Lacking-cons c q [] why lack = tt
  Lacking-cons c q (r ∷ qs) (inl e) lack = cc
  Lacking-cons c q (r ∷ qs) (inr e) lack = (contains_lem, lack.1)
    where
      head_free : has_prefix (c ∷ q) (b ∷ o) ≡ false
      head_free = elim (Bool-cases (has_prefix (c ∷ q) (b ∷ o))) [
        | inl t ↦
            let longer = has_prefix-longer (c ∷ q) ((b ∷ o) ++ join (b ∷ o) (r ∷ qs)) (b ∷ o) t in
            let same : has_prefix (c ∷ join (b ∷ o) (q ∷ r ∷ qs)) (b ∷ o) ≡ true =
              unfold join in longer in
            cc
        | inr f ↦ f
      ]

      contains_lem : contains_text (c ∷ q) (b ∷ o) ≡ false
      contains_lem = contains_text-cons c q (b ∷ o) head_free lack.0

  -- The character at the head belongs to the first piece.
  pass-Cut :
      (n : Limit) (c : ℕ) (s : Text)
      → (is_spent n ≡ true) ⊎ (has_prefix (c ∷ s) (b ∷ o) ≡ false)
      → Cut n s
      → Cut n (c ∷ s)
  pass-Cut n c s why (q, qs, es, et, k, lack) = (
    c ∷ q,
    qs,
    ap (◌∷◌ c) es ∙ sym (join-cons (b ∷ o) c q qs),
    replace-pass (b ∷ o) c s new n (stays why) ∙ ap (◌∷◌ c) et ∙ sym (join-cons new c q qs),
    k ∙ same_count why,
    Lacking-cons c q qs (free why) lack,
  )
    where
      stays :
          (is_spent n ≡ true) ⊎ (has_prefix (c ∷ s) (b ∷ o) ≡ false)
          → (not (is_spent n) && has_prefix (c ∷ s) (b ∷ o)) ≡ false
      stays (inl e) = rw e
      stays (inr e) = rw e (elim (Bool-cases (is_spent n)) [ inl x ↦ rw x | inr x ↦ rw x ])

      same_count :
          (is_spent n ≡ true) ⊎ (has_prefix (c ∷ s) (b ∷ o) ≡ false)
          → bounded n (count_from (b ∷ o) zero s) ≡ bounded n (count_from (b ∷ o) zero (c ∷ s))
      same_count (inl e) = bounded-spent n _ e ∙ sym (bounded-spent n _ e)
      same_count (inr e) = ap (bounded n) (sym (count-pass (b ∷ o) c s e))

      nothing : (xs : List Text) → length xs ≡ 0 → xs ≡ []
      nothing [] h = refl
      nothing (x ∷ xs) h = absurd (omega arith)

      free :
          (is_spent n ≡ true) ⊎ (has_prefix (c ∷ s) (b ∷ o) ≡ false)
          → (qs ≡ []) ⊎ (has_prefix (c ∷ join (b ∷ o) (q ∷ qs)) (b ∷ o) ≡ false)
      free (inl e) = inl (nothing qs (k ∙ bounded-spent n _ e))
      free (inr e) = inr (subst (λ x. has_prefix (c ∷ x) (b ∷ o) ≡ false) es e)

  match-Cut :
      (n : Limit) (c : ℕ) (s : Text)
      → is_spent n ≡ false
      → has_prefix (c ∷ s) (b ∷ o) ≡ true
      → Cut (one_less n) (drop (length o) s)
      → Cut n (c ∷ s)
  match-Cut n c s left h (q, qs, es, et, k, lack) = (
    [],
    q ∷ qs,
    has_prefix-append (c ∷ s) (b ∷ o) h ∙ ap (λ x. (b ∷ o) ++ x) es ∙ sym (join-next (b ∷ o) q qs),
    replace-match (b ∷ o) c s new n (rw (left, h) refl)
        ∙ ap (λ x. new ++ x) (skip-replace (b ∷ o) new (one_less n) (length o) s ∙ et)
        ∙ sym (join-next new q qs),
    ap suc k
        ∙ sym (bounded-suc n _ left)
        ∙ ap (bounded n)
            (ap suc (sym (skip-count (b ∷ o) (length o) s)) ∙ sym (count-match (b ∷ o) c s h)),
    (unfold contains_text index in refl, lack),
  )

  -- Recursion on a bound of the length, since a match skips the old text.
  Cut-all : (fuel : ℕ) (n : Limit) (s : Text) → length s ≤ fuel → Cut n s
  Cut-all fuel n [] h =
      unfold replace_from count_from join in ([], [], refl, refl, sym (bounded-zero n), tt)
  Cut-all zero n (c ∷ s) h = absurd (omega arith)
  Cut-all (suc fuel) n (c ∷ s) h = elim (Bool-cases (is_spent n)) [
    | inl e ↦ pass-Cut n c s (inl e) (Cut-all fuel n s (omega arith))
    | inr e ↦ elim (Bool-cases (has_prefix (c ∷ s) (b ∷ o))) [
      | inl t ↦
          match-Cut n c s e t (
            Cut-all fuel (one_less n) (drop (length o) s) (omega (arith, length-drop (length o) s)))
      | inr t ↦ pass-Cut n c s (inr t) (Cut-all fuel n s (omega arith))
    ]
  ]

-- `strings.Replace` and `strings.ReplaceAll` for an old text that is not empty.
pub replace-Rewrites :
    (b : ℕ) (o new s : Text) (n : Limit)
    → Rewrites (b ∷ o) new (bounded n (count_text s (b ∷ o))) s (replace s (b ∷ o) new n)
unfolding replace count_text
replace-Rewrites b o new s n = Cut-all b o new (length s) n s (omega arith)
