-- ===== src/Tools/Diff/Subseq.antt =====
-- Subsequences: the lines that two contents share, in order.
use goharness.Prelude.{
  ℕ, zero, suc, ◌≤◌, ◌≡◌, ◌≢◌, ◌⊎◌, inl, inr, refl, sym, subst, List, [], ◌∷◌, some, length, drop,
  get_elem?, arith,
}

module _ {A : Type 0} where
  abbrev pub Subseq : List A → List A → Type 0
  Subseq [] ys = Unit
  Subseq (x ∷ xs) [] = ⊥
  Subseq (x ∷ xs) (y ∷ ys) = ((x ≡ y) × Subseq xs ys) ⊎ Subseq (x ∷ xs) ys

  pub Subseq-skip : (xs : List A) (y : A) (ys : List A) → Subseq xs ys → Subseq xs (y ∷ ys)
  Subseq-skip [] y ys h = tt
  Subseq-skip (x ∷ xs) y ys h = inr h

  pub Subseq-tail : (x : A) (xs ys : List A) → Subseq (x ∷ xs) ys → Subseq xs ys
  Subseq-tail x xs [] h = absurd h
  Subseq-tail x xs (y ∷ ys) (inl (e, h)) = Subseq-skip xs y ys h
  Subseq-tail x xs (y ∷ ys) (inr h) = Subseq-skip xs y ys (Subseq-tail x xs ys h)

  -- A greedy match loses nothing.
  pub Subseq-match :
      (x : A) (xs : List A) (y : A) (ys : List A) → Subseq (x ∷ xs) (y ∷ ys) → Subseq xs ys
  Subseq-match x xs y ys (inl (e, h)) = h
  Subseq-match x xs y ys (inr h) = Subseq-tail x xs ys h

  pub Subseq-pass :
      (x : A) (xs : List A) (y : A) (ys : List A)
      → x ≢ y
      → Subseq (x ∷ xs) (y ∷ ys)
      → Subseq (x ∷ xs) ys
  Subseq-pass x xs y ys d (inl (e, h)) = absurd (d e)
  Subseq-pass x xs y ys d (inr h) = h

  pub Subseq-refl : (xs : List A) → Subseq xs xs
  Subseq-refl [] = tt
  Subseq-refl (x ∷ xs) = inl (refl, Subseq-refl xs)

  pub length-Subseq : (xs ys : List A) → Subseq xs ys → length xs ≤ length ys
  length-Subseq [] ys h = omega arith
  length-Subseq (x ∷ xs) [] h = absurd h
  length-Subseq (x ∷ xs) (y ∷ ys) (inl (e, h)) = omega (arith, length-Subseq xs ys h)
  length-Subseq (x ∷ xs) (y ∷ ys) (inr h) = omega (arith, length-Subseq (x ∷ xs) ys h)

  -- A subsequence of full length is the whole.
  pub Subseq-full : (xs ys : List A) → Subseq xs ys → length xs ≡ length ys → xs ≡ ys
  Subseq-full [] [] h e = refl
  Subseq-full [] (y ∷ ys) h e = absurd (omega arith)
  Subseq-full (x ∷ xs) [] h e = absurd h
  Subseq-full (x ∷ xs) (y ∷ ys) (inl (p, h)) e = cc (Subseq-full xs ys h (omega arith))
  Subseq-full (x ∷ xs) (y ∷ ys) (inr h) e = absurd (omega (arith, length-Subseq (x ∷ xs) ys h))

  pub drop-get_elem? :
      (i : ℕ) (xs : List A) (x : A) → get_elem? xs i ≡ some x → drop i xs ≡ x ∷ drop (suc i) xs
  drop-get_elem? i [] x h = absurd (cc)
  drop-get_elem? zero (y ∷ ys) x h = cc
  drop-get_elem? (suc i) (y ∷ ys) x h = drop-get_elem? i ys x h

  pub Subseq-grow :
      (acc : List A) (i : ℕ) (xs : List A) (x : A)
      → get_elem? xs i ≡ some x
      → Subseq acc (drop (suc i) xs)
      → Subseq (x ∷ acc) (drop i xs)
  Subseq-grow acc i xs x h s =
      subst (Subseq (x ∷ acc)) (sym (drop-get_elem? i xs x h)) (inl (refl, s))

  pub Subseq-back :
      (acc : List A) (i : ℕ) (xs : List A) (x : A)
      → get_elem? xs i ≡ some x
      → Subseq acc (drop (suc i) xs)
      → Subseq acc (drop i xs)
  Subseq-back acc i xs x h s =
      subst (Subseq acc) (sym (drop-get_elem? i xs x h)) (Subseq-skip acc x (drop (suc i) xs) s)

  pub Subseq-front : (acc : List A) (i : ℕ) (xs : List A) → Subseq acc (drop i xs) → Subseq acc xs
  Subseq-front acc zero xs h = h
  Subseq-front acc (suc i) [] h = h
  Subseq-front acc (suc i) (x ∷ xs) h = Subseq-skip acc x xs (Subseq-front acc i xs h)

  pub get_elem?-some :
      (i : ℕ) (xs : List A) → suc i ≤ length xs → (x : A) × (get_elem? xs i ≡ some x)
  get_elem?-some i [] h = absurd (omega arith)
  get_elem?-some zero (x ∷ xs) h = (x, refl)
  get_elem?-some (suc i) (x ∷ xs) h = get_elem?-some i xs (omega arith)
