-- ===== src/Tools/Strings/Laws.antt =====
-- What a search finds, and what a replacement leaves.
use goharness.Prelude.{
  ℕ, zero, suc, ◌==◌, ◌≡◌, refl, ap, subst, Bool, true, false, ◌&&◌, [], ◌∷◌, ◌++◌, Option, none,
  some, is_some, inl, inr, Text, has_prefix, length, take, drop, Bool-cases, ==_iff, ==_refl, map,
  if◌then◌else◌, arith,
}
use goharness.Tools.Strings.{index, later}

-- A prefix is what the rest stands behind.
pub has_prefix-append : (s p : Text) → has_prefix s p ≡ true → s ≡ p ++ drop (length p) s
unfolding has_prefix
has_prefix-append s [] h = refl
has_prefix-append [] (b ∷ p) h = cc
has_prefix-append (a ∷ s) (b ∷ p) h = ground (arith, has_prefix-append s p)

pub has_prefix_self : (p s : Text) → has_prefix (p ++ s) p ≡ true
unfolding has_prefix
has_prefix_self [] s = refl
has_prefix_self (a ∷ p) s = ground (arith, has_prefix_self p s)

pub take-has_prefix : (s p : Text) → has_prefix s p ≡ true → take (length p) s ≡ p
unfolding has_prefix
take-has_prefix s [] h = refl
take-has_prefix [] (b ∷ p) h = cc
take-has_prefix (a ∷ s) (b ∷ p) h = ground (arith, take-has_prefix s p)

pub has_prefix-shorter : (s p q : Text) → has_prefix s (p ++ q) ≡ true → has_prefix s p ≡ true
unfolding has_prefix
has_prefix-shorter s [] q h = refl
has_prefix-shorter [] (b ∷ p) q h = cc
has_prefix-shorter (a ∷ s) (b ∷ p) q h = ground (arith, has_prefix-shorter s p q)

pub has_prefix-map :
    (f : ℕ → ℕ) (s p : Text) → has_prefix s p ≡ true → has_prefix (map f s) (map f p) ≡ true
unfolding has_prefix
has_prefix-map f s [] h = refl
has_prefix-map f [] (b ∷ p) h = cc
has_prefix-map f (a ∷ s) (b ∷ p) h =
    let (same, rest) = both (a == b) (has_prefix s p) h in
    rw (← (==_iff a b).0 same, ==_refl (f a)) (has_prefix-map f s p rest)
  where
    both : (x y : Bool) → (x && y) ≡ true → (x ≡ true) × (y ≡ true)
    both true true h = (refl, refl)
    both true false h = cc
    both false y h = cc

-- What is found stands there.
pub index-some : (sub s : Text) (i : ℕ) → index sub s ≡ some i → has_prefix (drop i s) sub ≡ true
unfolding index
index-some sub [] i h = elim (Bool-cases (has_prefix [] sub)) [
  | inl e ↦ subst (λ k. has_prefix (drop k []) sub ≡ true) (at_start e) e
  | inr e ↦ absurd (none_here e)
]
  where
    at_start : has_prefix [] sub ≡ true → 0 ≡ i
    at_start e = ground arith

    none_here : has_prefix [] sub ≡ false → ⊥
    none_here e = ground arith
index-some sub (c ∷ s) i h = elim (Bool-cases (has_prefix (c ∷ s) sub)) [
  | inl e ↦ subst (λ k. has_prefix (drop k (c ∷ s)) sub ≡ true) (at_start e) e
  | inr e ↦
      further (index sub s) refl
        (subst (λ b. (if b then some 0 else later (index sub s)) ≡ some i) e h) (index-some sub s)
]
  where
    at_start : has_prefix (c ∷ s) sub ≡ true → 0 ≡ i
    at_start e = ground arith

    further :
        (o : Option ℕ)
        → index sub s ≡ o
        → later o ≡ some i
        → ((j : ℕ) → index sub s ≡ some j → has_prefix (drop j s) sub ≡ true)
        → has_prefix (drop i (c ∷ s)) sub ≡ true
    further none e k ih = cc
    further (some j) e k ih =
        let same : suc j ≡ i = cc in
        subst (λ m. has_prefix (drop m (c ∷ s)) sub ≡ true) same (ih j e)

-- What stands somewhere is found.
pub index-found :
    (sub s : Text) (i : ℕ) → has_prefix (drop i s) sub ≡ true → is_some (index sub s) ≡ true
unfolding index
index-found sub [] zero h = rw h
index-found sub [] (suc i) h = rw h
index-found sub (c ∷ s) zero h = rw h
index-found sub (c ∷ s) (suc i) h = elim (Bool-cases (has_prefix (c ∷ s) sub)) [
  | inl e ↦ rw e
  | inr e ↦ rw e (deeper (index sub s) (index-found sub s i h))
]
  where
    deeper : (o : Option ℕ) → is_some o ≡ true → is_some (later o) ≡ true
    deeper none k = k
    deeper (some j) k = refl

pub drop-map : (f : ℕ → ℕ) (i : ℕ) (s : Text) → drop i (map f s) ≡ map f (drop i s)
drop-map f zero s = refl
drop-map f (suc i) [] = refl
drop-map f (suc i) (c ∷ s) = drop-map f i s

pub take-map : (f : ℕ → ℕ) (i : ℕ) (s : Text) → take i (map f s) ≡ map f (take i s)
take-map f zero s = refl
take-map f (suc i) [] = refl
take-map f (suc i) (c ∷ s) = ap (◌∷◌ (f c)) (take-map f i s)

pub length-map : (f : ℕ → ℕ) (s : Text) → length (map f s) ≡ length s
length-map f [] = refl
length-map f (c ∷ s) = ap suc (length-map f s)
