-- ===== src/Sandbox/File/Members.antt =====
-- What the loops of sandbox/file_checker.go over a list look for, as membership.
use mathlib.Core.List.{Memᴰ}
use goharness.Prelude.{
  ◌≡◌, refl, sym, subst, Bool, true, false, List, [], ◌∷◌, Text, text_eq, text_eq-eq, text_eq_refl,
  contains, any, inl, inr, Bool-cases, arith,
}

module _ {ℓ} {A : Type ℓ} where
  pub any-Mem : (f : A → Bool) (ds : List A) → any f ds ≡ true → (d : A) × Memᴰ d ds × (f d ≡ true)
  any-Mem f [] h = absurd (ground arith)
  any-Mem f (d ∷ ds) h = elim (Bool-cases (f d)) [
    | inl e ↦ (d, Memᴰ.head refl, e)
    | inr e ↦ let (x, m, k) = any-Mem f ds (ground arith) in (x, Memᴰ.tail m, k)
  ]

  pub Mem-any : (f : A → Bool) (d : A) (ds : List A) → Memᴰ d ds → f d ≡ true → any f ds ≡ true
  Mem-any f d [] m h = elim m [ ]
  Mem-any f d (x ∷ ds) (Memᴰ.head e) h = rw (subst (λ y. f y ≡ true) e h) refl
  Mem-any f d (x ∷ ds) (Memᴰ.tail m) h = rw (Mem-any f d ds m h) (ground arith)

  pub any-none : (f : A → Bool) (ds : List A) → any f ds ≡ false → (d : A) → Memᴰ d ds → f d ≡ false
  any-none f ds h d m = elim (Bool-cases (f d)) [
    | inl e ↦ absurd (cc (Mem-any f d ds m e, h))
    | inr e ↦ e
  ]

  pub none-any :
      (f : A → Bool) (ds : List A) → ((d : A) → Memᴰ d ds → f d ≡ false) → any f ds ≡ false
  none-any f ds k = elim (Bool-cases (any f ds)) [
    | inl e ↦ let (d, m, q) = any-Mem f ds e in absurd (cc (k d m, q))
    | inr e ↦ e
  ]

pub contains-Mem : (ds : List Text) (t : Text) → contains ds t ≡ true → Memᴰ t ds
unfolding contains
contains-Mem [] t h = absurd (ground arith)
contains-Mem (d ∷ ds) t h = elim (Bool-cases (text_eq d t)) [
  | inl e ↦ Memᴰ.head (sym (text_eq-eq d t e))
  | inr e ↦ Memᴰ.tail (contains-Mem ds t (ground arith))
]

pub Mem-contains : (ds : List Text) (t : Text) → Memᴰ t ds → contains ds t ≡ true
unfolding contains
Mem-contains [] t m = elim m [ ]
Mem-contains (d ∷ ds) t (Memᴰ.head e) = rw (subst (λ y. text_eq y t ≡ true) e (text_eq_refl t)) refl
Mem-contains (d ∷ ds) t (Memᴰ.tail m) = rw (Mem-contains ds t m) (ground arith)
