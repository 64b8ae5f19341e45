-- ===== src/Agents/Pool/Claims.antt =====
-- agents/subagent.go: the claims of sessions, and what a change of the map does to them.
use goharness.Prelude.{
  ◌≡◌, ◌≢◌, ◌⊎◌, inl, inr, refl, sym, ap, ◌∙◌, Bool, true, false, ◌||◌, List, [], ◌∷◌, some, Text,
  text_eq, text_eq-eq, text_eq_refl, Bool-cases, arith,
}
use goharness.Agents.Pool.{Slot, id_of, has_id, alter, assign, in_memory, claim}

or-true : (a b : Bool) → (a || b) ≡ true → (a ≡ true) ⊎ (b ≡ true)
or-true true b h = inl refl
or-true false b h = inr h

or-false : (a b : Bool) → (a || b) ≡ false → (a ≡ false) × (b ≡ false)
or-false true b h = absurd (cc)
or-false false b h = (refl, h)

pub some-inj : {A : Type 0} (x y : A) → some x ≡ some y → x ≡ y
some-inj x y e = cc

module _ {S : Type 0} where
  -- Each session of this identifier is claimed.
  abbrev Claimed : Text → List (Slot S) → Type 0
  Claimed id [] = Unit
  Claimed id (slot ∷ pool) = (has_id id slot ≡ true → slot.spawning ≡ true) × Claimed id pool

  abbrev pub Held : List (Slot S) → Text → Type 0
  Held pool id = (in_memory id pool ≡ true) × Claimed id pool

  abbrev pub FreeIn : Text → List (Slot S) → Type 0
  FreeIn id [] = ⊥
  FreeIn id (slot ∷ pool) = ((slot.sess.id ≡ id) × (slot.spawning ≡ false)) ⊎ FreeIn id pool

  pub FreeIn-Claimed : (id : Text) (pool : List (Slot S)) → FreeIn id pool → ¬ Claimed id pool
  FreeIn-Claimed id [] f c = f
  FreeIn-Claimed id (slot ∷ pool) (inl (e, free)) c =
      let k = c.0 (ap (λ i. text_eq i id) e ∙ text_eq_refl id) in absurd (cc)
  FreeIn-Claimed id (slot ∷ pool) (inr f) c = FreeIn-Claimed id pool f c.1

  pub FreeIn-memory : (id : Text) (pool : List (Slot S)) → FreeIn id pool → in_memory id pool ≡ true
  unfolding in_memory
  FreeIn-memory id [] f = absurd f
  FreeIn-memory id (slot ∷ pool) (inl (e, free)) =
      let k = ap (λ i. text_eq i id) e ∙ text_eq_refl id in rw k refl
  FreeIn-memory id (slot ∷ pool) (inr f) = let k = FreeIn-memory id pool f in ground arith

  module _ (id : Text) (f : Slot S → Slot S)
      (keeps : (s : Slot S) → (f s).sess.id ≡ s.sess.id) where
    pub memory-alter :
        (x : Text) (pool : List (Slot S)) → in_memory x (alter id f pool) ≡ in_memory x pool
    unfolding in_memory alter
    memory-alter x [] = refl
    memory-alter x (slot ∷ pool) = elim (Bool-cases (has_id id slot)) [
      | inl e ↦ rw (e, keeps slot, memory-alter x pool) refl
      | inr e ↦ rw (e, memory-alter x pool) refl
    ]

    Claimed-alter :
        (x : Text)
        → ((s : Slot S) → s.spawning ≡ true → (f s).spawning ≡ true) ⊎ (x ≢ id)
        → (pool : List (Slot S)) → Claimed x pool
        → Claimed x (alter id f pool)
    unfolding alter
    Claimed-alter x safe [] c = tt
    Claimed-alter x safe (slot ∷ pool) c = elim (Bool-cases (has_id id slot)) [
      | inr e ↦ rw e (c.0, Claimed-alter x safe pool c.1)
      | inl e ↦ rw e ((λ h. spawns safe e h), Claimed-alter x safe pool c.1)
    ]
      where
        spawns :
            ((s : Slot S) → s.spawning ≡ true → (f s).spawning ≡ true) ⊎ (x ≢ id)
            → has_id id slot ≡ true
            → has_id x (f slot) ≡ true
            → (f slot).spawning ≡ true
        spawns (inl g) e h = g slot (c.0 (sym (ap (λ i. text_eq i x) (keeps slot)) ∙ h))
        spawns (inr n) e h =
            absurd (
              n (sym (text_eq-eq (f slot).sess.id x h) ∙ keeps slot ∙ text_eq-eq slot.sess.id id e))

    pub Held-alter :
        (x : Text)
        → ((s : Slot S) → s.spawning ≡ true → (f s).spawning ≡ true) ⊎ (x ≢ id)
        → (pool : List (Slot S)) → Held pool x
        → Held (alter id f pool) x
    Held-alter x safe pool h = (memory-alter x pool ∙ h.0, Claimed-alter x safe pool h.1)

  pub Claimed-claim : (id : Text) (pool : List (Slot S)) → Claimed id (alter id claim pool)
  unfolding alter
  Claimed-claim id [] = tt
  Claimed-claim id (slot ∷ pool) = elim (Bool-cases (has_id id slot)) [
    | inl e ↦ rw e ((λ h. refl), Claimed-claim id pool)
    | inr e ↦ rw e ((λ h. absurd (cc)), Claimed-claim id pool)
  ]

  -- A new session in the list.
  pub Claimed-assign :
      (x : Text) (slot : Slot S) (pool : List (Slot S))
      → slot.spawning ≡ true
      → Claimed x pool
      → Claimed x (assign slot pool)
  unfolding assign
  Claimed-assign x slot [] s c = ((λ h. s), tt)
  Claimed-assign x slot (other ∷ pool) s c = elim (Bool-cases (has_id (id_of slot) other)) [
    | inl e ↦ rw e (Claimed-assign x slot pool s c.1)
    | inr e ↦ rw e (c.0, Claimed-assign x slot pool s c.1)
  ]

  pub memory-assign :
      (x : Text) (slot : Slot S) (pool : List (Slot S))
      → (in_memory x pool ≡ true) ⊎ (x ≡ id_of slot)
      → in_memory x (assign slot pool) ≡ true
  unfolding in_memory assign
  memory-assign x slot [] (inl h) = absurd (cc)
  memory-assign x slot [] (inr e) = rw (e, text_eq_refl (id_of slot)) refl
  memory-assign x slot (other ∷ pool) (inr e) =
      let k = memory-assign x slot pool (inr e) in ground arith
  memory-assign x slot (other ∷ pool) (inl h) =
      elim (or-true (has_id x other) (in_memory x pool) h) [
        | inl here ↦ elim (Bool-cases (has_id (id_of slot) other)) [
          | inl e ↦ rw e (
              memory-assign x slot pool (
                inr (
                  sym (text_eq-eq other.sess.id x here) ∙ text_eq-eq other.sess.id (id_of slot) e)))
          | inr e ↦ rw (e, here) refl
        ]
        | inr there ↦
            let k = memory-assign x slot pool (inl there) in
            elim (Bool-cases (has_id (id_of slot) other)) [
              | inl e ↦ rw e k
              | inr e ↦ rw (e, k) (or_true (has_id x other))
            ]
      ]
    where
      or_true : (a : Bool) → (a || true) ≡ true
      or_true true = refl
      or_true false = refl

  pub Held-assign :
      (slot : Slot S) (pool : List (Slot S)) (x : Text)
      → slot.spawning ≡ true
      → Held pool x
      → Held (assign slot pool) x
  Held-assign slot pool x s h =
      (memory-assign x slot pool (inl h.0), Claimed-assign x slot pool s h.1)

  pub absent-Claimed : (x : Text) (pool : List (Slot S)) → in_memory x pool ≡ false → Claimed x pool
  unfolding in_memory
  absent-Claimed x [] e = tt
  absent-Claimed x (slot ∷ pool) e =
      let k = or-false (has_id x slot) (in_memory x pool) e in
      ((λ h. absurd (cc)), absent-Claimed x pool k.1)
