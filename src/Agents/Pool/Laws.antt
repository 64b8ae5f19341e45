-- ===== src/Agents/Pool/Laws.antt =====
-- agents/subagent.go: the search of findIdleSession and the names of loaded sessions.
use goharness.Prelude.{
  ◌≡◌, ◌⊎◌, inl, inr, refl, ap, ◌∙◌, Bool, true, false, List, [], ◌∷◌, Option, none, some, Text,
  text_eq, Bool-cases, Option-cases, ltb, if◌then◌else◌, arith,
}
use goharness.Session.Store.{SessionStore}
use goharness.Session.State.{
  Created, created, refused, no_store, no_logger, not_found, load, init_session,
}
use goharness.Agents.Pool.{
  Slot, Directory, id_of, alter, assign, in_memory, claim, is_idle, later_slot, best_idle, claimed,
  find_idle_session, loaded_session,
}
use goharness.Agents.Pool.Claims.{
  some-inj, Held, FreeIn, FreeIn-Claimed, FreeIn-memory, memory-alter, Held-alter, Claimed-claim,
  Claimed-assign, memory-assign, Held-assign, absent-Claimed,
}

module _ {S : Type 0} where
  module _ (agent_name project_dir sponsor : Text) where
    idle-free :
        (slot : Slot S) → is_idle agent_name project_dir sponsor slot ≡ true → slot.spawning ≡ false
    unfolding is_idle
    idle-free slot h = ground arith

    later-FreeIn :
        (slot : Slot S) (pool : List (Slot S)) (best : Option (Slot S)) (b : Slot S)
        → slot.spawning ≡ false
        → later_slot agent_name project_dir sponsor slot best ≡ some b
        → (best ≡ some b) ⊎ FreeIn (id_of b) (slot ∷ pool)
    later-FreeIn slot pool none b free k = inr (inl (ap id_of (some-inj slot b k), free))
    later-FreeIn slot pool (some c) b free k = by_time (ltb c.last_used_at slot.last_used_at) k
      where
        by_time :
            (t : Bool)
            → (if t then some slot else some c) ≡ some b
            → (some c ≡ some b) ⊎ FreeIn (id_of b) (slot ∷ pool)
        by_time true k = inr (inl (ap id_of (some-inj slot b k), free))
        by_time false k = inl k

    -- What the search finds is free.
    best_idle-FreeIn :
        (pool : List (Slot S)) (best : Option (Slot S)) (b : Slot S)
        → best_idle agent_name project_dir sponsor pool best ≡ some b
        → (best ≡ some b) ⊎ FreeIn (id_of b) pool
    unfolding best_idle
    best_idle-FreeIn [] best b e = inl e
    best_idle-FreeIn (slot ∷ pool) best b e =
        visited (best_idle-FreeIn pool best b)
          (best_idle-FreeIn pool (later_slot agent_name project_dir sponsor slot best) b)
          (is_idle agent_name project_dir sponsor slot) refl e
      where
        behind : {P : Type 0} → P ⊎ FreeIn (id_of b) pool → P ⊎ FreeIn (id_of b) (slot ∷ pool)
        behind (inl k) = inl k
        behind (inr k) = inr (inr k)

        taken :
            is_idle agent_name project_dir sponsor slot ≡ true
            → (later_slot agent_name project_dir sponsor slot best ≡ some b) ⊎ FreeIn (id_of b) pool
            → (best ≡ some b) ⊎ FreeIn (id_of b) (slot ∷ pool)
        taken n (inl k) = later-FreeIn slot pool best b (idle-free slot n) k
        taken n (inr k) = inr (inr k)

        visited :
            (best_idle agent_name project_dir sponsor pool best ≡ some b
              → (best ≡ some b) ⊎ FreeIn (id_of b) pool)
            → (best_idle agent_name project_dir sponsor pool
                    (later_slot agent_name project_dir sponsor slot best)
                  ≡ some b
                → (later_slot agent_name project_dir sponsor slot best ≡ some b)
                  ⊎ FreeIn (id_of b) pool)
            → (t : Bool) → is_idle agent_name project_dir sponsor slot ≡ t
            → best_idle agent_name project_dir sponsor pool
                (if t then later_slot agent_name project_dir sponsor slot best else best)
              ≡ some b
            → (best ≡ some b) ⊎ FreeIn (id_of b) (slot ∷ pool)
        visited skipped took false n k = behind (skipped k)
        visited skipped took true n k = taken n (took k)

-- A step of a dispatch takes a session that was not held, holds it, and lets go of none.
abbrev pub Takes : {S : Type 0} → List (Slot S) → List (Slot S) → Slot S → Type 0
Takes pool pool' slot =
    (¬ Held pool (id_of slot)) × Held pool' (id_of slot) × ((x : Text) → Held pool x → Held pool' x)

module _ {S : Type 0} where
  pub assign-Takes :
      (slot : Slot S) (pool : List (Slot S))
      → slot.spawning ≡ true
      → in_memory (id_of slot) pool ≡ false
      → Takes pool (assign slot pool) slot
  assign-Takes slot pool s absent = (
    λ h. let k = h.0 in absurd (cc),
    (
      memory-assign (id_of slot) slot pool (inr refl),
      Claimed-assign (id_of slot) slot pool s (absent-Claimed (id_of slot) pool absent),
    ),
    λ x h. Held-assign slot pool x s h,
  )

  abbrev pub Found : List (Slot S) → List (Slot S) × Option (Slot S) → Type 0
  Found pool (pool', none) = Unit
  Found pool (pool', some slot) = Takes pool pool' slot

  pub find_idle-Found :
      (agent_name project_dir sponsor : Text) (pool : List (Slot S))
      → Found pool (find_idle_session agent_name project_dir sponsor pool)
  unfolding find_idle_session
  find_idle-Found agent_name project_dir sponsor pool =
      found (best_idle agent_name project_dir sponsor pool none) refl
    where
      claiming :
          (b : Slot S) → FreeIn (id_of b) pool → Takes pool (alter (id_of b) claim pool) (claim b)
      claiming b f = (
        λ h. FreeIn-Claimed (id_of b) pool f h.1,
        (
          memory-alter (id_of b) claim (λ s. refl) (id_of b) pool ∙ FreeIn-memory (id_of b) pool f,
          Claimed-claim (id_of b) pool,
        ),
        λ x h. Held-alter (id_of b) claim (λ s. refl) x (inl (λ s k. refl)) pool h,
      )

      free : (b : Slot S) → (none ≡ some b) ⊎ FreeIn (id_of b) pool → FreeIn (id_of b) pool
      free b (inl k) = absurd (cc)
      free b (inr k) = k

      found :
          (o : Option (Slot S))
          → best_idle agent_name project_dir sponsor pool none ≡ o
          → Found pool (claimed agent_name project_dir sponsor pool o)
      found none g = tt
      found (some b) g =
          claiming b (free b (best_idle-FreeIn agent_name project_dir sponsor pool none b g))

module _ (st : SessionStore) (d : Directory st.State) where
  abbrev pub Named : Text → Created st.State → Type 0
  Named id (refused e) = Unit
  Named id (created s) = s.id ≡ id

  pub load-Named :
      (id agent_name : Text) (store : Option st.State)
      → Named id (loaded_session st d id agent_name store)
  unfolding load init_session
  load-Named id agent_name store = elim (Bool-cases (text_eq id [])) [
    | inl e ↦ rw e tt
    | inr e ↦ rw e (on_store store)
  ]
    where
      on_store :
          (o : Option st.State)
          → Named id (elim o [
            | none ↦ refused no_store
            | some x ↦
                if d.has_logger
                then elim (st.get_meta x id) [
                  | none ↦ refused not_found
                  | some info ↦ created (
                      init_session id
                        (if text_eq agent_name [] then info.agent_name else agent_name)
                        info.sponsor
                        info.project_dir
                        info.team_name
                        (some x)
                        (d.dir_of id)
                        d.context_length)
                ]
                else refused no_logger
          ])
      on_store none = tt
      on_store (some x) = elim (Bool-cases d.has_logger) [
        | inr e ↦ rw e tt
        | inl e ↦
            rw e
              (elim (Option-cases (st.get_meta x id)) [ inl g ↦ rw g tt | inr (i, g) ↦ rw g refl ])
      ]
