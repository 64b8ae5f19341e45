-- ===== src/Agents/Pool/Reuse.antt =====
-- agents/subagent.go: a session that two dispatches name.
use goharness.Prelude.{
  ℕ, suc, ◌≡◌, refl, ap, ◌∙◌, text_eq, true, false, if◌then◌else◌, none, [], ◌∷◌, Option, some,
  Text, text_eq_refl, arith,
}
use goharness.Session.Store.{SessionStore}
use goharness.Agents.Pool.{
  Slot, Directory, Pool, find_state, alter, is_idle, claimed, reuse, find_idle_session,
  get_or_create, release_spawn, claim,
}

module _ (st : SessionStore) (d : Directory st.State) where
  -- The map after a dispatch that names the session.
  abbrev pub named : Text → Option st.State → Pool st d → Pool st d
  named id store pool = (get_or_create st d [] [] [] store id pool).1

  alter_self : (slot : Slot st.State) → alter slot.sess.id claim (slot ∷ []) ≡ claim slot ∷ []
  unfolding alter
  alter_self slot = rw (text_eq_refl slot.sess.id) refl

  module _ (slot : Slot st.State) (c : ℕ) (id : Text)
      (here : text_eq slot.sess.id (c ∷ id) ≡ true) where
    alter-one : (f : Slot st.State → Slot st.State) → alter (c ∷ id) f (slot ∷ []) ≡ f slot ∷ []
    unfolding alter
    alter-one f = rw here refl

    find_state-one : find_state (c ∷ id) (slot ∷ []) ≡ some slot
    unfolding find_state
    find_state-one = rw here refl

    named-claims : (store : Option st.State) → named (c ∷ id) store (slot ∷ []) ≡ claim slot ∷ []
    unfolding get_or_create
    named-claims store =
        ap (λ o. (reuse st d (c ∷ id) store (slot ∷ []) o).0) find_state-one ∙ alter-one claim

    release-frees : release_spawn (c ∷ id) (slot ∷ []) ≡ record slot { spawning = false } ∷ []
    unfolding release_spawn
    release-frees = alter-one (λ s. record s { spawning = false })

    is_idle-free :
        (n : ℕ)
        → slot.last_used_at ≡ suc n
        → slot.spawning ≡ false
        → is_idle slot.sess.agent_name slot.sess.project_dir slot.sess.sponsor slot ≡ true
    unfolding is_idle
    is_idle-free n used free =
        rw
          (
            text_eq_refl slot.sess.agent_name,
            text_eq_refl slot.sess.project_dir,
            text_eq_refl slot.sess.sponsor,
          )
          (ground arith)

    idle-found :
        (n : ℕ)
        → slot.last_used_at ≡ suc n
        → slot.spawning ≡ false
        → find_idle_session slot.sess.agent_name slot.sess.project_dir slot.sess.sponsor (slot ∷ [])
          ≡ (claim slot ∷ [], some (claim slot))
    unfolding find_idle_session
    idle-found n used free =
        ap
          (λ t.
            claimed slot.sess.agent_name slot.sess.project_dir slot.sess.sponsor (slot ∷ [])
              (if t then some slot else none))
          (is_idle-free n used free)
        ∙ ap (λ xs. (xs, some (claim slot))) (alter_self slot)

  -- When two dispatches name a session that was used before and is the only one in memory, the
  -- end of one task makes the next dispatch for the same agent, directory and sponsor, which
  -- names no session, take that session.
  pub named_twice-shared :
      (slot : Slot st.State) (c : ℕ) (id : Text) (n : ℕ) (store : Option st.State)
      → slot.sess.id ≡ c ∷ id
      → slot.last_used_at ≡ suc n
      → find_idle_session slot.sess.agent_name slot.sess.project_dir slot.sess.sponsor
          (release_spawn (c ∷ id) (named (c ∷ id) store (named (c ∷ id) store (slot ∷ []))))
        ≡ (claim slot ∷ [], some (claim slot))
  named_twice-shared slot c id n store e used =
      let here : text_eq slot.sess.id (c ∷ id) ≡ true =
        ap (λ i. text_eq i (c ∷ id)) e ∙ text_eq_refl (c ∷ id) in
      rw
        (
          named-claims slot c id here store,
          named-claims (claim slot) c id here store,
          release-frees (claim slot) c id here,
        )
        (idle-found (record slot { spawning = false }) c id here n used refl)
