-- ===== src/Agents/Submit/Laws.antt =====
-- agents/subagent.go: the receipts of Submit.
use goharness.Prelude.{
  ℕ, ◌<◌, ◌≤◌, ◌≡◌, ◌⊎◌, inl, inr, Bool, true, [], ◌∷◌, Option, some, Text, Bool-cases, leb, arith,
}
use goharness.Session.Store.{SessionStore}
use goharness.Agents.Pool.{
  Slot, Directory, Pool, id_of, claim, Located, located, load_failed, create_failed, nil_store,
  find_state, alter, get_or_create,
}
use goharness.Agents.Submit.{
  Receipt, accepted, SubAgentRequest, Caller, Manager, lookup_failed_task_anchor, Answer, ask_text,
  on_located, dispatch_to, is_detour, submit, snapshot_title, knows_agent,
}

abbrev pub Refused : Receipt → Type 0
Refused (accepted task_id id text) = ⊥
Refused _ = Unit

module _ (st : SessionStore) (d : Directory st.State) (hash : Text → Text)
    (agent_exists : Option (Text → Bool)) (registers : Text → Bool) (continuation : Text) where
  -- The session that a dispatch by name finds has that name.
  abbrev pub LocatedAt : Text → Located st.State → Type 0
  LocatedAt id (located slot) = slot.sess.id ≡ id
  LocatedAt id (load_failed e) = Unit
  LocatedAt id create_failed = Unit
  LocatedAt id nil_store = Unit

  -- A task is accepted in a session that was cut off less than three times in a row; a task that
  -- failed, in the session where it failed. What is not accepted leaves no trace in the tables.
  abbrev pub Answers :
      Manager st.State
      → Caller st.State
      → SubAgentRequest
      → Option st.State × Manager st.State × Receipt
      → Type 0
  Answers m caller req (store, m', accepted task_id id text) =
      (slot : Slot st.State) × (id ≡ id_of slot)
      × (slot.iteration_fail_streak < 3)
      × (text
          ≡ ask_text st d hash agent_exists registers continuation slot.iteration_fail_streak
              req.task)
      × ((lookup_failed_task_anchor hash caller.id req.task m.anchors ≡ [])
          ⊎ (lookup_failed_task_anchor hash caller.id req.task m.anchors ≡ id))
      × (m'.task_infos
          ≡ (
            task_id,
            record {
              session_id = id;
              agent_name = req.agent_name;
              title = snapshot_title req.task;
            },
          )
            ∷ m.task_infos)
  Answers m caller req (store, m', _) = m'.task_infos ≡ m.task_infos

  module _ (m : Manager st.State) (caller : Caller st.State) (req : SubAgentRequest)
      (task_id : Text) where
    abbrev anchor : Text
    anchor = lookup_failed_task_anchor hash caller.id req.task m.anchors

    abbrev AtAnchor : Located st.State → Type 0
    AtAnchor (located slot) = (anchor ≡ []) ⊎ (anchor ≡ id_of slot)
    AtAnchor (load_failed e) = Unit
    AtAnchor create_failed = Unit
    AtAnchor nil_store = Unit

    abbrev with_pool : Pool st d → Manager st.State
    with_pool pool = record m { pool = pool }

    abbrev answer :
        Option st.State
        → Answer st d hash agent_exists registers continuation
        → Option st.State × Manager st.State × Receipt
    answer store (m', receipt) = (store, m', receipt)

    cut-Refused :
        (store : Option st.State) (pool : Pool st d) (slot : Slot st.State)
        → 3 ≤ slot.iteration_fail_streak
        → Refused
            (on_located st d hash agent_exists registers continuation
              (with_pool pool)
              req
              task_id
              (located slot)).1
    cut-Refused store pool slot h =
        let e : leb 3 slot.iteration_fail_streak ≡ true = ground arith in rw e tt

    named-Refused :
        (c : ℕ) (id : Text) (slot : Slot st.State)
        → find_state (c ∷ id) m.pool ≡ some slot
        → 3 ≤ slot.iteration_fail_streak
        → Refused
            (dispatch_to st d hash agent_exists registers continuation m caller req
              (c ∷ id)
              task_id).2
    unfolding get_or_create
    named-Refused c id slot e h =
        rw e (cut-Refused caller.store (alter (c ∷ id) claim m.pool) (claim slot) h)

    -- A task whose anchor is a session in memory that was cut off three times in a row or more is
    -- not accepted, whatever session the request names.
    pub submit-Refused :
        (c : ℕ) (id : Text) (slot : Slot st.State)
        → lookup_failed_task_anchor hash caller.id req.task m.anchors ≡ c ∷ id
        → find_state (c ∷ id) m.pool ≡ some slot
        → 3 ≤ slot.iteration_fail_streak
        → Refused
            (submit st d hash agent_exists registers continuation m (some caller) req task_id).2
    unfolding submit
    submit-Refused c id slot a e h =
        elim (Bool-cases
          (knows_agent st d hash agent_exists registers continuation agent_exists req.agent_name)) [
            | inr k ↦ rw k tt
            | inl k ↦
                rw (k, a)
                  (elim (Bool-cases (
                    is_detour st d hash agent_exists registers continuation req.session_id
                      (c ∷ id))) [ inl f ↦ rw f tt | inr f ↦ rw f (named-Refused c id slot e h) ])
          ]
