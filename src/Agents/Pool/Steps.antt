-- ===== src/Agents/Pool/Steps.antt =====
-- agents/subagent.go: the dispatches that name no session, as steps that come in any order. `run`
-- lists the sessions of the tasks that were dispatched so and have not ended.
use goharness.Prelude.{ℕ, ◌≡◌, false, List, [], ◌∷◌, ◌++◌, Option, some, Text}
use goharness.Session.Store.{SessionStore}
use goharness.Agents.Pool.{
  Slot, Directory, Pool, id_of, in_memory, find_idle_session, recover_latest_session,
  create_session, located, touch_session, release_spawn,
}

module _ (st : SessionStore) (d : Directory st.State) where
  -- The identifier of a created session is new; only a task that runs ends.
  pub data Step : Pool st d → List Text → Pool st d → List Text → Type 0 where
    idle_found :
        {pool pool' : Pool st d} {run : List Text} (agent_name project_dir sponsor : Text)
        (slot : Slot st.State)
        → find_idle_session agent_name project_dir sponsor pool ≡ (pool', some slot)
        → Step pool run pool' (id_of slot ∷ run)
    recovered_latest :
        {pool pool' : Pool st d} {run : List Text} (agent_name project_dir sponsor : Text)
        (store : Option st.State) (slot : Slot st.State)
        → recover_latest_session st d agent_name project_dir sponsor store pool ≡ (pool', some slot)
        → Step pool run pool' (id_of slot ∷ run)
    newly_created :
        {pool pool' : Pool st d} {run : List Text} (agent_name project_dir sponsor : Text)
        (store store' : Option st.State) (slot : Slot st.State)
        → create_session st d agent_name project_dir sponsor store pool
          ≡ (store', pool', located slot)
        → in_memory (id_of slot) pool ≡ false
        → Step pool run pool' (id_of slot ∷ run)
    touched :
        {pool : Pool st d} {run : List Text} (id : Text) (now : ℕ)
        → Step pool run (touch_session id now pool) run
    ended :
        {pool : Pool st d} (before after : List Text) (id : Text)
        → Step pool (before ++ id ∷ after) (release_spawn id pool) (before ++ after)

  pub data Reachable : Pool st d → List Text → Type 0 where
    initial : Reachable [] []
    step :
        {pool pool' : Pool st d} {run run' : List Text}
        → Reachable pool run
        → Step pool run pool' run'
        → Reachable pool' run'
