-- ===== src/Agents/Pool.antt =====
-- agents/subagent.go: the sessions of the sub-agents. A dispatch finds its session here: an idle one,
-- the latest of the store, a new one, or the one that it names. Each function holds the lock of the
-- manager, so it is one step on the map, which is a list of sessions. A time of 0 is the zero time.
pub mod Steps
pub mod Claims
pub mod Laws
pub mod Exclusive
pub mod Reuse
use goharness.Prelude.{
  ℕ, ◌+◌, ◌==◌, Bool, true, false, not, ◌&&◌, ◌||◌, List, [], ◌∷◌, ◌++◌, map, any, keep, Option,
  none, some, Text, text_eq, ltb, if◌then◌else◌,
}
use goharness.Session.Store.{SessionInfo, SessionStore}
use goharness.Session.State.{Session, SessionDir, NewError, Created, created, refused, load}

-- `perSessionState`, as far as the choice of a session goes.
pub record Slot (S : Type 0) : Type 0 where
  pub sess : Session S
  pub last_used_at : ℕ
  pub spawning : Bool
  pub iteration_fail_streak : ℕ

-- ListSessions, with the times of the last activity, and Create of the interface SessionStore, both
-- `none` on an error, and what the runtime gives to the sessions that it loads.
pub record Directory (S : Type 0) : Type 0 where
  pub list_sessions : S → Option (List (SessionInfo × ℕ))
  pub create : S → Text → Text → Text → Option (S × Text)
  pub dir_of : Text → Option SessionDir
  pub has_logger : Bool
  pub context_length : ℕ

module _ (agent_name project_dir sponsor : Text) where
  abbrev is_match : SessionInfo → Bool
  is_match info =
      not (text_eq info.session_id [])
      && text_eq info.agent_name agent_name
      && text_eq info.project_dir project_dir
      && text_eq info.sponsor sponsor

  abbrev later_info : SessionInfo × ℕ → Option (SessionInfo × ℕ) → Option (SessionInfo × ℕ)
  later_info x none = some x
  later_info x (some best) = if ltb best.1 x.1 then some x else some best

  -- The loop of recoverLatestSession.
  unfoldable pub latest_info :
      List (SessionInfo × ℕ) → Option (SessionInfo × ℕ) → Option (SessionInfo × ℕ)
  unfolding text_eq
  latest_info [] best = best
  latest_info (x ∷ xs) best = latest_info xs (if is_match x.0 then later_info x best else best)

module _ {S : Type 0} where
  abbrev pub id_of : Slot S → Text
  id_of slot = slot.sess.id

  abbrev pub has_id : Text → Slot S → Bool
  has_id id slot = text_eq slot.sess.id id

  -- A change of `m.states[id]`, if it is there, and the assignment to it.
  unfoldable pub alter : Text → (Slot S → Slot S) → List (Slot S) → List (Slot S)
  unfolding text_eq
  alter id f pool = map (λ slot. if has_id id slot then f slot else slot) pool

  unfoldable pub assign : Slot S → List (Slot S) → List (Slot S)
  unfolding text_eq
  assign slot pool = keep (λ other. not (has_id (id_of slot) other)) pool ++ slot ∷ []

  unfoldable pub in_memory : Text → List (Slot S) → Bool
  unfolding text_eq
  in_memory id pool = any (has_id id) pool

  unfoldable pub find_state : Text → List (Slot S) → Option (Slot S)
  unfolding text_eq
  find_state id [] = none
  find_state id (slot ∷ pool) =
      let rest = find_state id pool in if has_id id slot then some slot else rest

  abbrev pub claim : Slot S → Slot S
  claim slot = record slot { spawning = true }

  -- `touchSession`
  unfoldable pub touch_session : Text → ℕ → List (Slot S) → List (Slot S)
  unfolding alter
  touch_session id now pool = alter id (λ slot. record slot { last_used_at = now }) pool

  -- `releaseSpawn`
  unfoldable pub release_spawn : Text → List (Slot S) → List (Slot S)
  unfolding alter
  release_spawn id pool = alter id (λ slot. record slot { spawning = false }) pool

  module _ (agent_name project_dir sponsor : Text) where
    unfoldable pub is_idle : Slot S → Bool
    unfolding text_eq
    is_idle slot =
        text_eq slot.sess.agent_name agent_name
        && text_eq slot.sess.project_dir project_dir
        && text_eq slot.sess.sponsor sponsor
        && not (slot.last_used_at == 0 || slot.spawning)

    abbrev pub later_slot : Slot S → Option (Slot S) → Option (Slot S)
    later_slot slot none = some slot
    later_slot slot (some best) =
        if ltb best.last_used_at slot.last_used_at then some slot else some best

    -- The loop of findIdleSession.
    unfoldable pub best_idle : List (Slot S) → Option (Slot S) → Option (Slot S)
    unfolding is_idle
    best_idle [] best = best
    best_idle (slot ∷ pool) best =
        best_idle pool (if is_idle slot then later_slot slot best else best)

    abbrev pub claimed : List (Slot S) → Option (Slot S) → List (Slot S) × Option (Slot S)
    claimed pool none = (pool, none)
    claimed pool (some slot) = (alter (id_of slot) claim pool, some (claim slot))

    -- `findIdleSession`
    unfoldable pub find_idle_session : List (Slot S) → List (Slot S) × Option (Slot S)
    unfolding best_idle alter
    find_idle_session pool = claimed pool (best_idle pool none)

  abbrev pub fresh_slot : Session S → Slot S
  fresh_slot s = record { sess = s; last_used_at = 0; spawning = true; iteration_fail_streak = 0 }

  abbrev pub recovered : List (Slot S) → Created S → List (Slot S) × Option (Slot S)
  recovered pool (refused e) = (pool, none)
  recovered pool (created s) = (assign (fresh_slot s) pool, some (fresh_slot s))

-- What getOrCreate returns; `nil_store` is the panic of Create on a store that is nil.
pub data Located (S : Type 0) : Type 0 where
  located : Slot S → Located S
  load_failed : NewError → Located S
  create_failed nil_store : Located S

module _ (st : SessionStore) (d : Directory st.State) where
  abbrev pub Pool : Type 0
  Pool = List (Slot st.State)

  abbrev pub loaded_session : Text → Text → Option st.State → Created st.State
  loaded_session id agent_name store =
      load st id agent_name store (d.dir_of id) d.has_logger d.context_length

  abbrev pub or_empty_list : Option (List (SessionInfo × ℕ)) → List (SessionInfo × ℕ)
  or_empty_list none = []
  or_empty_list (some xs) = xs

  abbrev pub recover_info :
      Text → st.State → Pool → Option (SessionInfo × ℕ) → Pool × Option (Slot st.State)
  recover_info agent_name x pool none = (pool, none)
  recover_info agent_name x pool (some (info, at)) =
      if in_memory info.session_id pool
      then (pool, none)
      else recovered pool (loaded_session info.session_id agent_name (some x))

  -- `recoverLatestSession`
  unfoldable pub recover_latest_session :
      Text → Text → Text → Option st.State → Pool → Pool × Option (Slot st.State)
  unfolding latest_info in_memory load assign
  recover_latest_session agent_name project_dir sponsor none pool = (pool, none)
  recover_latest_session agent_name project_dir sponsor (some x) pool =
      recover_info agent_name x pool
        (latest_info agent_name project_dir sponsor (or_empty_list (d.list_sessions x)) none)

  abbrev pub registered : Pool → Created st.State → Pool × Located st.State
  registered pool (refused e) = (pool, load_failed e)
  registered pool (created s) = (assign (fresh_slot s) pool, located (fresh_slot s))

  -- A session that is named.
  abbrev pub reuse :
      Text → Option st.State → Pool → Option (Slot st.State) → Pool × Located st.State
  reuse id store pool (some slot) = (alter id claim pool, located (claim slot))
  reuse id store pool none = registered pool (loaded_session id [] store)

  -- The store behind the creation, where it was created at all.
  abbrev pub create_new :
      Text → st.State → Pool → Option (st.State × Text) → Option st.State × Pool × Located st.State
  create_new agent_name x pool none = (some x, pool, create_failed)
  create_new agent_name x pool (some (y, id)) =
      let (pool', answer) = registered pool (loaded_session id agent_name (some y)) in
      (some y, pool', answer)

  -- A new session: Create, and Load of what it made.
  unfoldable pub create_session :
      Text → Text → Text → Option st.State → Pool → Option st.State × Pool × Located st.State
  unfolding load assign
  create_session agent_name project_dir sponsor none pool = (none, pool, nil_store)
  create_session agent_name project_dir sponsor (some x) pool =
      create_new agent_name x pool (d.create x agent_name project_dir sponsor)

  abbrev or_create :
      Text
      → Text
      → Text
      → Option st.State
      → Pool × Option (Slot st.State)
      → Option st.State × Pool × Located st.State
  or_create agent_name project_dir sponsor store (pool, some slot) = (store, pool, located slot)
  or_create agent_name project_dir sponsor store (pool, none) =
      create_session agent_name project_dir sponsor store pool

  abbrev or_recover :
      Text
      → Text
      → Text
      → Option st.State
      → Pool × Option (Slot st.State)
      → Option st.State × Pool × Located st.State
  or_recover agent_name project_dir sponsor store (pool, some slot) = (store, pool, located slot)
  or_recover agent_name project_dir sponsor store (pool, none) =
      or_create agent_name project_dir sponsor store
        (recover_latest_session agent_name project_dir sponsor store pool)

  -- `getOrCreate`, where no other dispatch comes between its steps.
  unfoldable pub get_or_create :
      Text → Text → Text → Option st.State → Text → Pool → Option st.State × Pool × Located st.State
  unfolding find_idle_session recover_latest_session create_session find_state alter load assign
  get_or_create agent_name project_dir sponsor store [] pool =
      or_recover agent_name project_dir sponsor store
        (find_idle_session agent_name project_dir sponsor pool)
  get_or_create agent_name project_dir sponsor store (c ∷ id) pool =
      let (pool', answer) = reuse (c ∷ id) store pool (find_state (c ∷ id) pool) in
      (store, pool', answer)
