-- ===== src/Agents/Pool/Exclusive.antt =====
-- agents/subagent.go: the sessions of the tasks that run, under the steps of Steps.
use goharness.Prelude.{
  ℕ, ◌≡◌, ◌≢◌, inl, inr, refl, sym, subst, false, List, [], ◌∷◌, ◌++◌, Option, none, some, Text,
  Bool-cases,
}
use goharness.Session.Store.{SessionStore, SessionInfo}
use goharness.Session.State.{Created, created, refused}
use goharness.Agents.Pool.{
  Slot, Directory, Pool, id_of, in_memory, fresh_slot, recovered, registered, loaded_session,
  latest_info, or_empty_list, recover_info, recover_latest_session, Located, located, load_failed,
  create_failed, nil_store, create_new, create_session, touch_session, release_spawn,
}
use goharness.Agents.Pool.Steps.{
  Step, idle_found, recovered_latest, newly_created, touched, ended, Reachable, initial, step,
}
use goharness.Agents.Pool.Claims.{Held, Held-alter}
use goharness.Agents.Pool.Laws.{Takes, Found, Named, assign-Takes, find_idle-Found, load-Named}

module _ (st : SessionStore) (d : Directory st.State) where
  recovered-Found :
      (id : Text) (pool : Pool st d) (r : Created st.State)
      → in_memory id pool ≡ false
      → Named st d id r
      → Found pool (recovered pool r)
  recovered-Found id pool (refused e) absent n = tt
  recovered-Found id pool (created s) absent n =
      assign-Takes (fresh_slot s) pool refl (subst (λ i. in_memory i pool ≡ false) (sym n) absent)

  recover_latest-Found :
      (agent_name project_dir sponsor : Text) (store : Option st.State) (pool : Pool st d)
      → Found pool (recover_latest_session st d agent_name project_dir sponsor store pool)
  unfolding recover_latest_session
  recover_latest-Found agent_name project_dir sponsor none pool = tt
  recover_latest-Found agent_name project_dir sponsor (some x) pool =
      chosen
        (latest_info agent_name project_dir sponsor (or_empty_list st d (d.list_sessions x)) none)
    where
      chosen : (o : Option (SessionInfo × ℕ)) → Found pool (recover_info st d agent_name x pool o)
      chosen none = tt
      chosen (some (info, at)) = elim (Bool-cases (in_memory info.session_id pool)) [
        | inl e ↦ rw e tt
        | inr e ↦ rw e (
            recovered-Found info.session_id pool
              (loaded_session st d info.session_id agent_name (some x)) e
              (load-Named st d info.session_id agent_name (some x)))
      ]

  -- A created session that is not in memory.
  abbrev Made : Pool st d → Option st.State × Pool st d × Located st.State → Type 0
  Made pool (store, pool', located slot) =
      in_memory (id_of slot) pool ≡ false → Takes pool pool' slot
  Made pool (store, pool', load_failed e) = Unit
  Made pool (store, pool', create_failed) = Unit
  Made pool (store, pool', nil_store) = Unit

  create-Made :
      (agent_name project_dir sponsor : Text) (store : Option st.State) (pool : Pool st d)
      → Made pool (create_session st d agent_name project_dir sponsor store pool)
  unfolding create_session
  create-Made agent_name project_dir sponsor none pool = tt
  create-Made agent_name project_dir sponsor (some x) pool =
      on_create (d.create x agent_name project_dir sponsor)
    where
      on_load :
          (y : st.State) (r : Created st.State)
          → Made pool (some y, (registered st d pool r).0, (registered st d pool r).1)
      on_load y (refused e) = tt
      on_load y (created s) = λ absent. assign-Takes (fresh_slot s) pool refl absent

      on_create : (o : Option (st.State × Text)) → Made pool (create_new st d agent_name x pool o)
      on_create none = tt
      on_create (some (y, id)) = on_load y (loaded_session st d id agent_name (some y))

  -- No session is in the list twice.
  abbrev pub NotIn : Text → List Text → Type 0
  NotIn id [] = Unit
  NotIn id (x ∷ run) = (x ≢ id) × NotIn id run

  abbrev pub Distinct : List Text → Type 0
  Distinct [] = Unit
  Distinct (id ∷ run) = NotIn id run × Distinct run

  abbrev pub AllHeld : Pool st d → List Text → Type 0
  AllHeld pool [] = Unit
  AllHeld pool (id ∷ run) = Held pool id × AllHeld pool run

  AllHeld-kept :
      (pool pool' : Pool st d) (run : List Text)
      → ((x : Text) → Held pool x → Held pool' x)
      → AllHeld pool run
      → AllHeld pool' run
  AllHeld-kept pool pool' [] f h = tt
  AllHeld-kept pool pool' (x ∷ run) f h = (f x h.0, AllHeld-kept pool pool' run f h.1)

  AllHeld-NotIn :
      (pool : Pool st d) (id : Text) (run : List Text)
      → ¬ Held pool id
      → AllHeld pool run
      → NotIn id run
  AllHeld-NotIn pool id [] n h = tt
  AllHeld-NotIn pool id (x ∷ run) n h =
      ((λ e. n (subst (Held pool) e h.0)), AllHeld-NotIn pool id run n h.1)

  abbrev Exclusive : Pool st d → List Text → Type 0
  Exclusive pool run = AllHeld pool run × Distinct run

  taken :
      (pool pool' : Pool st d) (run : List Text) (slot : Slot st.State)
      → Takes pool pool' slot
      → Exclusive pool run
      → Exclusive pool' (id_of slot ∷ run)
  taken pool pool' run slot t h = (
    (t.1, AllHeld-kept pool pool' run t.2 h.0),
    (AllHeld-NotIn pool (id_of slot) run t.0 h.0, h.1),
  )

  -- The end of a task lets go of its own session alone.
  released :
      (pool : Pool st d) (id : Text) (run : List Text)
      → NotIn id run
      → AllHeld pool run
      → AllHeld (release_spawn id pool) run
  unfolding release_spawn
  released pool id [] n h = tt
  released pool id (x ∷ run) n h = (
    Held-alter id (λ s. record s { spawning = false }) (λ s. refl) x (inr n.0) pool h.0,
    released pool id run n.1 h.1,
  )

  NotIn-without :
      (x : Text) (before after : List Text) (id : Text)
      → NotIn x (before ++ id ∷ after)
      → NotIn x (before ++ after) × (id ≢ x)
  NotIn-without x [] after id n = (n.1, n.0)
  NotIn-without x (b ∷ before) after id n =
      let k = NotIn-without x before after id n.1 in ((n.0, k.0), k.1)

  Distinct-without :
      (before after : List Text) (id : Text)
      → Distinct (before ++ id ∷ after)
      → Distinct (before ++ after) × NotIn id (before ++ after)
  Distinct-without [] after id h = (h.1, h.0)
  Distinct-without (b ∷ before) after id h =
      let k = Distinct-without before after id h.1 in
      let n = NotIn-without b before after id h.0 in ((n.0, k.0), ((λ e. n.1 (sym e)), k.1))

  AllHeld-without :
      (pool : Pool st d) (before after : List Text) (id : Text)
      → AllHeld pool (before ++ id ∷ after)
      → AllHeld pool (before ++ after)
  AllHeld-without pool [] after id h = h.1
  AllHeld-without pool (b ∷ before) after id h = (h.0, AllHeld-without pool before after id h.1)

  Step-Exclusive :
      {pool pool' : Pool st d} {run run' : List Text}
      → Step st d pool run pool' run'
      → Exclusive pool run
      → Exclusive pool' run'
  unfolding touch_session
  Step-Exclusive {pool = pool} {pool' = pool'} {run = run} (idle_found a p s slot e) h =
      taken pool pool' run slot (subst (Found pool) e (find_idle-Found a p s pool)) h
  Step-Exclusive {pool = pool} {pool' = pool'} {run = run} (recovered_latest a p s store slot e) h =
      taken pool pool' run slot (subst (Found pool) e (recover_latest-Found a p s store pool)) h
  Step-Exclusive {pool = pool} {pool' = pool'} {run = run}
        (newly_created a p s store store' slot e absent) h =
      taken pool pool' run slot (subst (Made pool) e (create-Made a p s store pool) absent) h
  Step-Exclusive {pool = pool} {run = run} (touched id now) h = (
    AllHeld-kept pool (touch_session id now pool) run
        (λ x k.
          Held-alter id (λ s. record s { last_used_at = now }) (λ s. refl) x (inl (λ s q. q)) pool
            k)
        h.0,
    h.1,
  )
  Step-Exclusive {pool = pool} (ended before after id) h =
      let k = Distinct-without before after id h.1 in
      (released pool id (before ++ after) k.1 (AllHeld-without pool before after id h.0), k.0)

  -- After any sequence of dispatches that name no session, whether they find an idle session,
  -- recover the latest one of the store or create one with a new identifier, of touches and of
  -- ends of running tasks, in any order, no two running tasks share a session, and the session of
  -- each is claimed.
  pub Reachable-Exclusive :
      {pool : Pool st d} {run : List Text}
      → Reachable st d pool run
      → AllHeld pool run × Distinct run
  Reachable-Exclusive initial = (tt, tt)
  Reachable-Exclusive (step r s) = Step-Exclusive s (Reachable-Exclusive r)
