-- ===== src/Session/Laws/Pending.antt =====
-- What waits for the user survives a restart and is taken once.
use goharness.Prelude.{◌≡◌, refl, ◌∙◌, true, List, none, some, arith}
use goharness.Session.Message.{Message}
use goharness.Session.Store.{SessionStore}
use goharness.Session.State.{
  PendingPermission, PendingAskUser, SessionDir, Session, init_session, ensure_loaded,
}
use goharness.Session.Pending.{
  set_pending_permission, take_pending_permission, set_pending_ask_user, take_pending_ask_user,
}
use goharness.Session.Laws.Loading.{ensure_loaded-loaded, loaded-ensure_loaded}

-- The files of a directory that can be written and removed.
abbrev pub Works : SessionDir → Type 0
Works d = (d.can_write ≡ true) × (d.can_remove ≡ true)

module _ (st : SessionStore) where
  -- A fresh object for the same session, as the next process builds it: memory is gone, the store
  -- and the directory are the old ones.
  abbrev pub reopened : Session st.State → Session st.State
  reopened s =
      init_session s.id s.agent_name s.sponsor s.project_dir s.team_name s.store s.dir
        s.context_length

  -- The store can be read for the session.
  abbrev pub Readable : Session st.State → Type 0
  Readable s = (x : st.State) × (ms : List Message) × (s.store ≡ some x) × (st.get x s.id ≡ some ms)

  reload-permission :
      (s : Session st.State) (d : SessionDir)
      → s.dir ≡ some d
      → Readable s
      → (ensure_loaded st (reopened s)).pending_permission ≡ d.permission
  unfolding ensure_loaded init_session
  reload-permission s d e (x, ms, a, b) = ground arith

  reload-ask :
      (s : Session st.State) (d : SessionDir)
      → s.dir ≡ some d
      → Readable s
      → (ensure_loaded st (reopened s)).pending_ask_user ≡ d.ask_user
  unfolding ensure_loaded init_session
  reload-ask s d e (x, ms, a, b) = ground arith

  reload-dir : (s : Session st.State) → (ensure_loaded st (reopened s)).dir ≡ s.dir
  unfolding ensure_loaded init_session
  reload-dir s = ground arith

  -- Loading changes neither the store nor the identity.
  reload-Readable : (s : Session st.State) → Readable s → Readable (ensure_loaded st (reopened s))
  unfolding ensure_loaded init_session
  reload-Readable s (x, ms, a, b) = (x, ms, ground arith, ground arith)

  -- What a call of SetPendingPermission leaves on disk and in the store.
  set-permission_dir :
      (s : Session st.State) (d : SessionDir) (p : PendingPermission)
      → s.loaded ≡ true
      → s.dir ≡ some d
      → d.can_write ≡ true
      → (set_pending_permission st s p).dir ≡ some (record d { permission = some p })
  unfolding set_pending_permission
  set-permission_dir s d p l e w = rw (ensure_loaded-loaded st s l) (ground arith)

  set-permission_Readable :
      (s : Session st.State) (p : PendingPermission)
      → s.loaded ≡ true
      → Readable s
      → Readable (set_pending_permission st s p)
  unfolding set_pending_permission
  set-permission_Readable s p l r = rw (ensure_loaded-loaded st s l) r

  set-ask_dir :
      (s : Session st.State) (d : SessionDir) (p : PendingAskUser)
      → s.loaded ≡ true
      → s.dir ≡ some d
      → d.can_write ≡ true
      → (set_pending_ask_user st s p).dir ≡ some (record d { ask_user = some p })
  unfolding set_pending_ask_user
  set-ask_dir s d p l e w = rw (ensure_loaded-loaded st s l) (ground arith)

  set-ask_Readable :
      (s : Session st.State) (p : PendingAskUser)
      → s.loaded ≡ true
      → Readable s
      → Readable (set_pending_ask_user st s p)
  unfolding set_pending_ask_user
  set-ask_Readable s p l r = rw (ensure_loaded-loaded st s l) r

  -- A take on the session that a new process opens.
  take-permission_reopened :
      (s : Session st.State) (d : SessionDir)
      → s.dir ≡ some d
      → d.can_remove ≡ true
      → Readable s
      → ((take_pending_permission st (reopened s)).1 ≡ d.permission)
        × ((take_pending_permission st (reopened s)).0.dir ≡ some (record d { permission = none }))
        × ((take_pending_permission st (reopened s)).0.pending_permission ≡ none)
        × ((take_pending_permission st (reopened s)).0.loaded ≡ true)
        × Readable (take_pending_permission st (reopened s)).0
  unfolding take_pending_permission
  take-permission_reopened s d e c r = (
    reload-permission s d e r,
    ground (arith, reload-permission s d e r, reload-dir s),
    refl,
    loaded-ensure_loaded st (reopened s),
    reload-Readable s r,
  )

  take-ask_reopened :
      (s : Session st.State) (d : SessionDir)
      → s.dir ≡ some d
      → d.can_remove ≡ true
      → Readable s
      → ((take_pending_ask_user st (reopened s)).1 ≡ d.ask_user)
        × ((take_pending_ask_user st (reopened s)).0.dir ≡ some (record d { ask_user = none }))
        × ((take_pending_ask_user st (reopened s)).0.pending_ask_user ≡ none)
        × ((take_pending_ask_user st (reopened s)).0.loaded ≡ true)
        × Readable (take_pending_ask_user st (reopened s)).0
  unfolding take_pending_ask_user
  take-ask_reopened s d e c r = (
    reload-ask s d e r,
    ground (arith, reload-dir s),
    refl,
    loaded-ensure_loaded st (reopened s),
    reload-Readable s r,
  )

  take-permission_loaded :
      (s : Session st.State)
      → s.loaded ≡ true
      → (take_pending_permission st s).1 ≡ s.pending_permission
  unfolding take_pending_permission
  take-permission_loaded s l = rw (ensure_loaded-loaded st s l) refl

  take-ask_loaded :
      (s : Session st.State) → s.loaded ≡ true → (take_pending_ask_user st s).1 ≡ s.pending_ask_user
  unfolding take_pending_ask_user
  take-ask_loaded s l = rw (ensure_loaded-loaded st s l) refl

  -- What the next process takes, and what can be taken after it.
  abbrev pub OncePermission : PendingPermission → Session st.State → Type 0
  OncePermission p s =
      ((take_pending_permission st (reopened s)).1 ≡ some p)
      × ((take_pending_permission st (take_pending_permission st (reopened s)).0).1 ≡ none)
      × ((take_pending_permission st (reopened (take_pending_permission st (reopened s)).0)).1
          ≡ none)

  abbrev pub OnceAsk : PendingAskUser → Session st.State → Type 0
  OnceAsk p s =
      ((take_pending_ask_user st (reopened s)).1 ≡ some p)
      × ((take_pending_ask_user st (take_pending_ask_user st (reopened s)).0).1 ≡ none)
      × ((take_pending_ask_user st (reopened (take_pending_ask_user st (reopened s)).0)).1 ≡ none)

  -- With a directory that can be written and a store that can be read, a pending permission that
  -- a loaded session records outlives the process and is taken once: by the next process, and
  -- then neither by it nor by the one after it.
  pub pending_permission-once :
      (s : Session st.State) (d : SessionDir) (p : PendingPermission)
      → s.loaded ≡ true
      → s.dir ≡ some d
      → Works d
      → Readable s
      → OncePermission p (set_pending_permission st s p)
  pending_permission-once s d p l e (cw, cr) r =
      let t : Session st.State = set_pending_permission st s p in
      let (a, b, n, k, v) =
        take-permission_reopened t (record d { permission = some p })
          (set-permission_dir s d p l e cw) cr (set-permission_Readable s p l r) in
      let (a', _, _, _, _) =
        take-permission_reopened (take_pending_permission st (reopened t)).0
          (record d { permission = none }) b cr v in
      (a, take-permission_loaded (take_pending_permission st (reopened t)).0 k ∙ n, a')

  -- With a directory that can be written and a store that can be read, a pending question that a
  -- loaded session records outlives the process and is taken once: by the next process, and then
  -- neither by it nor by the one after it.
  pub pending_ask_user-once :
      (s : Session st.State) (d : SessionDir) (p : PendingAskUser)
      → s.loaded ≡ true
      → s.dir ≡ some d
      → Works d
      → Readable s
      → OnceAsk p (set_pending_ask_user st s p)
  pending_ask_user-once s d p l e (cw, cr) r =
      let t : Session st.State = set_pending_ask_user st s p in
      let (a, b, n, k, v) =
        take-ask_reopened t (record d { ask_user = some p }) (set-ask_dir s d p l e cw) cr
          (set-ask_Readable s p l r) in
      let (a', _, _, _, _) =
        take-ask_reopened (take_pending_ask_user st (reopened t)).0 (record d { ask_user = none }) b
          cr v in
      (a, take-ask_loaded (take_pending_ask_user st (reopened t)).0 k ∙ n, a')
