-- ===== src/Session/Pending.antt =====
-- session/session.go (SetPendingPermission to PendingPermission), session/perm.go,
-- session/pending_ask.go and session/session_wait.go: what waits for the user, in memory and in the
-- sidecar files of the session directory.
use goharness.Prelude.{Bool, Option, none, some, Text, is_some, if◌then◌else◌}
use goharness.Session.Store.{SessionStore}
use goharness.Session.State.{PendingPermission, PendingAskUser, SessionDir, Session, ensure_loaded}

-- `persistPendingPermission`: write the file, or remove it for nil; a failure is only logged.
unfoldable pub write_permission : Option PendingPermission → SessionDir → SessionDir
write_permission none d = if d.can_remove then record d { permission = none } else d
write_permission (some p) d = if d.can_write then record d { permission = some p } else d

-- `persistPendingAsk`
unfoldable pub write_ask : Option PendingAskUser → SessionDir → SessionDir
write_ask none d = if d.can_remove then record d { ask_user = none } else d
write_ask (some p) d = if d.can_write then record d { ask_user = some p } else d

abbrev on_dir : (SessionDir → SessionDir) → Option SessionDir → Option SessionDir
on_dir f none = none
on_dir f (some d) = some (f d)

module _ (st : SessionStore) where
  unfoldable pub set_pending_permission : Session st.State → PendingPermission → Session st.State
  unfolding write_permission
  set_pending_permission s p =
      let s' = ensure_loaded st s in
      record s' { pending_permission = some p; dir = on_dir (write_permission (some p)) s'.dir }

  -- The file is removed only if there was something to take.
  unfoldable pub take_pending_permission :
      Session st.State → Session st.State × Option PendingPermission
  unfolding write_permission
  take_pending_permission s =
      let s' = ensure_loaded st s in
      let p = s'.pending_permission in
      (
        record s' {
          pending_permission = none;
          dir = if is_some p then on_dir (write_permission none) s'.dir else s'.dir;
        },
        p,
      )

  unfoldable pub has_pending_permission : Session st.State → Session st.State × Bool
  has_pending_permission s = let s' = ensure_loaded st s in (s', is_some s'.pending_permission)

  -- `PendingPermission`: a read that clears nothing.
  unfoldable pub peek_pending_permission :
      Session st.State → Session st.State × Option PendingPermission
  peek_pending_permission s = let s' = ensure_loaded st s in (s', s'.pending_permission)

  unfoldable pub set_pending_ask_user : Session st.State → PendingAskUser → Session st.State
  unfolding write_ask
  set_pending_ask_user s p =
      let s' = ensure_loaded st s in
      record s' { pending_ask_user = some p; dir = on_dir (write_ask (some p)) s'.dir }

  -- The file is removed whether or not there was something to take.
  unfoldable pub take_pending_ask_user : Session st.State → Session st.State × Option PendingAskUser
  unfolding write_ask
  take_pending_ask_user s =
      let s' = ensure_loaded st s in
      (
        record s' { pending_ask_user = none; dir = on_dir (write_ask none) s'.dir },
        s'.pending_ask_user,
      )

  unfoldable pub has_pending_ask_user : Session st.State → Session st.State × Bool
  has_pending_ask_user s = let s' = ensure_loaded st s in (s', is_some s'.pending_ask_user)

-- `MarkWaitingUser` and `ClearWaitingUser`: the wait marker of a blocked sub-session.
unfoldable pub mark_waiting_user : {S : Type 0} → Session S → Text → Session S
mark_waiting_user s kind = record s {
  dir = on_dir (λ d. if d.can_write then record d { wait_kind = some kind } else d) s.dir;
}

unfoldable pub clear_waiting_user : {S : Type 0} → Session S → Session S
clear_waiting_user s = record s {
  dir = on_dir (λ d. if d.can_remove then record d { wait_kind = none } else d) s.dir;
}
