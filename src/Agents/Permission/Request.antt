-- ===== src/Agents/Permission/Request.antt =====
-- agents/permission.go: checkPermissionGrants, which asks before the tools of a round run, and
-- waitForPermissionDecision, in which a sub-session waits for the answer.
use goharness.Prelude.{ℕ, Bool, true, false, List, [], ◌∷◌, Option, none, some, Text, codes}
use goharness.Session.Store.{SessionStore}
use goharness.Session.State.{PendingPermission}
use goharness.Session.Pending.{
  set_pending_permission, take_pending_permission, mark_waiting_user, clear_waiting_user,
}
use goharness.Tools.MagicWord.{Action}
use goharness.Agents.Waits.{Channel, Waiter, register_wait, clear_wait}
use goharness.Agents.Permission.{
  unrestricted, granted, refused, ToolCallInvocation, permission_pending, cancelled, context_error,
  permission_timeout, Ask, Runtime, emit, apply_permission_action,
}

-- What the select of the wait receives first.
pub data Signal : Type 0 where
  context_done timed_out : Signal
  decided : Action → Signal

module _ (st : SessionStore) (rt : Runtime st.State) where
  abbrev pub pending_for : ToolCallInvocation → Text → Text → PendingPermission
  pending_for inv reason level = record {
    tool_name = inv.name;
    tool_call_id = inv.id;
    arguments = inv.arguments;
    reason = reason;
    security_level = level;
  }

  -- The session that a request names: its own identifier in a sub-session, none in the main one.
  abbrev pub asker : Bool → Text → Text
  asker true id = id
  asker false id = []

  abbrev pub announce : Bool → ToolCallInvocation → Text → Text → Ask st.State → Ask st.State
  announce is_sub inv reason level b =
      let s = set_pending_permission st b.session (pending_for inv reason level) in
      emit (permission_pending (asker is_sub s.id) inv.name inv.arguments reason level)
        (record b { session = s })

  -- `checkPermissionGrants`: the first call that is refused is recorded and announced.
  unfoldable pub check_permission_grants :
      Bool → Ask st.State → List ToolCallInvocation → Ask st.State × Option PendingPermission
  unfolding set_pending_permission
  check_permission_grants is_sub b [] = (b, none)
  check_permission_grants is_sub b (inv ∷ invs) =
      let rest = check_permission_grants is_sub b invs in
      elim (rt.grant b.session inv.name inv.arguments) [
        | unrestricted ↦ rest
        | granted ↦ rest
        | refused reason level ↦
            (announce is_sub inv reason level b, some (pending_for inv reason level))
      ]

  abbrev pub on_signal : Ask st.State → PendingPermission → Signal → ℕ → Ask st.State
  on_signal b p context_done now = record b {
    result_err = some context_error;
    termination = cancelled;
  }
  on_signal b p timed_out now = record b { termination = permission_timeout }
  on_signal b p (decided a) now = apply_permission_action st rt b p a now

  abbrev pub with_waits :
      (List (Waiter Action) → List (Waiter Action)) → Ask st.State → Ask st.State
  with_waits f b = elim b.waits [ none ↦ b | some ws ↦ record b { waits = some (f ws) } ]

  abbrev pub begin_wait : Ask st.State → Channel Action → ℕ → Ask st.State
  begin_wait b ch now =
      let b' = with_waits (register_wait b.session.id ch now) b in
      record b' {
        session =
            (take_pending_permission st (mark_waiting_user b'.session (codes "permission"))).0;
      }

  abbrev pub end_wait : Ask st.State → Channel Action → Ask st.State
  end_wait b ch =
      let b' = record b { session = clear_waiting_user b.session } in
      with_waits (clear_wait b.session.id ch.number) b'

  -- `waitForPermissionDecision`: the deferred calls run on every way out.
  unfoldable pub wait_for_permission_decision :
      Ask st.State → Channel Action → PendingPermission → Signal → ℕ → Ask st.State
  unfolding register_wait clear_wait mark_waiting_user clear_waiting_user take_pending_permission
      apply_permission_action
  wait_for_permission_decision b ch p signal now =
      end_wait (on_signal (begin_wait b ch now) p signal now) ch
