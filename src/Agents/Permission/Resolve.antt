-- ===== src/Agents/Permission/Resolve.antt =====
-- agents/permission.go: resolvePermissionMagicWord, the user's answer in the main session.
use goharness.Prelude.{
  ℕ, Bool, true, false, List, [], ◌∷◌, Option, none, some, Text, text_eq, if◌then◌else◌,
}
use goharness.Session.Store.{SessionStore}
use goharness.Session.State.{PendingPermission, Session}
use goharness.Session.Pending.{take_pending_permission}
use goharness.Tools.MagicWord.{Action, classify_magic_word}
use goharness.Agents.Waits.{Waiter, dispatch}
use goharness.Agents.Permission.{Ask, Runtime, apply_permission_action}

module _ (st : SessionStore) (rt : Runtime st.State) where
  -- The run with `consumed` and `routedToSub`.
  abbrev pub Resolved : Type 0
  Resolved = Ask st.State × Bool × Bool

  -- `rt.subAgents != nil && rt.subAgents.dispatchPermission(…)`
  abbrev pub dispatched :
      Ask st.State → Action → Text → Option (List (Waiter Action)) → Ask st.State × Bool
  dispatched b a target none = (b, false)
  dispatched b a target (some ws) =
      let (ws', sent) = dispatch a target ws in (record b { waits = some ws' }, sent)

  abbrev pub settle : Ask st.State → Action → ℕ → Session st.State → PendingPermission → Resolved
  settle b a now s p =
      (apply_permission_action st rt (record b { session = s }) p a now, true, false)

  -- An answer that names this session.
  abbrev pub resolve_own :
      Ask st.State → Action → ℕ → Session st.State × Option PendingPermission → Resolved
  resolve_own b a now (s, none) = (record b { session = s }, true, true)
  resolve_own b a now (s, some p) = settle b a now s p

  -- An answer that names no session: it is this session's, or that of the longest wait.
  abbrev pub resolve_any :
      Ask st.State → Action → ℕ → Session st.State × Option PendingPermission → Resolved
  resolve_any b a now (s, some p) = settle b a now s p
  resolve_any b a now (s, none) =
      let (b', sent) = dispatched (record b { session = s }) a [] b.waits in
      if sent then (b', true, true) else (b', false, false)

  abbrev pub resolve_action : Ask st.State → Action → Text → ℕ → Resolved
  resolve_action b a [] now = resolve_any b a now (take_pending_permission st b.session)
  resolve_action b a (c ∷ target) now =
      if text_eq (c ∷ target) b.session.id
      then resolve_own b a now (take_pending_permission st b.session)
      else ((dispatched b a (c ∷ target) b.waits).0, true, true)

  abbrev pub resolve_word : Ask st.State → ℕ → Option Action → Text → Resolved
  resolve_word b now none target = (b, false, false)
  resolve_word b now (some a) target = resolve_action b a target now

  -- `resolvePermissionMagicWord`
  unfoldable pub resolve_permission_magic_word : Ask st.State → ℕ → Resolved
  unfolding classify_magic_word take_pending_permission dispatch apply_permission_action text_eq
  resolve_permission_magic_word b now =
      let mw = classify_magic_word b.question in resolve_word b now mw.action mw.session_id
