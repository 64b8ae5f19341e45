-- ===== src/Agents/Waits.antt =====
-- agents/subagent.go: which sub-sessions wait for a decision or an answer, and how one is routed to
-- them. A channel holds one signal at most; the map of states is a list of sessions. The wait for a
-- permission and the wait for an answer are the same code over two fields, so one table stands for
-- each, with the signals as its parameter.
pub mod Laws
pub mod Earliest
use goharness.Prelude.{
  ℕ, ◌==◌, Bool, true, false, not, ◌&&◌, ◌||◌, List, [], ◌∷◌, Option, none, some, Text, text_eq,
  ltb, if◌then◌else◌,
}

-- A channel of capacity 1: closed, or with the signal that waits in it.
pub record Channel (A : Type 0) : Type 0 where
  pub number : ℕ
  pub closed : Bool
  pub buffered : Option A

-- `perSessionState` as far as one kind of wait goes.
pub record Waiter (A : Type 0) : Type 0 where
  pub session_id : Text
  pub pending_ch : Option (Channel A)
  pub pending_at : ℕ

module _ {A : Type 0} where
  -- `m.states[sessionID]` changed in place.
  unfoldable pub change : Text → (Waiter A → Waiter A) → List (Waiter A) → List (Waiter A)
  unfolding text_eq
  change id f [] = []
  change id f (w ∷ ws) =
      let rest = change id f ws in if text_eq w.session_id id then f w ∷ ws else w ∷ rest

  -- `registerPermissionWait` and `registerAskWait`
  unfoldable pub register_wait : Text → Channel A → ℕ → List (Waiter A) → List (Waiter A)
  unfolding change
  register_wait id ch now ws =
      change id (λ w. record w { pending_ch = some ch; pending_at = now }) ws

  abbrev is_channel : ℕ → Option (Channel A) → Bool
  is_channel n none = false
  is_channel n (some ch) = ch.number == n

  -- `clearPermissionWait` and `clearAskWait`: only for the channel that is registered.
  unfoldable pub clear_wait : Text → ℕ → List (Waiter A) → List (Waiter A)
  unfolding change
  clear_wait id n ws =
      change id
        (λ w.
          if is_channel n w.pending_ch then record w { pending_ch = none; pending_at = 0 } else w)
        ws

  abbrev waiting_of : Text → Option (Channel A) → Option (Text × Channel A)
  waiting_of id none = none
  waiting_of id (some ch) = some (id, ch)

  -- The lookup of a target.
  unfoldable pub find_target : Text → List (Waiter A) → Option (Text × Channel A)
  unfolding text_eq
  find_target target [] = none
  find_target target (w ∷ ws) =
      if text_eq w.session_id target
      then waiting_of w.session_id w.pending_ch
      else find_target target ws

  -- The loop for the earliest wait, with the time `earliest` and what it found.
  abbrev visit :
      Waiter A → Option (Channel A) → ℕ × Option (Text × Channel A) → ℕ × Option (Text × Channel A)
  visit w none found = found
  visit w (some ch) (earliest, found) =
      if earliest == 0 || ltb w.pending_at earliest
      then (w.pending_at, some (w.session_id, ch))
      else (earliest, found)

  unfoldable pub find_earliest :
      List (Waiter A) → ℕ × Option (Text × Channel A) → ℕ × Option (Text × Channel A)
  find_earliest [] found = found
  find_earliest (w ∷ ws) found = find_earliest ws (visit w w.pending_ch found)

  -- `findPendingSub` and `findPendingAskTarget`
  unfoldable pub find_pending : Text → List (Waiter A) → Option (Text × Channel A)
  unfolding find_target find_earliest
  find_pending [] ws = (find_earliest ws (0, none)).1
  find_pending (c ∷ target) ws = find_target (c ∷ target) ws

  abbrev is_full : Option A → Bool
  is_full none = false
  is_full (some a) = true

  -- `safeSendPermission`: a closed or a full channel takes nothing.
  unfoldable pub safe_send : A → Channel A → Channel A × Bool
  safe_send a ch =
      if ch.closed || is_full ch.buffered
      then (ch, false)
      else (record ch { buffered = some a }, true)

  -- The signal stands in the channel of the session that it was sent to.
  abbrev put_channel : Text → Channel A → List (Waiter A) → List (Waiter A)
  put_channel id ch ws = change id (λ w. record w { pending_ch = some ch }) ws

  abbrev send_to : A → List (Waiter A) → Option (Text × Channel A) → List (Waiter A) × Bool
  send_to a ws none = (ws, false)
  send_to a ws (some (id, ch)) =
      let (ch', sent) = safe_send a ch in
      if sent then (put_channel id ch' ws, true) else (ws, false)

  -- `dispatchPermission` and `dispatchAskAnswer`
  unfoldable pub dispatch : A → Text → List (Waiter A) → List (Waiter A) × Bool
  unfolding find_pending safe_send change
  dispatch a target ws = send_to a ws (find_pending target ws)
