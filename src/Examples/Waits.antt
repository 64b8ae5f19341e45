-- ===== src/Examples/Waits.antt =====
-- Two sub-sessions, of which the first waits for the user's decision.
use goharness.Prelude.{
  ℕ, ◌≡◌, ◌≢◌, refl, inl, inr, true, false, List, [], ◌∷◌, none, some, Text, codes, text_eq,
}
use goharness.Tools.MagicWord.{Action, permission_allow}
use goharness.Agents.Waits.{Channel, Waiter, register_wait, find_target, find_pending, dispatch}
use goharness.Agents.Waits.Laws.{dispatch-arrives}

abbrev channel : ℕ → Channel Action
channel n = record { number = n; closed = false; buffered = none }

abbrev waiters : List (Waiter Action)
waiters =
    record { session_id = codes "t1"; pending_ch = some (channel 1); pending_at = 7 }
    ∷ record { session_id = codes "t2"; pending_ch = none; pending_at = 0 }
    ∷ []

abbrev registered : List (Waiter Action)
registered = register_wait (codes "t2") (channel 2) 9 waiters

longest_wait : find_pending [] registered ≡ some (codes "t1", channel 1)
unfolding find_pending register_wait text_eq
longest_wait = refl

dispatch-arrives_example :
    ((dispatch permission_allow (codes "t2") registered).1 ≡ true)
    × (find_target (codes "t2") (dispatch permission_allow (codes "t2") registered).0
        ≡ some (codes "t2", record (channel 2) { buffered = some permission_allow }))
    × ((other : Text)
        → other ≢ codes "t2"
        → find_target other (dispatch permission_allow (codes "t2") registered).0
          ≡ find_target other waiters)
dispatch-arrives_example =
    dispatch-arrives permission_allow b't' (codes "2") (channel 2) 9 waiters (inr (inl refl)) refl
      refl
