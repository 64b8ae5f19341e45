-- ===== src/Session/Laws/Append.antt =====
-- Append: memory grows by the kept messages or not at all, and never runs ahead of the store.
use goharness.Prelude.{
  ◌≡◌, List, [], ◌∷◌, ◌++◌, Option, none, some, keep, length-append, drop-append_le, inl, inr,
  Option-cases, arith, append-nil,
}
use goharness.Session.Message.{Message}
use goharness.Session.Store.{SessionStore}
use goharness.Session.State.{Session, IsValid, window, ensure_loaded}
use goharness.Session.Error.{Error, persist_failed}
use goharness.Session.Append.{is_kept, append_filtered, append}
use goharness.Session.Laws.Loading.{StoreInRange, ensure_loaded-IsValid}

-- Both outcomes of a call, in memory: `before` is the session when it was loaded.
pub record Grown {S : Type 0} (before after : Session S) (added : List Message) : Type 0 where
  pub messages_after : after.messages ≡ before.messages ++ added
  pub cursor_after : after.cursor ≡ before.cursor
  pub loaded_after : after.loaded ≡ before.loaded
  pub id_after : after.id ≡ before.id

module _ (st : SessionStore) where
  abbrev pub Appends : Session st.State → List Message → Session st.State × Option Error → Type 0
  Appends s added (s', none) = Grown s s' added
  Appends s added (s', some e) = Grown s s' [] × (e ≡ persist_failed)

  append_filtered-Appends :
      (s : Session st.State) (ms : List Message) → Appends s ms (append_filtered st s ms)
  unfolding append_filtered
  append_filtered-Appends s [] = ground (arith, append-nil s.messages)
  append_filtered-Appends s (m ∷ ms) = elim (Option-cases s.store) [
    | inl e ↦ rw e (ground (arith, append-nil s.messages))
    | inr (x, e) ↦ rw e (ground (arith, append-nil s.messages))
  ]

  -- Append adds to the history in memory exactly the messages that have text or tool calls, in
  -- their order, or returns an error and adds nothing; the cursor stays where the loaded session
  -- has it either way.
  pub append-Appends :
      (s : Session st.State) (ms : List Message)
      → Appends (ensure_loaded st s) (keep is_kept ms) (append st s ms)
  unfolding append
  append-Appends s ms = append_filtered-Appends (ensure_loaded st s) (keep is_kept ms)

  Appends-IsValid :
      (s : Session st.State) (added : List Message) (r : Session st.State × Option Error)
      → IsValid s
      → Appends s added r
      → IsValid r.0
  Appends-IsValid s added (s', none) v g = record {
    in_range =
        rw (g.messages_after, g.cursor_after) (omega (arith, length-append {0} s.messages added));
  }
  Appends-IsValid s added (s', some e) v (g, _) = record {
    in_range =
        rw (g.messages_after, g.cursor_after) (omega (arith, length-append {0} s.messages []));
  }

  -- Append keeps the cursor inside the history, when it was there and the cursor of the store
  -- lies in the history of the store.
  pub append-IsValid :
      (s : Session st.State) (ms : List Message)
      → IsValid s
      → StoreInRange st s
      → IsValid (append st s ms).0
  append-IsValid s ms v r =
      Appends-IsValid (ensure_loaded st s) (keep is_kept ms) (append st s ms)
        (ensure_loaded-IsValid st s v r) (append-Appends s ms)

  -- The store and the memory hold the same history.
  abbrev pub Synced : Session st.State → Type 0
  Synced s = (x : st.State) → s.store ≡ some x → st.get x s.id ≡ some s.messages

  -- After a successful Append on a session whose cursor lies in its history, the window that is
  -- sent to the model is the old window followed by the messages that have text or tool calls.
  pub append-window :
      (s : Session st.State) (ms : List Message)
      → IsValid (ensure_loaded st s)
      → (append st s ms).1 ≡ none
      → window (append st s ms).0 ≡ window (ensure_loaded st s) ++ keep is_kept ms
  append-window s ms v h = window_of (append st s ms) (append-Appends s ms) h
    where
      window_of :
          (r : Session st.State × Option Error)
          → Appends (ensure_loaded st s) (keep is_kept ms) r
          → r.1 ≡ none
          → window r.0 ≡ window (ensure_loaded st s) ++ keep is_kept ms
      window_of (s', some e) g k = cc k
      window_of (s', none) g k =
          rw (g.messages_after, g.cursor_after)
            (drop-append_le (ensure_loaded st s).cursor (ensure_loaded st s).messages
              (keep is_kept ms) v.in_range)
