-- ===== src/Session/Truncate.antt =====
-- session/session.go: Truncate and Reset.
use goharness.Prelude.{
  ℕ, [], Option, none, some, take, length, leb, ltb, if◌then◌else◌, ℤ, pos, negsuc,
}
use goharness.Session.Store.{SessionStore}
use goharness.Session.State.{Session, ensure_loaded}
use goharness.Session.Error.{
  Error, negative_keep_count, truncate_failed, clear_failed, cursor_failed,
}

module _ (st : SessionStore) where
  -- Memory is cut first, and the cursor falls back to the cut.
  abbrev cut_memory : ℕ → Session st.State → Session st.State
  cut_memory keep_count s = record s {
    messages = take keep_count s.messages;
    cursor = if ltb keep_count s.cursor then keep_count else s.cursor;
  }

  unfoldable pub cut : ℕ → Session st.State → Session st.State × Option Error
  cut keep_count s = elim s.store [
    | none ↦ (cut_memory keep_count s, none)
    | some x ↦
        let (x', done) = st.truncate x s.id keep_count in
        (
          record (cut_memory keep_count s) { store = some x' },
          if done then none else some truncate_failed,
        )
  ]

  -- `Truncate`
  unfoldable pub truncate : Session st.State → ℤ → Session st.State × Option Error
  unfolding cut
  truncate s (negsuc n) = (ensure_loaded st s, some negative_keep_count)
  truncate s (pos keep_count) =
      let s' = ensure_loaded st s in
      if leb (length s'.messages) keep_count then (s', none) else cut keep_count s'

  abbrev emptied : Session st.State → Session st.State
  emptied s = record s { messages = []; cursor = 0 }

  -- `Reset`: the store first, and no lazy loading.
  unfoldable pub reset : Session st.State → Session st.State × Option Error
  reset s = elim s.store [
    | none ↦ (emptied s, none)
    | some x ↦
        let (x', cleared) = st.clear x s.id in
        let (y, moved) = st.set_cursor x' s.id 0 in
        if cleared
        then if moved
          then (record (emptied s) { store = some y }, none)
          else (record s { store = some y }, some cursor_failed)
        else (record s { store = some x' }, some clear_failed)
  ]
