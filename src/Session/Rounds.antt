-- ===== src/Session/Rounds.antt =====
-- session/session.go: getRoundRange, GetRound, findMessageIndexByTimestamp and DeleteRound. A round
-- is a user message with the messages up to the next user message.
use goharness.Prelude.{
  ℕ, zero, suc, ◌+◌, ◌-◌, Bool, true, false, ◌&&◌, List, [], ◌∷◌, ◌++◌, Option, none, some, drop,
  take, length, get_elem?, ◌==◌, if◌then◌else◌, ℤ, pos, negsuc,
}
use goharness.Session.Message.{Message, is_user}
use goharness.Session.Store.{SessionStore}
use goharness.Session.State.{Session, window, ensure_loaded}
use goharness.Session.Error.{
  Error, delete_failed, cursor_out_of_range, not_a_user_message, message_not_found,
}

pub data Result {ℓ} (A : Type ℓ) : Type ℓ where
  ok : A → Result A
  fail : Error → Result A

-- The loop of `getRoundRange`: `round_end` is the index and `rest` what the slice holds from there.
unfoldable pub scan_round : ℕ → List Message → ℕ
scan_round round_end [] = round_end
scan_round round_end (m ∷ rest) = if is_user m then round_end else scan_round (round_end + 1) rest

-- `getRoundRange` at a cursor that is not negative; `at` is `active[cursor]`, absent out of range.
unfoldable pub round_range_at : ℕ → List Message → Option Message → Result ℕ
unfolding scan_round
round_range_at cursor active none = fail cursor_out_of_range
round_range_at cursor active (some m) =
    if is_user m
    then ok (scan_round (cursor + 1) (drop (cursor + 1) active))
    else fail not_a_user_message

unfoldable pub get_round_range : ℕ → List Message → Result ℕ
unfolding round_range_at
get_round_range cursor active = round_range_at cursor active (get_elem? active cursor)

-- `active[cursor:roundEnd]`
abbrev pub slice : ℕ → ℕ → List Message → List Message
slice lo hi ms = take (hi - lo) (drop lo ms)

abbrev pub round_of : ℕ → List Message → Result ℕ → Result (List Message)
round_of cursor active (ok round_end) = ok (slice cursor round_end active)
round_of cursor active (fail e) = fail e

-- The first loop of `findMessageIndexByTimestamp`, from index `i - 1` down to 0.
unfoldable pub find_user_back : ℕ → List Message → ℕ → Option ℕ
find_user_back timestamp ms zero = none
find_user_back timestamp ms (suc i) = elim (get_elem? ms i) [
  | none ↦ find_user_back timestamp ms i
  | some m ↦ if is_user m && m.timestamp == timestamp then some i else find_user_back timestamp ms i
]

-- The second loop, from index `i` up; `ms` is the rest of the slice.
unfoldable pub find_forward : ℕ → ℕ → List Message → Option ℕ
find_forward timestamp i [] = none
find_forward timestamp i (m ∷ ms) =
    if m.timestamp == timestamp then some i else find_forward timestamp (i + 1) ms

unfoldable pub find_message_index_by_timestamp : List Message → ℕ → Option ℕ
unfolding find_user_back find_forward
find_message_index_by_timestamp ms timestamp = elim (find_user_back timestamp ms (length ms)) [
  | some i ↦ some i
  | none ↦ find_forward timestamp 0 ms
]

module _ (st : SessionStore) where
  -- `GetRound`
  unfoldable pub get_round : Session st.State → ℤ → Session st.State × Result (List Message)
  unfolding get_round_range
  get_round s (negsuc n) = (ensure_loaded st s, fail cursor_out_of_range)
  get_round s (pos cursor) =
      let s' = ensure_loaded st s in
      (s', round_of cursor (window s') (get_round_range cursor (window s')))

  -- The loop of `DeleteRound` that deletes from the store, up to the first error.
  unfoldable pub delete_each : st.State → Session st.State → List Message → st.State × Bool
  delete_each x s [] = (x, true)
  delete_each x s (m ∷ ms) =
      let (x', done) = st.delete x m.timestamp s.id in
      if done then delete_each x' s ms else (x', false)

  -- `append(s.messages[:absStart], s.messages[absEnd:]...)`
  abbrev pub without : ℕ → ℕ → Session st.State → Session st.State
  without cursor round_end s = record s {
    messages = take (s.cursor + cursor) s.messages ++ drop (s.cursor + round_end) s.messages;
  }

  -- The store first: memory changes only if every deletion succeeded.
  unfoldable pub delete_range : Session st.State → ℕ → ℕ → Session st.State × Option Error
  unfolding delete_each
  delete_range s cursor round_end = elim s.store [
    | none ↦ (without cursor round_end s, none)
    | some x ↦
        let (x', done) =
          delete_each x s (slice (s.cursor + cursor) (s.cursor + round_end) s.messages) in
        if done
        then (record (without cursor round_end s) { store = some x' }, none)
        else (record s { store = some x' }, some delete_failed)
  ]

  abbrev pub delete_round_at : Session st.State → ℕ → Result ℕ → Session st.State × Option Error
  delete_round_at s cursor (fail e) = (s, some e)
  delete_round_at s cursor (ok round_end) = delete_range s cursor round_end

  abbrev pub delete_found : Session st.State → ℕ → Option ℕ → Session st.State × Option Error
  delete_found s timestamp none = (s, some (message_not_found timestamp))
  delete_found s timestamp (some cursor) =
      delete_round_at s cursor (get_round_range cursor (window s))

  -- `DeleteRound`
  unfoldable pub delete_round : Session st.State → ℕ → Session st.State × Option Error
  unfolding find_message_index_by_timestamp get_round_range delete_range
  delete_round s timestamp =
      let s' = ensure_loaded st s in
      delete_found s' timestamp (find_message_index_by_timestamp (window s') timestamp)
