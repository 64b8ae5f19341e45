-- ===== src/Session/Append.antt =====
-- session/session.go: Append, store first and memory second.
use goharness.Prelude.{
  Bool, true, false, not, ◌||◌, List, [], ◌∷◌, ◌++◌, Option, none, some, keep, is_blank,
  if◌then◌else◌,
}
use goharness.Session.Message.{ToolCall, Message}
use goharness.Session.Store.{SessionStore}
use goharness.Session.State.{Session, ensure_loaded}
use goharness.Session.Error.{Error, persist_failed}

-- `len(m.ToolCalls) > 0`
abbrev pub has_calls : List ToolCall → Bool
has_calls [] = false
has_calls (c ∷ cs) = true

-- The filter of `Append`: a message with text or with tool calls is kept.
unfoldable pub is_kept : Message → Bool
is_kept m = not (is_blank m.content) || has_calls m.tool_calls

module _ (st : SessionStore) where
  -- The loop that persists: it stops at the first error.
  unfoldable pub persist : st.State → Session st.State → List Message → st.State × Bool
  persist x s [] = (x, true)
  persist x s (m ∷ ms) =
      let (x', done) = st.append x s.id s.agent_name s.sponsor m in
      if done then persist x' s ms else (x', false)

  abbrev pub store_result :
      Session st.State → List Message → st.State × Bool → Session st.State × Option Error
  store_result s ms (x', true) = (record s { messages = s.messages ++ ms; store = some x' }, none)
  store_result s ms (x', false) = (record s { store = some x' }, some persist_failed)

  abbrev pub append_on :
      Session st.State → List Message → Option st.State → Session st.State × Option Error
  append_on s ms none = (record s { messages = s.messages ++ ms }, none)
  append_on s ms (some x) = store_result s ms (persist x s ms)

  -- What `Append` does with the filtered messages under the lock.
  unfoldable pub append_filtered : Session st.State → List Message → Session st.State × Option Error
  unfolding persist
  append_filtered s [] = (s, none)
  append_filtered s (m ∷ ms) = append_on s (m ∷ ms) s.store

  unfoldable pub append : Session st.State → List Message → Session st.State × Option Error
  unfolding append_filtered is_kept
  append s ms = append_filtered (ensure_loaded st s) (keep is_kept ms)
