-- ===== src/Session/Compaction.antt =====
-- session/compaction.go: when a session is compacted, and what moves. The estimate of a text's
-- tokens, a sum of floats in the source, is the parameter `estimate_tokens`.
use goharness.Prelude.{
  ℕ, ◌+◌, ◌-◌, ◌*◌, ◌/◌, Bool, true, false, ◌&&◌, ◌||◌, List, [], ◌∷◌, ◌++◌, Option, none, some,
  Text, length, leb, ltb, if◌then◌else◌,
}
use goharness.Session.Message.{TokenUsage, Message, is_assistant}
use goharness.Session.Store.{SessionStore}
use goharness.Session.State.{Session, window, ensure_loaded}
use goharness.Session.Sanitize.{sanitize_messages_for_llm}

-- What the outside sees of a compaction, in order: the three handlers and the call of the sink.
pub data Event : Type 0 where
  compact_start : ℕ → ℕ → Event
  sink_called : Text → Event
  compacted : ℕ → ℕ → Event
  compact_done : ℕ → ℕ → Event

-- The injected callbacks, each absent where the field is nil. `compact` returns `none` on an error
-- and `deliver` tells whether the summary was stored.
pub record Hooks : Type 0 where
  pub compactor : Option (List Message → Option Text)
  pub summary_sink : Option (Text → Bool)

pub record SessionState : Type 0 where
  pub cursor : ℕ
  pub max_window_size : ℕ
  pub window_tokens : ℕ
  pub active_messages : List Message

-- 5 minutes in nanoseconds.
abbrev pub compaction_cooldown : ℕ
compaction_cooldown = 300_000_000_000

abbrev pub force_compact_threshold : ℕ
force_compact_threshold = 100_000

abbrev has_usage : Option TokenUsage → Bool
has_usage none = false
has_usage (some u) = ltb 0 u.completion_tokens || ltb 0 u.reasoning_tokens

abbrev spent : Option TokenUsage → ℕ
spent none = 0
spent (some u) = u.completion_tokens + u.reasoning_tokens

abbrev above_threshold : SessionState → List Message → Bool
above_threshold t [] = false
above_threshold t (m ∷ ms) = ltb (t.max_window_size * 4 / 5) t.window_tokens

-- `needsCompaction`; `int64(float64(n) * 0.8)` is 4n/5 rounded down for every n below 2^50.
unfoldable pub needs_compaction : SessionState → Bool
needs_compaction t = if leb t.max_window_size 0 then false else above_threshold t t.active_messages

-- The call of the compactor, if there is a message left.
abbrev pub ask : (List Message → Option Text) → List Message → Option Text
ask compact [] = some []
ask compact (m ∷ ms) = compact (m ∷ ms)

-- `generateSummary`: `none` is an error.
unfoldable pub generate_summary : Option (List Message → Option Text) → List Message → Option Text
unfolding sanitize_messages_for_llm
generate_summary none ms = some []
generate_summary (some compact) [] = some []
generate_summary (some compact) (m ∷ ms) = ask compact (sanitize_messages_for_llm (m ∷ ms))

-- The delivery of a summary: an empty one is a failure, and so is a sink that reports an error.
abbrev pub deliver : (Text → Bool) → Option Text → Bool × List Event
deliver sink none = (false, [])
deliver sink (some []) = (false, [])
deliver sink (some (c ∷ summary)) = (sink (c ∷ summary), sink_called (c ∷ summary) ∷ [])

unfoldable pub summarise :
    (Text → Bool) → Option (List Message → Option Text) → List Message → Bool × List Event
unfolding generate_summary
summarise sink none active = (false, [])
summarise sink (some compact) [] = (true, [])
summarise sink (some compact) (m ∷ ms) = deliver sink (generate_summary (some compact) (m ∷ ms))

module _ (st : SessionStore) (estimate_tokens : Text → ℕ) where
  abbrev message_tokens : Message → ℕ
  message_tokens m =
      if is_assistant m && has_usage m.usage then spent m.usage else estimate_tokens m.content

  unfoldable pub estimate_window_tokens : List Message → ℕ
  estimate_window_tokens [] = 0
  estimate_window_tokens (m ∷ ms) = message_tokens m + estimate_window_tokens ms

  unfoldable pub capture_state : Session st.State → SessionState
  unfolding estimate_window_tokens
  capture_state s = record {
    cursor = s.cursor;
    max_window_size = s.context_length;
    window_tokens = estimate_window_tokens (window s);
    active_messages = window s;
  }

  abbrev store_cursor : Session st.State → Option st.State → Option st.State
  store_cursor s none = none
  store_cursor s (some x) = some (st.set_cursor x s.id (length s.messages)).0

  -- `executeFullCompaction`: only the cursor moves, in memory and in the store.
  unfoldable pub execute_full_compaction : Session st.State → Session st.State × ℕ
  execute_full_compaction s = (
    record s { cursor = length s.messages; store = store_cursor s s.store },
    length s.messages - s.cursor,
  )

  -- The end of `doCompact` on the session as it is then: `now` is the clock.
  abbrev pub conclude : Session st.State → ℕ → Bool × List Event → Session st.State × List Event
  conclude s now (true, events) =
      let (s', slid) = execute_full_compaction s in
      let t = ensure_loaded st (record s' { last_compaction_fail_at = 0 }) in
      (
        t,
        events
            ++ compacted slid s.context_length
              ∷ compact_done slid (estimate_window_tokens (window t))
              ∷ [],
      )
  conclude s now (false, events) =
      let t = ensure_loaded st (record s { last_compaction_fail_at = now }) in
      (t, events ++ compact_done 0 (estimate_window_tokens (window t)) ∷ [])

  abbrev pub compact_with :
      Option (List Message → Option Text)
      → Session st.State
      → SessionState
      → ℕ
      → Option (Text → Bool)
      → Session st.State × List Event
  compact_with compactor s state now none = (record s { last_compaction_fail_at = now }, [])
  compact_with compactor s state now (some sink) =
      let (s', events) = conclude s now (summarise sink compactor state.active_messages) in
      (s', compact_start state.window_tokens s.context_length ∷ events)

  -- `doCompact` with a snapshot that was taken before; the session may have moved on since.
  unfoldable pub do_compact :
      Hooks → Session st.State → SessionState → ℕ → Session st.State × List Event
  unfolding summarise execute_full_compaction
  do_compact hooks s state now = compact_with hooks.compactor s state now hooks.summary_sink

  -- The test at the head of `TryCompact`.
  unfoldable pub cooling_down : Session st.State → ℕ → Bool
  cooling_down s now =
      ltb 0 s.last_compaction_fail_at && ltb (now - s.last_compaction_fail_at) compaction_cooldown

  unfoldable pub try_compact : Hooks → Session st.State → ℕ → Session st.State × List Event
  unfolding do_compact cooling_down needs_compaction capture_state
  try_compact hooks s now =
      if cooling_down s now
      then (s, [])
      else if needs_compaction (capture_state s)
      then do_compact hooks s (capture_state s) now
      else (s, [])

  abbrev force_on :
      Hooks → Session st.State → SessionState → ℕ → List Message → Session st.State × List Event
  force_on hooks s state now [] = (s, [])
  force_on hooks s state now (m ∷ ms) =
      if leb state.window_tokens force_compact_threshold
      then (s, [])
      else do_compact hooks s state now

  unfoldable pub force_compact : Hooks → Session st.State → ℕ → Session st.State × List Event
  unfolding do_compact capture_state
  force_compact hooks s now =
      force_on hooks s (capture_state s) now (capture_state s).active_messages
