-- ===== src/Session/Sanitize.antt =====
-- session/compaction.go: sanitizeMessagesForLLM, which takes unpaired tool calls out of a window.
use goharness.Prelude.{
  ℕ, suc, Bool, true, false, ◌&&◌, ◌||◌, List, [], ◌∷◌, ◌++◌, Text, contains, text_eq, ltb,
  if◌then◌else◌,
}
use goharness.Session.Message.{ToolCall, Message, is_assistant, is_tool}
use goharness.Session.Append.{has_calls}

-- The messages that the code tests with `m.Role == "assistant" && len(m.ToolCalls) > 0`.
abbrev pub is_caller : Message → Bool
is_caller m = is_assistant m && has_calls m.tool_calls

abbrev pub call_ids : List ToolCall → List Text
call_ids [] = []
call_ids (c ∷ cs) = c.id ∷ call_ids cs

-- The keys of the map `exp`; every entry has `required` 1.
unfoldable pub expected_calls : List Message → List Text
expected_calls [] = []
expected_calls (m ∷ ms) = (if is_caller m then call_ids m.tool_calls else []) ++ expected_calls ms

-- The field `got` of the entry of `id` after the counting loop.
unfoldable pub got : List Message → Text → ℕ
got [] id = 0
got (m ∷ ms) id = let n = got ms id in if is_tool m && text_eq m.tool_call_id id then suc n else n

-- The map `incomplete`.
unfoldable pub incomplete : List Message → Text → Bool
unfolding expected_calls got contains
incomplete msgs id = contains (expected_calls msgs) id && ltb (got msgs id) 1

-- The loop over the tool calls of one message; `bad` is the map `incomplete`.
unfoldable pub all_complete : (Text → Bool) → List ToolCall → Bool
all_complete bad [] = true
all_complete bad (c ∷ cs) = if bad c.id then false else all_complete bad cs

abbrev pub without_calls : Message → Message
without_calls m = record m { tool_calls = [] }

-- The second pass; the Boolean is `pendingIncomplete`.
unfoldable pub clean_pass : (Text → Bool) → Bool → List Message → List Message
unfolding all_complete
clean_pass bad pending [] = []
clean_pass bad pending (m ∷ ms) =
    let after_complete = clean_pass bad false ms in
    let after_incomplete = clean_pass bad true ms in
    let unchanged = clean_pass bad pending ms in
    if is_caller m
    then if all_complete bad m.tool_calls
      then m ∷ after_complete
      else without_calls m ∷ after_incomplete
    else if is_tool m
    then if bad m.tool_call_id || pending then unchanged else m ∷ unchanged
    else m ∷ after_complete

unfoldable pub sanitize_messages_for_llm : List Message → List Message
unfolding clean_pass incomplete
sanitize_messages_for_llm [] = []
sanitize_messages_for_llm (m ∷ ms) = clean_pass (incomplete (m ∷ ms)) false (m ∷ ms)
