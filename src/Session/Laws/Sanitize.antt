-- ===== src/Session/Laws/Sanitize.antt =====
-- sanitizeMessagesForLLM: what it leaves alone and what it drops.
use mathlib.Core.Bool.{false≢true}
use goharness.Prelude.{
  ◌≡◌, ◌≢◌, refl, sym, ◌∙◌, ap, Bool, true, false, not, List, [], ◌∷◌, Text, text_eq, text_eq_refl,
  contains, any, keep, inl, inr, Bool-cases, arith,
}
use goharness.Session.Message.{ToolCall, Message, assistant, tool, is_tool}
use goharness.Session.Sanitize.{
  is_caller, expected_calls, got, incomplete, all_complete, clean_pass, without_calls,
  sanitize_messages_for_llm,
}

abbrev pub not_tool : Message → Bool
not_tool m = not (is_tool m)

abbrev pub texts : List Message → List Text
texts [] = []
texts (m ∷ ms) = m.content ∷ texts ms

clean_pass-texts :
    (bad : Text → Bool) (p : Bool) (ms : List Message)
    → texts (keep not_tool (clean_pass bad p ms)) ≡ texts (keep not_tool ms)
unfolding clean_pass
clean_pass-texts bad p [] = refl
clean_pass-texts bad p (m ∷ ms) =
    ground (
      arith,
      clean_pass-texts bad true ms,
      clean_pass-texts bad false ms,
      clean_pass-texts bad p ms,
    )

-- sanitizeMessagesForLLM keeps every message that is no tool message, in its place and with its
-- text.
pub sanitize_messages_for_llm-texts :
    (ms : List Message)
    → texts (keep not_tool (sanitize_messages_for_llm ms)) ≡ texts (keep not_tool ms)
unfolding sanitize_messages_for_llm
sanitize_messages_for_llm-texts [] = refl
sanitize_messages_for_llm-texts (m ∷ ms) = clean_pass-texts (incomplete (m ∷ ms)) false (m ∷ ms)

module _ (bad : Text → Bool) (none_bad : (id : Text) → bad id ≡ false) where
  all_complete-true : (cs : List ToolCall) → all_complete bad cs ≡ true
  unfolding all_complete
  all_complete-true [] = refl
  all_complete-true (c ∷ cs) = rw (none_bad c.id) (all_complete-true cs)

  clean_pass_id : (ms : List Message) → clean_pass bad false ms ≡ ms
  unfolding clean_pass
  clean_pass_id [] = refl
  clean_pass_id (m ∷ ms) =
      ground (arith, clean_pass_id ms, all_complete-true m.tool_calls, none_bad m.tool_call_id)

-- Every call of the window has a tool message somewhere in it.
abbrev pub Complete : List Message → Type 0
Complete ms = (id : Text) → contains (expected_calls ms) id ≡ true → got ms id ≢ 0

incomplete-false : (ms : List Message) → Complete ms → (id : Text) → incomplete ms id ≡ false
unfolding incomplete
incomplete-false ms c id = elim (Bool-cases (contains (expected_calls ms) id)) [
  | inr n ↦ rw n refl
  | inl e ↦ rw e (ground (arith, c id e))
]

-- sanitizeMessagesForLLM returns a window unchanged in which every tool call has a tool message
-- somewhere.
pub sanitize_messages_for_llm-Complete :
    (ms : List Message) → Complete ms → sanitize_messages_for_llm ms ≡ ms
unfolding sanitize_messages_for_llm
sanitize_messages_for_llm-Complete [] c = refl
sanitize_messages_for_llm-Complete (m ∷ ms) c =
    clean_pass_id (incomplete (m ∷ ms)) (incomplete-false (m ∷ ms) c) (m ∷ ms)

no_callers-expected_calls : (ms : List Message) → any is_caller ms ≡ false → expected_calls ms ≡ []
unfolding expected_calls
no_callers-expected_calls [] h = refl
no_callers-expected_calls (m ∷ ms) h = ground (arith, no_callers-expected_calls ms)

contains-nil : (id : Text) → contains [] id ≡ false
unfolding contains
contains-nil id = refl

-- sanitizeMessagesForLLM returns a window without tool calls unchanged, also its tool messages,
-- which answer no call.
pub sanitize_messages_for_llm-orphans :
    (ms : List Message) → any is_caller ms ≡ false → sanitize_messages_for_llm ms ≡ ms
sanitize_messages_for_llm-orphans ms h = sanitize_messages_for_llm-Complete ms λ id e. absurd (
    false≢true
      (sym (contains-nil id) ∙ ap (λ l. contains l id) (sym (no_callers-expected_calls ms h)) ∙ e))

sanitize-clean_pass :
    (m : Message) (ms : List Message)
    → sanitize_messages_for_llm (m ∷ ms) ≡ clean_pass (incomplete (m ∷ ms)) false (m ∷ ms)
unfolding sanitize_messages_for_llm
sanitize-clean_pass m ms = refl

-- A call that is answered in the window, behind a message with an unanswered call: its answer is
-- dropped and the call is kept.
module _ (a b t : Message) (ca cb : ToolCall) (a_calls : a.tool_calls ≡ ca ∷ [])
    (a_role : a.role ≡ assistant) (b_calls : b.tool_calls ≡ cb ∷ []) (b_role : b.role ≡ assistant)
    (t_role : t.role ≡ tool) (answered : text_eq t.tool_call_id ca.id ≡ true)
    (other : text_eq t.tool_call_id cb.id ≡ false) where
  a_complete : incomplete (a ∷ b ∷ t ∷ []) ca.id ≡ false
  unfolding incomplete
  a_complete = ground arith

  b_incomplete : incomplete (a ∷ b ∷ t ∷ []) cb.id ≡ true
  unfolding incomplete
  b_incomplete = ground (arith, text_eq_refl cb.id)

  pass :
      (bad : Text → Bool)
      → bad ca.id ≡ false
      → bad cb.id ≡ true
      → clean_pass bad false (a ∷ b ∷ t ∷ []) ≡ a ∷ without_calls b ∷ []
  unfolding clean_pass
  pass bad p q = ground arith

  left_dangling : incomplete (a ∷ without_calls b ∷ []) ca.id ≡ true
  unfolding incomplete
  left_dangling = ground (arith, text_eq_refl ca.id)

  -- For an assistant message with one call, a second one with another call, and a tool message
  -- that answers the first call alone, sanitizeMessagesForLLM leaves the first call unanswered,
  -- though the window it is given answers it.
  pub sanitize-dangling :
      (incomplete (a ∷ b ∷ t ∷ []) ca.id ≡ false)
      × (incomplete (sanitize_messages_for_llm (a ∷ b ∷ t ∷ [])) ca.id ≡ true)
  sanitize-dangling = (
    a_complete,
    ap (λ w. incomplete w ca.id)
          (sanitize-clean_pass a (b ∷ t ∷ [])
            ∙ pass (incomplete (a ∷ b ∷ t ∷ [])) a_complete b_incomplete)
        ∙ left_dangling,
  )
