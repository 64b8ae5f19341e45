-- ===== src/Session/Message.antt =====
-- session/message.go and the usage record of session/session_types.go.
use goharness.Prelude.{
  ℕ, ◌+◌, ◌-◌, Bool, true, false, List, [], Option, none, Text, ltb, if◌then◌else◌,
}

pub record ToolCall : Type 0 where
  pub id : Text
  pub name : Text
  pub arguments : Text

pub record ImageBlock : Type 0 where
  pub media_type : Text
  pub base64_data : Text
  pub path : Text
  pub alt_text : Text

pub record TokenUsage : Type 0 where
  pub timestamp : ℕ
  pub prompt_tokens : ℕ
  pub completion_tokens : ℕ
  pub total_tokens : ℕ
  pub cached_tokens : ℕ
  pub reasoning_tokens : ℕ
  pub estimated : Bool

-- `TokenUsage.ActualTokens`: the difference is clamped at 0.
unfoldable pub actual_tokens : TokenUsage → ℕ
actual_tokens u =
    let n = u.prompt_tokens + u.completion_tokens in
    if ltb n u.cached_tokens then 0 else n - u.cached_tokens

-- The role strings that the code compares with, and any other string.
pub data Role : Type 0 where
  user assistant tool system : Role
  other : Text → Role

pub record Message : Type 0 where
  pub role : Role
  pub content : Text
  pub reasoning_content : Text
  pub images : List ImageBlock
  pub timestamp : ℕ
  pub tool_call_id : Text
  pub tool_calls : List ToolCall
  pub finish_reason : Text
  pub usage : Option TokenUsage

-- The tests `m.Role == "user"`, `m.Role == "tool"` and `m.Role == "assistant"`.
abbrev pub role_is_user : Role → Bool
role_is_user user = true
role_is_user _ = false

abbrev pub role_is_tool : Role → Bool
role_is_tool tool = true
role_is_tool _ = false

abbrev pub role_is_assistant : Role → Bool
role_is_assistant assistant = true
role_is_assistant _ = false

abbrev pub is_user : Message → Bool
is_user m = role_is_user m.role

abbrev pub is_tool : Message → Bool
is_tool m = role_is_tool m.role

abbrev pub is_assistant : Message → Bool
is_assistant m = role_is_assistant m.role

-- A message of the given role and text, its other fields zero.
abbrev pub plain : Role → Text → ℕ → Message
plain role content timestamp = record {
  role = role;
  content = content;
  reasoning_content = [];
  images = [];
  timestamp = timestamp;
  tool_call_id = [];
  tool_calls = [];
  finish_reason = [];
  usage = none;
}
