-- ===== src/Agents/ToolRun.antt =====
-- How a tool runs behind the hooks: agents/permission.go (the first half of executePendingAndAppend),
-- agents/tools_helpers.go (failedToolResult), agents/loop_helpers.go (formatToolResult) and the types
-- of hooks/hooks.go. The tools and the hooks are parameters. Durations are left out.
use goharness.Prelude.{
  Bool, true, false, List, [], ◌∷◌, ◌++◌, Option, none, some, Text, codes, if◌then◌else◌,
}
use goharness.Session.Message.{ImageBlock}
use goharness.Tools.Params.{Params}

pub record ToolResult : Type 0 where
  pub tool_name : Text
  pub tool_call_id : Text
  pub result : Text
  pub error : Text
  pub success : Bool
  pub images : List Text
  pub image_blocks : List ImageBlock

pub record HookResult : Type 0 where
  pub abort : Bool
  pub abort_reason : Text
  pub error : Option Text
  pub skip_with_result : Option ToolResult

-- `Before` and `After`; `After` may change the result that it is given.
pub record ToolHook : Type 0 where
  pub before : Text → Text → Params → HookResult
  pub after : ToolResult → ToolResult × HookResult

-- What `toolExec.Execute` returns: an error, nothing, or a result that may hold an error.
pub data Executed : Type 0 where
  exec_failed : Text → Executed
  no_result : Executed
  executed : Text → List Text → Option Text → Executed

abbrev pub started : Text → Text → ToolResult
started name id = record {
  tool_name = name;
  tool_call_id = id;
  result = [];
  error = [];
  success = false;
  images = [];
  image_blocks = [];
}

-- `failedToolResult`
unfoldable pub failed_tool_result : Text → Text → Text → ToolResult
failed_tool_result name id message = record (started name id) { error = message }

-- What one answer of `Before` makes of the call: a result instead of it, or none.
abbrev failed_by : Text → Text → Option Text → Option ToolResult
failed_by name id none = none
failed_by name id (some e) = some (failed_tool_result name id e)

abbrev not_skipped : Text → Text → HookResult → Option ToolResult
not_skipped name id hr =
    if hr.abort
    then some (failed_tool_result name id hr.abort_reason)
    else failed_by name id hr.error

abbrev pub produced_by : Text → Text → HookResult → Option ToolResult → Option ToolResult
produced_by name id hr (some r) = some (record r { tool_call_id = id })
produced_by name id hr none = not_skipped name id hr

-- The chain of `Before`: the first result ends it.
unfoldable pub before_chain : List ToolHook → Text → Text → Params → Text → Option ToolResult
unfolding failed_tool_result
before_chain [] sid name args id = none
before_chain (h ∷ hs) sid name args id =
    let hr = h.before sid name args in
    let rest = before_chain hs sid name args id in
    elim (produced_by name id hr hr.skip_with_result) [ some r ↦ some r | none ↦ rest ]

abbrev stopped_by : Text → Text → HookResult → Option ToolResult
stopped_by name id hr =
    if hr.abort
    then some (failed_tool_result name id hr.abort_reason)
    else failed_by name id hr.error

-- The chain of `After`.
unfoldable pub after_chain : List ToolHook → Text → Text → ToolResult → ToolResult
unfolding failed_tool_result
after_chain [] name id tr = tr
after_chain (h ∷ hs) name id tr =
    let out = h.after tr in
    let rest = after_chain hs name id out.0 in
    elim (stopped_by name id out.1) [ some r ↦ r | none ↦ rest ]

abbrev with_error : ToolResult → Option Text → ToolResult
with_error tr none = record tr { success = true }
with_error tr (some e) = record tr { success = false; error = e }

-- The result that is made of what the tool returned.
unfoldable pub result_of : Text → Text → Executed → ToolResult
result_of name id (exec_failed e) = record (started name id) { error = e; success = false }
result_of name id no_result = started name id
result_of name id (executed result images error) =
    with_error (record (started name id) { result = result; images = images }) error

-- The hooks around the call: the result, and whether the tool itself ran.
abbrev run_unless : List ToolHook → Executed → Text → Text → Option ToolResult → ToolResult × Bool
run_unless hs out name id (some r) = (r, false)
run_unless hs out name id none = (after_chain hs name id (result_of name id out), true)

unfoldable pub run_tool :
    List ToolHook → (Text → Params → Executed) → Text → Text → Params → Text → ToolResult × Bool
unfolding before_chain after_chain result_of
run_tool hs execute sid name args id =
    run_unless hs (execute name args) name id (before_chain hs sid name args id)

-- `formatToolResult`
abbrev result_or_note : Text → Text → Text
result_or_note name [] =
    codes "[" ++ (name ++ codes "] 返回结果: (空结果)。我未能从该工具获得任何输出，下一步我应该考虑调整参数或改用其它工具来获取所需信息。")
result_or_note name (c ∷ s) = c ∷ s

abbrev error_or_result : ToolResult → Text → Text
error_or_result tr [] = result_or_note tr.tool_name tr.result
error_or_result tr (c ∷ e) = codes "[" ++ (tr.tool_name ++ (codes "] 执行错误: " ++ c ∷ e))

unfoldable pub format_tool_result : ToolResult → Text
format_tool_result tr = error_or_result tr tr.error
