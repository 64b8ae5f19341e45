-- ===== src/Agents/Permission.antt =====
-- agents/permission.go: the request for permission, the user's answer to it, and what is done then.
-- Tools, hooks, sandbox and network are the record Runtime. `Ask` is the AskBuilder of a run with the
-- events that it emits, the calls of tools among them. The main session has no permission channel.
pub mod Entry
pub mod Request
pub mod Resolve
pub mod Runs
pub mod SameTalk
pub mod Answered
pub mod Asks
pub mod Laws
use goharness.Prelude.{
  ℕ, Bool, true, false, not, ◌&&◌, List, [], ◌∷◌, ◌++◌, Option, none, some, Text, codes, text_eq,
  trim_space, has_prefix, drop, if◌then◌else◌,
}
use goharness.Session.Message.{ImageBlock, Message, Role, user, tool, plain}
use goharness.Session.Store.{SessionStore}
use goharness.Session.State.{PendingPermission, Session}
use goharness.Session.Error.{Error}
use goharness.Session.Append.{append}
use goharness.Session.Pending.{
  set_pending_permission, take_pending_permission, mark_waiting_user, clear_waiting_user,
}
use goharness.Session.Whitelist.{add_to_whitelist}
use goharness.Sandbox.Net.{Net}
use goharness.Sandbox.Policy.{SandboxPolicy}
use goharness.Tools.Params.{Params, Place, truncate_string}
use goharness.Tools.MagicWord.{
  Action, permission_allow, permission_allow_session, permission_deny, PermissionMagicWord,
  classify_magic_word,
}
use goharness.Agents.Waits.{Channel, Waiter, register_wait, clear_wait, dispatch}
use goharness.Agents.ToolRun.{ToolResult, ToolHook, Executed, run_tool, format_tool_result}
use goharness.Agents.Permission.Entry.{build_whitelist_entry, build_whitelist_network_hosts}

-- What a tool says to a call that it may refuse; `unrestricted` is a name that the registry does not
-- know, or a tool without `Grant`. The last text is the tool's security level.
pub data Granted : Type 0 where
  unrestricted granted : Granted
  refused : Text → Text → Granted

pub record ToolCallInvocation : Type 0 where
  pub id : Text
  pub name : Text
  pub arguments : Params

pub data Event : Type 0 where
  exec_start : Text → Params → Event
  ran : Text → Params → Event
  exec_end : Text → Text → Bool → Text → Event
  permission_pending : Text → Text → Params → Text → Text → Event
  append_failed : Event

pub data Termination : Type 0 where
  unset failed cancelled permission_timeout : Termination

-- The error of a run: that of an Append, or that of the context.
pub data RunError : Type 0 where
  append_error : Error → RunError
  context_error : RunError

pub record Ask (S : Type 0) : Type 0 where
  pub session : Session S
  pub question : Text
  pub result_err : Option RunError
  pub termination : Termination
  pub events : List Event
  pub waits : Option (List (Waiter Action))

pub record Runtime (S : Type 0) : Type 0 where
  pub grant : Session S → Text → Params → Granted
  pub execute : Session S → Text → Params → Executed
  pub tool_hooks : List ToolHook
  pub sandbox : Option SandboxPolicy
  pub net : Net
  pub place : Place
  pub session_dir : Text

abbrev pub emit : {S : Type 0} → Event → Ask S → Ask S
emit e b = record b { events = b.events ++ e ∷ [] }

abbrev pub tool_message : Text → Text → ℕ → Message
tool_message content id now = record (plain tool content now) { tool_call_id = id }

abbrev pub image_note : Text → Text
image_note name = codes "以下是工具 " ++ (name ++ codes " 读取到的图片内容（视觉消息），请结合图片进行分析：")

abbrev pub image_message : Text → List ImageBlock → ℕ → Message
image_message name blocks now = record (plain user (image_note name) now) { images = blocks }

-- The text before the first place where `sub` stands.
unfoldable pub before_text : Text → Text → Text
unfolding has_prefix
before_text sub [] = []
before_text sub (c ∷ s) =
    let rest = before_text sub s in if has_prefix (c ∷ s) sub then [] else c ∷ rest

-- `cleanDeniedReason`
unfoldable pub clean_denied_reason : Text → Text
unfolding trim_space before_text truncate_string
clean_denied_reason reason =
    truncate_string
      (trim_space (
        before_text (10 ∷ []) (
          before_text (codes "。这是越权操作")
            (before_text (codes "（可用 Permission") (trim_space reason)))))
      120

abbrev or_no_reason : Text → Text
or_no_reason [] = codes "未给出具体原因"
or_no_reason (c ∷ s) = c ∷ s

-- The text of the result that stands for a denied call.
unfoldable pub denied_content : PendingPermission → Text
unfolding clean_denied_reason
denied_content p =
    codes "我尝试执行需要授权的操作（工具 "
    ++ (p.tool_name
        ++ (codes "，原因："
            ++ (or_no_reason (clean_denied_reason p.reason)
                ++ codes "），但用户明确表示不允许授权。\n原因：该操作被用户拒绝。\n下一步我应该：考虑其它的执行路径或工具来完成此工作，而不是继续尝试该方式。")))

module _ (st : SessionStore) where
  -- `b.session.Append` with what is done on its error; `announced` is whether an event tells of it.
  abbrev pub appended : Bool → Ask st.State → Session st.State × Option Error → Ask st.State
  appended announced b (s, none) = record b { session = s }
  appended announced b (s, some e) = record b {
    session = s;
    result_err = some (append_error e);
    termination = failed;
    events = if announced then b.events ++ append_failed ∷ [] else b.events;
  }

  -- `appendDeniedResult`
  unfoldable pub append_denied_result : Ask st.State → PendingPermission → ℕ → Ask st.State
  unfolding append
  append_denied_result b p now =
      appended false b
        (append st b.session (tool_message (denied_content p) p.tool_call_id now ∷ []))

  abbrev pub append_images : Ask st.State → Text → List ImageBlock → ℕ → Ask st.State
  append_images b name [] now = b
  append_images b name (i ∷ is) now =
      appended true b (append st b.session (image_message name (i ∷ is) now ∷ []))

  -- The events of the run of a tool, if it ran, and of its end.
  abbrev pub reported : Ask st.State → PendingPermission → ToolResult → Bool → Ask st.State
  reported b p tr has_run =
      emit (exec_end p.tool_name p.tool_call_id tr.success (format_tool_result tr))
        (if has_run then emit (ran p.tool_name p.arguments) b else b)

  abbrev pub append_content : Ask st.State → PendingPermission → Text → ℕ → Ask st.State
  append_content b p content now =
      appended true b (append st b.session (tool_message content p.tool_call_id now ∷ []))

  -- What follows the run of the tool.
  abbrev pub append_result : Ask st.State → PendingPermission → ℕ → ToolResult × Bool → Ask st.State
  append_result b p now (tr, has_run) =
      append_images (append_content (reported b p tr has_run) p (format_tool_result tr) now)
        p.tool_name tr.image_blocks now

  module _ (rt : Runtime st.State) where
    -- `executePendingAndAppend`
    unfoldable pub execute_pending_and_append : Ask st.State → PendingPermission → ℕ → Ask st.State
    unfolding run_tool append format_tool_result
    execute_pending_and_append b p now =
        append_result (emit (exec_start p.tool_name p.arguments) b) p now (
          run_tool rt.tool_hooks (rt.execute b.session) b.session.id p.tool_name p.arguments
            p.tool_call_id)

    -- An error of `AddToWhitelist` is only logged.
    abbrev pub remember : Text → Text → Ask st.State → Ask st.State
    remember name [] b = b
    remember name (c ∷ entry) b = record b {
      session = (add_to_whitelist b.session name (c ∷ entry)).0;
    }

    unfoldable pub remember_hosts : List Text → Ask st.State → Ask st.State
    unfolding add_to_whitelist
    remember_hosts [] b = b
    remember_hosts (h ∷ hs) b =
        remember_hosts hs
          (record b { session = (add_to_whitelist b.session (codes "network") h).0 })

    -- What a grant for the session adds to its whitelist.
    unfoldable pub remember_session : PendingPermission → Ask st.State → Ask st.State
    unfolding build_whitelist_entry build_whitelist_network_hosts add_to_whitelist remember_hosts
    remember_session p b = remember_hosts (build_whitelist_network_hosts rt.net rt.sandbox p) (
        remember p.tool_name (build_whitelist_entry rt.place b.session.project_dir rt.session_dir p)
          b)

    -- `applyPermissionAction`
    unfoldable pub apply_permission_action :
        Ask st.State → PendingPermission → Action → ℕ → Ask st.State
    unfolding execute_pending_and_append remember_session append_denied_result
    apply_permission_action b p permission_allow now = execute_pending_and_append b p now
    apply_permission_action b p permission_allow_session now =
        execute_pending_and_append (remember_session p b) p now
    apply_permission_action b p permission_deny now = append_denied_result b p now
