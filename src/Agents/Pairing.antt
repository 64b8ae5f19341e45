-- ===== src/Agents/Pairing.antt =====
-- agents/pairing_repair.go: finding an assistant message whose tool calls are not all answered right
-- behind it, and rolling the session back to the last user message before it.
pub mod Spec
pub mod Scan
pub mod Cut
pub mod Repair
pub mod Invalidate
use goharness.Prelude.{
  ℕ, zero, suc, ◌+◌, ◌==◌, Bool, true, false, not, ◌&&◌, ◌||◌, List, [], ◌∷◌, ◌++◌, Option, none,
  some, Text, codes, text_eq, contains, keep, drop, length, get_elem?, if◌then◌else◌, pos,
}
use goharness.Session.Message.{Message, user, plain, is_user, is_tool}
use goharness.Session.Store.{SessionStore}
use goharness.Session.State.{Session, PendingPermission, PendingAskUser, current, cursor_of}
use goharness.Session.Error.{Error}
use goharness.Session.Append.{append}
use goharness.Session.Truncate.{truncate}
use goharness.Session.Sanitize.{is_caller, call_ids}
use goharness.Session.Pending.{
  peek_pending_permission, take_pending_permission, take_pending_ask_user, set_pending_ask_user,
}

-- `delete(pending, id)`
abbrev pub delete_id : Text → List Text → List Text
delete_id id = keep λ p. not (text_eq p id)

-- The inner loop: the tool messages from index `j` on are taken off the pending calls.
unfoldable pub cover : List Text → ℕ → List Message → List Text × ℕ × List Message
cover pending j [] = (pending, j, [])
cover pending j (m ∷ rest) =
    if is_tool m
    then cover (delete_id m.tool_call_id pending) (j + 1) rest
    else (pending, j, m ∷ rest)

-- The loop `for cut > 0 && window[cut-1].Role != "user" { cut-- }`.
unfoldable pub back_to_user : List Message → ℕ → ℕ
back_to_user window zero = zero
back_to_user window (suc cut) = elim (get_elem? window cut) [
  | none ↦ back_to_user window cut
  | some m ↦ if is_user m then suc cut else back_to_user window cut
]

-- -1, an index, or the end of the model's fuel.
pub data Found : Type 0 where
  intact : Found
  cut_at : ℕ → Found
  out_of_fuel : Found

-- The outer loop: `i` is the index and `rest` the window from there.
unfoldable pub scan : ℕ → List Message → ℕ → List Message → Found
unfolding cover back_to_user
scan fuel window i [] = intact
scan zero window i (m ∷ rest) = out_of_fuel
scan (suc fuel) window i (m ∷ rest) =
    let (pending, j, behind) = cover (call_ids m.tool_calls) (i + 1) rest in
    let onward = scan fuel window j behind in
    let next = scan fuel window (i + 1) rest in
    if is_caller m
    then elim pending [ [] ↦ onward | id ∷ ids ↦ cut_at (back_to_user window i) ]
    else next

unfoldable pub find_tool_pairing_break : List Message → Found
unfolding scan
find_tool_pairing_break window = scan (length window) window 0 window

-- The tool call ids of the part that is cut off.
unfoldable pub removed_calls : List Message → List Text
removed_calls [] = []
removed_calls (m ∷ ms) = call_ids m.tool_calls ++ removed_calls ms

-- The copy of a user message that is appended again.
abbrev pub kept_copy : Message → Message
kept_copy m = record (plain user m.content m.timestamp) { images = m.images }

abbrev pub notice : Text
notice = codes "（系统提示）检测到上一轮的工具调用序列异常，已回滚该轮。请基于当前上下文重新规划并继续完成原任务。"

-- `len(cur) == 0 || cur[len(cur)-1].Role != "user"`, negated.
abbrev pub ends_in_user : List Message → Bool
ends_in_user [] = false
ends_in_user (m ∷ []) = is_user m
ends_in_user (m ∷ ms) = ends_in_user ms

module _ (st : SessionStore) where
  -- The loop that appends the user messages again, up to the first error.
  unfoldable pub append_users : Session st.State → List Message → Session st.State × Option Error
  append_users s [] = (s, none)
  append_users s (m ∷ ms) =
      let (s', e) = append st s (kept_copy m ∷ []) in
      let rest = append_users s' ms in elim e [ none ↦ rest | some e ↦ (s', some e) ]

  -- The last step: a notice, if the window does not end in a user message.
  unfoldable pub append_notice : Session st.State → ℕ → Session st.State
  append_notice s now =
      let (s', cur) = current st s in
      if ends_in_user cur then s' else (append st s' (plain user notice now ∷ [])).0

  abbrev after_users : ℕ → Session st.State × Option Error → Session st.State
  after_users now (s, none) = append_notice s now
  after_users now (s, some e) = s

  abbrev after_truncate :
      ℕ → List Message → Session st.State × Option Error → Session st.State × Bool × List Text
  after_truncate now bad (s, some e) = (s, false, [])
  after_truncate now bad (s, none) =
      (after_users now (append_users s (keep is_user bad)), true, removed_calls bad)

  abbrev repair_at :
      Session st.State → List Message → ℕ → Found → Session st.State × Bool × List Text
  repair_at s window now intact = (s, false, [])
  repair_at s window now out_of_fuel = (s, false, [])
  repair_at s window now (cut_at cut) =
      let (s', cursor) = cursor_of st s in
      after_truncate now (drop cut window) (truncate st s' (pos (cursor + cut)))

  -- `repairToolPairingBreak`: the session, `repaired` and `removedToolCallIDs`.
  unfoldable pub repair_tool_pairing_break :
      Session st.State → ℕ → Session st.State × Bool × List Text
  unfolding find_tool_pairing_break append_users append_notice removed_calls
  repair_tool_pairing_break s now =
      let (s', window) = current st s in repair_at s' window now (find_tool_pairing_break window)

  abbrev pub revoke_removed :
      List Text → Session st.State → Option PendingPermission → Session st.State × Bool
  revoke_removed removed s none = (s, false)
  revoke_removed removed s (some p) =
      if contains removed p.tool_call_id
      then ((take_pending_permission st s).0, true)
      else (s, false)

  -- The first half of `invalidatePendingsAfterRepair`; the Boolean is the event PermissionDenied.
  unfoldable pub invalidate_permission : Session st.State → List Text → Session st.State × Bool
  invalidate_permission s removed =
      let (s', p) = peek_pending_permission st s in revoke_removed removed s' p

  abbrev pub put_back : List Text → Session st.State → Option PendingAskUser → Session st.State
  put_back removed s none = s
  put_back removed s (some p) =
      if contains removed p.tool_call_id || text_eq p.tool_call_id []
      then s
      else set_pending_ask_user st s p

  -- The second half: a question that is not affected is put back.
  unfoldable pub invalidate_ask : Session st.State → List Text → Session st.State
  invalidate_ask s removed = let (s', p) = take_pending_ask_user st s in put_back removed s' p

  unfoldable pub invalidate_pendings_after_repair :
      Session st.State → List Text → Session st.State × Bool
  unfolding invalidate_permission invalidate_ask
  invalidate_pendings_after_repair s removed =
      let (s', denied) = invalidate_permission s removed in (invalidate_ask s' removed, denied)
