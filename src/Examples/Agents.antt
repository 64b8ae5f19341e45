-- ===== src/Examples/Agents.antt =====
-- The theorems on the repair of a window at a broken and at a paired one.
use goharness.Prelude.{
  ◌≡◌, ◌↔◌, ℕ, refl, true, List, [], ◌∷◌, some, codes, text_eq, arith, is_blank,
}
use goharness.Session.Message.{Message}
use goharness.Session.State.{Session, IsValid, window, ensure_loaded, current, cursor_of}
use goharness.Session.Append.{append}
use goharness.Session.Truncate.{truncate}
use goharness.Agents.Pairing.{
  intact, cut_at, find_tool_pairing_break, repair_tool_pairing_break,
  invalidate_pendings_after_repair,
}
use goharness.Agents.Pairing.Spec.{Paired}
use goharness.Agents.Pairing.Scan.{find_tool_pairing_break-intact}
use goharness.Agents.Pairing.Cut.{GoodCut, find_tool_pairing_break-GoodCut}
use goharness.Agents.Pairing.Repair.{repair-Paired}
use goharness.Agents.Pairing.Invalidate.{
  PermissionOutlives, AskOutlives, invalidate_pendings_after_repair-Outlives,
}
use goharness.Examples.Samples.{
  session, permission, question, list_store, history, broken, session_of,
}

find_tool_pairing_break-intact_example : (find_tool_pairing_break history ≡ intact) ↔ Paired history
find_tool_pairing_break-intact_example = find_tool_pairing_break-intact history

break_found : find_tool_pairing_break broken ≡ cut_at 1
unfolding find_tool_pairing_break text_eq
break_found = refl

find_tool_pairing_break-GoodCut_example : GoodCut broken 1
find_tool_pairing_break-GoodCut_example = find_tool_pairing_break-GoodCut broken 1 break_found

broken-IsValid : IsValid (ensure_loaded list_store (session_of broken 0))
unfolding ensure_loaded
broken-IsValid = record { in_range = omega arith }

repaired : (repair_tool_pairing_break list_store (session_of broken 0) 9).1 ≡ true
unfolding repair_tool_pairing_break current cursor_of truncate append ensure_loaded text_eq is_blank
repaired = refl

repair-Paired_example :
    Paired (window (repair_tool_pairing_break list_store (session_of broken 0) 9).0)
repair-Paired_example = repair-Paired list_store (session_of broken 0) 9 broken-IsValid repaired

-- A session that waits for a permission and for an answer.
abbrev waiting : Session (List Message × ℕ)
waiting = record session { pending_permission = some permission; pending_ask_user = some question }

invalidate_pendings-Outlives_example :
    PermissionOutlives
      (codes "c1" ∷ [])
      waiting.pending_permission
      (invalidate_pendings_after_repair list_store waiting (codes "c1" ∷ [])).0.pending_permission
      (invalidate_pendings_after_repair list_store waiting (codes "c1" ∷ [])).1
    × AskOutlives
        (codes "c1" ∷ [])
        waiting.pending_ask_user
        (invalidate_pendings_after_repair list_store waiting (codes "c1" ∷ [])).0.pending_ask_user
invalidate_pendings-Outlives_example =
    invalidate_pendings_after_repair-Outlives list_store (codes "c1" ∷ []) waiting refl
