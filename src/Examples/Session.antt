-- ===== src/Examples/Session.antt =====
-- The theorems on package session at the sample session.
use goharness.Prelude.{
  inl, inr, Bool-cases, ℕ, ◌≡◌, ◌≤◌, ◌<◌, subst, refl, true, false, List, [], ◌∷◌, some, codes,
  text_eq, keep, contains, arith, pos, length,
}
use mathlib.Core.Option.{some-injective}
use goharness.Session.Message.{Message}
use goharness.Session.State.{IsValid, ensure_loaded}
use goharness.Session.Append.{append, is_kept}
use goharness.Session.Rounds.{ok, get_round, delete_round, get_round_range}
use goharness.Session.Pending.{set_pending_permission}
use goharness.Session.Whitelist.{tool_named, add_to_whitelist, on_disk, bash}
use goharness.Session.Sanitize.{expected_calls, got}
use goharness.Session.Laws.Loading.{StoreInRange, ensure_loaded-IsValid}
use goharness.Session.Laws.Append.{Appends, append-Appends}
use goharness.Session.Laws.Delete.{Deletes, delete_round-Deletes}
use goharness.Session.Laws.Pending.{OncePermission, pending_permission-once}
use goharness.Session.Laws.Whitelist.{OnlyEntry, add_to_whitelist-OnlyEntry}
use goharness.Session.Laws.Sanitize.{Complete}
use goharness.Examples.Samples.{
  list_store, ask, calling, calling_2, answer, ask_again, done, history, dir, session, unloaded,
  permission,
}

abbrev St : Type 0
St = List Message × ℕ

session-IsValid : IsValid session
session-IsValid = record { in_range = omega arith }

unloaded-IsValid : IsValid unloaded
unloaded-IsValid = record { in_range = omega arith }

unloaded-StoreInRange : StoreInRange list_store unloaded
unloaded-StoreInRange =
    λ x e ms g. subst (λ z. z.1 ≤ length ms) (some-injective (history, 0) x e) (omega arith)

loaded-IsValid : IsValid (ensure_loaded list_store unloaded)
loaded-IsValid = ensure_loaded-IsValid list_store unloaded unloaded-IsValid unloaded-StoreInRange

append-Appends_example :
    Appends list_store
      (ensure_loaded list_store unloaded)
      (keep is_kept (done ∷ ask ∷ []))
      (append list_store unloaded (done ∷ ask ∷ []))
append-Appends_example = append-Appends list_store unloaded (done ∷ ask ∷ [])

-- The second round of the history starts at index 3.
second_round : (get_round list_store unloaded (pos 3)).1 ≡ ok (ask_again ∷ done ∷ [])
unfolding get_round ensure_loaded get_round_range text_eq
second_round = refl

delete_round-Deletes_example :
    Deletes list_store 1 (ensure_loaded list_store unloaded) (delete_round list_store unloaded 1)
delete_round-Deletes_example = delete_round-Deletes list_store unloaded 1 loaded-IsValid

cut_inside : 2 < length (ensure_loaded list_store unloaded).messages
unfolding ensure_loaded text_eq
cut_inside = omega arith

pending_permission-once_example :
    OncePermission list_store permission (set_pending_permission list_store session permission)
pending_permission-once_example =
    pending_permission-once list_store session dir permission refl refl (refl, refl)
      ((history, 0), history, refl, refl)

bash_named : tool_named (codes "Bash") ≡ some bash
unfolding tool_named
bash_named = refl

add_to_whitelist-OnlyEntry_example :
    OnlyEntry bash
      (codes "git")
      (on_disk (add_to_whitelist session (codes "Bash") (codes "git")).0.dir)
add_to_whitelist-OnlyEntry_example =
    add_to_whitelist-OnlyEntry session dir (codes "Bash") (codes "git") bash refl refl refl
      bash_named

-- One tool call that its tool message answers.
abbrev answered : List Message
answered = ask ∷ calling ∷ answer ∷ []

answered-Complete : Complete answered
unfolding expected_calls got contains
answered-Complete = λ id e k. elim (Bool-cases (text_eq (codes "c1") id)) [
  | inl t ↦ absurd (ground arith)
  | inr t ↦ absurd (ground arith)
]

abbrev interleaved : List Message
interleaved = calling ∷ calling_2 ∷ answer ∷ []

answers_call : text_eq (codes "c1") (codes "c1") ≡ true
unfolding text_eq
answers_call = refl

answers_no_other : text_eq (codes "c1") (codes "c2") ≡ false
unfolding text_eq
answers_no_other = refl
