-- ===== src/Examples/Pool.antt =====
-- Two sub-agents of one caller: the dispatches without and with the name of a session.
use goharness.Prelude.{ℕ, ◌≡◌, refl, true, false, List, [], ◌∷◌, none, some, Text, codes, arith}
use goharness.Session.Message.{Message}
use goharness.Agents.Pool.{
  Slot, Directory, find_idle_session, create_session, release_spawn, claim, find_state, fresh_slot,
  in_memory,
}
use goharness.Agents.Pool.Steps.{Reachable, initial, step, newly_created}
use goharness.Agents.Pool.Exclusive.{AllHeld, Distinct, Reachable-Exclusive}
use goharness.Agents.Pool.Reuse.{named, named_twice-shared}
use goharness.Agents.Submit.{SubAgentRequest, Caller, Manager, submit, lookup_failed_task_anchor}
use goharness.Agents.Submit.Laws.{Refused, submit-Refused}
use goharness.Session.State.{init_session}
use goharness.Examples.Samples.{list_store, session}

abbrev State : Type 0
State = List Message × ℕ

abbrev directory : Directory State
directory = record {
  list_sessions = λ x. some [];
  create = λ x agent dir sponsor. some (x, codes "s1");
  dir_of = λ id. none;
  has_logger = true;
  context_length = 10;
}

abbrev slot : Slot State
slot = record { sess = session; last_used_at = 4; spawning = false; iteration_fail_streak = 3 }

abbrev pool : List (Slot State)
pool = slot ∷ []

abbrev first : Slot State
first =
    fresh_slot
      (init_session (codes "s1") (codes "coder") [] (codes "/work") [] (some ([], 0)) none 10)

one_dispatch : Reachable list_store directory (first ∷ []) (codes "s1" ∷ [])
unfolding create_session in_memory
one_dispatch = step initial (
    newly_created (codes "coder") (codes "/work") (codes "boss") (some ([], 0)) (some ([], 0)) first
      refl refl)

Reachable-Exclusive_example :
    AllHeld list_store directory (first ∷ []) (codes "s1" ∷ [])
    × Distinct list_store directory (codes "s1" ∷ [])
Reachable-Exclusive_example = Reachable-Exclusive list_store directory one_dispatch

named_twice-shared_example :
    find_idle_session (codes "coder") (codes "/work") [] (
      release_spawn (codes "s1") (
        named list_store directory
          (codes "s1")
          none
          (named list_store directory (codes "s1") none pool)))
    ≡ (claim slot ∷ [], some (claim slot))
named_twice-shared_example =
    named_twice-shared list_store directory slot b's' (codes "1") 3 none refl refl

abbrev digest : Text → Text
digest t = t

abbrev caller : Caller State
caller = record {
  id = codes "main";
  project_dir = codes "/work";
  agent_name = [];
  store = some ([], 0);
}

abbrev request : SubAgentRequest
request = record { agent_name = codes "coder"; task = codes "port it"; session_id = codes "s9" }

abbrev manager : Manager State
manager = record {
  pool = pool;
  anchors = ((codes "main", codes "port it"), codes "s1") ∷ [];
  task_infos = [];
}

submit-Refused_example :
    Refused
      (submit list_store directory digest none
        (λ id. true)
        (codes "go on")
        manager
        (some caller)
        request
        (codes "task-1")).2
unfolding lookup_failed_task_anchor find_state
submit-Refused_example =
    submit-Refused list_store directory digest none (λ id. true) (codes "go on") manager caller
      request (codes "task-1") b's' (codes "1") slot refl refl (omega arith)
