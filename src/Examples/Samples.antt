-- ===== src/Examples/Samples.antt =====
-- A store that keeps one history and its cursor, and the sample sessions.
use goharness.Prelude.{
  ℕ, ◌==◌, refl, ap, true, false, not, List, [], ◌∷◌, ◌++◌, Option, none, some, codes, keep, take,
}
use goharness.Session.Message.{ToolCall, Message, user, assistant, tool, plain}
use goharness.Session.Store.{SessionInfo, SessionStore, StoreLaws}
use goharness.Session.State.{PendingPermission, PendingAskUser, SessionDir, Session}

abbrev pub info : SessionInfo
info = record {
  session_id = codes "s1";
  agent_name = codes "coder";
  team_name = [];
  sponsor = [];
  project_dir = codes "/work";
}

-- The history and the cursor; every write succeeds.
abbrev pub list_store : SessionStore
list_store = record {
  State = List Message × ℕ;
  get = λ x id. some x.0;
  get_cursor = λ x id. x.1;
  get_meta = λ x id. some info;
  get_modify_files = λ x id. none;
  append = λ x id agent sponsor m. ((x.0 ++ m ∷ [], x.1), true);
  delete = λ x t id. ((keep (λ m. not (m.timestamp == t)) x.0, x.1), true);
  clear = λ x id. (([], x.1), true);
  set_cursor = λ x id n. ((x.0, n), true);
  truncate = λ x id n. ((take n x.0, x.1), true);
  save_modify_files = λ x id files. x;
}

unsome : {A : Type 0} → A → Option A → A
unsome d none = d
unsome d (some x) = x

pub list_store-StoreLaws : StoreLaws list_store
unfolding unsome
list_store-StoreLaws = record {
  get-append = λ x id agent sponsor m ms e h. ap (λ o. some (unsome [] o ++ m ∷ [])) e;
  get-clear = λ x id h. refl;
  get-set_cursor = λ x id n. refl;
  get-truncate = λ x id n ms e h. ap (λ o. some (take n (unsome [] o))) e;
}

abbrev pub call : ToolCall
call = record { id = codes "c1"; name = codes "read"; arguments = codes "{}" }

abbrev pub call_2 : ToolCall
call_2 = record { id = codes "c2"; name = codes "bash"; arguments = codes "{}" }

abbrev pub ask : Message
ask = plain user (codes "fix") 1

abbrev pub calling : Message
calling = record (plain assistant (codes "look") 2) { tool_calls = call ∷ [] }

abbrev pub calling_2 : Message
calling_2 = record (plain assistant (codes "run") 3) { tool_calls = call_2 ∷ [] }

abbrev pub answer : Message
answer = record (plain tool (codes "text") 4) { tool_call_id = codes "c1" }

abbrev pub ask_again : Message
ask_again = plain user (codes "go on") 5

abbrev pub done : Message
done = plain assistant (codes "done") 6

abbrev pub history : List Message
history = ask ∷ calling ∷ answer ∷ ask_again ∷ done ∷ []

-- The call is not answered right behind its message.
abbrev pub broken : List Message
broken = ask ∷ calling ∷ ask_again ∷ done ∷ []

abbrev pub dir : SessionDir
dir = record {
  permission = none;
  ask_user = none;
  session_wl = none;
  wait_kind = none;
  can_write = true;
  can_remove = true;
}

abbrev pub session_of : List Message → ℕ → Session (List Message × ℕ)
session_of ms cursor = record {
  id = codes "s1";
  agent_name = codes "coder";
  sponsor = [];
  project_dir = codes "/work";
  team_name = [];
  context_length = 10;
  cursor = cursor;
  messages = ms;
  store = some (ms, cursor);
  dir = some dir;
  last_compaction_fail_at = 0;
  loaded = true;
  modify_files = [];
  pending_permission = none;
  pending_ask_user = none;
  whitelist = none;
}

abbrev pub session : Session (List Message × ℕ)
session = session_of history 0

-- The same session as a new object, before it is loaded.
abbrev pub unloaded : Session (List Message × ℕ)
unloaded = record session { loaded = false; messages = [] }

abbrev pub permission : PendingPermission
permission = record {
  tool_name = codes "bash";
  tool_call_id = codes "c1";
  arguments = [];
  reason = codes "outside";
  security_level = codes "high";
}

abbrev pub question : PendingAskUser
question = record { tool_call_id = codes "c1"; question = codes "which?" }
