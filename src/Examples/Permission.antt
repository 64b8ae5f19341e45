-- ===== src/Examples/Permission.antt =====
-- A tool that the user is asked about, with its run behind the answer.
use goharness.Prelude.{
  ℕ, ◌≡◌, refl, inr, List, [], ◌∷◌, none, some, Text, codes, text_eq, trim_space, is_space,
  is_blank, if◌then◌else◌,
}
use goharness.Session.Message.{Message}
use goharness.Session.State.{Session, ensure_loaded}
use goharness.Session.Pending.{take_pending_permission}
use goharness.Sandbox.Net.{Net}
use goharness.Sandbox.Net
use goharness.Tools.MagicWord.{permission_allow, classify_magic_word}
use goharness.Tools.MagicWord.Laws.{answer_for, classify_magic_word-answer}
use goharness.Agents.ToolRun.{executed, run_tool, format_tool_result}
use goharness.Agents.Permission.{
  Ask, Runtime, granted, refused, ToolCallInvocation, unset, remember_session,
}
use goharness.Agents.Permission.Resolve.{resolve_permission_magic_word}
use goharness.Agents.Permission.Runs.{runs}
use goharness.Agents.Permission.Asks.{remember_session-forgets}
use goharness.Agents.Permission.Laws.{Settled, resolve_permission_magic_word-Settled}
use goharness.Examples.Samples.{list_store, session, permission}

abbrev State : Type 0
State = List Message × ℕ

abbrev net : Net
net = record {
  parse_url = λ u. Net.host u;
  parse_ip = λ t. some t;
  lookup_ip = λ t. none;
  equal_fold = λ a b. text_eq a b;
}

-- The tool leaves the text `out`; "bash" needs a grant.
abbrev runtime : Text → Runtime State
runtime out = record {
  grant = λ s name args.
      if text_eq name (codes "bash") then refused (codes "outside") (codes "high") else granted;
  execute = λ s name args. executed out [] none;
  tool_hooks = [];
  sandbox = none;
  net = net;
  place = record { home = none; cwd = codes "/work" };
  session_dir = codes "/s";
}

abbrev asked : Session State
asked = record session { pending_permission = some permission }

abbrev run : Text → Ask State
run q = record {
  session = asked;
  question = q;
  result_err = none;
  termination = unset;
  events = [];
  waits = none;
}

abbrev yes : Text
yes = answer_for permission_allow (codes "s1")

abbrev rt : Runtime State
rt = runtime (codes "ok")

classify_magic_word-answer_example :
    classify_magic_word yes ≡ record { action = some permission_allow; session_id = codes "s1" }
unfolding is_space
classify_magic_word-answer_example =
    classify_magic_word-answer permission_allow b's' (codes "1") (refl, (refl, tt))

runs_once :
    runs (resolve_permission_magic_word list_store rt (run yes) 9).0.events
    ≡ (codes "bash", []) ∷ []
unfolding resolve_permission_magic_word text_eq ensure_loaded is_blank
runs_once = refl

resolve_permission_magic_word-Settled_example :
    Settled list_store rt
      (codes "c1")
      (run yes)
      (resolve_permission_magic_word list_store rt (run yes) 9)
unfolding take_pending_permission run_tool format_tool_result is_blank classify_magic_word is_space
    trim_space ensure_loaded
resolve_permission_magic_word-Settled_example =
    resolve_permission_magic_word-Settled list_store rt (run yes) 9 permission_allow permission refl
      refl refl (inr refl) (λ s. refl)

abbrev calls : List ToolCallInvocation
calls =
    record { id = codes "c0"; name = codes "read"; arguments = [] }
    ∷ record { id = codes "c1"; name = codes "bash"; arguments = [] }
    ∷ []

remember_session-forgets_example :
    (remember_session list_store rt (record permission { tool_name = codes "RunScript" }) (run yes)
      ≡ run yes)
    × (remember_session list_store rt (record permission { tool_name = codes "WebFetch" }) (run yes)
        ≡ run yes)
remember_session-forgets_example = remember_session-forgets list_store rt permission (run yes)
