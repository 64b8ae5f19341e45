-- ===== src/Examples/Compaction.antt =====
-- The theorems on compaction at the sample session.
use goharness.Prelude.{◌≡◌, ℕ, refl, true, false, List, some, codes, text_eq, length}
use goharness.Session.Message.{Message}
use goharness.Session.State.{Session, ensure_loaded}
use goharness.Session.Sanitize.{sanitize_messages_for_llm}
use goharness.Session.Compaction.{Hooks, SessionState, do_compact}
use goharness.Session.Laws.Compaction.{Compacts, do_compact-Compacts}
use goharness.Examples.Samples.{list_store, history, session}

abbrev St : Type 0
St = List Message × ℕ

abbrev hooks : Hooks
hooks = record { compactor = some (λ ms. some (codes "summary")); summary_sink = some (λ t. true) }

-- The sink refuses every summary.
abbrev refusing : Hooks
refusing = record {
  compactor = some (λ ms. some (codes "summary"));
  summary_sink = some (λ t. false);
}

abbrev state : SessionState
state = record { cursor = 0; max_window_size = 10; window_tokens = 16; active_messages = history }

abbrev compacted_session : Session St
compacted_session = (do_compact list_store length hooks session state 7).0

do_compact-Compacts_example : Compacts list_store length hooks history 7 session compacted_session
do_compact-Compacts_example = do_compact-Compacts list_store length hooks session state 7 refl

abbrev failed_session : Session St
failed_session = (do_compact list_store length refusing session state 7).0

cursor_stays : failed_session.cursor ≡ session.cursor
unfolding do_compact ensure_loaded sanitize_messages_for_llm text_eq
cursor_stays = refl
