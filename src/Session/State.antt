-- ===== src/Session/State.antt =====
-- session/session.go: the struct Session, its construction, lazy loading and the readers.
-- The locks serialise the methods, so each method is one step on the state.
use goharness.Prelude.{
  ℕ, ◌≤◌, Bool, true, false, List, [], Option, none, some, Text, text_eq, length, drop, leb,
  if◌then◌else◌,
}
use goharness.Session.Message.{Message}
use goharness.Session.Store.{SessionStore}

pub record PendingPermission : Type 0 where
  pub tool_name : Text
  pub tool_call_id : Text
  pub arguments : List (Text × Text)
  pub reason : Text
  pub security_level : Text

pub record PendingAskUser : Type 0 where
  pub tool_call_id : Text
  pub question : Text

pub record SessionWhitelist : Type 0 where
  pub bash : List Text
  pub write : List Text
  pub edit : List Text
  pub run_script : List Text
  pub read : List Text
  pub ls : List Text
  pub network : List Text

-- The sidecar files of a session directory, decoded: `none` is a file that is absent or does not
-- parse. The two flags say whether a write or a removal succeeds.
pub record SessionDir : Type 0 where
  pub permission : Option PendingPermission
  pub ask_user : Option PendingAskUser
  pub session_wl : Option SessionWhitelist
  pub wait_kind : Option Text
  pub can_write : Bool
  pub can_remove : Bool

-- `store` is `none` where the field is nil; `dir` is `none` where SessionDir() is "".
pub record Session (S : Type 0) : Type 0 where
  pub id : Text
  pub agent_name : Text
  pub sponsor : Text
  pub project_dir : Text
  pub team_name : Text
  pub context_length : ℕ
  pub cursor : ℕ
  pub messages : List Message
  pub store : Option S
  pub dir : Option SessionDir
  pub last_compaction_fail_at : ℕ
  pub loaded : Bool
  pub modify_files : List Text
  pub pending_permission : Option PendingPermission
  pub pending_ask_user : Option PendingAskUser
  pub whitelist : Option SessionWhitelist

-- The window that is sent to the model: `messages[cursor:]`.
abbrev pub window : {S : Type 0} → Session S → List Message
window s = drop s.cursor s.messages

-- The offset model: the cursor points into the history.
pub record IsValid {S : Type 0} (s : Session S) : Type 0 where
  pub in_range : s.cursor ≤ length s.messages

pub data NewError : Type 0 where
  no_agent_name no_project_dir no_store no_logger no_session_id not_found : NewError

pub data Created (S : Type 0) : Type 0 where
  created : Session S → Created S
  refused : NewError → Created S

module _ {S : Type 0} where
  unfoldable pub init_session :
      Text → Text → Text → Text → Text → Option S → Option SessionDir → ℕ → Session S
  init_session id agent_name sponsor project_dir team_name store dir context_length = record {
    id = id;
    agent_name = agent_name;
    sponsor = sponsor;
    project_dir = project_dir;
    team_name = team_name;
    context_length = context_length;
    cursor = 0;
    messages = [];
    store = store;
    dir = dir;
    last_compaction_fail_at = 0;
    loaded = false;
    modify_files = [];
    pending_permission = none;
    pending_ask_user = none;
    whitelist = none;
  }

  -- `New`; the fresh ULID is the argument `id`.
  unfoldable pub new :
      Text → Text → Text → Text → Option S → Option SessionDir → Bool → ℕ → Created S
  unfolding init_session
  new id agent_name sponsor project_dir store dir has_logger context_length =
      if text_eq agent_name []
      then refused no_agent_name
      else if text_eq project_dir []
      then refused no_project_dir
      else elim store [
        | none ↦ refused no_store
        | some x ↦
            if has_logger
            then created
                (init_session id agent_name sponsor project_dir [] (some x) dir context_length)
            else refused no_logger
      ]

-- `copyMessages`: a copy of an immutable list is the list.
module _ (st : SessionStore) where
  -- `Load`
  unfoldable pub load :
      Text → Text → Option st.State → Option SessionDir → Bool → ℕ → Created st.State
  unfolding init_session
  load id agent_name store dir has_logger context_length =
      if text_eq id [] then refused no_session_id else elim store [
        | none ↦ refused no_store
        | some x ↦
            if has_logger
            then elim (st.get_meta x id) [
              | none ↦ refused not_found
              | some info ↦ created (
                  init_session id (if text_eq agent_name [] then info.agent_name else agent_name)
                    info.sponsor info.project_dir info.team_name (some x) dir context_length)
            ]
            else refused no_logger
      ]

  -- `loadMessages`: the session, and whether no error was returned.
  unfoldable pub load_messages : Session st.State → Session st.State × Bool
  load_messages s = elim s.store [
    | none ↦ (s, true)
    | some x ↦ elim (st.get x s.id) [
      | none ↦ (s, false)
      | some msgs ↦ (record s { messages = msgs; cursor = st.get_cursor x s.id }, true)
    ]
  ]

  -- The middle part of `ensureLoaded`: the project directory, from the metadata if it is empty.
  unfoldable pub restore_project_dir : st.State → Session st.State → Session st.State
  restore_project_dir x s = elim (st.get_meta x s.id) [
    | none ↦ s
    | some info ↦
        if text_eq s.project_dir [] then record s { project_dir = info.project_dir } else s
  ]

  -- `loadModifyFiles`, `loadPendingPermission` and `loadPendingAsk`.
  unfoldable pub load_modify_files : st.State → Session st.State → Session st.State
  load_modify_files x s = elim (st.get_modify_files x s.id) [
    | none ↦ s
    | some files ↦ record s { modify_files = files }
  ]

  unfoldable pub load_pending_permission : Session st.State → Session st.State
  load_pending_permission s = elim s.dir [
    | none ↦ s
    | some d ↦ elim d.permission [ none ↦ s | some p ↦ record s { pending_permission = some p } ]
  ]

  unfoldable pub load_pending_ask : Session st.State → Session st.State
  load_pending_ask s = elim s.dir [
    | none ↦ s
    | some d ↦ elim d.ask_user [ none ↦ s | some p ↦ record s { pending_ask_user = some p } ]
  ]

  abbrev mark_loaded : Session st.State → Session st.State
  mark_loaded s = record s { loaded = true }

  -- What `ensureLoaded` does once the messages are in: `x` is the store.
  abbrev restore_rest : st.State → Session st.State × Bool → Session st.State
  restore_rest x (s, false) = mark_loaded s
  restore_rest x (s, true) =
      mark_loaded
        (load_pending_ask (load_pending_permission (load_modify_files x (restore_project_dir x s))))

  unfoldable pub ensure_loaded : Session st.State → Session st.State
  unfolding load_messages restore_project_dir load_modify_files load_pending_permission
      load_pending_ask
  ensure_loaded s =
      if s.loaded
      then s
      else elim s.store [ none ↦ mark_loaded s | some x ↦ restore_rest x (load_messages s) ]

  -- `Restore`
  unfoldable pub restore : Session st.State → Session st.State × Bool
  unfolding load_messages
  restore s =
      let (s', done) = load_messages s in
      if done then (record s' { loaded = true }, true) else (s', false)

  -- `All`, `Current` and `Cursor` load first and then read.
  unfoldable pub all_messages : Session st.State → Session st.State × List Message
  all_messages s = let s' = ensure_loaded s in (s', s'.messages)

  abbrev current_of : Session st.State → List Message
  current_of s = if leb (length s.messages) s.cursor then [] else window s

  unfoldable pub current : Session st.State → Session st.State × List Message
  current s = let s' = ensure_loaded s in (s', current_of s')

  unfoldable pub cursor_of : Session st.State → Session st.State × ℕ
  cursor_of s = let s' = ensure_loaded s in (s', s'.cursor)
