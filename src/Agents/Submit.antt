-- ===== src/Agents/Submit.antt =====
-- agents/subagent.go: how a task is accepted (Submit), the anchors of failed tasks and the count of
-- the runs that were cut off. The control plane's Register and SHA-256 are parameters; the events,
-- the better titles that come later and the run itself are left out.
pub mod Laws
use goharness.Prelude.{
  ℕ, zero, suc, ◌+◌, ◌==◌, Bool, true, false, not, ◌&&◌, List, [], ◌∷◌, ◌++◌, Option, none, some,
  Text, text_eq, trim_space, length, take, leb, ltb, if◌then◌else◌,
}
use goharness.Session.Store.{SessionStore}
use goharness.Session.State.{NewError}
use goharness.Agents.Pool.{
  Slot, Directory, Pool, id_of, alter, Located, located, load_failed, create_failed, nil_store,
  get_or_create, release_spawn,
}

-- `failedTaskAnchors`: the session where a task failed, by the main session and the task's hash.
abbrev pub Anchors : Type 0
Anchors = List ((Text × Text) × Text)

abbrev pub failed_task_anchor_limit : ℕ
failed_task_anchor_limit = 128

abbrev pub subagent_iteration_fail_limit : ℕ
subagent_iteration_fail_limit = 3

abbrev pub is_key : Text × Text → Text × Text → Bool
is_key (a, b) (c, d) = text_eq a c && text_eq b d

-- `m.failedTaskAnchors[key]`, and the assignment to it.
unfoldable pub anchor_at : Text × Text → Anchors → Text
unfolding text_eq
anchor_at key [] = []
anchor_at key ((k, v) ∷ anchors) =
    let rest = anchor_at key anchors in if is_key k key then v else rest

unfoldable pub set_anchor : Text × Text → Text → Anchors → Anchors
unfolding text_eq
set_anchor key v [] = (key, v) ∷ []
set_anchor key v ((k, w) ∷ anchors) =
    let rest = set_anchor key v anchors in
    if is_key k key then (key, v) ∷ anchors else (k, w) ∷ rest

-- `subagentIterationFailLimit` and the other reasons for which a dispatch is not accepted.
pub data Receipt : Type 0 where
  accepted : Text → Text → Text → Receipt
  unknown_agent no_session register_failed : Receipt
  detour : Text → Receipt
  cut_off : ℕ → Receipt
  load_refused : NewError → Receipt
  create_refused panicked : Receipt

pub record SubAgentRequest : Type 0 where
  pub agent_name : Text
  pub task : Text
  pub session_id : Text

-- The session of the caller, `tc.Session`.
pub record Caller (S : Type 0) : Type 0 where
  pub id : Text
  pub project_dir : Text
  pub agent_name : Text
  pub store : Option S

pub record TaskInfo : Type 0 where
  pub session_id : Text
  pub agent_name : Text
  pub title : Text

pub record Manager (S : Type 0) : Type 0 where
  pub pool : List (Slot S)
  pub anchors : Anchors
  pub task_infos : List (Text × TaskInfo)

module _ (hash : Text → Text) where
  abbrev pub failed_task_anchor_key : Text → Text → Text × Text
  failed_task_anchor_key main task = (main, hash task)

  -- `recordFailedTaskAnchor` and `lookupFailedTaskAnchor`
  unfoldable pub record_failed_task_anchor : Text → Text → Text → Anchors → Anchors
  unfolding set_anchor
  record_failed_task_anchor main task id anchors =
      set_anchor (failed_task_anchor_key main task) id
        (if leb failed_task_anchor_limit (length anchors) then [] else anchors)

  unfoldable pub lookup_failed_task_anchor : Text → Text → Anchors → Text
  unfolding anchor_at
  lookup_failed_task_anchor main task anchors = anchor_at (failed_task_anchor_key main task) anchors

-- `recordIterationOutcome`; an empty reason is a success.
pub data Ended : Type 0 where
  succeeded out_of_iterations failed_otherwise : Ended

abbrev pub streak_after : Ended → ℕ → ℕ
streak_after succeeded n = 0
streak_after out_of_iterations n = n + 1
streak_after failed_otherwise n = 0

-- `snapshotTitle`
unfoldable pub snapshot_title : Text → Text
unfolding trim_space
snapshot_title task =
    let title = trim_space task in if ltb 40 (length title) then take 40 title else title

module _ {S : Type 0} where
  unfoldable pub record_iteration_outcome : Text → Ended → List (Slot S) → List (Slot S)
  unfolding alter
  record_iteration_outcome id e pool =
      alter id
        (λ slot. record slot { iteration_fail_streak = streak_after e slot.iteration_fail_streak })
        pool

module _ (st : SessionStore) (d : Directory st.State) (hash : Text → Text)
    (agent_exists : Option (Text → Bool)) (registers : Text → Bool) (continuation : Text) where
  abbrev pub Answer : Type 0
  Answer = Manager st.State × Receipt

  abbrev pub knows_agent : Option (Text → Bool) → Text → Bool
  knows_agent none name = true
  knows_agent (some f) name = f name

  -- The task or, behind a run that was cut off, the text that asks to go on.
  abbrev pub ask_text : ℕ → Text → Text
  ask_text zero task = task
  ask_text (suc n) task = continuation

  abbrev pub accept : Manager st.State → SubAgentRequest → Text → Slot st.State → Answer
  accept m req task_id slot = if not (registers task_id) then (m, register_failed) else (
    record m {
      task_infos =
          (
            task_id,
            record {
              session_id = id_of slot;
              agent_name = req.agent_name;
              title = snapshot_title req.task;
            },
          )
          ∷ m.task_infos;
    },
    accepted task_id (id_of slot) (ask_text slot.iteration_fail_streak req.task),
  )

  abbrev pub on_located : Manager st.State → SubAgentRequest → Text → Located st.State → Answer
  on_located m req task_id (load_failed e) = (m, load_refused e)
  on_located m req task_id create_failed = (m, create_refused)
  on_located m req task_id nil_store = (m, panicked)
  on_located m req task_id (located slot) =
      if leb subagent_iteration_fail_limit slot.iteration_fail_streak
      then (
        record m { pool = release_spawn (id_of slot) m.pool },
        cut_off slot.iteration_fail_streak,
      )
      else accept m req task_id slot

  -- The dispatch to the session of this identifier, or to any.
  abbrev pub dispatch_to :
      Manager st.State
      → Caller st.State
      → SubAgentRequest
      → Text
      → Text
      → Option st.State × Manager st.State × Receipt
  dispatch_to m caller req id task_id =
      let (store, pool, answer) =
        get_or_create st d req.agent_name caller.project_dir caller.agent_name caller.store id
          m.pool in
      let (m', receipt) = on_located (record m { pool = pool }) req task_id answer in
      (store, m', receipt)

  abbrev pub is_detour : Text → Text → Bool
  is_detour [] anchor = false
  is_detour (c ∷ id) anchor = not (text_eq (c ∷ id) anchor)

  -- A task that failed goes back to the session where it failed.
  abbrev pub anchored :
      Manager st.State
      → Caller st.State
      → SubAgentRequest
      → Text
      → Text
      → Option st.State × Manager st.State × Receipt
  anchored m caller req task_id [] = dispatch_to m caller req req.session_id task_id
  anchored m caller req task_id (c ∷ anchor) =
      if is_detour req.session_id (c ∷ anchor)
      then (caller.store, m, detour (c ∷ anchor))
      else dispatch_to m caller req (c ∷ anchor) task_id

  -- `Submit`: the store of the caller, the manager and the receipt.
  unfoldable pub submit :
      Manager st.State
      → Option (Caller st.State)
      → SubAgentRequest
      → Text
      → Option st.State × Manager st.State × Receipt
  unfolding lookup_failed_task_anchor get_or_create release_spawn snapshot_title
  submit m caller req task_id =
      if not (knows_agent agent_exists req.agent_name)
      then (elim caller [ none ↦ none | some c ↦ c.store ], m, unknown_agent)
      else elim caller [
        | none ↦ (none, m, no_session)
        | some c ↦ anchored m c req task_id (lookup_failed_task_anchor hash c.id req.task m.anchors)
      ]
