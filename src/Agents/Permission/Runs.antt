-- ===== src/Agents/Permission/Runs.antt =====
-- agents/permission.go: the tools that run while an answer of the user is read.
use goharness.Prelude.{
  ℕ, ◌≡◌, ◌≢◌, ◌⊎◌, inl, inr, ◌∙◌, refl, ap, Bool, true, false, List, [], ◌∷◌, ◌++◌, append-nil,
  Option, none, some, Text,
}
use goharness.Session.Message.{ImageBlock}
use goharness.Session.Store.{SessionStore}
use goharness.Session.State.{PendingPermission, Session}
use goharness.Session.Error.{Error}
use goharness.Session.Pending.{take_pending_permission}
use goharness.Tools.Params.{Params}
use goharness.Tools.MagicWord.{
  Action, permission_allow, permission_allow_session, permission_deny, classify_magic_word,
}
use goharness.Agents.ToolRun.{ToolResult, run_tool, format_tool_result}
use goharness.Agents.Permission.{
  Event, exec_start, ran, exec_end, permission_pending, append_failed, Ask, Runtime, emit, appended,
  append_denied_result, append_images, append_content, reported, append_result, tool_message,
  execute_pending_and_append, remember, remember_hosts, remember_session, apply_permission_action,
}
use goharness.Session.Append.{append}
use goharness.Agents.Permission.Entry.{build_whitelist_entry, build_whitelist_network_hosts}

-- The calls that reached a tool.
abbrev pub runs : List Event → List (Text × Params)
runs [] = []
runs (ran name args ∷ es) = (name, args) ∷ runs es
runs (exec_start name args ∷ es) = runs es
runs (exec_end name id ok content ∷ es) = runs es
runs (permission_pending id name args reason level ∷ es) = runs es
runs (append_failed ∷ es) = runs es

runs-append : (es fs : List Event) → runs (es ++ fs) ≡ runs es ++ runs fs
runs-append [] fs = refl
runs-append (ran name args ∷ es) fs = ap (◌∷◌ (name, args)) (runs-append es fs)
runs-append (exec_start name args ∷ es) fs = runs-append es fs
runs-append (exec_end name id ok content ∷ es) fs = runs-append es fs
runs-append (permission_pending id name args reason level ∷ es) fs = runs-append es fs
runs-append (append_failed ∷ es) fs = runs-append es fs

-- An event that is no run.
runs-silent : (es : List Event) (e : Event) → runs (e ∷ []) ≡ [] → runs (es ++ e ∷ []) ≡ runs es
runs-silent es e h = runs-append es (e ∷ []) ∙ ap (λ x. runs es ++ x) h ∙ append-nil (runs es)

module _ (st : SessionStore) where
  runs-appended :
      (f : Bool) (b : Ask st.State) (r : Session st.State × Option Error)
      → runs (appended st f b r).events ≡ runs b.events
  runs-appended f b (s, none) = refl
  runs-appended true b (s, some e) = runs-silent b.events append_failed refl
  runs-appended false b (s, some e) = refl

  runs-append_denied_result :
      (b : Ask st.State) (p : PendingPermission) (now : ℕ)
      → runs (append_denied_result st b p now).events ≡ runs b.events
  unfolding append_denied_result
  runs-append_denied_result b p now = runs-appended false b _

  runs-append_images :
      (b : Ask st.State) (name : Text) (is : List ImageBlock) (now : ℕ)
      → runs (append_images st b name is now).events ≡ runs b.events
  runs-append_images b name [] now = refl
  runs-append_images b name (i ∷ is) now = runs-appended true b _

  -- At most the pending call itself ran.
  abbrev pub RanAtMost : PendingPermission → Ask st.State → Ask st.State → Type 0
  RanAtMost p b c =
      (runs c.events ≡ runs b.events)
      ⊎ (runs c.events ≡ runs b.events ++ (p.tool_name, p.arguments) ∷ [])

  runs-append_content :
      (b : Ask st.State) (p : PendingPermission) (content : Text) (now : ℕ)
      → runs (append_content st b p content now).events ≡ runs b.events
  runs-append_content b p content now =
      runs-appended true b (append st b.session (tool_message content p.tool_call_id now ∷ []))

  -- The events that a run reports.
  run_events : PendingPermission → ToolResult → Event
  run_events p tr = exec_end p.tool_name p.tool_call_id tr.success (format_tool_result tr)

  runs-append_result :
      (b : Ask st.State) (p : PendingPermission) (now : ℕ) (tr : ToolResult) (has_run : Bool)
      → RanAtMost p b (append_result st b p now (tr, has_run))
  unfolding run_events
  runs-append_result b p now tr has_run = settle_runs has_run (
      runs-append_images
        (append_content st (reported st b p tr has_run) p (format_tool_result tr) now) p.tool_name
        tr.image_blocks now
      ∙ runs-append_content (reported st b p tr has_run) p (format_tool_result tr) now)
    where
      settle_runs :
          (k : Bool)
          → runs (append_result st b p now (tr, k)).events ≡ runs (reported st b p tr k).events
          → RanAtMost p b (append_result st b p now (tr, k))
      settle_runs true e = inr (
          e
          ∙ runs-silent (b.events ++ ran p.tool_name p.arguments ∷ []) (run_events p tr) refl
          ∙ runs-append b.events (ran p.tool_name p.arguments ∷ []))
      settle_runs false e = inl (e ∙ runs-silent b.events (run_events p tr) refl)

  module _ (rt : Runtime st.State) where
    execute-RanAtMost :
        (b : Ask st.State) (p : PendingPermission) (now : ℕ)
        → RanAtMost p b (execute_pending_and_append st rt b p now)
    unfolding execute_pending_and_append
    execute-RanAtMost b p now =
        let start = exec_start p.tool_name p.arguments in
        let quiet = runs-silent b.events start refl in
        let out =
          run_tool rt.tool_hooks (rt.execute b.session) b.session.id p.tool_name p.arguments
            p.tool_call_id in
        elim (runs-append_result (emit start b) p now out.0 out.1) [
          | inl e ↦ inl (e ∙ quiet)
          | inr e ↦ inr (e ∙ ap (λ x. x ++ (p.tool_name, p.arguments) ∷ []) quiet)
        ]

    events-remember_hosts :
        (hs : List Text) (b : Ask st.State) → (remember_hosts st rt hs b).events ≡ b.events
    unfolding remember_hosts
    events-remember_hosts [] b = refl
    events-remember_hosts (h ∷ hs) b = events-remember_hosts hs _

    events-remember :
        (name entry : Text) (b : Ask st.State) → (remember st rt name entry b).events ≡ b.events
    events-remember name [] b = refl
    events-remember name (c ∷ entry) b = refl

    pub events-remember_session :
        (p : PendingPermission) (b : Ask st.State) → (remember_session st rt p b).events ≡ b.events
    unfolding remember_session
    events-remember_session p b =
        let entry = build_whitelist_entry rt.place b.session.project_dir rt.session_dir p in
        events-remember_hosts (build_whitelist_network_hosts rt.net rt.sandbox p)
          (remember st rt p.tool_name entry b)
        ∙ events-remember p.tool_name entry b

    pub apply-RanAtMost :
        (b : Ask st.State) (p : PendingPermission) (a : Action) (now : ℕ)
        → (runs (apply_permission_action st rt b p a now).events ≡ runs b.events)
          ⊎ ((a ≢ permission_deny)
              × (runs (apply_permission_action st rt b p a now).events
                  ≡ runs b.events ++ (p.tool_name, p.arguments) ∷ []))
    unfolding apply_permission_action
    apply-RanAtMost b p permission_allow now = elim (execute-RanAtMost b p now) [
      | inl e ↦ inl e
      | inr e ↦ inr (λ h. cc, e)
    ]
    apply-RanAtMost b p permission_allow_session now =
        let quiet = ap runs (events-remember_session p b) in
        elim (execute-RanAtMost (remember_session st rt p b) p now) [
          | inl e ↦ inl (e ∙ quiet)
          | inr e ↦ inr (λ h. cc, e ∙ ap (λ x. x ++ (p.tool_name, p.arguments) ∷ []) quiet)
        ]
    apply-RanAtMost b p permission_deny now = inl (runs-append_denied_result b p now)

    -- The one call that an answer may set going: the pending one, allowed by an answer that names
    -- this session or none.
    abbrev pub Allowed : Ask st.State → Ask st.State → Type 0
    Allowed b c =
        (p : PendingPermission) × (a : Action) × ((take_pending_permission st b.session).1 ≡ some p)
        × ((classify_magic_word b.question).action ≡ some a)
        × (a ≢ permission_deny)
        × (((classify_magic_word b.question).session_id ≡ [])
            ⊎ ((classify_magic_word b.question).session_id ≡ b.session.id))
        × (runs c.events ≡ runs b.events ++ (p.tool_name, p.arguments) ∷ [])

    abbrev Outcome : Ask st.State → Ask st.State → Type 0
    Outcome b c = (runs c.events ≡ runs b.events) ⊎ Allowed b c
