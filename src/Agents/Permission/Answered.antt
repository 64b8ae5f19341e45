-- ===== src/Agents/Permission/Answered.antt =====
-- agents/permission.go: the conversation behind the user's answer.
use goharness.Prelude.{
  ℕ, ◌≡◌, ◌⊎◌, inl, inr, ◌∙◌, refl, ap, subst, Bool, true, false, List, [], ◌∷◌, ◌++◌, append_assoc,
  Option, none, some, is_some, is_blank, keep, Text, arith,
}
use goharness.Session.Message.{Message, ImageBlock, is_tool}
use goharness.Session.Store.{SessionStore}
use goharness.Session.State.{PendingPermission, Session, ensure_loaded}
use goharness.Session.Error.{Error}
use goharness.Session.Append.{is_kept, append, append_filtered}
use goharness.Session.Laws.Loading.{ensure_loaded-loaded}
use goharness.Session.Laws.Append.{Appends, append-Appends}
use goharness.Tools.MagicWord.{Action, permission_allow, permission_allow_session, permission_deny}
use goharness.Agents.ToolRun.{ToolResult, run_tool, format_tool_result}
use goharness.Agents.Permission.{
  Ask, Runtime, emit, exec_start, appended, append_denied_result, append_images, append_content,
  reported, execute_pending_and_append, remember_session, apply_permission_action, tool_message,
  image_message, denied_content,
}
use goharness.Agents.Permission.SameTalk.{remember_session-SameTalk}

append-pending :
    (st : SessionStore) (s : Session st.State) (ms : List Message)
    → s.loaded ≡ true
    → (append st s ms).0.pending_permission ≡ s.pending_permission
unfolding append
append-pending st s ms h = rw (ensure_loaded-loaded st s h) (filtered (keep is_kept ms))
  where
    filtered :
        (ks : List Message) → (append_filtered st s ks).0.pending_permission ≡ s.pending_permission
    filtered [] = refl
    filtered (k ∷ ks) = ground arith

keep-tool_message :
    (content id : Text) (now : ℕ)
    → is_blank content ≡ false
    → keep is_kept (tool_message content id now ∷ []) ≡ tool_message content id now ∷ []
unfolding is_kept
keep-tool_message content id now h = rw h

is_blank-denied_content : (p : PendingPermission) → is_blank (denied_content p) ≡ false
unfolding denied_content is_blank
is_blank-denied_content p = refl

module _ (st : SessionStore) where
  -- The history grew by a result of the call, with other messages behind it perhaps.
  abbrev pub AnsweredIn : Text → Session st.State → Session st.State → Type 0
  AnsweredIn id s t =
      (m : Message) × (rest : List Message) × (t.messages ≡ s.messages ++ m ∷ rest)
      × (is_tool m ≡ true)
      × (m.tool_call_id ≡ id)

  abbrev pub Reported : Text → Ask st.State → Ask st.State → Type 0
  Reported id b c = (is_some c.result_err ≡ true) ⊎ AnsweredIn id b.session c.session

  -- One message that Append keeps.
  Appended-one :
      (f : Bool) (b : Ask st.State) (content id : Text) (now : ℕ)
      (r : Session st.State × Option Error)
      → Appends st b.session (tool_message content id now ∷ []) r
      → Reported id b (appended st f b r)
  Appended-one f b content id now (s, none) g =
      inr (tool_message content id now, [], g.messages_after, refl, refl)
  Appended-one f b content id now (s, some e) g = inl refl

  Appends-loaded :
      (b : Ask st.State) (content id : Text) (now : ℕ)
      → b.session.loaded ≡ true
      → is_blank content ≡ false
      → Appends st b.session
          (tool_message content id now ∷ [])
          (append st b.session (tool_message content id now ∷ []))
  Appends-loaded b content id now l h =
      subst
        (λ s.
          Appends st s (tool_message content id now ∷ [])
            (append st b.session (tool_message content id now ∷ [])))
        (ensure_loaded-loaded st b.session l)
        (subst
          (λ ms.
            Appends st (ensure_loaded st b.session) ms
              (append st b.session (tool_message content id now ∷ [])))
          (keep-tool_message content id now h)
          (append-Appends st b.session (tool_message content id now ∷ [])))

  denied-Reported :
      (b : Ask st.State) (p : PendingPermission) (now : ℕ)
      → b.session.loaded ≡ true
      → Reported p.tool_call_id b (append_denied_result st b p now)
  unfolding append_denied_result
  denied-Reported b p now l =
      Appended-one false b (denied_content p) p.tool_call_id now
        (append st b.session (tool_message (denied_content p) p.tool_call_id now ∷ []))
        (Appends-loaded b (denied_content p) p.tool_call_id now l (is_blank-denied_content p))

  loaded-append :
      (s : Session st.State) (ms : List Message)
      → s.loaded ≡ true
      → (append st s ms).0.loaded ≡ true
  loaded-append s ms l = from (append st s ms) (append-Appends st s ms)
    where
      here : (ensure_loaded st s).loaded ≡ true
      here = rw (ensure_loaded-loaded st s l) l

      from :
          (r : Session st.State × Option Error)
          → Appends st (ensure_loaded st s) (keep is_kept ms) r
          → r.0.loaded ≡ true
      from (t, none) g = g.loaded_after ∙ here
      from (t, some e) g = g.0.loaded_after ∙ here

  -- The images behind a result take nothing away.
  images-Reported :
      (b c : Ask st.State) (id name : Text) (is : List ImageBlock) (now : ℕ)
      → c.session.loaded ≡ true
      → Reported id b c
      → Reported id b (append_images st c name is now)
  images-Reported b c id name [] now l r = r
  images-Reported b c id name (i ∷ is) now l r =
      let ms = image_message name (i ∷ is) now ∷ [] in
      from (append st c.session ms) (keep is_kept ms) (append-Appends st c.session ms) r
    where
      from :
          (q : Session st.State × Option Error) (added : List Message)
          → Appends st (ensure_loaded st c.session) added q
          → Reported id b c
          → Reported id b (appended st true c q)
      from (t, some e) added g r = inl refl
      from (t, none) added g (inl h) = inl h
      from (t, none) added g (inr (m, rest, e, tool, same)) = inr (
        m,
        rest ++ added,
        g.messages_after
            ∙ ap (λ (s : Session st.State). s.messages ++ added)
                (ensure_loaded-loaded st c.session l)
            ∙ ap (λ x. x ++ added) e
            ∙ append_assoc b.session.messages (m ∷ rest) added,
        tool,
        same,
      )

  module _ (rt : Runtime st.State) where
    -- The text that the tool leaves is not blank, whatever the session is: Append drops blank ones.
    abbrev pub Speaks : PendingPermission → Type 0
    Speaks p =
        (s : Session st.State)
        → is_blank (
            format_tool_result
              (run_tool rt.tool_hooks (rt.execute s) s.id p.tool_name p.arguments p.tool_call_id).0)
          ≡ false

    content-Reported :
        (b d : Ask st.State) (p : PendingPermission) (content : Text) (now : ℕ)
        → d.session ≡ b.session
        → b.session.loaded ≡ true
        → is_blank content ≡ false
        → (Reported p.tool_call_id b (append_content st d p content now))
          × ((append_content st d p content now).session.loaded ≡ true)
    content-Reported b d p content now e l h =
        let ms = tool_message content p.tool_call_id now ∷ [] in
        let ld : d.session.loaded ≡ true = ap (λ (s : Session st.State). s.loaded) e ∙ l in
        (
          subst
              (λ (s : Session st.State).
                (is_some (append_content st d p content now).result_err ≡ true)
                ⊎ AnsweredIn p.tool_call_id s (append_content st d p content now).session)
              e
              (Appended-one true d content p.tool_call_id now (append st d.session ms)
                (Appends-loaded d content p.tool_call_id now ld h)),
          still (append st d.session ms) (loaded-append d.session ms ld),
        )
      where
        still :
            (q : Session st.State × Option Error)
            → q.0.loaded ≡ true
            → (appended st true d q).session.loaded ≡ true
        still (t, none) h = h
        still (t, some e) h = h

    session-reported :
        (b : Ask st.State) (p : PendingPermission) (tr : ToolResult) (k : Bool)
        → (reported st b p tr k).session ≡ b.session
    session-reported b p tr true = refl
    session-reported b p tr false = refl

    execute-Reported :
        (b : Ask st.State) (p : PendingPermission) (now : ℕ)
        → b.session.loaded ≡ true
        → Speaks p
        → Reported p.tool_call_id b (execute_pending_and_append st rt b p now)
    unfolding execute_pending_and_append
    execute-Reported b p now l speaks =
        let out =
          run_tool rt.tool_hooks (rt.execute b.session) b.session.id p.tool_name p.arguments
            p.tool_call_id in
        let d = reported st (emit (exec_start p.tool_name p.arguments) b) p out.0 out.1 in
        let content = format_tool_result out.0 in
        let said =
          content-Reported b d p content now
            (session-reported (emit (exec_start p.tool_name p.arguments) b) p out.0 out.1) l
            (speaks b.session) in
        images-Reported b (append_content st d p content now) p.tool_call_id p.tool_name
          out.0.image_blocks now said.1 said.0

    pub apply-Reported :
        (b : Ask st.State) (p : PendingPermission) (a : Action) (now : ℕ)
        → b.session.loaded ≡ true
        → Speaks p
        → Reported p.tool_call_id b (apply_permission_action st rt b p a now)
    unfolding apply_permission_action
    apply-Reported b p permission_allow now l h = execute-Reported b p now l h
    apply-Reported b p permission_allow_session now l h =
        let c = remember_session st rt p b in
        let same = remember_session-SameTalk st rt p b in
        over same.messages (execute-Reported c p now (same.loaded ∙ l) h)
      where
        over :
            (remember_session st rt p b).session.messages ≡ b.session.messages
            → Reported p.tool_call_id
                (remember_session st rt p b)
                (execute_pending_and_append st rt (remember_session st rt p b) p now)
            → Reported p.tool_call_id b
                (execute_pending_and_append st rt (remember_session st rt p b) p now)
        over e (inl k) = inl k
        over e (inr (m, rest, g, tool, same)) =
            inr (m, rest, g ∙ ap (λ x. x ++ m ∷ rest) e, tool, same)
    apply-Reported b p permission_deny now l h = denied-Reported b p now l
