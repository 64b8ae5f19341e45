-- ===== src/Agents/Permission/Laws.antt =====
-- agents/permission.go: the user's answer to the main session's own request.
use goharness.Prelude.{
  ℕ, ◌≡◌, ◌⊎◌, inl, inr, ◌∙◌, refl, sym, ap, subst, Bool, true, false, [], ◌∷◌, ◌++◌, Option, none,
  some, Text, text_eq, text_eq_refl,
}
use goharness.Session.Store.{SessionStore}
use goharness.Session.State.{PendingPermission, Session}
use goharness.Session.Pending.{take_pending_permission}
use goharness.Session.Laws.Loading.{ensure_loaded-loaded}
use goharness.Tools.MagicWord.{Action, classify_magic_word}
use goharness.Agents.Permission.{Ask, Runtime, apply_permission_action}
use goharness.Agents.Permission.Resolve.{
  settle, resolve_own, resolve_any, resolve_action, resolve_word, resolve_permission_magic_word,
}
use goharness.Agents.Permission.Answered.{Reported, Speaks, apply-Reported}

take-SameHistory :
    (st : SessionStore) (s : Session st.State)
    → s.loaded ≡ true
    → ((take_pending_permission st s).0.messages ≡ s.messages)
      × ((take_pending_permission st s).0.loaded ≡ true)
unfolding take_pending_permission
take-SameHistory st s l = rw (ensure_loaded-loaded st s l) (refl, l)

module _ (st : SessionStore) (rt : Runtime st.State) where
  -- The answer was consumed here, and the call has its result or the run its error.
  abbrev pub Settled : Text → Ask st.State → Ask st.State × Bool × Bool → Type 0
  Settled id b r = (r.1 ≡ true) × (r.2 ≡ false) × Reported st id b r.0

  module _ (b : Ask st.State) (now : ℕ) (a : Action) (p : PendingPermission)
      (loaded : b.session.loaded ≡ true) (speaks : Speaks st rt p) where
    settle-Settled :
        (s : Session st.State)
        → s.messages ≡ b.session.messages
        → s.loaded ≡ true
        → Settled p.tool_call_id b (settle st rt b a now s p)
    settle-Settled s e l =
        (refl, refl, over (apply-Reported st rt (record b { session = s }) p a now l speaks))
      where
        over :
            Reported st p.tool_call_id
              (record b { session = s })
              (apply_permission_action st rt (record b { session = s }) p a now)
            → Reported st p.tool_call_id b
                (apply_permission_action st rt (record b { session = s }) p a now)
        over (inl k) = inl k
        over (inr (m, rest, g, tool, same)) =
            inr (m, rest, g ∙ ap (λ x. x ++ m ∷ rest) e, tool, same)

    own-Settled :
        (r : Session st.State × Option PendingPermission)
        → (r.0.messages ≡ b.session.messages) × (r.0.loaded ≡ true)
        → r.1 ≡ some p
        → Settled p.tool_call_id b (resolve_own st rt b a now r)
    own-Settled (s, none) k e = absurd (cc)
    own-Settled (s, some q) k e =
        subst (λ o. Settled p.tool_call_id b (resolve_own st rt b a now (s, o))) (sym e)
          (settle-Settled s k.0 k.1)

    any-Settled :
        (r : Session st.State × Option PendingPermission)
        → (r.0.messages ≡ b.session.messages) × (r.0.loaded ≡ true)
        → r.1 ≡ some p
        → Settled p.tool_call_id b (resolve_any st rt b a now r)
    any-Settled (s, none) k e = absurd (cc)
    any-Settled (s, some q) k e =
        subst (λ o. Settled p.tool_call_id b (resolve_any st rt b a now (s, o))) (sym e)
          (settle-Settled s k.0 k.1)

    action-Settled :
        (target : Text)
        → (take_pending_permission st b.session).1 ≡ some p
        → (target ≡ []) ⊎ (target ≡ b.session.id)
        → Settled p.tool_call_id b (resolve_action st rt b a target now)
    action-Settled [] e at =
        any-Settled (take_pending_permission st b.session) (take-SameHistory st b.session loaded) e
    action-Settled (c ∷ t) e (inl at) = absurd (cc)
    action-Settled (c ∷ t) e (inr at) =
        let same : text_eq (c ∷ t) b.session.id ≡ true =
          subst (λ x. text_eq (c ∷ t) x ≡ true) at (text_eq_refl (c ∷ t)) in
        rw same (
          own-Settled (take_pending_permission st b.session) (take-SameHistory st b.session loaded)
            e)

  -- When a call of the loaded session waits for permission and the user answers, naming this
  -- session or none, the answer is consumed here, and either the run has an error or the history
  -- grew by a result of that call; provided that the tool, whatever the session, leaves a text
  -- that is not only white space.
  pub resolve_permission_magic_word-Settled :
      (b : Ask st.State) (now : ℕ) (a : Action) (p : PendingPermission)
      → b.session.loaded ≡ true
      → (take_pending_permission st b.session).1 ≡ some p
      → (classify_magic_word b.question).action ≡ some a
      → ((classify_magic_word b.question).session_id ≡ [])
        ⊎ ((classify_magic_word b.question).session_id ≡ b.session.id)
      → Speaks st rt p
      → Settled p.tool_call_id b (resolve_permission_magic_word st rt b now)
  unfolding resolve_permission_magic_word
  resolve_permission_magic_word-Settled b now a p l e named at speaks =
      subst
        (λ o.
          Settled p.tool_call_id b
            (resolve_word st rt b now o (classify_magic_word b.question).session_id))
        (sym named)
        (action-Settled b now a p l speaks (classify_magic_word b.question).session_id e at)
