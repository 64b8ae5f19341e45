-- ===== src/Agents/Permission/Asks.antt =====
-- agents/permission.go: what is asked, what a grant for the session remembers, and blank results.
use goharness.Prelude.{◌≡◌, ◌⊎◌, refl, Bool, List, [], ◌∷◌, ◌++◌, Option, none, some, Text, codes}
use goharness.Session.Store.{SessionStore}
use goharness.Session.State.{PendingPermission, Session, ensure_loaded}
use goharness.Sandbox.Policy.{SandboxPolicy}
use goharness.Agents.Permission.{
  permission_pending, Granted, unrestricted, granted, refused, ToolCallInvocation, Ask, Runtime,
  remember_session,
}
use goharness.Agents.Permission.Entry.{build_whitelist_entry, build_whitelist_network_hosts}
use goharness.Agents.Permission.Request.{pending_for, asker}

module _ (st : SessionStore) (rt : Runtime st.State) where
  abbrev pub IsFree : Granted → Type 0
  IsFree unrestricted = Unit
  IsFree granted = Unit
  IsFree (refused reason level) = ⊥

  -- Every call of the round may run.
  abbrev pub AllFree : Session st.State → List ToolCallInvocation → Type 0
  AllFree s [] = Unit
  AllFree s (inv ∷ invs) = IsFree (rt.grant s inv.name inv.arguments) × AllFree s invs

  -- The request is for the first call that is refused.
  abbrev pub ForFirst : Session st.State → List ToolCallInvocation → PendingPermission → Type 0
  ForFirst s [] p = ⊥
  ForFirst s (inv ∷ invs) p =
      ((reason : Text) × (level : Text) × (rt.grant s inv.name inv.arguments ≡ refused reason level)
        × (p ≡ pending_for st rt inv reason level))
      ⊎ (IsFree (rt.grant s inv.name inv.arguments) × ForFirst s invs p)

  abbrev pub Checks :
      Bool
      → Ask st.State
      → List ToolCallInvocation
      → Ask st.State × Option PendingPermission
      → Type 0
  Checks is_sub b invs (c, none) = AllFree b.session invs × (c ≡ b)
  Checks is_sub b invs (c, some p) =
      ForFirst b.session invs p
      × (c.session.pending_permission ≡ some p)
      × (c.session.messages ≡ (ensure_loaded st b.session).messages)
      × (c.events
          ≡ b.events
            ++ permission_pending (asker st rt is_sub (ensure_loaded st b.session).id) p.tool_name
                p.arguments p.reason p.security_level
              ∷ [])

  forgotten_entry :
      (p : PendingPermission) (project session : Text)
      → (build_whitelist_entry rt.place project session (record p { tool_name = codes "RunScript" })
          ≡ [])
        × (build_whitelist_entry rt.place project session
              (record p { tool_name = codes "WebFetch" })
            ≡ [])
  unfolding build_whitelist_entry
  forgotten_entry p project session = (refl, refl)

  -- With such a name the session's own whitelist entry is empty, and no URL is looked at.
  forgotten_hosts :
      (p : PendingPermission) (o : Option SandboxPolicy)
      → (build_whitelist_network_hosts rt.net o (record p { tool_name = codes "RunScript" }) ≡ [])
        × (build_whitelist_network_hosts rt.net o (record p { tool_name = codes "WebFetch" }) ≡ [])
  unfolding build_whitelist_network_hosts
  forgotten_hosts p none = (refl, refl)
  forgotten_hosts p (some policy) = (refl, refl)

  -- A grant for the session of the tools RunScript and WebFetch adds nothing to the whitelist of
  -- the session.
  pub remember_session-forgets :
      (p : PendingPermission) (b : Ask st.State)
      → (remember_session st rt (record p { tool_name = codes "RunScript" }) b ≡ b)
        × (remember_session st rt (record p { tool_name = codes "WebFetch" }) b ≡ b)
  unfolding remember_session
  remember_session-forgets p b =
      let e = forgotten_entry p b.session.project_dir rt.session_dir in
      let h = forgotten_hosts p rt.sandbox in (rw (e.0, h.0), rw (e.1, h.1))
