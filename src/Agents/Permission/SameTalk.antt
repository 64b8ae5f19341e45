-- ===== src/Agents/Permission/SameTalk.antt =====
-- agents/permission.go: the conversation while a grant for the session is remembered.
use goharness.Prelude.{◌≡◌, ◌∙◌, refl, List, [], ◌∷◌, Text, codes, arith}
use goharness.Session.Store.{SessionStore}
use goharness.Session.State.{PendingPermission, Session}
use goharness.Session.Whitelist.{add_to_whitelist}
use goharness.Agents.Permission.{Ask, Runtime, remember, remember_hosts, remember_session}
use goharness.Agents.Permission.Entry.{build_whitelist_entry, build_whitelist_network_hosts}

-- What an operation leaves alone: the history and the state of the pending request.
pub record SameTalk {S : Type 0} (s t : Session S) : Type 0 where
  pub messages : t.messages ≡ s.messages
  pub loaded : t.loaded ≡ s.loaded
  pub pending : t.pending_permission ≡ s.pending_permission

SameTalk-trans : {S : Type 0} {s t u : Session S} → SameTalk s t → SameTalk t u → SameTalk s u
SameTalk-trans one more = record {
  messages = more.messages ∙ one.messages;
  loaded = more.loaded ∙ one.loaded;
  pending = more.pending ∙ one.pending;
}

add_to_whitelist-SameTalk :
    {S : Type 0} (s : Session S) (name entry : Text) → SameTalk s (add_to_whitelist s name entry).0
unfolding add_to_whitelist
add_to_whitelist-SameTalk s name entry = ground arith

module _ (st : SessionStore) (rt : Runtime st.State) where
  remember_hosts-SameTalk :
      (hs : List Text) (b : Ask st.State) → SameTalk b.session (remember_hosts st rt hs b).session
  unfolding remember_hosts
  remember_hosts-SameTalk [] b = record { messages = refl; loaded = refl; pending = refl }
  remember_hosts-SameTalk (h ∷ hs) b =
      let s = (add_to_whitelist b.session (codes "network") h).0 in
      let one = add_to_whitelist-SameTalk b.session (codes "network") h in
      let more = remember_hosts-SameTalk hs (record b { session = s }) in SameTalk-trans one more

  remember-SameTalk :
      (name entry : Text) (b : Ask st.State)
      → SameTalk b.session (remember st rt name entry b).session
  remember-SameTalk name [] b = record { messages = refl; loaded = refl; pending = refl }
  remember-SameTalk name (c ∷ entry) b = add_to_whitelist-SameTalk b.session name (c ∷ entry)

  pub remember_session-SameTalk :
      (p : PendingPermission) (b : Ask st.State)
      → SameTalk b.session (remember_session st rt p b).session
  unfolding remember_session
  remember_session-SameTalk p b =
      let entry = build_whitelist_entry rt.place b.session.project_dir rt.session_dir p in
      let one = remember-SameTalk p.tool_name entry b in
      let more =
        remember_hosts-SameTalk (build_whitelist_network_hosts rt.net rt.sandbox p)
          (remember st rt p.tool_name entry b) in
      SameTalk-trans one more
