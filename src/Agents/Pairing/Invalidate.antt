-- ===== src/Agents/Pairing/Invalidate.antt =====
-- invalidatePendingsAfterRepair: which pending permission and question outlive a repair.
use goharness.Prelude.{
  ◌≡◌, refl, sym, ◌∙◌, ap, subst, Bool, true, false, ◌||◌, List, [], Option, none, some, Text,
  text_eq, contains, Bool-cases, inl, inr,
}
use goharness.Session.Store.{SessionStore}
use goharness.Session.State.{Session, PendingPermission, PendingAskUser}
use goharness.Session.Pending.{
  peek_pending_permission, take_pending_permission, take_pending_ask_user, set_pending_ask_user,
}
use goharness.Session.Laws.Loading.{ensure_loaded-loaded}
use goharness.Agents.Pairing.{
  revoke_removed, put_back, invalidate_permission, invalidate_ask, invalidate_pendings_after_repair,
}

-- Before, after, and whether the denial is announced: a permission goes exactly if its call was
-- rolled back.
pub data PermissionOutlives (removed : List Text)
    : Option PendingPermission → Option PendingPermission → Bool → Type 0 where
  no_permission : PermissionOutlives removed none none false
  revoked :
      {p : PendingPermission}
      → contains removed p.tool_call_id ≡ true
      → PermissionOutlives removed (some p) none true
  permission_kept :
      {p : PendingPermission}
      → contains removed p.tool_call_id ≡ false
      → PermissionOutlives removed (some p) (some p) false

-- A question goes exactly if its call was rolled back or is not known.
pub data AskOutlives (removed : List Text)
    : Option PendingAskUser → Option PendingAskUser → Type 0 where
  no_ask : AskOutlives removed none none
  dropped :
      {p : PendingAskUser}
      → (contains removed p.tool_call_id || text_eq p.tool_call_id []) ≡ true
      → AskOutlives removed (some p) none
  ask_kept :
      {p : PendingAskUser}
      → (contains removed p.tool_call_id || text_eq p.tool_call_id []) ≡ false
      → AskOutlives removed (some p) (some p)

-- The parts of a session that the two halves work on.
record Parts {S : Type 0} (s : Session S) (p : Option PendingPermission) (q : Option PendingAskUser)
    : Type 0 where
  permission : s.pending_permission ≡ p
  question : s.pending_ask_user ≡ q
  is_loaded : s.loaded ≡ true

module _ (st : SessionStore) (removed : List Text) where
  peek-loaded :
      (s : Session st.State)
      → s.loaded ≡ true
      → peek_pending_permission st s ≡ (s, s.pending_permission)
  unfolding peek_pending_permission
  peek-loaded s l = ap (λ t. (t, t.pending_permission)) (ensure_loaded-loaded st s l)

  take-Parts :
      (s : Session st.State)
      → s.loaded ≡ true
      → Parts (take_pending_permission st s).0 none s.pending_ask_user
  unfolding take_pending_permission
  take-Parts s l =
      rw (ensure_loaded-loaded st s l)
        (record { permission = refl; question = refl; is_loaded = l })

  revoke-Parts :
      (s : Session st.State) (o : Option PendingPermission)
      → s.pending_permission ≡ o
      → s.loaded ≡ true
      → (o' : Option PendingPermission) × Parts
          (revoke_removed st removed s o).0
          o'
          s.pending_ask_user
        × PermissionOutlives removed o o' (revoke_removed st removed s o).1
  revoke-Parts s none e l =
      (none, record { permission = e; question = refl; is_loaded = l }, no_permission)
  revoke-Parts s (some p) e l = elim (Bool-cases (contains removed p.tool_call_id)) [
    | inl c ↦ (none, rw c (take-Parts s l), rw c (revoked c))
    | inr c ↦ (
      some p,
      rw c (record { permission = e; question = refl; is_loaded = l }),
      rw c (permission_kept c),
    )
  ]

  take_ask-Parts :
      (s : Session st.State)
      → s.loaded ≡ true
      → Parts (take_pending_ask_user st s).0 s.pending_permission none
        × ((take_pending_ask_user st s).1 ≡ s.pending_ask_user)
  unfolding take_pending_ask_user
  take_ask-Parts s l =
      rw (ensure_loaded-loaded st s l)
        (record { permission = refl; question = refl; is_loaded = l }, refl)

  set_ask-Parts :
      (s : Session st.State) (p : PendingAskUser)
      → s.loaded ≡ true
      → Parts (set_pending_ask_user st s p) s.pending_permission (some p)
  unfolding set_pending_ask_user
  set_ask-Parts s p l =
      rw (ensure_loaded-loaded st s l)
        (record { permission = refl; question = refl; is_loaded = l })

  put_back-Parts :
      (s : Session st.State) (pp : Option PendingPermission) (o : Option PendingAskUser)
      → Parts s pp none
      → (o' : Option PendingAskUser) × Parts (put_back st removed s o) pp o'
        × AskOutlives removed o o'
  put_back-Parts s pp none v = (none, v, no_ask)
  put_back-Parts s pp (some p) v =
      elim (Bool-cases (contains removed p.tool_call_id || text_eq p.tool_call_id [])) [
        | inl c ↦ (none, rw c v, dropped c)
        | inr c ↦ (
          some p,
          rw c (
              subst (λ x. Parts (set_pending_ask_user st s p) x (some p)) v.permission
                (set_ask-Parts s p v.is_loaded)),
          ask_kept c,
        )
      ]

  permission-halves :
      (s : Session st.State)
      → s.loaded ≡ true
      → (o' : Option PendingPermission) × Parts
          (invalidate_permission st s removed).0
          o'
          s.pending_ask_user
        × PermissionOutlives removed s.pending_permission o' (invalidate_permission st s removed).1
  unfolding invalidate_permission
  permission-halves s l =
      subst
        (λ r.
          (o' : Option PendingPermission) × Parts (revoke_removed st removed r.0 r.1).0 o'
            s.pending_ask_user
          × PermissionOutlives removed s.pending_permission o'
              (revoke_removed st removed r.0 r.1).1)
        (sym (peek-loaded s l)) (revoke-Parts s s.pending_permission refl l)

  ask-halves :
      (s : Session st.State) (pp : Option PendingPermission) (q : Option PendingAskUser)
      → Parts s pp q
      → (o' : Option PendingAskUser) × Parts (invalidate_ask st s removed) pp o'
        × AskOutlives removed q o'
  unfolding invalidate_ask
  ask-halves s pp q v =
      let (t, e) = take_ask-Parts s v.is_loaded in
      let u = subst (λ x. Parts (take_pending_ask_user st s).0 x none) v.permission t in
      let (o', w, k) =
        put_back-Parts (take_pending_ask_user st s).0 pp (take_pending_ask_user st s).1 u in
      (o', w, subst (λ x. AskOutlives removed x o') (e ∙ v.question) k)

  -- After a repair of a loaded session the pending permission is revoked, and its denial
  -- announced, exactly when its tool call was rolled back; the pending question is dropped
  -- exactly when its tool call was rolled back or is empty; what is not revoked or dropped stays
  -- as it was.
  pub invalidate_pendings_after_repair-Outlives :
      (s : Session st.State)
      → s.loaded ≡ true
      → PermissionOutlives removed s.pending_permission
          (invalidate_pendings_after_repair st s removed).0.pending_permission
          (invalidate_pendings_after_repair st s removed).1
        × AskOutlives removed s.pending_ask_user
            (invalidate_pendings_after_repair st s removed).0.pending_ask_user
  unfolding invalidate_pendings_after_repair
  invalidate_pendings_after_repair-Outlives s l =
      let (o, v, k) = permission-halves s l in
      let (q, w, m) = ask-halves (invalidate_permission st s removed).0 o s.pending_ask_user v in
      (
        subst
            (λ x.
              PermissionOutlives removed s.pending_permission x
                (invalidate_permission st s removed).1)
            (sym w.permission) k,
        subst (AskOutlives removed s.pending_ask_user) (sym w.question) m,
      )
