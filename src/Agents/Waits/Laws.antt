-- ===== src/Agents/Waits/Laws.antt =====
-- agents/subagent.go: a decision that names its session, on the table of waits.
use goharness.Prelude.{
  ℕ, ◌≡◌, ◌≢◌, ◌⊎◌, inl, inr, ◌∙◌, refl, sym, ap, subst, true, false, List, [], ◌∷◌, none, some,
  Text, text_eq, text_eq-eq, text_eq_refl, Bool-cases,
}
use goharness.Agents.Waits.{
  Channel, Waiter, change, register_wait, find_target, find_pending, safe_send, dispatch,
}

text_eq-other : (s t : Text) → s ≢ t → text_eq s t ≡ false
text_eq-other s t d = elim (Bool-cases (text_eq s t)) [
  | inl e ↦ absurd (d (text_eq-eq s t e))
  | inr e ↦ e
]

module _ {A : Type 0} where
  -- The session has a state in the map.
  abbrev pub Known : Text → List (Waiter A) → Type 0
  Known id [] = ⊥
  Known id (w ∷ ws) = (w.session_id ≡ id) ⊎ Known id ws

  -- A change at one session, seen through the lookup of it.
  find_target-change :
      (id : Text) (f : Waiter A → Waiter A) (ch : Channel A) (ws : List (Waiter A))
      → ((w : Waiter A) → (f w).session_id ≡ w.session_id)
      → ((w : Waiter A) → (f w).pending_ch ≡ some ch)
      → Known id ws
      → find_target id (change id f ws) ≡ some (id, ch)
  unfolding find_target change
  find_target-change id f ch [] keeps gives k = absurd k
  find_target-change id f ch (w ∷ ws) keeps gives k = elim (Bool-cases (text_eq w.session_id id)) [
    | inl e ↦ rw (e, change, keeps w, e, gives w) (ap (λ i. some (i, ch)) (text_eq-eq _ _ e))
    | inr e ↦ rw (e, change, e) (find_target-change id f ch ws keeps gives (further k e))
  ]
    where
      further : Known id (w ∷ ws) → text_eq w.session_id id ≡ false → Known id ws
      further (inl p) e =
          let q = subst (λ x. text_eq w.session_id x ≡ true) p (text_eq_refl w.session_id) in
          absurd (cc)
      further (inr p) e = p

  Known-change :
      (id : Text) (f : Waiter A → Waiter A) (ws : List (Waiter A))
      → ((w : Waiter A) → (f w).session_id ≡ w.session_id)
      → Known id ws
      → Known id (change id f ws)
  unfolding change
  Known-change id f [] keeps k = k
  Known-change id f (w ∷ ws) keeps k = elim (Bool-cases (text_eq w.session_id id)) [
    | inl e ↦ rw e (inl (keeps w ∙ text_eq-eq _ _ e))
    | inr e ↦ rw e (still k (Known-change id f ws keeps))
  ]
    where
      still :
          Known id (w ∷ ws)
          → (Known id ws → Known id (change id f ws))
          → Known id (w ∷ change id f ws)
      still (inl p) ih = inl p
      still (inr p) ih = inr (ih p)

  find_target-change_other :
      (id other : Text) (f : Waiter A → Waiter A) (ws : List (Waiter A))
      → ((w : Waiter A) → (f w).session_id ≡ w.session_id)
      → other ≢ id
      → find_target other (change id f ws) ≡ find_target other ws
  unfolding find_target change
  find_target-change_other id other f [] keeps d = refl
  find_target-change_other id other f (w ∷ ws) keeps d =
      elim (Bool-cases (text_eq w.session_id id)) [
        | inl e ↦
            rw (e, change, keeps w)
              (let n = text_eq-other w.session_id other (λ p. d (sym p ∙ text_eq-eq _ _ e)) in rw n)
        | inr e ↦ rw (e, change) (rw (find_target-change_other id other f ws keeps d))
      ]

  sent_open :
      (a : A) (ch : Channel A)
      → ch.closed ≡ false
      → ch.buffered ≡ none
      → safe_send a ch ≡ (record ch { buffered = some a }, true)
  unfolding safe_send
  sent_open a ch o e = rw (o, e)

  -- A decision that names a session whose wait was registered, with a channel that is open and
  -- empty, is delivered into the channel of that session, and nothing changes for the others.
  pub dispatch-arrives :
      (a : A) (c : ℕ) (target : Text) (ch : Channel A) (now : ℕ) (ws : List (Waiter A))
      → Known (c ∷ target) ws
      → ch.closed ≡ false
      → ch.buffered ≡ none
      → ((dispatch a (c ∷ target) (register_wait (c ∷ target) ch now ws)).1 ≡ true)
        × (find_target
              (c ∷ target)
              (dispatch a (c ∷ target) (register_wait (c ∷ target) ch now ws)).0
            ≡ some (c ∷ target, record ch { buffered = some a }))
        × ((other : Text)
            → other ≢ c ∷ target
            → find_target other (dispatch a (c ∷ target) (register_wait (c ∷ target) ch now ws)).0
              ≡ find_target other ws)
  unfolding dispatch register_wait find_pending
  dispatch-arrives a c target ch now ws k o e =
      let id = c ∷ target in
      let f : Waiter A → Waiter A = λ w. record w { pending_ch = some ch; pending_at = now } in
      let g : Waiter A → Waiter A =
        λ w. record w { pending_ch = some (record ch { buffered = some a }) } in
      rw (find_target-change id f ch ws (λ w. refl) (λ w. refl) k, sent_open a ch o e)
        (
          refl,
          find_target-change id g (record ch { buffered = some a }) (change id f ws) (λ w. refl)
              (λ w. refl) (Known-change id f ws (λ w. refl) k),
          λ other d.
              find_target-change_other id other g (change id f ws) (λ w. refl) d
              ∙ find_target-change_other id other f ws (λ w. refl) d,
        )
