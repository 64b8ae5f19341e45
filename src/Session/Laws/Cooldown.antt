-- ===== src/Session/Laws/Cooldown.antt =====
-- When TryCompact leaves a session alone: below the threshold, and in the cooldown of a failure
-- (session/compaction.go).
use goharness.Prelude.{
  ℕ, ◌+◌, ◌*◌, ◌/◌, ◌≤◌, ◌<◌, ◌≡◌, ◌≢◌, refl, sym, ◌∙◌, Bool, true, false, [], Text, length,
  if◌then◌else◌, inl, inr, ◌⊎◌, Bool-cases, List-cases, arith,
}
use goharness.Session.Store.{SessionStore}
use goharness.Session.State.{Session, window}
use goharness.Session.Compaction.{
  Hooks, SessionState, compaction_cooldown, needs_compaction, estimate_window_tokens, capture_state,
  do_compact, cooling_down, try_compact,
}
use goharness.Session.Laws.Compaction.{Compacts, do_compact-Compacts}

if_idle {ℓ} :
    {A : Type ℓ} (a b : Bool) (x y : A) → b ≡ false → (if a then x else if b then y else x) ≡ x
if_idle true b x y h = refl
if_idle false b x y h = rw h refl

module _ (st : SessionStore) (estimate_tokens : Text → ℕ) where
  needs_compaction-true :
      (t : SessionState)
      → needs_compaction t ≡ true
      → (t.active_messages ≢ []) × (t.max_window_size * 4 / 5 < t.window_tokens)
  unfolding needs_compaction
  needs_compaction-true t h = elim (List-cases t.active_messages) [
    | inl e ↦ absurd (ground arith)
    | inr (m, ms, e) ↦ (λ k. cc (sym e ∙ k), ground arith)
  ]

  not-needs_compaction :
      (s : Session st.State)
      → (window s ≡ [])
        ⊎ (estimate_window_tokens st estimate_tokens (window s) ≤ s.context_length * 4 / 5)
      → needs_compaction (capture_state st estimate_tokens s) ≡ false
  unfolding capture_state
  not-needs_compaction s h =
      elim (Bool-cases (needs_compaction (capture_state st estimate_tokens s))) [
        | inr n ↦ n
        | inl n ↦
            let (a, b) = needs_compaction-true (capture_state st estimate_tokens s) n in
            elim h [ inl e ↦ absurd (a e) | inr k ↦ absurd (omega arith) ]
      ]

  -- TryCompact does nothing when the window is empty or its estimate is not above four fifths of
  -- the context length of the model.
  pub try_compact-below :
      (hooks : Hooks) (s : Session st.State) (now : ℕ)
      → (window s ≡ [])
        ⊎ (estimate_window_tokens st estimate_tokens (window s) ≤ s.context_length * 4 / 5)
      → try_compact st estimate_tokens hooks s now ≡ (s, [])
  unfolding try_compact
  try_compact-below hooks s now h =
      if_idle (cooling_down st estimate_tokens s now)
        (needs_compaction (capture_state st estimate_tokens s)) (s, [])
        (do_compact st estimate_tokens hooks s (capture_state st estimate_tokens s) now)
        (not-needs_compaction s h)

  -- No automatic attempt within the cooldown of a failed one.
  cooling_down-after :
      (s : Session st.State) (now later : ℕ)
      → 0 < now
      → later < now + compaction_cooldown
      → s.last_compaction_fail_at ≡ now
      → cooling_down st estimate_tokens s later ≡ true
  unfolding cooling_down
  cooling_down-after s now later p q e = ground arith

  try_compact-cooling :
      (hooks : Hooks) (s : Session st.State) (now : ℕ)
      → cooling_down st estimate_tokens s now ≡ true
      → try_compact st estimate_tokens hooks s now ≡ (s, [])
  unfolding try_compact
  try_compact-cooling hooks s now h = rw (try_compact, h) refl

  -- After a compaction of a loaded session with a nonempty window that left the cursor where it
  -- was, at a time above 0, TryCompact does nothing until the cooldown of five minutes is over,
  -- whatever hooks it then has.
  pub try_compact-cooldown :
      (hooks hooks' : Hooks) (s : Session st.State) (state : SessionState) (now later : ℕ)
      → s.loaded ≡ true
      → 0 < now
      → later < now + compaction_cooldown
      → s.cursor < length s.messages
      → (do_compact st estimate_tokens hooks s state now).0.cursor ≡ s.cursor
      → try_compact st estimate_tokens hooks'
          (do_compact st estimate_tokens hooks s state now).0
          later
        ≡ ((do_compact st estimate_tokens hooks s state now).0, [])
  try_compact-cooldown hooks hooks' s state now later l p q n k =
      let t : Session st.State = (do_compact st estimate_tokens hooks s state now).0 in
      let c : Compacts st estimate_tokens hooks state.active_messages now s t =
        do_compact-Compacts st estimate_tokens hooks s state now l in
      elim c.outcome [
        | inl (_, f) ↦ try_compact-cooling hooks' t later (cooling_down-after t now later p q f)
        | inr (m, _, _) ↦ absurd (omega arith)
      ]
