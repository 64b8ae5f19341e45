-- ===== src/Agents/Waits/Earliest.antt =====
-- agents/subagent.go: the search of findPendingSub without a target.
use goharness.Prelude.{
  ℕ, ◌≤◌, ◌<◌, ◌==◌, ◌≡◌, ◌≢◌, ◌⊎◌, inl, inr, ◌||◌, refl, ap, subst, true, false, List, [], ◌∷◌,
  ◌++◌, append_assoc, append-nil, Option, none, some, is_some, Text, text_eq, text_eq-eq, ltb,
  Bool-cases, arith,
}
use goharness.Agents.Waits.{Channel, Waiter, find_earliest, find_pending, visit}

text_eq-other : (s t : Text) → s ≢ t → text_eq s t ≡ false
text_eq-other s t d = elim (Bool-cases (text_eq s t)) [
  | inl e ↦ absurd (d (text_eq-eq s t e))
  | inr e ↦ e
]

module _ {A : Type 0} where
  -- A waiter waits since a time that is not 0, and every wait that began at or after `t`.
  abbrev pub Timed : List (Waiter A) → Type 0
  Timed [] = Unit
  Timed (w ∷ ws) = (is_some w.pending_ch ≡ true → 0 < w.pending_at) × Timed ws

  abbrev pub Since : ℕ → List (Waiter A) → Type 0
  Since t [] = Unit
  Since t (w ∷ ws) = (is_some w.pending_ch ≡ true → t ≤ w.pending_at) × Since t ws

  abbrev pub Idle : List (Waiter A) → Type 0
  Idle [] = Unit
  Idle (w ∷ ws) = (is_some w.pending_ch ≡ false) × Idle ws

  -- A session of the list waits on this channel since `t`.
  abbrev pub Waits : Text → Channel A → ℕ → List (Waiter A) → Type 0
  Waits id ch t [] = ⊥
  Waits id ch t (w ∷ ws) =
      ((w.session_id ≡ id) × (w.pending_ch ≡ some ch) × (w.pending_at ≡ t)) ⊎ Waits id ch t ws

  -- Nobody waits, or the wait that was found began before all others.
  abbrev pub First : List (Waiter A) → Option (Text × Channel A) → Type 0
  First ws none = Idle ws
  First ws (some (id, ch)) = (t : ℕ) × Waits id ch t ws × Since t ws

  abbrev Best : ℕ × Option (Text × Channel A) → List (Waiter A) → Type 0
  Best (t, none) ws = (t ≡ 0) × Idle ws
  Best (t, some (id, ch)) ws = (0 < t) × Waits id ch t ws × Since t ws

  Idle-snoc :
      (ws : List (Waiter A)) (w : Waiter A)
      → Idle ws
      → is_some w.pending_ch ≡ false
      → Idle (ws ++ w ∷ [])
  Idle-snoc [] w h e = (e, tt)
  Idle-snoc (v ∷ ws) w h e = (h.0, Idle-snoc ws w h.1 e)

  Since-snoc :
      (t : ℕ) (ws : List (Waiter A)) (w : Waiter A)
      → Since t ws
      → (is_some w.pending_ch ≡ true → t ≤ w.pending_at)
      → Since t (ws ++ w ∷ [])
  Since-snoc t [] w h e = (e, tt)
  Since-snoc t (v ∷ ws) w h e = (h.0, Since-snoc t ws w h.1 e)

  Since-le : (t u : ℕ) (ws : List (Waiter A)) → u ≤ t → Since t ws → Since u ws
  Since-le t u [] l h = tt
  Since-le t u (w ∷ ws) l h = (λ e. omega (arith, h.0 e), Since-le t u ws l h.1)

  Since-Idle : (t : ℕ) (ws : List (Waiter A)) → Idle ws → Since t ws
  Since-Idle t [] h = tt
  Since-Idle t (w ∷ ws) h = (λ e. absurd (cc (h.0)), Since-Idle t ws h.1)

  Waits-snoc :
      (id : Text) (ch : Channel A) (t : ℕ) (ws : List (Waiter A)) (w : Waiter A)
      → Waits id ch t ws
      → Waits id ch t (ws ++ w ∷ [])
  Waits-snoc id ch t [] w h = absurd h
  Waits-snoc id ch t (v ∷ ws) w (inl h) = inl h
  Waits-snoc id ch t (v ∷ ws) w (inr h) = inr (Waits-snoc id ch t ws w h)

  Waits-last :
      (ws : List (Waiter A)) (w : Waiter A) (ch : Channel A)
      → w.pending_ch ≡ some ch
      → Waits w.session_id ch w.pending_at (ws ++ w ∷ [])
  Waits-last [] w ch e = inl (refl, e, refl)
  Waits-last (v ∷ ws) w ch e = inr (Waits-last ws w ch e)

  visit-Best :
      (w : Waiter A) (pc : Option (Channel A)) (found : ℕ × Option (Text × Channel A))
      (seen : List (Waiter A))
      → w.pending_ch ≡ pc
      → (is_some w.pending_ch ≡ true → 0 < w.pending_at)
      → Best found seen
      → Best (visit w pc found) (seen ++ w ∷ [])
  visit-Best w none (t, none) seen e timed b = (b.0, Idle-snoc seen w b.1 (ap is_some e))
  visit-Best w none (t, some (id, ch)) seen e timed b = (
    b.0,
    Waits-snoc id ch t seen w b.1,
    Since-snoc t seen w b.2 (λ h. absurd (let n = ap is_some e in cc)),
  )
  visit-Best w (some ch) (t, none) seen e timed b =
      let first : (t == 0 || ltb w.pending_at t) ≡ true = ground (arith, b.0) in
      rw first (
        timed (ap is_some e),
        Waits-last seen w ch e,
        Since-snoc w.pending_at seen w (Since-Idle w.pending_at seen b.1) (λ h. omega arith),
      )
  visit-Best w (some ch) (t, some (id, old)) seen e timed b =
      elim (Bool-cases (t == 0 || ltb w.pending_at t)) [
        | inl sooner ↦ rw sooner (
          timed (ap is_some e),
          Waits-last seen w ch e,
          Since-snoc w.pending_at seen w
              (Since-le t w.pending_at seen (earlier t w.pending_at b.0 sooner) b.2)
              (λ h. omega arith),
        )
        | inr later ↦ rw later (
          b.0,
          Waits-snoc id old t seen w b.1,
          Since-snoc t seen w b.2 (λ h. not_earlier t w.pending_at later),
        )
      ]
    where
      earlier : (t u : ℕ) → 0 < t → (t == 0 || ltb u t) ≡ true → u ≤ t
      earlier t u p h = ground arith

      not_earlier : (t u : ℕ) → (t == 0 || ltb u t) ≡ false → t ≤ u
      not_earlier t u h = ground arith

  find_earliest-Best :
      (ws seen : List (Waiter A)) (found : ℕ × Option (Text × Channel A))
      → Timed ws
      → Best found seen
      → Best (find_earliest ws found) (seen ++ ws)
  unfolding find_earliest
  find_earliest-Best [] seen found h b = rw (append-nil seen) b
  find_earliest-Best (w ∷ ws) seen found h b =
      subst (Best (find_earliest ws (visit w w.pending_ch found))) (append_assoc seen (w ∷ []) ws) (
        find_earliest-Best ws (seen ++ w ∷ []) (visit w w.pending_ch found) h.1
          (visit-Best w w.pending_ch found seen refl h.0 b))

  Best-First :
      (found : ℕ × Option (Text × Channel A)) (ws : List (Waiter A))
      → Best found ws
      → First ws found.1
  Best-First (t, none) ws b = b.1
  Best-First (t, some (id, ch)) ws b = (t, b.1, b.2)

  -- Without a target, findPendingSub finds nothing exactly where nobody waits, and otherwise a
  -- wait that began before, or with, all others; times are above 0.
  pub find_pending-First : (ws : List (Waiter A)) → Timed ws → First ws (find_pending [] ws)
  unfolding find_pending
  find_pending-First ws h =
      Best-First (find_earliest ws (0, none)) ws (find_earliest-Best ws [] (0, none) h (refl, tt))
