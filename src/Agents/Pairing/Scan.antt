-- ===== src/Agents/Pairing/Scan.antt =====
-- findToolPairingBreak against the specification: it finds a break exactly in a window that is not
-- paired, and cuts where what is left is paired and ends in a user message.
use goharness.Prelude.{
  ℕ, zero, suc, ◌+◌, ◌≤◌, ◌≡◌, ◌≢◌, ◌↔◌, refl, sym, ◌∙◌, ◌⊎◌, inl, inr, true, false, List, [], ◌∷◌,
  Text, text_eq, any, drop, length, length-drop, arith, Bool-cases, List-cases,
}
use goharness.Session.Message.{Message, is_tool}
use goharness.Session.Sanitize.{is_caller, call_ids}
use goharness.Agents.Pairing.Spec.{
  tool_run, answers, Covered, Answered-other, Paired, Checked-Paired, drop-Paired, Checked-tool_run,
}
use goharness.Agents.Pairing.{
  delete_id, cover, back_to_user, intact, cut_at, out_of_fuel, scan, find_tool_pairing_break,
}

-- The inner loop stops behind the run of tool messages.
cover-behind :
    (p : List Text) (j : ℕ) (ms : List Message) → (cover p j ms).2 ≡ drop (length (tool_run ms)) ms
unfolding cover
cover-behind p j [] = refl
cover-behind p j (m ∷ ms) = elim (Bool-cases (is_tool m)) [
  | inl t ↦ rw t (cover-behind (delete_id m.tool_call_id p) (j + 1) ms)
  | inr n ↦ rw n refl
]

cover-index :
    (p : List Text) (j : ℕ) (ms : List Message) → (cover p j ms).1 ≡ j + length (tool_run ms)
unfolding cover
cover-index p j [] = omega arith
cover-index p j (m ∷ ms) = elim (Bool-cases (is_tool m)) [
  | inl t ↦ rw t (omega (arith, cover-index (delete_id m.tool_call_id p) (j + 1) ms))
  | inr n ↦ rw n (omega arith)
]

Covered-delete :
    (m : Message) (run : List Message) (p : List Text)
    → Covered (delete_id m.tool_call_id p) run ↔ Covered p (m ∷ run)
Covered-delete m run [] = (λ _. tt, λ _. tt)
Covered-delete m run (id ∷ p) = elim (Bool-cases (text_eq id m.tool_call_id)) [
  | inl e ↦ rw e (λ c. (refl, (Covered-delete m run p).0 c), λ c. (Covered-delete m run p).1 c.1)
  | inr n ↦
      rw n (λ c. (c.0, (Covered-delete m run p).0 c.1), λ c. (c.0, (Covered-delete m run p).1 c.1))
]

Covered-nil : (p : List Text) → Covered p [] → p ≡ []
Covered-nil [] c = refl
Covered-nil (id ∷ p) c = cc (c.0)

-- Nothing is pending exactly when every call is answered in the run.
cover-pending :
    (p : List Text) (j : ℕ) (ms : List Message) → ((cover p j ms).0 ≡ []) ↔ Covered p (tool_run ms)
unfolding cover
cover-pending p j [] = (λ e. rw e tt, Covered-nil p)
cover-pending p j (m ∷ ms) = elim (Bool-cases (is_tool m)) [
  | inl t ↦ rw t (
    λ e.
        (Covered-delete m (tool_run ms) p).0
          ((cover-pending (delete_id m.tool_call_id p) (j + 1) ms).0 e),
    λ c.
        (cover-pending (delete_id m.tool_call_id p) (j + 1) ms).1
          ((Covered-delete m (tool_run ms) p).1 c),
  )
  | inr n ↦ rw n (λ e. rw e tt, Covered-nil p)
]

-- One round of the outer loop, by its three cases.
abbrev pub behind_run : List Message → List Message
behind_run ms = drop (length (tool_run ms)) ms

module _ (f : ℕ) (w : List Message) (i : ℕ) (m : Message) (rest : List Message) where
  pub scan-plain : is_caller m ≡ false → scan (suc f) w i (m ∷ rest) ≡ scan f w (i + 1) rest
  unfolding scan
  scan-plain h = rw h

  pub scan-onward :
      is_caller m ≡ true
      → Covered (call_ids m.tool_calls) (tool_run rest)
      → scan (suc f) w i (m ∷ rest) ≡ scan f w (i + 1 + length (tool_run rest)) (behind_run rest)
  unfolding scan
  scan-onward h c = rw (
    h,
    (cover-pending (call_ids m.tool_calls) (i + 1) rest).1 c,
    cover-index (call_ids m.tool_calls) (i + 1) rest,
    cover-behind (call_ids m.tool_calls) (i + 1) rest,
  )

  pub scan-broken :
      is_caller m ≡ true
      → ¬ Covered (call_ids m.tool_calls) (tool_run rest)
      → scan (suc f) w i (m ∷ rest) ≡ cut_at (back_to_user w i)
  unfolding scan
  scan-broken h n = elim (List-cases (cover (call_ids m.tool_calls) (i + 1) rest).0) [
    | inl e ↦ absurd (n ((cover-pending (call_ids m.tool_calls) (i + 1) rest).0 e))
    | inr (id, ids, e) ↦ rw (h, e) refl
  ]

-- Coverage is decided by the pending calls that are left.
Covered-cases : (p : List Text) (run : List Message) → Covered p run ⊎ ¬ Covered p run
Covered-cases [] run = inl tt
Covered-cases (id ∷ p) run = elim (Bool-cases (any (answers id) run)) [
  | inr n ↦ inr (λ c. absurd (cc (c.0)))
  | inl e ↦ elim (Covered-cases p run) [ inl c ↦ inl (e, c) | inr k ↦ inr (λ c. k c.1) ]
]

-- What a caller's round leaves, in the three forms that the inductions below share.
pub data Round (m : Message) (rest : List Message) : Type 0 where
  plain_message : is_caller m ≡ false → Round m rest
  covered : is_caller m ≡ true → Covered (call_ids m.tool_calls) (tool_run rest) → Round m rest
  broken : is_caller m ≡ true → ¬ Covered (call_ids m.tool_calls) (tool_run rest) → Round m rest

pub round : (m : Message) (rest : List Message) → Round m rest
round m rest = elim (Bool-cases (is_caller m)) [
  | inr n ↦ plain_message n
  | inl h ↦ elim (Covered-cases (call_ids m.tool_calls) (tool_run rest)) [
    | inl c ↦ covered h c
    | inr n ↦ broken h n
  ]
]

length-behind : (ms : List Message) → length (behind_run ms) ≤ length ms
length-behind ms = omega (arith, length-drop (length (tool_run ms)) ms)

scan-ne-out_of_fuel :
    (f : ℕ) (w : List Message) (i : ℕ) (ms : List Message)
    → length ms ≤ f
    → scan f w i ms ≢ out_of_fuel
unfolding scan
scan-ne-out_of_fuel f w i [] h = λ e. cc e
scan-ne-out_of_fuel zero w i (m ∷ ms) h = absurd (omega arith)
scan-ne-out_of_fuel (suc f) w i (m ∷ ms) h = elim (round m ms) [
  | plain_message n ↦
      rw (scan-plain f w i m ms n) (scan-ne-out_of_fuel f w (i + 1) ms (omega arith))
  | covered t c ↦
      rw (scan-onward f w i m ms t c)
        (scan-ne-out_of_fuel f w _ (behind_run ms) (omega (arith, length-behind ms)))
  | broken t n ↦ rw (scan-broken f w i m ms t n) (λ e. cc e)
]

scan-intact :
    (f : ℕ) (w : List Message) (i : ℕ) (ms : List Message) → scan f w i ms ≡ intact → Paired ms
unfolding scan
scan-intact f w i [] e = tt
scan-intact zero w i (m ∷ ms) e = cc e
scan-intact (suc f) w i (m ∷ ms) e = elim (round m ms) [
  | plain_message n ↦
      (Answered-other m ms n, scan-intact f w (i + 1) ms (rw (scan-plain f w i m ms n) at e))
  | covered t c ↦ (
    λ _. c,
    Checked-Paired _ ms (Checked-tool_run ms)
        (scan-intact f w _ (behind_run ms) (rw (scan-onward f w i m ms t c) at e)),
  )
  | broken t n ↦ cc (sym (scan-broken f w i m ms t n) ∙ e)
]

Paired-scan :
    (f : ℕ) (w : List Message) (i : ℕ) (ms : List Message)
    → length ms ≤ f
    → Paired ms
    → scan f w i ms ≡ intact
unfolding scan
Paired-scan f w i [] h p = refl
Paired-scan zero w i (m ∷ ms) h p = absurd (omega arith)
Paired-scan (suc f) w i (m ∷ ms) h p = elim (round m ms) [
  | plain_message n ↦ scan-plain f w i m ms n ∙ Paired-scan f w (i + 1) ms (omega arith) p.1
  | covered t c ↦
      scan-onward f w i m ms t c
      ∙ Paired-scan f w _ (behind_run ms) (omega (arith, length-behind ms)) (drop-Paired _ ms p.1)
  | broken t n ↦ absurd (n (p.0 t))
]

-- The scan reports no break exactly when each assistant message of the window has all its tool
-- calls answered by the tool messages right behind it.
pub find_tool_pairing_break-intact :
    (w : List Message) → (find_tool_pairing_break w ≡ intact) ↔ Paired w
unfolding find_tool_pairing_break
find_tool_pairing_break-intact w =
    (scan-intact (length w) w 0 w, Paired-scan (length w) w 0 w (omega arith))

-- The scan ends: as many steps as the window has messages are enough for every window.
pub find_tool_pairing_break-ne-out_of_fuel :
    (w : List Message) → find_tool_pairing_break w ≢ out_of_fuel
unfolding find_tool_pairing_break
find_tool_pairing_break-ne-out_of_fuel w = scan-ne-out_of_fuel (length w) w 0 w (omega arith)
