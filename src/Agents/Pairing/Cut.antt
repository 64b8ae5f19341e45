-- ===== src/Agents/Pairing/Cut.antt =====
-- Where findToolPairingBreak cuts: agents/pairing_repair.go.
use goharness.Prelude.{
  ℕ, zero, suc, ◌+◌, ◌≤◌, ◌<◌, ◌≡◌, refl, ap, sym, subst, ◌∙◌, inl, inr, true, List, [], ◌∷◌, some,
  take, drop, length, get_elem?, length-drop, drop-drop, arith, Bool-cases, Option-cases,
}
use goharness.Session.Message.{Message, is_user}
use goharness.Agents.Pairing.Spec.{
  tool_run, Answered, Answered-other, Paired, Checked, CutAtUser, take-Paired, Checked-add,
  Checked-le, Checked-tool_run,
}
use goharness.Agents.Pairing.{back_to_user, Found, cut_at, scan, find_tool_pairing_break}
use goharness.Agents.Pairing.Scan.{
  behind_run, scan-plain, scan-onward, scan-broken, plain_message, covered, broken, round,
}

-- Where the backward loop stops.
CutAtUser-at :
    (c : ℕ) (w : List Message) (m : Message)
    → get_elem? w c ≡ some m
    → is_user m ≡ true
    → CutAtUser (suc c) w
CutAtUser-at c [] m e u = cc e
CutAtUser-at zero (x ∷ w) m e u = ground arith
CutAtUser-at (suc c) (x ∷ w) m e u = CutAtUser-at c w m e u

back_to_user-le : (w : List Message) (c : ℕ) → back_to_user w c ≤ c
unfolding back_to_user
back_to_user-le w zero = omega arith
back_to_user-le w (suc c) = ground (arith, back_to_user-le w c)

back_to_user-CutAtUser : (w : List Message) (c : ℕ) → CutAtUser (back_to_user w c) w
unfolding back_to_user
back_to_user-CutAtUser w zero = tt
back_to_user-CutAtUser w (suc c) = elim (Option-cases (get_elem? w c)) [
  | inl e ↦ rw (e, back_to_user) (back_to_user-CutAtUser w c)
  | inr (m, e) ↦ elim (Bool-cases (is_user m)) [
    | inl u ↦ rw (e, back_to_user, u) (CutAtUser-at c w m e u)
    | inr n ↦ rw (e, back_to_user, n) (back_to_user-CutAtUser w c)
  ]
]

abbrev index : Found → ℕ
index (cut_at c) = c
index _ = 0

-- What a cut promises.
pub record GoodCut (w : List Message) (c : ℕ) : Type 0 where
  pub inside : c < length w
  pub at_user : CutAtUser c w
  pub paired : Paired (take c w)

-- The facts that one step forward keeps.
module _ (w : List Message) (i : ℕ) (m : Message) (ms : List Message) (at : m ∷ ms ≡ drop i w) where
  at-next : ms ≡ drop (i + 1) w
  at-next = sym (drop-drop i 1 w ∙ ap (drop 1) (sym at))

  Checked-next : Checked i w → Answered m ms → Checked (i + 1) w
  Checked-next k a = Checked-add i 1 w k (rw (← at) (a, tt))

  at-behind : behind_run ms ≡ drop (i + 1 + length (tool_run ms)) w
  at-behind =
      ap (drop (length (tool_run ms))) at-next ∙ sym (drop-drop (i + 1) (length (tool_run ms)) w)

  Checked-behind : Checked i w → Answered m ms → Checked (i + 1 + length (tool_run ms)) w
  Checked-behind k a =
      Checked-add (i + 1) (length (tool_run ms)) w (Checked-next k a)
        (subst (Checked (length (tool_run ms))) at-next (Checked-tool_run ms))

  inside_window : i < length w
  inside_window = omega (arith, length-drop i w, ap length at)

  GoodCut-here : (c : ℕ) → Checked i w → cut_at (back_to_user w i) ≡ cut_at c → GoodCut w c
  GoodCut-here c k e = subst (GoodCut w) (ap index e) (record {
    inside = omega (arith, back_to_user-le w i, inside_window);
    at_user = back_to_user-CutAtUser w i;
    paired =
        take-Paired (back_to_user w i) w (Checked-le _ i w (back_to_user-le w i) k)
          (back_to_user-CutAtUser w i);
  })

scan-GoodCut :
    (f : ℕ) (w : List Message) (i : ℕ) (ms : List Message) (c : ℕ)
    → ms ≡ drop i w
    → Checked i w
    → scan f w i ms ≡ cut_at c
    → GoodCut w c
unfolding scan
scan-GoodCut f w i [] c at k e = cc e
scan-GoodCut zero w i (m ∷ ms) c at k e = cc e
scan-GoodCut (suc f) w i (m ∷ ms) c at k e = elim (round m ms) [
  | plain_message n ↦
      scan-GoodCut f w (i + 1) ms c (at-next w i m ms at)
        (Checked-next w i m ms at k (Answered-other m ms n)) (rw (scan-plain f w i m ms n) at e)
  | covered t v ↦
      scan-GoodCut f w _ (behind_run ms) c (at-behind w i m ms at)
        (Checked-behind w i m ms at k (λ _. v)) (rw (scan-onward f w i m ms t v) at e)
  | broken t n ↦ GoodCut-here w i m ms at c k (sym (scan-broken f w i m ms t n) ∙ e)
]

-- Where the scan reports a cut, the cut lies inside the window, at its start or right behind a
-- user message, and the messages before it are paired.
pub find_tool_pairing_break-GoodCut :
    (w : List Message) (c : ℕ) → find_tool_pairing_break w ≡ cut_at c → GoodCut w c
unfolding find_tool_pairing_break
find_tool_pairing_break-GoodCut w c e = scan-GoodCut (length w) w 0 w c refl tt e
