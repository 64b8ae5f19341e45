-- ===== src/Agents/Pairing/Spec.antt =====
-- What a well-paired window is, without indices: every message with tool calls is followed at once
-- by tool messages that answer each of them.
use native.Mathlib.Nat.{zero-add, suc-add}
use goharness.Prelude.{
  Bool-cases, ◌≤◌, ℕ, zero, suc, ◌+◌, ◌≡◌, refl, inl, inr, Bool, true, false, List, [], ◌∷◌, ◌++◌,
  Text, text_eq, any, all, take, drop, length, if◌then◌else◌, arith,
}
use goharness.Session.Message.{Message, is_user, is_tool}
use goharness.Session.Sanitize.{is_caller, call_ids}

-- The tool messages at the head of a list.
abbrev pub tool_run : List Message → List Message
tool_run [] = []
tool_run (m ∷ ms) = let run = tool_run ms in if is_tool m then m ∷ run else []

abbrev pub answers : Text → Message → Bool
answers id m = text_eq id m.tool_call_id

abbrev pub Covered : List Text → List Message → Type 0
Covered [] run = Unit {0}
Covered (id ∷ ids) run = (any (answers id) run ≡ true) × Covered ids run

abbrev pub Answered : Message → List Message → Type 0
Answered m ms = is_caller m ≡ true → Covered (call_ids m.tool_calls) (tool_run ms)

abbrev pub Paired : List Message → Type 0
Paired [] = Unit {0}
Paired (m ∷ ms) = Answered m ms × Paired ms

-- The messages before index `i` are answered; what answers them may stand behind it.
abbrev pub Checked : ℕ → List Message → Type 0
Checked zero ms = Unit {0}
Checked (suc i) [] = Unit {0}
Checked (suc i) (m ∷ ms) = Answered m ms × Checked i ms

-- The cut at `c` stands at the start or right behind a user message.
abbrev pub CutAtUser : ℕ → List Message → Type 0
CutAtUser zero ms = Unit {0}
CutAtUser (suc c) [] = ⊥
CutAtUser (suc zero) (m ∷ ms) = is_user m ≡ true
CutAtUser (suc (suc c)) (m ∷ ms) = CutAtUser (suc c) ms

pub user_not_caller : (m : Message) → is_user m ≡ true → is_caller m ≡ false
user_not_caller m h = ground arith

pub user_not_tool : (m : Message) → is_user m ≡ true → is_tool m ≡ false
user_not_tool m h = ground arith

pub tool_not_caller : (m : Message) → is_tool m ≡ true → is_caller m ≡ false
tool_not_caller m h = ground arith

pub Answered-other : (m : Message) (ms : List Message) → is_caller m ≡ false → Answered m ms
Answered-other m ms h = λ k. absurd (cc)

-- A cut behind a user message takes no answer away from what stands before it.
tool_run-take :
    (c : ℕ) (ms : List Message) → CutAtUser (suc c) ms → tool_run (take (suc c) ms) ≡ tool_run ms
tool_run-take c [] u = absurd u
tool_run-take zero (m ∷ ms) u = ground (arith, user_not_tool m)
tool_run-take (suc c) (m ∷ ms) u = ground (arith, tool_run-take c ms u)

pub take-Paired : (c : ℕ) (ms : List Message) → Checked c ms → CutAtUser c ms → Paired (take c ms)
take-Paired zero ms k u = tt
take-Paired (suc c) [] k u = absurd u
take-Paired (suc zero) (m ∷ ms) k u = (Answered-other m [] (user_not_caller m u), tt)
take-Paired (suc (suc c)) (m ∷ ms) k u =
    (λ h. rw (tool_run-take c ms u) (k.0 h), take-Paired (suc c) ms k.1 u)

pub Checked-add :
    (i k : ℕ) (ms : List Message) → Checked i ms → Checked k (drop i ms) → Checked (i + k) ms
Checked-add zero k ms a b = rw zero-add b
Checked-add (suc i) k [] a b = rw suc-add tt
Checked-add (suc i) k (m ∷ ms) a b = rw suc-add (a.0, Checked-add i k ms a.1 b)

pub Checked-le : (c i : ℕ) (ms : List Message) → c ≤ i → Checked i ms → Checked c ms
Checked-le zero i ms h a = tt
Checked-le (suc c) i [] h a = tt
Checked-le (suc c) zero (m ∷ ms) h a = absurd (omega arith)
Checked-le (suc c) (suc i) (m ∷ ms) h a = (a.0, Checked-le c i ms (omega arith) a.1)

pub Checked-Paired : (k : ℕ) (ms : List Message) → Checked k ms → Paired (drop k ms) → Paired ms
Checked-Paired zero ms a b = b
Checked-Paired (suc k) [] a b = tt
Checked-Paired (suc k) (m ∷ ms) a b = (a.0, Checked-Paired k ms a.1 b)

pub drop-Paired : (k : ℕ) (ms : List Message) → Paired ms → Paired (drop k ms)
drop-Paired zero ms p = p
drop-Paired (suc k) [] p = tt
drop-Paired (suc k) (m ∷ ms) p = drop-Paired k ms p.1

-- Tool messages carry no calls of their own.
pub Checked-tool_run : (ms : List Message) → Checked (length (tool_run ms)) ms
Checked-tool_run [] = tt
Checked-tool_run (m ∷ ms) = elim (Bool-cases (is_tool m)) [
  | inl t ↦ rw t (Answered-other m ms (tool_not_caller m t), Checked-tool_run ms)
  | inr n ↦ rw n tt
]

tool_run-append : (ms us : List Message) → all is_user us ≡ true → tool_run (ms ++ us) ≡ tool_run ms
tool_run-append [] [] h = refl
tool_run-append [] (u ∷ us) h = ground (arith, user_not_tool u)
tool_run-append (m ∷ ms) us h = ground (arith, tool_run-append ms us h)

Paired-users : (us : List Message) → all is_user us ≡ true → Paired us
Paired-users [] h = tt
Paired-users (u ∷ us) h =
    (Answered-other u us (user_not_caller u (ground arith)), Paired-users us (ground arith))

-- User messages at the end keep a window paired.
pub Paired-append : (ms us : List Message) → Paired ms → all is_user us ≡ true → Paired (ms ++ us)
Paired-append [] us p h = Paired-users us h
Paired-append (m ∷ ms) us p h =
    (λ k. rw (tool_run-append ms us h) (p.0 k), Paired-append ms us p.1 h)
