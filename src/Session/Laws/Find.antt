-- ===== src/Session/Laws/Find.antt =====
-- findMessageIndexByTimestamp: which message a timestamp names, where several share it.
use goharness.Prelude.{
  ℕ, zero, suc, ◌+◌, ◌≡◌, refl, ◌∙◌, ap, subst, Bool, true, false, ◌&&◌, List, [], ◌∷◌, Option,
  none, some, any, take, drop, drop-all, length, get_elem?, ◌==◌, inl, inr, ◌⊎◌, Bool-cases,
  Option-cases, arith,
}
use goharness.Session.Message.{Message, is_user}
use goharness.Session.Rounds.{find_user_back, find_forward, find_message_index_by_timestamp}

abbrev pub at_time : ℕ → Message → Bool
at_time timestamp m = m.timestamp == timestamp

abbrev pub user_at : ℕ → Message → Bool
user_at timestamp m = is_user m && m.timestamp == timestamp

drop-get_elem? :
    (ms : List Message) (n : ℕ) (m : Message)
    → get_elem? ms n ≡ some m
    → drop n ms ≡ m ∷ drop (suc n) ms
drop-get_elem? [] n m e = cc e
drop-get_elem? (x ∷ ms) zero m e = ground arith
drop-get_elem? (x ∷ ms) (suc n) m e = drop-get_elem? ms n m e

drop-get_elem?-none : (ms : List Message) (n : ℕ) → get_elem? ms n ≡ none → drop n ms ≡ []
drop-get_elem?-none [] zero e = refl
drop-get_elem?-none [] (suc n) e = refl
drop-get_elem?-none (x ∷ ms) zero e = cc e
drop-get_elem?-none (x ∷ ms) (suc n) e = drop-get_elem?-none ms n e

-- The last user message with the timestamp.
abbrev pub LastUser : ℕ → List Message → ℕ → Type 0
LastUser timestamp ms i =
    (m : Message) × (get_elem? ms i ≡ some m)
    × (user_at timestamp m ≡ true)
    × (any (user_at timestamp) (drop (suc i) ms) ≡ false)

-- The first message with the timestamp, where no user message has it.
abbrev pub FirstMessage : ℕ → List Message → ℕ → Type 0
FirstMessage timestamp ms i =
    (m : Message) × (get_elem? ms i ≡ some m)
    × (at_time timestamp m ≡ true)
    × (any (at_time timestamp) (take i ms) ≡ false)

abbrev BackSpec : ℕ → List Message → Option ℕ → Type 0
BackSpec timestamp ms (some i) = LastUser timestamp ms i
BackSpec timestamp ms none = any (user_at timestamp) ms ≡ false

find_user_back-BackSpec :
    (t : ℕ) (ms : List Message) (n : ℕ)
    → any (user_at t) (drop n ms) ≡ false
    → BackSpec t ms (find_user_back t ms n)
unfolding find_user_back
find_user_back-BackSpec t ms zero h = h
find_user_back-BackSpec t ms (suc n) h = elim (Option-cases (get_elem? ms n)) [
  | inl e ↦
      rw (e, find_user_back)
        (find_user_back-BackSpec t ms n (ap (any (user_at t)) (drop-get_elem?-none ms n e)))
  | inr (m, e) ↦ elim (Bool-cases (user_at t m)) [
    | inl u ↦ rw (e, find_user_back, u) (m, e, u, h)
    | inr k ↦
        rw (e, find_user_back, k)
          (find_user_back-BackSpec t ms n (ap (any (user_at t)) (drop-get_elem? ms n m e) ∙ rw k h))
  ]
]

abbrev ForwardSpec : ℕ → ℕ → List Message → Option ℕ → Type 0
ForwardSpec t k ms (some i) = (j : ℕ) × (i ≡ k + j) × FirstMessage t ms j
ForwardSpec t k ms none = any (at_time t) ms ≡ false

ForwardSpec-cons :
    (t k : ℕ) (m : Message) (ms : List Message) (o : Option ℕ)
    → at_time t m ≡ false
    → ForwardSpec t (k + 1) ms o
    → ForwardSpec t k (m ∷ ms) o
ForwardSpec-cons t k m ms none n h = rw n h
ForwardSpec-cons t k m ms (some i) n (j, e, (x, g, a, b)) = (suc j, omega arith, (x, g, a, rw n b))

find_forward-ForwardSpec : (t k : ℕ) (ms : List Message) → ForwardSpec t k ms (find_forward t k ms)
unfolding find_forward
find_forward-ForwardSpec t k [] = refl
find_forward-ForwardSpec t k (m ∷ ms) = elim (Bool-cases (at_time t m)) [
  | inl e ↦ rw (find_forward, e) (0, omega arith, (m, refl, e, refl))
  | inr n ↦
      rw (find_forward, n)
        (ForwardSpec-cons t k m ms (find_forward t (k + 1) ms) n
          (find_forward-ForwardSpec t (k + 1) ms))
]

-- What the result means: the last user message with the timestamp; failing that the first message
-- with it; and nothing only if no message has it.
abbrev pub Names : ℕ → List Message → Option ℕ → Type 0
Names t ms (some i) = LastUser t ms i ⊎ ((any (user_at t) ms ≡ false) × FirstMessage t ms i)
Names t ms none = any (at_time t) ms ≡ false

Names-back :
    (t : ℕ) (ms : List Message) (o : Option ℕ)
    → any (user_at t) ms ≡ false
    → ForwardSpec t 0 ms o
    → Names t ms o
Names-back t ms none n h = h
Names-back t ms (some i) n (j, e, f) = inr (n, subst (FirstMessage t ms) at_index f)
  where
    at_index : j ≡ i
    at_index = omega (arith, e)

Names-find :
    (t : ℕ) (ms : List Message) (o : Option ℕ)
    → BackSpec t ms o
    → Names t ms (elim o [ some i ↦ some i | none ↦ find_forward t 0 ms ])
Names-find t ms none h = Names-back t ms (find_forward t 0 ms) h (find_forward-ForwardSpec t 0 ms)
Names-find t ms (some i) h = inl h

-- findMessageIndexByTimestamp names the last user message with the timestamp; when no user
-- message has it, the first message with it; and nothing when no message has it.
pub find_message_index_by_timestamp-Names :
    (t : ℕ) (ms : List Message) → Names t ms (find_message_index_by_timestamp ms t)
unfolding find_message_index_by_timestamp
find_message_index_by_timestamp-Names t ms = Names-find t ms (find_user_back t ms (length ms)) (
    find_user_back-BackSpec t ms (length ms)
      (ap (any (user_at t)) (drop-all (length ms) ms (omega arith))))

-- Either way the message that is named carries the timestamp.
pub Names-timestamp :
    (t : ℕ) (ms : List Message) (i : ℕ)
    → Names t ms (some i)
    → (m : Message) × (get_elem? ms i ≡ some m) × (m.timestamp ≡ t)
Names-timestamp t ms i (inl (m, g, u, _)) = (m, g, ground arith)
Names-timestamp t ms i (inr (_, (m, g, a, _))) = (m, g, ground arith)
