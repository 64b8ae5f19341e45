-- ===== src/Session/Laws/Rounds.antt =====
-- getRoundRange: which messages a round of a window holds.
use Prim.Native.Nat.add
use goharness.Prelude.{
  ℕ, zero, suc, ◌+◌, ◌-◌, ◌≡◌, refl, sym, ◌∙◌, ap, true, false, List, [], ◌∷◌, ◌++◌, Option, none,
  some, any, take, drop, length, get_elem?, take-append, drop-append, drop-drop, if◌then◌else◌, inl,
  inr, Bool-cases, arith,
}
use goharness.Session.Message.{Message, is_user}
use goharness.Session.Rounds.{ok, scan_round, round_range_at, get_round_range, slice}

-- The messages before the next user message, and what follows them.
abbrev body : List Message → List Message
body [] = []
body (m ∷ ms) = let rest = body ms in if is_user m then [] else m ∷ rest

abbrev rest_of : List Message → List Message
rest_of [] = []
rest_of (m ∷ ms) = let rest = rest_of ms in if is_user m then m ∷ ms else rest

abbrev pub StartsAtUser : List Message → Type 0
StartsAtUser [] = Unit {0}
StartsAtUser (m ∷ ms) = is_user m ≡ true

body-rest_of : (ms : List Message) → body ms ++ rest_of ms ≡ ms
body-rest_of [] = refl
body-rest_of (m ∷ ms) = ground (arith, body-rest_of ms)

body-no_user : (ms : List Message) → any is_user (body ms) ≡ false
body-no_user [] = refl
body-no_user (m ∷ ms) = elim (Bool-cases (is_user m)) [
  | inl u ↦ rw u refl
  | inr n ↦ rw n (rw n (body-no_user ms))
]

rest_of-StartsAtUser : (ms : List Message) → StartsAtUser (rest_of ms)
rest_of-StartsAtUser [] = tt
rest_of-StartsAtUser (m ∷ ms) = elim (Bool-cases (is_user m)) [
  | inl u ↦ rw u u
  | inr n ↦ rw n (rest_of-StartsAtUser ms)
]

scan_round-body : (k : ℕ) (ms : List Message) → scan_round k ms ≡ k + length (body ms)
unfolding scan_round
scan_round-body k [] = omega arith
scan_round-body k (m ∷ ms) = ground (arith, scan_round-body (k + 1) ms)

-- The messages `cursor` to `round_end - 1` of a window are one whole round.
pub record IsRound (ms : List Message) (cursor round_end : ℕ) : Type 0 where
  pub before : List Message
  pub lead : Message
  pub inner : List Message
  pub after : List Message
  pub whole : ms ≡ before ++ lead ∷ (inner ++ after)
  pub start : length before ≡ cursor
  pub stop : round_end ≡ cursor + suc (length inner)
  pub led_by_user : is_user lead ≡ true
  pub no_user_inside : any is_user inner ≡ false
  pub next_round : StartsAtUser after

get_elem?-split :
    (ms : List Message) (c : ℕ) (m : Message)
    → get_elem? ms c ≡ some m
    → (ms ≡ take c ms ++ m ∷ drop (c + 1) ms) × (length (take c ms) ≡ c)
get_elem?-split [] c m e = cc e
get_elem?-split (x ∷ ms) zero m e = ground arith
get_elem?-split (x ∷ ms) (suc c) m e =
    let (p, q) = get_elem?-split ms c m e in
    (ap (◌∷◌ x) (p ∙ ap (λ k. take c ms ++ m ∷ drop k (x ∷ ms)) (sym (add.suc c 1))), omega arith)

round_range_at-ok :
    (c : ℕ) (ms : List Message) (o : Option Message) (e : ℕ)
    → round_range_at c ms o ≡ ok e
    → (m : Message) × (o ≡ some m) × (is_user m ≡ true) × (e ≡ scan_round (c + 1) (drop (c + 1) ms))
unfolding round_range_at
round_range_at-ok c ms none e h = cc h
round_range_at-ok c ms (some m) e h = elim (Bool-cases (is_user m)) [
  | inl u ↦ (m, refl, u, ground arith)
  | inr n ↦ absurd (ground arith)
]

pub get_round_range-IsRound :
    (c : ℕ) (ms : List Message) (e : ℕ) → get_round_range c ms ≡ ok e → IsRound ms c e
unfolding get_round_range
get_round_range-IsRound c ms e h =
    let (m, g, u, k) = round_range_at-ok c ms (get_elem? ms c) e h in
    let (w, l) = get_elem?-split ms c m g in
    record {
      before = take c ms;
      lead = m;
      inner = body (drop (c + 1) ms);
      after = rest_of (drop (c + 1) ms);
      whole = w ∙ ap (λ r. take c ms ++ m ∷ r) (sym (body-rest_of (drop (c + 1) ms)));
      start = l;
      stop = omega (arith, scan_round-body (c + 1) (drop (c + 1) ms));
      led_by_user = u;
      no_user_inside = body-no_user (drop (c + 1) ms);
      next_round = rest_of-StartsAtUser (drop (c + 1) ms);
    }

module _ {ms : List Message} {c e : ℕ} (r : IsRound ms c e) where
  drop-start : drop c ms ≡ r.lead ∷ (r.inner ++ r.after)
  drop-start =
      ap (drop c) r.whole
      ∙ ap (λ k. drop k (r.before ++ r.lead ∷ (r.inner ++ r.after))) (sym r.start)
      ∙ drop-append r.before (r.lead ∷ (r.inner ++ r.after))

  pub drop-stop : drop e ms ≡ r.after
  drop-stop =
      ap (λ k. drop k ms) r.stop
      ∙ drop-drop c (suc (length r.inner)) ms
      ∙ ap (drop (suc (length r.inner))) drop-start
      ∙ drop-append r.inner r.after

  pub take-start : take c ms ≡ r.before
  take-start =
      ap (take c) r.whole
      ∙ ap (λ k. take k (r.before ++ r.lead ∷ (r.inner ++ r.after))) (sym r.start)
      ∙ take-append r.before (r.lead ∷ (r.inner ++ r.after))

  -- The slice from the cursor to the end of the round is the round.
  pub slice-IsRound : slice c e ms ≡ r.lead ∷ r.inner
  slice-IsRound =
      ap (take (e - c)) drop-start
      ∙ ap (λ k. take k (r.lead ∷ (r.inner ++ r.after))) length_eq
      ∙ ap (◌∷◌ r.lead) (take-append r.inner r.after)
    where
      length_eq : e - c ≡ suc (length r.inner)
      length_eq = omega (arith, r.stop)
