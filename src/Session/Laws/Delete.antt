-- ===== src/Session/Laws/Delete.antt =====
-- GetRound returns one whole round, and DeleteRound takes out exactly one round or nothing.
use mathlib.Core.Option.{some-injective}
use goharness.Prelude.{
  take-add, append_assoc, take-append, get_elem?-append, length-take-le, ℕ, ◌+◌, ◌≤◌, ◌≡◌, refl,
  sym, ◌∙◌, ap, ap₂, List, [], ◌∷◌, ◌++◌, Option, none, some, take, drop, length, drop-cut,
  length-take, get_elem?, arith, pos,
}
use goharness.Session.Message.{Message}
use goharness.Session.Store.{SessionStore}
use goharness.Session.State.{Session, IsValid, window, ensure_loaded}
use goharness.Session.Error.{Error}
use goharness.Session.Rounds.{
  Result, ok, fail, round_of, get_round_range, find_message_index_by_timestamp, get_round,
  delete_range, delete_round_at, delete_found, delete_round,
}
use goharness.Session.Laws.Loading.{StoreInRange, ensure_loaded-IsValid}
use goharness.Session.Laws.Rounds.{
  IsRound, get_round_range-IsRound, slice-IsRound, take-start, drop-stop,
}
use goharness.Session.Laws.Find.{Names, find_message_index_by_timestamp-Names, Names-timestamp}

abbrev value : Result (List Message) → List Message
value (ok ms) = ms
value (fail e) = []

module _ (st : SessionStore) where
  -- When GetRound succeeds at an index of the window, the result is the user message there with
  -- all messages up to the next user message or the end.
  pub get_round-IsRound :
      (s : Session st.State) (cursor : ℕ) (ms : List Message)
      → (get_round st s (pos cursor)).1 ≡ ok ms
      → (e : ℕ) × (r : IsRound (window (ensure_loaded st s)) cursor e) × (ms ≡ r.lead ∷ r.inner)
  unfolding get_round
  get_round-IsRound s cursor ms h = from (get_round_range cursor w) refl h
    where
      w : List Message
      w = window (ensure_loaded st s)

      from :
          (o : Result ℕ)
          → get_round_range cursor w ≡ o
          → round_of cursor w o ≡ ok ms
          → (e : ℕ) × (r : IsRound w cursor e) × (ms ≡ r.lead ∷ r.inner)
      from (fail x) q k = cc k
      from (ok e) q k =
          let r : IsRound w cursor e = get_round_range-IsRound cursor w e q in
          (e, r, sym (ap value k) ∙ slice-IsRound r)

  -- What a deletion leaves: the history before the window, and the window without one round whose
  -- first message has the timestamp.
  pub record RoundGone (timestamp : ℕ) (s t : Session st.State) : Type 0 where
    pub cursor : ℕ
    pub round_end : ℕ
    pub round : IsRound (window s) cursor round_end
    pub named : round.lead.timestamp ≡ timestamp
    pub window_after : window t ≡ round.before ++ round.after
    pub history_after : take s.cursor t.messages ≡ take s.cursor s.messages
    pub cursor_after : t.cursor ≡ s.cursor

  abbrev pub Untouched : Session st.State → Session st.State → Type 0
  Untouched s t = (t.messages ≡ s.messages) × (t.cursor ≡ s.cursor)

  abbrev pub Deletes : ℕ → Session st.State → Session st.State × Option Error → Type 0
  Deletes timestamp s (t, none) = RoundGone timestamp s t
  Deletes timestamp s (t, some e) = Untouched s t

  -- The two outcomes of the deletion of a range.
  abbrev RangeGone : ℕ → ℕ → Session st.State → Session st.State × Option Error → Type 0
  RangeGone c e s (t, none) =
      (t.messages ≡ take (s.cursor + c) s.messages ++ drop (s.cursor + e) s.messages)
      × (t.cursor ≡ s.cursor)
  RangeGone c e s (t, some x) = Untouched s t

  delete_range-RangeGone :
      (s : Session st.State) (c e : ℕ) → RangeGone c e s (delete_range st s c e)
  unfolding delete_range
  delete_range-RangeGone s c e = ground arith

  take-cut :
      (n c e : ℕ) (ms : List Message)
      → n ≤ length ms
      → take n (take (n + c) ms ++ drop (n + e) ms) ≡ take n ms
  take-cut n c e ms h =
      rw (take-add n c ms, append_assoc)
        (ap (λ k. take k (take n ms ++ (take c (drop n ms) ++ drop (n + e) ms)))
            (sym (length-take n ms h))
          ∙ take-append (take n ms) (take c (drop n ms) ++ drop (n + e) ms))

  module _ (t : ℕ) (s : Session st.State) (v : IsValid s) where
    RangeGone-Deletes :
        (c e : ℕ) (r : IsRound (window s) c e) (p : Session st.State × Option Error)
        → r.lead.timestamp ≡ t
        → RangeGone c e s p
        → Deletes t s p
    RangeGone-Deletes c e r (t', some x) n g = g
    RangeGone-Deletes c e r (t', none) n (g, k) = record {
      cursor = c;
      round_end = e;
      round = r;
      named = n;
      window_after =
          ap₂ drop k g
          ∙ drop-cut s.cursor c e s.messages v.in_range
          ∙ ap₂ ◌++◌ (take-start r) (drop-stop r);
      history_after = ap (take s.cursor) g ∙ take-cut s.cursor c e s.messages v.in_range;
      cursor_after = k;
    }

    lead-get_elem? : (c e : ℕ) (r : IsRound (window s) c e) → get_elem? (window s) c ≡ some r.lead
    lead-get_elem? c e r =
        ap₂ get_elem? r.whole (sym r.start) ∙ get_elem?-append r.before r.lead (r.inner ++ r.after)

    delete_round_at-Deletes :
        (c : ℕ) (o : Result ℕ)
        → get_round_range c (window s) ≡ o
        → Names t (window s) (some c)
        → Deletes t s (delete_round_at st s c o)
    delete_round_at-Deletes c (fail e) q n = (refl, refl)
    delete_round_at-Deletes c (ok e) q n =
        let r : IsRound (window s) c e = get_round_range-IsRound c (window s) e q in
        let (m, g, named) = Names-timestamp t (window s) c n in
        RangeGone-Deletes c e r (delete_range st s c e)
          (ap (λ (x : Message). x.timestamp)
              (some-injective r.lead m (sym (lead-get_elem? c e r) ∙ g))
            ∙ named)
          (delete_range-RangeGone s c e)

    delete_found-Deletes :
        (o : Option ℕ) → Names t (window s) o → Deletes t s (delete_found st s t o)
    delete_found-Deletes none n = (refl, refl)
    delete_found-Deletes (some c) n =
        delete_round_at-Deletes c (get_round_range c (window s)) refl n

  -- For a session whose cursor lies in its history, DeleteRound either removes from the window
  -- one whole round, led by a user message with the given timestamp, and keeps the messages
  -- before and behind it, the history before the window and the cursor; or it returns an error
  -- and leaves the memory of the loaded session untouched.
  pub delete_round-Deletes :
      (s : Session st.State) (timestamp : ℕ)
      → IsValid (ensure_loaded st s)
      → Deletes timestamp (ensure_loaded st s) (delete_round st s timestamp)
  unfolding delete_round
  delete_round-Deletes s timestamp v =
      delete_found-Deletes timestamp (ensure_loaded st s) v
        (find_message_index_by_timestamp (window (ensure_loaded st s)) timestamp)
        (find_message_index_by_timestamp-Names timestamp (window (ensure_loaded st s)))

  Deletes-IsValid :
      (t : ℕ) (s : Session st.State) (p : Session st.State × Option Error)
      → IsValid s
      → Deletes t s p
      → IsValid p.0
  Deletes-IsValid t s (u, some e) v (g, k) = record { in_range = rw (g, k) v.in_range }
  Deletes-IsValid t s (u, none) v g = record {
    in_range = omega (
      arith,
      g.cursor_after,
      v.in_range,
      ap length g.history_after,
      length-take s.cursor s.messages v.in_range,
      length-take-le s.cursor u.messages,
    );
  }

  -- DeleteRound keeps the cursor inside the history, when it was there and the cursor of the
  -- store lies in the history of the store.
  pub delete_round-IsValid :
      (s : Session st.State) (timestamp : ℕ)
      → IsValid s
      → StoreInRange st s
      → IsValid (delete_round st s timestamp).0
  delete_round-IsValid s timestamp v r =
      Deletes-IsValid timestamp (ensure_loaded st s) (delete_round st s timestamp)
        (ensure_loaded-IsValid st s v r)
        (delete_round-Deletes s timestamp (ensure_loaded-IsValid st s v r))
