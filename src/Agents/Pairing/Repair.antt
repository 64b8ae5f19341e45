-- ===== src/Agents/Pairing/Repair.antt =====
-- repairToolPairingBreak: what the window holds after a repair.
use goharness.Prelude.{
  ℕ, ◌+◌, ◌≤◌, ◌<◌, ◌≡◌, refl, sym, ◌∙◌, ap, ap₂, subst, Bool, true, false, List, [], ◌∷◌, ◌++◌,
  Option, none, some, Text, all, keep, take, drop, length, drop-append_le, length-append,
  length-drop, length-take, drop-take, Option-cases, append-nil, append_assoc, inl, inr, Bool-cases,
  arith, pos,
}
use goharness.Session.Message.{Message, user, plain, is_user}
use goharness.Session.Store.{SessionStore}
use goharness.Session.State.{Session, IsValid, window, ensure_loaded, current, cursor_of}
use goharness.Session.Error.{Error}
use goharness.Session.Append.{is_kept, append}
use goharness.Session.Truncate.{truncate}
use goharness.Session.Laws.Loading.{
  ensure_loaded-loaded, loaded-ensure_loaded, current-window, current-session,
}
use goharness.Session.Laws.Append.{Grown, Appends, append-Appends}
use goharness.Session.Laws.Truncate.{IsCut, truncate-IsCut}
use goharness.Agents.Pairing.{
  Found, intact, cut_at, out_of_fuel, find_tool_pairing_break, kept_copy, notice, ends_in_user,
  append_users, append_notice, after_users, after_truncate, repair_at, repair_tool_pairing_break,
}
use goharness.Agents.Pairing.Spec.{Paired, Paired-append}
use goharness.Agents.Pairing.Cut.{GoodCut, find_tool_pairing_break-GoodCut}

-- A loaded session whose window is `w` and user messages behind it.
record Extended {S : Type 0} (w : List Message) (s : Session S) : Type 0 where
  is_loaded : s.loaded ≡ true
  valid : s.cursor ≤ length s.messages
  users : List Message
  window_is : window s ≡ w ++ users
  all_users : all is_user users ≡ true

all-append :
    (xs ys : List Message)
    → all is_user xs ≡ true
    → all is_user ys ≡ true
    → all is_user (xs ++ ys) ≡ true
all-append [] ys h k = k
all-append (x ∷ xs) ys h k = ground (arith, all-append xs ys)

Grown-Extended :
    {S : Type 0} (w : List Message) (s t : Session S) (added : List Message)
    → Extended w s
    → all is_user added ≡ true
    → Grown s t added
    → Extended w t
Grown-Extended w s t added x h g = record {
  is_loaded = g.loaded_after ∙ x.is_loaded;
  valid =
      rw (g.messages_after, g.cursor_after)
        (omega (arith, x.valid, length-append {0} s.messages added));
  users = x.users ++ added;
  window_is =
      ap₂ drop g.cursor_after g.messages_after
      ∙ drop-append_le s.cursor s.messages added x.valid
      ∙ ap (λ v. v ++ added) x.window_is
      ∙ append_assoc w x.users added;
  all_users = all-append x.users added x.all_users h;
}

module _ (st : SessionStore) (w : List Message) where
  Appends-Extended :
      (s : Session st.State) (added : List Message) (p : Session st.State × Option Error)
      → Extended w s
      → all is_user added ≡ true
      → Appends st s added p
      → Extended w p.0
  Appends-Extended s added (t, none) x h g = Grown-Extended w s t added x h g
  Appends-Extended s added (t, some e) x h (g, _) = Grown-Extended w s t [] x refl g

  append-Extended :
      (s : Session st.State) (m : Message)
      → is_user m ≡ true
      → Extended w s
      → Extended w (append st s (m ∷ [])).0
  append-Extended s m u x =
      Appends-Extended s (keep is_kept (m ∷ [])) (append st s (m ∷ [])) x (ground arith) (
        subst (λ t. Appends st t (keep is_kept (m ∷ [])) (append st s (m ∷ [])))
          (ensure_loaded-loaded st s x.is_loaded) (append-Appends st s (m ∷ [])))

  append_users-Extended :
      (s : Session st.State) (ms : List Message)
      → Extended w s
      → Extended w (append_users st s ms).0
  unfolding append_users
  append_users-Extended s [] x = x
  append_users-Extended s (m ∷ ms) x = elim (Option-cases (append st s (kept_copy m ∷ [])).1) [
    | inl e ↦
        rw (e, append_users)
          (append_users-Extended (append st s (kept_copy m ∷ [])).0 ms
            (append-Extended s (kept_copy m) refl x))
    | inr (k, e) ↦ rw (e, append_users) (append-Extended s (kept_copy m) refl x)
  ]

  append_notice-Extended :
      (s : Session st.State) (now : ℕ) → Extended w s → Extended w (append_notice st s now)
  unfolding append_notice
  append_notice-Extended s now x =
      let at : (current st s).0 ≡ s =
        current-session st s ∙ ensure_loaded-loaded st s x.is_loaded in
      elim (Bool-cases (ends_in_user (current st s).1)) [
        | inl e ↦ rw e (rw at x)
        | inr e ↦ rw e (rw at (append-Extended s (plain user notice now) refl x))
      ]

  after_users-Extended :
      (now : ℕ) (p : Session st.State × Option Error)
      → Extended w p.0
      → Extended w (after_users st now p)
  after_users-Extended now (s, none) x = append_notice-Extended s now x
  after_users-Extended now (s, some e) x = x

Extended-Paired :
    {S : Type 0} (w : List Message) (s : Session S) → Paired w → Extended w s → Paired (window s)
Extended-Paired w s p x = rw x.window_is (Paired-append w x.users p x.all_users)

module _ (st : SessionStore) where
  -- A repair that is reported leaves a paired window; where none is reported and the truncation did
  -- not fail, the window was paired as it was.
  abbrev pub Repaired : Session st.State → Session st.State × Bool × List Text → Type 0
  Repaired s (t, true, removed) = Paired (window t)
  Repaired s (t, false, removed) = removed ≡ []

  -- The session after the truncation of `repair_at`.
  module _ (s : Session st.State) (v : IsValid s) (l : s.loaded ≡ true) (c : ℕ)
      (g : GoodCut (window s) c) where
    truncated : Session st.State × Option Error
    truncated = truncate st s (pos (s.cursor + c))

    cut_inside : s.cursor + c < length s.messages
    cut_inside = omega (arith, g.inside, length-drop s.cursor s.messages, v.in_range)

    truncated-IsCut : IsCut (s.cursor + c) s truncated.0
    unfolding truncated
    truncated-IsCut =
        subst (λ t. IsCut (s.cursor + c) t (truncate st s (pos (s.cursor + c))).0)
          (ensure_loaded-loaded st s l)
          (truncate-IsCut st s (s.cursor + c) (
            subst (λ t. s.cursor + c < length t.messages) (sym (ensure_loaded-loaded st s l))
              cut_inside))

    truncated-Extended : Extended (take c (window s)) truncated.0
    truncated-Extended = record {
      is_loaded = truncated-IsCut.loaded_after ∙ l;
      valid =
          rw (truncated-IsCut.messages_after, cursor_same)
            (omega (arith, length-take (s.cursor + c) s.messages (omega (arith, cut_inside))));
      users = [];
      window_is =
          ap₂ drop cursor_same truncated-IsCut.messages_after
          ∙ drop-take s.cursor c s.messages
          ∙ sym (append-nil (take c (window s)));
      all_users = refl;
    }
      where
        cursor_same : truncated.0.cursor ≡ s.cursor
        cursor_same = truncated-IsCut.cursor_after ∙ ground arith

    after_truncate-Repaired :
        (now : ℕ) (bad : List Message) (p : Session st.State × Option Error)
        → Extended (take c (window s)) p.0
        → Repaired s (after_truncate st now bad p)
    after_truncate-Repaired now bad (t, some e) x = refl
    after_truncate-Repaired now bad (t, none) x = Extended-Paired (take c (window s)) _ g.paired (
        after_users-Extended st (take c (window s)) now (append_users st t (keep is_user bad))
          (append_users-Extended st (take c (window s)) t (keep is_user bad) x))

    cut-Repaired : (now : ℕ) → Repaired s (repair_at st s (window s) now (cut_at c))
    unfolding cursor_of truncated
    cut-Repaired now =
        subst
          (λ t.
            Repaired s
              (after_truncate st now (drop c (window s)) (truncate st t (pos (t.cursor + c)))))
          (sym (ensure_loaded-loaded st s l))
          (after_truncate-Repaired now (drop c (window s)) truncated truncated-Extended)

  repair_at-Repaired :
      (s : Session st.State) (now : ℕ) (o : Found)
      → IsValid s
      → s.loaded ≡ true
      → find_tool_pairing_break (window s) ≡ o
      → Repaired s (repair_at st s (window s) now o)
  repair_at-Repaired s now intact v l e = refl
  repair_at-Repaired s now out_of_fuel v l e = refl
  repair_at-Repaired s now (cut_at c) v l e =
      cut-Repaired s v l c (find_tool_pairing_break-GoodCut (window s) c e) now

  repair_tool_pairing_break-Repaired :
      (s : Session st.State) (now : ℕ)
      → IsValid (ensure_loaded st s)
      → Repaired (ensure_loaded st s) (repair_tool_pairing_break st s now)
  unfolding repair_tool_pairing_break
  repair_tool_pairing_break-Repaired s now v =
      subst
        (λ w.
          Repaired (ensure_loaded st s)
            (repair_at st (current st s).0 w now (find_tool_pairing_break w)))
        (sym (current-window st s))
        (subst
          (λ t. Repaired (ensure_loaded st s) (
            repair_at st t (window (ensure_loaded st s)) now
              (find_tool_pairing_break (window (ensure_loaded st s)))))
          (sym (current-session st s))
          (repair_at-Repaired (ensure_loaded st s) now
            (find_tool_pairing_break (window (ensure_loaded st s))) v (loaded-ensure_loaded st s)
            refl))

  -- When the repair of a session whose cursor lies in its history reports that it repaired, every
  -- assistant message of the window has all its tool calls answered by the tool messages right
  -- behind it, whatever the store did with the messages that were appended again.
  pub repair-Paired :
      (s : Session st.State) (now : ℕ)
      → IsValid (ensure_loaded st s)
      → (repair_tool_pairing_break st s now).1 ≡ true
      → Paired (window (repair_tool_pairing_break st s now).0)
  repair-Paired s now v h =
      from (repair_tool_pairing_break st s now) (repair_tool_pairing_break-Repaired s now v) h
    where
      from :
          (r : Session st.State × Bool × List Text)
          → Repaired (ensure_loaded st s) r
          → r.1 ≡ true
          → Paired (window r.0)
      from (t, true, removed) p k = p
      from (t, false, removed) p k = cc k
