-- ===== src/Session/Laws/Truncate.antt =====
-- Truncate and Reset: what is left of the history, where the cursor goes, and when memory changes.
use goharness.Prelude.{
  ℕ, ◌<◌, ◌≡◌, [], Option, none, some, take, length, length-take, leb, ltb, if◌then◌else◌, inl, inr,
  Bool-cases, arith, ℤ, pos, negsuc,
}
use goharness.Session.Store.{SessionStore}
use goharness.Session.State.{Session, IsValid, ensure_loaded}
use goharness.Session.Error.{Error}
use goharness.Session.Truncate.{cut, truncate, reset}
use goharness.Session.Laws.Loading.{StoreInRange, ensure_loaded-IsValid}

-- What is left in memory: the first `n` messages, and the cursor no further than there.
pub record IsCut {S : Type 0} (n : ℕ) (before after : Session S) : Type 0 where
  pub messages_after : after.messages ≡ take n before.messages
  pub cursor_after : after.cursor ≡ (if ltb n before.cursor then n else before.cursor)
  pub id_after : after.id ≡ before.id
  pub loaded_after : after.loaded ≡ before.loaded

module _ (st : SessionStore) where
  pub cut-IsCut : (n : ℕ) (s : Session st.State) → IsCut n s (cut st n s).0
  unfolding cut
  cut-IsCut n s = ground arith

  -- Truncate to a count below the length of the history keeps the first messages of that count
  -- and moves the cursor back to the count if it stood behind it, in memory also where the store
  -- reports an error.
  pub truncate-IsCut :
      (s : Session st.State) (n : ℕ)
      → n < length (ensure_loaded st s).messages
      → IsCut n (ensure_loaded st s) (truncate st s (pos n)).0
  unfolding truncate
  truncate-IsCut s n h = elim (Bool-cases (leb (length (ensure_loaded st s).messages) n)) [
    | inl e ↦ absurd (ground arith)
    | inr e ↦ rw e (cut-IsCut n (ensure_loaded st s))
  ]

  IsCut-IsValid :
      (n : ℕ) (s t : Session st.State) → n < length s.messages → IsCut n s t → IsValid s → IsValid t
  IsCut-IsValid n s t h c v = record {
    in_range =
        rw (c.messages_after, c.cursor_after, length-take n s.messages (omega arith))
          (ground arith);
  }

  -- Truncate, also with a negative count, keeps the cursor inside the history, when it was there
  -- and the cursor of the store lies in the history of the store.
  pub truncate-IsValid :
      (s : Session st.State) (n : ℤ) → IsValid s → StoreInRange st s → IsValid (truncate st s n).0
  unfolding truncate
  truncate-IsValid s (negsuc n) v r = ensure_loaded-IsValid st s v r
  truncate-IsValid s (pos n) v r =
      elim (Bool-cases (leb (length (ensure_loaded st s).messages) n)) [
        | inl e ↦ rw e (ensure_loaded-IsValid st s v r)
        | inr e ↦ rw e (
            IsCut-IsValid n (ensure_loaded st s) (cut st n (ensure_loaded st s)).0 (ground arith)
              (cut-IsCut n (ensure_loaded st s)) (ensure_loaded-IsValid st s v r))
      ]

  -- Reset empties the session, or reports an error and leaves the memory as it was.
  abbrev pub Resets : Session st.State → Session st.State × Option Error → Type 0
  Resets s (t, none) = (t.messages ≡ []) × (t.cursor ≡ 0)
  Resets s (t, some e) = (t.messages ≡ s.messages) × (t.cursor ≡ s.cursor)

  -- Reset empties the history and puts the cursor to 0, or it returns an error and leaves the
  -- memory as it was.
  pub reset-Resets : (s : Session st.State) → Resets s (reset st s)
  unfolding reset
  reset-Resets s = ground arith
