-- ===== src/Session/Laws/Loading.antt =====
-- Lazy loading: it happens once, and it keeps the cursor inside the history.
use goharness.Prelude.{
  ◌≤◌, ◌≡◌, refl, sym, true, List, some, Text, length, drop-all, leb, inl, inr, Bool-cases,
  Option-cases, arith,
}
use goharness.Session.Message.{Message}
use goharness.Session.Store.{SessionStore}
use goharness.Session.State.{Session, IsValid, window, ensure_loaded, current}

-- The cursor that the store keeps lies inside the history that it keeps.
abbrev pub StoredInRange : (st : SessionStore) → st.State → Text → Type 0
StoredInRange st x id = (ms : List Message) → st.get x id ≡ some ms → st.get_cursor x id ≤ length ms

abbrev pub StoreInRange : (st : SessionStore) → Session st.State → Type 0
StoreInRange st s = (x : st.State) → s.store ≡ some x → StoredInRange st x s.id

module _ (st : SessionStore) where
  pub ensure_loaded-loaded : (s : Session st.State) → s.loaded ≡ true → ensure_loaded st s ≡ s
  unfolding ensure_loaded
  ensure_loaded-loaded s h = rw h refl

  pub loaded-ensure_loaded : (s : Session st.State) → (ensure_loaded st s).loaded ≡ true
  unfolding ensure_loaded
  loaded-ensure_loaded s = ground arith

  -- The second load is a no-op.
  pub ensure_loaded_idem :
      (s : Session st.State) → ensure_loaded st (ensure_loaded st s) ≡ ensure_loaded st s
  ensure_loaded_idem s = ensure_loaded-loaded (ensure_loaded st s) (loaded-ensure_loaded s)

  -- The lazy load leaves the cursor inside the history, when it was there before and the cursor
  -- of the store lies in the history of the store.
  pub ensure_loaded-IsValid :
      (s : Session st.State) → IsValid s → StoreInRange st s → IsValid (ensure_loaded st s)
  unfolding ensure_loaded
  ensure_loaded-IsValid s v r = elim (Option-cases s.store) [
    | inl e ↦ ground arith
    | inr (x, e) ↦ elim (Option-cases (st.get x s.id)) [
      | inl g ↦ ground arith
      | inr (ms, g) ↦ ground (arith, r x e ms g)
    ]
  ]

  -- `Current` is the window, and `Cursor` its start, of the loaded session.
  pub current-window : (s : Session st.State) → (current st s).1 ≡ window (ensure_loaded st s)
  unfolding current
  current-window s =
      elim (Bool-cases (leb (length (ensure_loaded st s).messages) (ensure_loaded st s).cursor)) [
        | inl h ↦ rw h (
            sym (drop-all (ensure_loaded st s).cursor (ensure_loaded st s).messages (ground arith)))
        | inr h ↦ rw h refl
      ]

  pub current-session : (s : Session st.State) → (current st s).0 ≡ ensure_loaded st s
  unfolding current
  current-session s = refl
