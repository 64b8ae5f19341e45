-- ===== src/Tools/StaleState/Laws.antt =====
-- The table stays bounded, and a check compares with the last read.
use goharness.Prelude.{
  ℕ, ◌+◌, ◌≤◌, ◌==◌, ==_iff, ◌≡◌, ◌↔◌, ◌⊎◌, inl, inr, refl, sym, subst, List, [], ◌∷◌, Option, none,
  some, Text, text_eq, text_eq_refl, text_eq_iff, text_eq-eq, ltb, length, Bool-cases, arith,
}
use goharness.Tools.StaleState.{
  StaleState, Table, max_stale_entries, load, store, delete, mtime_or, make_room, set_stale, fresh,
  compare_content, check_loaded, check_stale, delete_stale, Reachable, empty, set, checked, deleted,
}

load-store :
    (path : Text) (s : StaleState) (es : List (Text × StaleState))
    → load path (store path s es) ≡ some s
unfolding load store
load-store path s [] = rw (text_eq_refl path) refl
load-store path s ((p, t) ∷ es) = elim (Bool-cases (text_eq p path)) [
  | inl e ↦ rw (store, e, text_eq_refl path) refl
  | inr e ↦ rw (store, e, e) (load-store path s es)
]

length-store :
    (path : Text) (s : StaleState) (es : List (Text × StaleState))
    → length (store path s es) ≤ length es + 1
unfolding store
length-store path s [] = omega arith
length-store path s ((p, t) ∷ es) = ground (arith, length-store path s es)

-- A loaded path is stored again without a new entry.
length-store_loaded :
    (path : Text) (s r : StaleState) (es : List (Text × StaleState))
    → load path es ≡ some r
    → length (store path s es) ≡ length es
unfolding store load
length-store_loaded path s r [] e = absurd (cc e)
length-store_loaded path s r ((p, t) ∷ es) e = elim (Bool-cases (text_eq p path)) [
  | inl q ↦ rw q refl
  | inr q ↦ let k = length-store_loaded path s r es (ground arith) in rw q (omega (arith, k))
]

length-delete : (path : Text) (es : List (Text × StaleState)) → length (delete path es) ≤ length es
unfolding delete
length-delete path [] = omega arith
length-delete path ((p, t) ∷ es) = ground (arith, length-delete path es)

pub record IsBounded (t : Table) : Type 0 where
  pub counted : length t.entries ≤ t.count
  pub limited : t.count ≤ max_stale_entries

-- The counter after room was made has a place for one more entry.
make_room-IsBounded :
    (t : Table)
    → IsBounded t
    → (length (make_room t).entries + 1 ≤ (make_room t).count)
      × ((make_room t).count ≤ max_stale_entries)
unfolding make_room
make_room-IsBounded t b = elim (Bool-cases (ltb max_stale_entries (t.count + 1))) [
  | inl e ↦ rw e (omega arith, omega arith)
  | inr e ↦ rw e (omega (arith, b.counted), ground arith)
]

set_stale-IsBounded :
    (hash : Text → Text) (t : Table) (path : Text) (read_at : ℕ) (mtime : Option ℕ) (content : Text)
    → IsBounded t
    → IsBounded (set_stale hash t path read_at mtime content)
unfolding set_stale
set_stale-IsBounded hash t path read_at mtime content b =
    let (c, l) = make_room-IsBounded t b in
    record { counted = omega (arith, c, length-store path _ (make_room t).entries); limited = l }

content-IsBounded :
    (hash : Text → Text) (t : Table) (path : Text) (s : StaleState) (mtime : ℕ)
    (content : Option Text)
    → load path t.entries ≡ some s
    → IsBounded t
    → IsBounded (compare_content hash t path s mtime content).0
content-IsBounded hash t path s mtime none e b = b
content-IsBounded hash t path s mtime (some content) e b =
    elim (Bool-cases (text_eq (hash content) s.content_hash)) [
      | inl q ↦ rw q (record {
        counted = omega (
          arith,
          b.counted,
          length-store_loaded path (record s { mtime_ms = mtime }) s t.entries e,
        );
        limited = b.limited;
      })
      | inr q ↦ rw q b
    ]

loaded-IsBounded :
    (hash : Text → Text) (t : Table) (path : Text) (o : Option StaleState) (mtime : Option ℕ)
    (content : Option Text)
    → load path t.entries ≡ o
    → IsBounded t
    → IsBounded (check_loaded hash t path o mtime content).0
loaded-IsBounded hash t path none mtime content e b = b
loaded-IsBounded hash t path (some s) none content e b = b
loaded-IsBounded hash t path (some s) (some m) content e b = elim (Bool-cases (m == s.mtime_ms)) [
  | inl q ↦ rw q b
  | inr q ↦ rw q (content-IsBounded hash t path s m content e b)
]

check_stale-IsBounded :
    (hash : Text → Text) (t : Table) (path : Text) (mtime : Option ℕ) (content : Option Text)
    → IsBounded t
    → IsBounded (check_stale hash t path mtime content).0
unfolding check_stale
check_stale-IsBounded hash t path mtime content b =
    loaded-IsBounded hash t path (load path t.entries) mtime content refl b

delete_stale-IsBounded : (t : Table) (path : Text) → IsBounded t → IsBounded (delete_stale t path)
unfolding delete_stale
delete_stale-IsBounded t path b = record {
  counted = omega (arith, b.counted, length-delete path t.entries);
  limited = b.limited;
}

-- After any sequence of SetStale, CheckStale and DeleteStale the table has at most as many
-- entries as its counter says, and the counter is at most 256.
pub Reachable-IsBounded : (hash : Text → Text) (t : Table) → Reachable hash t → IsBounded t
Reachable-IsBounded hash t empty = record { counted = omega arith; limited = omega arith }
Reachable-IsBounded hash t (set {t = u} path read_at mtime content r) =
    set_stale-IsBounded hash u path read_at mtime content (Reachable-IsBounded hash u r)
Reachable-IsBounded hash t (checked {t = u} path mtime content r) =
    check_stale-IsBounded hash u path mtime content (Reachable-IsBounded hash u r)
Reachable-IsBounded hash t (deleted {t = u} path r) =
    delete_stale-IsBounded u path (Reachable-IsBounded hash u r)

times-fresh :
    (hash : Text → Text) (t : Table) (path : Text) (s : StaleState) (m : ℕ) (c : Text)
    → ((check_loaded hash t path (some s) (some m) (some c)).1 ≡ fresh)
      ↔ ((m ≡ s.mtime_ms) ⊎ (hash c ≡ s.content_hash))
times-fresh hash t path s m c = elim (Bool-cases (m == s.mtime_ms)) [
  | inl q ↦ rw q (λ h. inl ((==_iff m s.mtime_ms).0 q), λ h. refl)
  | inr q ↦ elim (Bool-cases (text_eq (hash c) s.content_hash)) [
    | inl k ↦ rw (q, k) (λ h. inr (text_eq-eq (hash c) s.content_hash k), λ h. refl)
    | inr k ↦
        rw (q, k)
          (
            λ h. absurd (cc h),
            λ h. elim h [
              | inl e ↦ absurd (cc ((==_iff m s.mtime_ms).1 e, q))
              | inr e ↦ absurd (cc ((text_eq_iff (hash c) s.content_hash).1 e, k))
            ],
          )
  ]
]

-- After SetStale of a path, CheckStale of a file that exists and can be read finds it fresh
-- exactly when its modification time is the recorded one, which is the time of the read where the
-- file could not be examined, or its content has the recorded hash.
pub check_stale-set_stale :
    (hash : Text → Text) (t : Table) (path : Text) (read_at : ℕ) (mtime : Option ℕ) (content : Text)
    (m : ℕ) (c : Text)
    → ((check_stale hash (set_stale hash t path read_at mtime content) path (some m) (some c)).1
        ≡ fresh)
      ↔ ((m ≡ mtime_or read_at mtime) ⊎ (hash c ≡ hash content))
unfolding check_stale set_stale
check_stale-set_stale hash t path read_at mtime content m c =
    let s : StaleState = record {
      path = path;
      read_at = read_at;
      mtime_ms = mtime_or read_at mtime;
      content_hash = hash content;
    } in
    let u = set_stale hash t path read_at mtime content in
    subst
      (λ o.
        ((check_loaded hash u path o (some m) (some c)).1 ≡ fresh)
        ↔ ((m ≡ mtime_or read_at mtime) ⊎ (hash c ≡ hash content)))
      (sym (load-store path s (make_room t).entries)) (times-fresh hash u path s m c)
