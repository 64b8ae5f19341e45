-- ===== src/Tools/Diff/Lcs.antt =====
-- tools/diffutil/diff.go: the rows of computeLCS and the walk back over them.
use goharness.Prelude.{
  ℕ, zero, suc, ◌+◌, ◌-◌, ◌≤◌, ◌==◌, ◌≡◌, refl, sym, ap, subst, ◌||◌, false, List, [], ◌∷◌, Option,
  some, inl, inr, Text, text_eq, text_eq-eq, text_eq_refl, length, drop, drop-all, leb, Bool-cases,
  arith,
}
use goharness.Tools.Diff.{◌>>=◌, set, max, zeros, for, fill_cell, fill_row, backtrack, compute_lcs}
use goharness.Tools.Diff.Subseq.{
  Subseq, Subseq-grow, Subseq-back, Subseq-front, get_elem?-some, drop-get_elem?,
}

abbrev IsRow : List Text → List ℕ → Type 0
IsRow b row = length row ≡ length b + 1

set-some :
    (xs : List ℕ) (j v : ℕ)
    → suc j ≤ length xs
    → (ys : List ℕ) × (set xs j v ≡ some ys) × (length ys ≡ length xs)
unfolding set
set-some [] j v h = absurd (omega arith)
set-some (x ∷ xs) zero v h = (v ∷ xs, refl, refl)
set-some (x ∷ xs) (suc j) v h =
    let (ys, e, l) = set-some xs j v (omega arith) in
    (x ∷ ys, ap (λ o. o >>= λ ys. some (x ∷ ys)) e, ap suc l)

length-zeros : (n : ℕ) → length (zeros n) ≡ n
length-zeros zero = refl
length-zeros (suc n) = ap suc (length-zeros n)

-- A counted loop whose rounds keep an invariant ends in a state that has it.
for-some {ℓ κ} :
    {S : Type ℓ} (P : S → Type κ) (body : ℕ → S → Option S) (top : ℕ)
    → ((i : ℕ) (s : S) → 1 ≤ i → i ≤ top → P s → (t : S) × (body i s ≡ some t) × P t)
    → (n i : ℕ) (s : S) → 1 ≤ i
    → i + n ≤ top + 1
    → P s
    → (t : S) × (for n i body s ≡ some t) × P t
unfolding for
for-some P body top keep zero i s lo hi p = (s, refl, p)
for-some P body top keep (suc n) i s lo hi p =
    let (t, e, q) = keep i s lo (omega arith) p in
    let (u, f, r) = for-some P body top keep n (i + 1) t (omega arith) (omega arith) q in
    (u, rw e f, r)

module _ (a b : List Text) where
  cell-some :
      (i : ℕ) (prev : List ℕ)
      → 1 ≤ i
      → i ≤ length a
      → IsRow b prev
      → (j : ℕ) (curr : List ℕ) → 1 ≤ j
      → j ≤ length b
      → IsRow b curr
      → (next : List ℕ) × (fill_cell a b i prev j curr ≡ some next) × IsRow b next
  unfolding fill_cell
  cell-some i prev ilo ihi row j curr jlo jhi ok =
      let (x, ex) = get_elem?-some (i - 1) a (omega arith) in
      let (y, ey) = get_elem?-some (j - 1) b (omega arith) in
      let (d, ed) = get_elem?-some (j - 1) prev (omega arith) in
      let (u, eu) = get_elem?-some j prev (omega arith) in
      let (l, el) = get_elem?-some (j - 1) curr (omega arith) in
      rw (ex, ey)
        (elim (Bool-cases (text_eq x y)) [
          | inl e ↦ rw (e, ed) (written curr j (d + 1) jhi ok)
          | inr e ↦ rw (e, eu, el) (written curr j (max u l) jhi ok)
        ])
    where
      written :
          (curr : List ℕ) (j v : ℕ)
          → j ≤ length b
          → IsRow b curr
          → (next : List ℕ) × (set curr j v ≡ some next) × IsRow b next
      written curr j v h ok =
          let (ys, e, l) = set-some curr j v (omega arith) in (ys, e, omega arith)

  IsRow-some :
      (i : ℕ) (rows : List ℕ × List ℕ)
      → 1 ≤ i
      → i ≤ length a
      → IsRow b rows.0 × IsRow b rows.1
      → (next : List ℕ × List ℕ) × (fill_row a b i rows ≡ some next)
        × (IsRow b next.0 × IsRow b next.1)
  unfolding fill_row
  IsRow-some i (prev, curr) lo hi (p, c) =
      let (filled, e, q) =
        for-some (IsRow b) (fill_cell a b i prev) (length b) (cell-some i prev lo hi p) (length b) 1
          curr (omega arith) (omega arith) c in
      ((filled, prev), rw e, (q, p))

  Common : List Text → Type 0
  Common l = Subseq l a × Subseq l b

  -- The walk back ends with a common subsequence of what it passed.
  backtrack-Common :
      (prev curr : List ℕ)
      → IsRow b prev
      → IsRow b curr
      → (i j : ℕ) (lcs : List Text) → i ≤ length a
      → j ≤ length b
      → Subseq lcs (drop i a)
      → Subseq lcs (drop j b)
      → (r : List Text) × (backtrack a b prev curr i j lcs ≡ some r) × Common r
  unfolding backtrack Common
  backtrack-Common prev curr p c zero j lcs hi hj sa sb =
      (lcs, refl, (Subseq-front lcs zero a sa, Subseq-front lcs j b sb))
  backtrack-Common prev curr p c (suc i) zero lcs hi hj sa sb =
      (lcs, refl, (Subseq-front lcs (suc i) a sa, Subseq-front lcs zero b sb))
  backtrack-Common prev curr p c (suc i) (suc j) lcs hi hj sa sb =
      let (x, ex) = get_elem?-some i a hi in
      let (y, ey) = get_elem?-some j b hj in
      let (d, ed) = get_elem?-some j prev (omega arith) in
      let (u, eu) = get_elem?-some (suc j) curr (omega arith) in
      rw (ex, ◌>>=◌, ey, ◌>>=◌)
        (elim (Bool-cases (text_eq x y)) [
          | inl e ↦ rw e (
              backtrack-Common prev curr p c i j (x ∷ lcs) (omega arith) (omega arith)
                (Subseq-grow lcs i a x ex sa)
                (subst (λ k. Subseq (k ∷ lcs) (drop j b)) (sym (text_eq-eq x y e))
                  (Subseq-grow lcs j b y ey sb)))
          | inr e ↦
              rw (e, ed, ◌>>=◌, eu, ◌>>=◌)
                (elim (Bool-cases (leb u d)) [
                  | inl t ↦ rw t (
                      backtrack-Common prev curr p c (suc i) j lcs hi (omega arith) sa
                        (Subseq-back lcs j b y ey sb))
                  | inr t ↦ rw t (
                      backtrack-Common prev curr p c i (suc j) lcs (omega arith) hj
                        (Subseq-back lcs i a x ex sa) sb)
                ])
        ])

  IsRow-zeros : IsRow b (zeros (length b + 1))
  IsRow-zeros = length-zeros (length b + 1)

  -- The table is filled without an index out of range.
  rows-some :
      (rows : List ℕ × List ℕ) × (for
          (length a)
          1
          (fill_row a b)
          (zeros (length b + 1), zeros (length b + 1))
        ≡ some rows)
      × (IsRow b rows.0 × IsRow b rows.1)
  rows-some =
      for-some (λ (r : List ℕ × List ℕ). IsRow b r.0 × IsRow b r.1) (fill_row a b) (length a)
        (λ i r lo hi q. IsRow-some i r lo hi q) (length a) 1
        (zeros (length b + 1), zeros (length b + 1)) (omega arith) (omega arith)
        (IsRow-zeros, IsRow-zeros)

  -- computeLCS returns for any two lists of lines, with every index in its range, and its result
  -- is a subsequence of both.
  pub compute_lcs-Subseq : (l : List Text) × (compute_lcs a b ≡ some l) × (Subseq l a × Subseq l b)
  unfolding compute_lcs Common
  compute_lcs-Subseq = elim (Bool-cases (length a == 0 || length b == 0)) [
    | inl e ↦ rw e ([], refl, (tt, tt))
    | inr e ↦ rw e (
        let (rows, f, (p, c)) = rows-some in
        rw f (
          backtrack-Common rows.0 rows.1 p c (length a) (length b) [] (omega arith) (omega arith) tt
            tt))
  ]

-- The walk back over equal contents follows the diagonal.
backtrack_self :
    (a : List Text) (prev curr : List ℕ) (i : ℕ)
    → i ≤ length a
    → backtrack a a prev curr i i (drop i a) ≡ some a
unfolding backtrack
backtrack_self a prev curr zero h = refl
backtrack_self a prev curr (suc i) h =
    let (x, ex) = get_elem?-some i a h in
    rw (ex, ◌>>=◌, text_eq_refl x)
      (subst (λ l. backtrack a a prev curr i i l ≡ some a) (drop-get_elem? i a x ex)
        (backtrack_self a prev curr i (omega arith)))

-- Equal contents share every line.
pub compute_lcs_self : (a : List Text) → compute_lcs a a ≡ some a
unfolding compute_lcs
compute_lcs_self [] = refl
compute_lcs_self (x ∷ xs) =
    let a = x ∷ xs in
    let (rows, f, _) = rows-some a a in
    let e : (length a == 0 || length a == 0) ≡ false = ground arith in
    rw (e, f)
      (subst (λ l. backtrack a a rows.0 rows.1 (length a) (length a) l ≡ some a)
        (drop-all (length a) a (omega arith))
        (backtrack_self a rows.0 rows.1 (length a) (omega arith)))
