-- ===== src/Tools/Diff/Laws.antt =====
-- tools/diffutil/diff.go: GenerateDiff and SumChanges as a whole.
use goharness.Prelude.{
  ◌+◌, ◌==◌, ◌≡◌, ◌↔◌, ◌&&◌, refl, ap, subst, true, List, [], ◌∷◌, ◌++◌, append_assoc, append-nil,
  some, inl, inr, Text, length, length-append, Bool-cases, arith,
}
use goharness.Tools.Lines.{lines, lines-inj}
use goharness.Tools.Diff.{
  ◌>>=◌, Hunk, closed, first_walk, build_unified_diff, generate_diff, sum_changes,
}
use goharness.Tools.Diff.Subseq.{Subseq-full}
use goharness.Tools.Diff.Lcs.{compute_lcs-Subseq, compute_lcs_self}
use goharness.Tools.Diff.Describes.{removals, additions, Describes, start, shared, hunk}
use goharness.Tools.Diff.OpenHunk.{closed-Describes}
use goharness.Tools.Diff.Loop.{walk-Walked}

Describes-shared :
    (ls : List Text) {hs : List Hunk} (old new : List Text)
    → Describes hs old new
    → Describes hs (old ++ ls) (new ++ ls)
Describes-shared [] old new d = rw (append-nil old, append-nil new) d
Describes-shared (l ∷ ls) {hs} old new d =
    subst (λ x. Describes hs x (new ++ l ∷ ls)) (append_assoc old (l ∷ []) ls)
      (subst (λ x. Describes hs ((old ++ l ∷ []) ++ ls) x) (append_assoc new (l ∷ []) ls)
        (Describes-shared ls (old ++ l ∷ []) (new ++ l ∷ []) (shared l d)))

snoc-ne-nil : (hs : List Hunk) (h : Hunk) → ¬ (hs ++ h ∷ [] ≡ [])
snoc-ne-nil [] h e = cc
snoc-ne-nil (x ∷ hs) h e = cc

Describes-nil : {hs : List Hunk} {old new : List Text} → Describes hs old new → hs ≡ [] → old ≡ new
Describes-nil start e = refl
Describes-nil (shared l d) e = ap (λ x. x ++ l ∷ []) (Describes-nil d e)
Describes-nil (hunk {hs} h es k d) e = absurd (snoc-ne-nil hs h e)

is_full :
    (l old new : List Text)
    → (length l == length old && length l == length new) ≡ true
    → (length l ≡ length old) × (length l ≡ length new)
is_full l old new h = ground arith

unchanged : (old : Text) → generate_diff old old ≡ some ([], [])
unfolding generate_diff
unchanged old =
    let e : (length (lines old) == length (lines old) && length (lines old) == length (lines old))
        ≡ true =
      ground arith in
    rw (compute_lcs_self (lines old), ◌>>=◌, e)

module _ (old new : Text) where
  pub generate_diff-Describes :
      (hs : List Hunk) × (text : Text) × (generate_diff old new ≡ some (hs, text))
      × Describes hs (lines old) (lines new)
  unfolding generate_diff
  generate_diff-Describes =
      let (l, e, (so, sn)) = compute_lcs-Subseq (lines old) (lines new) in
      rw (e, ◌>>=◌)
        (elim (Bool-cases (length l == length (lines old) && length l == length (lines new))) [
          | inl full ↦ rw full (
              let (lo, ln) = is_full l (lines old) (lines new) full in
              (
                [],
                [],
                refl,
                subst (λ x. Describes [] x (lines new)) (Subseq-full l (lines old) so lo)
                    (subst (λ x. Describes [] l x) (Subseq-full l (lines new) sn ln)
                      (Describes-shared l [] [] start)),
              ))
          | inr part ↦ rw part (
              let (w, f, k) =
                walk-Walked (lines old) (lines new) l first_walk [] [] so sn
                  (record { at_old = refl; at_new = refl; hunks = start }) in
              rw (f, ◌>>=◌)
                (
                  closed w.hunks w.current,
                  build_unified_diff (closed w.hunks w.current),
                  refl,
                  closed-Describes w.hunks w.current (lines old) (lines new) k.hunks,
                ))
        ])

  -- GenerateDiff reports no change exactly when the two contents are equal.
  pub generate_diff-nothing : (generate_diff old new ≡ some ([], [])) ↔ (old ≡ new)
  generate_diff-nothing = (λ e. told e, λ e. untold e)
    where
      told : generate_diff old new ≡ some ([], []) → old ≡ new
      told e =
          let (hs, text, f, d) = generate_diff-Describes in lines-inj old new (Describes-nil d (cc))

      untold : old ≡ new → generate_diff old new ≡ some ([], [])
      untold e = subst (λ x. generate_diff old x ≡ some ([], [])) e (unchanged old)

sum_changes-append :
    (hs : List Hunk) (h : Hunk)
    → ((sum_changes (hs ++ h ∷ [])).0 ≡ (sum_changes hs).0 + h.new_lines)
      × ((sum_changes (hs ++ h ∷ [])).1 ≡ (sum_changes hs).1 + h.old_lines)
unfolding sum_changes
sum_changes-append [] h = (omega arith, omega arith)
sum_changes-append (x ∷ hs) h =
    (omega (arith, sum_changes-append hs h), omega (arith, sum_changes-append hs h))

Describes-balance :
    {hs : List Hunk} {old new : List Text}
    → Describes hs old new
    → length old + (sum_changes hs).0 ≡ length new + (sum_changes hs).1
Describes-balance start = unfold sum_changes in refl
Describes-balance (shared {hs} {old} {new} l d) =
    omega (arith, length-append old (l ∷ []), length-append new (l ∷ []), Describes-balance d)
Describes-balance (hunk {hs} {old} {new} h es k d) = omega (
  arith,
  length-append old (removals es),
  length-append new (additions es),
  k.counts_old,
  k.counts_new,
  sum_changes-append hs h,
  Describes-balance d,
)

-- The counts of `SumChanges` account for the difference in lines.
pub generate_diff-balance :
    (old new : Text)
    → (hs : List Hunk) × (text : Text) × (generate_diff old new ≡ some (hs, text))
      × (length (lines old) + (sum_changes hs).0 ≡ length (lines new) + (sum_changes hs).1)
generate_diff-balance old new =
    let (hs, text, e, d) = generate_diff-Describes old new in (hs, text, e, Describes-balance d)
