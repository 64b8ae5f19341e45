-- ===== src/Tools/Diff/Loop.antt =====
-- tools/diffutil/diff.go: the rounds of the loop of GenerateDiff.
use goharness.Prelude.{
  ◌≡◌, ◌≢◌, ◌∙◌, refl, sym, subst, true, false, List, [], ◌∷◌, ◌++◌, append_assoc, append-nil, some,
  inl, inr, Text, text_eq, text_eq-eq, text_eq_refl, length-append, Bool-cases, arith,
}
use goharness.Tools.Diff.{Walk, opened, share, delete, insert, walk, differs}
use goharness.Tools.Diff.Subseq.{Subseq, Subseq-match, Subseq-pass}
use goharness.Tools.Diff.Describes.{removed, added, shared}
use goharness.Tools.Diff.OpenHunk.{
  Walked, closed-Describes, opened-Split, length-snoc, deletion-Split, addition-Split,
}

share-Walked :
    (w : Walk) (old new : List Text) (l : Text)
    → Walked w old new
    → Walked (share w) (old ++ l ∷ []) (new ++ l ∷ [])
unfolding share
share-Walked w old new l k = record {
  at_old = omega (arith, k.at_old, length-append old (l ∷ []));
  at_new = omega (arith, k.at_new, length-append new (l ∷ []));
  hunks = shared l (closed-Describes w.hunks w.current old new k.hunks);
}

delete-Walked :
    (w : Walk) (old new : List Text) (l : Text)
    → Walked w old new
    → Walked (delete l w) (old ++ l ∷ []) new
unfolding delete
delete-Walked w old new l k =
    let (es, s) =
      opened-Split w.hunks w.current w.old_start w.new_start old new k.at_old k.at_new k.hunks in
    record {
      at_old = omega (arith, k.at_old, length-append old (l ∷ []));
      at_new = k.at_new;
      hunks = (
        es ++ removed l ∷ [],
        length-snoc es (removed l),
        deletion-Split w.hunks (opened w.old_start w.new_start w.current) es l old new s,
      );
    }

insert-Walked :
    (w : Walk) (old new : List Text) (l : Text)
    → Walked w old new
    → Walked (insert l w) old (new ++ l ∷ [])
unfolding insert
insert-Walked w old new l k =
    let (es, s) =
      opened-Split w.hunks w.current w.old_start w.new_start old new k.at_old k.at_new k.hunks in
    record {
      at_old = k.at_old;
      at_new = omega (arith, k.at_new, length-append new (l ∷ []));
      hunks = (
        es ++ added l ∷ [],
        length-snoc es (added l),
        addition-Split w.hunks (opened w.old_start w.new_start w.current) es l old new s,
      );
    }

apart : (x l : Text) → text_eq x l ≡ false → l ≢ x
apart x l h e = let same = subst (λ y. text_eq y l ≡ true) e (text_eq_refl l) in cc

-- The loop ends, with all lines behind it.
abbrev pub Ends : List Text → List Text → List Text → Walk → List Text → List Text → Type 0
Ends os ns ls w old new = (t : Walk) × (walk os ns ls w ≡ some t) × Walked t (old ++ os) (new ++ ns)

onward :
    (l : Text) (os : List Text) (P : List Text → Type 0) (old : List Text)
    → P ((old ++ l ∷ []) ++ os)
    → P (old ++ l ∷ os)
onward l os P old p = subst P (append_assoc old (l ∷ []) os) p

pub walk-Walked :
    (os ns ls : List Text) (w : Walk) (old new : List Text)
    → Subseq ls os
    → Subseq ls ns
    → Walked w old new
    → Ends os ns ls w old new
unfolding walk
walk-Walked [] [] ls w old new so sn k = (w, refl, rw (append-nil old, append-nil new) k)
walk-Walked (o ∷ os) [] [] w old new so sn k =
    let (t, e, r) =
      walk-Walked os [] [] (delete o w) (old ++ o ∷ []) new tt tt (delete-Walked w old new o k) in
    (t, e, onward o os (λ x. Walked t x (new ++ [])) old r)
walk-Walked (o ∷ os) [] (l ∷ ls) w old new so sn k = absurd sn
walk-Walked [] (n ∷ ns) [] w old new so sn k =
    let (t, e, r) =
      walk-Walked [] ns [] (insert n w) old (new ++ n ∷ []) tt tt (insert-Walked w old new n k) in
    (t, e, onward n ns (λ x. Walked t (old ++ []) x) new r)
walk-Walked [] (n ∷ ns) (l ∷ ls) w old new so sn k = absurd so
walk-Walked (o ∷ os) (n ∷ ns) [] w old new so sn k =
    let (t, e, r) =
      walk-Walked os (n ∷ ns) [] (delete o w) (old ++ o ∷ []) new tt tt
        (delete-Walked w old new o k) in
    (t, e, onward o os (λ x. Walked t x (new ++ n ∷ ns)) old r)
walk-Walked (o ∷ os) (n ∷ ns) (l ∷ ls) w old new so sn k = elim (Bool-cases (text_eq o l)) [
  | inl eo ↦ elim (Bool-cases (text_eq n l)) [
    | inl en ↦
        rw (walk, eo, en)
          (let same : o ≡ n = text_eq-eq o l eo ∙ sym (text_eq-eq n l en) in
            let (t, e, r) =
              walk-Walked os ns ls (share w) (old ++ o ∷ []) (new ++ n ∷ [])
                (Subseq-match l ls o os so) (Subseq-match l ls n ns sn)
                (subst (λ x. Walked (share w) (old ++ o ∷ []) (new ++ x ∷ [])) same
                  (share-Walked w old new o k)) in
            (
              t,
              e,
              onward o os (λ x. Walked t x (new ++ n ∷ ns)) old
                  (onward n ns (λ x. Walked t ((old ++ o ∷ []) ++ os) x) new r),
            ))
    | inr en ↦
        rw (walk, eo, en, differs, eo, differs, en)
          (let (t, e, r) =
              walk-Walked (o ∷ os) ns (l ∷ ls) (insert n w) old (new ++ n ∷ []) so
                (Subseq-pass l ls n ns (apart n l en) sn) (insert-Walked w old new n k) in
            (t, e, onward n ns (λ x. Walked t (old ++ o ∷ os) x) new r))
  ]
  | inr eo ↦
      rw (walk, eo, differs, eo)
        (let (t, e, r) =
            walk-Walked os (n ∷ ns) (l ∷ ls) (delete o w) (old ++ o ∷ []) new
              (Subseq-pass l ls o os (apart o l eo) so) sn (delete-Walked w old new o k) in
          (t, e, onward o os (λ x. Walked t x (new ++ n ∷ ns)) old r))
]
