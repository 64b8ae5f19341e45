-- ===== src/Tools/Diff/OpenHunk.antt =====
-- tools/diffutil/diff.go: the hunk that GenerateDiff is writing.
use goharness.Prelude.{
  ℕ, ◌+◌, ◌≤◌, ◌≡◌, ◌∙◌, refl, sym, ap, List, [], ◌∷◌, ◌++◌, append_assoc, append-nil, Option, none,
  some, Text, length, length-append, map, arith,
}
use goharness.Tools.Lines.{line_feed, unlines, trim_line_feed}
use goharness.Tools.Diff.{
  Hunk, Walk, closed, opened, with_deletion, with_addition, trimmed, each_line,
}
use goharness.Tools.Diff.Describes.{
  Edit, removed, added, edit_line, removals, additions, Describes, hunk,
}

each_line-append : (ls ms : List Text) → each_line (ls ++ ms) ≡ each_line ls ++ each_line ms
unfolding each_line
each_line-append [] ms = refl
each_line-append (l ∷ ls) ms =
    ap (λ t. l ++ line_feed ∷ t) (each_line-append ls ms)
    ∙ sym (append_assoc l (line_feed ∷ each_line ls) (each_line ms))

trim-snoc : (s : Text) → trim_line_feed (s ++ line_feed ∷ []) ≡ s
unfolding trim_line_feed
trim-snoc [] = refl
trim-snoc (c ∷ []) = refl
trim-snoc (c ∷ d ∷ s) = ap (◌∷◌ c) (trim-snoc (d ∷ s))

each_line-unlines :
    (l : Text) (ls : List Text) → each_line (l ∷ ls) ≡ unlines (l ∷ ls) ++ line_feed ∷ []
unfolding each_line unlines
each_line-unlines l [] = refl
each_line-unlines l (m ∷ ls) =
    ap (λ t. l ++ line_feed ∷ t) (each_line-unlines m ls)
    ∙ sym (append_assoc l (line_feed ∷ unlines (m ∷ ls)) (line_feed ∷ []))

trim-each_line :
    (es : List Edit)
    → 1 ≤ length es
    → trim_line_feed (each_line (map edit_line es)) ≡ unlines (map edit_line es)
trim-each_line [] h = absurd (omega arith)
trim-each_line (e ∷ es) h =
    ap trim_line_feed (each_line-unlines (edit_line e) (map edit_line es))
    ∙ trim-snoc (unlines (edit_line e ∷ map edit_line es))

map-snoc :
    (es : List Edit) (e : Edit)
    → map edit_line (es ++ e ∷ []) ≡ map edit_line es ++ edit_line e ∷ []
map-snoc [] e = refl
map-snoc (x ∷ es) e = ap (◌∷◌ (edit_line x)) (map-snoc es e)

removals-append : (es fs : List Edit) → removals (es ++ fs) ≡ removals es ++ removals fs
removals-append [] fs = refl
removals-append (removed l ∷ es) fs = ap (◌∷◌ l) (removals-append es fs)
removals-append (added l ∷ es) fs = removals-append es fs

additions-append : (es fs : List Edit) → additions (es ++ fs) ≡ additions es ++ additions fs
additions-append [] fs = refl
additions-append (removed l ∷ es) fs = additions-append es fs
additions-append (added l ∷ es) fs = ap (◌∷◌ l) (additions-append es fs)

-- A hunk that is being written: each line of its content still has its line feed.
pub record IsOpen (o n : ℕ) (es : List Edit) (h : Hunk) : Type 0 where
  starts_old : h.old_start ≡ o + 1
  starts_new : h.new_start ≡ n + 1
  pub counts_old : h.old_lines ≡ length (removals es)
  pub counts_new : h.new_lines ≡ length (additions es)
  pub text : h.content ≡ each_line (map edit_line es)

-- The hunks closed so far describe a part of what was walked, the open hunk the rest.
abbrev Split : List Hunk → Hunk → List Edit → List Text → List Text → Type 0
Split hs h es old new =
    (o n : List Text) × Describes hs o n
    × IsOpen (length o) (length n) es h
    × (old ≡ o ++ removals es)
    × (new ≡ n ++ additions es)

abbrev Current : List Hunk → Option Hunk → List Text → List Text → Type 0
Current hs none old new = Describes hs old new
Current hs (some h) old new = (es : List Edit) × (1 ≤ length es) × Split hs h es old new

-- The invariant of the loop: `old` and `new` are the lines behind it.
pub record Walked (w : Walk) (old new : List Text) : Type 0 where
  pub at_old : w.old_start ≡ length old + 1
  pub at_new : w.new_start ≡ length new + 1
  pub hunks : Current w.hunks w.current old new

pub closed-Describes :
    (hs : List Hunk) (c : Option Hunk) (old new : List Text)
    → Current hs c old new
    → Describes (closed hs c) old new
closed-Describes hs none old new d = d
closed-Describes hs (some h) old new (es, some_edit, (o, n, d, open_h, eo, en)) =
    rw (eo, en)
      (hunk (trimmed h) es
        (record {
          holds = some_edit;
          starts_old = open_h.starts_old;
          starts_new = open_h.starts_new;
          counts_old = open_h.counts_old;
          counts_new = open_h.counts_new;
          text = ap trim_line_feed open_h.text ∙ trim-each_line es some_edit;
        })
        d)

pub opened-Split :
    (hs : List Hunk) (c : Option Hunk) (o n : ℕ) (old new : List Text)
    → o ≡ length old + 1
    → n ≡ length new + 1
    → Current hs c old new
    → (es : List Edit) × Split hs (opened o n c) es old new
unfolding each_line
opened-Split hs none o n old new eo en d = (
  [],
  (
    old,
    new,
    d,
    record { starts_old = eo; starts_new = en; counts_old = refl; counts_new = refl; text = refl },
    sym (append-nil old),
    sym (append-nil new),
  ),
)
opened-Split hs (some h) o n old new eo en (es, _, s) = (es, s)

pub length-snoc : (es : List Edit) (e : Edit) → 1 ≤ length (es ++ e ∷ [])
length-snoc es e = omega (arith, length-append es (e ∷ []))

text-snoc :
    (es : List Edit) (e : Edit) (content : Text)
    → content ≡ each_line (map edit_line es)
    → content ++ (edit_line e ++ line_feed ∷ []) ≡ each_line (map edit_line (es ++ e ∷ []))
unfolding each_line
text-snoc es e content h =
    rw (map-snoc es e, each_line-append (map edit_line es) (edit_line e ∷ []), h) refl

pub deletion-Split :
    (hs : List Hunk) (h : Hunk) (es : List Edit) (l : Text) (old new : List Text)
    → Split hs h es old new
    → Split hs (with_deletion l h) (es ++ removed l ∷ []) (old ++ l ∷ []) new
deletion-Split hs h es l old new (o, n, d, k, eo, en) = (
  o,
  n,
  d,
  record {
    starts_old = k.starts_old;
    starts_new = k.starts_new;
    counts_old =
        rw (removals-append es (removed l ∷ []))
          (omega (arith, k.counts_old, length-append (removals es) (l ∷ [])));
    counts_new = rw (additions-append es (removed l ∷ []), append-nil (additions es)) k.counts_new;
    text = text-snoc es (removed l) h.content k.text;
  },
  rw (eo, removals-append es (removed l ∷ [])) (append_assoc o (removals es) (l ∷ [])),
  rw (additions-append es (removed l ∷ []), append-nil (additions es)) en,
)

pub addition-Split :
    (hs : List Hunk) (h : Hunk) (es : List Edit) (l : Text) (old new : List Text)
    → Split hs h es old new
    → Split hs (with_addition l h) (es ++ added l ∷ []) old (new ++ l ∷ [])
addition-Split hs h es l old new (o, n, d, k, eo, en) = (
  o,
  n,
  d,
  record {
    starts_old = k.starts_old;
    starts_new = k.starts_new;
    counts_old = rw (removals-append es (added l ∷ []), append-nil (removals es)) k.counts_old;
    counts_new =
        rw (additions-append es (added l ∷ []))
          (omega (arith, k.counts_new, length-append (additions es) (l ∷ [])));
    text = text-snoc es (added l) h.content k.text;
  },
  rw (removals-append es (added l ∷ []), append-nil (removals es)) eo,
  rw (en, additions-append es (added l ∷ [])) (append_assoc n (additions es) (l ∷ [])),
)
