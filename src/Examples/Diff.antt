-- ===== src/Examples/Diff.antt =====
-- The line diff on small contents.
use goharness.Prelude.{◌≡◌, ◌↔◌, refl, List, [], ◌∷◌, some, Text, codes}
use goharness.Tools.Lines.{lines}
use goharness.Tools.Diff.{compute_lcs, generate_diff}
use goharness.Tools.Diff.Subseq.{Subseq}
use goharness.Tools.Diff.Lcs.{compute_lcs-Subseq}
use goharness.Tools.Diff.Describes.{Describes}
use goharness.Tools.Diff.Laws.{generate_diff-nothing}

abbrev before : Text
before = codes "a\nb\nc"

abbrev after : Text
after = codes "a\nx\nc"

change_of_one_line :
    generate_diff before after
    ≡ some (
      record {
        old_start = 2;
        old_lines = 1;
        new_start = 2;
        new_lines = 1;
        content = codes "-b\n+x";
      }
          ∷ [],
      codes "@@ -2,1 +2,1 @@\n-b\n+x\n",
    )
unfolding generate_diff
change_of_one_line = refl

-- The walk back over the table misses the longer subsequence "a", "c".
misses_longest :
    compute_lcs (codes "a" ∷ codes "b" ∷ codes "c" ∷ []) (codes "c" ∷ codes "a" ∷ codes "c" ∷ [])
    ≡ some (codes "c" ∷ [])
unfolding compute_lcs
misses_longest = refl

compute_lcs-Subseq_example :
    (l : List Text) × (compute_lcs (lines before) (lines after) ≡ some l)
    × (Subseq l (lines before) × Subseq l (lines after))
compute_lcs-Subseq_example = compute_lcs-Subseq (lines before) (lines after)

generate_diff-nothing_example : (generate_diff before after ≡ some ([], [])) ↔ (before ≡ after)
generate_diff-nothing_example = generate_diff-nothing before after
