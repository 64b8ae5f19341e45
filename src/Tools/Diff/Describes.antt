-- ===== src/Tools/Diff/Describes.antt =====
-- What a list of hunks says: how the new lines come from the old ones.
use goharness.Prelude.{ℕ, ◌+◌, ◌≤◌, ◌≡◌, List, [], ◌∷◌, ◌++◌, Text, length, map}
use goharness.Tools.Lines.{unlines}
use goharness.Tools.Diff.{Hunk}

-- One line of a hunk.
pub data Edit : Type 0 where
  removed added : Text → Edit

abbrev pub edit_line : Edit → Text
edit_line (removed l) = b'-' ∷ l
edit_line (added l) = b'+' ∷ l

abbrev pub removals : List Edit → List Text
removals [] = []
removals (removed l ∷ es) = l ∷ removals es
removals (added l ∷ es) = removals es

abbrev pub additions : List Edit → List Text
additions [] = []
additions (removed l ∷ es) = additions es
additions (added l ∷ es) = l ∷ additions es

-- The hunk that stands behind `o` old and `n` new lines and holds these edits, at least one.
pub record IsHunk (o n : ℕ) (es : List Edit) (h : Hunk) : Type 0 where
  pub holds : 1 ≤ length es
  pub starts_old : h.old_start ≡ o + 1
  pub starts_new : h.new_start ≡ n + 1
  pub counts_old : h.old_lines ≡ length (removals es)
  pub counts_new : h.new_lines ≡ length (additions es)
  pub text : h.content ≡ unlines (map edit_line es)

-- `Describes hs old new`: lines are shared but where a hunk, at its own place in both contents,
-- removes and adds lines.
pub data Describes : List Hunk → List Text → List Text → Type 0 where
  start : Describes [] [] []
  shared :
      {hs : List Hunk} {old new : List Text} (l : Text)
      → Describes hs old new
      → Describes hs (old ++ l ∷ []) (new ++ l ∷ [])
  hunk :
      {hs : List Hunk} {old new : List Text} (h : Hunk) (es : List Edit)
      → IsHunk (length old) (length new) es h
      → Describes hs old new
      → Describes (hs ++ h ∷ []) (old ++ removals es) (new ++ additions es)
