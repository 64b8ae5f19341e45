-- ===== src/Tools/Diff.antt =====
-- tools/diffutil/diff.go: the line diff of two contents. `none` is a run that does not return: an
-- index out of range, or a round of the loop that moves nothing and so repeats for ever.
pub mod Subseq
pub mod Lcs
pub mod Describes
pub mod OpenHunk
pub mod Loop
pub mod Laws
use goharness.Prelude.{
  ℕ, zero, suc, ◌+◌, ◌-◌, ◌==◌, Bool, true, false, not, ◌&&◌, ◌||◌, List, [], ◌∷◌, ◌++◌, Option,
  none, some, Text, codes, text_eq, length, take, drop, get_elem?, ltb, leb, if◌then◌else◌,
}
use goharness.Tools.Lines.{line_feed, lines, trim_line_feed, ends_in_line_feed, decimal}

pub record Hunk : Type 0 where
  pub old_start : ℕ
  pub old_lines : ℕ
  pub new_start : ℕ
  pub new_lines : ℕ
  pub content : Text

infixl 5 ◌>>=◌
abbrev pub ◌>>=◌ {ℓ κ} : {A : Type ℓ} {B : Type κ} → Option A → (A → Option B) → Option B
none >>= f = none
some a >>= f = f a

-- curr[j] = v
unfoldable pub set : List ℕ → ℕ → ℕ → Option (List ℕ)
set [] j v = none
set (x ∷ xs) zero v = some (v ∷ xs)
set (x ∷ xs) (suc j) v = set xs j v >>= λ ys. some (x ∷ ys)

-- make([]int, n)
abbrev pub zeros : ℕ → List ℕ
zeros zero = []
zeros (suc n) = 0 ∷ zeros n

-- The rounds i, i + 1, … of a counted loop; the first argument counts those left.
unfoldable pub for {ℓ} : {S : Type ℓ} → ℕ → ℕ → (ℕ → S → Option S) → S → Option S
for zero i body s = some s
for (suc n) i body s = body i s >>= for n (i + 1) body

abbrev pub max : ℕ → ℕ → ℕ
max p c = if ltb c p then p else c

module _ (a b : List Text) where
  -- The cell `curr[j]` of row i.
  unfoldable pub fill_cell : ℕ → List ℕ → ℕ → List ℕ → Option (List ℕ)
  unfolding text_eq set
  fill_cell i prev j curr = do
    x ← get_elem? a (i - 1)
    y ← get_elem? b (j - 1)
    if text_eq x y then (do diagonal ← get_elem? prev (j - 1); set curr j (diagonal + 1)) else (do
      above ← get_elem? prev j
      left ← get_elem? curr (j - 1)
      set curr j (max above left))

  -- One row, and `prev, curr = curr, prev`.
  unfoldable pub fill_row : ℕ → List ℕ × List ℕ → Option (List ℕ × List ℕ)
  unfolding for fill_cell
  fill_row i (prev, curr) = do
    filled ← for (length b) 1 (fill_cell i prev) curr
    some (filled, prev)

  -- The walk back from the corner (i, j); `lcs` is what was found so far.
  unfoldable pub backtrack : List ℕ → List ℕ → ℕ → ℕ → List Text → Option (List Text)
  unfolding text_eq
  backtrack prev curr zero j lcs = some lcs
  backtrack prev curr (suc i) zero lcs = some lcs
  backtrack prev curr (suc i) (suc j) lcs = do
    x ← get_elem? a i
    y ← get_elem? b j
    elim (text_eq x y) [
      | true ↦ backtrack prev curr i j (x ∷ lcs)
      | false ↦ (do
        p ← get_elem? prev j
        c ← get_elem? curr (suc j)
        elim (leb c p) [
          | true ↦ backtrack prev curr (suc i) j lcs
          | false ↦ backtrack prev curr i (suc j) lcs
        ])
    ]

  -- `computeLCS`
  unfoldable pub compute_lcs : Option (List Text)
  unfolding for fill_row backtrack
  compute_lcs = if length a == 0 || length b == 0 then some [] else (do
    (prev, curr) ← for (length a) 1 fill_row (zeros (length b + 1), zeros (length b + 1))
    backtrack prev curr (length a) (length b) [])

-- `GenerateDiff`: the loop walks over both contents; the lines still to come stand for the indices
-- `oi`, `ni` and `li`.
pub record Walk : Type 0 where
  pub old_start : ℕ
  pub new_start : ℕ
  pub current : Option Hunk
  pub hunks : List Hunk

abbrev pub first_walk : Walk
first_walk = record { old_start = 1; new_start = 1; current = none; hunks = [] }

abbrev pub trimmed : Hunk → Hunk
trimmed h = record h { content = trim_line_feed h.content }

abbrev pub closed : List Hunk → Option Hunk → List Hunk
closed hs none = hs
closed hs (some h) = hs ++ trimmed h ∷ []

abbrev pub opened : ℕ → ℕ → Option Hunk → Hunk
opened o n none = record {
  old_start = o;
  old_lines = 0;
  new_start = n;
  new_lines = 0;
  content = [];
}
opened o n (some h) = h

-- A common line closes the current hunk.
unfoldable pub share : Walk → Walk
unfolding trim_line_feed
share w = record {
  old_start = w.old_start + 1;
  new_start = w.new_start + 1;
  current = none;
  hunks = closed w.hunks w.current;
}

abbrev pub with_deletion : Text → Hunk → Hunk
with_deletion l h = record h {
  content = h.content ++ (b'-' ∷ (l ++ line_feed ∷ []));
  old_lines = h.old_lines + 1;
}

abbrev pub with_addition : Text → Hunk → Hunk
with_addition l h = record h {
  content = h.content ++ (b'+' ∷ (l ++ line_feed ∷ []));
  new_lines = h.new_lines + 1;
}

unfoldable pub delete : Text → Walk → Walk
delete l w = record w {
  old_start = w.old_start + 1;
  current = some (with_deletion l (opened w.old_start w.new_start w.current));
}

unfoldable pub insert : Text → Walk → Walk
insert l w = record w {
  new_start = w.new_start + 1;
  current = some (with_addition l (opened w.old_start w.new_start w.current));
}

-- `li >= len(lcs) || line != lcs[li]`
abbrev pub differs : Text → List Text → Bool
differs o [] = true
differs o (l ∷ ls) = not (text_eq o l)

-- The test for a common line; both contents have one left.
abbrev pub is_common : Text → Text → List Text → Bool
is_common o n [] = false
is_common o n (l ∷ ls) = text_eq o l && text_eq n l

unfoldable pub walk : List Text → List Text → List Text → Walk → Option Walk
unfolding share delete insert text_eq
walk [] [] ls w = some w
walk (o ∷ os) [] ls w = elim (differs o ls) [ true ↦ walk os [] ls (delete o w) | false ↦ none ]
walk [] (n ∷ ns) ls w = elim (differs n ls) [ true ↦ walk [] ns ls (insert n w) | false ↦ none ]
walk (o ∷ os) (n ∷ ns) ls w = elim (is_common o n ls) [
  | true ↦ walk os ns (drop 1 ls) (share w)
  | false ↦ elim (differs o ls) [
    | true ↦ walk os (n ∷ ns) ls (delete o w)
    | false ↦ elim (differs n ls) [ true ↦ walk (o ∷ os) ns ls (insert n w) | false ↦ none ]
  ]
]

abbrev number_pair : ℕ → ℕ → Text
number_pair a b = decimal a ++ b',' ∷ decimal b

-- `@@ -%d,%d +%d,%d @@`
unfoldable pub hunk_head : Hunk → Text
unfolding decimal
hunk_head h =
    codes "@@ -"
    ++ number_pair h.old_start h.old_lines
    ++ codes " +"
    ++ number_pair h.new_start h.new_lines
    ++ codes " @@"
    ++ line_feed ∷ []

unfoldable pub each_line : List Text → Text
each_line [] = []
each_line (l ∷ ls) = l ++ line_feed ∷ each_line ls

-- One hunk: of more than 50 lines only the first and the last 10.
unfoldable pub hunk_text : Hunk → Text
unfolding hunk_head each_line lines ends_in_line_feed
hunk_text h =
    let ls = lines h.content in
    if ltb 50 (length ls)
    then hunk_head h
      ++ each_line (take 10 ls)
      ++ codes "... ("
      ++ decimal (length ls)
      ++ codes " 行变化，已截断) ..."
      ++ line_feed ∷ []
      ++ each_line (drop (length ls - 10) ls)
    else hunk_head h ++ h.content ++ (if ends_in_line_feed h.content then [] else line_feed ∷ [])

-- `buildUnifiedDiff`
unfoldable pub build_unified_diff : List Hunk → Text
unfolding hunk_text
build_unified_diff [] = []
build_unified_diff (h ∷ hs) = hunk_text h ++ build_unified_diff hs

abbrev pub with_text : List Hunk → List Hunk × Text
with_text hs = (hs, build_unified_diff hs)

-- `GenerateDiff`
unfoldable pub generate_diff : Text → Text → Option (List Hunk × Text)
unfolding lines compute_lcs walk build_unified_diff
generate_diff old_content new_content = do
  lcs ← compute_lcs (lines old_content) (lines new_content)
  (if length lcs == length (lines old_content) && length lcs == length (lines new_content)
      then some ([], [])
      else (do
        w ← walk (lines old_content) (lines new_content) lcs first_walk
        some (with_text (closed w.hunks w.current))))

-- `SumChanges`
unfoldable pub sum_changes : List Hunk → ℕ × ℕ
sum_changes [] = (0, 0)
sum_changes (h ∷ hs) =
    let (additions, deletions) = sum_changes hs in
    (h.new_lines + additions, h.old_lines + deletions)
