-- ===== src/Tools/Edit/Perform.antt =====
-- tools/edit.go: performEdit, from the state of the file to the write and the result.
use goharness.Prelude.{
  ℕ, zero, suc, ◌+◌, Bool, true, false, not, ◌&&◌, ℤ, pos, negsuc, List, [], ◌∷◌, Option, none,
  some, Text, text_eq, ltb, leb, if◌then◌else◌,
}
use goharness.Session.Disk.{Disk, put}
use goharness.Tools.Lines.{count_lines}
use goharness.Tools.Strings.{count_text, all_of_them, at_most, replace}
use goharness.Tools.StaleState.{Table, Checked, fresh, check_stale, set_stale, delete_stale}
use goharness.Tools.Diff.{generate_diff, sum_changes, Hunk}
use goharness.Tools.Edit.{find_edit_match}

pub record EditParams : Type 0 where
  pub old_str : Text
  pub new_str : Text
  pub replace_all : Bool
  pub limit : ℤ

pub data ReplaceMode : Type 0 where
  single all_places create : ReplaceMode
  limited : ℕ → ReplaceMode

pub record EditResult : Type 0 where
  pub replace_count : ℕ
  pub total_matches : ℕ
  pub replace_mode : ReplaceMode
  pub diff : Text
  pub additions : ℕ
  pub deletions : ℕ

pub data EditError : Type 0 where
  nothing_to_create missing_file stat_failed old_string_empty read_failed not_found : EditError
  bad_limit mkdir_failed write_failed : EditError
  not_fresh : Checked → EditError
  ambiguous : ℕ → EditError

pub data Outcome : Type 0 where
  done : EditResult → Outcome
  failed : EditError → Outcome

-- The files, the read states and the paths that are known to be absent (`negativeCache`).
pub record Files : Type 0 where
  pub disk : Disk
  pub table : Table
  pub negative : List Text

-- What the machine answers during the call: SHA-256, os.Stat, and the clock with the file's time
-- behind the write.
pub record Machine : Type 0 where
  pub hash : Text → Text
  pub can_stat : Text → Bool
  pub mtime : Text → Option ℕ
  pub now : ℕ
  pub mtime_after : Option ℕ

-- `invalidateNegativeCache`
unfoldable pub forget : Text → List Text → List Text
unfolding text_eq
forget path [] = []
forget path (p ∷ ps) = let rest = forget path ps in if text_eq p path then rest else p ∷ rest

-- The bytes of a character, and `len` of a text.
abbrev width : ℕ → ℕ
width c = if ltb c 0x80 then 1 else if ltb c 0x800 then 2 else if ltb c 0x10000 then 3 else 4

unfoldable pub byte_length : Text → ℕ
byte_length [] = 0
byte_length (c ∷ s) = width c + byte_length s

-- The number of places, the new content and the mode; the cases of the `switch`.
pub record Replaced : Type 0 where
  pub updated : Text
  pub count : ℕ
  pub mode : ReplaceMode

abbrev min : ℕ → ℕ → ℕ
min a b = if ltb b a then b else a

abbrev by_flag : Text → Text → Text → ℕ → Bool → Replaced
by_flag content old new total true = record {
  updated = replace content old new all_of_them;
  count = total;
  mode = all_places;
}
by_flag content old new total false = record {
  updated = replace content old new (at_most 1);
  count = 1;
  mode = single;
}

-- With the limit -1 the count is that of the new text in the new content.
unfoldable pub replaced : Text → Text → Text → Bool → ℤ → ℕ → Replaced
unfolding replace count_text
replaced content old new flag (negsuc zero) total =
    let updated = replace content old new all_of_them in
    record { updated = updated; count = count_text updated new; mode = all_places }
replaced content old new flag (negsuc (suc n)) total = by_flag content old new total flag
replaced content old new flag (pos zero) total = by_flag content old new total flag
replaced content old new flag (pos (suc n)) total = record {
  updated = replace content old new (at_most (suc n));
  count = min (suc n) total;
  mode = limited (suc n);
}

abbrev pub is_positive : ℤ → Bool
is_positive (pos (suc n)) = true
is_positive _ = false

abbrev pub below_minus_one : ℤ → Bool
below_minus_one (negsuc (suc n)) = true
below_minus_one _ = false

-- The sizes up to which the lines are counted and the diff is shown: 1 MB and 8 KB.
abbrev pub diff_stat_max_bytes : ℕ
diff_stat_max_bytes = 1048576

abbrev pub diff_inline_max_bytes : ℕ
diff_inline_max_bytes = 8192

abbrev counted : Option (List Hunk × Text) → Text × ℕ × ℕ
counted none = ([], 0, 0)
counted (some (hunks, text)) = let (adds, dels) = sum_changes hunks in (text, adds, dels)

-- The diff of a change with its counts; `GenerateDiff` always returns.
unfoldable pub change_stats : Text → Text → Text × ℕ × ℕ
unfolding byte_length generate_diff sum_changes
change_stats content updated =
    let n = byte_length content in
    let (text, adds, dels) = counted (generate_diff content updated) in
    if ltb 0 n && leb n diff_stat_max_bytes
    then (if leb n diff_inline_max_bytes then text else [], adds, dels)
    else ([], 0, 0)

module _ (m : Machine) (path : Text) (p : EditParams) where
  -- The two writes of the function, behind the check for the directory.
  abbrev pub written : Files → Text → Table → EditResult → Files × Outcome
  written w content table r =
      if not (w.disk.can_make_dir_of path)
      then (w, failed mkdir_failed)
      else if not (w.disk.can_write path)
      then (w, failed write_failed)
      else (
        record {
          disk = put path (some content) w.disk;
          table = table;
          negative = forget path w.negative;
        },
        done r,
      )

  abbrev pub create_result : EditResult
  create_result = record {
    replace_count = 1;
    total_matches = 0;
    replace_mode = create;
    diff = [];
    additions = count_lines p.new_str;
    deletions = 0;
  }

  abbrev pub edit_result : Text → ℕ → Replaced → EditResult
  edit_result content total r =
      let (text, adds, dels) = change_stats content r.updated in
      record {
        replace_count = r.count;
        total_matches = total;
        replace_mode = r.mode;
        diff = text;
        additions = adds;
        deletions = dels;
      }

  -- The replacement of a text that was found.
  abbrev pub replace_found : Files → Text → Text → Files × Outcome
  replace_found w content actual =
      let total = count_text content actual in
      if not p.replace_all && not (is_positive p.limit) && ltb 1 total
      then (w, failed (ambiguous total))
      else if below_minus_one p.limit
      then (w, failed bad_limit)
      else (let r = replaced content actual p.new_str p.replace_all p.limit total in
          written w r.updated (set_stale m.hash w.table path m.now m.mtime_after r.updated)
            (edit_result content total r))

  abbrev pub on_match : Files → Text → Option Text → Files × Outcome
  on_match w content none = (w, failed not_found)
  on_match w content (some actual) = replace_found w content actual

  abbrev pub is_fresh : Checked → Bool
  is_fresh fresh = true
  is_fresh _ = false

  abbrev pub readable : Files → Text → Option Text
  readable w content = if w.disk.can_read path then some content else none

  abbrev pub on_checked : Files → Text → Table × Checked → Files × Outcome
  on_checked w content (table, checked) =
      let w' = record w { table = table } in
      if not (is_fresh checked)
      then (w', failed (not_fresh checked))
      else if not (w.disk.can_read path)
      then (w', failed read_failed)
      else on_match w' content (find_edit_match content p.old_str)

  abbrev pub edit_existing : Files → Text → Text → Files × Outcome
  edit_existing w [] [] = written w p.new_str (delete_stale w.table path) create_result
  edit_existing w (c ∷ content) [] = (w, failed old_string_empty)
  edit_existing w content (o ∷ old) =
      on_checked w content (check_stale m.hash w.table path (m.mtime path) (readable w content))

  abbrev pub on_absent : Files → Text → Files × Outcome
  on_absent w [] = (w, failed nothing_to_create)
  on_absent w (o ∷ old) = (w, failed missing_file)

  abbrev pub on_stat : Files → Option Text → Files × Outcome
  on_stat w none = on_absent w p.old_str
  on_stat w (some content) = edit_existing w content p.old_str

  -- `performEdit`
  unfoldable pub perform_edit : Files → Files × Outcome
  unfolding put forget find_edit_match count_text replaced change_stats check_stale set_stale
      delete_stale count_lines
  perform_edit w =
      if not (m.can_stat path) then (w, failed stat_failed) else on_stat w (w.disk.files path)
