-- ===== src/Tools/Edit.antt =====
-- tools/edit.go: findEditMatch, the search for the text that an edit replaces. The files are those of
-- Session.Disk, the read states those of Tools.StaleState.
pub mod Match
pub mod Perform
pub mod Laws
pub mod Execute
pub mod Authority
pub mod Phases
use goharness.Prelude.{
  ℕ, zero, suc, ◌+◌, ◌==◌, Bool, true, false, not, ◌&&◌, ◌||◌, ℤ, pos, negsuc, List, [], ◌∷◌, ◌++◌,
  map, Option, none, some, is_some, Text, text_eq, length, take, drop, ltb, leb, if◌then◌else◌,
}
use goharness.Session.Disk.{Disk, put}
use goharness.Tools.Lines.{line_feed, ends_in_line_feed, count_lines}
use goharness.Tools.Strings.{index, contains_text, count_text, Limit, all_of_them, at_most, replace}
use goharness.Tools.StaleState.{Table, Checked, fresh, check_stale, set_stale, delete_stale}
use goharness.Tools.Diff.{generate_diff, sum_changes, Hunk}

-- The quotes of `normalizeQuotes`.
unfoldable pub plain_quote : ℕ → ℕ
plain_quote r =
    if leb 0x201c r && leb r 0x201f then 34 else if leb 0x2018 r && leb r 0x201b then 39 else r

-- `normalizeQuotes`
unfoldable pub normalize_quotes : Text → Text
unfolding plain_quote
normalize_quotes s = map plain_quote s

-- The characters of the file at the place where the normalized text stands.
abbrev pub cut_at : Text → Text → Option ℕ → Option Text
cut_at content old none = none
cut_at content old (some i) = some (take (length old) (drop i content))

abbrev pub or_try : Option Text → Option Text → Option Text
or_try none o = o
or_try (some a) o = some a

-- The second layer: quotes of any form.
unfoldable pub match_quotes : Text → Text → Option Text
unfolding normalize_quotes index
match_quotes content old =
    cut_at content old (index (normalize_quotes old) (normalize_quotes content))

-- The third layer: a line feed behind the text, with and without quotes of any form. The code
-- normalizes the old text and then adds the line feed, which is the same.
unfoldable pub match_line_feed : Text → Text → Option Text
unfolding ends_in_line_feed contains_text match_quotes
match_line_feed content old =
    if ends_in_line_feed old
    then none
    else if contains_text content (old ++ line_feed ∷ [])
    then some (old ++ line_feed ∷ [])
    else match_quotes content (old ++ line_feed ∷ [])

-- `findEditMatch`
unfoldable pub find_edit_match : Text → Text → Option Text
unfolding contains_text match_quotes match_line_feed
find_edit_match content old =
    if contains_text content old
    then some old
    else or_try (match_quotes content old) (match_line_feed content old)
