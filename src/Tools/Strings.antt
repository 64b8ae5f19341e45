-- ===== src/Tools/Strings.antt =====
-- Package strings on texts of code points: Index, Contains, Count and Replace.
pub mod Laws
pub mod Replace
use goharness.Prelude.{
  ℕ, zero, suc, ◌+◌, ◌-◌, Bool, true, false, not, ◌&&◌, List, [], ◌∷◌, ◌++◌, Option, none, some,
  is_some, Text, has_prefix, length, drop, if◌then◌else◌,
}

abbrev pub later : Option ℕ → Option ℕ
later none = none
later (some i) = some (suc i)

-- strings.Index: where the text first stands.
unfoldable pub index : Text → Text → Option ℕ
unfolding has_prefix
index sub [] = if has_prefix [] sub then some 0 else none
index sub (c ∷ s) = let rest = index sub s in if has_prefix (c ∷ s) sub then some 0 else later rest

-- strings.Contains
unfoldable pub contains_text : Text → Text → Bool
unfolding index
contains_text s sub = is_some (index sub s)

-- strings.Count for a text that is not empty; `skip` characters still belong to the last match.
unfoldable pub count_from : Text → ℕ → Text → ℕ
unfolding has_prefix
count_from sub skip [] = 0
count_from sub (suc skip) (c ∷ s) = count_from sub skip s
count_from sub zero (c ∷ s) =
    let matched = count_from sub (length (drop 1 sub)) s in
    let passed = count_from sub zero s in if has_prefix (c ∷ s) sub then suc matched else passed

-- strings.Count: of the empty text, one more than there are characters.
unfoldable pub count_text : Text → Text → ℕ
unfolding count_from
count_text s [] = length s + 1
count_text s (c ∷ sub) = count_from (c ∷ sub) zero s

-- How many replacements are left.
pub data Limit : Type 0 where
  all_of_them : Limit
  at_most : ℕ → Limit

abbrev pub is_spent : Limit → Bool
is_spent all_of_them = false
is_spent (at_most zero) = true
is_spent (at_most (suc n)) = false

abbrev pub one_less : Limit → Limit
one_less all_of_them = all_of_them
one_less (at_most zero) = at_most zero
one_less (at_most (suc n)) = at_most n

-- strings.Replace for an old text that is not empty, and strings.ReplaceAll.
unfoldable pub replace_from : Text → Text → Limit → ℕ → Text → Text
unfolding has_prefix
replace_from old new n skip [] = []
replace_from old new n (suc skip) (c ∷ s) = replace_from old new n skip s
replace_from old new n zero (c ∷ s) =
    let matched = replace_from old new (one_less n) (length (drop 1 old)) s in
    let passed = replace_from old new n zero s in
    if not (is_spent n) && has_prefix (c ∷ s) old then new ++ matched else c ∷ passed

unfoldable pub replace : Text → Text → Text → Limit → Text
unfolding replace_from
replace s old new n = replace_from old new n zero s
