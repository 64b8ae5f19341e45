-- ===== src/Sandbox/Path.antt =====
-- path/filepath on Unix as the sandbox uses it (Clean, Base, the separator), and pathWithinDir of
-- sandbox/file_checker.go.
pub mod Segments
pub mod Within
use mathlib.Core.List.{reverse}
use goharness.Prelude.{
  ℕ, ◌==◌, Bool, true, false, not, ◌&&◌, ◌||◌, List, [], ◌∷◌, ◌++◌, Text, codes, text_eq,
  has_prefix, if◌then◌else◌,
}

abbrev pub separator : ℕ
separator = b'/'

abbrev pub dot_dot : Text
dot_dot = b'.' ∷ b'.' ∷ []

-- Puts a character in front of the first segment.
abbrev pub onto_first : ℕ → List Text → List Text
onto_first c [] = (c ∷ []) ∷ []
onto_first c (s ∷ ss) = (c ∷ s) ∷ ss

-- strings.Split(path, "/")
unfoldable pub split : Text → List Text
split [] = [] ∷ []
split (c ∷ s) = if c == separator then [] ∷ split s else onto_first c (split s)

abbrev pub is_rooted : Text → Bool
is_rooted [] = false
is_rooted (c ∷ s) = c == separator

-- One element of filepath.Clean; the head of the list is the element that was written last.
abbrev pub back_up : Bool → List Text → List Text
back_up true [] = []
back_up false [] = dot_dot ∷ []
back_up rooted (top ∷ below) = if text_eq top dot_dot then dot_dot ∷ top ∷ below else below

unfoldable pub clean_step : Bool → List Text → Text → List Text
clean_step rooted out seg =
    if text_eq seg [] || text_eq seg (b'.' ∷ [])
    then out
    else if text_eq seg dot_dot
    then back_up rooted out
    else seg ∷ out

unfoldable pub clean_steps : Bool → List Text → List Text → List Text
unfolding clean_step
clean_steps rooted out [] = out
clean_steps rooted out (seg ∷ segs) = clean_steps rooted (clean_step rooted out seg) segs

-- The elements of the cleaned path, in order.
unfoldable pub segments : Text → List Text
unfolding split clean_steps
segments path = reverse (clean_steps (is_rooted path) [] (split path))

-- Each element behind a separator.
unfoldable pub slashed : List Text → Text
slashed [] = []
slashed (seg ∷ segs) = separator ∷ (seg ++ slashed segs)

-- The text of a cleaned path.
unfoldable pub print : Bool → List Text → Text
unfolding slashed
print true [] = separator ∷ []
print true (seg ∷ segs) = slashed (seg ∷ segs)
print false [] = b'.' ∷ []
print false (seg ∷ segs) = seg ++ slashed segs

-- filepath.Clean
unfoldable pub clean : Text → Text
unfolding segments print
clean path = print (is_rooted path) (segments path)

abbrev pub last_or : Text → List Text → Text
last_or d [] = d
last_or d (s ∷ ss) = last_or s ss

abbrev pub nonempty : List Text → List Text
nonempty [] = []
nonempty (s ∷ ss) = let rest = nonempty ss in if text_eq s [] then rest else s ∷ rest

-- filepath.Base: the last element that is not empty, "/" for a path of separators, "." for none.
unfoldable pub base : Text → Text
unfolding split
base [] = b'.' ∷ []
base (c ∷ s) = last_or (separator ∷ []) (nonempty (split (c ∷ s)))

-- `pathWithinDir`
unfoldable pub path_within_dir : Text → Text → Bool
unfolding clean text_eq has_prefix
path_within_dir path dir =
    if text_eq (clean path) (clean dir)
    then true
    else has_prefix (clean path) (clean dir ++ separator ∷ [])
