-- ===== src/Tools/Params.antt =====
-- The parameters of a tool call (tools/bash.go: GenerateKeyVariants and GetParam) and the paths and
-- texts of tools/utils.go: ResolveTargetPath, pathWithinScope and TruncateString. A map of
-- parameters is a list of keys with their values; `Params` holds those that are strings.
pub mod Laws
use goharness.Prelude.{
  ℕ, ◌-◌, ◌==◌, Bool, true, false, ◌&&◌, ◌||◌, List, [], ◌∷◌, ◌++◌, map, Option, none, some, Text,
  codes, text_eq, has_prefix, length, take, drop, leb, ltb, if◌then◌else◌,
}
use goharness.Sandbox.Path.{separator, is_rooted, clean}

abbrev pub Params : Type 0
Params = List (Text × Text)

-- `params[key]`
unfoldable pub lookup : {A : Type 0} → List (Text × A) → Text → Option A
unfolding text_eq
lookup [] key = none
lookup ((k, v) ∷ ps) key = if text_eq k key then some v else lookup ps key

-- strings.ToUpper on ASCII; the keys are names of the source.
abbrev upper_rune : ℕ → ℕ
upper_rune c = if leb b'a' c && leb c b'z' then c - 32 else c

abbrev pub upper : Text → Text
upper s = map upper_rune s

abbrev onto_part : ℕ → List Text → List Text
onto_part c [] = (c ∷ []) ∷ []
onto_part c (p ∷ ps) = (c ∷ p) ∷ ps

-- strings.Split(key, "_")
unfoldable pub parts : Text → List Text
parts [] = [] ∷ []
parts (c ∷ s) = if c == b'_' then [] ∷ parts s else onto_part c (parts s)

-- strings.Join
unfoldable pub join : Text → List Text → Text
join sep [] = []
join sep (p ∷ []) = p
join sep (p ∷ q ∷ ps) = p ++ (sep ++ join sep (q ∷ ps))

abbrev capital : Text → Text
capital [] = []
capital (c ∷ s) = upper_rune c ∷ s

abbrev camel : List Text → List Text
camel [] = []
camel (p ∷ ps) = p ∷ map capital ps

-- `GenerateKeyVariants`
unfoldable pub generate_key_variants : Text → List Text
unfolding parts join
generate_key_variants key =
    let ps = parts key in
    upper key
    ∷ join [] ps
    ∷ upper (join [] ps)
    ∷ join (codes "-") ps
    ∷ join (codes "-") (map upper ps)
    ∷ join [] (map capital ps)
    ∷ join [] (camel ps)
    ∷ []

abbrev or_else : {A : Type 0} → Option A → Option A → Option A
or_else none o = o
or_else (some v) o = some v

unfoldable pub first_of : {A : Type 0} → List (Text × A) → List Text → Option A
unfolding lookup
first_of params [] = none
first_of params (k ∷ ks) = or_else (lookup params k) (first_of params ks)

-- `GetParam`
unfoldable pub get_param : {A : Type 0} → List (Text × A) → Text → Option A
unfolding first_of generate_key_variants
get_param params key = first_of params (key ∷ generate_key_variants key)

-- What the process knows of its place: os.UserHomeDir, none on an error, and os.Getwd, empty on one.
pub record Place : Type 0 where
  pub home : Option Text
  pub cwd : Text

pub data PathScope : Type 0 where
  absolute project session : PathScope

-- filepath.Join of two elements; an empty one is left out.
unfoldable pub join_path : Text → Text → Text
unfolding clean
join_path [] [] = []
join_path [] (c ∷ t) = clean (c ∷ t)
join_path (c ∷ s) [] = clean (c ∷ s)
join_path (c ∷ s) (d ∷ t) = clean ((c ∷ s) ++ separator ∷ d ∷ t)

abbrev pub home_prefix : Text
home_prefix = codes "~/"

abbrev at_home : Option Text → Text → Text
at_home none path = path
at_home (some []) path = path
at_home (some (c ∷ home)) path =
    if text_eq path (codes "~") then c ∷ home else join_path (c ∷ home) (drop 2 path)

unfoldable pub expand_home : Place → Text → Text
unfolding text_eq has_prefix join_path
expand_home place path =
    if text_eq path (codes "~") || has_prefix path home_prefix
    then at_home place.home path
    else path

abbrev pub session_prefix : Text
session_prefix = codes "session:"

abbrev in_session : Text → Text → Text → Text × PathScope
in_session file project_dir [] = (join_path project_dir file, project)
in_session file project_dir (c ∷ dir) = (join_path (c ∷ dir) file, session)

abbrev or_cwd : Text → Text → Text
or_cwd cwd [] = cwd
or_cwd cwd (c ∷ dir) = c ∷ dir

abbrev resolve_expanded : Place → Text → Text → Text → Text × PathScope
resolve_expanded place project_dir session_dir path =
    if is_rooted path
    then (path, absolute)
    else if has_prefix path session_prefix
    then in_session (drop 8 path) project_dir session_dir
    else (join_path (or_cwd place.cwd project_dir) path, project)

-- `ResolveTargetPath`
unfoldable pub resolve_target_path : Place → Text → Text → Text → Text × PathScope
unfolding expand_home has_prefix join_path
resolve_target_path place [] project_dir session_dir = ([], project)
resolve_target_path place (c ∷ path) project_dir session_dir =
    resolve_expanded place project_dir session_dir (expand_home place (c ∷ path))

-- `pathWithinScope`
unfoldable pub path_within_scope : Text → Text → Bool
unfolding text_eq has_prefix
path_within_scope parent child =
    if text_eq parent child then true else has_prefix child (parent ++ separator ∷ [])

-- `TruncateString`
unfoldable pub truncate_string : Text → ℕ → Text
truncate_string s max_len =
    if leb (length s) max_len
    then s
    else if leb max_len 3
    then take max_len s
    else take (max_len - 3) s ++ codes "..."
