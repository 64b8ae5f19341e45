-- ===== src/Sandbox/Glob.antt =====
-- sandbox/file_checker.go: matchGlob, which turns a pattern into a regular expression, and its cache.
-- package regexp is modelled as far as such an expression goes: `Regexp` is the list of its items
-- between the anchors, `compile` its parser and `match_string` its matcher. A dot does not match a
-- line feed, for the expression has no flag `s`.
pub mod Escape
pub mod Laws
use goharness.Prelude.{
  ℕ, ◌==◌, Bool, true, false, not, ◌&&◌, ◌||◌, List, [], ◌∷◌, ◌++◌, Option, none, some, Text, codes,
  text_eq, if◌then◌else◌,
}

pub data Item : Type 0 where
  rune : ℕ → Item
  any_run : Item

abbrev pub Regexp : Type 0
Regexp = List Item

abbrev pub star : ℕ
star = b'*'

abbrev pub backslash : ℕ
backslash = 92

abbrev pub line_feed : ℕ
line_feed = 10

-- strings.ContainsRune(`\.+?()[]{}|^$`, r)
unfoldable pub is_meta : ℕ → Bool
is_meta r =
    r == backslash
    || r == b'.'
    || r == b'+'
    || r == b'?'
    || r == b'('
    || r == b')'
    || r == b'['
    || r == b']'
    || r == b'{'
    || r == b'}'
    || r == b'|'
    || r == b'^'
    || r == b'$'

-- The loop over the pattern, with the closing anchor.
unfoldable pub glob_body : Text → Text
unfolding is_meta
glob_body [] = b'$' ∷ []
glob_body (r ∷ pattern) =
    let rest = glob_body pattern in
    if r == star then b'.' ∷ star ∷ rest else if is_meta r then backslash ∷ r ∷ rest else r ∷ rest

unfoldable pub glob_regexp : Text → Text
unfolding glob_body
glob_regexp pattern = b'^' ∷ glob_body pattern

-- regexp.Compile on `^…$`: `.*` is a run, a backslash quotes the next character, other special
-- characters are refused here.
abbrev pub consed : Item → Option Regexp → Option Regexp
consed i none = none
consed i (some re) = some (i ∷ re)

unfoldable pub compile_body : Text → Option Regexp
unfolding is_meta
compile_body [] = none
compile_body (c ∷ []) = if c == b'$' then some [] else none
compile_body (c ∷ d ∷ s) =
    let quoted = compile_body s in
    let single = compile_body (d ∷ s) in
    if c == b'.' && d == star
    then consed any_run quoted
    else if c == backslash
    then consed (rune d) quoted
    else if is_meta c || c == star
    then none
    else consed (rune c) single

unfoldable pub compile : Text → Option Regexp
unfolding compile_body
compile [] = none
compile (c ∷ s) = if c == b'^' then compile_body s else none

-- MatchString on the items: a run takes any characters but line feeds.
unfoldable pub match_string : Regexp → Text → Bool
match_string [] [] = true
match_string [] (c ∷ s) = false
match_string (rune r ∷ re) [] = false
match_string (rune r ∷ re) (c ∷ s) = c == r && match_string re s
match_string (any_run ∷ re) [] = match_string re []
match_string (any_run ∷ re) (c ∷ s) =
    let leave = match_string re (c ∷ s) in
    let take = match_string (any_run ∷ re) s in
    if leave then true else if c == line_feed then false else take

abbrev pub matches : Option Regexp → Text → Bool
matches none name = false
matches (some re) name = match_string re name

-- `matchGlob` without its cache.
unfoldable pub match_glob : Text → Text → Bool
unfolding glob_regexp compile match_string
match_glob pattern name = matches (compile (glob_regexp pattern)) name

-- The cache `globRegexCache`: the patterns with their compiled expressions.
abbrev pub Cache : Type 0
Cache = List (Text × Regexp)

unfoldable pub load : Text → Cache → Option Regexp
unfolding text_eq
load pattern [] = none
load pattern ((p, re) ∷ cache) = if text_eq p pattern then some re else load pattern cache

abbrev pub store_compiled : Text → Text → Cache → Option Regexp → Bool × Cache
store_compiled pattern name cache none = (false, cache)
store_compiled pattern name cache (some re) = (match_string re name, (pattern, re) ∷ cache)

abbrev pub match_loaded : Text → Text → Cache → Option Regexp → Bool × Cache
match_loaded pattern name cache (some re) = (match_string re name, cache)
match_loaded pattern name cache none =
    store_compiled pattern name cache (compile (glob_regexp pattern))

-- `matchGlob`: the answer and the cache behind it.
unfoldable pub match_glob_cached : Cache → Text → Text → Bool × Cache
unfolding load glob_regexp compile match_string
match_glob_cached cache pattern name = match_loaded pattern name cache (load pattern cache)
