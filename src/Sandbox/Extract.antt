-- ===== src/Sandbox/Extract.antt =====
-- sandbox/url_checker.go: extractURLsFromCommand, with the pattern `https?://[^\s'"|;<>()]+` of
-- sandbox/command_checker.go written out.
pub mod Laws
use goharness.Prelude.{
  ℕ, zero, suc, ◌==◌, Bool, true, false, not, ◌&&◌, ◌||◌, List, [], ◌∷◌, ◌++◌, Option, none, some,
  Text, codes, has_prefix, contains, length, drop, if◌then◌else◌,
}

-- `[^\s'"|;<>()]`
unfoldable pub is_url_rune : ℕ → Bool
is_url_rune c = not (
    c == 9
    || c == 10
    || c == 12
    || c == 13
    || c == 32
    || c == 39
    || c == 34
    || c == b'|'
    || c == b';'
    || c == b'<'
    || c == b'>'
    || c == b'('
    || c == b')')

-- The longest run of such characters at the head.
unfoldable pub url_run : Text → Text
unfolding is_url_rune
url_run [] = []
url_run (c ∷ s) = let rest = url_run s in if is_url_rune c then c ∷ rest else []

abbrev pub http : Text
http = codes "http://"

abbrev pub https : Text
https = codes "https://"

abbrev pub with_run : Text → Text → Option Text
with_run prefix [] = none
with_run prefix (c ∷ run) = some (prefix ++ c ∷ run)

-- The match that starts at the head of the text.
unfoldable pub match_url : Text → Option Text
unfolding url_run has_prefix
match_url s =
    if has_prefix s http
    then with_run http (url_run (drop 7 s))
    else if has_prefix s https
    then with_run https (url_run (drop 8 s))
    else none

-- `FindAllString(s, -1)`; `skip` characters still belong to the match before.
unfoldable pub find_all : ℕ → Text → List Text
unfolding match_url
find_all skip [] = []
find_all (suc skip) (c ∷ s) = find_all skip s
find_all zero (c ∷ s) = elim (match_url (c ∷ s)) [
  | none ↦ find_all zero s
  | some m ↦ m ∷ find_all (length (drop 1 m)) s
]

abbrev is_stop : ℕ → Bool
is_stop c = c == b'.' || c == b',' || c == b';' || c == b':' || c == b'!' || c == b'?'

-- `strings.TrimRight(m, ".,;:!?")`
abbrev pub keep_unless_stop : ℕ → Text → Text
keep_unless_stop c [] = if is_stop c then [] else c ∷ []
keep_unless_stop c (d ∷ s) = c ∷ d ∷ s

unfoldable pub trim_stops : Text → Text
trim_stops [] = []
trim_stops (c ∷ s) = keep_unless_stop c (trim_stops s)

-- The loop that drops a match that was seen before; `seen` is the map.
unfoldable pub dedupe : List Text → List Text → List Text
unfolding contains trim_stops
dedupe seen [] = []
dedupe seen (m ∷ ms) =
    let rest = dedupe (m ∷ seen) ms in
    let skipped = dedupe seen ms in if contains seen m then skipped else trim_stops m ∷ rest

-- `extractURLsFromCommand`
unfoldable pub extract_urls_from_command : Text → List Text
unfolding find_all dedupe
extract_urls_from_command s = dedupe [] (find_all zero s)
