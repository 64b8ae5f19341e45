-- ===== src/Tools/MagicWord.antt =====
-- tools/permission_required.go: the words by which the user answers a request for permission.
pub mod Laws
use goharness.Prelude.{
  ℕ, ◌+◌, ◌==◌, Bool, true, false, ◌&&◌, List, [], ◌∷◌, ◌++◌, map, Option, none, some, Text, codes,
  text_eq, trim_space, leb, if◌then◌else◌,
}

-- The actions; the empty action of an ordinary message is `none`.
pub data Action : Type 0 where
  permission_allow permission_allow_session permission_deny : Action

pub record PermissionMagicWord : Type 0 where
  pub action : Option Action
  pub session_id : Text

-- strings.EqualFold against a text of ASCII letters: letters fold to lower case, and of the wider
-- runes U+017F to `s` and U+212A to `k`.
unfoldable pub fold_rune : ℕ → ℕ
fold_rune c =
    if leb b'A' c && leb c b'Z'
    then c + 32
    else if c == 0x17f
    then b's'
    else if c == 0x212a
    then b'k'
    else c

unfoldable pub equal_fold : Text → Text → Bool
unfolding fold_rune text_eq
equal_fold s t = text_eq (map fold_rune s) (map fold_rune t)

abbrev pub word : Action → Text
word permission_allow = codes "PermissionAllow"
word permission_allow_session = codes "PermissionAllowSession"
word permission_deny = codes "PermissionDeny"

-- The `switch` over the three words.
unfoldable pub action_named : Text → Option Action
unfolding equal_fold
action_named s =
    if equal_fold s (word permission_allow)
    then some permission_allow
    else if equal_fold s (word permission_allow_session)
    then some permission_allow_session
    else if equal_fold s (word permission_deny)
    then some permission_deny
    else none

-- The text before the first colon and behind it; none without a colon.
abbrev pub onto_prefix : ℕ → Option (Text × Text) → Option (Text × Text)
onto_prefix c none = none
onto_prefix c (some (p, t)) = some (c ∷ p, t)

unfoldable pub cut_colon : Text → Option (Text × Text)
cut_colon [] = none
cut_colon (c ∷ s) = if c == b':' then some ([], s) else onto_prefix c (cut_colon s)

abbrev pub targeted : Text → Option Action → Option (Action × Text)
targeted target none = none
targeted target (some a) = some (a, target)

abbrev pub with_target : Text → Text → Option (Action × Text)
with_target prefix [] = none
with_target prefix (c ∷ target) = targeted (c ∷ target) (action_named prefix)

abbrev pub parse_cut : Option (Text × Text) → Option (Action × Text)
parse_cut none = none
parse_cut (some (prefix, target)) = with_target (trim_space prefix) (trim_space target)

-- `parseMagicWordTarget`
unfoldable pub parse_magic_word_target : Text → Option (Action × Text)
unfolding cut_colon action_named trim_space
parse_magic_word_target trimmed = parse_cut (cut_colon trimmed)

abbrev pub classified : Text → Option (Action × Text) → PermissionMagicWord
classified trimmed (some (a, target)) = record { action = some a; session_id = target }
classified trimmed none = record { action = action_named trimmed; session_id = [] }

-- `ClassifyMagicWord`
unfoldable pub classify_magic_word : Text → PermissionMagicWord
unfolding parse_magic_word_target action_named trim_space
classify_magic_word msg = classified (trim_space msg) (parse_magic_word_target (trim_space msg))
