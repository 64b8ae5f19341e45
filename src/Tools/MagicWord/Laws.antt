-- ===== src/Tools/MagicWord/Laws.antt =====
-- tools/permission_required.go: the answer that the user interface writes, and its reading.
use mathlib.Core.List.{reverse, reverse-append, reverse-reverse}
use goharness.Prelude.{
  ℕ, ◌≡◌, ◌∙◌, refl, ap, sym, subst, false, [], ◌∷◌, ◌++◌, some, Text, is_space, trim_left,
  trim_space,
}
use goharness.Tools.MagicWord.{
  Action, permission_allow, permission_allow_session, permission_deny, word, classify_magic_word,
  cut_colon, action_named, parse_magic_word_target,
}

-- A text that trimming leaves alone.
abbrev pub Trimmed : Text → Type 0
Trimmed s = trim_space s ≡ s

cut_colon-word :
    (a : Action) (rest : Text) → cut_colon (word a ++ b':' ∷ rest) ≡ some (word a, rest)
unfolding cut_colon
cut_colon-word permission_allow rest = refl
cut_colon-word permission_allow_session rest = refl
cut_colon-word permission_deny rest = refl

action_named-word : (a : Action) → action_named (word a) ≡ some a
unfolding action_named
action_named-word permission_allow = refl
action_named-word permission_allow_session = refl
action_named-word permission_deny = refl

-- A text without white space, as the identifiers of sessions are.
abbrev pub Solid : Text → Type 0
Solid [] = Unit
Solid (c ∷ s) = (is_space c ≡ false) × Solid s

Solid-append : (s t : Text) → Solid s → Solid t → Solid (s ++ t)
Solid-append [] t h k = k
Solid-append (c ∷ s) t h k = (h.0, Solid-append s t h.1 k)

Solid-reverse : (s : Text) → Solid s → Solid (reverse s)
Solid-reverse [] h = h
Solid-reverse (c ∷ s) h =
    subst Solid (sym (reverse-append (c ∷ []) s))
      (Solid-append (reverse s) (c ∷ []) (Solid-reverse s h.1) (h.0, tt))

trim_left-Solid :
    (p : Text) (c : ℕ) (t : Text)
    → Solid (p ++ c ∷ [])
    → trim_left ((p ++ c ∷ []) ++ t) ≡ (p ++ c ∷ []) ++ t
unfolding trim_left
trim_left-Solid [] c t h = rw (h.0)
trim_left-Solid (d ∷ p) c t h = rw (h.0)

-- The end of a text that ends in a text without white space is not trimmed.
trim_end :
    (c : ℕ) (s w : Text) → Solid (c ∷ s) → reverse (trim_left (reverse (w ++ c ∷ s))) ≡ w ++ c ∷ s
trim_end c s w h =
    let solid : Solid (reverse s ++ c ∷ []) =
      Solid-append (reverse s) (c ∷ []) (Solid-reverse s h.1) (h.0, tt) in
    let back : reverse (w ++ c ∷ s) ≡ (reverse s ++ c ∷ []) ++ reverse w =
      reverse-append w (c ∷ s) ∙ ap (λ x. x ++ reverse w) (reverse-append (c ∷ []) s) in
    ap (λ x. reverse (trim_left x)) back
    ∙ ap reverse (trim_left-Solid (reverse s) c (reverse w) solid ∙ sym back)
    ∙ reverse-reverse (w ++ c ∷ s)

-- The answer for a session, as the user interface writes it.
abbrev pub answer_for : Action → Text → Text
answer_for a id = word a ++ b':' ∷ 32 ∷ id

trim-answer :
    (a : Action) (c : ℕ) (s : Text)
    → Solid (c ∷ s)
    → trim_space (answer_for a (c ∷ s)) ≡ answer_for a (c ∷ s)
unfolding trim_space
trim-answer permission_allow c s h = trim_end c s (word permission_allow ++ b':' ∷ 32 ∷ []) h
trim-answer permission_allow_session c s h =
    trim_end c s (word permission_allow_session ++ b':' ∷ 32 ∷ []) h
trim-answer permission_deny c s h = trim_end c s (word permission_deny ++ b':' ∷ 32 ∷ []) h

trim-target : (c : ℕ) (s : Text) → Solid (c ∷ s) → trim_space (32 ∷ c ∷ s) ≡ c ∷ s
unfolding trim_space trim_left
trim-target c s h = rw (h.0) (trim_end c s [] h)

trim-word : (a : Action) → trim_space (word a) ≡ word a
unfolding trim_space
trim-word permission_allow = refl
trim-word permission_allow_session = refl
trim-word permission_deny = refl

-- The answer that is written as a magic word, a colon, a space and the identifier of a session,
-- not empty and without white space, is read back as that word for that session.
pub classify_magic_word-answer :
    (a : Action) (c : ℕ) (s : Text)
    → Solid (c ∷ s)
    → classify_magic_word (answer_for a (c ∷ s)) ≡ record { action = some a; session_id = c ∷ s }
unfolding classify_magic_word parse_magic_word_target
classify_magic_word-answer a c s h = rw (
  trim-answer a c s h,
  cut_colon-word a (32 ∷ c ∷ s),
  trim-word a,
  trim-target c s h,
  action_named-word a,
)
