-- ===== src/Tools/Edit/Match.antt =====
-- tools/edit.go: findEditMatch and the texts that stand in the file.
use mathlib.Core.List.{map-append}
use goharness.Prelude.{
  ℕ, ◌≡◌, ◌∙◌, refl, sym, ap, subst, true, [], ◌∷◌, ◌++◌, map, Option, none, some, is_some, Text,
  has_prefix, length, take, drop, drop-append, take-append-drop, Bool-cases, Option-cases, inl, inr,
  if◌then◌else◌,
}
use goharness.Tools.Lines.{line_feed, ends_in_line_feed}
use goharness.Tools.Strings.{index, contains_text}
use goharness.Tools.Strings.Laws.{
  has_prefix-append, has_prefix_self, has_prefix-shorter, has_prefix-map, take-has_prefix,
  index-some, index-found, drop-map, take-map, length-map,
}
use goharness.Tools.Edit.{
  plain_quote, normalize_quotes, match_quotes, match_line_feed, find_edit_match,
}

-- The text stands in the file, up to the form of its quotes.
abbrev pub StandsIn : Text → Text → Text → Type 0
StandsIn content old a =
    (before : Text) × (after : Text) × (content ≡ before ++ (a ++ after))
    × (normalize_quotes a ≡ normalize_quotes old)

abbrev pub Matched : Text → Text → Option Text → Type 0
Matched content old (some a) = StandsIn content old a
Matched content old none = (a : Text) → ¬ StandsIn content old a

stands_at :
    (content a : Text) (i : ℕ)
    → has_prefix (drop i content) a ≡ true
    → content ≡ take i content ++ (a ++ drop (length a) (drop i content))
stands_at content a i h =
    sym (take-append-drop i content)
    ∙ ap (λ x. take i content ++ x) (has_prefix-append (drop i content) a h)

-- What stands in the file is found in the normalized file.
normalized-found :
    (content old a : Text)
    → StandsIn content old a
    → is_some (index (normalize_quotes old) (normalize_quotes content)) ≡ true
unfolding normalize_quotes
normalized-found content old a (before, after, e, same) =
    index-found (map plain_quote old) (map plain_quote content) (length before) (
      rw (drop-map plain_quote (length before) content, e, drop-append before (a ++ after), ← same)
        (has_prefix-map plain_quote (a ++ after) a (has_prefix_self a after)))

module _ (content old : Text) where
  cut-StandsIn :
      (i : ℕ)
      → index (normalize_quotes old) (normalize_quotes content) ≡ some i
      → StandsIn content old (take (length old) (drop i content))
  unfolding normalize_quotes
  cut-StandsIn i e =
      let n = length old in
      let rest = drop i content in
      (
        take i content,
        drop n rest,
        sym (take-append-drop i content)
            ∙ ap (λ x. take i content ++ x) (sym (take-append-drop n rest)),
        sym (take-map plain_quote n rest)
            ∙ ap (take n) (sym (drop-map plain_quote i content))
            ∙ ap (λ k. take k (drop i (map plain_quote content))) (sym (length-map plain_quote old))
            ∙ take-has_prefix (drop i (map plain_quote content)) (map plain_quote old)
                (index-some (map plain_quote old) (map plain_quote content) i e),
      )

  match_quotes-Matched : Matched content old (match_quotes content old)
  unfolding match_quotes
  match_quotes-Matched =
      elim (Option-cases (index (normalize_quotes old) (normalize_quotes content))) [
        | inl e ↦ rw e (λ a h. let k = normalized-found content old a h in absurd (cc))
        | inr (i, e) ↦ rw e (cut-StandsIn i e)
      ]

  contains-StandsIn : contains_text content old ≡ true → StandsIn content old old
  unfolding contains_text
  contains-StandsIn h = elim (Option-cases (index old content)) [
    | inl e ↦ absurd (cc)
    | inr (i, e) ↦ (
      take i content,
      drop (length old) (drop i content),
      stands_at content old i (index-some old content i e),
      refl,
    )
  ]

-- A longer text that stands in the file brings the shorter one with it.
shorter-found :
    (content old tail : Text) (i : ℕ)
    → index (normalize_quotes (old ++ tail)) (normalize_quotes content) ≡ some i
    → is_some (index (normalize_quotes old) (normalize_quotes content)) ≡ true
unfolding normalize_quotes
shorter-found content old tail i e = index-found (map plain_quote old) (map plain_quote content) i (
    has_prefix-shorter (drop i (map plain_quote content)) (map plain_quote old)
      (map plain_quote tail)
      (subst (λ p. has_prefix (drop i (map plain_quote content)) p ≡ true)
        (map-append plain_quote old tail)
        (index-some (map plain_quote (old ++ tail)) (map plain_quote content) i e)))

module _ (content old : Text) where
  none_longer :
      (tail a : Text)
      → index (normalize_quotes old) (normalize_quotes content) ≡ none
      → ¬ StandsIn content (old ++ tail) a
  none_longer tail a n h =
      let found = normalized-found content (old ++ tail) a h in
      elim (Option-cases (index (normalize_quotes (old ++ tail)) (normalize_quotes content))) [
        | inl e ↦ absurd (cc)
        | inr (i, e) ↦ let k = shorter-found content old tail i e in absurd (cc)
      ]

  -- The third layer finds nothing that the second did not find.
  third_layer-none :
      index (normalize_quotes old) (normalize_quotes content) ≡ none
      → match_line_feed content old ≡ none
  unfolding match_line_feed
  third_layer-none n = elim (Bool-cases (ends_in_line_feed old)) [
    | inl e ↦ rw e
    | inr e ↦ rw e (elim (Bool-cases (contains_text content longer)) [
      | inl k ↦ absurd (none_longer tail longer n (contains-StandsIn content longer k))
      | inr k ↦
          rw k (not_quoted (match_quotes content longer) (match_quotes-Matched content longer))
    ])
  ]
    where
      tail : Text
      tail = line_feed ∷ []

      longer : Text
      longer = old ++ tail

      not_quoted : (o : Option Text) → Matched content longer o → o ≡ none
      not_quoted none m = refl
      not_quoted (some a) m = absurd (none_longer tail a n m)

  -- The third layer of the search never decides anything.
  pub find_edit_match-layers :
      find_edit_match content old
      ≡ (if contains_text content old then some old else match_quotes content old)
  unfolding find_edit_match match_quotes
  find_edit_match-layers = elim (Bool-cases (contains_text content old)) [
    | inl e ↦ rw e
    | inr e ↦ rw e (elim (Option-cases (index (normalize_quotes old) (normalize_quotes content))) [
      | inl n ↦ rw (n, third_layer-none n)
      | inr (i, n) ↦ rw n
    ])
  ]

  -- What findEditMatch finds stands in the file and equals the old text, the form of the quotes
  -- apart, and it finds nothing only where no such text stands in the file.
  pub find_edit_match-Matched : Matched content old (find_edit_match content old)
  find_edit_match-Matched =
      subst (Matched content old) (sym find_edit_match-layers)
        (elim (Bool-cases (contains_text content old)) [
          | inl e ↦ rw e (contains-StandsIn content old e)
          | inr e ↦ rw e (match_quotes-Matched content old)
        ])
