-- ===== src/Tools/Lines.antt =====
-- The texts of the tools: strings.Split and strings.Join by a line feed, strconv.Itoa, and
-- CountLines of tools/meta.go.
use goharness.Prelude.{
  ℕ, zero, suc, ◌+◌, ◌-◌, ◌/◌, ◌%◌, ◌==◌, ◌≡◌, refl, ap, sym, subst, ◌∙◌, ==_iff, Bool, true, false,
  List, [], ◌∷◌, ◌++◌, Text, if◌then◌else◌, ltb,
}

abbrev pub line_feed : ℕ
line_feed = 10

-- Puts a character in front of the first line.
abbrev pub onto_first : ℕ → List Text → List Text
onto_first c [] = (c ∷ []) ∷ []
onto_first c (l ∷ ls) = (c ∷ l) ∷ ls

-- strings.Split(s, "\n")
unfoldable pub lines : Text → List Text
lines [] = [] ∷ []
lines (c ∷ s) = if c == line_feed then [] ∷ lines s else onto_first c (lines s)

-- strings.Join(ls, "\n")
unfoldable pub unlines : List Text → Text
unlines [] = []
unlines (l ∷ []) = l
unlines (l ∷ m ∷ ls) = l ++ line_feed ∷ unlines (m ∷ ls)

-- strings.TrimSuffix(s, "\n")
unfoldable pub trim_line_feed : Text → Text
trim_line_feed [] = []
trim_line_feed (c ∷ []) = if c == line_feed then [] else c ∷ []
trim_line_feed (c ∷ d ∷ s) = c ∷ trim_line_feed (d ∷ s)

-- strings.HasSuffix(s, "\n")
unfoldable pub ends_in_line_feed : Text → Bool
ends_in_line_feed [] = false
ends_in_line_feed (c ∷ []) = c == line_feed
ends_in_line_feed (c ∷ d ∷ s) = ends_in_line_feed (d ∷ s)

-- The decimal digits of a number; the fuel is the number itself, at least as large as the count
-- of its digits less one.
unfoldable pub digits : ℕ → ℕ → Text → Text
digits zero n out = (b'0' + n % 10) ∷ out
digits (suc f) n out =
    let rest = digits f (n / 10) ((b'0' + n % 10) ∷ out) in
    if ltb n 10 then (b'0' + n % 10) ∷ out else rest

-- `%d`
unfoldable pub decimal : ℕ → Text
unfolding digits
decimal n = digits n n []

-- The loop of `CountLines`.
unfoldable pub count_feeds : ℕ → Text → ℕ
count_feeds n [] = n
count_feeds n (c ∷ s) = count_feeds (if c == line_feed then n + 1 else n) s

-- `CountLines`
unfoldable pub count_lines : Text → ℕ
unfolding count_feeds ends_in_line_feed
count_lines [] = 0
count_lines (c ∷ s) =
    let n = count_feeds 1 (c ∷ s) in if ends_in_line_feed (c ∷ s) then n - 1 else n

unlines-onto_first :
    (c : ℕ) (l : Text) (ls : List Text) → unlines (onto_first c (l ∷ ls)) ≡ c ∷ unlines (l ∷ ls)
unfolding unlines
unlines-onto_first c l [] = refl
unlines-onto_first c l (m ∷ ls) = refl

lines-cons : (s : Text) → (l : Text) × (ls : List Text) × (lines s ≡ l ∷ ls)
unfolding lines
lines-cons [] = ([], [], refl)
lines-cons (c ∷ s) = cons_case (c == line_feed) (lines-cons s)
  where
    cons_case :
        (b : Bool)
        → (l : Text) × (ls : List Text) × (lines s ≡ l ∷ ls)
        → (l : Text) × (ls : List Text) × ((if b then [] ∷ lines s else onto_first c (lines s))
            ≡ l ∷ ls)
    cons_case true _ = ([], lines s, refl)
    cons_case false (l, ls, e) = (c ∷ l, ls, ap (onto_first c) e)

unlines-split :
    (c : ℕ) (s l : Text) (ls : List Text) (b : Bool)
    → lines s ≡ l ∷ ls
    → unlines (l ∷ ls) ≡ s
    → (b ≡ true → c ≡ line_feed)
    → unlines (if b then [] ∷ lines s else onto_first c (lines s)) ≡ c ∷ s
unlines-split c s l ls true e h is_feed =
    rw (e, is_feed refl) (unfold unlines in ap (◌∷◌ line_feed) h)
unlines-split c s l ls false e h is_feed = rw e (unlines-onto_first c l ls ∙ ap (◌∷◌ c) h)

-- Splitting into lines loses nothing.
pub unlines-lines : (s : Text) → unlines (lines s) ≡ s
unfolding lines
unlines-lines [] = unfold unlines in refl
unlines-lines (c ∷ s) =
    let (l, ls, e) = lines-cons s in
    unlines-split c s l ls (c == line_feed) e (subst (λ k. unlines k ≡ s) e (unlines-lines s))
      (λ h. (==_iff c line_feed).0 h)

pub lines-inj : (s t : Text) → lines s ≡ lines t → s ≡ t
lines-inj s t e = sym (unlines-lines s) ∙ ap unlines e ∙ unlines-lines t
