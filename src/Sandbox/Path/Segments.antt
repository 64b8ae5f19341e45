-- ===== src/Sandbox/Path/Segments.antt =====
-- The elements of a cleaned path, and how two of them compare inside longer texts.
use mathlib.Core.List.{reverse, reverse-cons}
use goharness.Prelude.{
  ℕ, ◌==◌, ◌≡◌, refl, Bool, true, false, ◌&&◌, List, [], ◌∷◌, ◌++◌, Text, text_eq, has_prefix, inl,
  inr, Bool-cases, arith,
}
use goharness.Sandbox.Path.{
  separator, dot_dot, onto_first, split, is_rooted, back_up, clean_step, clean_steps, segments,
  slashed,
}

-- An element of a cleaned path: not empty, and without a separator.
abbrev pub NoSlash : Text → Type 0
NoSlash [] = Unit {0}
NoSlash (c ∷ s) = ((c == separator) ≡ false) × NoSlash s

abbrev pub NoSlashes : List Text → Type 0
NoSlashes [] = Unit {0}
NoSlashes (s ∷ ss) = NoSlash s × NoSlashes ss

abbrev pub Elements : List Text → Type 0
Elements [] = Unit {0}
Elements (s ∷ ss) = (NoSlash s × (text_eq s [] ≡ false)) × Elements ss

NoSlashes-onto_first :
    (c : ℕ) (ss : List Text) → (c == separator) ≡ false → NoSlashes ss → NoSlashes (onto_first c ss)
NoSlashes-onto_first c [] h n = ((h, tt), tt)
NoSlashes-onto_first c (s ∷ ss) h n = ((h, n.0), n.1)

NoSlashes-split : (s : Text) → NoSlashes (split s)
unfolding split
NoSlashes-split [] = (tt, tt)
NoSlashes-split (c ∷ s) = elim (Bool-cases (c == separator)) [
  | inl e ↦ rw e (tt, NoSlashes-split s)
  | inr e ↦ rw e (NoSlashes-onto_first c (split s) e (NoSlashes-split s))
]

dot_dot-element : NoSlash dot_dot × (text_eq dot_dot [] ≡ false)
unfolding text_eq
dot_dot-element = ((refl, (refl, tt)), refl)

Elements-back_up : (r : Bool) (out : List Text) → Elements out → Elements (back_up r out)
Elements-back_up true [] n = tt
Elements-back_up false [] n = (dot_dot-element, tt)
Elements-back_up r (top ∷ below) n = elim (Bool-cases (text_eq top dot_dot)) [
  | inl e ↦ rw e (dot_dot-element, n)
  | inr e ↦ rw e (n.1)
]

Elements-clean_step :
    (r : Bool) (out : List Text) (seg : Text)
    → Elements out
    → NoSlash seg
    → Elements (clean_step r out seg)
unfolding clean_step
Elements-clean_step r out seg n k = elim (Bool-cases (text_eq seg [])) [
  | inl e ↦ rw e n
  | inr e ↦ elim (Bool-cases (text_eq seg (b'.' ∷ []))) [
    | inl f ↦ rw (e, f) n
    | inr f ↦ elim (Bool-cases (text_eq seg dot_dot)) [
      | inl g ↦ rw (e, f, g) (Elements-back_up r out n)
      | inr g ↦ rw (e, f, g) ((k, e), n)
    ]
  ]
]

Elements-clean_steps :
    (r : Bool) (out segs : List Text)
    → Elements out
    → NoSlashes segs
    → Elements (clean_steps r out segs)
unfolding clean_steps
Elements-clean_steps r out [] n k = n
Elements-clean_steps r out (seg ∷ segs) n k =
    Elements-clean_steps r (clean_step r out seg) segs (Elements-clean_step r out seg n k.0) k.1

Elements-append : (xs ys : List Text) → Elements xs → Elements ys → Elements (xs ++ ys)
Elements-append [] ys a b = b
Elements-append (x ∷ xs) ys a b = (a.0, Elements-append xs ys a.1 b)

Elements-reverse : (xs : List Text) → Elements xs → Elements (reverse xs)
Elements-reverse [] a = tt
Elements-reverse (x ∷ xs) a =
    rw (reverse-cons x xs)
      (Elements-append (reverse xs) (x ∷ []) (Elements-reverse xs a.1) (a.0, tt))

pub Elements-segments : (path : Text) → Elements (segments path)
unfolding segments
Elements-segments path =
    Elements-reverse (clean_steps (is_rooted path) [] (split path))
      (Elements-clean_steps (is_rooted path) [] (split path) tt (NoSlashes-split path))

-- A text that is empty or starts with a separator.
abbrev pub Boundary : Text → Type 0
Boundary [] = Unit {0}
Boundary (c ∷ s) = (c == separator) ≡ true

pub Boundary-slashed : (ss : List Text) → Boundary (slashed ss)
unfolding slashed
Boundary-slashed [] = tt
Boundary-slashed (s ∷ ss) = refl

-- Two elements are compared up to the separators behind them.
pub has_prefix-element :
    (p d x y : Text)
    → NoSlash p
    → NoSlash d
    → Boundary x
    → has_prefix (p ++ x) (d ++ separator ∷ y) ≡ (text_eq p d && has_prefix x (separator ∷ y))
unfolding has_prefix text_eq
has_prefix-element [] [] x y n k b = refl
has_prefix-element [] (e ∷ d) [] y n k b = refl
has_prefix-element [] (e ∷ d) (c ∷ x) y n k b = ground arith
has_prefix-element (c ∷ p) [] x y n k b = ground arith
has_prefix-element (c ∷ p) (e ∷ d) x y n k b = ground (arith, has_prefix-element p d x y n.1 k.1 b)

pub text_eq-element :
    (p d x y : Text)
    → NoSlash p
    → NoSlash d
    → Boundary x
    → Boundary y
    → text_eq (p ++ x) (d ++ y) ≡ (text_eq p d && text_eq x y)
unfolding text_eq
text_eq-element [] [] x y n k b w = refl
text_eq-element [] (e ∷ d) [] y n k b w = refl
text_eq-element [] (e ∷ d) (c ∷ x) y n k b w = ground arith
text_eq-element (c ∷ p) [] x [] n k b w = refl
text_eq-element (c ∷ p) [] x (e ∷ y) n k b w = ground arith
text_eq-element (c ∷ p) (e ∷ d) x y n k b w = ground (arith, text_eq-element p d x y n.1 k.1 b w)
