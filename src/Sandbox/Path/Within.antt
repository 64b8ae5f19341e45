-- ===== src/Sandbox/Path/Within.antt =====
-- pathWithinDir by the elements of the two paths: a directory holds exactly the paths that continue
-- its own elements, and never a sibling whose name merely begins alike.
use goharness.Prelude.{
  ◌≡◌, refl, sym, ◌∙◌, ap, ap₂, subst, Bool, true, false, ◌&&◌, List, [], ◌∷◌, ◌++◌, append_assoc,
  Text, text_eq, has_prefix, if◌then◌else◌, arith,
}
use goharness.Sandbox.Path.Segments.{
  Elements, Elements-segments, Boundary-slashed, has_prefix-element, text_eq-element,
}
use goharness.Sandbox.Path.{separator, is_rooted, segments, slashed, print, clean, path_within_dir}

-- The elements of the directory are the first elements of the path.
unfoldable pub starts_with : List Text → List Text → Bool
unfolding text_eq
starts_with [] ps = true
starts_with (d ∷ ds) [] = false
starts_with (d ∷ ds) (p ∷ ps) = text_eq p d && starts_with ds ps

abbrev equal : List Text → List Text → Bool
equal [] [] = true
equal [] (p ∷ ps) = false
equal (d ∷ ds) [] = false
equal (d ∷ ds) (p ∷ ps) = text_eq p d && equal ds ps

abbrev continues : List Text → List Text → Bool
continues [] [] = false
continues [] (p ∷ ps) = true
continues (d ∷ ds) [] = false
continues (d ∷ ds) (p ∷ ps) = text_eq p d && continues ds ps

text_eq-slashed :
    (ds ps : List Text)
    → Elements ds
    → Elements ps
    → text_eq (slashed ps) (slashed ds) ≡ equal ds ps
unfolding slashed text_eq
text_eq-slashed [] [] a b = refl
text_eq-slashed [] (p ∷ ps) a b = refl
text_eq-slashed (d ∷ ds) [] a b = refl
text_eq-slashed (d ∷ ds) (p ∷ ps) a b =
    text_eq-element p d (slashed ps) (slashed ds) b.0.0 a.0.0 (Boundary-slashed ps)
      (Boundary-slashed ds)
    ∙ ap (λ t. text_eq p d && t) (text_eq-slashed ds ps a.1 b.1)

-- The text behind a directory's elements begins with a separator.
after_elements : List Text → Text
after_elements [] = []
after_elements (d ∷ ds) = (d ++ slashed ds) ++ separator ∷ []

slashed-after : (ds : List Text) → slashed ds ++ separator ∷ [] ≡ separator ∷ after_elements ds
unfolding slashed after_elements
slashed-after [] = refl
slashed-after (d ∷ ds) = refl

has_prefix-slashed :
    (ds ps : List Text)
    → Elements ds
    → Elements ps
    → has_prefix (slashed ps) (slashed ds ++ separator ∷ []) ≡ continues ds ps
unfolding slashed has_prefix
has_prefix-slashed [] [] a b = refl
has_prefix-slashed [] (p ∷ ps) a b = refl
has_prefix-slashed (d ∷ ds) [] a b = refl
has_prefix-slashed (d ∷ ds) (p ∷ ps) a b =
    ap (has_prefix (p ++ slashed ps)) (append_assoc d (slashed ds) (separator ∷ []))
    ∙ ap (λ t. has_prefix (p ++ slashed ps) (d ++ t)) (slashed-after ds)
    ∙ has_prefix-element p d (slashed ps) (after_elements ds) b.0.0 a.0.0 (Boundary-slashed ps)
    ∙ ap (λ t. text_eq p d && has_prefix (slashed ps) t) (sym (slashed-after ds))
    ∙ ap (λ t. text_eq p d && t) (has_prefix-slashed ds ps a.1 b.1)

starts_with-cases :
    (ds ps : List Text) → (if equal ds ps then true else continues ds ps) ≡ starts_with ds ps
unfolding starts_with
starts_with-cases [] [] = refl
starts_with-cases [] (p ∷ ps) = refl
starts_with-cases (d ∷ ds) [] = refl
starts_with-cases (d ∷ ds) (p ∷ ps) = ground (arith, starts_with-cases ds ps)

-- `pathWithinDir` on the two cleaned texts.
abbrev within : Text → Text → Bool
within path dir = if text_eq path dir then true else has_prefix path (dir ++ separator ∷ [])

root_within :
    (d : Text) (ds : List Text)
    → Elements (d ∷ ds)
    → within (print true []) (print true (d ∷ ds)) ≡ false
unfolding print has_prefix text_eq
root_within [] ds a = cc (a.0.1)
root_within (c ∷ d) ds a = refl

within-print :
    (d : Text) (ds ps : List Text)
    → Elements (d ∷ ds)
    → Elements ps
    → within (print true ps) (print true (d ∷ ds)) ≡ starts_with (d ∷ ds) ps
unfolding print starts_with
within-print d ds [] a b = root_within d ds a
within-print d ds (p ∷ ps) a b =
    ap₂ (λ (x y : Bool). if x then true else y) (text_eq-slashed (d ∷ ds) (p ∷ ps) a b)
      (has_prefix-slashed (d ∷ ds) (p ∷ ps) a b)
    ∙ starts_with-cases (d ∷ ds) (p ∷ ps)

-- The directory "/".
within-root :
    (p : Text) (ps : List Text)
    → Elements (p ∷ ps)
    → within (print true (p ∷ ps)) (print true []) ≡ false
unfolding print has_prefix text_eq
within-root [] ps a = cc (a.0.1)
within-root (c ∷ p) ps a = ground arith

clean-print : (path : Text) → is_rooted path ≡ true → clean path ≡ print true (segments path)
unfolding clean
clean-print path r = ap (λ b. print b (segments path)) r

path_within_dir-within :
    (path dir : Text) → path_within_dir path dir ≡ within (clean path) (clean dir)
unfolding path_within_dir
path_within_dir-within path dir = refl

within-segments :
    (path dir : Text)
    → is_rooted path ≡ true
    → is_rooted dir ≡ true
    → path_within_dir path dir ≡ within (print true (segments path)) (print true (segments dir))
within-segments path dir r q =
    path_within_dir-within path dir ∙ ap₂ within (clean-print path r) (clean-print dir q)

-- A rooted path lies in a rooted directory other than "/" exactly when the elements of the
-- cleaned directory are the first elements of the cleaned path.
pub path_within_dir-starts_with :
    (path dir d : Text) (ds : List Text)
    → is_rooted path ≡ true
    → is_rooted dir ≡ true
    → segments dir ≡ d ∷ ds
    → path_within_dir path dir ≡ starts_with (segments dir) (segments path)
path_within_dir-starts_with path dir d ds r q e =
    within-segments path dir r q
    ∙ ap (λ l. within (print true (segments path)) (print true l)) e
    ∙ within-print d ds (segments path) (subst Elements e (Elements-segments dir))
        (Elements-segments path)
    ∙ ap (λ l. starts_with l (segments path)) (sym e)

-- The rooted directory "/" holds no rooted path other than itself.
pub path_within_dir-root :
    (path dir p : Text) (ps : List Text)
    → is_rooted path ≡ true
    → is_rooted dir ≡ true
    → segments dir ≡ []
    → segments path ≡ p ∷ ps
    → path_within_dir path dir ≡ false
path_within_dir-root path dir p ps r q e k =
    within-segments path dir r q
    ∙ ap₂ (λ x y. within (print true x) (print true y)) k e
    ∙ within-root p ps (subst Elements k (Elements-segments path))
