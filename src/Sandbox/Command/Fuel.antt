-- ===== src/Sandbox/Command/Fuel.antt =====
-- The loop of extractBaseCommand over leading assignments ends: each round shortens the text.
use mathlib.Core.List.{reverse, reverse_aux}
use mathlib.Core.Option.{some-injective}
use goharness.Prelude.{
  ℕ, zero, suc, ◌+◌, ◌≤◌, ◌<◌, ◌==◌, ◌≡◌, ◌≢◌, inl, inr, subst, [], ◌∷◌, Option, none, some, Text,
  trim_space, trim_left, length, Bool-cases, Option-cases, arith,
}
use goharness.Sandbox.Command.{
  is_gap, from_gap, behind_equals, before_equals, value_of, assignment, is_valid_var_name,
  out_of_fuel, strip_assignments,
}

length-reverse_aux : (s acc : Text) → length (reverse_aux s acc) ≡ length s + length acc
length-reverse_aux [] acc = omega arith
length-reverse_aux (c ∷ s) acc = let h = length-reverse_aux s (c ∷ acc) in omega arith

length-reverse : (s : Text) → length (reverse s) ≡ length s
length-reverse s = let h = length-reverse_aux s [] in omega arith

length-trim_left : (s : Text) → length (trim_left s) ≤ length s
unfolding trim_left
length-trim_left [] = omega arith
length-trim_left (c ∷ s) = ground (arith, length-trim_left s)

length-trim_space : (s : Text) → length (trim_space s) ≤ length s
unfolding trim_space
length-trim_space s =
    let t = reverse (trim_left s) in
    let a = length-reverse (trim_left t) in
    let b = length-trim_left t in
    let c = length-reverse (trim_left s) in let d = length-trim_left s in omega (arith, a, b, c, d)

length-from_gap : (s m : Text) → from_gap s ≡ some m → length m ≤ length s
unfolding from_gap
length-from_gap [] m e = absurd (cc e)
length-from_gap (c ∷ s) m e = elim (Bool-cases (is_gap c)) [
  | inl g ↦
      subst (λ x. length x ≤ suc (length s)) (some-injective (c ∷ s) m (ground arith)) (omega arith)
  | inr g ↦ let k = length-from_gap s m (ground arith) in omega (arith, k)
]

length-behind_equals : (s r : Text) → behind_equals s ≡ some r → length r < length s
unfolding behind_equals
length-behind_equals [] r e = absurd (cc e)
length-behind_equals (c ∷ s) r e = elim (Bool-cases (c == b'=')) [
  | inl g ↦ subst (λ x. length x < suc (length s)) (some-injective s r (ground arith)) (omega arith)
  | inr g ↦ let k = length-behind_equals s r (ground arith) in omega (arith, k)
]

value_of-some : (key r : Text) (o : Option Text) → value_of key o ≡ some r → o ≡ some r
value_of-some key r none e = absurd (cc e)
value_of-some key r (some x) e = elim (Bool-cases (is_valid_var_name key)) [
  | inl v ↦ ground arith
  | inr v ↦ absurd (ground arith)
]

length-assignment : (s r : Text) → assignment s ≡ some r → length r < length s
unfolding assignment
length-assignment s r e =
    length-behind_equals s r (value_of-some (before_equals s) r (behind_equals s) e)

strip_assignments-enough :
    (fuel : ℕ) (s : Text) → length s < fuel → strip_assignments fuel s ≢ out_of_fuel
unfolding strip_assignments
strip_assignments-enough zero s l = absurd (omega arith)
strip_assignments-enough (suc fuel) s l = elim (Option-cases (assignment s)) [
  | inl e ↦ rw (strip_assignments, e) λ q. absurd (cc q)
  | inr (rest, e) ↦ elim (Option-cases (from_gap rest)) [
    | inl g ↦ rw (strip_assignments, e, g) λ q. absurd (cc q)
    | inr (more, g) ↦
        let a = length-assignment s rest e in
        let b = length-from_gap rest more g in
        let c = length-trim_space more in
        rw (strip_assignments, e, g)
          (strip_assignments-enough fuel (trim_space more) (omega (arith, a, b, c)))
  ]
]

-- The loop over the leading assignments of a command ends: one step more than the length of the
-- text is enough for every text.
pub strip_assignments-ne-out_of_fuel :
    (s : Text) → strip_assignments (suc (length s)) s ≢ out_of_fuel
strip_assignments-ne-out_of_fuel s = strip_assignments-enough (suc (length s)) s (omega arith)
