-- ===== src/Tools/Params/Laws.antt =====
-- tools/utils.go: TruncateString.
use goharness.Prelude.{
  ℕ, ◌-◌, ◌≤◌, ◌<◌, ◌≡◌, true, false, [], ◌∷◌, inl, inr, Text, length, take, length-append,
  length-take, Bool-cases, leb, arith,
}
use goharness.Tools.Params.{truncate_string}

-- The text fits, is a prefix of the given text where it is short, and is that text where it fits.
pub length-truncate_string : (s : Text) (n : ℕ) → length (truncate_string s n) ≤ n
unfolding truncate_string
length-truncate_string s n = elim (Bool-cases (leb (length s) n)) [
  | inl e ↦ rw e (omega (arith, fits e))
  | inr e ↦ rw e (elim (Bool-cases (leb n 3)) [
    | inl t ↦ rw t (omega (arith, length-take n s (omega (arith, over e))))
    | inr t ↦ rw t (
        omega (
          arith,
          length-append (take (n - 3) s) (46 ∷ 46 ∷ 46 ∷ []),
          long t,
          length-take (n - 3) s (omega (arith, over e)),
        ))
  ])
]
  where
    fits : leb (length s) n ≡ true → length s ≤ n
    fits e = ground arith

    over : leb (length s) n ≡ false → n < length s
    over e = ground arith

    long : leb n 3 ≡ false → 3 < n
    long e = ground arith
