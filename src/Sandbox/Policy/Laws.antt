-- ===== src/Sandbox/Policy/Laws.antt =====
-- What the compilation of a policy promises.
use mathlib.Core.Option.{some-injective}
use goharness.Prelude.{
  ℕ, suc, ◌+◌, ◌≡◌, refl, sym, ◌∙◌, subst, true, List, [], ◌∷◌, Option, none, some, is_some, take,
  get_elem?, all, arith,
}
use goharness.Sandbox.Host.{Host}
use goharness.Sandbox.Policy.{
  SandboxPolicy, nil_deny_subnet, nil_allow_subnet, nil_pattern, Compiled, ok, fail, first_nil,
  normalized, checked_patterns, checked_allow, checked_deny, compile,
}

module _ {ℓ} {A : Type ℓ} where
  abbrev pub NoNil : List (Option A) → Type 0
  NoNil xs = all is_some xs ≡ true

  -- The element at `i` is nil and none before it is.
  abbrev pub FirstNil : ℕ → List (Option A) → Type ℓ
  FirstNil i xs = NoNil (take i xs) × (get_elem? xs i ≡ some none)

  first_nil-none : (i : ℕ) (xs : List (Option A)) → first_nil i xs ≡ none → NoNil xs
  unfolding first_nil
  first_nil-none i [] e = refl
  first_nil-none i (none ∷ xs) e = absurd (cc e)
  first_nil-none i (some x ∷ xs) e = first_nil-none (i + 1) xs e

  first_nil-FirstNil :
      (i k : ℕ) (xs : List (Option A))
      → first_nil i xs ≡ some k
      → (n : ℕ) × (k ≡ i + n) × FirstNil n xs
  unfolding first_nil
  first_nil-FirstNil i k [] e = absurd (cc e)
  first_nil-FirstNil i k (none ∷ xs) e = (0, sym (some-injective i k e) ∙ omega arith, (refl, refl))
  first_nil-FirstNil i k (some x ∷ xs) e =
      let (n, q, (a, b)) = first_nil-FirstNil (i + 1) k xs e in (suc n, omega (arith, q), (a, b))

  first_nil-at : (k : ℕ) (xs : List (Option A)) → first_nil 0 xs ≡ some k → FirstNil k xs
  first_nil-at k xs e =
      let (n, q, f) = first_nil-FirstNil 0 k xs e in subst (λ i. FirstNil i xs) (omega (arith, q)) f

-- No pointer in the policy is nil.
abbrev pub Complete : SandboxPolicy → Type 0
Complete q =
    NoNil q.network_deny_subnets × NoNil q.network_allow_subnets × NoNil q.denied_command_patterns

abbrev pub Compiles : Host → SandboxPolicy → Compiled → Type 0
Compiles h p (ok q) = (q ≡ normalized h p) × Complete q
Compiles h p (fail (nil_deny_subnet i)) = FirstNil i p.network_deny_subnets
Compiles h p (fail (nil_allow_subnet i)) =
    NoNil p.network_deny_subnets × FirstNil i p.network_allow_subnets
Compiles h p (fail (nil_pattern i)) =
    NoNil p.network_deny_subnets
    × NoNil p.network_allow_subnets
    × FirstNil i p.denied_command_patterns

patterns-Compiles :
    (h : Host) (p : SandboxPolicy) (o : Option ℕ)
    → first_nil 0 p.denied_command_patterns ≡ o
    → NoNil p.network_deny_subnets
    → NoNil p.network_allow_subnets
    → Compiles h p (checked_patterns (normalized h p) o)
unfolding normalized
patterns-Compiles h p none e a b = (refl, (a, b, first_nil-none 0 p.denied_command_patterns e))
patterns-Compiles h p (some i) e a b = (a, b, first_nil-at i p.denied_command_patterns e)

allow-Compiles :
    (h : Host) (p : SandboxPolicy) (o : Option ℕ)
    → first_nil 0 p.network_allow_subnets ≡ o
    → NoNil p.network_deny_subnets
    → Compiles h p (checked_allow (normalized h p) o)
unfolding normalized
allow-Compiles h p none e a =
    patterns-Compiles h p (first_nil 0 p.denied_command_patterns) refl a
      (first_nil-none 0 p.network_allow_subnets e)
allow-Compiles h p (some i) e a = (a, first_nil-at i p.network_allow_subnets e)

deny-Compiles :
    (h : Host) (p : SandboxPolicy) (o : Option ℕ)
    → first_nil 0 p.network_deny_subnets ≡ o
    → Compiles h p (checked_deny (normalized h p) o)
unfolding normalized
deny-Compiles h p none e =
    allow-Compiles h p (first_nil 0 p.network_allow_subnets) refl
      (first_nil-none 0 p.network_deny_subnets e)
deny-Compiles h p (some i) e = first_nil-at i p.network_deny_subnets e

-- Compile returns the normalized policy only if no subnet and no pattern in it is nil; otherwise
-- its error names the index of the first nil in the first list, of denied subnets, allowed
-- subnets and patterns, that has one.
pub compile-Compiles : (h : Host) (p : SandboxPolicy) → Compiles h p (compile h p)
unfolding compile normalized
compile-Compiles h p = deny-Compiles h p (first_nil 0 p.network_deny_subnets) refl
