-- ===== src/Sandbox/State.antt =====
-- sandbox/sandbox.go: the sandbox, whose policy is replaced as a whole. `none` is the nil argument.
use goharness.Prelude.{Bool, true, false, ◌≡◌, ap, subst, Option, none, some}
use goharness.Sandbox.Host.{Host}
use goharness.Sandbox.Policy.{SandboxPolicy, PolicyError, Compiled, ok, fail, compile, normalized}
use goharness.Sandbox.Policy.Laws.{Complete, Compiles, compile-Compiles}

pub record Sandbox : Type 0 where
  pub policy : SandboxPolicy

pub data SandboxError : Type 0 where
  nil_policy nil_logger : SandboxError
  bad_policy : PolicyError → SandboxError

pub data Result : Type 0 where
  made : Sandbox → Result
  refused : SandboxError → Result

abbrev pub made_of : Compiled → Result
made_of (ok p) = made (record { policy = p })
made_of (fail e) = refused (bad_policy e)

-- `NewSandbox`
unfoldable pub new_sandbox : Host → Option SandboxPolicy → Bool → Result
unfolding compile
new_sandbox h none has_logger = refused nil_policy
new_sandbox h (some p) false = refused nil_logger
new_sandbox h (some p) true = made_of (compile h p)

abbrev pub replaced : Sandbox → Compiled → Sandbox × Option SandboxError
replaced s (ok p) = (record s { policy = p }, none)
replaced s (fail e) = (s, some (bad_policy e))

-- `UpdatePolicy`
unfoldable pub update_policy : Host → Sandbox → Option SandboxPolicy → Sandbox × Option SandboxError
unfolding compile
update_policy h s none = (s, some nil_policy)
update_policy h s (some p) = replaced s (compile h p)

-- The states of a sandbox: made by NewSandbox, or behind any number of calls of UpdatePolicy.
pub data Reachable (h : Host) : Sandbox → Type 0 where
  created :
      (p : Option SandboxPolicy) (has_logger : Bool) {s : Sandbox}
      → new_sandbox h p has_logger ≡ made s
      → Reachable h s
  updated :
      {s : Sandbox} (p : Option SandboxPolicy) → Reachable h s → Reachable h (update_policy h s p).0

-- The policy is a normalized one, and no subnet or pattern in it is nil.
abbrev pub IsCompiled : Host → SandboxPolicy → Type 0
IsCompiled h q = (p : SandboxPolicy) × (q ≡ normalized h p) × Complete q

abbrev policy_or : SandboxPolicy → Result → SandboxPolicy
policy_or d (refused e) = d
policy_or d (made s) = s.policy

made-IsCompiled :
    (h : Host) (p : SandboxPolicy) (c : Compiled) (s : Sandbox)
    → Compiles h p c
    → made_of c ≡ made s
    → IsCompiled h s.policy
made-IsCompiled h p (ok q) s k e = subst (IsCompiled h) (ap (policy_or q) e) (p, k.0, k.1)
made-IsCompiled h p (fail x) s k e = absurd (cc e)

new_sandbox-IsCompiled :
    (h : Host) (p : Option SandboxPolicy) (has_logger : Bool) (s : Sandbox)
    → new_sandbox h p has_logger ≡ made s
    → IsCompiled h s.policy
unfolding new_sandbox
new_sandbox-IsCompiled h none l s e = absurd (cc e)
new_sandbox-IsCompiled h (some p) false s e = absurd (cc e)
new_sandbox-IsCompiled h (some p) true s e =
    made-IsCompiled h p (compile h p) s (compile-Compiles h p) e

replaced-IsCompiled :
    (h : Host) (p : SandboxPolicy) (s : Sandbox) (c : Compiled)
    → Compiles h p c
    → IsCompiled h s.policy
    → IsCompiled h (replaced s c).0.policy
replaced-IsCompiled h p s (ok q) k v = (p, k.0, k.1)
replaced-IsCompiled h p s (fail e) k v = v

update_policy-IsCompiled :
    (h : Host) (s : Sandbox) (p : Option SandboxPolicy)
    → IsCompiled h s.policy
    → IsCompiled h (update_policy h s p).0.policy
unfolding update_policy
update_policy-IsCompiled h s none v = v
update_policy-IsCompiled h s (some p) v =
    replaced-IsCompiled h p s (compile h p) (compile-Compiles h p) v

-- After NewSandbox and any number of calls of UpdatePolicy, failed ones included, the policy of a
-- sandbox is a normalized one with no nil subnet and no nil pattern.
pub Reachable-IsCompiled : (h : Host) (s : Sandbox) → Reachable h s → IsCompiled h s.policy
Reachable-IsCompiled h s (created p l e) = new_sandbox-IsCompiled h p l s e
Reachable-IsCompiled h s (updated {s = t} p r) =
    update_policy-IsCompiled h t p (Reachable-IsCompiled h t r)
