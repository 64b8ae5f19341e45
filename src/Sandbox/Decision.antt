-- ===== src/Sandbox/Decision.antt =====
-- sandbox/decision.go and sandbox/guide.go: the decisions, and the reasons, one constructor for each
-- guide function with that function's arguments.
use goharness.Prelude.{List, Text}

pub data Decision : Type 0 where
  allow : Decision
  deny : Decision
  ask_user : Decision

pub data Reason : Type 0 where
  no_reason : Reason
  sensitive_file : Text → Reason
  device_file : Text → Reason
  outside_workspace : Text → Text → Reason
  ssrf_blocked : Text → List Text → Reason
  command_denied : Text → Text → Reason
  dangerous_pattern : Text → Text → Reason
  url_parse_failed : Text → Text → Reason

pub record FileDecision : Type 0 where
  pub decision : Decision
  pub reason : Reason

-- The result of an enforcing check: nil, a DenyError with its reason, or the system's own error.
pub data Enforced : Type 0 where
  ok : Enforced
  denied : Reason → Enforced
  system_error : Enforced
