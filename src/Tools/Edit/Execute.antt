-- ===== src/Tools/Edit/Execute.antt =====
-- tools/edit.go: Grant and Execute of the edit tool, from the parameters of the call over the check
-- by the sandbox to performEdit. The values of the parameters are JSON; a number stands for its
-- integer part, which is what the code takes of it.
use goharness.Prelude.{
  Bool, true, false, ℤ, pos, List, [], ◌∷◌, ◌++◌, Option, none, some, Text, codes, any,
  if◌then◌else◌,
}
use goharness.Session.State.{SessionWhitelist}
use goharness.Sandbox.Host.{Host}
use goharness.Sandbox.Policy.{SandboxPolicy}
use goharness.Sandbox.Decision.{
  Decision, allow, deny, ask_user, Reason, no_reason, Enforced, ok, denied, system_error,
}
use goharness.Sandbox.File.{check_file, enforce_file}
use goharness.Tools.Params.{Place, get_param, resolve_target_path, path_within_scope}
use goharness.Tools.Edit.Perform.{
  EditParams, EditResult, EditError, Outcome, done, failed, Files, Machine, perform_edit,
}

pub data Value : Type 0 where
  str : Text → Value
  flag : Bool → Value
  number : ℤ → Value
  other : Value

-- What the tools see of a session.
pub record ToolSession : Type 0 where
  pub project_dir : Text
  pub session_dir : Text
  pub sandbox : Option SandboxPolicy

pub record ToolContext : Type 0 where
  pub session : Option ToolSession
  pub session_whitelist : Option SessionWhitelist

-- `panicked` is the nil session that authorizeEdit reads.
pub data ExecuteError : Type 0 where
  missing_param wrong_type : Text → ExecuteError
  sandbox_required panicked : ExecuteError
  not_allowed : Enforced → ExecuteError
  edit_failed : EditError → ExecuteError

pub data Result (A : Type 0) : Type 0 where
  value : A → Result A
  error : ExecuteError → Result A

infixl 5 ◌>>=◌
abbrev pub ◌>>=◌ : {A B : Type 0} → Result A → (A → Result B) → Result B
value a >>= f = f a
error e >>= f = error e

-- `ValidateRequiredString`
abbrev string_value : Text → Option Value → Result Text
string_value key none = error (missing_param key)
string_value key (some (str t)) = value t
string_value key (some _) = error (wrong_type key)

unfoldable pub validate_required_string : List (Text × Value) → Text → Result Text
unfolding get_param
validate_required_string params key = string_value key (get_param params key)

abbrev flag_or_false : Option Value → Bool
flag_or_false (some (flag b)) = b
flag_or_false _ = false

abbrev number_or_zero : Option Value → ℤ
number_or_zero (some (number z)) = z
number_or_zero _ = pos 0

-- `validateEditParams`: the path and the parameters of performEdit.
unfoldable pub validate_edit_params : List (Text × Value) → Result (Text × EditParams)
unfolding validate_required_string get_param
validate_edit_params params = do
  file_path ← validate_required_string params (codes "file_path")
  old_str ← validate_required_string params (codes "old_string")
  new_str ← validate_required_string params (codes "new_string")
  value (
    file_path,
    record {
      old_str = old_str;
      new_str = new_str;
      replace_all = flag_or_false (get_param params (codes "replace_all"));
      limit = number_or_zero (get_param params (codes "limit"));
    },
  )

-- `sessionWhitelistDirs(ctx, "edit")`
abbrev pub edit_dirs : Option SessionWhitelist → List Text
edit_dirs none = []
edit_dirs (some w) = w.edit

abbrev pub admitted : Text → Enforced → Result Text
admitted path ok = value path
admitted path (denied reason) = error (not_allowed (denied reason))
admitted path system_error = error (not_allowed system_error)

module _ (h : Host) (place : Place) (whitelist : List Text) (tc : ToolContext) where
  abbrev pub resolved : ToolSession → Text → Text
  resolved s file_path = (resolve_target_path place file_path s.project_dir s.session_dir).0

  abbrev pub enforced : ToolSession → SandboxPolicy → Text → Enforced
  enforced s policy path =
      enforce_file h policy path s.project_dir (whitelist ++ edit_dirs tc.session_whitelist)

  abbrev pub in_sandbox : ToolSession → Text → Option SandboxPolicy → Result Text
  in_sandbox s path none = error sandbox_required
  in_sandbox s path (some policy) = admitted path (enforced s policy path)

  abbrev pub in_session : Text → Option ToolSession → Result Text
  in_session file_path none = error panicked
  in_session file_path (some s) = in_sandbox s (resolved s file_path) s.sandbox

  -- `authorizeEdit`
  unfoldable pub authorize_edit : Text → Result Text
  unfolding resolve_target_path enforce_file
  authorize_edit file_path = in_session file_path tc.session

  abbrev pub answered : Files × Outcome → Files × Result EditResult
  answered (w, done r) = (w, value r)
  answered (w, failed e) = (w, error (edit_failed e))

  abbrev pub on_authorized : Machine → EditParams → Files → Result Text → Files × Result EditResult
  on_authorized m p w (error e) = (w, error e)
  on_authorized m p w (value path) = answered (perform_edit m path p w)

  abbrev pub on_validated : Machine → Files → Result (Text × EditParams) → Files × Result EditResult
  on_validated m w (error e) = (w, error e)
  on_validated m w (value (file_path, p)) = on_authorized m p w (authorize_edit file_path)

  -- `Execute`
  unfoldable pub execute : Machine → List (Text × Value) → Files → Files × Result EditResult
  unfolding validate_edit_params authorize_edit perform_edit
  execute m params w = on_validated m w (validate_edit_params params)

  -- Whether a directory of the tool's or of the session's whitelist holds the path.
  abbrev pub is_listed : Text → Bool
  is_listed path =
      any (λ dir. path_within_scope dir path) (whitelist ++ edit_dirs tc.session_whitelist)

  abbrev pub decided : Text → Reason → Decision → Bool × Reason
  decided path r allow = (true, no_reason)
  decided path r deny = (false, r)
  decided path r ask_user = if is_listed path then (true, no_reason) else (false, r)

  abbrev pub grant_path : ToolSession → Text → Option SandboxPolicy → Bool × Reason
  grant_path s [] sandbox = (true, no_reason)
  grant_path s (c ∷ path) none = (true, no_reason)
  grant_path s (c ∷ path) (some policy) =
      let dec = check_file h policy (c ∷ path) s.project_dir in
      decided (c ∷ path) dec.reason dec.decision

  abbrev pub grant_in : Text → Option ToolSession → Bool × Reason
  grant_in [] session = (true, no_reason)
  grant_in (c ∷ file_path) none = (true, no_reason)
  grant_in (c ∷ file_path) (some s) = grant_path s (resolved s (c ∷ file_path)) s.sandbox

  abbrev pub text_or_empty : Option Value → Text
  text_or_empty (some (str t)) = t
  text_or_empty _ = []

  -- `Grant`
  unfoldable pub grant : List (Text × Value) → Bool × Reason
  unfolding get_param resolve_target_path check_file path_within_scope
  grant params = grant_in (text_or_empty (get_param params (codes "file_path"))) tc.session
