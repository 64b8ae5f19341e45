-- ===== src/Tools/Edit/Authority.antt =====
-- tools/edit.go: Execute and the check by the sandbox.
use goharness.Prelude.{
  ◌≡◌, ◌≢◌, refl, ap, sym, subst, ◌∙◌, false, List, Option, none, some, Text, text_eq, text_eq-eq,
  Bool-cases, inl, inr,
}
use goharness.Session.Disk.{put}
use goharness.Sandbox.Host.{Host}
use goharness.Sandbox.Policy.{SandboxPolicy}
use goharness.Sandbox.Decision.{Enforced, ok, denied, system_error}
use goharness.Tools.Params.{Place}
use goharness.Tools.Edit.Perform.{EditParams, Outcome, done, failed, Files, Machine, perform_edit}
use goharness.Tools.Edit.Laws.{Edits, perform_edit-Edits}
use goharness.Tools.Edit.Execute.{
  Value, ToolSession, ToolContext, Result, value, error, admitted, resolved, enforced, in_sandbox,
  in_session, authorize_edit, answered, on_authorized, on_validated, execute, validate_edit_params,
}

module _ (h : Host) (place : Place) (whitelist : List Text) (tc : ToolContext) where
  -- There is a session with a sandbox, and the sandbox admits the path.
  abbrev pub Admits : Text → Type 0
  Admits path =
      (s : ToolSession) × (policy : SandboxPolicy) × (tc.session ≡ some s)
      × (s.sandbox ≡ some policy)
      × (enforced h place whitelist tc s policy path ≡ ok)

  Authorized : Result Text → Type 0
  Authorized (value path) = Admits path
  Authorized (error e) = Unit

  authorize-Admits : (file_path : Text) → Authorized (authorize_edit h place whitelist tc file_path)
  unfolding authorize_edit Authorized
  authorize-Admits file_path = in_some tc.session refl
    where
      in_policy :
          (s : ToolSession)
          → tc.session ≡ some s
          → (policy : SandboxPolicy) → s.sandbox ≡ some policy
          → (path : Text) (a : Enforced) → enforced h place whitelist tc s policy path ≡ a
          → Authorized (admitted path a)
      in_policy s e policy f path ok g = (s, policy, e, f, g)
      in_policy s e policy f path (denied r) g = tt
      in_policy s e policy f path system_error g = tt

      in_box :
          (s : ToolSession)
          → tc.session ≡ some s
          → (o : Option SandboxPolicy) → s.sandbox ≡ o
          → (path : Text) → Authorized (in_sandbox h place whitelist tc s path o)
      in_box s e none f path = tt
      in_box s e (some policy) f path =
          in_policy s e policy f path (enforced h place whitelist tc s policy path) refl

      in_some :
          (o : Option ToolSession)
          → tc.session ≡ o
          → Authorized (in_session h place whitelist tc file_path o)
      in_some none e = tt
      in_some (some s) e = in_box s e s.sandbox refl (resolved h place whitelist tc s file_path)

  -- What differs between the disks is the path that was written.
  Edits-path :
      (m : Machine) (path : Text) (p : EditParams) (w : Files) (r : Files × Outcome)
      → Edits m path p w r
      → (q : Text) → r.0.disk.files q ≢ w.disk.files q
      → q ≡ path
  unfolding put
  Edits-path m path p w (w', failed e) g q d = absurd (d (ap (λ x. x.files q) g))
  Edits-path m path p w (w', done r) (content, updated, there, g, wrote) q d =
      elim (Bool-cases (text_eq q path)) [
        | inl e ↦ text_eq-eq q path e
        | inr e ↦ absurd (d (ap (λ x. x.files q) g ∙ unchanged e))
      ]
    where
      unchanged : text_eq q path ≡ false → (put path (some updated) w.disk).files q ≡ w.disk.files q
      unchanged e = rw e refl

  module _ (m : Machine) (w : Files) where
    Authorized-Admits :
        (p : EditParams) (r : Result Text)
        → Authorized r
        → (q : Text) → (on_authorized h place whitelist tc m p w r).0.disk.files q ≢ w.disk.files q
        → Admits q
    unfolding Authorized
    Authorized-Admits p (error e) a q d = absurd (d refl)
    Authorized-Admits p (value path) a q d =
        subst Admits
          (sym (
            Edits-path m path p w (perform_edit m path p w) (perform_edit-Edits m path p w) q
              (kept (perform_edit m path p w) d)))
          a
      where
        kept :
            (r : Files × Outcome)
            → (answered h place whitelist tc r).0.disk.files q ≢ w.disk.files q
            → r.0.disk.files q ≢ w.disk.files q
        kept (v, done r) d = d
        kept (v, failed e) d = d

    -- When Execute of the edit tool, whatever its parameters, leaves a path with another content
    -- than before, then the call has a session with a sandbox, and EnforceFileWithWhitelist
    -- admits that path, with the directories that the tool and the session were granted.
    pub execute-Admits :
        (params : List (Text × Value)) (q : Text)
        → (execute h place whitelist tc m params w).0.disk.files q ≢ w.disk.files q
        → Admits q
    unfolding execute
    execute-Admits params q d = validated (validate_edit_params params) d
      where
        validated :
            (r : Result (Text × EditParams))
            → (on_validated h place whitelist tc m w r).0.disk.files q ≢ w.disk.files q
            → Admits q
        validated (error e) d = absurd (d refl)
        validated (value (file_path, p)) d =
            Authorized-Admits p (authorize_edit h place whitelist tc file_path)
              (authorize-Admits file_path) q d
