-- ===== src/Sandbox/File/Admission.antt =====
-- Which files EnforceFile and EnforceFileWithWhitelist admit.
use mathlib.Core.List.{Memᴰ}
use goharness.Prelude.{
  ◌≡◌, ◌↔◌, refl, Bool, true, false, not, ◌&&◌, List, ◌++◌, Text, map, arith, if◌then◌else◌,
}
use goharness.Sandbox.Host.{Host, Resolved, resolved, not_exist, unreadable}
use goharness.Sandbox.Path.{clean}
use goharness.Sandbox.Policy.{SandboxPolicy}
use goharness.Sandbox.Decision.{Reason, ok, denied, device_file, sensitive_file, outside_workspace}
use goharness.Sandbox.File.{
  is_device_path, is_sensitive, is_allowed_file, is_outside_workspace, enforced_entry,
  with_allowed_paths, with_allowed_dirs, resolve_symlinks, enforce_real, enforce_resolved,
  enforce_file,
}
use goharness.Sandbox.File.Members.{contains-Mem, Mem-contains}
use goharness.Sandbox.File.Sensitive.{Sensitive, Exempt, is_sensitive_iff, is_allowed_file_iff}
use goharness.Sandbox.File.Boundary.{Inside, is_outside_workspace_iff}

-- No device, not sensitive unless it is exempt under `listed`, and inside the workspace of `dirs`.
pub record Harmless (h : Host) (p listed : SandboxPolicy) (dirs : List Text)
    (path project_dir : Text) : Type 0 where
  pub no_device : ¬ Memᴰ (clean path) p.denied_device_paths
  pub no_secret : Sensitive h path p → Exempt h path listed
  pub inside : Inside path project_dir dirs

verdict-ok :
    (r q o : Reason) (device allowed secret outside : Bool)
    → (if device
        then denied r
        else if not allowed && secret
        then denied q
        else if outside
        then denied o
        else ok)
      ≡ ok
    → (device ≡ false) × (secret ≡ true → allowed ≡ true) × (outside ≡ false)
verdict-ok r q o device allowed secret outside e = ground arith

ok-verdict :
    (r q o : Reason) (device allowed secret outside : Bool)
    → device ≡ false
    → (secret ≡ true → allowed ≡ true)
    → outside ≡ false
    → (if device
        then denied r
        else if not allowed && secret
        then denied q
        else if outside
        then denied o
        else ok)
      ≡ ok
ok-verdict r q o device allowed secret outside d s e = ground arith

real-Harmless :
    (h : Host) (p listed : SandboxPolicy) (dirs : List Text) (path project_dir : Text)
    → enforce_real h p listed (with_allowed_dirs dirs p) path project_dir ≡ ok
    → Harmless h p listed dirs path project_dir
unfolding enforce_real is_device_path
real-Harmless h p listed dirs path project_dir e =
    let (d, s, o) =
      verdict-ok (device_file path) (sensitive_file path) (outside_workspace path project_dir)
        (is_device_path path p) (is_allowed_file h path listed) (is_sensitive h path p)
        (is_outside_workspace path project_dir (with_allowed_dirs dirs p)) e in
    record {
      no_device = λ m. absurd (cc (Mem-contains p.denied_device_paths (clean path) m, d));
      no_secret = λ q. (is_allowed_file_iff h path listed).0 (s ((is_sensitive_iff h path p).1 q));
      inside = (is_outside_workspace_iff path project_dir (with_allowed_dirs dirs p)).0 o;
    }

not-true-false : (b : Bool) → ¬ (b ≡ true) → b ≡ false
not-true-false true n = absurd (n refl)
not-true-false false n = refl

Harmless-real :
    (h : Host) (p listed : SandboxPolicy) (dirs : List Text) (path project_dir : Text)
    → Harmless h p listed dirs path project_dir
    → enforce_real h p listed (with_allowed_dirs dirs p) path project_dir ≡ ok
unfolding enforce_real is_device_path
Harmless-real h p listed dirs path project_dir q =
    ok-verdict (device_file path) (sensitive_file path) (outside_workspace path project_dir)
      (is_device_path path p) (is_allowed_file h path listed) (is_sensitive h path p)
      (is_outside_workspace path project_dir (with_allowed_dirs dirs p))
      (not-true-false _ (λ e. q.no_device (contains-Mem p.denied_device_paths (clean path) e)))
      (λ s. (is_allowed_file_iff h path listed).1 (q.no_secret ((is_sensitive_iff h path p).0 s)))
      ((is_outside_workspace_iff path project_dir (with_allowed_dirs dirs p)).1 q.inside)

-- An existing path is judged by its real path, with the policy's paths resolved alike; a path that
-- does not exist is judged as it is written, and any other error admits nothing.
abbrev pub Admitted : Host → SandboxPolicy → Text → Text → List Text → Resolved → Type 0
Admitted h p path project_dir extra (resolved real) =
    Harmless h p (with_allowed_paths (map (enforced_entry h) p.allowed_file_paths) p)
      (map (resolve_symlinks h) p.allowed_dirs ++ map (resolve_symlinks h) extra) real
      (resolve_symlinks h project_dir)
Admitted h p path project_dir extra not_exist =
    Harmless h p p (p.allowed_dirs ++ extra) path project_dir
Admitted h p path project_dir extra unreadable = ⊥

resolved-Admitted :
    (h : Host) (p : SandboxPolicy) (path project_dir : Text) (extra : List Text) (r : Resolved)
    → (enforce_resolved h p path project_dir extra r ≡ ok) ↔ Admitted h p path project_dir extra r
resolved-Admitted h p path project_dir extra (resolved real) = (
  real-Harmless h p (with_allowed_paths (map (enforced_entry h) p.allowed_file_paths) p)
      (map (resolve_symlinks h) p.allowed_dirs ++ map (resolve_symlinks h) extra) real
      (resolve_symlinks h project_dir),
  Harmless-real h p (with_allowed_paths (map (enforced_entry h) p.allowed_file_paths) p)
      (map (resolve_symlinks h) p.allowed_dirs ++ map (resolve_symlinks h) extra) real
      (resolve_symlinks h project_dir),
)
resolved-Admitted h p path project_dir extra not_exist = (
  real-Harmless h p p (p.allowed_dirs ++ extra) path project_dir,
  Harmless-real h p p (p.allowed_dirs ++ extra) path project_dir,
)
resolved-Admitted h p path project_dir extra unreadable = (λ e. absurd (cc e), λ q. absurd q)

-- EnforceFileWithWhitelist admits a path exactly when the file behind it, its links resolved if
-- it exists, is no denied device, is not sensitive unless the whitelist exempts it, and lies in
-- the project directory, an allowed directory or one that the session granted, when there is any
-- of these. An error of the file system other than "not exist" admits nothing.
pub enforce_file_iff :
    (h : Host) (p : SandboxPolicy) (path project_dir : Text) (extra : List Text)
    → (enforce_file h p path project_dir extra ≡ ok)
      ↔ Admitted h p path project_dir extra (h.eval_symlinks path)
unfolding enforce_file
enforce_file_iff h p path project_dir extra =
    resolved-Admitted h p path project_dir extra (h.eval_symlinks path)
