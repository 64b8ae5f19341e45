-- ===== src/Sandbox/File/Boundary.antt =====
-- The boundary of the workspace: what is inside, and how the directories of a session widen it.
use mathlib.Core.List.{Memᴰ}
use goharness.Prelude.{
  ◌≡◌, ◌≢◌, ◌↔◌, refl, sym, ◌∙◌, ap, Bool, true, false, not, ◌||◌, List, [], ◌∷◌, ◌++◌, Text,
  text_eq, text_eq_iff, text_eq-eq, any, any-append, append-nil, map, inl, inr, Bool-cases, arith,
  if◌then◌else◌,
}
use goharness.Sandbox.File.Members.{any-Mem, Mem-any}
use goharness.Sandbox.Host.{Host, Resolved, resolved, not_exist, unreadable}
use goharness.Sandbox.Path.{path_within_dir}
use goharness.Sandbox.Policy.{SandboxPolicy}
use goharness.Sandbox.Decision.{
  Reason, Enforced, ok, denied, outside_workspace, device_file, sensitive_file,
}
use goharness.Sandbox.File.{
  is_empty, is_outside_workspace, with_allowed_dirs, resolve_symlinks, enforce_real,
  enforce_resolved, enforce_file,
}

pub data Inside (path project_dir : Text) (dirs : List Text) : Type 0 where
  in_project :
      project_dir ≢ [] → path_within_dir path project_dir ≡ true → Inside path project_dir dirs
  in_dir :
      {dir : Text} → Memᴰ dir dirs → path_within_dir path dir ≡ true → Inside path project_dir dirs
  unlimited : project_dir ≡ [] → dirs ≡ [] → Inside path project_dir dirs

empty-nil : (ds : List Text) → is_empty ds ≡ true → ds ≡ []
empty-nil [] h = refl
empty-nil (d ∷ ds) h = absurd (ground arith)

nonempty-ne : (t : Text) → text_eq t [] ≡ false → t ≢ []
nonempty-ne t h e = absurd (cc ((text_eq_iff t []).1 e, h))

ne-nonempty : (t : Text) → t ≢ [] → text_eq t [] ≡ false
ne-nonempty t n = elim (Bool-cases (text_eq t [])) [
  | inl e ↦ absurd (n (text_eq-eq t [] e))
  | inr e ↦ e
]

is_outside_workspace-Inside :
    (path project_dir : Text) (p : SandboxPolicy)
    → is_outside_workspace path project_dir p ≡ false
    → Inside path project_dir (p.allowed_dirs)
unfolding is_outside_workspace
is_outside_workspace-Inside path project_dir p h = elim (Bool-cases (text_eq project_dir [])) [
  | inl e ↦ elim (Bool-cases (any (path_within_dir path) p.allowed_dirs)) [
    | inl a ↦ let (d, m, k) = any-Mem (path_within_dir path) p.allowed_dirs a in in_dir m k
    | inr a ↦ unlimited (text_eq-eq project_dir [] e) (empty-nil p.allowed_dirs (ground arith))
  ]
  | inr e ↦ elim (Bool-cases (path_within_dir path project_dir)) [
    | inl w ↦ in_project (nonempty-ne project_dir e) w
    | inr w ↦
        let (d, m, k) = any-Mem (path_within_dir path) p.allowed_dirs (ground arith) in in_dir m k
  ]
]

Inside-is_outside_workspace :
    (path project_dir : Text) (p : SandboxPolicy)
    → Inside path project_dir p.allowed_dirs
    → is_outside_workspace path project_dir p ≡ false
unfolding is_outside_workspace
Inside-is_outside_workspace path project_dir p (in_project n w) =
    rw (ne-nonempty project_dir n, w) refl
Inside-is_outside_workspace path project_dir p (in_dir {dir} m k) =
    let a = Mem-any (path_within_dir path) dir p.allowed_dirs m k in ground arith
Inside-is_outside_workspace path project_dir p (unlimited e d) =
    let a = (text_eq_iff project_dir []).1 e in
    let b : is_empty p.allowed_dirs ≡ true = ap is_empty d in ground arith

-- isOutsideWorkspace answers no exactly for a path inside the project directory, when one is
-- given, or inside one of the allowed directories, or when there is neither.
pub is_outside_workspace_iff :
    (path project_dir : Text) (p : SandboxPolicy)
    → (is_outside_workspace path project_dir p ≡ false) ↔ Inside path project_dir p.allowed_dirs
is_outside_workspace_iff path project_dir p =
    (is_outside_workspace-Inside path project_dir p, Inside-is_outside_workspace path project_dir p)

-- The same answer, or a refusal at the boundary that became an admission.
pub data Widened : Enforced → Enforced → Type 0 where
  same : {r : Enforced} → Widened r r
  opened : {path dir : Text} → Widened (denied (outside_workspace path dir)) ok

-- Some directory limits the workspace.
abbrev pub limited : Text → List Text → Bool
limited project_dir dirs = not (text_eq project_dir []) || not (is_empty dirs)

outside-widened :
    (path project_dir : Text) (p : SandboxPolicy) (ds es : List Text)
    → limited project_dir ds ≡ true
    → is_outside_workspace path project_dir (with_allowed_dirs ds p) ≡ false
    → is_outside_workspace path project_dir (with_allowed_dirs (ds ++ es) p) ≡ false
unfolding is_outside_workspace
outside-widened path project_dir p ds es l h =
    let a = any-append (path_within_dir path) ds es in ground arith

verdict-Widened :
    (path dir : Text) (r q : Reason) (device secret outside outside' : Bool)
    → (outside ≡ false → outside' ≡ false)
    → Widened
        (if device
          then denied r
          else if secret
          then denied q
          else if outside
          then denied (outside_workspace path dir)
          else ok)
        (if device
          then denied r
          else if secret
          then denied q
          else if outside'
          then denied (outside_workspace path dir)
          else ok)
verdict-Widened path dir r q true secret outside outside' f = same
verdict-Widened path dir r q false true outside outside' f = same
verdict-Widened path dir r q false false true true f = same
verdict-Widened path dir r q false false true false f = opened
verdict-Widened path dir r q false false false true f = absurd (cc (f refl))
verdict-Widened path dir r q false false false false f = same

enforce_real-Widened :
    (h : Host) (p listed : SandboxPolicy) (ds es : List Text) (path project_dir : Text)
    → limited project_dir ds ≡ true
    → Widened
        (enforce_real h p listed (with_allowed_dirs ds p) path project_dir)
        (enforce_real h p listed (with_allowed_dirs (ds ++ es) p) path project_dir)
unfolding enforce_real
enforce_real-Widened h p listed ds es path project_dir l =
    verdict-Widened path project_dir (device_file path) (sensitive_file path) _ _ _ _
      (outside-widened path project_dir p ds es l)

is_empty-map : (f : Text → Text) (ds : List Text) → is_empty (map f ds) ≡ is_empty ds
is_empty-map f [] = refl
is_empty-map f (d ∷ ds) = refl

enforce_resolved-Widened :
    (h : Host) (p : SandboxPolicy) (path project_dir : Text) (extra : List Text) (r : Resolved)
    → limited project_dir p.allowed_dirs ≡ true
    → limited (resolve_symlinks h project_dir) p.allowed_dirs ≡ true
    → Widened
        (enforce_resolved h p path project_dir [] r)
        (enforce_resolved h p path project_dir extra r)
enforce_resolved-Widened h p path project_dir extra (resolved real) l k =
    rw (append-nil (map (resolve_symlinks h) p.allowed_dirs)) (
      enforce_real-Widened h p _ (map (resolve_symlinks h) p.allowed_dirs)
        (map (resolve_symlinks h) extra) real (resolve_symlinks h project_dir)
        (rw (is_empty-map (resolve_symlinks h) p.allowed_dirs) k))
enforce_resolved-Widened h p path project_dir extra not_exist l k =
    rw (append-nil p.allowed_dirs)
      (enforce_real-Widened h p p p.allowed_dirs extra path project_dir l)
enforce_resolved-Widened h p path project_dir extra unreadable l k = same

-- When some directory limits the workspace, before and after the links of the project directory
-- are resolved, the directories that a session granted change nothing in the answer of
-- EnforceFileWithWhitelist but that a path refused as outside the workspace may pass: devices and
-- sensitive files stay refused, and what passed without them still passes.
pub enforce_file-Widened :
    (h : Host) (p : SandboxPolicy) (path project_dir : Text) (extra : List Text)
    → limited project_dir p.allowed_dirs ≡ true
    → limited (resolve_symlinks h project_dir) p.allowed_dirs ≡ true
    → Widened (enforce_file h p path project_dir []) (enforce_file h p path project_dir extra)
unfolding enforce_file
enforce_file-Widened h p path project_dir extra =
    enforce_resolved-Widened h p path project_dir extra (h.eval_symlinks path)

verdict-narrowed :
    (r q o : Reason) (device secret outside : Bool)
    → outside ≡ true
    → (if device then denied r else if secret then denied q else ok) ≡ ok
    → (if device then denied r else if secret then denied q else if outside then denied o else ok)
      ≡ denied o
verdict-narrowed r q o device secret outside e h = ground arith

enforce_file-new :
    (h : Host) (p : SandboxPolicy) (path : Text) (extra : List Text)
    → p.allowed_dirs ≡ []
    → h.eval_symlinks path ≡ not_exist
    → enforce_file h p path [] extra ≡ enforce_real h p p (with_allowed_dirs extra p) path []
unfolding enforce_file
enforce_file-new h p path extra e n =
    ap (enforce_resolved h p path [] extra) n
    ∙ ap (λ ds. enforce_real h p p (with_allowed_dirs (ds ++ extra) p) path []) e

outside-any :
    (path d : Text) (ds : List Text) (p : SandboxPolicy)
    → any (path_within_dir path) (d ∷ ds) ≡ false
    → is_outside_workspace path [] (with_allowed_dirs (d ∷ ds) p) ≡ true
unfolding is_outside_workspace text_eq
outside-any path d ds p a = rw a refl

-- Without a project directory and without allowed directories, a granted directory closes the
-- workspace: a path that does not exist yet, which EnforceFile admits, is refused as outside once
-- the session has granted only directories that do not hold it.
pub enforce_file-narrowed :
    (h : Host) (p : SandboxPolicy) (path d : Text) (ds : List Text)
    → p.allowed_dirs ≡ []
    → h.eval_symlinks path ≡ not_exist
    → any (path_within_dir path) (d ∷ ds) ≡ false
    → enforce_file h p path [] [] ≡ ok
    → enforce_file h p path [] (d ∷ ds) ≡ denied (outside_workspace path [])
unfolding enforce_real is_outside_workspace text_eq
enforce_file-narrowed h p path d ds e n a k =
    enforce_file-new h p path (d ∷ ds) e n
    ∙ verdict-narrowed (device_file path) (sensitive_file path) (outside_workspace path []) _ _ _
        (outside-any path d ds p a) (sym (enforce_file-new h p path [] e n) ∙ k)
