-- ===== src/Sandbox/File/Sensitive.antt =====
-- Which files are sensitive and which are exempt, in terms of patterns and paths.
use mathlib.Core.List.{Memᴰ}
use goharness.Prelude.{
  ◌≡◌, ◌≢◌, ◌↔◌, refl, sym, ◌∙◌, ap, subst, true, false, List, [], ◌∷◌, Text, text_eq-eq,
  text_eq_refl, any, inl, inr, Bool-cases, arith,
}
use goharness.Sandbox.Host.{Host, to_lower}
use goharness.Sandbox.Path.{split, clean, base}
use goharness.Sandbox.Glob.{match_glob}
use goharness.Sandbox.Glob.Laws.{GlobMatches, match_glob_iff}
use goharness.Sandbox.Policy.{SandboxPolicy}
use goharness.Sandbox.File.{
  has_star, is_denied_file, is_in_denied_dir, is_denied_part, is_sensitive, is_allowed_path,
  is_allowed_file,
}
use goharness.Sandbox.File.Members.{any-Mem, Mem-any, contains-Mem, Mem-contains}

-- Some pattern of the list matches the name.
abbrev pub Matched : List Text → Text → Type 0
Matched globs name = (g : Text) × Memᴰ g globs × GlobMatches g name

any-Matched :
    (globs : List Text) (name : Text)
    → (any (λ g. match_glob g name) globs ≡ true) ↔ Matched globs name
any-Matched globs name = (
  λ h.
      let (g, m, k) = any-Mem (λ x. match_glob x name) globs h in
      (g, m, (match_glob_iff g name).0 k),
  λ q.
      let (g, m, k) = q in Mem-any (λ x. match_glob x name) g globs m ((match_glob_iff g name).1 k),
)

pub data Sensitive (h : Host) (path : Text) (p : SandboxPolicy) : Type 0 where
  by_name : Matched p.denied_file_globs (to_lower h (base path)) → Sensitive h path p
  by_dir :
      {part : Text}
      → Memᴰ part (split (clean path))
      → part ≢ []
      → Matched p.denied_dir_globs (to_lower h part)
      → Sensitive h path p
  by_path : Memᴰ path p.denied_file_paths → Sensitive h path p

part-Matched :
    (h : Host) (p : SandboxPolicy) (part : Text)
    → is_denied_part h p part ≡ true
    → (part ≢ []) × Matched p.denied_dir_globs (to_lower h part)
part-Matched h p [] e = absurd (ground arith)
part-Matched h p (c ∷ part) e =
    (λ q. absurd (cc q), (any-Matched p.denied_dir_globs (to_lower h (c ∷ part))).0 e)

Matched-part :
    (h : Host) (p : SandboxPolicy) (part : Text)
    → part ≢ []
    → Matched p.denied_dir_globs (to_lower h part)
    → is_denied_part h p part ≡ true
Matched-part h p [] n m = absurd (n refl)
Matched-part h p (c ∷ part) n m = (any-Matched p.denied_dir_globs (to_lower h (c ∷ part))).1 m

is_sensitive-Sensitive :
    (h : Host) (path : Text) (p : SandboxPolicy) → is_sensitive h path p ≡ true → Sensitive h path p
unfolding is_sensitive is_denied_file is_in_denied_dir
is_sensitive-Sensitive h path p e = elim (Bool-cases (is_denied_file h path p)) [
  | inl a ↦ by_name ((any-Matched p.denied_file_globs (to_lower h (base path))).0 a)
  | inr a ↦ elim (Bool-cases (is_in_denied_dir h path p)) [
    | inl b ↦
        let (part, m, k) = any-Mem (is_denied_part h p) (split (clean path)) b in
        let (n, q) = part-Matched h p part k in by_dir m n q
    | inr b ↦ by_path (contains-Mem p.denied_file_paths path (ground arith))
  ]
]

Sensitive-is_sensitive :
    (h : Host) (path : Text) (p : SandboxPolicy) → Sensitive h path p → is_sensitive h path p ≡ true
unfolding is_sensitive is_denied_file is_in_denied_dir
Sensitive-is_sensitive h path p (by_name m) =
    rw ((any-Matched p.denied_file_globs (to_lower h (base path))).1 m) refl
Sensitive-is_sensitive h path p (by_dir {part} m n q) =
    let b = Mem-any (is_denied_part h p) part (split (clean path)) m (Matched-part h p part n q) in
    ground arith
Sensitive-is_sensitive h path p (by_path m) =
    let c = Mem-contains p.denied_file_paths path m in ground arith

-- The sensitive-file checks refuse a path exactly when a denied pattern matches its base name in
-- lower case, a denied directory pattern matches one of its nonempty parts in lower case, or it
-- is a denied path, letter for letter.
pub is_sensitive_iff :
    (h : Host) (path : Text) (p : SandboxPolicy)
    → (is_sensitive h path p ≡ true) ↔ Sensitive h path p
is_sensitive_iff h path p = (is_sensitive-Sensitive h path p, Sensitive-is_sensitive h path p)

pub data Exempt (h : Host) (path : Text) (p : SandboxPolicy) : Type 0 where
  by_base : Matched p.allowed_file_globs (to_lower h (base path)) → Exempt h path p
  by_pattern :
      {a : Text}
      → Memᴰ a p.allowed_file_paths
      → has_star a ≡ true
      → GlobMatches a (clean path)
      → Exempt h path p
  by_entry :
      Memᴰ (clean path) p.allowed_file_paths → has_star (clean path) ≡ false → Exempt h path p

entry-Exempt :
    (h : Host) (path : Text) (p : SandboxPolicy) (x : Text)
    → Memᴰ x p.allowed_file_paths
    → is_allowed_path (clean path) x ≡ true
    → Exempt h path p
entry-Exempt h path p x m k = elim (Bool-cases (has_star x)) [
  | inl s ↦ by_pattern m s ((match_glob_iff x (clean path)).0 (ground arith))
  | inr s ↦
      let q = text_eq-eq (clean path) x (ground arith) in
      by_entry (subst (λ t. Memᴰ t p.allowed_file_paths) (sym q) m) (ap has_star q ∙ s)
]

allowed-Exempt :
    (h : Host) (path : Text) (p : SandboxPolicy) → is_allowed_file h path p ≡ true → Exempt h path p
unfolding is_allowed_file
allowed-Exempt h path p e =
    elim (Bool-cases (any (λ g. match_glob g (to_lower h (base path))) p.allowed_file_globs)) [
      | inl a ↦ by_base ((any-Matched p.allowed_file_globs (to_lower h (base path))).0 a)
      | inr a ↦
          let (x, m, k) =
            any-Mem (is_allowed_path (clean path)) p.allowed_file_paths (ground arith) in
          entry-Exempt h path p x m k
    ]

Exempt-allowed :
    (h : Host) (path : Text) (p : SandboxPolicy) → Exempt h path p → is_allowed_file h path p ≡ true
unfolding is_allowed_file
Exempt-allowed h path p (by_base m) =
    rw ((any-Matched p.allowed_file_globs (to_lower h (base path))).1 m) refl
Exempt-allowed h path p (by_pattern {a} m s g) =
    let b =
      Mem-any (is_allowed_path (clean path)) a p.allowed_file_paths m
        (rw s ((match_glob_iff a (clean path)).1 g)) in
    ground arith
Exempt-allowed h path p (by_entry m s) =
    let b =
      Mem-any (is_allowed_path (clean path)) (clean path) p.allowed_file_paths m
        (rw s (text_eq_refl (clean path))) in
    ground arith

-- The whitelist exempts a path exactly when an allowed pattern matches its base name in lower
-- case, an entry with a star matches the whole cleaned path, or the cleaned path is an entry
-- without a star.
pub is_allowed_file_iff :
    (h : Host) (path : Text) (p : SandboxPolicy)
    → (is_allowed_file h path p ≡ true) ↔ Exempt h path p
is_allowed_file_iff h path p = (allowed-Exempt h path p, Exempt-allowed h path p)
