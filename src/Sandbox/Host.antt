-- ===== src/Sandbox/Host.antt =====
-- What the sandbox asks of the machine, as a parameter: the file system behind os.Stat and
-- filepath.EvalSymlinks, and the case table of Unicode above ASCII.
use goharness.Prelude.{ℕ, ◌+◌, Bool, ◌&&◌, Text, map, leb, ltb, if◌then◌else◌}

-- The result of filepath.EvalSymlinks: a path, the error "not exist", or any other error.
pub data Resolved : Type 0 where
  resolved : Text → Resolved
  not_exist : Resolved
  unreadable : Resolved

pub record Host : Type 0 where
  pub stat_ok : Text → Bool
  pub eval_symlinks : Text → Resolved
  pub lower_wide : ℕ → ℕ

-- unicode.ToLower and strings.ToLower
unfoldable pub lower_rune : Host → ℕ → ℕ
lower_rune h c =
    if leb b'A' c && leb c b'Z' then c + 32 else if ltb c 128 then c else h.lower_wide c

unfoldable pub to_lower : Host → Text → Text
unfolding lower_rune
to_lower h s = map (lower_rune h) s
