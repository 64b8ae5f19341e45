-- ===== src/Session/Disk.antt =====
-- The files that session/file_modify.go reads and writes: the regular files by path, and which calls
-- of the os package succeed. `Names` is what the code computes names with: filepath.Abs with Clean,
-- the backup directory of the session, and the FNV-1a hash of a path in hexadecimal.
use goharness.Prelude.{Bool, Option, Text, text_eq, if◌then◌else◌}

pub record Disk : Type 0 where
  pub files : Text → Option Text
  pub can_read : Text → Bool
  pub can_write : Text → Bool
  pub can_remove : Text → Bool
  pub can_make_dir_of : Text → Bool

pub record Names : Type 0 where
  pub absolute : Text → Text
  pub backup_dir : Text
  pub fnv_hex : Text → Text

-- The disk with the file at `path` set.
unfoldable pub put : Text → Option Text → Disk → Disk
unfolding text_eq
put path content d = record d { files = λ p. if text_eq p path then content else d.files p }
