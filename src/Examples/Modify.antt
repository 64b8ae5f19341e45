-- ===== src/Examples/Modify.antt =====
-- A tracked file, changed by an editor, and its rollback.
use goharness.Prelude.{
  ◌≡◌, refl, true, false, [], ◌∷◌, none, some, Text, codes, text_eq, contains, if◌then◌else◌,
}
use goharness.Session.Disk.{Disk, Names, put}
use goharness.Session.Modify.{backup_path_for, track_modify, rollback}
use goharness.Session.Modify.Laws.{Restored, rollback-track_modify}
use goharness.Sandbox.Path.{base, split}
use goharness.Examples.Samples.{list_store, session}

abbrev names : Names
names = record { absolute = λ p. p; backup_dir = codes "/b"; fnv_hex = λ p. codes "7f" }

abbrev path : Text
path = codes "/w/a.go"

abbrev disk : Disk
disk = record {
  files = λ p. if text_eq p path then some (codes "old") else none;
  can_read = λ p. true;
  can_write = λ p. true;
  can_remove = λ p. true;
  can_make_dir_of = λ p. true;
}

-- After the tool has written the file.
abbrev edited : Disk
edited = put path (some (codes "new")) (track_modify list_store names disk session path).0

is_there : disk.files path ≡ some (codes "old")
unfolding text_eq
is_there = refl

not_tracked : contains session.modify_files path ≡ false
unfolding contains
not_tracked = refl

no_backup : text_eq path (backup_path_for names path) ≡ false
unfolding text_eq backup_path_for base split
no_backup = refl

backup_kept :
    edited.files (backup_path_for names path)
    ≡ (track_modify list_store names disk session path).0.files (backup_path_for names path)
unfolding put text_eq backup_path_for base split
backup_kept = refl

can_still_write : edited.can_write path ≡ true
unfolding put track_modify text_eq
can_still_write = refl

can_still_read : edited.can_read (backup_path_for names path) ≡ true
unfolding put track_modify text_eq
can_still_read = refl

can_still_make_dir : edited.can_make_dir_of path ≡ true
unfolding put track_modify text_eq
can_still_make_dir = refl

rollback-track_modify_example : Restored list_store names path (codes "old") (
    rollback list_store names edited
      (track_modify list_store names disk session path).1
      (path ∷ []))
rollback-track_modify_example =
    rollback-track_modify list_store names path disk edited session (codes "old") refl not_tracked
      is_there refl refl no_backup backup_kept can_still_read can_still_make_dir can_still_write
