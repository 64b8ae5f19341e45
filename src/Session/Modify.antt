-- ===== src/Session/Modify.antt =====
-- session/file_modify.go: the files that a session has modified, with their backups.
pub mod Laws
use goharness.Prelude.{
  Bool, true, false, not, ◌&&◌, List, [], ◌∷◌, ◌++◌, Option, none, some, Text, codes, text_eq,
  contains, keep, is_some, if◌then◌else◌,
}
use goharness.Session.Store.{SessionStore}
use goharness.Session.State.{Session}
use goharness.Session.Disk.{Disk, Names, put}
use goharness.Sandbox.Path.{separator, base}

pub data ModifyEvent : Type 0 where
  tracked : Text → Text → ModifyEvent
  confirmed : List Text → ModifyEvent
  rolled_back : List Text → ModifyEvent

pub data ModifyError : Type 0 where
  backup_failed remove_failed read_failed mkdir_failed restore_failed : Text → ModifyError

-- `backupKeyFor` and `legacyBackupKeyFor`
unfoldable pub backup_key_for : Names → Text → Text
unfolding base
backup_key_for n path = base path ++ b'-' ∷ (n.fnv_hex path ++ codes ".bak")

unfoldable pub legacy_backup_key_for : Text → Text
unfolding base
legacy_backup_key_for path = base path ++ codes ".bak"

unfoldable pub backup_path_for : Names → Text → Text
unfolding backup_key_for
backup_path_for n path = n.backup_dir ++ separator ∷ backup_key_for n path

abbrev file_exists : Disk → Text → Bool
file_exists d path = is_some (d.files path)

-- The new key, or the old one if only that has a file.
unfoldable pub backup_path_for_read : Names → Disk → Text → Text
unfolding backup_path_for legacy_backup_key_for
backup_path_for_read n d path =
    let legacy = n.backup_dir ++ separator ∷ legacy_backup_key_for path in
    if file_exists d (backup_path_for n path)
    then backup_path_for n path
    else if file_exists d legacy
    then legacy
    else backup_path_for n path

-- `backupFile` for a file with the given content.
unfoldable pub backup_file : Names → Disk → Text → Text → Option Disk
unfolding backup_path_for put
backup_file n d path content =
    if d.can_read path && d.can_write (backup_path_for n path)
    then some (put (backup_path_for n path) (some content) d)
    else none

unfoldable pub remove_modify_file : {S : Type 0} → Text → Session S → Session S
unfolding text_eq
remove_modify_file path s = record s {
  modify_files = keep (λ f. not (text_eq f path)) s.modify_files;
}

-- The targets that are named and tracked, or all files for no name.
abbrev tracked_only : Names → List Text → List Text → List Text
tracked_only n files [] = []
tracked_only n files (f ∷ fs) =
    let rest = tracked_only n files fs in
    if contains files (n.absolute f) then n.absolute f ∷ rest else rest

unfoldable pub resolve_targets : {S : Type 0} → Names → Session S → List Text → List Text
unfolding contains
resolve_targets n s [] = s.modify_files
resolve_targets n s (f ∷ fs) = tracked_only n s.modify_files (f ∷ fs)

-- A disk, the session, the files done so far and the error that ended a loop.
pub record Progress (S : Type 0) : Type 0 where
  pub disk : Disk
  pub session : Session S
  pub done : List Text
  pub failure : Option ModifyError

abbrev pub remove_if_possible : Text → Disk → Disk
remove_if_possible path d = if d.can_remove path then put path none d else d

module _ {S : Type 0} where
  -- The rollback of one file, for the content of its backup.
  unfoldable pub restore : Text → Text → Option Text → Progress S → Progress S
  unfolding put remove_modify_file
  restore path backup none p = record p {
    session = remove_modify_file path p.session;
    done = p.done ++ path ∷ [];
  }
  restore path backup (some content) p =
      if not (p.disk.can_read backup)
      then record p { failure = some (read_failed backup) }
      else if not (p.disk.can_make_dir_of path)
      then record p { failure = some (mkdir_failed path) }
      else if not (p.disk.can_write path)
      then record p { failure = some (restore_failed path) }
      else record p {
        disk = remove_if_possible backup (put path (some content) p.disk);
        session = remove_modify_file path p.session;
        done = p.done ++ path ∷ [];
      }

  -- The confirmation of one file: its backup is removed.
  unfoldable pub confirm : Text → Text → Option Text → Progress S → Progress S
  unfolding put remove_modify_file
  confirm path backup none p = record p {
    session = remove_modify_file path p.session;
    done = p.done ++ path ∷ [];
  }
  confirm path backup (some content) p =
      if p.disk.can_remove backup
      then record p {
        disk = put backup none p.disk;
        session = remove_modify_file path p.session;
        done = p.done ++ path ∷ [];
      }
      else record p { failure = some (remove_failed backup) }

  -- The loops, which stop at the first error.
  unfoldable pub each_target :
      Names
      → (Text → Text → Option Text → Progress S → Progress S)
      → List Text
      → Progress S
      → Progress S
  unfolding backup_path_for_read
  each_target n step [] p = p
  each_target n step (path ∷ paths) p =
      let backup = backup_path_for_read n p.disk path in
      let q = step path backup (p.disk.files backup) p in
      let rest = each_target n step paths q in elim q.failure [ none ↦ rest | some e ↦ q ]

  abbrev pub start : Disk → Session S → Progress S
  start d s = record { disk = d; session = s; done = []; failure = none }

module _ (st : SessionStore) where
  unfoldable pub persist_modify_files : Session st.State → Session st.State
  persist_modify_files s = elim s.store [
    | none ↦ s
    | some x ↦ record s { store = some (st.save_modify_files x s.id s.modify_files) }
  ]

  abbrev pub add_file : Text → Session st.State → Session st.State
  add_file path s = persist_modify_files (record s { modify_files = s.modify_files ++ path ∷ [] })

  abbrev track_backup :
      Text
      → Text
      → Disk
      → Session st.State
      → Option Disk
      → Disk × Session st.State × Option ModifyError × List ModifyEvent
  track_backup path backup d s none = (d, s, some (backup_failed path), [])
  track_backup path backup d s (some d') = (d', add_file path s, none, tracked path backup ∷ [])

  -- What TrackModify does with a file that is not tracked yet, for its content.
  abbrev pub track_new :
      Names
      → Disk
      → Session st.State
      → Text
      → Option Text
      → Disk × Session st.State × Option ModifyError × List ModifyEvent
  track_new n d s path none = (d, add_file path s, none, tracked path [] ∷ [])
  track_new n d s path (some content) =
      track_backup path (backup_path_for n path) d s (backup_file n d path content)

  -- `TrackModify`
  unfoldable pub track_modify :
      Names
      → Disk
      → Session st.State
      → Text
      → Disk × Session st.State × Option ModifyError × List ModifyEvent
  unfolding contains backup_file persist_modify_files backup_path_for
  track_modify n d s path =
      let clean_path = n.absolute path in
      if contains s.modify_files clean_path
      then (d, s, none, tracked clean_path (backup_path_for n clean_path) ∷ [])
      else track_new n d s clean_path (d.files clean_path)

  abbrev event_of : (List Text → ModifyEvent) → List Text → List ModifyEvent
  event_of event [] = []
  event_of event (path ∷ paths) = event (path ∷ paths) ∷ []

  abbrev pub finished :
      (List Text → ModifyEvent)
      → Progress st.State
      → Option ModifyError
      → Disk × Session st.State × List Text × Option ModifyError × List ModifyEvent
  finished event p (some e) = (p.disk, p.session, p.done, some e, [])
  finished event p none =
      (p.disk, persist_modify_files p.session, p.done, none, event_of event p.done)

  -- `ConfirmModify` and `Rollback`
  unfoldable pub confirm_modify :
      Names
      → Disk
      → Session st.State
      → List Text
      → Disk × Session st.State × List Text × Option ModifyError × List ModifyEvent
  unfolding resolve_targets each_target confirm persist_modify_files
  confirm_modify n d s files =
      let p = each_target n confirm (resolve_targets n s files) (start d s) in
      finished confirmed p p.failure

  unfoldable pub rollback :
      Names
      → Disk
      → Session st.State
      → List Text
      → Disk × Session st.State × List Text × Option ModifyError × List ModifyEvent
  unfolding resolve_targets each_target restore persist_modify_files
  rollback n d s files =
      let p = each_target n restore (resolve_targets n s files) (start d s) in
      finished rolled_back p p.failure
