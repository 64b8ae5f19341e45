-- ===== src/Tools/StaleState.antt =====
-- tools/filestate/stale_state.go: which files were read, and whether one was changed since. The
-- clock, the file's modification time and its content are arguments; `hash` is SHA-256 in hexadecimal.
pub mod Laws
use goharness.Prelude.{
  ℕ, ◌+◌, ◌==◌, Bool, true, false, List, [], ◌∷◌, Option, none, some, Text, text_eq, ltb,
  if◌then◌else◌,
}

pub record StaleState : Type 0 where
  pub path : Text
  pub read_at : ℕ
  pub mtime_ms : ℕ
  pub content_hash : Text

-- The map `staleStates` with its counter.
pub record Table : Type 0 where
  pub entries : List (Text × StaleState)
  pub count : ℕ

abbrev pub max_stale_entries : ℕ
max_stale_entries = 256

unfoldable pub load : Text → List (Text × StaleState) → Option StaleState
unfolding text_eq
load path [] = none
load path ((p, s) ∷ es) = if text_eq p path then some s else load path es

unfoldable pub store : Text → StaleState → List (Text × StaleState) → List (Text × StaleState)
unfolding text_eq
store path s [] = (path, s) ∷ []
store path s ((p, t) ∷ es) =
    let rest = store path s es in if text_eq p path then (path, s) ∷ es else (p, t) ∷ rest

unfoldable pub delete : Text → List (Text × StaleState) → List (Text × StaleState)
unfolding text_eq
delete path [] = []
delete path ((p, t) ∷ es) =
    let rest = delete path es in if text_eq p path then es else (p, t) ∷ rest

-- The file's modification time, or the time of the read where os.Stat fails.
abbrev pub mtime_or : ℕ → Option ℕ → ℕ
mtime_or read_at none = read_at
mtime_or read_at (some m) = m

-- The table after the test of the counter: cleared when it would pass the limit.
unfoldable pub make_room : Table → Table
make_room t =
    if ltb max_stale_entries (t.count + 1)
    then record { entries = []; count = 1 }
    else record t { count = t.count + 1 }

-- `SetStale`
unfoldable pub set_stale : (Text → Text) → Table → Text → ℕ → Option ℕ → Text → Table
unfolding make_room store
set_stale hash t path read_at mtime content =
    let room = make_room t in
    record room {
      entries =
          store path
            (record {
              path = path;
              read_at = read_at;
              mtime_ms = mtime_or read_at mtime;
              content_hash = hash content;
            })
            room.entries;
    }

pub data Checked : Type 0 where
  fresh not_read no_file unreadable stale : Checked

-- The comparison of contents, once the times differ: an equal content renews the time.
abbrev pub compare_content :
    (Text → Text) → Table → Text → StaleState → ℕ → Option Text → Table × Checked
compare_content hash t path s mtime none = (t, unreadable)
compare_content hash t path s mtime (some content) =
    if text_eq (hash content) s.content_hash
    then (record t { entries = store path (record s { mtime_ms = mtime }) t.entries }, fresh)
    else (t, stale)

abbrev pub compare_times :
    (Text → Text) → Table → Text → StaleState → Option ℕ → Option Text → Table × Checked
compare_times hash t path s none content = (t, no_file)
compare_times hash t path s (some mtime) content =
    if mtime == s.mtime_ms then (t, fresh) else compare_content hash t path s mtime content

abbrev pub check_loaded :
    (Text → Text) → Table → Text → Option StaleState → Option ℕ → Option Text → Table × Checked
check_loaded hash t path none mtime content = (t, not_read)
check_loaded hash t path (some s) mtime content = compare_times hash t path s mtime content

-- `CheckStale`
unfoldable pub check_stale : (Text → Text) → Table → Text → Option ℕ → Option Text → Table × Checked
unfolding load store text_eq
check_stale hash t path mtime content = check_loaded hash t path (load path t.entries) mtime content

-- `DeleteStale`: the counter stays.
unfoldable pub delete_stale : Table → Text → Table
unfolding delete
delete_stale t path = record t { entries = delete path t.entries }

-- What the package's functions make of the table, from the empty one on.
pub data Reachable (hash : Text → Text) : Table → Type 0 where
  empty : Reachable hash (record { entries = []; count = 0 })
  set :
      {t : Table} (path : Text) (read_at : ℕ) (mtime : Option ℕ) (content : Text)
      → Reachable hash t
      → Reachable hash (set_stale hash t path read_at mtime content)
  checked :
      {t : Table} (path : Text) (mtime : Option ℕ) (content : Option Text)
      → Reachable hash t
      → Reachable hash (check_stale hash t path mtime content).0
  deleted : {t : Table} (path : Text) → Reachable hash t → Reachable hash (delete_stale t path)
