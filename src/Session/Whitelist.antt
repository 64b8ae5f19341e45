-- ===== src/Session/Whitelist.antt =====
-- session/whitelist.go: the session's tool whitelist, cached in memory and kept in a sidecar file.
use goharness.Prelude.{
  ℕ, ◌+◌, ◌==◌, ◌&&◌, List, [], ◌∷◌, ◌++◌, map, Option, none, some, Text, codes, text_eq, contains,
  leb, if◌then◌else◌,
}
use goharness.Session.State.{SessionWhitelist, SessionDir, Session}

pub data Tool : Type 0 where
  bash write edit run_script read ls network : Tool

-- strings.ToLower as far as it yields ASCII: A to Z, U+0130 (to `i`) and U+212A (to `k`). The lower
-- case of any other rune is not ASCII, so a name that holds it matches no tool either way.
unfoldable pub lower_rune : ℕ → ℕ
lower_rune c =
    if leb b'A' c && leb c b'Z'
    then c + 32
    else if c == 0x130
    then b'i'
    else if c == 0x212a
    then b'k'
    else c

-- The `switch` on the tool name; `none` is its default case.
unfoldable pub tool_named : Text → Option Tool
unfolding lower_rune text_eq
tool_named name =
    let t = map lower_rune name in
    if text_eq t (codes "bash")
    then some bash
    else if text_eq t (codes "write")
    then some write
    else if text_eq t (codes "edit")
    then some edit
    else if text_eq t (codes "run_script")
    then some run_script
    else if text_eq t (codes "read")
    then some read
    else if text_eq t (codes "ls")
    then some ls
    else if text_eq t (codes "network")
    then some network
    else none

abbrev pub empty_whitelist : SessionWhitelist
empty_whitelist = record {
  bash = [];
  write = [];
  edit = [];
  run_script = [];
  read = [];
  ls = [];
  network = [];
}

abbrev pub entries : Tool → SessionWhitelist → List Text
entries bash w = w.bash
entries write w = w.write
entries edit w = w.edit
entries run_script w = w.run_script
entries read w = w.read
entries ls w = w.ls
entries network w = w.network

abbrev pub with_entries : Tool → List Text → SessionWhitelist → SessionWhitelist
with_entries bash l w = record w { bash = l }
with_entries write l w = record w { write = l }
with_entries edit l w = record w { edit = l }
with_entries run_script l w = record w { run_script = l }
with_entries read l w = record w { read = l }
with_entries ls l w = record w { ls = l }
with_entries network l w = record w { network = l }

pub data AddError : Type 0 where
  unknown_tool write_failed : AddError

abbrev pub or_empty : Option SessionWhitelist → SessionWhitelist
or_empty none = empty_whitelist
or_empty (some w) = w

-- What the sidecar file holds, empty where there is no directory, no file or no valid text in it.
abbrev pub on_disk : Option SessionDir → SessionWhitelist
on_disk none = empty_whitelist
on_disk (some d) = or_empty d.session_wl

module _ {S : Type 0} where
  abbrev cached : Session S → SessionWhitelist → Session S × SessionWhitelist
  cached s w = (record s { whitelist = some w }, w)

  -- `Whitelist`
  unfoldable pub whitelist_of : Session S → Session S × SessionWhitelist
  whitelist_of s = elim s.whitelist [ some w ↦ (s, w) | none ↦ cached s (on_disk s.dir) ]

  -- The end of `AddToWhitelist`: the file is written if there is a directory.
  unfoldable pub save_whitelist : Session S → SessionWhitelist → Session S × Option AddError
  save_whitelist s w = elim s.dir [
    | none ↦ (record s { whitelist = some w }, none)
    | some d ↦
        if d.can_write
        then (record s { whitelist = some w; dir = some (record d { session_wl = some w }) }, none)
        else (record s { whitelist = some w }, some write_failed)
  ]

  abbrev pub add_entry : Session S → SessionWhitelist → Tool → Text → Session S × Option AddError
  add_entry s w tool entry =
      if contains (entries tool w) entry
      then (record s { whitelist = some w }, none)
      else save_whitelist s (with_entries tool (entries tool w ++ entry ∷ []) w)

  abbrev pub add_for :
      Session S → SessionWhitelist → Text → Option Tool → Session S × Option AddError
  add_for s w entry none = (record s { whitelist = some w }, some unknown_tool)
  add_for s w entry (some tool) = add_entry s w tool entry

  -- `AddToWhitelist`: a nil cache becomes an empty whitelist; the file is not read here.
  unfoldable pub add_to_whitelist : Session S → Text → Text → Session S × Option AddError
  unfolding tool_named contains save_whitelist
  add_to_whitelist s tool_name entry = add_for s (or_empty s.whitelist) entry (tool_named tool_name)
