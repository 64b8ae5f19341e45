-- ===== src/Examples/Edit.antt =====
-- The edit of a file of two lines, of which the agent has read the content before.
use goharness.Prelude.{
  ◌≡◌, ◌≢◌, refl, ◌∙◌, sym, ap, List, Bool, Option, true, false, pos, [], ◌∷◌, none, some, Text,
  codes, text_eq, if◌then◌else◌,
}
use goharness.Session.Disk.{put}
use goharness.Tools.StaleState.{set_stale}
use goharness.Tools.Edit.{find_edit_match}
use goharness.Tools.Edit.Match.{Matched, find_edit_match-Matched}
use goharness.Tools.Edit.Perform.{EditParams, Files, Machine, perform_edit}
use goharness.Tools.Edit.Execute.{Value, str, ToolContext, ToolSession, execute}
use goharness.Tools.Edit.Authority.{Admits, execute-Admits}
use goharness.Examples.Sandbox.{host, open_policy}
use goharness.Tools.Params.{Place}

abbrev path : Text
path = codes "/w/a.go"

-- The file says "it" in curly quotes.
abbrev content : Text
content = 8220 ∷ b'i' ∷ b't' ∷ 8221 ∷ codes "\nend\n"

abbrev digest : Text → Text
digest t = t

abbrev machine : Machine
machine = record {
  hash = digest;
  can_stat = λ p. true;
  mtime = λ p. some 3;
  now = 9;
  mtime_after = some 9;
}

abbrev files : Files
files = record {
  disk = record {
    files = λ p. if text_eq p path then some content else none;
    can_read = λ p. true;
    can_write = λ p. true;
    can_remove = λ p. true;
    can_make_dir_of = λ p. true;
  };
  table = set_stale digest (record { entries = []; count = 0 }) path 5 (some 3) content;
  negative = [];
}

abbrev params : EditParams
params = record {
  old_str = codes "\"it\"";
  new_str = codes "they";
  replace_all = false;
  limit = pos 0;
}

finds_quoted : find_edit_match content params.old_str ≡ some (8220 ∷ b'i' ∷ b't' ∷ 8221 ∷ [])
unfolding find_edit_match
finds_quoted = refl

writes : (perform_edit machine path params files).0.disk.files path ≡ some (codes "they\nend\n")
unfolding perform_edit text_eq put
writes = refl

find_edit_match-Matched_example :
    Matched content params.old_str (find_edit_match content params.old_str)
find_edit_match-Matched_example = find_edit_match-Matched content params.old_str

abbrev place : Place
place = record { home = none; cwd = codes "/w" }

abbrev context : ToolContext
context = record {
  session =
      some (record { project_dir = codes "/w"; session_dir = []; sandbox = some open_policy });
  session_whitelist = none;
}

abbrev call : List (Text × Value)
call =
    (codes "filePath", str (codes "a.go"))
    ∷ (codes "old_string", str (codes "\"it\""))
    ∷ (codes "newString", str (codes "they"))
    ∷ []

executes :
    (execute host place [] context machine call files).0.disk.files path
    ≡ some (codes "they\nend\n")
unfolding execute text_eq put
executes = refl

abbrev says_they : Option Text → Bool
says_they none = false
says_they (some t) = text_eq t (codes "they\nend\n")

changed :
    (execute host place [] context machine call files).0.disk.files path ≢ files.disk.files path
unfolding text_eq
changed h = let k : true ≡ false = ap says_they (sym executes ∙ h) in absurd (cc)

execute-Admits_example : Admits host place [] context path
execute-Admits_example = execute-Admits host place [] context machine files call path changed

abbrev tool_session : ToolSession
tool_session = record { project_dir = codes "/w"; session_dir = []; sandbox = some open_policy }

abbrev absolute_call : List (Text × Value)
absolute_call = (codes "file_path", str (codes "/w/a.go")) ∷ []
