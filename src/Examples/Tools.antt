-- ===== src/Examples/Tools.antt =====
-- The theorems on the read states of files at a table with one entry.
use goharness.Prelude.{◌≡◌, ◌↔◌, ◌⊎◌, [], some, Text, codes}
use goharness.Tools.StaleState.{
  Table, mtime_or, set_stale, fresh, check_stale, delete_stale, empty, set, deleted,
}
use goharness.Tools.StaleState.Laws.{IsBounded, Reachable-IsBounded, check_stale-set_stale}

-- A hash that keeps the text.
abbrev digest : Text → Text
digest t = t

abbrev table : Table
table = record { entries = []; count = 0 }

abbrev read_table : Table
read_table = set_stale digest table (codes "/a") 5 (some 3) (codes "x")

check_stale-set_stale_example :
    ((check_stale digest read_table (codes "/a") (some 4) (some (codes "x"))).1 ≡ fresh)
    ↔ ((4 ≡ mtime_or 5 (some 3)) ⊎ (digest (codes "x") ≡ digest (codes "x")))
check_stale-set_stale_example =
    check_stale-set_stale digest table (codes "/a") 5 (some 3) (codes "x") 4 (codes "x")

Reachable-IsBounded_example : IsBounded (delete_stale read_table (codes "/a"))
Reachable-IsBounded_example =
    Reachable-IsBounded digest (delete_stale read_table (codes "/a"))
      (deleted (codes "/a") (set (codes "/a") 5 (some 3) (codes "x") empty))
