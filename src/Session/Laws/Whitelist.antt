-- ===== src/Session/Laws/Whitelist.antt =====
-- AddToWhitelist: which entries a call changes, in memory and on disk.
use goharness.Prelude.{
  ◌≡◌, ◌≢◌, refl, sym, ◌∙◌, ap, ap₂, subst, true, List, [], ◌∷◌, ◌++◌, Option, none, some, Text,
  text_eq_refl, contains, inl, inr, Bool-cases, arith,
}
use goharness.Session.State.{SessionWhitelist, SessionDir, Session}
use goharness.Session.Whitelist.{
  Tool, bash, write, edit, run_script, read, ls, network, tool_named, empty_whitelist, entries,
  with_entries, AddError, unknown_tool, or_empty, on_disk, add_entry, add_for, save_whitelist,
  add_to_whitelist,
}

entries-with_entries :
    (t : Tool) (l : List Text) (w : SessionWhitelist) → entries t (with_entries t l w) ≡ l
entries-with_entries bash l w = refl
entries-with_entries _ l w = refl

entries-with_entries_ne :
    (t u : Tool) (l : List Text) (w : SessionWhitelist)
    → t ≢ u
    → entries u (with_entries t l w) ≡ entries u w
entries-with_entries_ne bash bash l w n = absurd (n refl)
entries-with_entries_ne write write l w n = absurd (n refl)
entries-with_entries_ne edit edit l w n = absurd (n refl)
entries-with_entries_ne run_script run_script l w n = absurd (n refl)
entries-with_entries_ne read read l w n = absurd (n refl)
entries-with_entries_ne ls ls l w n = absurd (n refl)
entries-with_entries_ne network network l w n = absurd (n refl)
entries-with_entries_ne _ _ l w n = refl

contains-last : (l : List Text) (t : Text) → contains (l ++ t ∷ []) t ≡ true
unfolding contains
contains-last [] t = rw (text_eq_refl t) refl
contains-last (x ∷ l) t = ground (arith, contains-last l t)

-- `after` is `before` with the entry in the list of one tool.
pub record Added (tool : Tool) (entry : Text) (before after : SessionWhitelist) : Type 0 where
  pub is_listed : contains (entries tool after) entry ≡ true
  pub others : (u : Tool) → tool ≢ u → entries u after ≡ entries u before

-- What the file holds after a first call on a session that has not read it: the new entry alone.
abbrev pub OnlyEntry : Tool → Text → SessionWhitelist → Type 0
OnlyEntry tool entry w = (entries tool w ≡ entry ∷ []) × ((u : Tool) → tool ≢ u → entries u w ≡ [])

entries-empty : (u : Tool) → entries u empty_whitelist ≡ []
entries-empty bash = refl
entries-empty _ = refl

module _ {S : Type 0} where
  -- The whitelist in memory after a call.
  abbrev pub cached_whitelist : Session S → SessionWhitelist
  cached_whitelist s = or_empty s.whitelist

  save_whitelist-cached :
      (s : Session S) (w : SessionWhitelist) → cached_whitelist (save_whitelist s w).0 ≡ w
  unfolding save_whitelist
  save_whitelist-cached s w = ground arith

  add_entry-Added :
      (s : Session S) (w : SessionWhitelist) (tool : Tool) (entry : Text)
      → Added tool entry w (cached_whitelist (add_entry s w tool entry).0)
  add_entry-Added s w tool entry = elim (Bool-cases (contains (entries tool w) entry)) [
    | inl e ↦ rw e (record { is_listed = e; others = λ u n. refl })
    | inr e ↦
        rw (e, save_whitelist-cached s (with_entries tool (entries tool w ++ entry ∷ []) w))
          (record {
            is_listed =
                rw (entries-with_entries tool (entries tool w ++ entry ∷ []) w)
                  (contains-last (entries tool w) entry);
            others = λ u n. entries-with_entries_ne tool u (entries tool w ++ entry ∷ []) w n;
          })
  ]

  abbrev pub Adds : Session S → Text → Option Tool → Session S × Option AddError → Type 0
  Adds s entry none (t, e) = (cached_whitelist t ≡ cached_whitelist s) × (e ≡ some unknown_tool)
  Adds s entry (some tool) (t, e) = Added tool entry (cached_whitelist s) (cached_whitelist t)

  add_for-Adds :
      (s : Session S) (entry : Text) (o : Option Tool)
      → Adds s entry o (add_for s (cached_whitelist s) entry o)
  add_for-Adds s entry none = (refl, refl)
  add_for-Adds s entry (some tool) = add_entry-Added s (cached_whitelist s) tool entry

  -- In memory AddToWhitelist lists the entry for the named tool, whether or not the file could be
  -- written, and changes no other list; for an unknown tool it reports the error and changes
  -- none.
  pub add_to_whitelist-Adds :
      (s : Session S) (name entry : Text)
      → Adds s entry (tool_named name) (add_to_whitelist s name entry)
  unfolding add_to_whitelist
  add_to_whitelist-Adds s name entry = add_for-Adds s entry (tool_named name)

  add_for-OnlyEntry :
      (s : Session S) (d : SessionDir) (entry : Text) (tool : Tool)
      → s.dir ≡ some d
      → d.can_write ≡ true
      → OnlyEntry tool entry (on_disk (add_for s empty_whitelist entry (some tool)).0.dir)
  unfolding save_whitelist contains
  add_for-OnlyEntry s d entry tool e c =
      rw (entries-empty tool, save_whitelist, e, c)
        (
          entries-with_entries tool (entries tool empty_whitelist ++ entry ∷ []) empty_whitelist
              ∙ ap (λ l. l ++ entry ∷ []) (entries-empty tool),
          λ u n.
              entries-with_entries_ne tool u (entries tool empty_whitelist ++ entry ∷ [])
                empty_whitelist n
              ∙ entries-empty u,
        )

  add-for :
      (s : Session S) (name entry : Text)
      → add_to_whitelist s name entry ≡ add_for s (or_empty s.whitelist) entry (tool_named name)
  unfolding add_to_whitelist
  add-for s name entry = refl

  -- A first call of AddToWhitelist on a session that has not read its whitelist, with a directory
  -- that can be written and a known tool, replaces the file: whatever it held, it now holds the
  -- new entry alone.
  pub add_to_whitelist-OnlyEntry :
      (s : Session S) (d : SessionDir) (name entry : Text) (tool : Tool)
      → s.whitelist ≡ none
      → s.dir ≡ some d
      → d.can_write ≡ true
      → tool_named name ≡ some tool
      → OnlyEntry tool entry (on_disk (add_to_whitelist s name entry).0.dir)
  add_to_whitelist-OnlyEntry s d name entry tool w e c n =
      subst (λ r. OnlyEntry tool entry (on_disk r.0.dir))
        (sym (add-for s name entry ∙ ap₂ (λ v o. add_for s v entry o) (ap or_empty w) n))
        (add_for-OnlyEntry s d entry tool e c)
