-- ===== src/Tools/Edit/Laws.antt =====
-- tools/edit.go: the files behind performEdit.
use goharness.Prelude.{
  ℕ, zero, suc, ◌≤◌, ◌≡◌, ◌⊎◌, inl, inr, ◌∙◌, refl, sym, ap, subst, Bool, true, false, not, ◌&&◌, ℤ,
  pos, negsuc, [], ◌∷◌, Option, none, some, Text, Bool-cases, Option-cases, ltb, arith,
}
use goharness.Session.Disk.{put}
use goharness.Tools.Strings.{count_text, Limit, all_of_them, at_most, replace}
use goharness.Tools.StaleState.{Table, Checked, check_stale, set_stale, delete_stale}
use goharness.Tools.Strings.Replace.{Rewrites, bounded, replace-Rewrites}
use goharness.Tools.Edit.{find_edit_match, normalize_quotes}
use goharness.Tools.Edit.Match.{StandsIn, Matched, find_edit_match-Matched}
use goharness.Tools.Edit.Perform.{
  EditParams, EditResult, Outcome, done, failed, Files, Machine, replaced, written, create_result,
  edit_result, replace_found, on_match, on_checked, readable, edit_existing, on_absent,
  perform_edit, is_positive, below_minus_one, is_fresh,
}

-- How many places the parameters ask to replace.
abbrev pub asked : Bool → ℤ → Limit
asked flag (negsuc zero) = all_of_them
asked flag (pos (suc n)) = at_most (suc n)
asked true (negsuc (suc n)) = all_of_them
asked true (pos zero) = all_of_them
asked false (negsuc (suc n)) = at_most 1
asked false (pos zero) = at_most 1

updated-replaced :
    (content a new : Text) (flag : Bool) (limit : ℤ) (total : ℕ)
    → (replaced content a new flag limit total).updated ≡ replace content a new (asked flag limit)
unfolding replaced
updated-replaced content a new flag (negsuc zero) total = refl
updated-replaced content a new flag (pos (suc n)) total = refl
updated-replaced content a new true (negsuc (suc n)) total = refl
updated-replaced content a new true (pos zero) total = refl
updated-replaced content a new false (negsuc (suc n)) total = refl
updated-replaced content a new false (pos zero) total = refl

module _ (m : Machine) (path : Text) (p : EditParams) where
  -- The new content: the places that were asked for are replaced, and where nothing but one place
  -- was asked for there is only one. An empty file takes the new text for an empty old text.
  abbrev pub Wrote : Text → Text → Type 0
  Wrote content updated =
      ((content ≡ []) × (p.old_str ≡ []) × (updated ≡ p.new_str))
      ⊎ ((a : Text) × StandsIn content p.old_str a
          × Rewrites a p.new_str (bounded (asked p.replace_all p.limit) (count_text content a))
              content updated
          × ((p.replace_all ≡ true) ⊎ (is_positive p.limit ≡ true) ⊎ (count_text content a ≤ 1)))

  abbrev pub Edits : Files → Files × Outcome → Type 0
  Edits w (w', failed e) = w'.disk ≡ w.disk
  Edits w (w', done r) =
      (content : Text) × (updated : Text) × (w.disk.files path ≡ some content)
      × (w'.disk ≡ put path (some updated) w.disk)
      × Wrote content updated

  module _ (w v : Files) (content : Text) (same : v.disk ≡ w.disk)
      (there : w.disk.files path ≡ some content) where
    written-Edits :
        (updated : Text) (table : Table) (r : EditResult)
        → Wrote content updated
        → Edits w (written m path p v updated table r)
    written-Edits updated table r h = elim (Bool-cases (v.disk.can_make_dir_of path)) [
      | inr e ↦ rw e same
      | inl e ↦ rw e (elim (Bool-cases (v.disk.can_write path)) [
        | inr f ↦ rw f same
        | inl f ↦ rw f (content, updated, there, ap (put path (some updated)) same, h)
      ])
    ]

    found-Edits :
        (b : ℕ) (o : Text)
        → StandsIn content p.old_str (b ∷ o)
        → Edits w (replace_found m path p v content (b ∷ o))
    found-Edits b o h =
        let total = count_text content (b ∷ o) in
        let r = replaced content (b ∷ o) p.new_str p.replace_all p.limit total in
        elim (Bool-cases (not p.replace_all && not (is_positive p.limit) && ltb 1 total)) [
          | inl e ↦ rw e same
          | inr e ↦ rw e (elim (Bool-cases (below_minus_one p.limit)) [
            | inl f ↦ rw f same
            | inr f ↦ rw f (
                written-Edits r.updated
                  (set_stale m.hash v.table path m.now m.mtime_after r.updated)
                  (edit_result m path p content total r)
                  (inr (
                    b ∷ o,
                    h,
                    subst
                        (Rewrites (b ∷ o) p.new_str (bounded (asked p.replace_all p.limit) total)
                          content)
                        (sym
                          (updated-replaced content (b ∷ o) p.new_str p.replace_all p.limit total))
                        (replace-Rewrites b o p.new_str content (asked p.replace_all p.limit)),
                    unambiguous p.replace_all (is_positive p.limit) total e,
                  )))
          ])
        ]
      where
        unambiguous :
            (flag positive : Bool) (n : ℕ)
            → (not flag && not positive && ltb 1 n) ≡ false
            → (flag ≡ true) ⊎ (positive ≡ true) ⊎ (n ≤ 1)
        unambiguous true positive n e = inl refl
        unambiguous false true n e = inr (inl refl)
        unambiguous false false n e = inr (inr (ground arith))

    match-Edits :
        (c : ℕ) (old : Text) (found : Option Text)
        → p.old_str ≡ c ∷ old
        → Matched content p.old_str found
        → Edits w (on_match m path p v content found)
    match-Edits c old none e h = same
    match-Edits c old (some (b ∷ o)) e h = found-Edits b o h
    match-Edits c old (some []) e h = absurd (empty_matches (h.3 ∙ ap normalize_quotes e))
      where
        empty_matches : ¬ (normalize_quotes [] ≡ normalize_quotes (c ∷ old))
        empty_matches h = unfold normalize_quotes in cc

  checked-Edits :
      (w : Files) (content : Text)
      → w.disk.files path ≡ some content
      → (c : ℕ) (old : Text) (t : Table × Checked) → p.old_str ≡ c ∷ old
      → Edits w (on_checked m path p w content t)
  checked-Edits w content there c old (table, checked) e =
      elim (Bool-cases (is_fresh m path p checked)) [
        | inr f ↦ rw f refl
        | inl f ↦ rw f (elim (Bool-cases (w.disk.can_read path)) [
          | inr g ↦ rw g refl
          | inl g ↦ rw g (
              match-Edits w (record w { table = table }) content refl there c old
                (find_edit_match content p.old_str) e (find_edit_match-Matched content p.old_str))
        ])
      ]

  existing-Edits :
      (w : Files) (content old : Text)
      → w.disk.files path ≡ some content
      → p.old_str ≡ old
      → Edits w (edit_existing m path p w content old)
  existing-Edits w [] [] there e =
      written-Edits w w [] refl there p.new_str (delete_stale w.table path) (create_result m path p)
        (inl (refl, e, refl))
  existing-Edits w (c ∷ content) [] there e = refl
  existing-Edits w [] (o ∷ old) there e =
      checked-Edits w [] there o old
        (check_stale m.hash w.table path (m.mtime path) (readable m path p w [])) e
  existing-Edits w (c ∷ content) (o ∷ old) there e =
      checked-Edits w (c ∷ content) there o old
        (check_stale m.hash w.table path (m.mtime path) (readable m path p w (c ∷ content))) e

  absent-Edits : (w : Files) (old : Text) → Edits w (on_absent m path p w old)
  absent-Edits w [] = refl
  absent-Edits w (o ∷ old) = refl

  pub perform_edit-Edits : (w : Files) → Edits w (perform_edit m path p w)
  unfolding perform_edit
  perform_edit-Edits w = elim (Bool-cases (m.can_stat path)) [
    | inr e ↦ rw e refl
    | inl e ↦ rw e (elim (Option-cases (w.disk.files path)) [
      | inl f ↦ rw f (absent-Edits w p.old_str)
      | inr (content, f) ↦ rw f (existing-Edits w content p.old_str f refl)
    ])
  ]
