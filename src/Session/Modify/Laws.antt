-- ===== src/Session/Modify/Laws.antt =====
-- A rollback brings a modified file back.
use goharness.Prelude.{
  ◌≡◌, refl, sym, ◌∙◌, ap, subst, true, false, not, List, [], ◌∷◌, ◌++◌, Option, none, some, Text,
  text_eq, text_eq_refl, contains, keep, inl, inr, Bool-cases, arith,
}
use goharness.Session.Store.{SessionStore}
use goharness.Session.State.{Session}
use goharness.Session.Disk.{Disk, Names, put}
use goharness.Session.Modify.{
  ModifyEvent, tracked, rolled_back, ModifyError, backup_path_for, backup_path_for_read,
  backup_file, remove_modify_file, resolve_targets, Progress, remove_if_possible, restore,
  each_target, start, persist_modify_files, add_file, track_modify, finished, rollback,
}

put-here : (path : Text) (c : Option Text) (d : Disk) → (put path c d).files path ≡ c
unfolding put
put-here path c d = rw (text_eq_refl path) refl

put-other :
    (path q : Text) (c : Option Text) (d : Disk)
    → text_eq q path ≡ false
    → (put path c d).files q ≡ d.files q
unfolding put
put-other path q c d e = rw e refl

contains-last : (ts : List Text) (t : Text) → contains (ts ++ t ∷ []) t ≡ true
unfolding contains
contains-last [] t = rw (text_eq_refl t) refl
contains-last (x ∷ ts) t = ground (arith, contains-last ts t)

contains-keep : (ts : List Text) (t : Text) → contains (keep (λ f. not (text_eq f t)) ts) t ≡ false
unfolding contains
contains-keep [] t = refl
contains-keep (x ∷ ts) t = elim (Bool-cases (text_eq x t)) [
  | inl e ↦ rw e (contains-keep ts t)
  | inr e ↦ ground (arith, contains-keep ts t)
]

module _ (st : SessionStore) (n : Names) (path : Text) where
  abbrev backup : Text
  backup = backup_path_for n path

  persist-files : (s : Session st.State) → (persist_modify_files st s).modify_files ≡ s.modify_files
  unfolding persist_modify_files
  persist-files s = ground arith

  -- A first call of TrackModify for a file that can be read and backed up.
  track_modify-new :
      (d : Disk) (s : Session st.State) (content : Text)
      → n.absolute path ≡ path
      → contains s.modify_files path ≡ false
      → d.files path ≡ some content
      → d.can_read path ≡ true
      → d.can_write backup ≡ true
      → track_modify st n d s path
        ≡ (put backup (some content) d, add_file st path s, none, tracked path backup ∷ [])
  unfolding track_modify backup_file
  track_modify-new d s content a f e r w = rw (a, f, e, r, w) refl

  -- What the loop of Rollback leaves of one file whose backup can be restored.
  restore-here :
      (d : Disk) (s : Session st.State) (content : Text)
      → text_eq path backup ≡ false
      → d.can_read backup ≡ true
      → d.can_make_dir_of path ≡ true
      → d.can_write path ≡ true
      → restore path backup (some content) (start d s) ≡ record {
        disk = remove_if_possible backup (put path (some content) d);
        session = remove_modify_file path s;
        done = path ∷ [];
        failure = none;
      }
  unfolding restore
  restore-here d s content x r m w = rw (r, m, w) refl

  restored-files :
      (d : Disk) (content : Text)
      → text_eq path backup ≡ false
      → (remove_if_possible backup (put path (some content) d)).files path ≡ some content
  restored-files d content x = elim (Bool-cases ((put path (some content) d).can_remove backup)) [
    | inl c ↦
        rw c (
          put-other backup path none (put path (some content) d) x ∙ put-here path (some content) d)
    | inr c ↦ rw c (put-here path (some content) d)
  ]

  read-here :
      (d : Disk) (content : Text)
      → d.files backup ≡ some content
      → backup_path_for_read n d path ≡ backup
  unfolding backup_path_for_read
  read-here d content e = rw e refl

  resolve-one :
      (s : Session st.State)
      → n.absolute path ≡ path
      → contains s.modify_files path ≡ true
      → resolve_targets n s (path ∷ []) ≡ path ∷ []
  unfolding resolve_targets
  resolve-one s a t = rw (a, t) refl

  settled :
      (p : Progress st.State) (o : Option ModifyError) → (elim o [ none ↦ p | some e ↦ p ]) ≡ p
  settled p none = refl
  settled p (some e) = refl

  each-one :
      (p q : Progress st.State) (b : Text) (c : Option Text)
      → backup_path_for_read n p.disk path ≡ b
      → p.disk.files b ≡ c
      → restore path b c p ≡ q
      → each_target n restore (path ∷ []) p ≡ q
  unfolding each_target
  each-one p q b c x y z =
      settled
        (restore path (backup_path_for_read n p.disk path)
          (p.disk.files (backup_path_for_read n p.disk path)) p)
        _
      ∙ ap (λ k. restore path k (p.disk.files k) p) x
      ∙ ap (λ k. restore path b k p) y
      ∙ z

  rollback-each :
      (d : Disk) (s : Session st.State) (q : Progress st.State)
      → resolve_targets n s (path ∷ []) ≡ path ∷ []
      → each_target n restore (path ∷ []) (start d s) ≡ q
      → q.failure ≡ none
      → rollback st n d s (path ∷ []) ≡ finished st rolled_back q none
  unfolding rollback
  rollback-each d s q x y f =
      ap (λ ts. let p = each_target n restore ts (start d s) in finished st rolled_back p p.failure)
        x
      ∙ ap (λ p. finished st rolled_back p p.failure) y
      ∙ ap (finished st rolled_back q) f

  -- The file has the content again, the call reports it alone and no error, and it is no longer
  -- tracked.
  abbrev pub Restored :
      Text → Disk × Session st.State × List Text × Option ModifyError × List ModifyEvent → Type 0
  Restored content r =
      (r.0.files path ≡ some content)
      × (contains r.1.modify_files path ≡ false)
      × (r.2 ≡ path ∷ [])
      × (r.3 ≡ none)

  rollback-Restored :
      (d : Disk) (s : Session st.State) (content : Text)
      → n.absolute path ≡ path
      → contains s.modify_files path ≡ true
      → d.files backup ≡ some content
      → text_eq path backup ≡ false
      → d.can_read backup ≡ true
      → d.can_make_dir_of path ≡ true
      → d.can_write path ≡ true
      → Restored content (rollback st n d s (path ∷ []))
  unfolding remove_modify_file
  rollback-Restored d s content a t e x r m w =
      subst (Restored content)
        (sym (
          rollback-each d s _ (resolve-one s a t)
            (each-one (start d s) _ backup (some content) (read-here d content e) e
              (restore-here d s content x r m w))
            refl))
        (
          restored-files d content x,
          ap (λ l. contains l path) (persist-files (remove_modify_file path s))
              ∙ contains-keep s.modify_files path,
          refl,
          refl,
        )

  -- A file that TrackModify tracks for the first time, where it can be read and its backup
  -- written and is another file, comes back: whatever happened to the disk in between, as long as
  -- the backup is still there and can be read and the file and its directory can be written,
  -- Rollback of it restores the old content, reports it alone and no error, and tracks it no
  -- longer.
  pub rollback-track_modify :
      (d later : Disk) (s : Session st.State) (content : Text)
      → n.absolute path ≡ path
      → contains s.modify_files path ≡ false
      → d.files path ≡ some content
      → d.can_read path ≡ true
      → d.can_write backup ≡ true
      → text_eq path backup ≡ false
      → later.files backup ≡ (track_modify st n d s path).0.files backup
      → later.can_read backup ≡ true
      → later.can_make_dir_of path ≡ true
      → later.can_write path ≡ true
      → Restored content (rollback st n later (track_modify st n d s path).1 (path ∷ []))
  rollback-track_modify d later s content a f e r w x k lr lm lw =
      let t = track_modify-new d s content a f e r w in
      subst (λ y. Restored content (rollback st n later y.1 (path ∷ []))) (sym t)
        (rollback-Restored later (add_file st path s) content a
          (ap (λ l. contains l path)
              (persist-files (record s { modify_files = s.modify_files ++ path ∷ [] }))
            ∙ contains-last s.modify_files path)
          (k ∙ ap (λ y. y.0.files backup) t ∙ put-here backup (some content) d) x lr lm lw)
