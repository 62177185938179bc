-- ===== src/Store/Maintenance/Ended.antt =====
-- A garbage collection on a disk that may fail: what it leaves when it ends and when it stops.
use traicr.Store.Maintenance.Batches.{
  IsReduced, IsReduced-trans, delete_where_ext, clear_unused, clear_batches, clear_batches-rows,
  clear_batches_end, clear_unused-IsReduced, step, used_rows,
}
use traicr.Store.Maintenance.Collected.{
  IsApart, is_stray, IsFree, All-take, unused_objects-IsFree, clear_unused-files,
  clear_unused-IsApart, clear_batches-files,
}
use traicr.Prelude.{
  ℕ, zero, suc, ◌≡◌, refl, sym, ap, ◌∙◌, ◌⊎◌, inl, inr, true, false, not, some, List, [], ◌∷◌,
  arith, ltb, Bool-cases, length, take, All, Text, text_eq,
}
use traicr.Store.Table.{exists, delete_where}
use traicr.Store.Db.{Db, SourceObject}
use traicr.Store.Revisions.{object_path}
use traicr.Store.Import.{World}
use traicr.Store.Objects.{ObjectStore}
use traicr.Store.Maintenance.{
  Disk, finished, stopped, is_unused, unused_objects, remove_file, remove_unused, next_batch,
  batch_size, remove_batches, is_referenced, remove_strays, walk_objects, gc,
}

-- The disk has an error to give.
abbrev pub Fails : Disk → Type 0
Fails disk = (p : Text) × ((disk.removes p ≡ false) ⊎ (disk.visits p ≡ false))

-- A batch is done whole, or up to a file that cannot be removed.
remove_unused_lem :
    (disk : Disk) (batch : List SourceObject) (w : World)
    → (remove_unused disk batch w ≡ finished (clear_unused batch w))
      ⊎ ((n : ℕ) × (remove_unused disk batch w ≡ stopped (clear_unused (take n batch) w))
          × Fails disk)
unfolding remove_unused remove_file clear_unused step
remove_unused_lem disk [] w = inl refl
remove_unused_lem disk (o ∷ batch) w = elim (Bool-cases (disk.removes o.path)) [
  | inr failed ↦ inr (0, rw (remove_unused, remove_file, failed) refl, (o.path, inl failed))
  | inl removed ↦ elim (remove_unused_lem disk batch (step o w)) [
    | inl all ↦ inl (rw (remove_unused, remove_file, removed) all)
    | inr (n, part, failed) ↦ inr (suc n, rw (remove_unused, remove_file, removed) part, failed)
  ]
]

-- What is kept whether or not there was an error.
pub record IsKept (w0 w : World) : Type 0 where
  pub reduced : IsReduced w0 w
  pub files : delete_where (is_stray w0.db) w.objects ≡ delete_where (is_stray w0.db) w0.objects

module _ (disk : Disk) (w0 : World) where
  batch-IsKept :
      (n : ℕ) (w : World)
      → IsKept w0 w
      → All (IsApart w0.db) w.db.source_objects
      → IsKept w0 (clear_unused (take n (next_batch w.db)) w)
  batch-IsKept n w k a =
      let batch = take n (next_batch w.db) in
      let free = All-take (IsFree w0) n (next_batch w.db) (
        All-take (IsFree w0) batch_size (unused_objects w.db w.db.source_objects)
          (unused_objects-IsFree w0 w w.db.source_objects k.reduced.refers a)) in
      record {
        reduced =
            IsReduced-trans w0 w (clear_unused batch w) k.reduced (clear_unused-IsReduced batch w);
        files = clear_unused-files w0 batch w free ∙ k.files;
      }

  remove_batches_lem :
      (rounds : ℕ) (w w1 : World)
      → IsKept w0 w
      → All (IsApart w0.db) w.db.source_objects
      → clear_batches rounds w ≡ some w1
      → (remove_batches disk rounds w ≡ some (finished w1))
        ⊎ ((w' : World) × (remove_batches disk rounds w ≡ some (stopped w'))
            × IsKept w0 w'
            × Fails disk)
  unfolding remove_batches clear_batches
  remove_batches_lem zero w w1 k a h = cc
  remove_batches_lem (suc rounds) w w1 k a h =
      let batch = next_batch w.db in
      elim (remove_unused_lem disk batch w) [
        | inr (n, part, failed) ↦ inr (
          clear_unused (take n batch) w,
          rw (remove_batches, part) refl,
          batch-IsKept n w k a,
          failed,
        )
        | inl all ↦
            let next = clear_unused batch w in
            let free =
              All-take (IsFree w0) batch_size (unused_objects w.db w.db.source_objects)
                (unused_objects-IsFree w0 w w.db.source_objects k.reduced.refers a) in
            let kept : IsKept w0 next = record {
              reduced = IsReduced-trans w0 w next k.reduced (clear_unused-IsReduced batch w);
              files = clear_unused-files w0 batch w free ∙ k.files;
            } in
            elim (Bool-cases (ltb (length batch) batch_size)) [
              | inl few ↦
                  let same : next ≡ w1 = ground arith in
                  inl (rw (remove_batches, all, few) (ap (λ x. some (finished x)) same))
              | inr full ↦
                  let rest =
                    remove_batches_lem rounds next w1 kept (clear_unused-IsApart w0 batch w a)
                      (ground arith) in
                  elim rest [
                    | inl done ↦ inl (rw (remove_batches, all, full) done)
                    | inr (w', ended, k', failed) ↦
                        inr (w', rw (remove_batches, all, full) ended, k', failed)
                  ]
            ]
      ]

  -- The walk keeps what a row names, and drops the rest if it gets to the end.
  remove_strays_lem :
      (db : Db) (files : ObjectStore)
      → (delete_where (λ f. not (is_referenced db f)) (remove_strays disk db files).0
          ≡ delete_where (λ f. not (is_referenced db f)) files)
        × ((((remove_strays disk db files).1 ≡ true)
              × ((remove_strays disk db files).0
                  ≡ delete_where (λ f. not (is_referenced db f)) files))
            ⊎ (((remove_strays disk db files).1 ≡ false) × Fails disk))
  unfolding remove_strays delete_where
  remove_strays_lem db [] = (refl, inl (refl, refl))
  remove_strays_lem db (f ∷ files) =
      let (kept, ended) = remove_strays_lem db files in
      elim (Bool-cases (disk.visits (object_path f.0))) [
        | inr unseen ↦ (rw unseen refl, inr (rw unseen refl, (object_path f.0, inr unseen)))
        | inl seen ↦ elim (Bool-cases (is_referenced db f)) [
          | inl used ↦ (
            rw (seen, used) (rw used (ap (λ r. f ∷ r) kept)),
            elim ended [
              | inl (all, left) ↦ inl (rw (seen, used) all, rw (seen, used) (ap (λ r. f ∷ r) left))
              | inr (part, failed) ↦ inr (rw (seen, used) part, failed)
            ],
          )
          | inr stray ↦ elim (Bool-cases (disk.removes (object_path f.0))) [
            | inl removed ↦ (
              rw (seen, stray, removed) kept,
              elim ended [
                | inl (all, left) ↦
                    inl (rw (seen, stray, removed) all, rw (seen, stray, removed) left)
                | inr (part, failed) ↦ inr (rw (seen, stray, removed) part, failed)
              ],
            )
            | inr stuck ↦ (
              rw (seen, stray, stuck) (rw stray refl),
              inr (rw (seen, stray, stuck) refl, (object_path f.0, inl stuck)),
            )
          ]
        ]
      ]

-- A garbage collection ends. Without an error the rows that stay are those that a revision refers to, and the files that
-- stay are those that such a row names. With an error, which the disk gave, those rows and files are there all the same. Nothing else changes in
-- either case. No row without a revision shares its file with one that stays.
pub gc_collects :
    (disk : Disk) (w : World)
    → All (IsApart w.db) w.db.source_objects
    → ((w' : World) × (gc disk w ≡ some (finished w'))
        × (w'.db.source_objects ≡ used_rows w.db)
        × (w'.objects ≡ delete_where (is_stray w.db) w.objects)
        × (record w'.db { source_objects = [] } ≡ record w.db { source_objects = [] })
        × (w'.running_import ≡ w.running_import))
      ⊎ ((w' : World) × (gc disk w ≡ some (stopped w'))
          × (delete_where (is_unused w.db) w'.db.source_objects ≡ used_rows w.db)
          × (delete_where (is_stray w.db) w'.objects ≡ delete_where (is_stray w.db) w.objects)
          × (record w'.db { source_objects = [] } ≡ record w.db { source_objects = [] })
          × (w'.running_import ≡ w.running_import)
          × Fails disk)
unfolding gc walk_objects is_referenced
gc_collects disk w a =
    let rounds = suc (length w.db.source_objects) in
    let start : IsReduced w w = record {
      refers = refl;
      rows = refl;
      rest = refl;
      running = refl;
    } in
    let (w1, ends) = clear_batches_end rounds w (omega arith) in
    let (reduced, rows) = clear_batches-rows w rounds w w1 start ends in
    let files = clear_batches-files w rounds w w1 refl a ends in
    let same_stray : (f : Text × Text) → not (is_referenced w1.db f) ≡ is_stray w.db f =
      λ f. ap (λ r. not (exists (λ s. text_eq s.path (object_path f.0)) r)) rows in
    let same = λ (xs : ObjectStore).
      delete_where_ext (λ f. not (is_referenced w1.db f)) (is_stray w.db) xs same_stray in
    elim (remove_batches_lem disk w rounds w w1 (record { reduced = start; files = refl }) a ends) [
      | inr (w', ended, kept, failed) ↦ inr (
        w',
        rw (gc, ended) refl,
        kept.reduced.rows,
        kept.files,
        kept.reduced.rest,
        kept.reduced.running,
        failed,
      )
      | inl done ↦
          let (kept, ended) = remove_strays_lem disk w w1.db w1.objects in
          let left : World = record w1 { objects = (remove_strays disk w1.db w1.objects).0 } in
          elim ended [
            | inl (all, walked) ↦ inl (
              left,
              rw (gc, done, walk_objects, all) refl,
              rows,
              walked ∙ same w1.objects ∙ files,
              reduced.rest,
              reduced.running,
            )
            | inr (part, failed) ↦ inr (
              left,
              rw (gc, done, walk_objects, part) refl,
              reduced.rows,
              sym (same left.objects) ∙ kept ∙ same w1.objects ∙ files,
              reduced.rest,
              reduced.running,
              failed,
            )
          ]
    ]
