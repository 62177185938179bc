-- ===== src/Store/Maintenance/Collected.antt =====
-- What the batches of a garbage collection leave of the files.
use traicr.Store.Maintenance.Batches.{
  clear_unused, clear_batches, clear_unused-IsReduced, step, true-ne, unused_same, used_rows,
}
use traicr.Prelude.{
  ℕ, zero, suc, ◌≡◌, refl, sym, ap, ◌∙◌, ◌⊎◌, inl, inr, Bool, true, false, not, some, List, [], ◌∷◌,
  arith, ltb, Bool-cases, length, take, All, Text, text_eq, text_eq_iff,
}
use mathlib.Core.Path.{subst}
use traicr.Store.Table.{exists, delete_where, delete_where_absorb}
use traicr.Store.Table.Rows.{All-delete_where}
use traicr.Store.Db.{Db, SourceObject}
use traicr.Store.Revisions.{object_path}
use traicr.Store.Import.{World}
use traicr.Store.Maintenance.{is_unused, unused_objects, next_batch, batch_size}

-- What stays of the rows, and of the files by the rows that stay.
-- A row that no revision refers to shares its file with no row that stays.
abbrev pub IsApart : Db → SourceObject → Type 0
IsApart db o =
    (is_unused db o ≡ false) ⊎ (exists (λ s. text_eq s.path o.path) (used_rows db) ≡ false)

-- A file that no row names that stays.
abbrev pub is_stray : Db → Text × Text → Bool
is_stray db f = not (exists (λ s. text_eq s.path (object_path f.0)) (used_rows db))

pub All-take :
    (P : SourceObject → Type 0) (n : ℕ) (xs : List SourceObject) → All P xs → All P (take n xs)
All-take P zero [] a = tt
All-take P zero (x ∷ xs) a = tt
All-take P (suc n) [] a = tt
All-take P (suc n) (x ∷ xs) (p, a) = (p, All-take P n xs a)

module _ (w0 : World) where
  abbrev pub IsFree : SourceObject → Type 0
  IsFree o = exists (λ s. text_eq s.path o.path) (used_rows w0.db) ≡ false

  pub unused_objects-IsFree :
      (w : World) (xs : List SourceObject)
      → w.db.revision_objects ≡ w0.db.revision_objects
      → All (IsApart w0.db) xs
      → All IsFree (unused_objects w.db xs)
  unfolding unused_objects
  unused_objects-IsFree w [] e a = tt
  unused_objects-IsFree w (x ∷ xs) e (p, a) = elim (Bool-cases (is_unused w.db x)) [
    | inl t ↦
        let unused : is_unused w0.db x ≡ true = sym (unused_same w0.db w.db x e) ∙ t in
        rw t (
          elim p [ inl used ↦ absurd (true-ne (sym unused ∙ used)) | inr free ↦ free ],
          unused_objects-IsFree w xs e a,
        )
    | inr f ↦ rw f (unused_objects-IsFree w xs e a)
  ]

  IsFree-stray :
      (o : SourceObject) (f : Text × Text)
      → IsFree o
      → text_eq (object_path f.0) o.path ≡ true
      → is_stray w0.db f ≡ true
  IsFree-stray o f free same =
      let path : o.path ≡ object_path f.0 = sym ((text_eq_iff (object_path f.0) o.path).0 same) in
      ap not (subst (λ p. exists (λ s. text_eq s.path p) (used_rows w0.db) ≡ false) path free)

  pub clear_unused-files :
      (batch : List SourceObject) (w : World)
      → All IsFree batch
      → delete_where (is_stray w0.db) (clear_unused batch w).objects
        ≡ delete_where (is_stray w0.db) w.objects
  unfolding clear_unused step
  clear_unused-files [] w a = refl
  clear_unused-files (o ∷ batch) w (free, a) =
      clear_unused-files batch (step o w) a
      ∙ delete_where_absorb (is_stray w0.db) (λ f. text_eq (object_path f.0) o.path) w.objects
          (λ f h. IsFree-stray o f free h)

  pub clear_unused-IsApart :
      (batch : List SourceObject) (w : World)
      → All (IsApart w0.db) w.db.source_objects
      → All (IsApart w0.db) (clear_unused batch w).db.source_objects
  unfolding clear_unused step
  clear_unused-IsApart [] w a = a
  clear_unused-IsApart (o ∷ batch) w a =
      clear_unused-IsApart batch (step o w)
        (All-delete_where (IsApart w0.db) _ w.db.source_objects a)

  pub clear_batches-files :
      (rounds : ℕ) (w w' : World)
      → w.db.revision_objects ≡ w0.db.revision_objects
      → All (IsApart w0.db) w.db.source_objects
      → clear_batches rounds w ≡ some w'
      → delete_where (is_stray w0.db) w'.objects ≡ delete_where (is_stray w0.db) w.objects
  unfolding clear_batches
  clear_batches-files zero w w' e a h = cc
  clear_batches-files (suc rounds) w w' e a h =
      let batch = next_batch w.db in
      let next = clear_unused batch w in
      let free =
        All-take IsFree batch_size (unused_objects w.db w.db.source_objects)
          (unused_objects-IsFree w w.db.source_objects e a) in
      let files = clear_unused-files batch w free in
      elim (Bool-cases (ltb (length batch) batch_size)) [
        | inl few ↦
            let same : next ≡ w' = ground arith in
            subst
              (λ x.
                delete_where (is_stray w0.db) x.objects ≡ delete_where (is_stray w0.db) w.objects)
              same files
        | inr full ↦
            clear_batches-files rounds next w' ((clear_unused-IsReduced batch w).refers ∙ e)
              (clear_unused-IsApart batch w a) (ground arith)
            ∙ files
      ]
