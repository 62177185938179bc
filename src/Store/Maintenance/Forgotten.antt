-- ===== src/Store/Maintenance/Forgotten.antt =====
-- `DeleteTrace` with the collection of objects that follows it.
use mathlib.Core.Path.{subst}
use traicr.Prelude.{
  ℕ, ◌≡◌, refl, sym, ap, ◌∙◌, ◌⊎◌, inl, inr, true, false, not, ◌&&◌, some, List, [], ◌∷◌, arith,
  ◌==◌, Bool-cases, Member, All, All-members, Text, text_eq, text_eq_iff, ok, err,
}
use traicr.Prelude.Keys.{lookup}
use traicr.Store.Table.{find, exists, delete_where, delete_where_absorb}
use traicr.Store.Db.{Db, RevisionRow, RevisionObject, EventRow, SourceObject, no_rows}
use traicr.Store.Revisions.{object_path}
use traicr.Store.Import.{World}
use traicr.Store.Maintenance.{
  Disk, finished, stopped, is_unused, revision_in, delete_trace_rows, delete_trace,
}
use traicr.Store.Maintenance.Batches.{used_rows, true-ne}
use traicr.Store.Maintenance.Collected.{IsApart, is_stray}
use traicr.Store.Maintenance.Ended.{Fails, gc_collects}
use traicr.Store.Maintenance.Links.{Refers, IsLinked, delete_trace_rows-IsLinked, IsLinked-objects}
use traicr.Store.Table.Rows.{
  exists-undeleted, exists_none, delete_where-kept, exists-delete_other, delete_where-Member,
  exists-delete_gone, find-delete_other, exists-Member, All-Member, exists_none_in, exists_mono,
  lookup-delete_other, All-delete_where,
}

-- An object lies where its digest says.
abbrev pub IsPlaced : SourceObject → Type 0
IsPlaced s = s.path ≡ object_path s.digest

-- Every object of a revision has a row.
abbrev pub HasObjects : Db → Type 0
HasObjects db =
    Refers (λ r s. text_eq s.digest r.object_digest) db.revision_objects db.source_objects

-- What a deletion leaves: nothing of the trace, and everything of the other traces.
pub record IsForgotten (trace : ℕ) (w w' : World) : Type 0 where
  pub gone : exists (λ t. t.id == trace) w'.db.traces ≡ false
  pub others :
      (t : ℕ)
      → (t == trace) ≡ false
      → find (λ x. x.id == t) w'.db.traces ≡ find (λ x. x.id == t) w.db.traces
  pub revisions :
      (r : RevisionRow)
      → Member r w.db.revisions
      → (r.trace_id == trace) ≡ false
      → Member r w'.db.revisions
  pub events :
      (e : EventRow) → Member e w.db.events → (e.trace_id == trace) ≡ false → Member e w'.db.events
  pub sources :
      (o : RevisionObject)
      → Member o w.db.revision_objects
      → revision_in w.db trace o.revision_id ≡ false
      → Member o w'.db.revision_objects
  pub linked : IsLinked w'.db
  pub objects : HasObjects w'.db
  pub files :
      All
        (λ r. lookup r.object_digest w'.objects ≡ lookup r.object_digest w.objects)
        w'.db.revision_objects

-- What is left of objects is in use.
pub record IsCollected (w' : World) : Type 0 where
  pub used :
      Refers (λ s r. text_eq r.object_digest s.digest) w'.db.source_objects w'.db.revision_objects
  pub named : Refers (λ f s. text_eq s.path (object_path f.0)) w'.objects w'.db.source_objects

object_path-injective : (a b : Text) → object_path a ≡ object_path b → a ≡ b
object_path-injective [] [] h = refl
object_path-injective [] (y ∷ []) h = cc
object_path-injective [] (y ∷ z ∷ b) h = cc
object_path-injective (x ∷ []) [] h = cc
object_path-injective (x ∷ []) (y ∷ []) h = cc
object_path-injective (x ∷ []) (y ∷ z ∷ b) h = cc
object_path-injective (x ∷ u ∷ a) [] h = cc
object_path-injective (x ∷ u ∷ a) (y ∷ []) h = cc
object_path-injective (x ∷ u ∷ a) (y ∷ z ∷ b) h = cc

module _ (db : Db) where
  -- Two rows for one path are for one digest.
  apart :
      (o s : SourceObject)
      → IsPlaced o
      → IsPlaced s
      → is_unused db o ≡ true
      → is_unused db s ≡ false
      → text_eq s.path o.path ≡ false
  unfolding is_unused
  apart o s po ps unused used = elim (Bool-cases (text_eq s.path o.path)) [
    | inr f ↦ f
    | inl t ↦
        let same =
          object_path-injective s.digest o.digest (sym ps ∙ (text_eq_iff s.path o.path).0 t ∙ po) in
        absurd (
          true-ne (
            sym unused
            ∙ ap (λ d. not (exists (λ r. text_eq r.object_digest d) db.revision_objects)) (sym same)
            ∙ used))
  ]

  used_row : (s : SourceObject) → Member s (used_rows db) → is_unused db s ≡ false
  used_row s m =
      All-Member (λ x. is_unused db x ≡ false) s (used_rows db)
        (delete_where-kept (is_unused db) db.source_objects) m

  placed-IsApart : All IsPlaced db.source_objects → All (IsApart db) db.source_objects
  placed-IsApart placed =
      let used = All-delete_where IsPlaced (is_unused db) db.source_objects placed in
      All-members (IsApart db) db.source_objects (λ o m. elim (Bool-cases (is_unused db o)) [
        | inr f ↦ inl f
        | inl t ↦ inr (
            exists_none_in _ (used_rows db) (
              All-members _ (used_rows db) (λ s n.
                apart o s (All-Member IsPlaced o db.source_objects placed m)
                  (All-Member IsPlaced s (used_rows db) used n) t (used_row s n))))
      ])

  -- A row for an object of a revision is used.
  named_row :
      (r : RevisionObject) (s : SourceObject)
      → Member r db.revision_objects
      → (text_eq s.digest r.object_digest && is_unused db s) ≡ false
  unfolding is_unused
  named_row r s m = elim (Bool-cases (text_eq s.digest r.object_digest)) [
    | inr f ↦ rw f refl
    | inl t ↦
        let same = (text_eq_iff s.digest r.object_digest).0 t in
        let found =
          exists-Member (λ x. text_eq x.object_digest s.digest) r db.revision_objects m
            ((text_eq_iff r.object_digest s.digest).1 (sym same)) in
        rw (t, found) refl
  ]

  kept-HasObjects : HasObjects db → HasObjects (record db { source_objects = used_rows db })
  kept-HasObjects has = All-members _ db.revision_objects (λ r m.
      exists-delete_other (λ s. text_eq s.digest r.object_digest) (is_unused db) db.source_objects
        (All-Member _ r db.revision_objects has m)
        (exists_none _ db.source_objects (λ s. named_row r s m)))

  rows-used : Refers (λ s r. text_eq r.object_digest s.digest) (used_rows db) db.revision_objects
  unfolding is_unused
  rows-used = All-members _ (used_rows db) (λ s m. let used = used_row s m in ground arith)

  -- The file of an object that a revision has stays.
  file_stays :
      (r : RevisionObject) (f : Text × Text)
      → All IsPlaced db.source_objects
      → HasObjects db
      → Member r db.revision_objects
      → f.0 ≡ r.object_digest
      → is_stray db f ≡ false
  file_stays r f placed has m e =
      let used = All-delete_where IsPlaced (is_unused db) db.source_objects placed in
      ap not (
        exists_mono (λ s. text_eq s.digest r.object_digest) (λ s. text_eq s.path (object_path f.0))
          (used_rows db)
          (All-members _ (used_rows db) (λ s n h. (text_eq_iff s.path (object_path f.0)).1 (
            All-Member IsPlaced s (used_rows db) used n
            ∙ ap object_path ((text_eq_iff s.digest r.object_digest).0 h ∙ sym e))))
          (All-Member _ r db.revision_objects (kept-HasObjects has) m))

  files_named :
      (files : List (Text × Text))
      → Refers
          (λ f s. text_eq s.path (object_path f.0))
          (delete_where (is_stray db) files)
          (used_rows db)
  files_named files = All-members _ (delete_where (is_stray db) files) (λ f m.
      let kept =
        All-Member (λ x. is_stray db x ≡ false) f (delete_where (is_stray db) files)
          (delete_where-kept (is_stray db) files) m in
      ground arith)

module _ (trace : ℕ) (w : World) (placed : All IsPlaced w.db.source_objects) where
  abbrev left_db : Db
  left_db = delete_trace_rows trace w.db

  -- What a collection keeps is enough, also if it stops.
  kept-IsForgotten :
      (w' : World)
      → IsLinked w.db
      → HasObjects w.db
      → delete_where (is_unused left_db) w'.db.source_objects ≡ used_rows left_db
      → delete_where (is_stray left_db) w'.objects ≡ delete_where (is_stray left_db) w.objects
      → record w'.db { source_objects = [] } ≡ record left_db { source_objects = [] }
      → IsForgotten trace w w'
  unfolding delete_trace_rows
  kept-IsForgotten w' linked has rows files rest =
      let db = left_db in
      let has' : HasObjects db = All-delete_where _ _ w.db.revision_objects has in
      let refers : w'.db.revision_objects ≡ db.revision_objects =
        ap (λ (x : Db). x.revision_objects) rest in
      let cleared : IsLinked (record w'.db { source_objects = [] }) =
        subst IsLinked (sym rest)
          (IsLinked-objects db [] (delete_trace_rows-IsLinked trace w.db linked)) in
      record {
        gone =
            ap (λ (x : Db). exists (λ t. t.id == trace) x.traces) rest
            ∙ exists-delete_gone (λ t. t.id == trace) w.db.traces;
        others = λ t other.
            ap (λ (x : Db). find (λ y. y.id == t) x.traces) rest
            ∙ find-delete_other (λ x. x.id == t) (λ x. x.id == trace) w.db.traces
                (λ x h. ground arith);
        revisions = λ r m other.
            subst (Member r) (sym (ap (λ (x : Db). x.revisions) rest))
              (delete_where-Member _ r w.db.revisions m other);
        events = λ e m other.
            subst (Member e) (sym (ap (λ (x : Db). x.events) rest))
              (delete_where-Member _ e w.db.events m other);
        sources = λ o m other.
            subst (Member o) (sym refers) (delete_where-Member _ o w.db.revision_objects m other);
        linked =
            IsLinked-objects (record w'.db { source_objects = [] }) w'.db.source_objects cleared;
        objects =
            subst (λ rs. Refers (λ r s. text_eq s.digest r.object_digest) rs w'.db.source_objects)
              (sym refers)
              (All-members _ db.revision_objects (λ r m.
                exists-undeleted (λ s. text_eq s.digest r.object_digest) (is_unused db)
                  w'.db.source_objects
                  (ap (exists (λ s. text_eq s.digest r.object_digest)) rows
                    ∙ All-Member _ r db.revision_objects (kept-HasObjects db has') m)));
        files =
            subst (All (λ r. lookup r.object_digest w'.objects ≡ lookup r.object_digest w.objects))
              (sym refers)
              (All-members _ db.revision_objects (λ r m.
                let stays = λ (f : Text × Text) (e : f.0 ≡ r.object_digest).
                  file_stays db r f placed has' m e in
                sym (lookup-delete_other r.object_digest (is_stray db) w'.objects stays)
                ∙ ap (lookup r.object_digest) files
                ∙ lookup-delete_other r.object_digest (is_stray db) w.objects stays));
      }

  all-IsCollected :
      (w' : World)
      → w'.db.source_objects ≡ used_rows left_db
      → w'.objects ≡ delete_where (is_stray left_db) w.objects
      → record w'.db { source_objects = [] } ≡ record left_db { source_objects = [] }
      → IsCollected w'
  all-IsCollected w' rows files rest = record {
    used =
        subst (λ rs. Refers (λ s r. text_eq r.object_digest s.digest) w'.db.source_objects rs)
          (sym (ap (λ (x : Db). x.revision_objects) rest))
          (subst
            (λ ss. Refers (λ s r. text_eq r.object_digest s.digest) ss left_db.revision_objects)
            (sym rows) (rows-used left_db));
    named =
        subst (λ fs. Refers (λ f s. text_eq s.path (object_path f.0)) fs w'.db.source_objects)
          (sym files)
          (subst
            (λ ss.
              Refers (λ f s. text_eq s.path (object_path f.0))
                (delete_where (is_stray left_db) w.objects) ss)
            (sym rows) (files_named left_db w.objects));
  }

-- A deletion ends, also with the collection of objects that follows it. For a trace that is not there it is an error. Otherwise the
-- trace is gone and every other trace, revision, event and reference to an object stays; every reference between the tables still holds, and every file that a revision
-- refers to is as it was. If the disk gives no error, the rows of objects that are left are those that revisions refer to, and every file that
-- is left has its row. Before it, references hold and the rows of objects name the files of their digests.
pub delete_trace-IsForgotten :
    (disk : Disk) (trace : ℕ) (w : World)
    → All IsPlaced w.db.source_objects
    → HasObjects w.db
    → IsLinked w.db
    → (exists (λ t. t.id == trace) w.db.traces ≡ false
        × (delete_trace disk trace w ≡ some (err no_rows)))
      ⊎ ((w' : World) × (delete_trace disk trace w ≡ some (ok (finished w')))
          × IsForgotten trace w w'
          × IsCollected w')
      ⊎ ((w' : World) × (delete_trace disk trace w ≡ some (ok (stopped w')))
          × IsForgotten trace w w'
          × Fails disk)
unfolding delete_trace delete_trace_rows
delete_trace-IsForgotten disk trace w placed has linked =
    let db = left_db trace w placed in
    let kept = kept-IsForgotten trace w placed in
    elim (Bool-cases (exists (λ t. t.id == trace) w.db.traces)) [
      | inr f ↦ inl (f, rw f refl)
      | inl t ↦ elim (gc_collects disk (record w { db = db }) (placed-IsApart db placed)) [
        | inl (w', ends, rows, files, rest, running) ↦ inr (
            inl (
              w',
              rw (t, ends) refl,
              kept w' linked has
                  (ap (delete_where (is_unused db)) rows
                    ∙ delete_where_absorb (is_unused db) (is_unused db) db.source_objects
                        (λ x h. h))
                  (ap (delete_where (is_stray db)) files
                    ∙ delete_where_absorb (is_stray db) (is_stray db) w.objects (λ x h. h))
                  rest,
              all-IsCollected trace w placed w' rows files rest,
            ))
        | inr (w', ends, rows, files, rest, running, failed) ↦
            inr (inr (w', rw (t, ends) refl, kept w' linked has rows files rest, failed))
      ]
    ]
