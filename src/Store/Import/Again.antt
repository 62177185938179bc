-- ===== src/Store/Import/Again.antt =====
-- A trace that is imported again, from the same archive, leaves everything as it is.
use traicr.Store.Import.Names.{SameNames, backfill_names, true-ne}
use traicr.Prelude.{
  ℕ, ◌≡◌, refl, sym, ap, ◌∙◌, inl, inr, true, false, ◌&&◌, Option, some, arith, ◌==◌, Bool-cases,
  Option-cases, Text, text_eq, text_eq_refl, ok, ok-injective,
}
use mathlib.Core.Path.{ap₂, subst}
use traicr.Domain.{Descriptor, Manifest, TraceOutcome}
use traicr.Store.Table.{exists}
use traicr.Store.Db.{Db, RevisionRow, Sql, StoreError, open_failed}
use traicr.Store.Revisions.Backfill.{backfill}
use traicr.Store.Revisions.Backfill.Again.{backfill_again}
use traicr.Store.Objects.{store_objects}
use traicr.Store.Objects.Again.{store_objects_again}
use traicr.Store.Import.{
  revision_of, Files, Program, World, caught, caught_cases, fail, import_known, import_either,
  import_files, import_trace, after_backfill, start_outcome, normalization_successful,
  status_failed, status_unchanged, revision_of, add_machine, find_revision,
}

-- The traces have the same names and keys, and the revisions and their machines are the same.
find_revision_same :
    (d : Descriptor) (a b : Db) → SameNames a b → find_revision d b ≡ find_revision d a
unfolding find_revision
find_revision_same d a b s = ap₂ (revision_of d) s.revisions (s.keys d.harness d.native_trace_id)

-- Adding the machine of a revision a second time adds nothing.
add_machine_again :
    (revision : ℕ) (machine : Text) (a b : Db)
    → b.revision_machines ≡ (add_machine revision machine a).revision_machines
    → add_machine revision machine b ≡ b
unfolding add_machine exists
add_machine_again revision machine a b same =
    elim (Bool-cases (
      exists (λ x. x.revision_id == revision && text_eq x.machine_id machine)
        a.revision_machines)) [
          | inl t ↦
              let rows : b.revision_machines ≡ a.revision_machines = rw t at same in
              let known : exists (λ x. x.revision_id == revision && text_eq x.machine_id machine)
                    b.revision_machines
                  ≡ true =
                ap (exists (λ x. x.revision_id == revision && text_eq x.machine_id machine)) rows
                ∙ t in
              rw known refl
          | inr f ↦
              let rows = rw f at same in
              let known : exists (λ x. x.revision_id == revision && text_eq x.machine_id machine)
                    b.revision_machines
                  ≡ true =
                ap (exists (λ x. x.revision_id == revision && text_eq x.machine_id machine)) rows
                ∙ ground (arith, text_eq_refl machine) in
              rw known refl
        ]

find_revision_machine :
    (d : Descriptor) (revision : ℕ) (machine : Text) (db : Db)
    → find_revision d (add_machine revision machine db) ≡ find_revision d db
unfolding add_machine find_revision
find_revision_machine d revision machine db =
    elim (Bool-cases (
      exists (λ x. x.revision_id == revision && text_eq x.machine_id machine)
        db.revision_machines)) [ inl t ↦ rw t refl | inr f ↦ rw f refl ]

module _ (p : Program) where
  -- An outcome that is not a failure comes from the step, not from the handler.
  not_failed :
      {A : Type 0} (m : Sql A) (o : TraceOutcome) (w : World)
      (next : A → Sql (TraceOutcome × World)) (b : TraceOutcome × World)
      → text_eq b.0.status status_failed ≡ false
      → caught m (fail p o w) next ≡ ok b
      → (a : A) × (m ≡ ok a) × (next a ≡ ok b)
  unfolding fail
  not_failed m o w next b good h = elim (caught_cases m (fail p o w) next b h) [
    | inl (e, same) ↦
        let bad : text_eq b.0.status status_failed ≡ true =
          subst (λ x. text_eq x.0.status status_failed ≡ true) same (text_eq_refl status_failed) in
        absurd (true-ne (sym bad ∙ good))
    | inr step ↦ step
  ]

  known_again :
      (m : Manifest) (d : Descriptor) (files : Files) (r : RevisionRow) (start : TraceOutcome)
      (w w' : World) (o : TraceOutcome)
      → normalization_successful r.status ≡ true
      → text_eq o.status status_failed ≡ false
      → import_known p m d files r start w ≡ ok (o, w')
      → import_known p m d files r start w'
          ≡ ok (record start { trace_id = r.trace_id; status = status_unchanged }, w')
        × SameNames (add_machine r.id m.source_machine.id w.db) w'.db
        × (w'.objects ≡ w.objects)
  unfolding import_known after_backfill caught
  known_again m d files r start w w' o normal good h =
      let machine = m.source_machine.id in
      let db1 = add_machine r.id machine w.db in
      let ((changed, db2), filled, last) =
        not_failed (backfill p.env r.trace_id r.id machine d db1) _ _ _ (o, w') good h in
      let ending : record w { db = db2 } ≡ w' = ap (λ x. x.1) (ok-injective (rw normal at last)) in
      let names = backfill_names p.env r.trace_id r.id machine d db1 db2 changed filled in
      let again = backfill_again p.env r.trace_id r.id machine d db1 db2 changed filled in
      let still : add_machine r.id machine db2 ≡ db2 =
        add_machine_again r.id machine w.db db2 names.machines in
      let result : (import_known p m d files r start (record w { db = db2 })
          ≡ ok (
            record start { trace_id = r.trace_id; status = status_unchanged },
            record w { db = db2 },
          )) =
        rw still (rw again (rw normal refl)) in
      subst
        (λ x.
          import_known p m d files r start x
            ≡ ok (record start { trace_id = r.trace_id; status = status_unchanged }, x)
          × SameNames db1 x.db
          × (x.objects ≡ w.objects))
        ending (result, names, refl)

fails :
    (p : Program) (o : TraceOutcome) (w : World) (e : StoreError) (o' : TraceOutcome) (w' : World)
    → text_eq o'.status status_failed ≡ false
    → fail p o w e ≡ (o', w')
    → true ≡ false
unfolding fail
fails p o w e o' w' good same =
    sym (subst (λ x. text_eq x.0.status status_failed ≡ true) same (text_eq_refl status_failed))
    ∙ good

-- A revision that the server knows and has normalized: when an import of it does not fail, a second
-- import from the same archive, straight after it, is unchanged and leaves the whole state as it is.
pub import_trace_again :
    (p : Program) (m : Manifest) (sources : Text → Option Files) (d : Descriptor) (w w' : World)
    (o : TraceOutcome) (r : RevisionRow)
    → find_revision d w.db ≡ some r
    → normalization_successful r.status ≡ true
    → import_trace p m sources d w ≡ ok (o, w')
    → text_eq o.status status_failed ≡ false
    → import_trace p m sources d w'
      ≡ ok (record (start_outcome d) { trace_id = r.trace_id; status = status_unchanged }, w')
unfolding import_trace import_files import_either caught
import_trace_again p m sources d w w' o r known normal h good =
    elim (Option-cases (sources d.path)) [
      | inl e ↦
          let same : fail p (start_outcome d) w open_failed ≡ (o, w') = ok-injective (rw e at h) in
          absurd (true-ne (fails p (start_outcome d) w open_failed o w' good same))
      | inr (files, e) ↦
          let stored = store_objects p.sha256 files d.files w.objects in
          let w1 : World = record w { objects = stored.1 } in
          let (objects, kept, step) =
            not_failed p stored.0 (start_outcome d) w1 _ (o, w') good (rw e at h) in
          let (again, names, same_objects) =
            known_again p m d files r (start_outcome d) w1 w' o normal good (rw known at step) in
          let still : find_revision d w'.db ≡ some r =
            find_revision_same d (add_machine r.id m.source_machine.id w.db) w'.db names
            ∙ find_revision_machine d r.id m.source_machine.id w.db
            ∙ known in
          let found : store_objects p.sha256 files d.files w'.objects ≡ (ok objects, stored.1) =
            ap (store_objects p.sha256 files d.files) same_objects
            ∙ store_objects_again p.sha256 files d.files w.objects objects kept in
          let whole : record w' { objects = stored.1 } ≡ w' =
            ap (λ x. record w' { objects = x }) (sym same_objects) in
          rw e (rw found (rw whole (rw still again)))
    ]
