-- ===== src/Store/Import/Loop/Outcomes.antt =====
-- The outcome of each trace is under the name of its descriptor.
use traicr.Prelude.{
  ℕ, ◌+◌, ◌≡◌, refl, inl, inr, ◌||◌, Option, none, some, List, [], ◌∷◌, if◌then◌else◌, Bool-cases,
  length, Text, text_eq, ok, ok-injective,
}
use mathlib.Core.Path.{subst}
use traicr.Domain.{Descriptor, Manifest, TraceOutcome, ImportReport}
use traicr.Store.Db.{RevisionRow, StoreError, Sql}
use traicr.Store.Revisions.{StoredObject}
use traicr.Store.Import.{
  normalization_successful, status_failed, normalize_result, Files, Program, World, caught,
  caught_cases, fail, start_outcome, renormalize, after_backfill, import_known, import_new,
  import_either, import_files, import_trace, status_imported, status_updated, status_unchanged,
  status_partially_parsed, status_unsupported,
}

-- What names a trace and its revision.
abbrev Name : Type 0
Name = Text × Text × Text

unfoldable pub name_of : Descriptor → Name
name_of d = (d.harness, d.native_trace_id, d.revision_digest)

unfoldable pub outcome_name : TraceOutcome → Name
outcome_name o = (o.harness, o.native_trace_id, o.revision_digest)

-- The names in order, for the descriptors and for the outcomes.
unfoldable pub names_of : List Descriptor → List Name
names_of [] = []
names_of (d ∷ ds) = name_of d ∷ names_of ds

unfoldable pub outcome_names : List TraceOutcome → List Name
outcome_names [] = []
outcome_names (o ∷ os) = outcome_name o ∷ outcome_names os

unfoldable pub count_status : Text → List TraceOutcome → ℕ
count_status s [] = 0
count_status s (o ∷ os) = (if text_eq o.status s then 1 else 0) + count_status s os

-- Each count of a report is the number of its outcomes with that status, and the failures are the rest.
pub record IsCounted (r : ImportReport) : Type 0 where
  pub imported : r.imported ≡ count_status status_imported r.traces
  pub updated : r.updated ≡ count_status status_updated r.traces
  pub unchanged : r.unchanged ≡ count_status status_unchanged r.traces
  pub partial : r.partial ≡ count_status status_partially_parsed r.traces
  pub unsupported : r.unsupported ≡ count_status status_unsupported r.traces
  pub total :
      r.imported + r.updated + r.unchanged + r.partial + r.unsupported + r.failed ≡ length r.traces

pub caught-ok :
    {A B : Type 0} (Good : B → Type 0) (m : Sql A) (handle : StoreError → B) (next : A → Sql B)
    {b : B}
    → ((e : StoreError) → Good (handle e))
    → ((a : A) (c : B) → next a ≡ ok c → Good c)
    → caught m handle next ≡ ok b
    → Good b
caught-ok Good m handle next {b} good rest h = elim (caught_cases m handle next b h) [
  | inl (e, same) ↦ subst Good same (good e)
  | inr (a, _, k) ↦ rest a b k
]

module _ (p : Program) (m : Manifest) (d : Descriptor) where
  -- An outcome for this trace.
  abbrev Names : TraceOutcome × World → Type 0
  Names r = outcome_name r.0 ≡ name_of d

  renormalize-Names :
      (files : Files) (trace revision : ℕ) (o : TraceOutcome) (w : World) {r : TraceOutcome × World}
      → outcome_name o ≡ name_of d
      → renormalize p m d files trace revision o w ≡ ok r
      → Names r
  unfolding renormalize outcome_name fail
  renormalize-Names files trace revision o w {r} named h =
      let n = (normalize_result p d files).0 in
      elim (Bool-cases (text_eq n.status status_failed || text_eq n.status status_unsupported)) [
        | inl e ↦ subst Names (ok-injective (rw e at h)) named
        | inr e ↦
            caught-ok Names _ _ _ (λ e. named)
              (λ titles c.
                caught-ok Names _ _ _ (λ e. named)
                  (λ replaced c k. subst Names (ok-injective k) named))
              (rw e at h)
      ]

  known-Names :
      (files : Files) (revision : RevisionRow) (o : TraceOutcome) (w : World)
      {r : TraceOutcome × World}
      → outcome_name o ≡ name_of d
      → import_known p m d files revision o w ≡ ok r
      → Names r
  unfolding import_known after_backfill outcome_name fail
  known-Names files revision o w named h =
      caught-ok Names _ _ _ (λ e. named)
        (λ filled c k. elim (Bool-cases (normalization_successful revision.status)) [
          | inl e ↦ subst Names (ok-injective (rw e at k)) named
          | inr e ↦ renormalize-Names files revision.trace_id revision.id _ _ named (rw e at k)
        ])
        h

  either-Names :
      (files : Files) (objects : List StoredObject) (o : TraceOutcome) (w : World)
      (known : Option RevisionRow) {r : TraceOutcome × World}
      → outcome_name o ≡ name_of d
      → import_either p m d files objects o w known ≡ ok r
      → Names r
  unfolding import_either import_new outcome_name fail
  either-Names files objects o w none named h =
      caught-ok Names _ _ _ (λ e. named) (λ committed c k. subst Names (ok-injective k) named) h
  either-Names files objects o w (some revision) named h = known-Names files revision o w named h

  files-Names :
      (w : World) (files : Option Files) {r : TraceOutcome × World}
      → import_files p m d w files ≡ ok r
      → Names r
  unfolding import_files start_outcome outcome_name name_of fail
  files-Names w none h = subst Names (ok-injective h) refl
  files-Names w (some files) h =
      caught-ok Names _ _ _ (λ e. refl)
        (λ objects c k. either-Names files objects (start_outcome d) _ _ refl k) h

  pub import_trace-Names :
      (sources : Text → Option Files) (w : World) {r : TraceOutcome × World}
      → import_trace p m sources d w ≡ ok r
      → Names r
  unfolding import_trace
  import_trace-Names sources w h = files-Names w (sources d.path) h
