-- ===== src/Store/Import.antt =====
-- `importTrace` and `normalizeResult` of internal/store/store.go. A context that is cancelled is left out.
pub mod Loop
pub mod Names
pub mod Again
use mathlib.Core.Option
use traicr.Prelude.{
  ℕ, zero, suc, ◌+◌, ◌-◌, ◌*◌, ◌/◌, ◌%◌, ◌^◌, ◌≤◌, ◌<◌, min, max, ◌≡◌, refl, sym, ap, ◌∙◌, ◌≢◌, ◌↔◌,
  ◌⊎◌, inl, inr, Bool, true, false, not, ◌&&◌, ◌||◌, Option, none, some, List, [], ◌∷◌, ◌++◌, map,
  arith, ltb, leb, ◌==◌, if◌then◌else◌, ltb→lt, leb→le, ==_iff, Bool-cases, Option-cases, length,
  get_elem?, take, drop, slice, length-append, length-take, length-drop, take-append-drop,
  take_whole, length-ne-nil, Member, here, there, Member-append_left, Member-append_right, All,
  All-append, Text, codes, text_eq, text_eq_iff, text_eq_refl, text_eq-ne, text_leb, text_leb_refl,
  text_leb_trans, text_leb_total, text_leb_antisym, has_prefix, contains_byte, count_byte, Result,
  ok, err, ok-injective, Result-cases, bind-eq-ok, refuse_if, refuse_if-eq-ok, ◌>>=◌, ◌>>◌,
}
use traicr.Domain.{
  Machine, Descriptor, Manifest, Normalization, TraceOutcome, ImportReport, Warning,
}
use traicr.Store.Table.{find, exists, update_where}
use traicr.Store.Db.{
  Db, MachineRow, ImportRow, TraceRow, RevisionRow, RevisionMachine, Env, StoreError, Sql, panic,
  constraint, no_rows, empty_key, invalid_title, invalid_digest, size_mismatch, digest_mismatch,
  open_failed, write_failed,
}
use traicr.Store.Traces.{is_trace}
use traicr.Store.Events.{validate_events}
use traicr.Store.SearchText.{search_labels}
use traicr.Store.Objects.{ObjectStore, store_objects}
use traicr.Store.Revisions.{
  Committed, StoredObject, commit_revision, record_run, replace_revision_events, stored_titles,
}
use traicr.Store.Revisions.Backfill.{backfill}

-- The files of one trace, by path.
abbrev pub Files : Type 0
Files = Text → Option Text

-- What the import takes from elsewhere: `normalize` is the normalizer of the harness, with its
-- error if it returns one; the texts are those of the errors.
pub record Program : Type 0 where
  pub env : Env
  pub sha256 : Text → Text
  pub normalize : Descriptor → Files → Normalization × Option Text
  pub error_text : StoreError → Text

-- The server's state: `runningImport` is 0 while no import runs.
pub record World : Type 0 where
  pub db : Db
  pub objects : ObjectStore
  pub running_import : ℕ

-- A panic ends the import; another error is handled.
unfoldable pub caught : {A B : Type 0} → Sql A → (StoreError → B) → (A → Sql B) → Sql B
caught (err panic) handle next = err panic
caught (err e) handle next = ok (handle e)
caught (ok a) handle next = next a

pub caught_cases :
    {A B : Type 0} (m : Sql A) (handle : StoreError → B) (next : A → Sql B) (b : B)
    → caught m handle next ≡ ok b
    → ((e : StoreError) × (handle e ≡ b)) ⊎ ((a : A) × (m ≡ ok a) × (next a ≡ ok b))
unfolding caught
caught_cases (ok a) handle next b h = inr (a, refl, h)
caught_cases (err panic) handle next b h = cc
caught_cases (err constraint) handle next b h = inl (constraint, ok-injective h)
caught_cases (err no_rows) handle next b h = inl (no_rows, ok-injective h)
caught_cases (err empty_key) handle next b h = inl (empty_key, ok-injective h)
caught_cases (err invalid_title) handle next b h = inl (invalid_title, ok-injective h)
caught_cases (err invalid_digest) handle next b h = inl (invalid_digest, ok-injective h)
caught_cases (err size_mismatch) handle next b h = inl (size_mismatch, ok-injective h)
caught_cases (err digest_mismatch) handle next b h = inl (digest_mismatch, ok-injective h)
caught_cases (err open_failed) handle next b h = inl (open_failed, ok-injective h)
caught_cases (err write_failed) handle next b h = inl (write_failed, ok-injective h)

abbrev pub status_normalized : Text
status_normalized = codes "normalized"

abbrev pub status_partially_parsed : Text
status_partially_parsed = codes "partially_parsed"

abbrev pub status_unsupported : Text
status_unsupported = codes "unsupported"

abbrev pub status_failed : Text
status_failed = codes "failed"

abbrev pub status_imported : Text
status_imported = codes "imported"

abbrev pub status_updated : Text
status_updated = codes "updated"

abbrev pub status_unchanged : Text
status_unchanged = codes "unchanged"

-- `normalizationSuccessful`
unfoldable pub normalization_successful : Text → Bool
normalization_successful status = text_eq status status_normalized

unfoldable pub with_error : Normalization → Option Text → Normalization
with_error n none = n
with_error n (some message) = record n {
  status = status_failed;
  warnings = n.warnings ++ ((record { code = codes "normalizer_error"; message = message }) ∷ []);
}

unfoldable pub with_status : Normalization → Normalization
with_status n = if text_eq n.status [] then record n { status = status_normalized } else n

-- `normalizeResult`
unfoldable pub normalize_result : Program → Descriptor → Files → Normalization × Option Text
unfolding with_error with_status
normalize_result p d files =
    let result = p.normalize d files in
    let n = with_status (with_error result.0 result.1) in
    (
      if validate_events n.events then n else record n {
        status = status_failed;
        events = [];
        warnings =
            n.warnings
            ++ ((record {
              code = codes "invalid_event";
              message = codes "normalized event key is required";
            })
                ∷ []);
      },
      result.1,
    )

abbrev error_message : Option Text → Text
error_message none = []
error_message (some message) = message

-- The outcome at the head of `importTrace`.
unfoldable pub start_outcome : Descriptor → TraceOutcome
start_outcome d = record {
  trace_id = 0;
  harness = d.harness;
  native_trace_id = d.native_trace_id;
  revision_digest = d.revision_digest;
  status = [];
  warnings = d.warnings;
  error = [];
}

-- `outcome.Status, outcome.Error = "failed", err.Error(); return outcome`
unfoldable pub fail : Program → TraceOutcome → World → StoreError → TraceOutcome × World
fail p outcome w e = (record outcome { status = status_failed; error = p.error_text e }, w)

-- `SELECT r.id,t.id,r.status FROM trace_revisions r JOIN traces t … WHERE …`
unfoldable pub revision_of : Descriptor → List RevisionRow → Option ℕ → Option RevisionRow
revision_of d rows none = none
revision_of d rows (some trace) =
    find (λ r. r.trace_id == trace && text_eq r.digest d.revision_digest) rows

abbrev pub trace_key : Text → Text → List TraceRow → Option ℕ
trace_key harness native rows = Option.map (λ t. t.id) (find (is_trace harness native) rows)

unfoldable pub find_revision : Descriptor → Db → Option RevisionRow
find_revision d db = revision_of d db.revisions (trace_key d.harness d.native_trace_id db.traces)

-- `INSERT OR IGNORE INTO revision_machines`
unfoldable pub add_machine : ℕ → Text → Db → Db
add_machine revision machine db =
    if exists (λ x. x.revision_id == revision && text_eq x.machine_id machine) db.revision_machines
    then db
    else record db {
      revision_machines =
          (record { revision_id = revision; machine_id = machine }) ∷ db.revision_machines;
    }

module _ (p : Program) where
  -- The revision is known but was not normalized before: its events are made again.
  unfoldable pub renormalize :
      Manifest → Descriptor → Files → ℕ → ℕ → TraceOutcome → World → Sql (TraceOutcome × World)
  renormalize m d files trace revision start w =
      let result = normalize_result p d files in
      let n = result.0 in
      let outcome = record start {
        warnings = start.warnings ++ n.warnings;
        error = error_message result.1;
      } in
      let run = record_run p.env revision n.version n.status n.warnings w.db in
      if text_eq n.status status_failed || text_eq n.status status_unsupported
      then ok (record outcome { status = n.status }, record w { db = run })
      else caught (stored_titles w.db trace) (fail p outcome w) (λ titles.
        caught (replace_revision_events p.env trace revision (search_labels d titles) n w.db)
          (fail p outcome w)
          (λ replaced. ok (
            record outcome {
              warnings = outcome.warnings ++ replaced.0;
              status = if normalization_successful n.status then status_updated else n.status;
            },
            record w { db = replaced.1 },
          )))

  -- The end of the branch for a revision that is known, after its trace's metadata is filled.
  unfoldable pub after_backfill :
      Manifest
      → Descriptor
      → Files
      → RevisionRow
      → TraceOutcome
      → World
      → Bool
      → Sql (TraceOutcome × World)
  after_backfill m d files r outcome w filled =
      if normalization_successful r.status
      then ok (record outcome { status = if filled then status_updated else status_unchanged }, w)
      else renormalize m d files r.trace_id r.id outcome w

  -- The branch for a revision that is known.
  unfoldable pub import_known :
      Manifest
      → Descriptor
      → Files
      → RevisionRow
      → TraceOutcome
      → World
      → Sql (TraceOutcome × World)
  import_known m d files r start w =
      let w' = record w { db = add_machine r.id m.source_machine.id w.db } in
      let outcome = record start { trace_id = r.trace_id } in
      caught (backfill p.env r.trace_id r.id m.source_machine.id d w'.db) (fail p outcome w')
        (λ filled. after_backfill m d files r outcome (record w' { db = filled.1 }) filled.0)

  -- The `switch` on the status of the normalization.
  unfoldable pub new_status : Text → Bool → Text
  new_status status is_new =
      if text_eq status status_partially_parsed
        || (text_eq status status_unsupported || text_eq status status_failed)
      then status
      else if is_new
      then status_imported
      else status_updated

  -- The branch for a revision that is new; a commit that fails leaves 0 for the trace and no new warnings.
  unfoldable pub import_new :
      Manifest
      → Descriptor
      → Files
      → List StoredObject
      → TraceOutcome
      → World
      → Sql (TraceOutcome × World)
  import_new m d files objects start w =
      let result = normalize_result p d files in
      let n = result.0 in
      let outcome = record start { warnings = start.warnings ++ n.warnings } in
      caught (commit_revision p.env m d n objects w.db) (fail p outcome w) (λ c. ok (
        record outcome {
          trace_id = c.trace_id;
          warnings = outcome.warnings ++ c.conflicts;
          status = new_status n.status c.is_new;
          error = error_message result.1;
        },
        record w { db = c.db },
      ))

  unfoldable pub import_either :
      Manifest
      → Descriptor
      → Files
      → List StoredObject
      → TraceOutcome
      → World
      → Option RevisionRow
      → Sql (TraceOutcome × World)
  import_either m d files objects start w none = import_new m d files objects start w
  import_either m d files objects start w (some r) = import_known m d files r start w

  unfoldable pub import_files :
      Manifest → Descriptor → World → Option Files → Sql (TraceOutcome × World)
  import_files m d w none = ok (fail p (start_outcome d) w open_failed)
  import_files m d w (some files) =
      let stored = store_objects p.sha256 files d.files w.objects in
      let w' = record w { objects = stored.1 } in
      caught stored.0 (fail p (start_outcome d) w')
        (λ objects. import_either m d files objects (start_outcome d) w' (find_revision d w'.db))

  -- `importTrace`
  unfoldable pub import_trace :
      Manifest → (Text → Option Files) → Descriptor → World → Sql (TraceOutcome × World)
  import_trace m sources d w = import_files m d w (sources d.path)
