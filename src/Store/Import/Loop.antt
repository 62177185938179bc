-- ===== src/Store/Import/Loop.antt =====
-- `Import`, `beginImport` and `countOutcome` of internal/store/store.go. Progress reports are output
-- only and are left out. The semaphore that lets one import in is the order of the calls.
pub mod Outcomes
pub mod Counts
use traicr.Prelude.{
  ℕ, zero, suc, ◌+◌, ◌-◌, ◌*◌, ◌/◌, ◌%◌, ◌^◌, ◌≤◌, ◌<◌, min, max, ◌≡◌, refl, sym, ap, ◌∙◌, ◌≢◌, ◌↔◌,
  ◌⊎◌, inl, inr, Bool, true, false, not, ◌&&◌, ◌||◌, Option, none, some, List, [], ◌∷◌, ◌++◌, map,
  arith, ltb, leb, ◌==◌, if◌then◌else◌, ltb→lt, leb→le, ==_iff, Bool-cases, Option-cases, length,
  get_elem?, take, drop, slice, length-append, length-take, length-drop, take-append-drop,
  take_whole, length-ne-nil, Member, here, there, Member-append_left, Member-append_right, All,
  All-append, Text, codes, text_eq, text_eq_iff, text_eq_refl, text_eq-ne, text_leb, text_leb_refl,
  text_leb_trans, text_leb_total, text_leb_antisym, has_prefix, contains_byte, count_byte, Result,
  ok, err, ok-injective, Result-cases, bind-eq-ok, refuse_if, refuse_if-eq-ok, ◌>>=◌, ◌>>◌,
}
use traicr.Domain.{Machine, Descriptor, Manifest, TraceOutcome, ImportReport}
use traicr.Store.Table.{exists, update_where}
use traicr.Store.Db.{Db, MachineRow, ImportRow, Env, Sql}
use traicr.Store.Import.{
  Files, Program, World, import_trace, status_imported, status_updated, status_unchanged,
  status_partially_parsed, status_unsupported,
}

-- `countOutcome`
unfoldable pub count_outcome : ImportReport → Text → ImportReport
count_outcome r status =
    if text_eq status status_imported
    then record r { imported = r.imported + 1 }
    else if text_eq status status_updated
    then record r { updated = r.updated + 1 }
    else if text_eq status status_unchanged
    then record r { unchanged = r.unchanged + 1 }
    else if text_eq status status_partially_parsed
    then record r { partial = r.partial + 1 }
    else if text_eq status status_unsupported
    then record r { unsupported = r.unsupported + 1 }
    else record r { failed = r.failed + 1 }

-- `INSERT INTO source_machines … ON CONFLICT(id) DO UPDATE SET …`
unfoldable pub upsert_machine : Text → Machine → List MachineRow → List MachineRow
upsert_machine now m rows =
    if exists (λ r. text_eq r.machine.id m.id) rows
    then update_where (λ r. text_eq r.machine.id m.id)
        (λ r. record r { machine = m; last_seen = now }) rows
    else (record { machine = m; first_seen = now; last_seen = now }) ∷ rows

-- `beginImport`
unfoldable pub begin_import : ImportReport → World → ImportReport × World
begin_import report w =
    let id = w.db.import_seq + 1 in
    (
      record report { id = id },
      record w {
        db = record w.db {
          machines = upsert_machine report.created_at report.machine w.db.machines;
          imports =
              (record {
                id = id;
                created_at = report.created_at;
                machine_id = report.machine.id;
                report = none;
              })
              ∷ w.db.imports;
          import_seq = id;
        };
        running_import = id;
      },
    )

unfoldable pub start_report : Program → Manifest → ImportReport
start_report p m = record {
  id = 0;
  created_at = p.env.now;
  machine = m.source_machine;
  imported = 0;
  updated = 0;
  unchanged = 0;
  partial = 0;
  unsupported = 0;
  failed = 0;
  complete = false;
  traces = [];
}

-- The report after one more trace.
unfoldable pub add_outcome : ImportReport → TraceOutcome → ImportReport
add_outcome report outcome =
    count_outcome (record report { traces = report.traces ++ (outcome ∷ []) }) outcome.status

-- The loop over the manifest's traces.
unfoldable pub import_traces :
    Program
    → Manifest
    → (Text → Option Files)
    → List Descriptor
    → ImportReport
    → World
    → Sql (ImportReport × World)
import_traces p m sources [] report w = ok (report, w)
import_traces p m sources (d ∷ traces) report w = do
  (outcome, w') ← import_trace p m sources d w
  import_traces p m sources traces (add_outcome report outcome) w'

-- The end of `Import`: the report is stored and the import does not run any more.
unfoldable pub finish_import : ImportReport → World → World
finish_import report w = record w {
  db = record w.db {
    imports =
        update_where (λ i. i.id == report.id) (λ i. record i { report = some report }) w.db.imports;
    summaries = (record report { traces = [] }) ∷ w.db.summaries;
  };
  running_import = 0;
}

-- `Import`
unfoldable pub run_import :
    Program → Manifest → (Text → Option Files) → World → Sql (ImportReport × World)
run_import p m sources w = do
  let begun = begin_import (start_report p m) w
  (report, w') ← import_traces p m sources m.traces begun.0 begun.1
  let done = record report { complete = true }
  ok (done, finish_import done w')
