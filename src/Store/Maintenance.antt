-- ===== src/Store/Maintenance.antt =====
-- `gc` and `DeleteTrace` of internal/store/maintenance.go: what is removed with a trace, and with the
-- objects that no revision refers to. Which rows a `LIMIT` without an order takes is open: here the
-- newest ones.
pub mod Batches
pub mod Collected
pub mod Ended
pub mod Forgotten
pub mod Links
use traicr.Prelude.{
  ℕ, zero, suc, ◌+◌, ◌-◌, ◌*◌, ◌/◌, ◌%◌, ◌^◌, ◌≤◌, ◌<◌, min, max, ◌≡◌, refl, sym, ap, ◌∙◌, ◌≢◌, ◌↔◌,
  ◌⊎◌, inl, inr, Bool, true, false, not, ◌&&◌, ◌||◌, Option, none, some, List, [], ◌∷◌, ◌++◌, map,
  arith, ltb, leb, ◌==◌, if◌then◌else◌, ltb→lt, leb→le, ==_iff, Bool-cases, Option-cases, length,
  get_elem?, take, drop, slice, length-append, length-take, length-drop, take-append-drop,
  take_whole, length-ne-nil, Member, here, there, Member-append_left, Member-append_right, All,
  All-append, Text, codes, text_eq, text_eq_iff, text_eq_refl, text_eq-ne, text_leb, text_leb_refl,
  text_leb_trans, text_leb_total, text_leb_antisym, has_prefix, contains_byte, count_byte, Result,
  ok, err,
}
use traicr.Prelude.Maybe.{◌>>=◌}
use traicr.Store.Table.{find, exists, delete_where}
use traicr.Store.Db.{Db, SourceObject, Sql, no_rows}
use traicr.Store.Revisions.{object_path}
use traicr.Store.Objects.{ObjectStore}
use traicr.Store.Import.{World}

-- `NOT EXISTS(SELECT 1 FROM revision_objects WHERE object_digest=…)`
unfoldable pub is_unused : Db → SourceObject → Bool
is_unused db o = not (exists (λ r. text_eq r.object_digest o.digest) db.revision_objects)

unfoldable pub unused_objects : Db → List SourceObject → List SourceObject
unused_objects db [] = []
unused_objects db (o ∷ rows) =
    let rest = unused_objects db rows in if is_unused db o then o ∷ rest else rest

-- What the disk does: `os.Remove` of a path, which succeeds too where no file is, and the visit of a path by
-- `filepath.WalkDir`; false is an error.
pub record Disk : Type 0 where
  pub removes : Text → Bool
  pub visits : Text → Bool

-- How a part of `gc` ends: with nothing left to do, or with an error; both keep what was done.
pub data Swept : Type 0 where
  finished stopped : World → Swept

-- `os.Remove`; a file that is not there is no error.
unfoldable pub remove_file : Disk → Text → ObjectStore → Option ObjectStore
remove_file disk path objects =
    if disk.removes path
    then some (delete_where (λ f. text_eq (object_path f.0) path) objects)
    else none

-- The loop over one batch.
unfoldable pub remove_unused : Disk → List SourceObject → World → Swept
remove_unused disk [] w = finished w
remove_unused disk (o ∷ batch) w = elim (remove_file disk o.path w.objects) [
  | none ↦ stopped w
  | some objects ↦ remove_unused disk batch (record w {
    objects = objects;
    db = record w.db {
      source_objects =
          delete_where (λ s. text_eq s.digest o.digest && is_unused w.db s) w.db.source_objects;
    };
  })
]

abbrev pub batch_size : ℕ
batch_size = 100

abbrev pub next_batch : Db → List SourceObject
next_batch db = take batch_size (unused_objects db db.source_objects)

-- The batches, with the rounds that are allowed.
unfoldable pub remove_batches : Disk → ℕ → World → Option Swept
remove_batches disk zero w = none
remove_batches disk (suc rounds) w = elim (remove_unused disk (next_batch w.db) w) [
  | stopped w' ↦ some (stopped w')
  | finished w' ↦ elim (ltb (length (next_batch w.db)) batch_size) [
    | true ↦ some (finished w')
    | false ↦ remove_batches disk rounds w'
  ]
]

-- `filepath.WalkDir`: files that no row names are removed; an error ends the walk.
unfoldable pub is_referenced : Db → Text × Text → Bool
is_referenced db f = exists (λ s. text_eq s.path (object_path f.0)) db.source_objects

unfoldable pub remove_strays : Disk → Db → ObjectStore → ObjectStore × Bool
remove_strays disk db [] = ([], true)
remove_strays disk db (f ∷ files) =
    let rest = remove_strays disk db files in
    if not (disk.visits (object_path f.0))
    then (f ∷ files, false)
    else if is_referenced db f
    then (f ∷ rest.0, rest.1)
    else if disk.removes (object_path f.0)
    then rest
    else (f ∷ files, false)

unfoldable pub walk_objects : Disk → World → Swept
walk_objects disk w =
    let walked = remove_strays disk w.db w.objects in
    let left : World = record w { objects = walked.0 } in
    if walked.1 then finished left else stopped left

-- `gc`
unfoldable pub gc : Disk → World → Option Swept
gc disk w = elim (remove_batches disk (suc (length w.db.source_objects)) w) [
  | none ↦ none
  | some (stopped w') ↦ some (stopped w')
  | some (finished w') ↦ some (walk_objects disk w')
]

abbrev pub revision_in : Db → ℕ → ℕ → Bool
revision_in db trace revision = exists (λ r. r.id == revision && r.trace_id == trace) db.revisions

abbrev pub event_of : Db → ℕ → ℕ → Bool
event_of db trace event = exists (λ e. e.id == event && e.trace_id == trace) db.events

abbrev pub observation_of : Db → ℕ → ℕ → Bool
observation_of db trace observation =
    exists (λ o. o.id == observation && event_of db trace o.event_id) db.observations

-- `DELETE FROM traces WHERE id=?`, with the rows that `ON DELETE CASCADE` takes along
unfoldable pub delete_trace_rows : ℕ → Db → Db
unfolding revision_in event_of observation_of
delete_trace_rows trace db = record db {
  traces = delete_where (λ t. t.id == trace) db.traces;
  revisions = delete_where (λ r. r.trace_id == trace) db.revisions;
  revision_machines = delete_where (λ m. revision_in db trace m.revision_id) db.revision_machines;
  revision_objects = delete_where (λ o. revision_in db trace o.revision_id) db.revision_objects;
  events = delete_where (λ e. e.trace_id == trace) db.events;
  observations = delete_where (λ o. event_of db trace o.event_id) db.observations;
  observation_revisions =
      delete_where
        (λ x. revision_in db trace x.revision_id || observation_of db trace x.observation_id)
        db.observation_revisions;
  observation_sources =
      delete_where
        (λ s. revision_in db trace s.revision_id || observation_of db trace s.observation_id)
        db.observation_sources;
  search_chunks =
      delete_where
        (λ c.
          event_of db trace c.event_id
          || (revision_in db trace c.revision_id || observation_of db trace c.observation_id))
        db.search_chunks;
  normalizer_runs = delete_where (λ n. revision_in db trace n.revision_id) db.normalizer_runs;
  aliases = delete_where (λ a. a.trace_id == trace) db.aliases;
}

-- `DeleteTrace`; the outer `none` is a `gc` that did not end.
unfoldable pub delete_trace : Disk → ℕ → World → Option (Sql Swept)
delete_trace disk trace w =
    if exists (λ t. t.id == trace) w.db.traces
    then (do swept ← gc disk (record w { db = delete_trace_rows trace w.db }); some (ok swept))
    else some (err no_rows)
