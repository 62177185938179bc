-- ===== src/Store/Revisions.antt =====
-- `commitRevision` and `backfillMissingTraceMetadata` of internal/store/store.go, and `recordRun`
-- and `replaceRevisionEvents` of maintenance.go: what one revision of a trace writes.
-- The state after a statement that fails is not kept: the transaction is rolled back.
pub mod Backfill
use traicr.Prelude.{
  ℕ, zero, suc, ◌+◌, ◌-◌, ◌*◌, ◌/◌, ◌%◌, ◌^◌, ◌≤◌, ◌<◌, min, max, ◌≡◌, refl, sym, ap, ◌∙◌, ◌≢◌, ◌↔◌,
  ◌⊎◌, inl, inr, Bool, true, false, not, ◌&&◌, ◌||◌, Option, none, some, List, [], ◌∷◌, ◌++◌, map,
  arith, ltb, leb, ◌==◌, if◌then◌else◌, ltb→lt, leb→le, ==_iff, Bool-cases, Option-cases, length,
  get_elem?, take, drop, slice, length-append, length-take, length-drop, take-append-drop,
  take_whole, length-ne-nil, Member, here, there, Member-append_left, Member-append_right, All,
  All-append, Text, codes, text_eq, text_eq_iff, text_eq_refl, text_eq-ne, text_leb, text_leb_refl,
  text_leb_trans, text_leb_total, text_leb_antisym, has_prefix, contains_byte, count_byte, Result,
  ok, err, ok-injective, Result-cases, bind-eq-ok, refuse_if, refuse_if-eq-ok, ◌>>=◌, ◌>>◌,
}
use traicr.Domain.{
  Manifest, Descriptor, Normalization, Warning, Event, Repository, is_empty_repository,
}
use traicr.Store.Table.{find, exists, max_of, update_where, delete_where}
use traicr.Store.Db.{
  Db, TraceRow, RevisionRow, RevisionObject, SourceObject, NormalizerRun, EventAlias,
  ObservationRevision, ObservationRow, Env, Sql, StoreError, constraint, or_no_rows, canonical_time,
  join_lines,
}
use traicr.Store.Repositories.{upsert_repository}
use traicr.Store.SearchText.{search_labels, index_revision}
use traicr.Store.Traces.{upsert_trace, metadata_time}
use traicr.Store.Preferred.{set_preferred_in}
use traicr.Store.Events.{is_event, insert_events}

-- `storedObject`
pub record StoredObject : Type 0 where
  pub path : Text
  pub digest : Text
  pub size : ℕ

-- `INSERT INTO trace_revisions`, with `UNIQUE(trace_id, digest)`, and `revision_machines`
unfoldable pub insert_revision : Env → Manifest → Descriptor → Normalization → ℕ → Db → Sql (ℕ × Db)
insert_revision env m d n trace db = do
  refuse_if (exists (λ r. r.trace_id == trace && text_eq r.digest d.revision_digest) db.revisions)
      constraint
  let id = max_of (λ r. r.id) db.revisions + 1
  ok (
    id,
    record db {
      revisions =
          (record {
            id = id;
            trace_id = trace;
            digest = d.revision_digest;
            native_updated_at = metadata_time env d;
            collected_at = canonical_time env m.created_at;
            adapter = d.adapter;
            status = n.status;
            normalizer_version = n.version;
          })
          ∷ db.revisions;
      revision_machines =
          (record { revision_id = id; machine_id = m.source_machine.id }) ∷ db.revision_machines;
    },
  )

-- `filepath.Join(digest[:2], digest[2:])`
abbrev pub object_path : Text → Text
object_path digest = take 2 digest ++ (b'/' ∷ drop 2 digest)

-- The loop over the stored objects.
unfoldable pub insert_objects : ℕ → List StoredObject → Db → Sql Db
insert_objects revision [] db = ok db
insert_objects revision (o ∷ objects) db = do
  let sources =
      if exists (λ s. text_eq s.digest o.digest) db.source_objects
      then db.source_objects
      else (record { digest = o.digest; size = o.size; path = object_path o.digest })
        ∷ db.source_objects
  refuse_if
      (exists (λ r. r.revision_id == revision && text_eq r.relative_path o.path)
        db.revision_objects)
      constraint
  insert_objects revision objects (record db {
    source_objects = sources;
    revision_objects =
        (record { revision_id = revision; relative_path = o.path; object_digest = o.digest })
        ∷ db.revision_objects;
  })

-- `storedTitles`: the override and the generated title
unfoldable pub stored_titles : Db → ℕ → Sql (List Text)
stored_titles db trace = do
  t ← or_no_rows (find (λ t. t.id == trace) db.traces)
  ok (t.title_override ∷ t.generated_title ∷ [])

-- `UPDATE traces SET title=? WHERE id=? AND title='' AND ?<>''`
unfoldable pub fill_title : ℕ → Text → Db → Db
fill_title trace title db = record db {
  traces =
      update_where (λ t. t.id == trace && text_eq t.title [] && not (text_eq title []))
        (λ t. record t { title = title }) db.traces;
}

-- `INSERT INTO normalizer_runs`; also `recordRun`
unfoldable pub record_run : Env → ℕ → ℕ → Text → List Warning → Db → Db
record_run env revision version status warnings db = record db {
  normalizer_runs =
      (record {
        revision_id = revision;
        version = version;
        status = status;
        diagnostics = warnings;
        created_at = env.now;
      })
      ∷ db.normalizer_runs;
}

-- What `commitRevision` returns beside the new state.
pub record Committed : Type 0 where
  pub trace_id : ℕ
  pub is_new : Bool
  pub conflicts : List Warning
  pub db : Db

-- `commitRevision`
unfoldable pub commit_revision :
    Env → Manifest → Descriptor → Normalization → List StoredObject → Db → Sql Committed
commit_revision env m d n objects db = do
  (repository, db1) ← upsert_repository m.source_machine.id d.repository db
  (trace, is_new, db2) ← upsert_trace env d repository db1
  (revision, db3) ← insert_revision env m d n trace db2
  db4 ← insert_objects revision objects db3
  titles ← stored_titles db4 trace
  (conflicts, db5) ← insert_events env trace revision (search_labels d titles) n.events db4
  ok (record {
    trace_id = trace;
    is_new = is_new;
    conflicts = conflicts;
    db =
        record_run env revision n.version n.status (n.warnings ++ conflicts)
          (fill_title trace n.title db5);
  })

-- `INSERT OR REPLACE INTO event_aliases … SELECT … FROM events WHERE trace_id=? AND event_key=?`
unfoldable pub add_alias : ℕ → Text → Text → Db → Db
add_alias trace new_key legacy db = elim (find (is_event trace legacy) db.events) [
  | none ↦ db
  | some e ↦ record db {
    aliases =
        (record { trace_id = trace; legacy_key = legacy; legacy_id = e.id; event_key = new_key })
        ∷ delete_where (λ a. a.trace_id == trace && text_eq a.legacy_key legacy) db.aliases;
  }
]

unfoldable pub add_aliases : ℕ → Text → List Text → Db → Db
add_aliases trace key [] db = db
add_aliases trace key (legacy ∷ rest) db =
    add_aliases trace key rest (add_alias trace key legacy db)

unfoldable pub add_all_aliases : ℕ → List Event → Db → Db
add_all_aliases trace [] db = db
add_all_aliases trace (e ∷ events) db =
    add_all_aliases trace events (add_aliases trace e.key e.legacy_keys db)

-- The two `UPDATE traces` of `replaceRevisionEvents`
unfoldable pub reopen_titles : ℕ → Text → Db → Db
reopen_titles trace title db = fill_title trace title (record db {
  traces =
      update_where (λ t. t.id == trace && text_eq t.generated_title [])
        (λ t. record t { generated_title_revision_id = 0 }) db.traces;
})

-- `DELETE FROM observation_revisions WHERE revision_id=?`, with the rows that `ON DELETE CASCADE`
-- takes along.
unfoldable pub delete_links : ℕ → Db → Db
delete_links revision db = record db {
  observation_revisions = delete_where (λ x. x.revision_id == revision) db.observation_revisions;
  observation_sources = delete_where (λ s. s.revision_id == revision) db.observation_sources;
  search_chunks = delete_where (λ c. c.revision_id == revision) db.search_chunks;
}

abbrev event_in : Db → ℕ → ℕ → Bool
event_in db trace event = exists (λ e. e.id == event && e.trace_id == trace) db.events

abbrev linked : Db → ℕ → Bool
linked db observation = exists (λ x. x.observation_id == observation) db.observation_revisions

-- `DELETE FROM event_observations WHERE event_id IN (…) AND NOT EXISTS(…)`
unfoldable pub delete_unlinked : ℕ → Db → Db
unfolding event_in linked
delete_unlinked trace db = record db {
  observations =
      delete_where (λ o. event_in db trace o.event_id && not (linked db o.id)) db.observations;
}

-- `UPDATE trace_revisions SET status=?,normalizer_version=? WHERE id=?`
unfoldable pub mark_revision : ℕ → Text → ℕ → Db → Db
mark_revision revision status version db = record db {
  revisions =
      update_where (λ r. r.id == revision)
        (λ r. record r { status = status; normalizer_version = version }) db.revisions;
}

-- `DELETE FROM events WHERE trace_id=? AND NOT EXISTS(…)`
unfoldable pub delete_bare_events : ℕ → Db → Db
delete_bare_events trace db = record db {
  events =
      delete_where
        (λ e. e.trace_id == trace && not (exists (λ o. o.event_id == e.id) db.observations))
        db.events;
}

-- `replaceRevisionEvents`
unfoldable pub replace_revision_events :
    Env → ℕ → ℕ → Text → Normalization → Db → Sql (List Warning × Db)
replace_revision_events env trace revision labels n db = do
  let db1 = reopen_titles trace n.title (add_all_aliases trace n.events db)
  let db2 = delete_unlinked trace (delete_links revision db1)
  let db3 = mark_revision revision n.status n.version db2
  (conflicts, db4) ← insert_events env trace revision labels n.events db3
  let db5 = delete_bare_events trace (set_preferred_in trace db4)
  ok (conflicts, record_run env revision n.version n.status (n.warnings ++ conflicts) db5)
