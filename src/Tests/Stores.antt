-- ===== src/Tests/Stores.antt =====
-- A server with no traces, an archive with one trace of one event, and two repositories.
use traicr.Tests.Fixtures.{
  descriptor, digest, env, file, files, first_import, first_import_ok, manifest, new_world, program,
  sources,
}
use traicr.Prelude.{
  ◌≡◌, refl, Bool, true, false, none, some, [], ◌∷◌, ◌==◌, All, codes, text_eq, text_leb,
  has_prefix, contains_byte, count_byte, ok, err,
}
use traicr.Prelude.Keys.{contains, lookup}
use traicr.Prelude.Utf8.{lead, valid_from}
use traicr.Search.{rune_start, continuation_at, retreat, advance_from, cut, chunks_loop, chunks}
use traicr.Store.Table.{delete_where}
use traicr.Store.Db.{join_lines}
use traicr.Store.Repositories.{repository_identity, ensure_repository, ensure_path}
use traicr.Store.SearchText.{
  searchable_text, search_labels, or_panic, add_chunks, index_text, index_revision,
}
use traicr.Store.Traces.{ensure_trace}
use traicr.Store.Preferred.{
  archived_count, better, candidates, preferred, set_preferred, set_preferred_in,
}
use traicr.Store.Events.{
  ensure_event, ensure_observation, ensure_observation_revision, insert_sources, version_of,
  differs, lookup_ordinal, attach, insert_event, insert_loop, insert_events, validate_events,
}
use traicr.Store.Revisions.{
  insert_revision, insert_objects, stored_titles, fill_title, record_run, commit_revision,
  add_alias, add_aliases, add_all_aliases, reopen_titles, delete_links, delete_unlinked,
  mark_revision, delete_bare_events, replace_revision_events,
}
use traicr.Store.Objects.{trim_prefix, open_source, write_content, store_file}
use traicr.Store.Import.{
  caught, normalization_successful, normalize_result, start_outcome, fail, revision_of, add_machine,
  renormalize, after_backfill, import_known, new_status, import_new, import_either, import_files,
}
use traicr.Store.Revisions.Backfill.{
  is_null, lacks_repository, backfill_title, backfill_directory, link_repository, backfill_missing,
  backfill_repository, extend_text, reindex_metadata, finish_backfill,
}
use traicr.Store.Import.Loop.{
  count_outcome, upsert_machine, begin_import, start_report, add_outcome, import_traces,
  finish_import,
}
use traicr.Domain.{TraceOutcome, int_is, is_empty_repository}
use traicr.Store.Table.{find, exists, update_where, max_of}
use traicr.Store.Db.{RevisionRow, Db, TraceRow, Sql, empty, canonical_time}
use traicr.Store.Traces.{refresh, display_title, upsert_trace, metadata_time}
use traicr.Store.Repositories.{upsert_repository}
use traicr.Store.Preferred.{best, precedes}
use traicr.Store.Objects.{write_object, store_objects, IsAddressed, IsStored, write_object-IsStored}
use traicr.Store.Objects.Again.{store_objects_again}
use traicr.Store.Revisions.{StoredObject}
use traicr.Store.Revisions.Backfill.{backfill}
use traicr.Store.Revisions.Backfill.Kept.{backfill-IsFilled}
use traicr.Store.Revisions.Backfill.Filled.{IsFilled}
use traicr.Store.Revisions.Backfill.Again.{backfill_again}
use traicr.Store.Import.{World, status_failed, status_unchanged, import_trace, find_revision}
use traicr.Store.Import.Loop.{run_import}
use traicr.Store.Import.Loop.Counts.{run_import-IsCounted}
use traicr.Store.Import.Loop.Outcomes.{IsCounted, outcome_names, names_of}
use traicr.Store.Import.Again.{import_trace_again}

run_import-IsCounted_example :
    IsCounted first_import.0
    × (outcome_names first_import.0.traces ≡ names_of manifest.traces)
    × (first_import.0.complete ≡ true)
    × (first_import.1.running_import ≡ 0)
run_import-IsCounted_example =
    run_import-IsCounted program manifest sources new_world first_import.1 first_import.0
      first_import_ok

file_stored :
    write_object program.sha256 (codes "{}") file []
    ≡ ok (record { path = codes "s"; digest = digest; size = 2 }, (digest, codes "{}") ∷ [])
unfolding trim_prefix open_source write_content write_object store_file store_objects int_is text_eq
    has_prefix lookup
file_stored = refl

write_object-IsStored_example :
    All (IsAddressed program.sha256) ((digest, codes "{}") ∷ [])
    × IsStored program.sha256 file
        (record { path = codes "s"; digest = digest; size = 2 })
        ((digest, codes "{}") ∷ [])
write_object-IsStored_example =
    write_object-IsStored program.sha256 (codes "{}") file [] ((digest, codes "{}") ∷ [])
      (record { path = codes "s"; digest = digest; size = 2 }) tt file_stored

abbrev stored : StoredObject
stored = record { path = codes "s"; digest = digest; size = 2 }

files_stored : (store_objects program.sha256 files (file ∷ []) []).0 ≡ ok (stored ∷ [])
unfolding trim_prefix open_source write_content write_object store_file store_objects int_is text_eq
    has_prefix lookup
files_stored = refl

store_objects_again_example :
    store_objects program.sha256 files
      (file ∷ [])
      (store_objects program.sha256 files (file ∷ []) []).1
    ≡ (ok (stored ∷ []), (store_objects program.sha256 files (file ∷ []) []).1)
store_objects_again_example =
    store_objects_again program.sha256 files (file ∷ []) [] (stored ∷ []) files_stored

abbrev bare : TraceRow
bare = record {
  id = 1;
  harness = codes "pi";
  native_trace_id = codes "1";
  title = [];
  working_directory = codes "/x";
  repository_id = none;
  parent_native_trace_id = [];
  created_at = codes "10";
  updated_at = codes "20";
  title_override = codes "mine";
  generated_title = [];
  generated_title_revision_id = 0;
}

abbrev bare_db : Db
bare_db = record empty { traces = bare ∷ [] }

abbrev pair_of : Sql (Bool × Db) → Bool × Db
pair_of (ok r) = r
pair_of (err e) = (false, bare_db)

abbrev filled : Bool × Db
filled = pair_of (backfill env 1 1 (codes "m") descriptor bare_db)

filled_ok : backfill env 1 1 (codes "m") descriptor bare_db ≡ ok filled
unfolding text_eq text_leb has_prefix contains_byte count_byte contains lookup lead valid_from
    int_is is_empty_repository rune_start continuation_at retreat advance_from cut chunks_loop
    chunks find exists update_where delete_where max_of canonical_time join_lines
    repository_identity ensure_repository ensure_path upsert_repository searchable_text
    search_labels or_panic add_chunks index_text index_revision display_title metadata_time
    ensure_trace refresh upsert_trace archived_count precedes better best candidates preferred
    set_preferred set_preferred_in ensure_event ensure_observation ensure_observation_revision
    insert_sources version_of differs lookup_ordinal attach insert_event insert_loop insert_events
    validate_events insert_revision insert_objects stored_titles fill_title record_run
    commit_revision add_alias add_aliases add_all_aliases reopen_titles delete_links delete_unlinked
    mark_revision delete_bare_events replace_revision_events trim_prefix open_source write_content
    write_object store_file store_objects caught normalization_successful normalize_result
    start_outcome fail revision_of find_revision add_machine renormalize after_backfill import_known
    new_status import_new import_either import_files import_trace is_null lacks_repository
    backfill_title backfill_directory link_repository backfill_missing backfill_repository
    extend_text reindex_metadata finish_backfill backfill count_outcome upsert_machine begin_import
    start_report add_outcome import_traces finish_import run_import
filled_ok = refl

found_bare : find (λ r. r.id == 1) bare_db.traces ≡ some bare
unfolding find
found_bare = refl

backfill-IsFilled_example :
    (t : TraceRow) × (find (λ r. r.id == 1) filled.1.traces ≡ some t)
    × IsFilled (canonical_time env (codes "20")) bare t
backfill-IsFilled_example =
    backfill-IsFilled env 1 1 (codes "m") descriptor bare_db filled.1 filled.0 1 bare filled_ok
      found_bare

backfill_again_example : backfill env 1 1 (codes "m") descriptor filled.1 ≡ ok (false, filled.1)
backfill_again_example =
    backfill_again env 1 1 (codes "m") descriptor bare_db filled.1 filled.0 filled_ok

abbrev outcome_of : Sql (TraceOutcome × World) → World → TraceOutcome × World
outcome_of (ok r) w = r
outcome_of (err e) w = (start_outcome descriptor, w)

abbrev second_import : TraceOutcome × World
second_import =
    outcome_of (import_trace program manifest sources descriptor first_import.1) new_world

second_import_ok :
    import_trace program manifest sources descriptor first_import.1 ≡ ok second_import
unfolding text_eq text_leb has_prefix contains_byte count_byte contains lookup lead valid_from
    int_is is_empty_repository rune_start continuation_at retreat advance_from cut chunks_loop
    chunks find exists update_where delete_where max_of canonical_time join_lines
    repository_identity ensure_repository ensure_path upsert_repository searchable_text
    search_labels or_panic add_chunks index_text index_revision display_title metadata_time
    ensure_trace refresh upsert_trace archived_count precedes better best candidates preferred
    set_preferred set_preferred_in ensure_event ensure_observation ensure_observation_revision
    insert_sources version_of differs lookup_ordinal attach insert_event insert_loop insert_events
    validate_events insert_revision insert_objects stored_titles fill_title record_run
    commit_revision add_alias add_aliases add_all_aliases reopen_titles delete_links delete_unlinked
    mark_revision delete_bare_events replace_revision_events trim_prefix open_source write_content
    write_object store_file store_objects caught normalization_successful normalize_result
    start_outcome fail revision_of find_revision add_machine renormalize after_backfill import_known
    new_status import_new import_either import_files import_trace is_null lacks_repository
    backfill_title backfill_directory link_repository backfill_missing backfill_repository
    extend_text reindex_metadata finish_backfill backfill count_outcome upsert_machine begin_import
    start_report add_outcome import_traces finish_import run_import
second_import_ok = refl

abbrev revision : RevisionRow
revision = record {
  id = 1;
  trace_id = 1;
  digest = codes "r";
  native_updated_at = codes "20";
  collected_at = codes "30";
  adapter = codes "pi";
  status = codes "normalized";
  normalizer_version = 1;
}

revision_known : find_revision descriptor first_import.1.db ≡ some revision
unfolding text_eq text_leb has_prefix contains_byte count_byte contains lookup lead valid_from
    int_is is_empty_repository rune_start continuation_at retreat advance_from cut chunks_loop
    chunks find exists update_where delete_where max_of canonical_time join_lines
    repository_identity ensure_repository ensure_path upsert_repository searchable_text
    search_labels or_panic add_chunks index_text index_revision display_title metadata_time
    ensure_trace refresh upsert_trace archived_count precedes better best candidates preferred
    set_preferred set_preferred_in ensure_event ensure_observation ensure_observation_revision
    insert_sources version_of differs lookup_ordinal attach insert_event insert_loop insert_events
    validate_events insert_revision insert_objects stored_titles fill_title record_run
    commit_revision add_alias add_aliases add_all_aliases reopen_titles delete_links delete_unlinked
    mark_revision delete_bare_events replace_revision_events trim_prefix open_source write_content
    write_object store_file store_objects caught normalization_successful normalize_result
    start_outcome fail revision_of find_revision add_machine renormalize after_backfill import_known
    new_status import_new import_either import_files import_trace is_null lacks_repository
    backfill_title backfill_directory link_repository backfill_missing backfill_repository
    extend_text reindex_metadata finish_backfill backfill count_outcome upsert_machine begin_import
    start_report add_outcome import_traces finish_import run_import
revision_known = refl

revision_normalized : normalization_successful revision.status ≡ true
unfolding normalization_successful text_eq
revision_normalized = refl

second_not_failed : text_eq second_import.0.status status_failed ≡ false
unfolding text_eq text_leb has_prefix contains_byte count_byte contains lookup lead valid_from
    int_is is_empty_repository rune_start continuation_at retreat advance_from cut chunks_loop
    chunks find exists update_where delete_where max_of canonical_time join_lines
    repository_identity ensure_repository ensure_path upsert_repository searchable_text
    search_labels or_panic add_chunks index_text index_revision display_title metadata_time
    ensure_trace refresh upsert_trace archived_count precedes better best candidates preferred
    set_preferred set_preferred_in ensure_event ensure_observation ensure_observation_revision
    insert_sources version_of differs lookup_ordinal attach insert_event insert_loop insert_events
    validate_events insert_revision insert_objects stored_titles fill_title record_run
    commit_revision add_alias add_aliases add_all_aliases reopen_titles delete_links delete_unlinked
    mark_revision delete_bare_events replace_revision_events trim_prefix open_source write_content
    write_object store_file store_objects caught normalization_successful normalize_result
    start_outcome fail revision_of find_revision add_machine renormalize after_backfill import_known
    new_status import_new import_either import_files import_trace is_null lacks_repository
    backfill_title backfill_directory link_repository backfill_missing backfill_repository
    extend_text reindex_metadata finish_backfill backfill count_outcome upsert_machine begin_import
    start_report add_outcome import_traces finish_import run_import
second_not_failed = refl

import_trace_again_example :
    import_trace program manifest sources descriptor second_import.1
    ≡ ok (
      record (start_outcome descriptor) { trace_id = 1; status = status_unchanged },
      second_import.1,
    )
import_trace_again_example =
    import_trace_again program manifest sources descriptor first_import.1 second_import.1
      second_import.0 revision revision_known revision_normalized second_import_ok second_not_failed

-- The prefix of a digest is cut off, and no other text.
prefix_cut : trim_prefix (codes "sha256:ab") ≡ codes "ab"
unfolding trim_prefix has_prefix
prefix_cut = refl

prefix_kept : trim_prefix (codes "sha") ≡ codes "sha"
unfolding trim_prefix has_prefix
prefix_kept = refl
