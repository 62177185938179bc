-- ===== src/Tests/Fixtures.antt =====
-- A small import: a program with fixed answers, a manifest with one trace, and the report of its first import.

use traicr.Prelude.{
  ◌≡◌, refl, false, Option, none, some, [], ◌∷◌, if◌then◌else◌, Text, codes, text_eq, text_leb,
  has_prefix, contains_byte, count_byte, ok, err,
}
use traicr.Prelude.Keys.{contains, lookup}
use traicr.Prelude.Utf8.{lead, valid_from}
use traicr.Search.{rune_start, continuation_at, retreat, advance_from, cut, chunks_loop, chunks}
use traicr.Store.Table.{delete_where}
use traicr.Store.Db.{join_lines}
use traicr.Store.Repositories.{repository_identity, ensure_repository, ensure_path}
use traicr.Store.SearchText.{
  searchable_text, search_labels, or_panic, add_chunks, index_text, index_revision,
}
use traicr.Store.Traces.{ensure_trace}
use traicr.Store.Preferred.{
  archived_count, better, candidates, preferred, set_preferred, set_preferred_in,
}
use traicr.Store.Events.{
  ensure_event, ensure_observation, ensure_observation_revision, insert_sources, version_of,
  differs, lookup_ordinal, attach, insert_event, insert_loop, insert_events, validate_events,
}
use traicr.Store.Revisions.{
  insert_revision, insert_objects, stored_titles, fill_title, record_run, commit_revision,
  add_alias, add_aliases, add_all_aliases, reopen_titles, delete_links, delete_unlinked,
  mark_revision, delete_bare_events, replace_revision_events,
}
use traicr.Store.Objects.{trim_prefix, open_source, write_content, store_file}
use traicr.Store.Import.{
  caught, normalization_successful, normalize_result, start_outcome, fail, revision_of, add_machine,
  renormalize, after_backfill, import_known, new_status, import_new, import_either, import_files,
}
use traicr.Store.Revisions.Backfill.{
  is_null, lacks_repository, backfill_title, backfill_directory, link_repository, backfill_missing,
  backfill_repository, extend_text, reindex_metadata, finish_backfill,
}
use traicr.Store.Import.Loop.{
  count_outcome, upsert_machine, begin_import, start_report, add_outcome, import_traces,
  finish_import,
}
use traicr.Domain.{
  Machine, File, Repository, Descriptor, Manifest, Event, ImportReport, pos, int_is,
  is_empty_repository,
}
use traicr.Store.Table.{find, exists, update_where, max_of}
use traicr.Store.Db.{Env, Sql, empty, canonical_time}
use traicr.Store.Traces.{refresh, display_title, upsert_trace, metadata_time}
use traicr.Store.Repositories.{upsert_repository}
use traicr.Store.Preferred.{best, precedes}
use traicr.Store.Objects.{write_object, store_objects}
use traicr.Store.Revisions.Backfill.{backfill}
use traicr.Store.Import.{Files, Program, World, import_trace, find_revision}
use traicr.Store.Import.Loop.{run_import}

abbrev pub digest : Text
digest = codes "0123456789abcdef0123456789abcdef0123456789abcdef0123456789abcdef"

abbrev machine : Machine
machine = record { id = codes "m"; hostname = codes "h"; os = codes "linux"; arch = codes "amd64" }

abbrev repository : Repository
repository = record { remote = codes "git@x:y"; root = codes "/y" }

abbrev elsewhere : Repository
elsewhere = record { remote = codes "git@x:y"; root = codes "/z" }

abbrev pub file : File
file = record { path = codes "s"; size = pos 2; sha256 = digest }

abbrev pub descriptor : Descriptor
descriptor = record {
  path = codes "t";
  harness = codes "pi";
  adapter = codes "pi";
  native_trace_id = codes "1";
  native_updated_at = codes "20";
  revision_digest = codes "r";
  parent_native_trace_id = [];
  title = codes "A";
  working_directory = codes "/y";
  repository = repository;
  files = file ∷ [];
  warnings = [];
}

abbrev pub manifest : Manifest
manifest = record {
  format_version = pos 1;
  collector_version = codes "1";
  created_at = codes "30";
  source_machine = machine;
  traces = descriptor ∷ [];
}

abbrev event : Event
event = record {
  key = codes "k";
  parent_key = [];
  branch = [];
  kind = codes "message";
  role = codes "user";
  model = [];
  provider = [];
  tool = [];
  call_id = [];
  timestamp = codes "20";
  text = codes "hi";
  sources = [];
  attachments = [];
  metadata = [];
  legacy_keys = [];
}

abbrev pub env : Env
env = record { now = codes "40"; parse_time = λ t. some t; event_digest = λ e. e.key }

abbrev pub program : Program
program = record {
  env = env;
  sha256 = λ c. digest;
  normalize = λ d f.
      (record { version = 1; status = []; events = event ∷ []; warnings = []; title = [] }, none);
  error_text = λ e. codes "failed";
}

abbrev pub files : Files
files path = if text_eq path (codes "s") then some (codes "{}") else none

abbrev pub sources : Text → Option Files
sources path = if text_eq path (codes "t") then some files else none

abbrev pub new_world : World
new_world = record { db = empty; objects = []; running_import = 0 }

abbrev pub no_report : ImportReport
no_report = record {
  id = 0;
  created_at = [];
  machine = machine;
  imported = 0;
  updated = 0;
  unchanged = 0;
  partial = 0;
  unsupported = 0;
  failed = 0;
  complete = false;
  traces = [];
}

abbrev report_of : Sql (ImportReport × World) → ImportReport × World
report_of (ok r) = r
report_of (err e) = (no_report, new_world)

abbrev pub first_import : ImportReport × World
first_import = report_of (run_import program manifest sources new_world)

pub first_import_ok : run_import program manifest sources new_world ≡ ok first_import
unfolding text_eq text_leb has_prefix contains_byte count_byte contains lookup lead valid_from
    int_is is_empty_repository rune_start continuation_at retreat advance_from cut chunks_loop
    chunks find exists update_where delete_where max_of canonical_time join_lines
    repository_identity ensure_repository ensure_path upsert_repository searchable_text
    search_labels or_panic add_chunks index_text index_revision display_title metadata_time
    ensure_trace refresh upsert_trace archived_count precedes better best candidates preferred
    set_preferred set_preferred_in ensure_event ensure_observation ensure_observation_revision
    insert_sources version_of differs lookup_ordinal attach insert_event insert_loop insert_events
    validate_events insert_revision insert_objects stored_titles fill_title record_run
    commit_revision add_alias add_aliases add_all_aliases reopen_titles delete_links delete_unlinked
    mark_revision delete_bare_events replace_revision_events trim_prefix open_source write_content
    write_object store_file store_objects caught normalization_successful normalize_result
    start_outcome fail revision_of find_revision add_machine renormalize after_backfill import_known
    new_status import_new import_either import_files import_trace is_null lacks_repository
    backfill_title backfill_directory link_repository backfill_missing backfill_repository
    extend_text reindex_metadata finish_backfill backfill count_outcome upsert_machine begin_import
    start_report add_outcome import_traces finish_import run_import
first_import_ok = refl
