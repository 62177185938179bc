-- ===== src/Tests/Renames.antt =====
-- A trace with one revision of one event that gets a manual title.

use traicr.Prelude.{◌≡◌, refl, none, some, [], ◌∷◌, ◌==◌, All, Text, codes, text_eq, ok, err}
use traicr.Domain.{Event}
use traicr.Search.{rune_start, continuation_at, retreat, advance_from, cut, chunks_loop, chunks}
use traicr.Store.Table.{find, exists, update_where, delete_where}
use traicr.Store.Db.{Db, TraceRow, Sql, empty, join_lines}
use traicr.Store.SearchText.{
  searchable_text, search_labels, or_panic, add_chunks, index_text, index_revision,
}
use traicr.Store.Titles.{
  set_title_override, reindex_trace, reindex_revisions, reindex_revision, relabel_all, relabel,
  labelled_text, sources_of, current_labels, label_descriptor, repository_of,
}
use traicr.Store.Titles.Labelled.{IsLabelled, set_title_override-IsLabelled}

abbrev event : Event
event = record {
  key = codes "k";
  parent_key = [];
  branch = [];
  kind = codes "message";
  role = codes "user";
  model = [];
  provider = [];
  tool = [];
  call_id = [];
  timestamp = codes "20";
  text = codes "hi";
  sources = [];
  attachments = [];
  metadata = [];
  legacy_keys = [];
}

abbrev trace_row : TraceRow
trace_row = record {
  id = 1;
  harness = codes "pi";
  native_trace_id = codes "1";
  title = codes "C";
  working_directory = [];
  repository_id = none;
  parent_native_trace_id = [];
  created_at = codes "10";
  updated_at = codes "19";
  title_override = [];
  generated_title = [];
  generated_title_revision_id = 0;
}

abbrev one_event : Db
one_event = record empty {
  traces = trace_row ∷ [];
  revisions =
      (record {
        id = 1;
        trace_id = 1;
        digest = codes "r";
        native_updated_at = codes "19";
        collected_at = codes "20";
        adapter = codes "pi";
        status = codes "normalized";
        normalizer_version = 1;
      })
      ∷ [];
  events =
      (record {
        id = 1;
        trace_id = 1;
        event_key = codes "k";
        sort_time = codes "20";
        preferred_observation_id = some 1;
      })
      ∷ [];
  observations =
      (record { id = 1; event_id = 1; digest = codes "d"; event_time = codes "20"; event = event })
      ∷ [];
  observation_revisions =
      (record { observation_id = 1; revision_id = 1; searchable_text = codes "old" }) ∷ [];
}

abbrev db_of : Sql Db → Db
db_of (ok db) = db
db_of (err e) = one_event

abbrev renamed : Db
renamed = db_of (set_title_override 1 (codes "mine") one_event)

renamed_ok : set_title_override 1 (codes "mine") one_event ≡ ok renamed
unfolding set_title_override reindex_trace reindex_revisions reindex_revision relabel_all relabel
    labelled_text sources_of current_labels label_descriptor repository_of find exists update_where
    delete_where join_lines searchable_text search_labels or_panic add_chunks index_text
    index_revision rune_start continuation_at retreat advance_from cut chunks_loop chunks text_eq
renamed_ok = refl

set_title_override-IsLabelled_example :
    (t : TraceRow) × (labels : Text) × (find (λ x. x.id == 1) one_event.traces ≡ some t)
    × (find (λ x. x.id == 1) renamed.traces ≡ some (record t { title_override = codes "mine" }))
    × (current_labels renamed 1 ≡ ok labels)
    × All (IsLabelled 1 labels renamed.observations renamed.revisions) renamed.observation_revisions
set_title_override-IsLabelled_example =
    set_title_override-IsLabelled 1 (codes "mine") one_event renamed renamed_ok
