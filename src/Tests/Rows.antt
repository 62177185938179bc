-- ===== src/Tests/Rows.antt =====
-- Single tables: two revisions of a trace, two roots of a repository, candidates and events.
use traicr.Prelude.{
  ◌⊎◌, All, text_eq, ℕ, ◌≡◌, refl, Bool, true, false, Option, none, some, [], ◌∷◌, Text, codes,
  text_leb, ok, err,
}
use traicr.Domain.{Repository, Descriptor, Event, is_empty_repository}
use traicr.Store.Table.{find, exists, update_where, max_of, nil}
use traicr.Store.Db.{Db, TraceRow, Env, Sql, empty, canonical_time}
use traicr.Store.Traces.{
  has_repository, refresh, ensure_trace, upsert_trace, trace_of, metadata_time,
}
use traicr.Store.Traces.Order.{
  IsRefreshed, IsNew, upsert_trace-row, upsert_trace-HasUniqueTraces, HasUniqueTraces,
}
use traicr.Store.Repositories.{repository_identity, upsert_repository, upsert_repository_again}
use traicr.Store.Preferred.{Candidate, better, best, precedes}

abbrev near : Repository
near = record { remote = codes "git@x:y"; root = codes "/y" }

abbrev far : Repository
far = record { remote = codes "git@x:y"; root = codes "/z" }

abbrev older : Descriptor
older = record {
  path = codes "t";
  harness = codes "pi";
  adapter = codes "pi";
  native_trace_id = codes "1";
  native_updated_at = codes "20";
  revision_digest = codes "r";
  parent_native_trace_id = [];
  title = codes "A";
  working_directory = codes "/y";
  repository = near;
  files = [];
  warnings = [];
}

abbrev newer : Descriptor
newer = record older {
  native_updated_at = codes "21";
  title = codes "B";
  revision_digest = codes "q";
}

abbrev env : Env
env = record { now = codes "40"; parse_time = λ t. some t; event_digest = λ e. e.key }

abbrev row : TraceRow
row = record {
  id = 1;
  harness = codes "pi";
  native_trace_id = codes "1";
  title = codes "C";
  working_directory = [];
  repository_id = none;
  parent_native_trace_id = [];
  created_at = codes "10";
  updated_at = codes "19";
  title_override = codes "mine";
  generated_title = [];
  generated_title_revision_id = 0;
}

abbrev one_trace : Db
one_trace = record empty {
  traces = row ∷ [];
  repositories = (record { id = 1; identity = codes "i"; remote = []; root = codes "/y" }) ∷ [];
}

-- The row is older than the revision.
one_trace-HasRepository :
    All (λ t. has_repository one_trace t.repository_id ≡ true) one_trace.traces
one_trace-HasRepository = (refl, tt)

known_repository : has_repository one_trace (some 1) ≡ true
unfolding exists
known_repository = refl

upsert_trace-row_example :
    (id : ℕ) × (is_new : Bool) × (db : Db) × (upsert_trace env older (some 1) one_trace
      ≡ ok (id, is_new, db))
    × (after : TraceRow) × (find (trace_of older) db.traces ≡ some after)
    × (id ≡ after.id)
    × (((find (trace_of older) one_trace.traces ≡ none)
          × (is_new ≡ true)
          × IsNew env (metadata_time env older) older (some 1) after)
        ⊎ ((t : TraceRow) × (find (trace_of older) one_trace.traces ≡ some t)
            × (is_new ≡ false)
            × IsRefreshed (metadata_time env older) older (some 1) t after))
upsert_trace-row_example =
    upsert_trace-row env older (some 1) one_trace known_repository one_trace-HasRepository

abbrev db_of : Sql (ℕ × Bool × Db) → Db
db_of (ok (id, is_new, db)) = db
db_of (err e) = empty

abbrev upserted : Db
upserted = db_of (upsert_trace env older none empty)

upserted_ok : upsert_trace env older none empty ≡ ok (1, true, upserted)
unfolding upsert_trace ensure_trace metadata_time canonical_time text_eq find update_where max_of
    refresh text_leb
upserted_ok = refl

upsert_trace-HasUniqueTraces_example : HasUniqueTraces upserted
upsert_trace-HasUniqueTraces_example =
    upsert_trace-HasUniqueTraces env older none empty (record { by_name = nil; by_id = nil })
      upserted_ok

upsert_repository_again_example :
    (id : Option ℕ) × (db : Db) × (upsert_repository (codes "m") near empty ≡ ok (id, db))
    × (upsert_repository (codes "m") near db ≡ ok (id, db))
upsert_repository_again_example = upsert_repository_again (codes "m") near empty

near_full : is_empty_repository near ≡ false
unfolding is_empty_repository text_eq
near_full = refl

far_full : is_empty_repository far ≡ false
unfolding is_empty_repository text_eq
far_full = refl

one_identity : repository_identity (codes "m") near ≡ repository_identity (codes "n") far
unfolding repository_identity text_eq
one_identity = refl

abbrev candidate : ℕ → Text → Candidate
candidate id digest = record {
  observation_id = id;
  updated_at = codes "20";
  event_time = codes "20";
  archived = 0;
  digest = digest;
}

best_is_b :
    best (candidate 1 (codes "a") ∷ candidate 2 (codes "b") ∷ []) ≡ some (candidate 2 (codes "b"))
unfolding best better precedes text_eq text_leb
best_is_b = refl

abbrev event : Event
event = record {
  key = codes "k";
  parent_key = [];
  branch = [];
  kind = codes "message";
  role = codes "user";
  model = [];
  provider = [];
  tool = [];
  call_id = [];
  timestamp = codes "20";
  text = codes "hi";
  sources = [];
  attachments = [];
  metadata = [];
  legacy_keys = [];
}

-- A trace with a revision, and no events yet.
abbrev one_revision : Db
one_revision = record one_trace {
  revisions =
      (record {
        id = 1;
        trace_id = 1;
        digest = codes "r";
        native_updated_at = [];
        collected_at = [];
        adapter = codes "pi";
        status = codes "normalized";
        normalizer_version = 1;
      })
      ∷ [];
}
