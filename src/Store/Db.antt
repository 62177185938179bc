-- ===== src/Store/Db.antt =====
-- The tables of migrations/001_initial.sql and migrations.go that imports write, as one state.
-- Word and trigram indexes follow `search_chunks` by triggers and are not kept apart.
use traicr.Prelude.{ℕ, Option, none, some, List, [], ◌∷◌, ◌++◌, Text, Result, ok, err}
use traicr.Domain.{Machine, Warning, Event, ImportReport}

pub record MachineRow : Type 0 where
  pub machine : Machine
  pub first_seen : Text
  pub last_seen : Text

-- `report` is none until the import is complete.
pub record ImportRow : Type 0 where
  pub id : ℕ
  pub created_at : Text
  pub machine_id : Text
  pub report : Option ImportReport

pub record RepositoryRow : Type 0 where
  pub id : ℕ
  pub identity : Text
  pub remote : Text
  pub root : Text

pub record RepositoryPath : Type 0 where
  pub repository_id : ℕ
  pub path : Text

pub record TraceRow : Type 0 where
  pub id : ℕ
  pub harness : Text
  pub native_trace_id : Text
  pub title : Text
  pub working_directory : Text
  pub repository_id : Option ℕ
  pub parent_native_trace_id : Text
  pub created_at : Text
  pub updated_at : Text
  pub title_override : Text
  pub generated_title : Text
  pub generated_title_revision_id : ℕ

pub record RevisionRow : Type 0 where
  pub id : ℕ
  pub trace_id : ℕ
  pub digest : Text
  pub native_updated_at : Text
  pub collected_at : Text
  pub adapter : Text
  pub status : Text
  pub normalizer_version : ℕ

pub record RevisionMachine : Type 0 where
  pub revision_id : ℕ
  pub machine_id : Text

pub record SourceObject : Type 0 where
  pub digest : Text
  pub size : ℕ
  pub path : Text

pub record RevisionObject : Type 0 where
  pub revision_id : ℕ
  pub relative_path : Text
  pub object_digest : Text

pub record EventRow : Type 0 where
  pub id : ℕ
  pub trace_id : ℕ
  pub event_key : Text
  pub sort_time : Text
  pub preferred_observation_id : Option ℕ

-- The columns copied out of `event_json` are those of `event`.
pub record ObservationRow : Type 0 where
  pub id : ℕ
  pub event_id : ℕ
  pub digest : Text
  pub event_time : Text
  pub event : Event

pub record ObservationRevision : Type 0 where
  pub observation_id : ℕ
  pub revision_id : ℕ
  pub searchable_text : Text

pub record ObservationSource : Type 0 where
  pub observation_id : ℕ
  pub revision_id : ℕ
  pub ordinal : ℕ
  pub path : Text
  pub line : ℕ

pub record SearchChunk : Type 0 where
  pub observation_id : ℕ
  pub revision_id : ℕ
  pub event_id : ℕ
  pub content : Text

pub record NormalizerRun : Type 0 where
  pub revision_id : ℕ
  pub version : ℕ
  pub status : Text
  pub diagnostics : List Warning
  pub created_at : Text

pub record EventAlias : Type 0 where
  pub trace_id : ℕ
  pub legacy_key : Text
  pub legacy_id : ℕ
  pub event_key : Text

-- `event_seq` and `import_seq` are the last keys that `AUTOINCREMENT` gave out.
pub record Db : Type 0 where
  pub machines : List MachineRow
  pub imports : List ImportRow
  pub summaries : List ImportReport
  pub repositories : List RepositoryRow
  pub repository_paths : List RepositoryPath
  pub traces : List TraceRow
  pub revisions : List RevisionRow
  pub revision_machines : List RevisionMachine
  pub source_objects : List SourceObject
  pub revision_objects : List RevisionObject
  pub events : List EventRow
  pub observations : List ObservationRow
  pub observation_revisions : List ObservationRevision
  pub observation_sources : List ObservationSource
  pub search_chunks : List SearchChunk
  pub normalizer_runs : List NormalizerRun
  pub aliases : List EventAlias
  pub event_seq : ℕ
  pub import_seq : ℕ

abbrev pub empty : Db
empty = record {
  machines = [];
  imports = [];
  summaries = [];
  repositories = [];
  repository_paths = [];
  traces = [];
  revisions = [];
  revision_machines = [];
  source_objects = [];
  revision_objects = [];
  events = [];
  observations = [];
  observation_revisions = [];
  observation_sources = [];
  search_chunks = [];
  normalizer_runs = [];
  aliases = [];
  event_seq = 0;
  import_seq = 0;
}

-- Why an operation fails. A failed transaction is rolled back: the state before it is kept.
pub data StoreError : Type 0 where
  constraint no_rows empty_key panic invalid_title : StoreError
  invalid_digest size_mismatch digest_mismatch open_failed write_failed : StoreError

abbrev pub Sql : Type 0 → Type 0
Sql A = Result StoreError A

abbrev pub or_no_rows : {A : Type 0} → Option A → Sql A
or_no_rows none = err no_rows
or_no_rows (some a) = ok a

-- What the program takes from its surroundings: the clock, `time.Parse` of RFC 3339 with the fixed
-- UTC layout that it is formatted in, and SHA-256 of the JSON of an event.
pub record Env : Type 0 where
  pub now : Text
  pub parse_time : Text → Option Text
  pub event_digest : Event → Text

-- `canonicalTime`
unfoldable pub canonical_time : Env → Text → Text
canonical_time env [] = []
canonical_time env value = elim (env.parse_time value) [ none ↦ value | some t ↦ t ]

-- `strings.Join(parts, "\n")`
unfoldable pub join_lines : List Text → Text
join_lines [] = []
join_lines (t ∷ []) = t
join_lines (t ∷ u ∷ parts) = t ++ (b'\n' ∷ join_lines (u ∷ parts))
