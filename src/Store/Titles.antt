-- ===== src/Store/Titles.antt =====
-- `setTitleOverride`, `SetGeneratedTitle` and `reindexTraceSearch` of internal/store/titles.go, with a
-- title that `validateTitle` has passed. The queries that name an order by key read the rows from the
-- oldest one on; where a query names no order, the newest row comes first.
pub mod Labelled
use mathlib.Core.Option
use traicr.Prelude.{
  ℕ, zero, suc, ◌+◌, ◌-◌, ◌*◌, ◌/◌, ◌%◌, ◌^◌, ◌≤◌, ◌<◌, min, max, ◌≡◌, refl, sym, ap, ◌∙◌, ◌≢◌, ◌↔◌,
  ◌⊎◌, inl, inr, Bool, true, false, not, ◌&&◌, ◌||◌, Option, none, some, List, [], ◌∷◌, ◌++◌, map,
  arith, ltb, leb, ◌==◌, if◌then◌else◌, ltb→lt, leb→le, ==_iff, Bool-cases, Option-cases, length,
  get_elem?, take, drop, slice, length-append, length-take, length-drop, take-append-drop,
  take_whole, length-ne-nil, Member, here, there, Member-append_left, Member-append_right, All,
  All-append, Text, codes, text_eq, text_eq_iff, text_eq_refl, text_eq-ne, text_leb, text_leb_refl,
  text_leb_trans, text_leb_total, text_leb_antisym, has_prefix, contains_byte, count_byte, Result,
  ok, err, ok-injective, Result-cases, bind-eq-ok, refuse_if, refuse_if-eq-ok, ◌>>=◌, ◌>>◌,
}
use mathlib.Core.Option
use traicr.Domain.{Descriptor, Repository, SourceRef, Event}
use traicr.Store.Table.{find, exists, update_where, delete_where}
use traicr.Store.Db.{
  Db, TraceRow, RepositoryRow, RevisionRow, ObservationRow, ObservationRevision, ObservationSource,
  Sql, or_no_rows, no_rows,
}
use traicr.Store.SearchText.{searchable_text, search_labels, index_revision}

-- `LEFT JOIN repositories … COALESCE(repo.remote,''),COALESCE(repo.root,'')`
unfoldable pub repository_of : Db → Option ℕ → Repository
repository_of db none = record { remote = []; root = [] }
repository_of db (some id) = elim (find (λ r. r.id == id) db.repositories) [
  | none ↦ record { remote = []; root = [] }
  | some r ↦ record { remote = r.remote; root = r.root }
]

-- The descriptor that `currentSearchLabels` fills in.
unfoldable pub label_descriptor : Db → TraceRow → Descriptor
label_descriptor db t = record {
  path = [];
  harness = t.harness;
  adapter = [];
  native_trace_id = [];
  native_updated_at = [];
  revision_digest = [];
  parent_native_trace_id = [];
  title = t.title;
  working_directory = t.working_directory;
  repository = repository_of db t.repository_id;
  files = [];
  warnings = [];
}

-- `currentSearchLabels`
unfoldable pub current_labels : Db → ℕ → Sql Text
current_labels db trace = do
  t ← or_no_rows (find (λ t. t.id == trace) db.traces)
  ok (search_labels (label_descriptor db t) (t.title_override ∷ t.generated_title ∷ []))

-- `sources[observationID]`, in the order of the ordinals
unfoldable pub sources_of : ℕ → ℕ → List ObservationSource → List SourceRef
sources_of observation revision [] = []
sources_of observation revision (s ∷ rows) =
    let rest = sources_of observation revision rows in
    if s.observation_id == observation && s.revision_id == revision
    then rest ++ ((record { path = s.path; line = s.line }) ∷ [])
    else rest

-- `searchableText(event) + "\n" + labels`, for a stored observation
unfoldable pub labelled_text : Db → ℕ → Text → ObservationRow → Text
labelled_text db revision labels o =
    searchable_text (record o.event { sources = sources_of o.id revision db.observation_sources })
    ++ (b'\n' ∷ labels)

unfoldable pub relabel : Db → ℕ → Text → ObservationRevision → ObservationRevision
relabel db revision labels x =
    if x.revision_id == revision
    then elim (find (λ o. o.id == x.observation_id) db.observations) [
      | none ↦ x
      | some o ↦ record x { searchable_text = labelled_text db revision labels o }
    ]
    else x

unfoldable pub relabel_all : Db → ℕ → Text → List ObservationRevision → List ObservationRevision
relabel_all db revision labels [] = []
relabel_all db revision labels (x ∷ rows) =
    relabel db revision labels x ∷ relabel_all db revision labels rows

-- `reindexRevisionSearch`
unfoldable pub reindex_revision : ℕ → Text → Db → Sql Db
reindex_revision revision labels db = do
  let links = relabel_all db revision labels db.observation_revisions
  cs ←
      index_revision db revision links
        (delete_where (λ c. c.revision_id == revision) db.search_chunks)
  ok (record db { observation_revisions = links; search_chunks = cs })

-- The loop over the revisions of the trace.
unfoldable pub reindex_revisions : ℕ → Text → List RevisionRow → Db → Sql Db
reindex_revisions trace labels [] db = ok db
reindex_revisions trace labels (r ∷ rows) db = do
  db' ← reindex_revisions trace labels rows db
  let done = reindex_revision r.id labels db'
  if r.trace_id == trace then done else ok db'

-- `reindexTraceSearch`
unfoldable pub reindex_trace : ℕ → Db → Sql Db
reindex_trace trace db = do
  labels ← current_labels db trace
  reindex_revisions trace labels db.revisions db

abbrev pub with_override : ℕ → Text → Db → Db
with_override trace title db = record db {
  traces = update_where (λ t. t.id == trace) (λ t. record t { title_override = title }) db.traces;
}

-- `setTitleOverride`
unfoldable pub set_title_override : ℕ → Text → Db → Sql Db
set_title_override trace title db = do
  refuse_if (not (exists (λ t. t.id == trace) db.traces)) no_rows
  reindex_trace trace (with_override trace title db)

-- `id=? AND generated_title_revision_id<?`
abbrev pub is_untitled : ℕ → ℕ → TraceRow → Bool
is_untitled trace revision t = t.id == trace && ltb t.generated_title_revision_id revision

abbrev pub with_generated : ℕ → ℕ → Text → Db → Db
with_generated trace revision title db = record db {
  traces =
      update_where (is_untitled trace revision)
        (λ t. record t { generated_title = title; generated_title_revision_id = revision })
        db.traces;
}

-- `SetGeneratedTitle`
unfoldable pub set_generated_title : ℕ → ℕ → Text → Db → Sql Db
set_generated_title trace revision title db = do
  t ← or_no_rows (find (λ t. t.id == trace) db.traces)
  let changed = with_generated trace revision title db
  let reindexed = reindex_trace trace changed
  let stored = if text_eq title t.generated_title then ok changed else reindexed
  if exists (is_untitled trace revision) db.traces then stored else ok db
