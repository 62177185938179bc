-- ===== src/Store/SearchText.antt =====
-- The text that the search index holds for an observation: `searchableText` of store.go,
-- `searchLabels` of titles.go, and the chunks that are inserted for it.
use traicr.Prelude.{
  ℕ, Option, none, some, List, [], ◌∷◌, ◌++◌, ◌==◌, if◌then◌else◌, Text, text_eq, ok, err, ◌>>=◌,
}
use traicr.Domain.{Event, Attachment, SourceRef, Descriptor}
use traicr.Search.{chunks}
use traicr.Store.Table.{find}
use traicr.Store.Db.{Db, Sql, panic, SearchChunk, ObservationRevision, join_lines}

attachment_parts : List Attachment → List Text
attachment_parts [] = []
attachment_parts (a ∷ rest) = a.name ∷ a.path ∷ a.media_type ∷ attachment_parts rest

source_paths : List SourceRef → List Text
source_paths [] = []
source_paths (s ∷ rest) = s.path ∷ source_paths rest

-- `searchableText`
unfoldable pub searchable_text : Event → Text
unfolding attachment_parts source_paths
searchable_text e = join_lines (
    e.text
    ∷ e.model
    ∷ e.provider
    ∷ e.tool
    ∷ e.kind
    ∷ e.role
    ∷ (attachment_parts e.attachments ++ source_paths e.sources))

present_titles : List Text → List Text
present_titles [] = []
present_titles (t ∷ rest) = if text_eq t [] then present_titles rest else t ∷ present_titles rest

-- `searchLabels`
unfoldable pub search_labels : Descriptor → List Text → Text
unfolding present_titles
search_labels d extra = join_lines (
    d.harness
    ∷ d.title
    ∷ d.working_directory
    ∷ d.repository.remote
    ∷ d.repository.root
    ∷ present_titles extra)

unfoldable pub or_panic : {A : Type 0} → Option A → Sql A
or_panic none = err panic
or_panic (some a) = ok a

-- `INSERT INTO search_chunks` for each chunk, the first one first
unfoldable pub add_chunks : ℕ → ℕ → ℕ → List Text → List SearchChunk → List SearchChunk
add_chunks observation revision event [] rows = rows
add_chunks observation revision event (c ∷ cs) rows = add_chunks observation revision event cs (
    (record { observation_id = observation; revision_id = revision; event_id = event; content = c })
    ∷ rows)

unfoldable pub index_text : ℕ → ℕ → ℕ → Text → List SearchChunk → Sql (List SearchChunk)
index_text observation revision event text rows = do
  cs ← or_panic (chunks text)
  ok (add_chunks observation revision event cs rows)

-- `SELECT … FROM observation_revisions x JOIN event_observations o …  WHERE x.revision_id=?`, and
-- the chunks of each text; an observation that is not there joins with no row.
unfoldable pub index_revision :
    Db → ℕ → List ObservationRevision → List SearchChunk → Sql (List SearchChunk)
index_revision db revision [] rows = ok rows
index_revision db revision (x ∷ rest) rows =
    if x.revision_id == revision
    then elim (find (λ o. o.id == x.observation_id) db.observations) [
      | none ↦ index_revision db revision rest rows
      | some o ↦ (do
        rows' ← index_text x.observation_id revision o.event_id x.searchable_text rows
        index_revision db revision rest rows')
    ]
    else index_revision db revision rest rows
