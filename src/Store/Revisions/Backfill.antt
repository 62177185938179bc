-- ===== src/Store/Revisions/Backfill.antt =====
-- `backfillMissingTraceMetadata` of internal/store/store.go: a revision that is imported again
-- fills in what its trace still lacks.
pub mod Filled
pub mod Done
pub mod Kept
pub mod Missing
pub mod Again
use traicr.Prelude.{
  ℕ, zero, suc, ◌+◌, ◌-◌, ◌*◌, ◌/◌, ◌%◌, ◌^◌, ◌≤◌, ◌<◌, min, max, ◌≡◌, refl, sym, ap, ◌∙◌, ◌≢◌, ◌↔◌,
  ◌⊎◌, inl, inr, Bool, true, false, not, ◌&&◌, ◌||◌, Option, none, some, List, [], ◌∷◌, ◌++◌, map,
  arith, ltb, leb, ◌==◌, if◌then◌else◌, ltb→lt, leb→le, ==_iff, Bool-cases, Option-cases, length,
  get_elem?, take, drop, slice, length-append, length-take, length-drop, take-append-drop,
  take_whole, length-ne-nil, Member, here, there, Member-append_left, Member-append_right, All,
  All-append, Text, codes, text_eq, text_eq_iff, text_eq_refl, text_eq-ne, text_leb, text_leb_refl,
  text_leb_trans, text_leb_total, text_leb_antisym, has_prefix, contains_byte, count_byte, Result,
  ok, err, ok-injective, Result-cases, bind-eq-ok, refuse_if, refuse_if-eq-ok, ◌>>=◌, ◌>>◌,
}
use traicr.Domain.{Descriptor, Repository, is_empty_repository}
use traicr.Store.Table.{find, exists, update_where, delete_where, find-update_where}
use traicr.Store.Db.{
  Db, TraceRow, ObservationRevision, Env, Sql, or_no_rows, canonical_time, join_lines,
}
use traicr.Store.Repositories.{upsert_repository}
use traicr.Store.SearchText.{index_revision}

-- The state of the transaction, with `searchableMetadata`.
pub record Filling : Type 0 where
  pub db : Db
  pub metadata : List Text

-- `id=? AND title='' AND updated_at<=?`
abbrev pub lacks_title : ℕ → Text → TraceRow → Bool
lacks_title trace time t = t.id == trace && (text_eq t.title [] && text_leb t.updated_at time)

abbrev pub lacks_directory : ℕ → Text → TraceRow → Bool
lacks_directory trace time t =
    t.id == trace && (text_eq t.working_directory [] && text_leb t.updated_at time)

unfoldable pub is_null : Option ℕ → Bool
is_null none = true
is_null (some _) = false

-- `repository_id IS NULL AND updated_at<=?`
unfoldable pub lacks_repository : Text → TraceRow → Bool
unfolding is_null
lacks_repository time t = is_null t.repository_id && text_leb t.updated_at time

-- `UPDATE traces SET title=?`, and what of it becomes searchable
unfoldable pub backfill_title : ℕ → Text → Text → Filling → Filling
backfill_title trace time title st = if text_eq title [] then st else record {
  db = record st.db {
    traces = update_where (lacks_title trace time) (λ t. record t { title = title }) st.db.traces;
  };
  metadata =
      if exists (lacks_title trace time) st.db.traces
      then st.metadata ++ (title ∷ [])
      else st.metadata;
}

-- `UPDATE traces SET working_directory=?`, and what of it becomes searchable
unfoldable pub backfill_directory : ℕ → Text → Text → Filling → Filling
backfill_directory trace time directory st = if text_eq directory [] then st else record {
  db = record st.db {
    traces =
        update_where (lacks_directory trace time) (λ t. record t { working_directory = directory })
          st.db.traces;
  };
  metadata =
      if exists (lacks_directory trace time) st.db.traces
      then st.metadata ++ (directory ∷ [])
      else st.metadata;
}

-- `UPDATE traces SET repository_id=? WHERE id=?`
unfoldable pub link_repository : ℕ → Option ℕ → Db → Db
link_repository trace repository db = record db {
  traces =
      update_where (λ t. t.id == trace) (λ t. record t { repository_id = repository }) db.traces;
}

unfoldable pub backfill_missing : ℕ → Text → Repository → Filling → Sql Filling
backfill_missing trace machine repository st = do
  (id, db) ← upsert_repository machine repository st.db
  ok (record {
    db = link_repository trace id db;
    metadata = st.metadata ++ (repository.remote ∷ repository.root ∷ []);
  })

-- The block on the repository.
unfoldable pub backfill_repository : ℕ → Text → Text → Repository → Filling → Sql Filling
backfill_repository trace time machine repository st =
    if is_empty_repository repository then ok st else (do
      t ← or_no_rows (find (λ t. t.id == trace) st.db.traces)
      let filled = backfill_missing trace machine repository st
      if lacks_repository time t then filled else ok st)

-- `searchable_text || char(10) || ?`
unfoldable pub extend_text : ℕ → Text → List ObservationRevision → List ObservationRevision
extend_text revision text rows =
    update_where (λ x. x.revision_id == revision)
      (λ x. record x { searchable_text = x.searchable_text ++ (b'\n' ∷ text) }) rows

-- The new text of the revision's observations, and the chunks that are made again from it.
unfoldable pub reindex_metadata : ℕ → List Text → Db → Sql Db
reindex_metadata revision metadata db = do
  let links = extend_text revision (join_lines metadata) db.observation_revisions
  let rest = delete_where (λ c. c.revision_id == revision) db.search_chunks
  cs ← index_revision db revision links rest
  ok (record db { observation_revisions = links; search_chunks = cs })

-- The end of the transaction: without a change it is rolled back.
unfoldable pub finish_backfill : ℕ → Db → Db → List Text → Sql (Bool × Db)
finish_backfill revision before db [] = ok (false, before)
finish_backfill revision before db (t ∷ metadata) = do
  db' ← reindex_metadata revision (t ∷ metadata) db
  ok (true, db')

-- `backfillMissingTraceMetadata`
unfoldable pub backfill : Env → ℕ → ℕ → Text → Descriptor → Db → Sql (Bool × Db)
backfill env trace revision machine d db =
    let time = canonical_time env d.native_updated_at in
    let st =
      backfill_directory trace time d.working_directory
        (backfill_title trace time d.title (record { db = db; metadata = [] })) in
    if text_eq d.title [] && (text_eq d.working_directory [] && is_empty_repository d.repository)
    then ok (false, db)
    else (do
      st' ← backfill_repository trace time machine d.repository st
      finish_backfill revision db st'.db st'.metadata)
