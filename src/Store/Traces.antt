-- ===== src/Store/Traces.antt =====
-- The trace rows: what `commitRevision` of store.go writes to them, and `displayTitle` of titles.go.
pub mod Order
use traicr.Prelude.{
  ℕ, zero, suc, ◌+◌, ◌-◌, ◌*◌, ◌/◌, ◌%◌, ◌^◌, ◌≤◌, ◌<◌, min, max, ◌≡◌, refl, sym, ap, ◌∙◌, ◌≢◌, ◌↔◌,
  ◌⊎◌, inl, inr, Bool, true, false, not, ◌&&◌, ◌||◌, Option, none, some, List, [], ◌∷◌, ◌++◌, map,
  arith, ltb, leb, ◌==◌, if◌then◌else◌, ltb→lt, leb→le, ==_iff, Bool-cases, Option-cases, length,
  get_elem?, take, drop, slice, length-append, length-take, length-drop, take-append-drop,
  take_whole, length-ne-nil, Member, here, there, Member-append_left, Member-append_right, All,
  All-append, Text, codes, text_eq, text_eq_iff, text_eq_refl, text_eq-ne, text_leb, text_leb_refl,
  text_leb_trans, text_leb_total, text_leb_antisym, has_prefix, contains_byte, count_byte, Result,
  ok, err, ok-injective, Result-cases, bind-eq-ok, refuse_if, refuse_if-eq-ok, ◌>>=◌, ◌>>◌,
}
use traicr.Domain.{Descriptor}
use traicr.Store.Table.{
  find, exists, max_of, update_where, Unique, nil, cons, Keeps, exists-find, update_where-Unique,
  find-update_where,
}
use traicr.Store.Db.{constraint, Db, TraceRow, Env, Sql, or_no_rows, canonical_time}

-- `COALESCE(NULLIF(t.title_override,''),NULLIF(t.title,''),t.generated_title)`
unfoldable pub display_title : TraceRow → Text
display_title t =
    if not (text_eq t.title_override [])
    then t.title_override
    else if not (text_eq t.title [])
    then t.title
    else t.generated_title

abbrev pub is_trace : Text → Text → TraceRow → Bool
is_trace harness native t = text_eq t.harness harness && text_eq t.native_trace_id native

abbrev pub trace_of : Descriptor → TraceRow → Bool
trace_of d = is_trace d.harness d.native_trace_id

-- `metadataTime`
unfoldable pub metadata_time : Env → Descriptor → Text
metadata_time env d =
    let t = canonical_time env d.native_updated_at in if text_eq t [] then env.now else t

abbrev pub new_trace : Env → Text → Descriptor → Option ℕ → List TraceRow → TraceRow
new_trace env time d repository rows = record {
  id = max_of (λ t. t.id) rows + 1;
  harness = d.harness;
  native_trace_id = d.native_trace_id;
  title = d.title;
  working_directory = d.working_directory;
  repository_id = repository;
  parent_native_trace_id = d.parent_native_trace_id;
  created_at = env.now;
  updated_at = time;
  title_override = [];
  generated_title = [];
  generated_title_revision_id = 0;
}

-- `INSERT OR IGNORE INTO traces`
unfoldable pub ensure_trace : Env → Text → Descriptor → Option ℕ → List TraceRow → List TraceRow
ensure_trace env time d repository rows = elim (find (trace_of d) rows) [
  | none ↦ new_trace env time d repository rows ∷ rows
  | some _ ↦ rows
]

-- `UPDATE traces SET title=CASE WHEN ? >= updated_at …, updated_at=MAX(updated_at,?)`
unfoldable pub refresh : Text → Descriptor → Option ℕ → TraceRow → TraceRow
refresh time d repository t =
    let newer = text_leb t.updated_at time in
    record t {
      title = if newer then d.title else t.title;
      working_directory = if newer then d.working_directory else t.working_directory;
      repository_id = if newer then repository else t.repository_id;
      parent_native_trace_id = if newer then d.parent_native_trace_id else t.parent_native_trace_id;
      updated_at = if newer then time else t.updated_at;
    }

-- `REFERENCES repositories(id)`
abbrev pub has_repository : Db → Option ℕ → Bool
has_repository db none = true
has_repository db (some id) = exists (λ r. r.id == id) db.repositories

abbrev pub is_missing : Option TraceRow → Bool
is_missing none = true
is_missing (some _) = false

-- The statements on `traces` at the head of `commitRevision`: the key of the trace, and whether
-- it is new. The row that they leave refers to a repository that is there.
unfoldable pub upsert_trace : Env → Descriptor → Option ℕ → Db → Sql (ℕ × Bool × Db)
upsert_trace env d repository db = do
  let time = metadata_time env d
  let rows = ensure_trace env time d repository db.traces
  t ← or_no_rows (find (trace_of d) rows)
  refuse_if (not (has_repository db (refresh time d repository t).repository_id)) constraint
  ok (
    t.id,
    is_missing (find (trace_of d) db.traces),
    record db { traces = update_where (λ x. x.id == t.id) (refresh time d repository) rows },
  )

-- `UNIQUE(harness, native_trace_id)` and the primary key
abbrev pub same_trace : TraceRow → TraceRow → Bool
same_trace x y = is_trace x.harness x.native_trace_id y

abbrev pub same_id : TraceRow → TraceRow → Bool
same_id x y = x.id == y.id
