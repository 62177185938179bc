-- ===== src/Store/Traces/Order.antt =====
-- What the statements on `traces` at the head of `commitRevision` leave in the row of a trace.
use mathlib.Core.Path.{subst}
use traicr.Prelude.{
  sym, ◌∷◌, err, ap, ◌⊎◌, text_leb_refl, All, ℕ, ◌≡◌, refl, ◌∙◌, inl, inr, Bool, true, false,
  Option, none, some, List, [], arith, ◌==◌, Bool-cases, Option-cases, Text, text_eq, text_eq_refl,
  text_leb, ok,
}
use traicr.Domain.{Descriptor}
use traicr.Store.Table.{
  find, update_where, Unique, cons, Keeps, exists-find, next_key, update_where-Unique,
  find-update_where,
}
use traicr.Store.Db.{constraint, Db, TraceRow, Env}
use traicr.Store.Traces.{
  has_repository, trace_of, display_title, metadata_time, new_trace, ensure_trace, refresh,
  upsert_trace, is_missing, same_trace, same_id,
}

-- A title that was set by hand is shown as it was after any revision refreshes the row.
refresh-display_title :
    (t : Text) (d : Descriptor) (p : Option ℕ) (row : TraceRow)
    → text_eq row.title_override [] ≡ false
    → display_title (refresh t d p row) ≡ display_title row
unfolding refresh display_title
refresh-display_title t d p row h = ground arith

abbrev row_or : TraceRow → Option TraceRow → TraceRow
row_or fresh none = fresh
row_or fresh (some t) = t

-- The row of a trace before its metadata is refreshed.
abbrev pub row_before : Env → Descriptor → Option ℕ → Db → TraceRow
row_before env d p db =
    row_or (new_trace env (metadata_time env d) d p db.traces) (find (trace_of d) db.traces)

ensure_trace-find :
    (env : Env) (d : Descriptor) (p : Option ℕ) (db : Db)
    → find (trace_of d) (ensure_trace env (metadata_time env d) d p db.traces)
      ≡ some (row_before env d p db)
unfolding ensure_trace find
ensure_trace-find env d p db = elim (Option-cases (find (trace_of d) db.traces)) [
  | inl e ↦ rw (e, ensure_trace) (rw (text_eq_refl d.harness) (rw (text_eq_refl d.native_trace_id)))
  | inr (t, e) ↦ rw (e, ensure_trace) e
]

ensure_trace-Unique :
    (env : Env) (time : Text) (d : Descriptor) (p : Option ℕ) (rows : List TraceRow)
    → Unique same_trace rows × Unique same_id rows
    → Unique same_trace (ensure_trace env time d p rows)
      × Unique same_id (ensure_trace env time d p rows)
unfolding ensure_trace
ensure_trace-Unique env time d p rows (u, v) = elim (Option-cases (find (trace_of d) rows)) [
  | inl e ↦
      rw (e, ensure_trace)
        (cons (exists-find (trace_of d) rows e) u, cons (next_key (λ t. t.id) rows) v)
  | inr (t, e) ↦ rw (e, ensure_trace) (u, v)
]

refresh-trace_of :
    (h : Descriptor) (time : Text) (d : Descriptor) (p : Option ℕ) (t : TraceRow)
    → trace_of h (refresh time d p t) ≡ trace_of h t
unfolding refresh
refresh-trace_of h time d p t = refl

abbrev refreshed : Env → Descriptor → Option ℕ → Db → List TraceRow
refreshed env d p db =
    update_where (λ x. x.id == (row_before env d p db).id) (refresh (metadata_time env d) d p)
      (ensure_trace env (metadata_time env d) d p db.traces)

abbrev refreshed_row : Env → Descriptor → Option ℕ → Db → TraceRow
refreshed_row env d p db = refresh (metadata_time env d) d p (row_before env d p db)

upsert_trace-eq :
    (env : Env) (d : Descriptor) (p : Option ℕ) (db : Db)
    → has_repository db (refreshed_row env d p db).repository_id ≡ true
    → upsert_trace env d p db
      ≡ ok (
        (row_before env d p db).id,
        is_missing (find (trace_of d) db.traces),
        record db { traces = refreshed env d p db },
      )
unfolding upsert_trace
upsert_trace-eq env d p db h = rw (ensure_trace-find env d p db) (rw h refl)

upsert_trace-dangling :
    (env : Env) (d : Descriptor) (p : Option ℕ) (db : Db)
    → has_repository db (refreshed_row env d p db).repository_id ≡ false
    → upsert_trace env d p db ≡ err constraint
unfolding upsert_trace
upsert_trace-dangling env d p db h = rw (ensure_trace-find env d p db) (rw h refl)

refreshed-find :
    (env : Env) (d : Descriptor) (p : Option ℕ) (db : Db)
    → find (trace_of d) (refreshed env d p db)
      ≡ some (refresh (metadata_time env d) d p (row_before env d p db))
refreshed-find env d p db =
    let time = metadata_time env d in
    let r = row_before env d p db in
    let same : (r.id == r.id) ≡ true = ground arith in
    find-update_where (trace_of d) (λ x. x.id == r.id) (refresh time d p)
      (ensure_trace env time d p db.traces) (refresh-trace_of d time d p)
    ∙ rw (ensure_trace-find env d p db) (rw same)

-- The row of a trace after a revision of this time: all of the revision's metadata if the row was not newer, and none of it otherwise; what imports
-- do not write stays in any case.
pub record IsRefreshed (time : Text) (d : Descriptor) (p : Option ℕ) (before after : TraceRow)
    : Type 0 where
  pub id : after.id ≡ before.id
  pub harness : after.harness ≡ before.harness
  pub native_trace_id : after.native_trace_id ≡ before.native_trace_id
  pub created_at : after.created_at ≡ before.created_at
  pub title_override : after.title_override ≡ before.title_override
  pub generated_title : after.generated_title ≡ before.generated_title
  pub metadata :
      ((text_leb before.updated_at time ≡ true)
        × (after.title ≡ d.title)
        × (after.working_directory ≡ d.working_directory)
        × (after.repository_id ≡ p)
        × (after.parent_native_trace_id ≡ d.parent_native_trace_id)
        × (after.updated_at ≡ time))
      ⊎ ((text_leb before.updated_at time ≡ false) × (after ≡ before))

-- The row of a trace that was not there.
pub record IsNew (env : Env) (time : Text) (d : Descriptor) (p : Option ℕ) (row : TraceRow)
    : Type 0 where
  pub harness : row.harness ≡ d.harness
  pub native_trace_id : row.native_trace_id ≡ d.native_trace_id
  pub title : row.title ≡ d.title
  pub working_directory : row.working_directory ≡ d.working_directory
  pub repository_id : row.repository_id ≡ p
  pub parent_native_trace_id : row.parent_native_trace_id ≡ d.parent_native_trace_id
  pub created_at : row.created_at ≡ env.now
  pub updated_at : row.updated_at ≡ time
  pub title_override : row.title_override ≡ []
  pub generated_title : row.generated_title ≡ []

refresh-IsRefreshed :
    (time : Text) (d : Descriptor) (p : Option ℕ) (t : TraceRow)
    → IsRefreshed time d p t (refresh time d p t)
unfolding refresh
refresh-IsRefreshed time d p t = record {
  id = refl;
  harness = refl;
  native_trace_id = refl;
  created_at = refl;
  title_override = refl;
  generated_title = refl;
  metadata = elim (Bool-cases (text_leb t.updated_at time)) [
    | inl newer ↦
        inl (newer, rw newer refl, rw newer refl, rw newer refl, rw newer refl, rw newer refl)
    | inr older ↦ inr (older, rw older refl)
  ];
}

refresh-IsNew :
    (env : Env) (time : Text) (d : Descriptor) (p : Option ℕ) (rows : List TraceRow)
    → IsNew env time d p (refresh time d p (new_trace env time d p rows))
unfolding refresh
refresh-IsNew env time d p rows =
    let same = text_leb_refl time in
    record {
      harness = refl;
      native_trace_id = refl;
      title = rw same refl;
      working_directory = rw same refl;
      repository_id = rw same refl;
      parent_native_trace_id = rw same refl;
      created_at = refl;
      updated_at = rw same refl;
      title_override = refl;
      generated_title = refl;
    }

find-All :
    (P : TraceRow → Type 0) (test : TraceRow → Bool) (rows : List TraceRow) (t : TraceRow)
    → All P rows
    → find test rows ≡ some t
    → P t
unfolding find
find-All P test [] t a h = cc
find-All P test (x ∷ rows) t (p, a) h = elim (Bool-cases (test x)) [
  | inl found ↦ let same : x ≡ t = ground arith in subst P same p
  | inr other ↦ find-All P test rows t a (ground arith)
]

-- A revision's metadata reaches its trace. Where the repository is there and so are those of all traces, the upsert succeeds. A trace that was not there
-- has a row with the revision's metadata and without titles of other sources; the row of one that was there is refreshed by the revision if it was not newer, and
-- stays as it was otherwise, and the upsert reports its key and that it is not new.
pub upsert_trace-row :
    (env : Env) (d : Descriptor) (p : Option ℕ) (db : Db)
    → has_repository db p ≡ true
    → All (λ t. has_repository db t.repository_id ≡ true) db.traces
    → (id : ℕ) × (is_new : Bool) × (db' : Db) × (upsert_trace env d p db ≡ ok (id, is_new, db'))
      × (row : TraceRow) × (find (trace_of d) db'.traces ≡ some row)
      × (id ≡ row.id)
      × (((find (trace_of d) db.traces ≡ none)
            × (is_new ≡ true)
            × IsNew env (metadata_time env d) d p row)
          ⊎ ((t : TraceRow) × (find (trace_of d) db.traces ≡ some t)
              × (is_new ≡ false)
              × IsRefreshed (metadata_time env d) d p t row))
upsert_trace-row env d p db has all =
    let time = metadata_time env d in
    let made = refreshed_row env d p db in
    let fine : has_repository db made.repository_id ≡ true =
      elim (Option-cases (find (trace_of d) db.traces)) [
        | inl missing ↦
            let n = refresh-IsNew env time d p db.traces in
            let before : row_before env d p db ≡ new_trace env time d p db.traces =
              ap (row_or (new_trace env time d p db.traces)) missing in
            ap (λ r. has_repository db (refresh time d p r).repository_id) before
            ∙ ap (has_repository db) n.repository_id
            ∙ has
        | inr (t, found) ↦
            let r = refresh-IsRefreshed time d p t in
            let before : row_before env d p db ≡ t =
              ap (row_or (new_trace env time d p db.traces)) found in
            ap (λ x. has_repository db (refresh time d p x).repository_id) before
            ∙ elim r.metadata [
              | inl (_, _, _, repository, _, _) ↦ ap (has_repository db) repository ∙ has
              | inr (_, same) ↦
                  ap (λ x. has_repository db x.repository_id) same
                  ∙ find-All (λ x. has_repository db x.repository_id ≡ true) (trace_of d) db.traces
                      t all found
            ]
      ] in
    (
      (row_before env d p db).id,
      is_missing (find (trace_of d) db.traces),
      record db { traces = refreshed env d p db },
      upsert_trace-eq env d p db fine,
      made,
      refreshed-find env d p db,
      sym (refresh-IsRefreshed time d p (row_before env d p db)).id,
      elim (Option-cases (find (trace_of d) db.traces)) [
        | inl missing ↦ inl (
          missing,
          rw missing refl,
          subst (λ r. IsNew env time d p (refresh time d p r))
              (sym (ap (row_or (new_trace env time d p db.traces)) missing))
              (refresh-IsNew env time d p db.traces),
        )
        | inr (t, found) ↦ inr (
          t,
          found,
          rw found refl,
          subst (λ r. IsRefreshed time d p t (refresh time d p r))
              (sym (ap (row_or (new_trace env time d p db.traces)) found))
              (refresh-IsRefreshed time d p t),
        )
      ],
    )

refresh-Keeps_trace :
    (time : Text) (d : Descriptor) (p : Option ℕ) → Keeps same_trace (refresh time d p)
unfolding refresh
refresh-Keeps_trace time d p = record { left = λ x y. refl; right = λ x y. refl }

refresh-Keeps_id : (time : Text) (d : Descriptor) (p : Option ℕ) → Keeps same_id (refresh time d p)
unfolding refresh
refresh-Keeps_id time d p = record { left = λ x y. refl; right = λ x y. refl }

-- No two rows for one trace of one harness, and no two rows with one key.
pub record HasUniqueTraces (db : Db) : Type 0 where
  pub by_name : Unique same_trace db.traces
  pub by_id : Unique same_id db.traces

-- The upsert of a revision's trace leaves no two rows for one trace of a harness and no two rows with
-- one key, if there were none before.
pub upsert_trace-HasUniqueTraces :
    (env : Env) (d : Descriptor) (p : Option ℕ) (db : Db) {id : ℕ} {is_new : Bool} {db' : Db}
    → HasUniqueTraces db
    → upsert_trace env d p db ≡ ok (id, is_new, db')
    → HasUniqueTraces db'
upsert_trace-HasUniqueTraces env d p db {db' = db'} u e =
    let time = metadata_time env d in
    let (a, b) = ensure_trace-Unique env time d p db.traces (u.by_name, u.by_id) in
    let same : record db { traces = refreshed env d p db } ≡ db' =
      elim (Bool-cases (has_repository db (refreshed_row env d p db).repository_id)) [
        | inl fine ↦ cc (upsert_trace-eq env d p db fine, e)
        | inr dangling ↦ absurd (cc (upsert_trace-dangling env d p db dangling, e))
      ] in
    subst HasUniqueTraces same (record {
      by_name =
          update_where-Unique same_trace (λ x. x.id == (row_before env d p db).id)
            (refresh time d p) _ (refresh-Keeps_trace time d p) a;
      by_id =
          update_where-Unique same_id (λ x. x.id == (row_before env d p db).id) (refresh time d p) _
            (refresh-Keeps_id time d p) b;
    })
