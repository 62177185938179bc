-- ===== src/Store/Revisions/Backfill/Kept.antt =====
-- What `backfillMissingTraceMetadata` promises: it never overwrites a value of a trace and never
-- touches a trace that is newer than the revision.
use traicr.Store.SearchText.{index_revision}
use traicr.Prelude.{
  ℕ, ◌≡◌, refl, sym, ap, ◌∙◌, inl, inr, Bool, true, ◌&&◌, Option, none, some, List, [], ◌∷◌, arith,
  ◌==◌, Bool-cases, Option-cases, Text, text_eq, ok, ok-injective, bind-eq-ok,
}
use mathlib.Core.Path.{subst}
use traicr.Domain.{Descriptor, Repository, is_empty_repository}
use traicr.Store.Table.{find_test, find, update_where, find-update_where}
use traicr.Store.Db.{join_lines, Db, TraceRow, Env, canonical_time}
use traicr.Store.Repositories.{upsert_repository}
use traicr.Store.Revisions.Backfill.{
  extend_text, is_null, Filling, lacks_title, lacks_directory, lacks_repository, backfill_title,
  backfill_directory, link_repository, backfill_missing, backfill_repository, reindex_metadata,
  finish_backfill, backfill,
}
use traicr.Store.Revisions.Backfill.Filled.{IsFilled, IsFilled-refl, IsFilled-trans, IsFilledDb}

module _ (time : Text) where
  db_refl : (db : Db) → IsFilledDb time db db
  unfolding IsFilledDb
  db_refl db x t h = (t, h, IsFilled-refl time t)

  db_trans : (a b c : Db) → IsFilledDb time a b → IsFilledDb time b c → IsFilledDb time a c
  unfolding IsFilledDb
  db_trans a b c f g x t h =
      let (u, h', p) = f x t h in let (v, h'', q) = g x u h' in (v, h'', IsFilled-trans time p q)

  same_rows : (a b : Db) → b.traces ≡ a.traces → IsFilledDb time a b
  unfolding IsFilledDb
  same_rows a b e x t h = (t, ap (find (λ r. r.id == x)) e ∙ h, IsFilled-refl time t)

  -- A change of the rows that pass a test.
  updated :
      (test : TraceRow → Bool) (change : TraceRow → TraceRow) (db : Db)
      → ((t : TraceRow) → (change t).id ≡ t.id)
      → ((x : ℕ) (t : TraceRow)
          → find (λ r. r.id == x) db.traces ≡ some t
          → test t ≡ true
          → IsFilled time t (change t))
      → IsFilledDb time db (record db { traces = update_where test change db.traces })
  unfolding IsFilledDb
  updated test change db same fills x t h =
      let after =
        find-update_where (λ r. r.id == x) test change db.traces (λ y. ap (λ i. i == x) (same y)) in
      elim (Bool-cases (test t)) [
        | inl e ↦ (change t, after ∙ rw h (rw e refl), fills x t h e)
        | inr e ↦ (t, after ∙ rw h (rw e refl), IsFilled-refl time t)
      ]

  fills_title :
      (trace : ℕ) (title : Text) (t : TraceRow)
      → lacks_title trace time t ≡ true
      → IsFilled time t (record t { title = title })
  fills_title trace title t h = record {
    title = inl (ground arith);
    directory = inr refl;
    repository = inr refl;
    newer = inl (ground arith);
    updated_at = refl;
    title_override = refl;
    generated_title = refl;
  }

  fills_directory :
      (trace : ℕ) (value : Text) (t : TraceRow)
      → lacks_directory trace time t ≡ true
      → IsFilled time t (record t { working_directory = value })
  fills_directory trace value t h = record {
    title = inr refl;
    directory = inl (ground arith);
    repository = inr refl;
    newer = inl (ground arith);
    updated_at = refl;
    title_override = refl;
    generated_title = refl;
  }

  title_filled :
      (trace : ℕ) (title : Text) (st : Filling)
      → IsFilledDb time st.db (backfill_title trace time title st).db
  unfolding backfill_title
  title_filled trace title st = elim (Bool-cases (text_eq title [])) [
    | inl e ↦ rw e (db_refl st.db)
    | inr e ↦ rw e (
        updated (lacks_title trace time) (λ t. record t { title = title }) st.db (λ t. refl)
          (λ x t h. fills_title trace title t))
  ]

  directory_filled :
      (trace : ℕ) (value : Text) (st : Filling)
      → IsFilledDb time st.db (backfill_directory trace time value st).db
  unfolding backfill_directory
  directory_filled trace value st = elim (Bool-cases (text_eq value [])) [
    | inl e ↦ rw e (db_refl st.db)
    | inr e ↦ rw e (
        updated (lacks_directory trace time) (λ t. record t { working_directory = value }) st.db
          (λ t. refl) (λ x t h. fills_directory trace value t))
  ]

  -- The repository: the first row with the key lacks it, which is every row with the key.
  find_id :
      (trace x : ℕ) (db : Db) (s t : TraceRow)
      → find (λ r. r.id == trace) db.traces ≡ some s
      → find (λ r. r.id == x) db.traces ≡ some t
      → (t.id == trace) ≡ true
      → s ≡ t
  find_id trace x db s t hs ht e =
      let own : (t.id == x) ≡ true = find_test (λ r. r.id == x) db.traces t ht in
      let same : trace ≡ x = ground arith in
      let both : some s ≡ some t =
        sym hs ∙ subst (λ y. find (λ r. r.id == y) db.traces ≡ some t) (sym same) ht in
      cc both

  upsert-traces :
      (machine : Text) (r : Repository) (db db' : Db) (id : Option ℕ)
      → upsert_repository machine r db ≡ ok (id, db')
      → db'.traces ≡ db.traces
  unfolding upsert_repository
  upsert-traces machine r db db' id h = ground arith

  null : (p : Option ℕ) → is_null p ≡ true → p ≡ none
  unfolding is_null
  null none h = refl
  null (some p) h = absurd (ground arith)

  fills_repository :
      (t : TraceRow) (p : Option ℕ)
      → lacks_repository time t ≡ true
      → IsFilled time t (record t { repository_id = p })
  unfolding lacks_repository is_null
  fills_repository t p h = record {
    title = inr refl;
    directory = inr refl;
    repository = inl (null t.repository_id (ground arith));
    newer = inl (ground arith);
    updated_at = refl;
    title_override = refl;
    generated_title = refl;
  }

  link_filled :
      (trace : ℕ) (p : Option ℕ) (db : Db) (s : TraceRow)
      → find (λ r. r.id == trace) db.traces ≡ some s
      → lacks_repository time s ≡ true
      → IsFilledDb time db (link_repository trace p db)
  unfolding link_repository
  link_filled trace p db s found lacks =
      updated (λ t. t.id == trace) (λ t. record t { repository_id = p }) db (λ t. refl)
        (λ x t h e.
          fills_repository t p
            (subst (λ y. lacks_repository time y ≡ true) (find_id trace x db s t found h e) lacks))

  missing_filled :
      (trace : ℕ) (machine : Text) (r : Repository) (st st' : Filling) (s : TraceRow)
      → find (λ r. r.id == trace) st.db.traces ≡ some s
      → lacks_repository time s ≡ true
      → backfill_missing trace machine r st ≡ ok st'
      → IsFilledDb time st.db st'.db
  unfolding backfill_missing
  missing_filled trace machine r st st' s found lacks h =
      let ((id, db), upserted, linked) = bind-eq-ok (upsert_repository machine r st.db) _ h in
      let rows : db.traces ≡ st.db.traces = upsert-traces machine r st.db db id upserted in
      let found' : find (λ r. r.id == trace) db.traces ≡ some s =
        ap (find (λ r. r.id == trace)) rows ∙ found in
      let before : IsFilledDb time st.db db = same_rows st.db db rows in
      let last : link_repository trace id db ≡ st'.db = ap (λ f. f.db) (ok-injective linked) in
      subst (IsFilledDb time st.db) last
        (db_trans st.db db _ before (link_filled trace id db s found' lacks))

  repository_filled :
      (trace : ℕ) (machine : Text) (r : Repository) (st st' : Filling)
      → backfill_repository trace time machine r st ≡ ok st'
      → IsFilledDb time st.db st'.db
  unfolding backfill_repository
  repository_filled trace machine r st st' h = elim (Bool-cases (is_empty_repository r)) [
    | inl e ↦
        let same : st ≡ st' = ground arith in
        subst (λ x. IsFilledDb time st.db x.db) same (db_refl st.db)
    | inr e ↦ elim (Option-cases (find (λ t. t.id == trace) st.db.traces)) [
      | inl missing ↦ absurd (ground arith)
      | inr (s, found) ↦ elim (Bool-cases (lacks_repository time s)) [
        | inl lacks ↦ missing_filled trace machine r st st' s found lacks (ground arith)
        | inr has ↦
            let same : st ≡ st' = ground arith in
            subst (λ x. IsFilledDb time st.db x.db) same (db_refl st.db)
      ]
    ]
  ]

  finish_filled :
      (revision : ℕ) (before after : Db) (metadata : List Text) (changed : Bool) (db : Db)
      → IsFilledDb time before after
      → finish_backfill revision before after metadata ≡ ok (changed, db)
      → IsFilledDb time before db
  unfolding finish_backfill reindex_metadata
  finish_filled revision before after [] changed db f h =
      let same : before ≡ db = ap (λ x. x.1) (ok-injective h) in
      subst (IsFilledDb time before) same (db_refl before)
  finish_filled revision before after (t ∷ metadata) changed db f h =
      let (db1, indexed, last) = bind-eq-ok (reindex_metadata revision (t ∷ metadata) after) _ h in
      let (cs, made, last') =
        bind-eq-ok
          (index_revision after revision
            (extend_text revision (join_lines (t ∷ metadata)) after.observation_revisions) _)
          _ indexed in
      let rows : db1.traces ≡ after.traces = ap (λ x. x.traces) (sym (ok-injective last')) in
      let same : db1 ≡ db = ap (λ x. x.1) (ok-injective last) in
      subst (IsFilledDb time before) same (db_trans before after db1 f (same_rows after db1 rows))

-- Whatever the revision brings, each trace keeps its row, the row keeps every title, directory
-- and repository that it had, its time, its manual and its generated title, and a row that is
-- newer than the revision keeps everything.
pub backfill-IsFilled :
    (env : Env) (trace revision : ℕ) (machine : Text) (d : Descriptor) (db db' : Db)
    (changed : Bool) (x : ℕ) (t : TraceRow)
    → backfill env trace revision machine d db ≡ ok (changed, db')
    → find (λ r. r.id == x) db.traces ≡ some t
    → (t' : TraceRow) × (find (λ r. r.id == x) db'.traces ≡ some t')
      × IsFilled (canonical_time env d.native_updated_at) t t'
unfolding backfill IsFilledDb
backfill-IsFilled env trace revision machine d db db' changed x t h found =
    let time = canonical_time env d.native_updated_at in
    let st0 : Filling = record { db = db; metadata = [] } in
    let st1 = backfill_title trace time d.title st0 in
    let st2 = backfill_directory trace time d.working_directory st1 in
    elim (Bool-cases (
      text_eq d.title [] && (text_eq d.working_directory [] && is_empty_repository d.repository))) [
        | inl e ↦
            let same : db ≡ db' = ap (λ x. x.1) (ok-injective (rw e at h)) in
            (
              t,
              subst (λ y. find (λ r. r.id == x) y.traces ≡ some t) same found,
              IsFilled-refl time t,
            )
        | inr e ↦
            let (st3, filled, finished) =
              bind-eq-ok (backfill_repository trace time machine d.repository st2) _ (rw e at h) in
            let f2 =
              db_trans time db st1.db st2.db (title_filled time trace d.title st0)
                (directory_filled time trace d.working_directory st1) in
            let f3 =
              db_trans time db st2.db st3.db f2
                (repository_filled time trace machine d.repository st2 st3 filled) in
            finish_filled time revision db st3.db st3.metadata changed db' f3 finished x t found
      ]
