-- ===== src/Store/Import/Names.antt =====
-- The names of traces, the revisions and their machines, which filling in metadata does not touch.
use mathlib.Core.Option
use traicr.Prelude.{
  ℕ, ◌≡◌, refl, ap, ◌∙◌, ◌≢◌, inl, inr, Bool, true, false, ◌&&◌, Option, none, some, List, [], ◌∷◌,
  arith, ◌==◌, if◌then◌else◌, Bool-cases, Option-cases, Text, text_eq, ok, ok-injective, bind-eq-ok,
}
use mathlib.Core.Path.{subst}
use traicr.Domain.{Descriptor, Repository, is_empty_repository}
use traicr.Store.Table.{find, update_where, find-update_where}
use traicr.Store.Db.{Db, TraceRow, Env, or_no_rows, canonical_time, join_lines}
use traicr.Store.SearchText.{index_revision}
use traicr.Store.Traces.{is_trace}
use traicr.Store.Repositories.{
  upsert_repository, ensure_repository, repository_identity, has_identity,
}
use traicr.Store.Revisions.Backfill.{
  Filling, extend_text, lacks_title, lacks_directory, lacks_repository, backfill_title,
  backfill_directory, link_repository, backfill_missing, backfill_repository, reindex_metadata,
  finish_backfill, backfill,
}
use traicr.Store.Import.{trace_key}

-- The traces have the same names and keys, and the revisions and their machines are the same.
pub record SameNames (a b : Db) : Type 0 where
  pub keys :
      (harness native : Text)
      → trace_key harness native b.traces ≡ trace_key harness native a.traces
  pub revisions : b.revisions ≡ a.revisions
  pub machines : b.revision_machines ≡ a.revision_machines

same_refl : (a : Db) → SameNames a a
same_refl a = record { keys = λ h n. refl; revisions = refl; machines = refl }

same_trans : (a b c : Db) → SameNames a b → SameNames b c → SameNames a c
same_trans a b c f g = record {
  keys = λ h n. g.keys h n ∙ f.keys h n;
  revisions = g.revisions ∙ f.revisions;
  machines = g.machines ∙ f.machines;
}

pub true-ne : true ≢ false
true-ne h = cc

key_of_some :
    (t : Option TraceRow) (test : TraceRow → Bool) (change : TraceRow → TraceRow)
    → ((y : TraceRow) → (change y).id ≡ y.id)
    → Option.map
        (λ t. t.id)
        (elim t [ none ↦ none | some x ↦ some (if test x then change x else x) ])
      ≡ Option.map (λ t. t.id) t
key_of_some none test change h = refl
key_of_some (some x) test change h = ground (arith, h x)

names_update :
    (test : TraceRow → Bool) (change : TraceRow → TraceRow) (db : Db)
    → ((y : TraceRow) → (change y).id ≡ y.id)
    → ((harness native : Text) (y : TraceRow)
        → is_trace harness native (change y) ≡ is_trace harness native y)
    → SameNames db (record db { traces = update_where test change db.traces })
names_update test change db same_key same_name = record {
  keys = λ h n.
      ap (Option.map (λ t. t.id))
        (find-update_where (is_trace h n) test change db.traces (same_name h n))
      ∙ key_of_some (find (is_trace h n) db.traces) test change same_key;
  revisions = refl;
  machines = refl;
}

title_names :
    (trace : ℕ) (time title : Text) (st : Filling)
    → SameNames st.db (backfill_title trace time title st).db
unfolding backfill_title
title_names trace time title st = elim (Bool-cases (text_eq title [])) [
  | inl e ↦ rw e (same_refl st.db)
  | inr e ↦ rw e (
      names_update (lacks_title trace time) (λ t. record t { title = title }) st.db (λ y. refl)
        (λ h n y. refl))
]

directory_names :
    (trace : ℕ) (time value : Text) (st : Filling)
    → SameNames st.db (backfill_directory trace time value st).db
unfolding backfill_directory
directory_names trace time value st = elim (Bool-cases (text_eq value [])) [
  | inl e ↦ rw e (same_refl st.db)
  | inr e ↦ rw e (
      names_update (lacks_directory trace time) (λ t. record t { working_directory = value }) st.db
        (λ y. refl) (λ h n y. refl))
]

link_names : (trace : ℕ) (p : Option ℕ) (db : Db) → SameNames db (link_repository trace p db)
unfolding link_repository
link_names trace p db =
    names_update (λ t. t.id == trace) (λ t. record t { repository_id = p }) db (λ y. refl)
      (λ h n y. refl)

upsert_names :
    (machine : Text) (r : Repository) (db db' : Db) (id : Option ℕ)
    → is_empty_repository r ≡ false
    → upsert_repository machine r db ≡ ok (id, db')
    → SameNames db db'
unfolding upsert_repository
upsert_names machine r db db' id full h =
    let (found, _, last) =
      bind-eq-ok
        (or_no_rows (
          find (has_identity (repository_identity machine r))
            (ensure_repository (repository_identity machine r) r db.repositories)))
        _ (rw full at h) in
    let same = ap (λ x. x.1) (ok-injective last) in
    subst (SameNames db) same (record { keys = λ h n. refl; revisions = refl; machines = refl })

missing_names :
    (trace : ℕ) (machine : Text) (r : Repository) (st st' : Filling)
    → is_empty_repository r ≡ false
    → backfill_missing trace machine r st ≡ ok st'
    → SameNames st.db st'.db
unfolding backfill_missing
missing_names trace machine r st st' full h =
    let ((id, db), upserted, last) = bind-eq-ok (upsert_repository machine r st.db) _ h in
    subst (λ x. SameNames st.db x.db) (ok-injective last)
      (same_trans st.db db _ (upsert_names machine r st.db db id full upserted)
        (link_names trace id db))

repository_names :
    (trace : ℕ) (time machine : Text) (r : Repository) (st st' : Filling)
    → backfill_repository trace time machine r st ≡ ok st'
    → SameNames st.db st'.db
unfolding backfill_repository
repository_names trace time machine r st st' h =
    let stay = λ (same : st ≡ st'). subst (λ x. SameNames st.db x.db) same (same_refl st.db) in
    elim (Bool-cases (is_empty_repository r)) [
      | inl e ↦ stay (ground arith)
      | inr e ↦ elim (Option-cases (find (λ t. t.id == trace) st.db.traces)) [
        | inl missing ↦ absurd (ground arith)
        | inr (s, found) ↦ elim (Bool-cases (lacks_repository time s)) [
          | inl lacks ↦ missing_names trace machine r st st' e (ground arith)
          | inr has ↦ stay (ground arith)
        ]
      ]
    ]

finish_names :
    (revision : ℕ) (before after : Db) (metadata : List Text) (changed : Bool) (db : Db)
    → SameNames before after
    → finish_backfill revision before after metadata ≡ ok (changed, db)
    → SameNames before db
unfolding finish_backfill reindex_metadata
finish_names revision before after [] changed db s h =
    subst (SameNames before) (ap (λ x. x.1) (ok-injective h)) (same_refl before)
finish_names revision before after (t ∷ metadata) changed db s h =
    let (db1, indexed, last) = bind-eq-ok (reindex_metadata revision (t ∷ metadata) after) _ h in
    let (cs, made, last') =
      bind-eq-ok
        (index_revision after revision
          (extend_text revision (join_lines (t ∷ metadata)) after.observation_revisions) _)
        _ indexed in
    let kept : SameNames after db1 =
      subst (SameNames after) (ok-injective last')
        (record { keys = λ h n. refl; revisions = refl; machines = refl }) in
    subst (SameNames before) (ap (λ x. x.1) (ok-injective last))
      (same_trans before after db1 s kept)

pub backfill_names :
    (env : Env) (trace revision : ℕ) (machine : Text) (d : Descriptor) (db db' : Db)
    (changed : Bool)
    → backfill env trace revision machine d db ≡ ok (changed, db')
    → SameNames db db'
unfolding backfill
backfill_names env trace revision machine d db db' changed h =
    let time = canonical_time env d.native_updated_at in
    let st0 : Filling = record { db = db; metadata = [] } in
    let st1 = backfill_title trace time d.title st0 in
    let st2 = backfill_directory trace time d.working_directory st1 in
    elim (Bool-cases (
      text_eq d.title [] && (text_eq d.working_directory [] && is_empty_repository d.repository))) [
        | inl e ↦ subst (SameNames db) (ap (λ x. x.1) (ok-injective (rw e at h))) (same_refl db)
        | inr e ↦
            let (st3, stepped, finished) =
              bind-eq-ok (backfill_repository trace time machine d.repository st2) _ (rw e at h) in
            let s2 =
              same_trans db st1.db st2.db (title_names trace time d.title st0)
                (directory_names trace time d.working_directory st1) in
            let s3 =
              same_trans db st2.db st3.db s2
                (repository_names trace time machine d.repository st2 st3 stepped) in
            finish_names revision db st3.db st3.metadata changed db' s3 finished
      ]
