-- ===== src/Store/Revisions/Backfill/Done.antt =====
-- What the step on the repository of `backfillMissingTraceMetadata` keeps and leaves.
use traicr.Store.Revisions.Backfill.Missing.{
  no_repository, linked, HasDirectory, HasRepository, HasTitle, append_cons-ne,
}
use traicr.Prelude.{
  ℕ, ◌≡◌, refl, sym, ap, ◌∙◌, ◌≢◌, ◌⊎◌, inl, inr, true, false, Option, some, [], ◌∷◌, ◌++◌, arith,
  ◌==◌, Bool-cases, Option-cases, Text, ok, ok-injective, bind-eq-ok,
}
use mathlib.Core.Path.{subst}
use traicr.Domain.{Repository, is_empty_repository}
use traicr.Store.Table.{find, find_test, exists, find-update_where, exists-update_where}
use traicr.Store.Db.{Db, TraceRow, or_no_rows}
use traicr.Store.Repositories.{
  upsert_repository, ensure_repository, repository_identity, has_identity,
}
use traicr.Store.Revisions.Backfill.{
  Filling, is_null, lacks_title, lacks_directory, lacks_repository, link_repository,
  backfill_missing, backfill_repository,
}

-- Nothing is left that the descriptor could fill.
upsert_some :
    (machine : Text) (r : Repository) (db db' : Db) (id : Option ℕ)
    → is_empty_repository r ≡ false
    → upsert_repository machine r db ≡ ok (id, db')
    → (x : ℕ) × (id ≡ some x) × (db'.traces ≡ db.traces)
unfolding upsert_repository
upsert_some machine r db db' id full h =
    let (found, _, last) =
      bind-eq-ok
        (or_no_rows (
          find (has_identity (repository_identity machine r))
            (ensure_repository (repository_identity machine r) r db.repositories)))
        _ (rw full at h) in
    (
      found.id,
      ap (λ x. x.0) (sym (ok-injective last)),
      ap (λ x. x.1.traces) (sym (ok-injective last)),
    )

-- What the step on the repository keeps and leaves.
pub record IsDone (trace : ℕ) (time title directory : Text) (r : Repository)
    (before after : Filling) : Type 0 where
  pub has_title : HasTitle trace time title after.db
  pub has_directory : HasDirectory trace time directory after.db
  pub has_repository : HasRepository trace time r after.db
  pub quiet : (after.metadata ≢ []) ⊎ (after ≡ before)

module _ (trace : ℕ) (time : Text) where
  link_repository-HasTitle :
      (title : Text) (p : Option ℕ) (a b : Db)
      → b.traces ≡ a.traces
      → HasTitle trace time title a
      → HasTitle trace time title (link_repository trace p b)
  unfolding link_repository
  link_repository-HasTitle title p a b rows s = record {
    holds = elim s.holds [
      | inl h ↦ inl h
      | inr h ↦ inr (
          exists-update_where (lacks_title trace time) (λ t. t.id == trace)
            (λ t. record t { repository_id = p }) b.traces (λ y. refl)
          ∙ ap (exists (lacks_title trace time)) rows
          ∙ h)
    ];
  }

  link_repository-HasDirectory :
      (value : Text) (p : Option ℕ) (a b : Db)
      → b.traces ≡ a.traces
      → HasDirectory trace time value a
      → HasDirectory trace time value (link_repository trace p b)
  unfolding link_repository
  link_repository-HasDirectory value p a b rows s = record {
    holds = elim s.holds [
      | inl h ↦ inl h
      | inr h ↦ inr (
          exists-update_where (lacks_directory trace time) (λ t. t.id == trace)
            (λ t. record t { repository_id = p }) b.traces (λ y. refl)
          ∙ ap (exists (lacks_directory trace time)) rows
          ∙ h)
    ];
  }

  link_repository-HasRepository :
      (r : Repository) (x : ℕ) (a b : Db) (t : TraceRow)
      → b.traces ≡ a.traces
      → find (λ y. y.id == trace) a.traces ≡ some t
      → HasRepository trace time r (link_repository trace (some x) b)
  unfolding link_repository lacks_repository is_null
  link_repository-HasRepository r x a b t rows found =
      let own : (t.id == trace) ≡ true = find_test (λ y. y.id == trace) a.traces t found in
      let found' : find (λ y. y.id == trace) b.traces ≡ some t =
        ap (find (λ y. y.id == trace)) rows ∙ found in
      linked (record t { repository_id = some x })
        (find-update_where (λ y. y.id == trace) (λ y. y.id == trace)
            (λ y. record y { repository_id = some x }) b.traces (λ y. refl)
          ∙ rw (found', own) refl)
        refl

  backfill_missing-IsDone :
      (machine title directory : Text) (r : Repository) (st st' : Filling) (t : TraceRow)
      → HasTitle trace time title st.db
      → HasDirectory trace time directory st.db
      → is_empty_repository r ≡ false
      → find (λ y. y.id == trace) st.db.traces ≡ some t
      → backfill_missing trace machine r st ≡ ok st'
      → IsDone trace time title directory r st st'
  unfolding backfill_missing
  backfill_missing-IsDone machine title directory r st st' t a b full found h =
      let ((id, db), upserted, last) = bind-eq-ok (upsert_repository machine r st.db) _ h in
      let (x, named, rows) = upsert_some machine r st.db db id full upserted in
      let metadata = st.metadata ++ (r.remote ∷ r.root ∷ []) in
      let done : Filling = record { db = link_repository trace (some x) db; metadata = metadata } in
      let result : IsDone trace time title directory r st done = record {
        has_title = link_repository-HasTitle title (some x) st.db db rows a;
        has_directory = link_repository-HasDirectory directory (some x) st.db db rows b;
        has_repository = link_repository-HasRepository r x st.db db t rows found;
        quiet = inl (append_cons-ne st.metadata r.remote (r.root ∷ []));
      } in
      let same : done ≡ st' =
        ap (λ i. record { db = link_repository trace i db; metadata = metadata }) (sym named)
        ∙ ok-injective last in
      subst (IsDone trace time title directory r st) same result

  pub backfill_repository-IsDone :
      (machine title directory : Text) (r : Repository) (st st' : Filling)
      → HasTitle trace time title st.db
      → HasDirectory trace time directory st.db
      → backfill_repository trace time machine r st ≡ ok st'
      → IsDone trace time title directory r st st'
  unfolding backfill_repository
  backfill_repository-IsDone machine title directory r st st' a b h =
      let stay = λ (s : HasRepository trace time r st.db) (same : st ≡ st').
        subst (IsDone trace time title directory r st) same
          (record { has_title = a; has_directory = b; has_repository = s; quiet = inr refl }) in
      elim (Bool-cases (is_empty_repository r)) [
        | inl e ↦ stay (no_repository e) (ground arith)
        | inr e ↦ elim (Option-cases (find (λ t. t.id == trace) st.db.traces)) [
          | inl missing ↦ absurd (ground arith)
          | inr (s, found) ↦ elim (Bool-cases (lacks_repository time s)) [
            | inl lacks ↦
                backfill_missing-IsDone machine title directory r st st' s a b e found
                  (ground arith)
            | inr has ↦ stay (linked s found has) (ground arith)
          ]
        ]
      ]
