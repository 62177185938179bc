-- ===== src/Store/Revisions/Backfill/Missing.antt =====
-- What each step of `backfillMissingTraceMetadata` leaves to fill, and when a step changes nothing.
use traicr.Prelude.{
  ℕ, ◌≡◌, refl, ap, ◌∙◌, ◌≢◌, ◌⊎◌, inl, inr, true, false, some, List, [], ◌∷◌, ◌++◌, arith, ◌==◌,
  Bool-cases, Text, text_eq,
}
use traicr.Domain.{Repository, is_empty_repository}
use traicr.Store.Table.{find, exists, exists-update_where, exists-update_none, update_where_none}
use traicr.Store.Db.{Db, TraceRow}
use traicr.Store.Revisions.Backfill.{
  Filling, lacks_title, lacks_directory, lacks_repository, backfill_title, backfill_directory,
}

-- Nothing is left that the descriptor could fill.
pub record HasTitle (trace : ℕ) (time title : Text) (db : Db) : Type 0 where
  pub holds : (text_eq title [] ≡ true) ⊎ (exists (lacks_title trace time) db.traces ≡ false)

pub record HasDirectory (trace : ℕ) (time directory : Text) (db : Db) : Type 0 where
  pub holds :
      (text_eq directory [] ≡ true) ⊎ (exists (lacks_directory trace time) db.traces ≡ false)

pub data HasRepository (trace : ℕ) (time : Text) (r : Repository) (db : Db) : Type 0 where
  no_repository : is_empty_repository r ≡ true → HasRepository trace time r db
  linked :
      (t : TraceRow)
      → find (λ x. x.id == trace) db.traces ≡ some t
      → lacks_repository time t ≡ false
      → HasRepository trace time r db

pub append_cons-ne : (a : List Text) (t : Text) (b : List Text) → a ++ (t ∷ b) ≢ []
append_cons-ne [] t b h = cc
append_cons-ne (x ∷ a) t b h = cc

module _ (trace : ℕ) (time : Text) where
  pub backfill_title-HasTitle :
      (title : Text) (st : Filling)
      → HasTitle trace time title (backfill_title trace time title st).db
  unfolding backfill_title
  backfill_title-HasTitle title st = elim (Bool-cases (text_eq title [])) [
    | inl e ↦ record { holds = inl e }
    | inr e ↦ record {
      holds = inr (
          rw e (
            exists-update_none (lacks_title trace time) (λ t. record t { title = title })
              st.db.traces (λ y. ground arith)));
    }
  ]

  pub backfill_directory-HasTitle :
      (title value : Text) (st : Filling)
      → HasTitle trace time title st.db
      → HasTitle trace time title (backfill_directory trace time value st).db
  unfolding backfill_directory
  backfill_directory-HasTitle title value st s = elim (Bool-cases (text_eq value [])) [
    | inl e ↦ rw e s
    | inr e ↦ record {
      holds = elim s.holds [
        | inl h ↦ inl h
        | inr h ↦ inr (
            rw e (
              exists-update_where (lacks_title trace time) (lacks_directory trace time)
                (λ t. record t { working_directory = value }) st.db.traces (λ y. refl)
              ∙ h))
      ];
    }
  ]

  pub backfill_directory-HasDirectory :
      (value : Text) (st : Filling)
      → HasDirectory trace time value (backfill_directory trace time value st).db
  unfolding backfill_directory
  backfill_directory-HasDirectory value st = elim (Bool-cases (text_eq value [])) [
    | inl e ↦ record { holds = inl e }
    | inr e ↦ record {
      holds = inr (
          rw e (
            exists-update_none (lacks_directory trace time)
              (λ t. record t { working_directory = value }) st.db.traces (λ y. ground arith)));
    }
  ]

  -- A step that changes nothing is not reported, and the other way round.
  pub title_quiet :
      (title : Text) (st : Filling)
      → (backfill_title trace time title st).metadata ≡ []
      → (backfill_title trace time title st ≡ st)
  unfolding backfill_title
  title_quiet title st h = elim (Bool-cases (text_eq title [])) [
    | inl e ↦ rw e refl
    | inr e ↦ elim (Bool-cases (exists (lacks_title trace time) st.db.traces)) [
      | inl t ↦ absurd (append_cons-ne st.metadata title [] (ground arith))
      | inr f ↦
          rw (e, f)
            (ap (λ rows. record { db = record st.db { traces = rows }; metadata = st.metadata })
              (update_where_none (lacks_title trace time) (λ t. record t { title = title })
                st.db.traces f))
    ]
  ]

  pub directory_quiet :
      (value : Text) (st : Filling)
      → (backfill_directory trace time value st).metadata ≡ []
      → (backfill_directory trace time value st ≡ st)
  unfolding backfill_directory
  directory_quiet value st h = elim (Bool-cases (text_eq value [])) [
    | inl e ↦ rw e refl
    | inr e ↦ elim (Bool-cases (exists (lacks_directory trace time) st.db.traces)) [
      | inl t ↦ absurd (append_cons-ne st.metadata value [] (ground arith))
      | inr f ↦
          rw (e, f)
            (ap (λ rows. record { db = record st.db { traces = rows }; metadata = st.metadata })
              (update_where_none (lacks_directory trace time)
                (λ t. record t { working_directory = value }) st.db.traces f))
    ]
  ]
