-- ===== src/Store/Revisions/Backfill/Again.antt =====
-- A second run of `backfillMissingTraceMetadata` for the same descriptor has nothing to do.
use traicr.Store.Revisions.Backfill.Missing.{
  no_repository, linked, HasDirectory, HasRepository, HasTitle, backfill_directory-HasDirectory,
  backfill_directory-HasTitle, backfill_title-HasTitle, directory_quiet, title_quiet,
}
use traicr.Prelude.{
  ℕ, ◌≡◌, refl, sym, ap, ◌∙◌, ◌≢◌, ◌⊎◌, inl, inr, Bool, false, ◌&&◌, List, [], ◌∷◌, arith, ◌==◌,
  Bool-cases, Text, text_eq, ok, ok-injective, bind-eq-ok,
}
use mathlib.Core.Path.{subst}
use traicr.Domain.{Descriptor, is_empty_repository}
use traicr.Store.Table.{find, exists, update_where_none}
use traicr.Store.Db.{Db, Env, canonical_time, join_lines}
use traicr.Store.SearchText.{index_revision}
use traicr.Store.Revisions.Backfill.{
  Filling, extend_text, lacks_title, lacks_directory, backfill_title, backfill_directory,
  backfill_repository, reindex_metadata, finish_backfill, backfill,
}
use traicr.Store.Revisions.Backfill.Done.{backfill_repository-IsDone}

pub record IsSettled (trace : ℕ) (time : Text) (d : Descriptor) (db : Db) : Type 0 where
  has_title : HasTitle trace time d.title db
  has_directory : HasDirectory trace time d.working_directory db
  has_repository : HasRepository trace time d.repository db

module _ (trace : ℕ) (time : Text) (d : Descriptor) where
  IsSettled-rows :
      (a b : Db) → b.traces ≡ a.traces → IsSettled trace time d a → IsSettled trace time d b
  IsSettled-rows a b rows s = record {
    has_title = record {
      holds = elim s.has_title.holds [
        | inl h ↦ inl h
        | inr h ↦ inr (ap (exists (lacks_title trace time)) rows ∙ h)
      ];
    };
    has_directory = record {
      holds = elim s.has_directory.holds [
        | inl h ↦ inl h
        | inr h ↦ inr (ap (exists (lacks_directory trace time)) rows ∙ h)
      ];
    };
    has_repository = elim s.has_repository [
      | no_repository h ↦ no_repository h
      | linked t found h ↦ linked t (ap (find (λ x. x.id == trace)) rows ∙ found) h
    ];
  }

  finish_backfill-IsSettled :
      (revision : ℕ) (before after : Db) (metadata : List Text) (changed : Bool) (db : Db)
      → IsSettled trace time d after
      → (metadata ≢ []) ⊎ (after ≡ before)
      → finish_backfill revision before after metadata ≡ ok (changed, db)
      → IsSettled trace time d db
  unfolding finish_backfill reindex_metadata
  finish_backfill-IsSettled revision before after [] changed db s q h = elim q [
    | inl ne ↦ absurd (ne refl)
    | inr same ↦ subst (IsSettled trace time d) (same ∙ ap (λ x. x.1) (ok-injective h)) s
  ]
  finish_backfill-IsSettled revision before after (t ∷ metadata) changed db s q h =
      let (db1, indexed, last) = bind-eq-ok (reindex_metadata revision (t ∷ metadata) after) _ h in
      let (cs, made, last') =
        bind-eq-ok
          (index_revision after revision
            (extend_text revision (join_lines (t ∷ metadata)) after.observation_revisions) _)
          _ indexed in
      let rows : db1.traces ≡ after.traces = ap (λ x. x.traces) (sym (ok-injective last')) in
      subst (IsSettled trace time d) (ap (λ x. x.1) (ok-injective last))
        (IsSettled-rows after db1 rows s)

  -- Each step on a settled state does nothing.
  settled_title :
      (db : Db)
      → HasTitle trace time d.title db
      → backfill_title trace time d.title (record { db = db; metadata = [] })
        ≡ record { db = db; metadata = [] }
  unfolding backfill_title
  settled_title db s = elim s.holds [
    | inl e ↦ rw e refl
    | inr f ↦ elim (Bool-cases (text_eq d.title [])) [
      | inl e ↦ rw e refl
      | inr e ↦
          rw (e, f)
            (ap (λ rows. record { db = record db { traces = rows }; metadata = [] })
              (update_where_none (lacks_title trace time) (λ t. record t { title = d.title })
                db.traces f))
    ]
  ]

  settled_directory :
      (db : Db)
      → HasDirectory trace time d.working_directory db
      → backfill_directory trace time d.working_directory (record { db = db; metadata = [] })
        ≡ record { db = db; metadata = [] }
  unfolding backfill_directory
  settled_directory db s = elim s.holds [
    | inl e ↦ rw e refl
    | inr f ↦ elim (Bool-cases (text_eq d.working_directory [])) [
      | inl e ↦ rw e refl
      | inr e ↦
          rw (e, f)
            (ap (λ rows. record { db = record db { traces = rows }; metadata = [] })
              (update_where_none (lacks_directory trace time)
                (λ t. record t { working_directory = d.working_directory }) db.traces f))
    ]
  ]

  settled_repository :
      (machine : Text) (st : Filling)
      → HasRepository trace time d.repository st.db
      → backfill_repository trace time machine d.repository st ≡ ok st
  unfolding backfill_repository
  settled_repository machine st (no_repository e) = rw e refl
  settled_repository machine st (linked t found lacks) =
      elim (Bool-cases (is_empty_repository d.repository)) [
        | inl e ↦ rw e refl
        | inr e ↦ rw (e, found) (rw lacks refl)
      ]

nil_or : (xs : List Text) → (xs ≡ []) ⊎ (xs ≢ [])
nil_or [] = inl refl
nil_or (x ∷ xs) = inr cc

-- When no step reports a change, no step made one.
chain_quiet :
    (trace : ℕ) (time : Text) (d : Descriptor) (st0 st3 : Filling)
    → st0.metadata ≡ []
    → (st3.metadata ≢ [])
      ⊎ (st3
          ≡ backfill_directory trace time d.working_directory
              (backfill_title trace time d.title st0))
    → (st3.metadata ≢ []) ⊎ (st3.db ≡ st0.db)
chain_quiet trace time d st0 st3 start (inl ne) = inl ne
chain_quiet trace time d st0 st3 start (inr same) =
    let st1 = backfill_title trace time d.title st0 in
    let st2 = backfill_directory trace time d.working_directory st1 in
    elim (nil_or st2.metadata) [
      | inr ne ↦ inl (λ empty. ne (ap (λ x. x.metadata) (sym same) ∙ empty))
      | inl quiet ↦
          let second : st2 ≡ st1 = directory_quiet trace time d.working_directory st1 quiet in
          let first : st1 ≡ st0 =
            title_quiet trace time d.title st0 (ap (λ x. x.metadata) (sym second) ∙ quiet) in
          inr (ap (λ x. x.db) (same ∙ second ∙ first))
    ]

module _ (env : Env) (trace revision : ℕ) (machine : Text) (d : Descriptor) where
  settled-backfill :
      (db : Db)
      → IsSettled trace (canonical_time env d.native_updated_at) d db
      → backfill env trace revision machine d db ≡ ok (false, db)
  unfolding backfill finish_backfill
  settled-backfill db s =
      let time = canonical_time env d.native_updated_at in
      elim (Bool-cases (
        text_eq d.title []
        && (text_eq d.working_directory [] && is_empty_repository d.repository))) [
          | inl e ↦ rw e refl
          | inr e ↦ rw e (
              rw (settled_title trace time d db s.has_title) (
                rw (settled_directory trace time d db s.has_directory) (
                  rw
                    (settled_repository trace time d machine (record { db = db; metadata = [] })
                      s.has_repository)
                    refl)))
        ]

  backfill-IsSettled :
      (db db' : Db) (changed : Bool)
      → backfill env trace revision machine d db ≡ ok (changed, db')
      → IsSettled trace (canonical_time env d.native_updated_at) d db'
  unfolding backfill
  backfill-IsSettled db db' changed h =
      let time = canonical_time env d.native_updated_at in
      let st0 : Filling = record { db = db; metadata = [] } in
      let st1 = backfill_title trace time d.title st0 in
      let st2 = backfill_directory trace time d.working_directory st1 in
      elim (Bool-cases (
        text_eq d.title []
        && (text_eq d.working_directory [] && is_empty_repository d.repository))) [
          | inl e ↦
              subst (IsSettled trace time d) (ap (λ x. x.1) (ok-injective (rw e at h))) (record {
                has_title = record { holds = inl (ground arith) };
                has_directory = record { holds = inl (ground arith) };
                has_repository = no_repository (ground arith);
              })
          | inr e ↦
              let (st3, stepped, finished) =
                bind-eq-ok (backfill_repository trace time machine d.repository st2) _
                  (rw e at h) in
              let a =
                backfill_directory-HasTitle trace time d.title d.working_directory st1
                  (backfill_title-HasTitle trace time d.title st0) in
              let b = backfill_directory-HasDirectory trace time d.working_directory st1 in
              let done =
                backfill_repository-IsDone trace time machine d.title d.working_directory
                  d.repository st2 st3 a b stepped in
              let settled : IsSettled trace time d st3.db = record {
                has_title = done.has_title;
                has_directory = done.has_directory;
                has_repository = done.has_repository;
              } in
              finish_backfill-IsSettled trace time d revision db st3.db st3.metadata changed db'
                settled (chain_quiet trace time d st0 st3 refl done.quiet) finished
        ]

-- Filling in the metadata of a trace again for the same revision changes nothing and says so.
pub backfill_again :
    (env : Env) (trace revision : ℕ) (machine : Text) (d : Descriptor) (db db' : Db)
    (changed : Bool)
    → backfill env trace revision machine d db ≡ ok (changed, db')
    → backfill env trace revision machine d db' ≡ ok (false, db')
backfill_again env trace revision machine d db db' changed h =
    settled-backfill env trace revision machine d db'
      (backfill-IsSettled env trace revision machine d db db' changed h)
