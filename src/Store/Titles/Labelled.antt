-- ===== src/Store/Titles/Labelled.antt =====
-- What a rename leaves: the trace has the title, and all its search text ends in its current labels.

use traicr.Prelude.{
  ℕ, ◌≡◌, refl, sym, ap, ◌∙◌, ◌⊎◌, inl, inr, Bool, true, false, not, ◌&&◌, Option, none, some, List,
  [], ◌∷◌, ◌++◌, arith, ◌==◌, Bool-cases, Option-cases, All, Text, ok, ok-injective, bind-eq-ok,
  refuse_if,
}
use mathlib.Core.Path.{subst}
use traicr.Store.Table.{find, exists, exists-find-some, delete_where, find-update_where, find_test}
use traicr.Store.Db.{Db, TraceRow, RevisionRow, ObservationRow, ObservationRevision, no_rows}
use traicr.Store.SearchText.{index_revision}
use traicr.Store.Titles.{
  current_labels, label_descriptor, repository_of, labelled_text, relabel, relabel_all,
  reindex_revision, reindex_revisions, reindex_trace, with_override, set_title_override,
}

-- Whether a link is one of the trace, by these revisions.
abbrev is_of : ℕ → List RevisionRow → ObservationRevision → Bool
is_of trace rows x = exists (λ r. r.id == x.revision_id && r.trace_id == trace) rows

-- A link of the trace has text that ends in the labels, where its observation is there.
abbrev pub IsLabelled :
    ℕ → Text → List ObservationRow → List RevisionRow → ObservationRevision → Type 0
IsLabelled trace labels observations rows x =
    (is_of trace rows x ≡ false)
    ⊎ (find (λ o. o.id == x.observation_id) observations ≡ none)
    ⊎ ((t : Text) × (x.searchable_text ≡ t ++ (b'\n' ∷ labels)))

-- What reindexing does not touch.
pub record IsReindexed (a b : Db) : Type 0 where
  pub observations : b.observations ≡ a.observations
  pub traces : b.traces ≡ a.traces
  pub revisions : b.revisions ≡ a.revisions
  pub repositories : b.repositories ≡ a.repositories

relabel-IsLabelled :
    (trace : ℕ) (labels : Text) (db : Db) (r : RevisionRow) (rows : List RevisionRow)
    (x : ObservationRevision)
    → IsLabelled trace labels db.observations rows x
    → IsLabelled trace labels db.observations (r ∷ rows) (relabel db r.id labels x)
unfolding relabel labelled_text exists
relabel-IsLabelled trace labels db r rows x given = elim (Bool-cases (x.revision_id == r.id)) [
  | inl own ↦ elim (Option-cases (find (λ o. o.id == x.observation_id) db.observations)) [
    | inl missing ↦ rw own (rw missing (inr (inl missing)))
    | inr (o, found) ↦ rw own (rw found (inr (inr (_, refl))))
  ]
  | inr other ↦
      let same : relabel db r.id labels x ≡ x = rw other refl in
      let apart : is_of trace (r ∷ rows) x ≡ is_of trace rows x = ground arith in
      subst (IsLabelled trace labels db.observations (r ∷ rows)) (sym same)
        (elim given [ inl out ↦ inl (apart ∙ out) | inr q ↦ inr q ])
]

relabel_all-IsLabelled :
    (trace : ℕ) (labels : Text) (db : Db) (r : RevisionRow) (rows : List RevisionRow)
    (links : List ObservationRevision)
    → All (IsLabelled trace labels db.observations rows) links
    → All (IsLabelled trace labels db.observations (r ∷ rows)) (relabel_all db r.id labels links)
unfolding relabel_all
relabel_all-IsLabelled trace labels db r rows [] a = tt
relabel_all-IsLabelled trace labels db r rows (x ∷ links) (p, a) = (
  relabel-IsLabelled trace labels db r rows x p,
  relabel_all-IsLabelled trace labels db r rows links a,
)

other_trace-IsLabelled :
    (trace : ℕ) (labels : Text) (observations : List ObservationRow) (r : RevisionRow)
    (rows : List RevisionRow) (links : List ObservationRevision)
    → (r.trace_id == trace) ≡ false
    → All (IsLabelled trace labels observations rows) links
    → All (IsLabelled trace labels observations (r ∷ rows)) links
unfolding exists
other_trace-IsLabelled trace labels observations r rows [] other a = tt
other_trace-IsLabelled trace labels observations r rows (x ∷ links) other (p, a) =
    let same : is_of trace (r ∷ rows) x ≡ is_of trace rows x = ground arith in
    (
      elim p [ inl out ↦ inl (same ∙ out) | inr q ↦ inr q ],
      other_trace-IsLabelled trace labels observations r rows links other a,
    )

none_of-IsLabelled :
    (trace : ℕ) (labels : Text) (observations : List ObservationRow)
    (links : List ObservationRevision)
    → All (IsLabelled trace labels observations []) links
unfolding exists
none_of-IsLabelled trace labels observations [] = tt
none_of-IsLabelled trace labels observations (x ∷ links) =
    (inl refl, none_of-IsLabelled trace labels observations links)

pub reindex_revisions-IsLabelled :
    (trace : ℕ) (labels : Text) (rows : List RevisionRow) (db db' : Db)
    → reindex_revisions trace labels rows db ≡ ok db'
    → All (IsLabelled trace labels db.observations rows) db'.observation_revisions
      × IsReindexed db db'
unfolding reindex_revisions reindex_revision
reindex_revisions-IsLabelled trace labels [] db db' h =
    let same : db ≡ db' = ok-injective h in
    subst
      (λ y.
        All (IsLabelled trace labels db.observations []) y.observation_revisions × IsReindexed db y)
      same
      (
        none_of-IsLabelled trace labels db.observations db.observation_revisions,
        record { observations = refl; traces = refl; revisions = refl; repositories = refl },
      )
reindex_revisions-IsLabelled trace labels (r ∷ rows) db db' h =
    let (db1, first, rest) = bind-eq-ok (reindex_revisions trace labels rows db) _ h in
    let (all, kept) = reindex_revisions-IsLabelled trace labels rows db db1 first in
    elim (Bool-cases (r.trace_id == trace)) [
      | inr other ↦
          let same : db1 ≡ db' = ok-injective (rw other at rest) in
          subst
            (λ y.
              All (IsLabelled trace labels db.observations (r ∷ rows)) y.observation_revisions
              × IsReindexed db y)
            same
            (
              other_trace-IsLabelled trace labels db.observations r rows db1.observation_revisions
                  other all,
              kept,
            )
      | inl own ↦
          let links = relabel_all db1 r.id labels db1.observation_revisions in
          let (cs, made, last) =
            bind-eq-ok
              (index_revision db1 r.id links
                (delete_where (λ c. c.revision_id == r.id) db1.search_chunks))
              _ (rw own at rest) in
          let before : All (IsLabelled trace labels db1.observations rows)
              db1.observation_revisions =
            subst (λ o. All (IsLabelled trace labels o rows) db1.observation_revisions)
              (sym kept.observations) all in
          let after : All (IsLabelled trace labels db.observations (r ∷ rows)) links =
            subst (λ o. All (IsLabelled trace labels o (r ∷ rows)) links) kept.observations
              (relabel_all-IsLabelled trace labels db1 r rows db1.observation_revisions before) in
          subst
            (λ y.
              All (IsLabelled trace labels db.observations (r ∷ rows)) y.observation_revisions
              × IsReindexed db y)
            (ok-injective last)
            (
              after,
              record {
                observations = kept.observations;
                traces = kept.traces;
                revisions = kept.revisions;
                repositories = kept.repositories;
              },
            )
    ]

repository_of_same :
    (a b : Db) (p : Option ℕ) → IsReindexed a b → repository_of b p ≡ repository_of a p
unfolding repository_of
repository_of_same a b none k = refl
repository_of_same a b (some id) k = rw (k.repositories, repository_of) refl

label_descriptor_same :
    (a b : Db) (t : TraceRow) → IsReindexed a b → label_descriptor b t ≡ label_descriptor a t
unfolding label_descriptor
label_descriptor_same a b t k = rw (repository_of_same a b t.repository_id k) refl

current_labels_same :
    (a b : Db) (trace : ℕ) → IsReindexed a b → current_labels b trace ≡ current_labels a trace
unfolding current_labels
current_labels_same a b trace k =
    let rows : find (λ t. t.id == trace) b.traces ≡ find (λ t. t.id == trace) a.traces =
      ap (find (λ t. t.id == trace)) k.traces in
    elim (Option-cases (find (λ t. t.id == trace) a.traces)) [
      | inl e ↦ rw (rows ∙ e) (rw e refl)
      | inr (t, e) ↦ rw (rows ∙ e) (rw e (rw (label_descriptor_same a b t k) refl))
    ]

-- A manual title that is stored: the trace's row has it and is otherwise as it was, the labels of the
-- trace are those of that row, and the search text of each observation in each revision of the trace
-- ends in these labels.
pub set_title_override-IsLabelled :
    (trace : ℕ) (title : Text) (db db' : Db)
    → set_title_override trace title db ≡ ok db'
    → (t : TraceRow) × (labels : Text) × (find (λ x. x.id == trace) db.traces ≡ some t)
      × (find (λ x. x.id == trace) db'.traces ≡ some (record t { title_override = title }))
      × (current_labels db' trace ≡ ok labels)
      × All (IsLabelled trace labels db'.observations db'.revisions) db'.observation_revisions
unfolding set_title_override reindex_trace
set_title_override-IsLabelled trace title db db' h =
    let renamed = with_override trace title db in
    let (_, exists_row, h1) =
      bind-eq-ok (refuse_if (not (exists (λ t. t.id == trace) db.traces)) no_rows) _ h in
    let known : exists (λ t. t.id == trace) db.traces ≡ true = ground arith in
    let (t, found) = exists-find-some (λ t. t.id == trace) db.traces known in
    let own : (t.id == trace) ≡ true = find_test (λ t. t.id == trace) db.traces t found in
    let row : find (λ x. x.id == trace) renamed.traces
        ≡ some (record t { title_override = title }) =
      find-update_where (λ x. x.id == trace) (λ x. x.id == trace)
        (λ x. record x { title_override = title }) db.traces (λ y. refl)
      ∙ rw found (rw own refl) in
    let (labels, named, h2) = bind-eq-ok (current_labels renamed trace) _ h1 in
    let (all, kept) = reindex_revisions-IsLabelled trace labels renamed.revisions renamed db' h2 in
    let everywhere : All (IsLabelled trace labels db'.observations db'.revisions)
        db'.observation_revisions =
      subst (λ r. All (IsLabelled trace labels db'.observations r) db'.observation_revisions)
        (sym kept.revisions)
        (subst (λ o. All (IsLabelled trace labels o renamed.revisions) db'.observation_revisions)
          (sym kept.observations) all) in
    (
      t,
      labels,
      found,
      ap (find (λ x. x.id == trace)) kept.traces ∙ row,
      current_labels_same renamed db' trace kept ∙ named,
      everywhere,
    )
