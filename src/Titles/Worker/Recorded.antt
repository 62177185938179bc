-- ===== src/Titles/Worker/Recorded.antt =====
-- A candidate that was recorded is not offered again.
use traicr.Prelude.{
  ℕ, zero, suc, ◌≤◌, ◌≡◌, refl, sym, ap, ◌∙◌, ◌⊎◌, inl, inr, Bool, true, false, not, List, [], ◌∷◌,
  arith, ◌==◌, if◌then◌else◌, ==_iff, Bool-cases, take, All, Text, text_eq, ok, ok-injective,
  bind-eq-ok,
}
use traicr.Store.Table.{delete_where, exists, find, update_where}
use traicr.Store.Db.{Db, TraceRow, RevisionRow, or_no_rows}
use traicr.Store.Titles.{
  set_generated_title, is_untitled, with_generated, reindex_trace, current_labels,
}
use traicr.Store.Titles.Labelled.{reindex_revisions-IsLabelled}
use traicr.Titles.Worker.{
  newer, Candidate, latest_revision, is_candidate, title_candidates, offer, insert_trace,
  sort_traces,
}

-- The rows after a title was recorded: the same rows, or those of the `UPDATE`.
pub record IsTitled (c : Candidate) (t : Text) (a b : Db) : Type 0 where
  pub traces : b.traces ≡ (with_generated c.trace_id c.revision_id t a).traces
  pub revisions : b.revisions ≡ a.revisions

reindexed_lem :
    (trace : ℕ) (a b : Db)
    → reindex_trace trace a ≡ ok b
    → (b.traces ≡ a.traces) × (b.revisions ≡ a.revisions)
unfolding reindex_trace
reindexed_lem trace a b h =
    let (labels, named, rest) = bind-eq-ok (current_labels a trace) _ h in
    let (all, kept) = reindex_revisions-IsLabelled trace labels a.revisions a b rest in
    (kept.traces, kept.revisions)

update_none :
    (test : TraceRow → Bool) (change : TraceRow → TraceRow) (rows : List TraceRow)
    → exists test rows ≡ false
    → update_where test change rows ≡ rows
unfolding update_where exists
update_none test change [] h = refl
update_none test change (x ∷ rows) h = ground (arith, update_none test change rows)

pub set_generated_title-IsTitled :
    (c : Candidate) (t : Text) (a b : Db)
    → set_generated_title c.trace_id c.revision_id t a ≡ ok b
    → IsTitled c t a b
unfolding set_generated_title
set_generated_title-IsTitled c t a b h =
    let (row, found, h1) = bind-eq-ok (or_no_rows (find (λ t. t.id == c.trace_id) a.traces)) _ h in
    elim (Bool-cases (exists (is_untitled c.trace_id c.revision_id) a.traces)) [
      | inr none_left ↦
          let same : a ≡ b = ok-injective (rw none_left at h1) in
          record {
            traces =
                ap (λ x. x.traces) (sym same)
                ∙ sym (update_none (is_untitled c.trace_id c.revision_id) _ a.traces none_left);
            revisions = ap (λ x. x.revisions) (sym same);
          }
      | inl untitled ↦ elim (Bool-cases (text_eq t row.generated_title)) [
        | inl same_title ↦
            let same : with_generated c.trace_id c.revision_id t a ≡ b =
              ok-injective (rw (untitled, same_title) at h1) in
            record {
              traces = ap (λ x. x.traces) (sym same);
              revisions = ap (λ x. x.revisions) (sym same);
            }
        | inr new_title ↦
            let (traces, revisions) =
              reindexed_lem c.trace_id (with_generated c.trace_id c.revision_id t a) b
                (rw (untitled, new_title) at h1) in
            record { traces = traces; revisions = revisions }
      ]
    ]

-- Every row of the trace has the revision or a later one recorded.
abbrev pub IsDone : Candidate → List TraceRow → Type 0
IsDone c rows =
    All (λ t. ((t.id == c.trace_id) ≡ false) ⊎ (c.revision_id ≤ t.generated_title_revision_id)) rows

-- What the `UPDATE` does to a row.
abbrev mark : Candidate → Text → TraceRow → TraceRow
mark c t x =
    if is_untitled c.trace_id c.revision_id x
    then record x { generated_title = t; generated_title_revision_id = c.revision_id }
    else x

mark_id : (c : Candidate) (t : Text) (x : TraceRow) → (mark c t x).id ≡ x.id
mark_id c t x = ground arith

mark_done :
    (c : Candidate) (t : Text) (x : TraceRow)
    → (x.id == c.trace_id) ≡ true
    → c.revision_id ≤ (mark c t x).generated_title_revision_id
mark_done c t x own = ground arith

mark_grows :
    (c : Candidate) (t : Text) (x : TraceRow)
    → x.generated_title_revision_id ≤ (mark c t x).generated_title_revision_id
mark_grows c t x = ground arith

pub set-IsDone :
    (c : Candidate) (t : Text) (rows : List TraceRow)
    → IsDone c (
        update_where
          (is_untitled c.trace_id c.revision_id)
          (λ x. record x { generated_title = t; generated_title_revision_id = c.revision_id })
          rows)
unfolding update_where
set-IsDone c t [] = tt
set-IsDone c t (x ∷ rows) = (
  elim (Bool-cases (x.id == c.trace_id)) [
    | inr other ↦ inl (ap (λ i. i == c.trace_id) (mark_id c t x) ∙ other)
    | inl own ↦ inr (mark_done c t x own)
  ],
  set-IsDone c t rows,
)

pub keep-IsDone :
    (c e : Candidate) (t : Text) (rows : List TraceRow)
    → IsDone c rows
    → IsDone c (
        update_where
          (is_untitled e.trace_id e.revision_id)
          (λ x. record x { generated_title = t; generated_title_revision_id = e.revision_id })
          rows)
unfolding update_where
keep-IsDone c e t [] d = tt
keep-IsDone c e t (x ∷ rows) d = (
  elim d.0 [
    | inl other ↦ inl (ap (λ i. i == c.trace_id) (mark_id e t x) ∙ other)
    | inr done ↦ inr (omega (arith, done, mark_grows e t x))
  ],
  keep-IsDone c e t rows d.1,
)

-- No row that is a candidate belongs to a trace that is done.
others :
    (c : Candidate) (idle_before : Text) (revisions : List RevisionRow) (rows : List TraceRow)
    → c.revision_id ≡ latest_revision c.trace_id revisions
    → IsDone c rows
    → All
        (λ t. (t.id == c.trace_id) ≡ false)
        (delete_where (λ t. not (is_candidate idle_before revisions t)) rows)
unfolding delete_where
others c idle_before revisions [] latest d = tt
others c idle_before revisions (x ∷ rows) latest d =
    let rest = others c idle_before revisions rows latest d.1 in
    elim (Bool-cases (is_candidate idle_before revisions x)) [
      | inr out ↦ rw (delete_where, out) rest
      | inl chosen ↦
          let other : (x.id == c.trace_id) ≡ false = elim d.0 [
            | inl o ↦ o
            | inr done ↦ elim (Bool-cases (x.id == c.trace_id)) [
              | inr o ↦ o
              | inl own ↦
                  let same : latest_revision x.id revisions ≡ latest_revision c.trace_id revisions =
                    ap (λ i. latest_revision i revisions) ((==_iff x.id c.trace_id).0 own) in
                  absurd (unfold is_candidate in (ground (arith, same, latest, done, chosen)))
            ]
          ] in
          rw (delete_where, chosen) (other, rest)
    ]

module _ (P : TraceRow → Type 0) where
  insert-All :
      (t : TraceRow) (rows : List TraceRow) → P t → All P rows → All P (insert_trace t rows)
  unfolding insert_trace
  insert-All t [] h a = (h, tt)
  insert-All t (x ∷ rows) h a = elim (Bool-cases (newer t x)) [
    | inl first ↦ rw (insert_trace, first) (h, a)
    | inr later ↦ rw (insert_trace, later) (a.0, insert-All t rows h a.1)
  ]

  sort-All : (rows : List TraceRow) → All P rows → All P (sort_traces rows)
  unfolding sort_traces
  sort-All [] a = tt
  sort-All (x ∷ rows) a = insert-All x (sort_traces rows) a.0 (sort-All rows a.1)

  take-All : (n : ℕ) (rows : List TraceRow) → All P rows → All P (take n rows)
  take-All zero rows a = tt
  take-All (suc n) [] a = tt
  take-All (suc n) (x ∷ rows) a = (a.0, take-All n rows a.1)

offer-All :
    (trace : ℕ) (revisions : List RevisionRow) (rows : List TraceRow)
    → All (λ t. (t.id == trace) ≡ false) rows
    → All (λ x. (x.trace_id == trace) ≡ false) (offer revisions rows)
unfolding offer
offer-All trace revisions [] a = tt
offer-All trace revisions (x ∷ rows) a = (a.0, offer-All trace revisions rows a.1)

-- The trace is not among the candidates, whatever the time and the limit.
abbrev pub IsSettled : Db → Candidate → Type 0
IsSettled db c =
    (idle_before : Text) (limit : ℕ)
    → All (λ x. (x.trace_id == c.trace_id) ≡ false) (title_candidates idle_before limit db)

pub done-IsSettled :
    (c : Candidate) (db : Db)
    → c.revision_id ≡ latest_revision c.trace_id db.revisions
    → IsDone c db.traces
    → IsSettled db c
unfolding title_candidates
done-IsSettled c db latest d idle_before limit = offer-All c.trace_id db.revisions _ (
    take-All (λ t. (t.id == c.trace_id) ≡ false) limit _
      (sort-All (λ t. (t.id == c.trace_id) ≡ false) _
        (others c idle_before db.revisions db.traces latest d)))
