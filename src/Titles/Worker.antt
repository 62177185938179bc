-- ===== src/Titles/Worker.antt =====
-- internal/titles/worker.go, with `Generate` and `Rejected` of generator.go and `TitleCandidates` of internal/store/titles.go. The model's
-- answers, the query for the source of a title and `validateTitle`, which asks for Unicode classes, are parameters; a time is in seconds.
-- Waiting and a context that is cancelled are left out.
pub mod Backoff
pub mod Named
pub mod Recorded
use traicr.Prelude.{
  ℕ, zero, suc, ◌+◌, ◌-◌, ◌*◌, ◌/◌, ◌%◌, ◌^◌, ◌≤◌, ◌<◌, min, max, ◌≡◌, refl, sym, ap, ◌∙◌, ◌≢◌, ◌↔◌,
  ◌⊎◌, inl, inr, Bool, true, false, not, ◌&&◌, ◌||◌, Option, none, some, List, [], ◌∷◌, ◌++◌, map,
  arith, ltb, leb, ◌==◌, if◌then◌else◌, ltb→lt, leb→le, ==_iff, Bool-cases, Option-cases, length,
  get_elem?, take, drop, slice, length-append, length-take, length-drop, take-append-drop,
  take_whole, length-ne-nil, Member, here, there, Member-append_left, Member-append_right, All,
  All-append, All-members, append_nil, append_assoc, Text, codes, text_eq, text_eq_iff,
  text_eq_refl, text_eq-ne, text_leb, text_leb_refl, text_leb_trans, text_leb_total,
  text_leb_antisym, has_prefix, contains_byte, count_byte, Result, ok, err, ok-injective,
  Result-cases, bind-eq-ok, refuse_if, refuse_if-eq-ok, ◌>>=◌, ◌>>◌,
}
use traicr.Store.Table.{max_of, delete_where}
use traicr.Store.Db.{Db, TraceRow, RevisionRow, StoreError, Sql}
use traicr.Store.Titles.{set_generated_title}
use traicr.Titles.Prompt.{TitleSource, Texts, prompt}

-- `store.TitleCandidate`
pub record Candidate : Type 0 where
  pub trace_id : ℕ
  pub revision_id : ℕ

abbrev pub batch_size : ℕ
batch_size = 20

abbrev pub min_backoff : ℕ
min_backoff = 60

abbrev pub max_backoff : ℕ
max_backoff = 1800

-- `SELECT MAX(r.id) FROM trace_revisions r WHERE r.trace_id=t.id`; 0, which is no key, stands for NULL.
unfoldable pub latest_revision : ℕ → List RevisionRow → ℕ
latest_revision trace rows = max_of (λ r. r.id) (delete_where (λ r. not (r.trace_id == trace)) rows)

-- The two conditions `WHERE`.
unfoldable pub is_candidate : Text → List RevisionRow → TraceRow → Bool
is_candidate idle_before rows t =
    text_eq t.title_override []
    && text_eq t.title []
    && not (text_leb idle_before t.updated_at)
    && ltb t.generated_title_revision_id (latest_revision t.id rows)

-- `ORDER BY updated_at DESC,id DESC`
unfoldable pub newer : TraceRow → TraceRow → Bool
newer a b =
    if text_eq a.updated_at b.updated_at then leb b.id a.id else text_leb b.updated_at a.updated_at

unfoldable pub insert_trace : TraceRow → List TraceRow → List TraceRow
insert_trace t [] = t ∷ []
insert_trace t (x ∷ rows) =
    let rest = insert_trace t rows in if newer t x then t ∷ x ∷ rows else x ∷ rest

unfoldable pub sort_traces : List TraceRow → List TraceRow
sort_traces [] = []
sort_traces (t ∷ rows) = insert_trace t (sort_traces rows)

unfoldable pub offer : List RevisionRow → List TraceRow → List Candidate
offer rows [] = []
offer rows (t ∷ traces) =
    (record { trace_id = t.id; revision_id = latest_revision t.id rows }) ∷ offer rows traces

-- `TitleCandidates`
unfoldable pub title_candidates : Text → ℕ → Db → List Candidate
title_candidates idle_before limit db = offer db.revisions (
    take limit
      (sort_traces (delete_where (λ t. not (is_candidate idle_before db.revisions t)) db.traces)))

-- What one request to the model gives: a cleaned title, a `RequestError` with its status and the seconds to wait, or another error.
pub data Reply : Type 0 where
  title : Text → Reply
  request_error : ℕ → ℕ → Reply
  other_error : Reply

pub data WorkError : Type 0 where
  in_store : StoreError → WorkError
  in_request : ℕ → ℕ → WorkError
  in_client : WorkError

-- `Rejected`
unfoldable pub rejected : ℕ → Bool
rejected status = status == 400 || status == 413 || status == 422

pub record Outside : Type 0 where
  pub ask : ℕ → Text → ℕ → Reply
  pub source : ℕ → Db → Sql TitleSource
  pub valid_title : Text → Sql Text
  pub texts : Texts

-- The worker's state after some candidates.
pub record Batch : Type 0 where
  pub recorded : ℕ
  pub failure : Option WorkError
  pub accepted : Bool
  pub db : Db

module _ (out : Outside) where
  -- The loop of `Generate`, with the attempts that are left after this one.
  unfoldable pub attempts : ℕ → ℕ → Text → ℕ → Reply
  attempts zero trace text attempt = out.ask trace text attempt
  attempts (suc left) trace text attempt =
      let again = attempts left trace text (attempt + 1) in
      elim (out.ask trace text attempt) [
        | title t ↦ if text_eq t [] then again else title t
        | request_error status wait ↦ request_error status wait
        | other_error ↦ other_error
      ]

  -- `Generate`, with `unusableReplyAttempts` = 2.
  unfoldable pub generate : ℕ → Text → Reply
  generate trace text = attempts 1 trace text 1

  -- What `name` makes of the reply, with `accepted` before and after it.
  unfoldable pub settle : Bool → Reply → Result WorkError Text × Bool
  settle accepted (title t) = (ok t, true)
  settle accepted (request_error status wait) =
      (if accepted && rejected status then ok [] else err (in_request status wait), accepted)
  settle accepted other_error = (err in_client, accepted)

  -- `name`
  unfoldable pub name : Bool → ℕ → Db → Result WorkError Text × Bool
  name accepted trace db = elim (out.source trace db) [
    | err e ↦ (err (in_store e), accepted)
    | ok source ↦
        let text = prompt out.texts source in
        if text_eq text [] then (ok [], accepted) else settle accepted (generate trace text)
  ]

  -- `SetGeneratedTitle`
  unfoldable pub record_title : Candidate → Text → Db → Sql Db
  record_title c t db = do
    valid ← out.valid_title t
    set_generated_title c.trace_id c.revision_id valid db

  -- One round of the loop over the candidates.
  unfoldable pub name_candidate : Candidate → Batch → Batch
  name_candidate c b =
      let named = name b.accepted c.trace_id b.db in
      elim named.0 [
        | err e ↦ record b { failure = some e; accepted = named.1 }
        | ok t ↦ elim (record_title c t b.db) [
          | err e ↦ record b { failure = some (in_store e); accepted = named.1 }
          | ok db ↦ record b { recorded = b.recorded + 1; accepted = named.1; db = db }
        ]
      ]

  unfoldable pub name_candidates : List Candidate → Batch → Batch
  name_candidates [] b = b
  name_candidates (c ∷ candidates) b =
      let b' = name_candidate c b in
      elim b'.failure [ none ↦ name_candidates candidates b' | some e ↦ b' ]

  -- `RunOnce`
  unfoldable pub run_once : Text → Bool → Db → Batch
  run_once idle_before accepted db =
      name_candidates (title_candidates idle_before batch_size db)
        (record { recorded = 0; failure = none; accepted = accepted; db = db })

-- `requestErr.RetryAfter`
unfoldable pub retry_after : WorkError → ℕ
retry_after (in_store e) = 0
retry_after (in_request status wait) = wait
retry_after in_client = 0

-- One round of `Run`: how long it waits, and the backoff of the next round.
unfoldable pub next_round : ℕ → ℕ → Batch → ℕ × ℕ
next_round poll backoff b = elim b.failure [
  | some e ↦ (max backoff (retry_after e), min (backoff * 2) max_backoff)
  | none ↦ if ltb 0 b.recorded then (0, min_backoff) else (poll, backoff)
]

-- The backoff after these rounds.
unfoldable pub run_rounds : ℕ → List Batch → ℕ → ℕ
run_rounds poll [] backoff = backoff
run_rounds poll (b ∷ batches) backoff = run_rounds poll batches (next_round poll backoff b).1
