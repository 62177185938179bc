-- ===== src/Collector/Upload/Statuses.antt =====
-- The statuses that an import reports are those that the collector knows.
use traicr.Store.Events.{validate_events}
use traicr.Prelude.{
  ℕ, ◌≡◌, refl, sym, ap, inl, inr, Bool, true, false, ◌||◌, Option, none, some, List, [], ◌∷◌, ◌++◌,
  arith, if◌then◌else◌, Bool-cases, All, All-append, Text, codes, text_eq, text_eq_iff, ok,
  ok-injective, bind-eq-ok,
}
use mathlib.Core.Path.{subst}
use traicr.Domain.{Descriptor, Manifest, TraceOutcome, ImportReport, Normalization}
use traicr.Store.Db.{RevisionRow}
use traicr.Store.Revisions.{StoredObject}
use traicr.Store.Import.{
  normalization_successful, status_normalized, status_failed, normalize_result, Files, Program,
  World, with_error, with_status, fail, start_outcome, renormalize, after_backfill, import_known,
  import_new, new_status, import_either, import_files, import_trace, status_updated,
  status_unchanged, status_partially_parsed, status_unsupported,
}
use traicr.Store.Import.Loop.{
  import_traces, begin_import, start_report, add_outcome, run_import, count_outcome,
}
use traicr.Store.Import.Loop.Outcomes.{caught-ok}
use traicr.Collector.Upload.{is_outcome_status}

-- The statuses of internal/normalize; none stands for normalized.
unfoldable pub is_normalization_status : Text → Bool
is_normalization_status s =
    text_eq s []
    || text_eq s status_normalized
    || text_eq s status_partially_parsed
    || text_eq s status_unsupported
    || text_eq s status_failed

abbrev pub HasKnownStatuses : Program → Type 0
HasKnownStatuses p =
    (d : Descriptor) (files : Files) → is_normalization_status (p.normalize d files).0.status ≡ true

abbrev Known : TraceOutcome × World → Type 0
Known r = is_outcome_status r.0.status ≡ true

is_final : Text → Bool
is_final s =
    text_eq s status_normalized
    || text_eq s status_partially_parsed
    || text_eq s status_unsupported
    || text_eq s status_failed

by_status : (P : Text → Type 0) (s c : Text) → P c → text_eq s c ≡ true → P s
by_status P s c h e = subst P (sym ((text_eq_iff s c).0 e)) h

failed_known : is_outcome_status status_failed ≡ true
unfolding is_outcome_status text_eq
failed_known = refl

known_or_normalized :
    (n : Normalization)
    → is_normalization_status n.status ≡ true
    → is_final (with_status n).status ≡ true
unfolding is_final is_normalization_status with_status
known_or_normalized n h = elim (Bool-cases (text_eq n.status [])) [
  | inl e ↦ rw e (unfold text_eq in refl)
  | inr e ↦ rw e (rw e at h)
]

error_final :
    (n : Normalization) (e : Option Text)
    → is_normalization_status n.status ≡ true
    → is_final (with_status (with_error n e)).status ≡ true
unfolding with_error
error_final n none h = known_or_normalized n h
error_final n (some m) h = known_or_normalized _ (unfold is_normalization_status text_eq in refl)

checked_final :
    (n : Normalization)
    → is_final n.status ≡ true
    → is_final
        (if validate_events n.events then n else record n {
          status = status_failed;
          events = [];
          warnings =
              n.warnings
              ++ ((record {
                code = codes "invalid_event";
                message = codes "normalized event key is required";
              })
                  ∷ []);
        }).status
      ≡ true
unfolding is_final
checked_final n h = elim (Bool-cases (validate_events n.events)) [
  | inl e ↦ rw e h
  | inr e ↦ rw e (unfold text_eq in refl)
]

normalize_result_final :
    (p : Program) (d : Descriptor) (files : Files)
    → HasKnownStatuses p
    → is_final (normalize_result p d files).0.status ≡ true
unfolding normalize_result is_final is_normalization_status with_error with_status
normalize_result_final p d files h =
    checked_final (with_status (with_error (p.normalize d files).0 (p.normalize d files).1))
      (error_final (p.normalize d files).0 (p.normalize d files).1 (h d files))

final_cases :
    (s : Text)
    → is_final s ≡ true
    → (P : Text → Type 0) → P status_normalized
    → P status_partially_parsed
    → P status_unsupported
    → P status_failed
    → P s
unfolding is_final
final_cases s h P n q u f = elim (Bool-cases (text_eq s status_normalized)) [
  | inl e ↦ by_status P s status_normalized n e
  | inr a ↦ elim (Bool-cases (text_eq s status_partially_parsed)) [
    | inl e ↦ by_status P s status_partially_parsed q e
    | inr b ↦ elim (Bool-cases (text_eq s status_unsupported)) [
      | inl e ↦ by_status P s status_unsupported u e
      | inr c ↦ by_status P s status_failed f (rw (a, b, c) at h)
    ]
  ]
]

renewed_known :
    (s : Text)
    → is_final s ≡ true
    → is_outcome_status (if normalization_successful s then status_updated else s) ≡ true
unfolding is_outcome_status text_eq normalization_successful
renewed_known s h =
    final_cases s h
      (λ s. is_outcome_status (if normalization_successful s then status_updated else s) ≡ true)
      refl refl refl refl

new_known :
    (p : Program) (s : Text) (b : Bool)
    → is_final s ≡ true
    → is_outcome_status (new_status p s b) ≡ true
unfolding is_outcome_status text_eq new_status
new_known p s true h =
    final_cases s h (λ s. is_outcome_status (new_status p s true) ≡ true) refl refl refl refl
new_known p s false h =
    final_cases s h (λ s. is_outcome_status (new_status p s false) ≡ true) refl refl refl refl

bad_known :
    (s : Text)
    → (text_eq s status_failed || text_eq s status_unsupported) ≡ true
    → is_outcome_status s ≡ true
unfolding is_outcome_status
bad_known s h = ground arith

module _ (p : Program) (good : HasKnownStatuses p) (m : Manifest) (d : Descriptor) where
  renormalize-Known :
      (files : Files) (trace revision : ℕ) (o : TraceOutcome) (w : World) {r : TraceOutcome × World}
      → renormalize p m d files trace revision o w ≡ ok r
      → Known r
  unfolding renormalize fail
  renormalize-Known files trace revision o w {r} h =
      let n = (normalize_result p d files).0 in
      let final = normalize_result_final p d files good in
      elim (Bool-cases (text_eq n.status status_failed || text_eq n.status status_unsupported)) [
        | inl e ↦ subst Known (ok-injective (rw e at h)) (bad_known n.status e)
        | inr e ↦
            caught-ok Known _ _ _ (λ e. failed_known)
              (λ titles c.
                caught-ok Known _ _ _ (λ e. failed_known)
                  (λ replaced c k. subst Known (ok-injective k) (renewed_known n.status final)))
              (rw e at h)
      ]

  import_known-Known :
      (files : Files) (revision : RevisionRow) (o : TraceOutcome) (w : World)
      {r : TraceOutcome × World}
      → import_known p m d files revision o w ≡ ok r
      → Known r
  unfolding import_known after_backfill fail
  import_known-Known files revision o w h =
      caught-ok Known _ _ _ (λ e. failed_known)
        (λ filled c k. elim (Bool-cases (normalization_successful revision.status)) [
          | inl e ↦ subst Known (ok-injective (rw e at k)) (filled_known filled.0)
          | inr e ↦ renormalize-Known files revision.trace_id revision.id _ _ (rw e at k)
        ])
        h
    where
      filled_known :
          (b : Bool) → is_outcome_status (if b then status_updated else status_unchanged) ≡ true
      filled_known true = unfold is_outcome_status text_eq in refl
      filled_known false = unfold is_outcome_status text_eq in refl

  import_either-Known :
      (files : Files) (objects : List StoredObject) (o : TraceOutcome) (w : World)
      (known : Option RevisionRow) {r : TraceOutcome × World}
      → import_either p m d files objects o w known ≡ ok r
      → Known r
  unfolding import_either import_new fail
  import_either-Known files objects o w none h =
      caught-ok Known _ _ _ (λ e. failed_known)
        (λ committed c k.
          subst Known (ok-injective k)
            (new_known p _ committed.is_new (normalize_result_final p d files good)))
        h
  import_either-Known files objects o w (some revision) h = import_known-Known files revision o w h

  import_files-Known :
      (w : World) (files : Option Files) {r : TraceOutcome × World}
      → import_files p m d w files ≡ ok r
      → Known r
  unfolding import_files fail
  import_files-Known w none h = subst Known (ok-injective h) failed_known
  import_files-Known w (some files) h =
      caught-ok Known _ _ _ (λ e. failed_known)
        (λ objects c k. import_either-Known files objects (start_outcome d) _ _ k) h

  import_trace-Known :
      (sources : Text → Option Files) (w : World) {r : TraceOutcome × World}
      → import_trace p m sources d w ≡ ok r
      → Known r
  unfolding import_trace
  import_trace-Known sources w h = import_files-Known w (sources d.path) h

add_outcome-traces :
    (r : ImportReport) (o : TraceOutcome) → (add_outcome r o).traces ≡ r.traces ++ (o ∷ [])
unfolding add_outcome count_outcome
add_outcome-traces r o = ground arith

abbrev AllKnown : List TraceOutcome → Type 0
AllKnown os = All (λ o. is_outcome_status o.status ≡ true) os

import_traces_known :
    (p : Program) (good : HasKnownStatuses p) (m : Manifest) (sources : Text → Option Files)
    (ds : List Descriptor) (r : ImportReport) (w : World) {r' : ImportReport} {w' : World}
    → AllKnown r.traces
    → import_traces p m sources ds r w ≡ ok (r', w')
    → AllKnown r'.traces
unfolding import_traces
import_traces_known p good m sources [] r w {r'} {w'} c h =
    subst (λ x. AllKnown x.traces) (ap (λ x. x.0) (ok-injective h)) c
import_traces_known p good m sources (d ∷ ds) r w {r'} {w'} c h =
    let ((o, w1), one, rest) = bind-eq-ok (import_trace p m sources d w) _ h in
    import_traces_known p good m sources ds (add_outcome r o) w1
      (subst AllKnown (sym (add_outcome-traces r o))
        (All-append _ r.traces (o ∷ []) c (import_trace-Known p good m d sources w one, tt)))
      rest

-- Where the normalizers give their own statuses, every outcome of an import has a status that the collector knows.
pub run_import_known :
    (p : Program) (good : HasKnownStatuses p) (m : Manifest) (sources : Text → Option Files)
    (w w' : World) (r : ImportReport)
    → run_import p m sources w ≡ ok (r, w')
    → All (λ o. is_outcome_status o.status ≡ true) r.traces
unfolding run_import begin_import start_report
run_import_known p good m sources w w' r h =
    let begun = begin_import (start_report p m) w in
    let ((report, w1), looped, last) =
      bind-eq-ok (import_traces p m sources m.traces begun.0 begun.1) _ h in
    subst (λ x. AllKnown x.0.traces) (ok-injective last)
      (import_traces_known p good m sources m.traces begun.0 begun.1 tt looped)
