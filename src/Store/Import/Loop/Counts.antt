-- ===== src/Store/Import/Loop/Counts.antt =====
-- The report of an import: its counts are those of its outcomes, one for each trace of the manifest.
use traicr.Store.Import.Loop.Outcomes.{
  IsCounted, count_status, import_trace-Names, name_of, names_of, outcome_name, outcome_names,
}
use traicr.Prelude.{
  append_nil, append_assoc, ◌+◌, ◌≡◌, refl, sym, ap, ◌∙◌, true, false, Option, List, [], ◌∷◌, ◌++◌,
  arith, if◌then◌else◌, length-append, Text, text_eq, text_eq_iff, ok, ok-injective, bind-eq-ok,
}
use mathlib.Core.Path.{subst}
use traicr.Domain.{Descriptor, Manifest, TraceOutcome, ImportReport}
use traicr.Store.Import.{
  Files, Program, World, import_trace, status_imported, status_updated, status_unchanged,
  status_partially_parsed, status_unsupported,
}
use traicr.Store.Import.Loop.{
  count_outcome, add_outcome, begin_import, start_report, import_traces, finish_import, run_import,
}

-- What names a trace and its revision.
count_status_append :
    (s : Text) (o : TraceOutcome) (os : List TraceOutcome)
    → count_status s (os ++ (o ∷ [])) ≡ count_status s os + (if text_eq o.status s then 1 else 0)
unfolding count_status
count_status_append s o [] = omega arith
count_status_append s o (x ∷ os) = rw (count_status_append s o os) (omega arith)

exclusive : (x a b : Text) → text_eq a b ≡ false → text_eq x a ≡ true → text_eq x b ≡ false
exclusive x a b d h = subst (λ y. text_eq y b ≡ false) (sym ((text_eq_iff x a).0 h)) d

statuses_differ :
    (text_eq status_imported status_updated ≡ false)
    × (text_eq status_imported status_unchanged ≡ false)
    × (text_eq status_imported status_partially_parsed ≡ false)
    × (text_eq status_imported status_unsupported ≡ false)
    × (text_eq status_updated status_unchanged ≡ false)
    × (text_eq status_updated status_partially_parsed ≡ false)
    × (text_eq status_updated status_unsupported ≡ false)
    × (text_eq status_unchanged status_partially_parsed ≡ false)
    × (text_eq status_unchanged status_unsupported ≡ false)
    × (text_eq status_partially_parsed status_unsupported ≡ false)
unfolding text_eq
statuses_differ = (refl, refl, refl, refl, refl, refl, refl, refl, refl, refl)

add_outcome-IsCounted :
    (r : ImportReport) (o : TraceOutcome) → IsCounted r → IsCounted (add_outcome r o)
unfolding add_outcome count_outcome
add_outcome-IsCounted r o c =
    let alone = exclusive o.status in
    let (
      differ_iu, differ_ik, differ_ip, differ_is, differ_uk, differ_up, differ_us, differ_kp,
      differ_ks, differ_ps,
    ) =
      statuses_differ in
    record {
      imported = ground (arith, count_status_append status_imported o r.traces, c.imported);
      updated = ground (
        arith,
        count_status_append status_updated o r.traces,
        c.updated,
        alone status_imported status_updated differ_iu,
      );
      unchanged = ground (
        arith,
        count_status_append status_unchanged o r.traces,
        c.unchanged,
        alone status_imported status_unchanged differ_ik,
        alone status_updated status_unchanged differ_uk,
      );
      partial = ground (
        arith,
        count_status_append status_partially_parsed o r.traces,
        c.partial,
        alone status_imported status_partially_parsed differ_ip,
        alone status_updated status_partially_parsed differ_up,
        alone status_unchanged status_partially_parsed differ_kp,
      );
      unsupported = ground (
        arith,
        count_status_append status_unsupported o r.traces,
        c.unsupported,
        alone status_imported status_unsupported differ_is,
        alone status_updated status_unsupported differ_us,
        alone status_unchanged status_unsupported differ_ks,
        alone status_partially_parsed status_unsupported differ_ps,
      );
      total = ground (arith, length-append r.traces (o ∷ []), c.total);
    }

outcome_names_append :
    (os : List TraceOutcome) (o : TraceOutcome)
    → outcome_names (os ++ (o ∷ [])) ≡ outcome_names os ++ (outcome_name o ∷ [])
unfolding outcome_names
outcome_names_append [] o = refl
outcome_names_append (x ∷ os) o = rw (outcome_names_append os o) refl

add_outcome-traces :
    (r : ImportReport) (o : TraceOutcome) → (add_outcome r o).traces ≡ r.traces ++ (o ∷ [])
unfolding add_outcome count_outcome
add_outcome-traces r o = ground arith

import_traces-IsCounted :
    (p : Program) (m : Manifest) (sources : Text → Option Files) (ds : List Descriptor)
    (r : ImportReport) (w : World) {r' : ImportReport} {w' : World}
    → IsCounted r
    → import_traces p m sources ds r w ≡ ok (r', w')
    → IsCounted r' × (outcome_names r'.traces ≡ outcome_names r.traces ++ names_of ds)
unfolding import_traces names_of
import_traces-IsCounted p m sources [] r w {r'} {w'} c h =
    let same : r ≡ r' = ap (λ x. x.0) (ok-injective h) in
    (
      subst IsCounted same c,
      ap (λ x. outcome_names x.traces) (sym same) ∙ sym (append_nil (outcome_names r.traces)),
    )
import_traces-IsCounted p m sources (d ∷ ds) r w {r'} {w'} c h =
    let ((o, w1), one, rest) = bind-eq-ok (import_trace p m sources d w) _ h in
    let (c', names) =
      import_traces-IsCounted p m sources ds (add_outcome r o) w1 (add_outcome-IsCounted r o c)
        rest in
    let first : outcome_names (add_outcome r o).traces
        ≡ outcome_names r.traces ++ (name_of d ∷ []) =
      ap outcome_names (add_outcome-traces r o)
      ∙ outcome_names_append r.traces o
      ∙ ap (λ x. outcome_names r.traces ++ (x ∷ [])) (import_trace-Names p m d sources w one) in
    (
      c',
      names
          ∙ ap (λ x. x ++ names_of ds) first
          ∙ append_assoc (outcome_names r.traces) (name_of d ∷ []) (names_of ds),
    )

begin_import-IsCounted :
    (p : Program) (m : Manifest) (w : World) → IsCounted (begin_import (start_report p m) w).0
unfolding begin_import start_report count_status
begin_import-IsCounted p m w = record {
  imported = refl;
  updated = refl;
  unchanged = refl;
  partial = refl;
  unsupported = refl;
  total = refl;
}

complete-IsCounted : (r : ImportReport) → IsCounted r → IsCounted (record r { complete = true })
complete-IsCounted r c = record {
  imported = c.imported;
  updated = c.updated;
  unchanged = c.unchanged;
  partial = c.partial;
  unsupported = c.unsupported;
  total = c.total;
}

finish_running : (r : ImportReport) (w : World) → (finish_import r w).running_import ≡ 0
unfolding finish_import
finish_running r w = refl

start_names :
    (p : Program) (m : Manifest) (w : World)
    → outcome_names (begin_import (start_report p m) w).0.traces ≡ []
unfolding begin_import start_report outcome_names
start_names p m w = refl

-- An import that returns has one outcome for each trace of the manifest, in order and under its
-- name; each count of its report is the number of outcomes with that status, and they add up to
-- the number of traces; the report is marked complete, and no import is running afterwards.
pub run_import-IsCounted :
    (p : Program) (m : Manifest) (sources : Text → Option Files) (w w' : World) (r : ImportReport)
    → run_import p m sources w ≡ ok (r, w')
    → IsCounted r
      × (outcome_names r.traces ≡ names_of m.traces)
      × (r.complete ≡ true)
      × (w'.running_import ≡ 0)
unfolding run_import
run_import-IsCounted p m sources w w' r h =
    let begun = begin_import (start_report p m) w in
    let ((report, w1), looped, last) =
      bind-eq-ok (import_traces p m sources m.traces begun.0 begun.1) _ h in
    let (c, names) =
      import_traces-IsCounted p m sources m.traces begun.0 begun.1 (begin_import-IsCounted p m w)
        looped in
    let named : outcome_names report.traces ≡ names_of m.traces =
      names ∙ ap (λ x. x ++ names_of m.traces) (start_names p m w) in
    let done : ImportReport = record report { complete = true } in
    let result : IsCounted done
        × (outcome_names done.traces ≡ names_of m.traces)
        × (done.complete ≡ true)
        × ((finish_import done w1).running_import ≡ 0) =
      (complete-IsCounted report c, named, refl, finish_running done w1) in
    subst
      (λ x.
        IsCounted x.0
        × (outcome_names x.0.traces ≡ names_of m.traces)
        × (x.0.complete ≡ true)
        × (x.1.running_import ≡ 0))
      (ok-injective last) result
