-- ===== src/Collector/Upload/Answer.antt =====
-- The answers that `readCompleteReport` takes.
use mathlib.Core.Path.{subst}
use traicr.Domain.{ImportReport}
use traicr.Prelude.{
  ◌≡◌, refl, sym, ap, ◌∙◌, ◌↔◌, ◌⊎◌, inl, inr, true, false, ◌||◌, Option, none, some, List, [], ◌∷◌,
  arith, Bool-cases, Option-cases, Text, text_eq, text_eq_iff, ok, ok-injective, bind-eq-ok,
  refuse_if, refuse_if-eq-ok,
}
use traicr.Collector.Upload.{
  unreadable_progress, ProgressEvent, Line, Body, event, malformed, phase_validating,
  phase_normalizing, phase_complete, read_progress, read_complete, read_failed, read_line,
  read_lines, finish_report, read_complete_report,
}

-- The last line is the one complete event, with a report; all before are progress events.
pub data IsStream (r : ImportReport) : List Line → Type 0 where
  last :
      (e : ProgressEvent)
      → text_eq e.phase phase_complete ≡ true
      → e.report ≡ some r
      → IsStream r (event e ∷ [])
  progress :
      (e : ProgressEvent) {lines : List Line}
      → (text_eq e.phase phase_validating || text_eq e.phase phase_normalizing) ≡ true
      → IsStream r lines
      → IsStream r (event e ∷ lines)

phases_differ :
    (a : Text)
    → text_eq a phase_complete ≡ true
    → (text_eq a phase_validating || text_eq a phase_normalizing) ≡ false
unfolding text_eq
phases_differ a h =
    subst (λ x. (text_eq x phase_validating || text_eq x phase_normalizing) ≡ false)
      (sym ((text_eq_iff a phase_complete).0 h)) refl

-- After a report every further line is refused.
after_report :
    (lines : List Line) (r r' : ImportReport)
    → read_lines lines (some r) ≡ ok (some r')
    → (lines ≡ []) × (r ≡ r')
unfolding read_lines read_line read_progress read_complete read_failed
after_report [] r r' h = ground arith
after_report (malformed ∷ lines) r r' h = ground arith
after_report (event e ∷ lines) r r' h =
    let (next, read, rest) = bind-eq-ok (read_line (some r) (event e)) (read_lines lines) h in
    absurd (ground arith)

IsStream-read_lines :
    (r : ImportReport) (lines : List Line) → IsStream r lines → read_lines lines none ≡ ok (some r)
unfolding read_lines read_line read_progress read_complete
IsStream-read_lines r lines (last e p q) = let d = phases_differ e.phase p in rw (d, p, q) refl
IsStream-read_lines r lines (progress e p s) = rw p (IsStream-read_lines r _ s)

-- Before the report an event is progress, or it is complete and has the report.
read_line_cases :
    (e : ProgressEvent) (next : Option ImportReport)
    → read_line none (event e) ≡ ok next
    → (((text_eq e.phase phase_validating || text_eq e.phase phase_normalizing) ≡ true)
        × (next ≡ none))
      ⊎ ((text_eq e.phase phase_complete ≡ true)
          × (r : ImportReport) × (e.report ≡ some r)
          × (next ≡ some r))
unfolding read_line read_progress read_complete read_failed
read_line_cases e next h =
    elim (Bool-cases (text_eq e.phase phase_validating || text_eq e.phase phase_normalizing)) [
      | inl p ↦ inl (p, sym (ok-injective (rw p at h)))
      | inr p ↦ elim (Bool-cases (text_eq e.phase phase_complete)) [
        | inl c ↦ elim (Option-cases e.report) [
          | inl missing ↦ absurd (ground arith)
          | inr (r, found) ↦ inr (c, r, found, ground arith)
        ]
        | inr c ↦ absurd (ground arith)
      ]
    ]

read_lines-IsStream :
    (lines : List Line) (r : ImportReport) → read_lines lines none ≡ ok (some r) → IsStream r lines
unfolding read_lines
read_lines-IsStream [] r h = absurd (ground arith)
read_lines-IsStream (malformed ∷ lines) r h =
    let (next, read, rest) = bind-eq-ok (read_line none malformed) (read_lines lines) h in
    absurd (unfold read_line in (ground arith))
read_lines-IsStream (event e ∷ lines) r h =
    let (next, read, rest) = bind-eq-ok (read_line none (event e)) (read_lines lines) h in
    elim (read_line_cases e next read) [
      | inl (p, same) ↦
          progress e p
            (read_lines-IsStream lines r (subst (λ x. read_lines lines x ≡ ok (some r)) same rest))
      | inr (c, found, reported, same) ↦
          let (ended, equal) =
            after_report lines found r (subst (λ x. read_lines lines x ≡ ok (some r)) same rest) in
          subst (λ x. IsStream r (event e ∷ x)) (sym ended) (last e c (reported ∙ ap some equal))
    ]

-- An answer gives a report exactly when it was read to its end and consists of progress events
-- and, as its one complete event and its last line, the event with that report; every other answer is an error.
pub read_complete_report_iff :
    (body : Body) (r : ImportReport)
    → (read_complete_report body ≡ ok r) ↔ (IsStream r body.lines × (body.broken ≡ false))
unfolding read_complete_report finish_report
read_complete_report_iff body r = (
  λ h.
      let (report, read, h1) = bind-eq-ok (read_lines body.lines none) _ h in
      let (_, whole, h2) = bind-eq-ok (refuse_if body.broken unreadable_progress) _ h1 in
      let found : report ≡ some r = ground arith in
      (
        read_lines-IsStream body.lines r (read ∙ ap ok found),
        refuse_if-eq-ok body.broken unreadable_progress whole,
      ),
  λ s. rw (IsStream-read_lines r body.lines s.0, s.1) refl,
)
