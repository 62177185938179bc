-- ===== src/Collector/Upload.antt =====
-- internal/collector/upload.go. Progress reports to the caller are output only and are left out, and so is a
-- context that is cancelled. The HTTP client and JSON decoding are parameters.

pub mod Checked
pub mod Agreed
pub mod Acknowledged
pub mod Answer
pub mod Files
pub mod Statuses
pub mod Outcomes
use traicr.Store.Import.{
  status_failed, status_unsupported, status_unsupported, status_partially_parsed, status_unchanged,
  status_updated, status_imported,
}
use traicr.Prelude.Keys.{lookup, contains, keys}
use traicr.Domain.{TraceOutcome, ImportReport, Descriptor}
use traicr.Archive.Error.{ArchiveError}
use traicr.Prelude.{
  ℕ, zero, suc, ◌+◌, ◌-◌, ◌*◌, ◌/◌, ◌%◌, ◌^◌, ◌≤◌, ◌<◌, min, max, ◌≡◌, refl, sym, ap, ◌∙◌, ◌≢◌, ◌↔◌,
  ◌⊎◌, inl, inr, Bool, true, false, not, ◌&&◌, ◌||◌, Option, none, some, List, [], ◌∷◌, ◌++◌, map,
  arith, ltb, leb, ◌==◌, if◌then◌else◌, ltb→lt, leb→le, ==_iff, Bool-cases, Option-cases, length,
  get_elem?, take, drop, slice, length-append, length-take, length-drop, take-append-drop,
  take_whole, length-ne-nil, Member, here, there, Member-append_left, Member-append_right, All,
  All-append, Text, codes, text_eq, text_eq_iff, text_eq_refl, text_eq-ne, text_leb, text_leb_refl,
  text_leb_trans, text_leb_total, text_leb_antisym, has_prefix, contains_byte, count_byte, Result,
  ok, err, ok-injective, Result-cases, bind-eq-ok, refuse_if, refuse_if-eq-ok, ◌>>=◌, ◌>>◌,
}
use traicr.Collector.{CollectionRevision, CollectorConfig, State, state_key}

pub data UploadError : Type 0 where
  not_logged_in bad_server_url cannot_open no_answer refused : UploadError
  not_valid : ArchiveError → UploadError
  malformed_progress after_complete not_one_report failed_without_error : UploadError
  import_failed unknown_phase : Text → UploadError
  unreadable_progress no_report other_machine unknown_revision repeated_trace : UploadError
  unknown_status outcomes_missing totals_differ not_saved : UploadError

abbrev pub Step : Type 0 → Type 0
Step A = Result UploadError A

-- domain.Progress, without the outcome that the upload does not read.
pub record ProgressEvent : Type 0 where
  pub phase : Text
  pub completed : ℕ
  pub total : ℕ
  pub report : Option ImportReport
  pub error : Text

-- A line of the answer: JSON of an event, or not.
pub data Line : Type 0 where
  malformed : Line
  event : ProgressEvent → Line

-- The body of an answer: its lines, and whether reading it failed after them.
pub record Body : Type 0 where
  pub lines : List Line
  pub broken : Bool

abbrev pub phase_validating : Text
phase_validating = codes "validating"

abbrev pub phase_normalizing : Text
phase_normalizing = codes "normalizing"

abbrev pub phase_complete : Text
phase_complete = codes "complete"

abbrev phase_failed : Text
phase_failed = codes "failed"

-- `case "validating", "normalizing"`
unfoldable pub read_progress : Option ImportReport → Step (Option ImportReport)
read_progress none = ok none
read_progress (some report) = err after_complete

-- `case "complete"`
unfoldable pub read_complete : Option ImportReport → ProgressEvent → Step (Option ImportReport)
read_complete (some report) e = err not_one_report
read_complete none e = elim e.report [ none ↦ err not_one_report | some r ↦ ok (some r) ]

-- `case "failed"`
unfoldable pub read_failed : Option ImportReport → ProgressEvent → Step (Option ImportReport)
read_failed (some report) e = err after_complete
read_failed none e =
    if text_eq e.error [] then err failed_without_error else err (import_failed e.error)

-- The `switch` on the phase, with the report so far.
unfoldable pub read_line : Option ImportReport → Line → Step (Option ImportReport)
read_line report malformed = err malformed_progress
read_line report (event e) =
    if text_eq e.phase phase_validating || text_eq e.phase phase_normalizing
    then read_progress report
    else if text_eq e.phase phase_complete
    then read_complete report e
    else if text_eq e.phase phase_failed
    then read_failed report e
    else err (unknown_phase e.phase)

unfoldable pub read_lines : List Line → Option ImportReport → Step (Option ImportReport)
read_lines [] report = ok report
read_lines (line ∷ lines) report = do report' ← read_line report line; read_lines lines report'

unfoldable pub finish_report : Option ImportReport → Step ImportReport
finish_report none = err no_report
finish_report (some report) = ok report

-- `readCompleteReport`
unfoldable pub read_complete_report : Body → Step ImportReport
read_complete_report body = do
  report ← read_lines body.lines none
  refuse_if body.broken unreadable_progress
  finish_report report

-- `expected`
unfoldable pub expected_digests : List Descriptor → List (Text × Text) → List (Text × Text)
expected_digests [] expected = expected
expected_digests (d ∷ ds) expected =
    expected_digests ds ((state_key d.harness d.native_trace_id, d.revision_digest) ∷ expected)

-- `len` of a map.
unfoldable pub map_size : {A : Type 0} → List (Text × A) → ℕ
map_size [] = 0
map_size ((k, v) ∷ m) = (if contains k (keys m) then 0 else 1) + map_size m

abbrev pub Tally : Type 0
Tally = List (Text × ℕ)

-- `counts[status]`
unfoldable pub tally_at : Text → Tally → ℕ
tally_at status counts = elim (lookup status counts) [ none ↦ 0 | some n ↦ n ]

-- `counts[status]++`
unfoldable pub tally : Text → Tally → Tally
tally status counts = (status, tally_at status counts + 1) ∷ counts

-- The cases of the `switch` on the status of an outcome.
unfoldable pub is_outcome_status : Text → Bool
is_outcome_status status =
    text_eq status status_imported
    || text_eq status status_updated
    || text_eq status status_unchanged
    || text_eq status status_partially_parsed
    || text_eq status status_unsupported
    || text_eq status status_failed

unfoldable pub has_digest : List (Text × Text) → Text → Text → Bool
has_digest expected key digest = elim (lookup key expected) [
  | none ↦ false
  | some d ↦ text_eq d digest
]

unfoldable pub outcome_key : TraceOutcome → Text
outcome_key o = state_key o.harness o.native_trace_id

-- The loop over the outcomes, with `seen` and `counts`.
unfoldable pub check_outcomes :
    List (Text × Text) → List TraceOutcome → List Text → Tally → Step (List Text × Tally)
check_outcomes expected [] seen counts = ok (seen, counts)
check_outcomes expected (o ∷ os) seen counts = do
  refuse_if (not (has_digest expected (outcome_key o) o.revision_digest)) unknown_revision
  refuse_if (contains (outcome_key o) seen) repeated_trace
  refuse_if (not (is_outcome_status o.status)) unknown_status
  check_outcomes expected os (outcome_key o ∷ seen) (tally o.status counts)

unfoldable pub totals_match : Tally → ImportReport → Bool
totals_match counts r =
    tally_at status_imported counts == r.imported
    && tally_at status_updated counts == r.updated
    && tally_at status_unchanged counts == r.unchanged
    && tally_at status_partially_parsed counts == r.partial
    && tally_at status_unsupported counts == r.unsupported
    && tally_at status_failed counts == r.failed

-- `validateOutcomes`
unfoldable pub validate_outcomes : ImportReport → List Descriptor → Step (Unit {0})
validate_outcomes report descriptors = do
  let expected = expected_digests descriptors []
  (seen, counts) ← check_outcomes expected report.traces [] []
  refuse_if (not (length seen == map_size expected)) outcomes_missing
  refuse_if (not (totals_match counts report)) totals_differ

-- The statuses that `acknowledge` takes for done.
unfoldable pub is_acknowledged_status : Text → Bool
is_acknowledged_status status =
    text_eq status status_imported
    || text_eq status status_updated
    || text_eq status status_unchanged

-- `acknowledge`, on the map of the machine's configuration.
unfoldable pub acknowledge : Text → List TraceOutcome → State → State
acknowledge machine [] state = state
acknowledge machine (o ∷ os) state = acknowledge machine os (
    if is_acknowledged_status o.status
    then (outcome_key o, record { digest = o.revision_digest; machine_id = machine }) ∷ state
    else state)
