-- ===== src/Tests/Uploads.antt =====
-- An upload and a collection: answers of a server, a machine's files, and the theorems on them.
use traicr.Prelude.{◌≡◌, refl, ◌↔◌, true, false, none, some, [], ◌∷◌, ◌++◌, codes, text_eq, ok}
use traicr.Prelude.Keys.{contains, Distinct, nil, more}
use traicr.Domain.{ImportReport}
use traicr.Collector.{CollectorConfig}
use traicr.Collector.Upload.{Body, ProgressEvent, event, read_complete_report, validate_outcomes}
use traicr.Collector.Upload.Answer.{IsStream, read_complete_report_iff}
use traicr.Collector.Upload.Outcomes.{IsAnswered, validate_outcomes-IsAnswered}
use traicr.Collector.Upload.Checked.{descriptor_keys}
use traicr.Collector.Upload.Agreed.{run_import-validate_outcomes}
use traicr.Collector.Upload.Statuses.{HasKnownStatuses, is_normalization_status}
use traicr.Collector.Upload.Files.{Outside, responded, upload}
use traicr.Collector.Upload.Acknowledged.{Backed, upload-Backed}
use traicr.Tests.Archives.{reader, entries_one, manifest_one, trace_one, plain_hash}
use traicr.Tests.Fixtures.{
  program, manifest, sources, new_world, first_import, first_import_ok, no_report,
}

abbrev step_event : ProgressEvent
step_event = record {
  phase = codes "normalizing";
  completed = 1;
  total = 1;
  report = none;
  error = [];
}

abbrev last_event : ProgressEvent
last_event = record {
  phase = codes "complete";
  completed = 0;
  total = 0;
  report = some first_import.0;
  error = [];
}

abbrev body : Body
body = record { lines = event step_event ∷ event last_event ∷ []; broken = false }

read_complete_report_iff_example :
    (read_complete_report body ≡ ok first_import.0)
    ↔ (IsStream first_import.0 body.lines × (body.broken ≡ false))
read_complete_report_iff_example = read_complete_report_iff body first_import.0

statuses_known : HasKnownStatuses program
unfolding is_normalization_status text_eq
statuses_known d files = refl

one_trace : Distinct (descriptor_keys manifest.traces)
unfolding contains
one_trace = more refl nil

run_import-validate_outcomes_example : validate_outcomes first_import.0 manifest.traces ≡ ok tt
run_import-validate_outcomes_example =
    run_import-validate_outcomes program statuses_known manifest sources new_world first_import.1
      first_import.0 one_trace first_import_ok

first_import_accepted : validate_outcomes first_import.0 manifest.traces ≡ ok tt
first_import_accepted =
    run_import-validate_outcomes program statuses_known manifest sources new_world first_import.1
      first_import.0 one_trace first_import_ok

validate_outcomes-IsAnswered_example : IsAnswered manifest.traces first_import.0
validate_outcomes-IsAnswered_example =
    validate_outcomes-IsAnswered first_import.0 manifest.traces first_import_accepted

abbrev config : CollectorConfig
config = record {
  machine_id = codes "m";
  server_url = codes "http://h";
  token = codes "t";
  sources = [];
  state = (codes "old", record { digest = codes "d"; machine_id = codes "m" }) ∷ [];
}

abbrev report_one : ImportReport
report_one = record no_report {
  machine = manifest_one.source_machine;
  imported = 1;
  traces =
      (record {
        trace_id = 1;
        harness = trace_one.harness;
        native_trace_id = trace_one.native_trace_id;
        revision_digest = trace_one.revision_digest;
        status = codes "imported";
        warnings = [];
        error = [];
      })
      ∷ [];
}

abbrev outside : Outside
outside = record {
  parse_url = λ server. some (record {
    scheme = codes "http";
    host = codes "h";
    path = [];
    has_user = false;
    raw_query = [];
    fragment = [];
  });
  join_path = λ a b. a ++ b;
  print_url = λ u. u.path;
  hash = plain_hash;
  decode_manifest = λ t. some manifest_one;
  decode_descriptor = λ t. some trace_one;
  open_file = λ path. some (record { size = 160; read = reader; zipped = some entries_one });
  answer = λ url sent path. responded 200 (record {
    lines = event (record last_event { report = some report_one }) ∷ [];
    broken = false;
  });
  save = λ c. true;
}

upload-Backed_example :
    Backed outside config.state config.machine_id
      (codes "a.zip" ∷ [])
      (upload outside config (codes "a.zip" ∷ [])).0.saved.state
    × Backed outside config.state config.machine_id
        (codes "a.zip" ∷ [])
        (upload outside config (codes "a.zip" ∷ [])).0.config.state
upload-Backed_example = upload-Backed outside config (codes "a.zip" ∷ [])
