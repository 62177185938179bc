-- ===== src/Collector/Upload/Files.antt =====
-- `Upload`, `uploadOne` and `importURL` of internal/collector/upload.go, and `Endpoint` of
-- internal/client/client.go. The URL parser, the file system and the HTTP client are parameters.
use traicr.Prelude.{
  ℕ, Bool, false, not, ◌&&◌, ◌||◌, Option, none, some, List, [], ◌∷◌, ◌++◌, ltb, leb, if◌then◌else◌,
  length, Text, codes, text_eq, Result, ok, err, ◌>>=◌,
}
use traicr.Domain.{Descriptor, Manifest, ImportReport}
use traicr.Archive.Error.{ArchiveError}
use traicr.Archive.Directory.{Reader}
use traicr.Archive.Validate.{ZipFile, validate, default_limits}
use traicr.Collector.{CollectorConfig}
use traicr.Collector.Upload.{
  UploadError, Step, Body, read_complete_report, validate_outcomes, acknowledge, not_logged_in,
  bad_server_url, cannot_open, no_answer, refused, not_valid, other_machine, not_saved,
}

-- What `url.Parse` makes of a server's URL.
pub record Url : Type 0 where
  pub scheme : Text
  pub host : Text
  pub path : Text
  pub has_user : Bool
  pub raw_query : Text
  pub fragment : Text

-- An opened file: its size, its bytes, and what `zip.NewReader` makes of it.
pub record LocalFile : Type 0 where
  pub size : ℕ
  pub read : Reader
  pub zipped : Option (List ZipFile)

-- What `client.Do` gives.
pub data Answer : Type 0 where
  no_response : Answer
  responded : ℕ → Body → Answer

-- `answer n file` is the server's answer to a file that is sent after n reports.
pub record Outside : Type 0 where
  pub parse_url : Text → Option Url
  pub join_path : Text → Text → Text
  pub print_url : Url → Text
  pub hash : Text → Text
  pub decode_manifest : Text → Option Manifest
  pub decode_descriptor : Text → Option Descriptor
  pub open_file : Text → Option LocalFile
  pub answer : Text → ℕ → Text → Answer
  pub save : CollectorConfig → Bool

-- The state of `Upload`: the configuration in memory, the one on disk, and the reports so far.
pub record Session : Type 0 where
  pub config : CollectorConfig
  pub saved : CollectorConfig
  pub reports : List ImportReport

-- `Endpoint`
unfoldable pub endpoint : Outside → Text → Text → Step Text
endpoint out server api_path = elim (out.parse_url server) [
  | none ↦ err bad_server_url
  | some url ↦
      if (not (text_eq url.scheme (codes "http")) && not (text_eq url.scheme (codes "https")))
        || text_eq url.host []
        || url.has_user
        || not (text_eq url.raw_query [])
        || not (text_eq url.fragment [])
      then err bad_server_url
      else ok (out.print_url (record url { path = out.join_path url.path api_path }))
]

-- `importURL`
unfoldable pub import_url : Outside → Text → Step Text
import_url out server = endpoint out server (codes "/api/v1/imports")

unfoldable pub validated : Outside → LocalFile → Result ArchiveError Manifest
validated out file =
    validate out.hash out.decode_manifest out.decode_descriptor (λ poll. false) file.read
      file.zipped file.size default_limits

unfoldable pub or_not_valid : Result ArchiveError Manifest → Step Manifest
or_not_valid (err e) = err (not_valid e)
or_not_valid (ok m) = ok m

unfoldable pub or_cannot_open : Option LocalFile → Step LocalFile
or_cannot_open none = err cannot_open
or_cannot_open (some file) = ok file

unfoldable pub body_of : Answer → Step Body
body_of no_response = err no_answer
body_of (responded status body) = if ltb status 200 || leb 300 status then err refused else ok body

-- `uploadOne`
unfoldable pub upload_one : Outside → Text → ℕ → Text → Step (ImportReport × Manifest)
upload_one out url sent path = do
  file ← or_cannot_open (out.open_file path)
  manifest ← or_not_valid (validated out file)
  body ← body_of (out.answer url sent path)
  report ← read_complete_report body
  ok (report, manifest)

unfoldable pub acknowledged : CollectorConfig → ImportReport → CollectorConfig
acknowledged config report = record config {
  state = acknowledge config.machine_id report.traces config.state;
}

-- The end of a round: the report is kept, and acknowledged if the archive is this machine's.
unfoldable pub keep_report :
    Outside → Session → ImportReport → Manifest → Session × Option UploadError
keep_report out s report manifest =
    let config = acknowledged s.config report in
    if not (text_eq manifest.source_machine.id s.config.machine_id)
    then (record s { reports = s.reports ++ (report ∷ []) }, none)
    else if out.save config
    then (record { config = config; saved = config; reports = s.reports ++ (report ∷ []) }, none)
    else (record s { config = config }, some not_saved)

unfoldable pub take_report :
    Outside → Session → ImportReport → Manifest → Session × Option UploadError
take_report out s report manifest =
    if not (text_eq report.machine.id manifest.source_machine.id)
    then (s, some other_machine)
    else elim (validate_outcomes report manifest.traces) [
      | err e ↦ (s, some e)
      | ok _ ↦ keep_report out s report manifest
    ]

-- One round of the loop over the files.
unfoldable pub upload_file : Outside → Text → Text → Session → Session × Option UploadError
upload_file out url path s = elim (upload_one out url (length s.reports) path) [
  | err e ↦ (s, some e)
  | ok answered ↦ take_report out s answered.0 answered.1
]

unfoldable pub upload_files : Outside → Text → List Text → Session → Session × Option UploadError
upload_files out url [] s = (s, none)
upload_files out url (path ∷ paths) s =
    let round = upload_file out url path s in
    elim round.1 [ none ↦ upload_files out url paths round.0 | some e ↦ (round.0, some e) ]

-- `Upload`
unfoldable pub upload : Outside → CollectorConfig → List Text → Session × Option UploadError
upload out config paths =
    let start : Session = record { config = config; saved = config; reports = [] } in
    if text_eq config.server_url [] || text_eq config.token []
    then (start, some not_logged_in)
    else elim (import_url out config.server_url) [
      | err e ↦ (start, some e)
      | ok url ↦ upload_files out url paths start
    ]
