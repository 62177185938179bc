-- ===== src/Collector/Upload/Acknowledged.antt =====
-- What an upload leaves in the collector's state.
use traicr.Prelude.{
  ℕ, ◌≡◌, refl, sym, ap, ◌∙◌, ◌⊎◌, inl, inr, true, ◌||◌, some, List, [], ◌∷◌, arith, Bool-cases,
  Option-cases, length, Member, here, there, All, All-members, Text, text_eq, text_eq_iff, ok,
  ok-injective, Result-cases, bind-eq-ok,
}
use mathlib.Core.Path.{subst}
use traicr.Prelude.Keys.{lookup}
use traicr.Domain.{Descriptor, Manifest, TraceOutcome, ImportReport}
use traicr.Collector.{CollectionRevision, CollectorConfig, State, state_key}
use traicr.Collector.Upload.{
  read_complete_report, validate_outcomes, acknowledge, is_acknowledged_status, outcome_key,
}
use traicr.Collector.Upload.Outcomes.{validate_outcomes-IsAnswered}
use traicr.Collector.Upload.Files.{
  Outside, LocalFile, Session, validated, upload_one, or_cannot_open, or_not_valid, body_of,
  acknowledged, keep_report, take_report, upload_file, upload_files, upload, import_url,
}

-- What is known at a key of `State` after `acknowledge` is an outcome's, or was there before.
acknowledge_lem :
    (machine key : Text) (os : List TraceOutcome) (state : State) (v : CollectionRevision)
    → lookup key (acknowledge machine os state) ≡ some v
    → (lookup key state ≡ some v)
      ⊎ ((o : TraceOutcome) × Member o os
          × (is_acknowledged_status o.status ≡ true)
          × (outcome_key o ≡ key)
          × (v ≡ record { digest = o.revision_digest; machine_id = machine }))
unfolding acknowledge
acknowledge_lem machine key [] state v h = inl h
acknowledge_lem machine key (o ∷ os) state v h = elim (acknowledge_lem machine key os _ v h) [
  | inr (x, at, done, k, same) ↦ inr (x, there at, done, k, same)
  | inl found ↦ elim (Bool-cases (is_acknowledged_status o.status)) [
    | inr skipped ↦ inl (rw skipped at found)
    | inl done ↦ elim (Bool-cases (text_eq (outcome_key o) key)) [
      | inl same ↦ inr (
        o,
        here refl,
        done,
        (text_eq_iff (outcome_key o) key).0 same,
        unfold lookup in (ground arith),
      )
      | inr other ↦ inl (unfold lookup in (ground arith))
    ]
  ]
]

All-at : {A : Type 0} (P : A → Type 0) (x : A) (xs : List A) → All P xs → Member x xs → P x
All-at P x [] a m = elim m [ ]
All-at P x (y ∷ xs) a (here e) = subst P (sym e) a.0
All-at P x (y ∷ xs) a (there m) = All-at P x xs a.1 m

-- One of the files is a valid archive of this machine that holds the trace with this key in this revision.
pub record IsUploaded (out : Outside) (machine : Text) (paths : List Text) (key : Text)
    (v : CollectionRevision) : Type 0 where
  pub path : Text
  pub listed : Member path paths
  pub file : LocalFile
  pub opened : out.open_file path ≡ some file
  pub manifest : Manifest
  pub accepted : validated out file ≡ ok manifest
  pub own : manifest.source_machine.id ≡ machine
  pub descriptor : Descriptor
  pub held : Member descriptor manifest.traces
  pub named : state_key descriptor.harness descriptor.native_trace_id ≡ key
  pub digest : v.digest ≡ descriptor.revision_digest
  pub machine_id : v.machine_id ≡ machine

module _ (out : Outside) (before : State) (machine : Text) (paths : List Text) where
  abbrev pub Backed : State → Type 0
  Backed state =
      (key : Text) (v : CollectionRevision)
      → lookup key state ≡ some v
      → (lookup key before ≡ some v) ⊎ IsUploaded out machine paths key v

  -- Both configurations are of the machine and hold nothing else.
  record IsBacked (s : Session) : Type 0 where
    pub config : Backed s.config.state
    pub saved : Backed s.saved.state
    pub machine_kept : s.config.machine_id ≡ machine

  acknowledge-Backed :
      (path : Text) (file : LocalFile) (report : ImportReport) (m : Manifest) (state : State)
      → Member path paths
      → out.open_file path ≡ some file
      → validated out file ≡ ok m
      → m.source_machine.id ≡ machine
      → validate_outcomes report m.traces ≡ ok tt
      → Backed state
      → Backed (acknowledge machine report.traces state)
  acknowledge-Backed path file report m state listed opened accepted own checked b key v h =
      elim (acknowledge_lem machine key report.traces state v h) [
        | inl old ↦ b key v old
        | inr (o, at, done, k, same) ↦
            let answered = validate_outcomes-IsAnswered report m.traces checked in
            let (d, held, of) = All-at _ o report.traces answered.described at in
            inr (record {
              path = path;
              listed = listed;
              file = file;
              opened = opened;
              manifest = m;
              accepted = accepted;
              own = own;
              descriptor = d;
              held = held;
              named = sym of.key ∙ k;
              digest = ap (λ x. x.digest) same ∙ of.digest;
              machine_id = ap (λ x. x.machine_id) same;
            })
      ]

  keep-IsBacked :
      (s : Session) (path : Text) (file : LocalFile) (report : ImportReport) (m : Manifest)
      → Member path paths
      → out.open_file path ≡ some file
      → validated out file ≡ ok m
      → validate_outcomes report m.traces ≡ ok tt
      → IsBacked s
      → IsBacked (keep_report out s report m).0
  unfolding keep_report acknowledged
  keep-IsBacked s path file report m listed opened accepted checked b =
      elim (Bool-cases (text_eq m.source_machine.id s.config.machine_id)) [
        | inr other ↦
            rw other (record { config = b.config; saved = b.saved; machine_kept = b.machine_kept })
        | inl same ↦
            let own : m.source_machine.id ≡ machine = (text_eq_iff _ _).0 same ∙ b.machine_kept in
            let next : Backed (acknowledge s.config.machine_id report.traces s.config.state) =
              subst (λ x. Backed (acknowledge x report.traces s.config.state)) (sym b.machine_kept)
                (acknowledge-Backed path file report m s.config.state listed opened accepted own
                  checked b.config) in
            elim (Bool-cases (out.save (acknowledged s.config report))) [
              | inl stored ↦
                  rw (same, stored)
                    (record { config = next; saved = next; machine_kept = b.machine_kept })
              | inr lost ↦
                  rw (same, lost)
                    (record { config = next; saved = b.saved; machine_kept = b.machine_kept })
            ]
      ]

  upload_one_lem :
      (url : Text) (sent : ℕ) (path : Text) (report : ImportReport) (m : Manifest)
      → upload_one out url sent path ≡ ok (report, m)
      → (file : LocalFile) × (out.open_file path ≡ some file) × (validated out file ≡ ok m)
  unfolding upload_one
  upload_one_lem url sent path report m h =
      let (file, opened, h1) = bind-eq-ok (or_cannot_open (out.open_file path)) _ h in
      let (m', valid, h2) = bind-eq-ok (or_not_valid (validated out file)) _ h1 in
      let (body, sent', h3) = bind-eq-ok (body_of (out.answer url sent path)) _ h2 in
      let (r', read, last) = bind-eq-ok (read_complete_report body) _ h3 in
      let same : m' ≡ m = ap (λ x. x.1) (ok-injective last) in
      let opened' : out.open_file path ≡ some file = unfold or_cannot_open in (ground arith) in
      let valid' : validated out file ≡ ok m' = unfold or_not_valid in (ground arith) in
      (file, opened', valid' ∙ ap ok same)

  file-IsBacked :
      (url path : Text) (s : Session)
      → Member path paths
      → IsBacked s
      → IsBacked (upload_file out url path s).0
  unfolding upload_file take_report
  file-IsBacked url path s listed b =
      elim (Result-cases (upload_one out url (length s.reports) path)) [
        | inr (e, failed) ↦ rw (upload_file, failed) b
        | inl (answered, got) ↦
            let (file, opened, accepted) =
              upload_one_lem url (length s.reports) path answered.0 answered.1 got in
            elim (Bool-cases (text_eq answered.0.machine.id answered.1.source_machine.id)) [
              | inr foreign ↦ rw (upload_file, got, take_report, foreign) b
              | inl same ↦ elim (Result-cases (validate_outcomes answered.0 answered.1.traces)) [
                | inr (e, wrong) ↦ rw (upload_file, got, take_report, same, wrong) b
                | inl (tt, checked) ↦
                    rw (upload_file, got, take_report, same, checked)
                      (keep-IsBacked s path file answered.0 answered.1 listed opened accepted
                        checked b)
              ]
            ]
      ]

  files-IsBacked :
      (url : Text) (rest : List Text) (s : Session)
      → All (λ x. Member x paths) rest
      → IsBacked s
      → IsBacked (upload_files out url rest s).0
  unfolding upload_files
  files-IsBacked url [] s a b = b
  files-IsBacked url (path ∷ rest) s a b =
      let next = file-IsBacked url path s a.0 b in
      elim (Option-cases (upload_file out url path s).1) [
        | inl go ↦
            rw (upload_files, go) (files-IsBacked url rest (upload_file out url path s).0 a.1 next)
        | inr (e, stop) ↦ rw (upload_files, stop) next
      ]

-- Whatever the server answers and wherever the upload stops: a revision that the saved configuration has for a trace was
-- there before, or one of the uploaded files is a valid archive of this machine that holds the trace in that revision; and so for the configuration in memory.
pub upload-Backed :
    (out : Outside) (config : CollectorConfig) (paths : List Text)
    → Backed out config.state config.machine_id paths (upload out config paths).0.saved.state
      × Backed out config.state config.machine_id paths (upload out config paths).0.config.state
unfolding upload
upload-Backed out config paths =
    let start : Session = record { config = config; saved = config; reports = [] } in
    let begun : IsBacked out config.state config.machine_id paths start = record {
      config = λ key v h. inl h;
      saved = λ key v h. inl h;
      machine_kept = refl;
    } in
    elim (Bool-cases (text_eq config.server_url [] || text_eq config.token [])) [
      | inl missing ↦ rw (upload, missing) (begun.saved, begun.config)
      | inr present ↦ elim (Result-cases (import_url out config.server_url)) [
        | inr (e, bad) ↦ rw (upload, present, bad) (begun.saved, begun.config)
        | inl (url, good) ↦
            let b =
              files-IsBacked out config.state config.machine_id paths url paths start
                (All-members _ paths (λ x m. m)) begun in
            rw (upload, present, good) (b.saved, b.config)
      ]
    ]
