-- ===== src/Collector/Collect.antt =====
-- `Collect` of internal/collector/collector.go. Progress reports are output only and are left out, and so is a context
-- that is cancelled. The adapters, which read the harnesses' files, and the disk are parameters.
pub mod Met
pub mod Complete
pub mod Kept
pub mod Sorted
use traicr.Prelude.{
  ℕ, zero, suc, ◌+◌, ◌-◌, ◌*◌, ◌/◌, ◌%◌, ◌^◌, ◌≤◌, ◌<◌, min, max, ◌≡◌, refl, sym, ap, ◌∙◌, ◌≢◌, ◌↔◌,
  ◌⊎◌, inl, inr, Bool, true, false, not, ◌&&◌, ◌||◌, Option, none, some, List, [], ◌∷◌, ◌++◌, map,
  arith, ltb, leb, ◌==◌, if◌then◌else◌, ltb→lt, leb→le, ==_iff, Bool-cases, Option-cases, length,
  get_elem?, take, drop, slice, length-append, length-take, length-drop, take-append-drop,
  take_whole, length-ne-nil, Member, here, there, Member-append_left, Member-append_right, All,
  All-append, All-members, append_nil, append_assoc, Text, codes, text_eq, text_eq_iff,
  text_eq_refl, text_eq-ne, text_leb, text_leb_refl, text_leb_trans, text_leb_total,
  text_leb_antisym, has_prefix, contains_byte, count_byte, Result, ok, err, ok-injective,
  Result-cases, bind-eq-ok, refuse_if, refuse_if-eq-ok, ◌>>=◌, ◌>>◌,
}
use traicr.Prelude.Keys.{lookup, contains}
use traicr.Domain.{Descriptor, Warning, Machine, Manifest, pos, format_version}
use traicr.Archive.Describe.{Input, describe}
use traicr.Archive.Write.{describe_inputs, write}
use traicr.Collector.{CollectionRevision, CollectorConfig, State, state_key, revision_at}

-- `config.SourceStamp`
pub record SourceStamp : Type 0 where
  pub stamp : Text
  pub digest : Text
  pub harness : Text
  pub native_id : Text

abbrev pub Stamps : Type 0
Stamps = List (Text × SourceStamp)

-- `CollectOptions`, without the progress.
pub record CollectOptions : Type 0 where
  pub harnesses : List Text
  pub sources : List (Text × List Text)
  pub output_dir : Text
  pub all : Bool
  pub version : Text
  pub config_dir : Text

-- What an adapter gathers.
pub record Gathered : Type 0 where
  pub inputs : List Input
  pub warnings : List Warning

-- An adapter is given its roots and the test of the sources that it need not read.
pub record Adapter : Type 0 where
  pub name : Text
  pub collect : Option (List Text) → (Text → Text → Bool) → Option Gathered

pub data CollectError : Type 0 where
  no_output_dir no_harness stamps_unreadable adapter_failed unknown_harness : CollectError
  no_hostname not_written : CollectError

-- What a collection takes from elsewhere; `zip` is `writeZIP`.
pub record Local : Type 0 where
  pub hash : Text → Text
  pub adapters : List Adapter
  pub load_stamps : Text → Option Stamps
  pub save_stamps : Text → Stamps → Bool
  pub hostname : Option Text
  pub os : Text
  pub arch : Text
  pub now : Text
  pub make_dir : Text → Bool
  pub zip : Text → Manifest → ℕ → Option Text

-- The variables of the loops.
pub record Collecting : Type 0 where
  pub stamps : Stamps
  pub collected : List Text
  pub inputs : List Input
  pub warnings : List Warning

pub record Collection : Type 0 where
  pub archives : List Text
  pub warnings : List Warning

unfoldable pub is_acknowledged : CollectorConfig → Text → Text → Bool
is_acknowledged config key digest =
    let revision = revision_at key config.state in
    text_eq revision.machine_id config.machine_id && text_eq revision.digest digest

-- `skip`
unfoldable pub skip : CollectorConfig → CollectOptions → Stamps → Text → Text → Bool
skip config options stamps source stamp =
    if options.all || text_eq options.config_dir [] then false else elim (lookup source stamps) [
      | none ↦ false
      | some r ↦
          if not (text_eq r.stamp stamp) || text_eq r.digest []
          then false
          else is_acknowledged config (state_key r.harness r.native_id) r.digest
    ]

unfoldable pub warn : Text → Text → Collecting → Collecting
warn code message st = record st {
  warnings = st.warnings ++ ((record { code = code; message = message }) ∷ []);
}

-- `stamps[input.Source] = …`
unfoldable pub note_stamp : CollectOptions → Input → Descriptor → Collecting → Collecting
note_stamp options input d st =
    if not (text_eq input.source [])
      && not (text_eq input.stamp [])
      && not (text_eq options.config_dir [])
    then record st {
      stamps =
          (
            input.source,
            record {
              stamp = input.stamp;
              digest = d.revision_digest;
              harness = d.harness;
              native_id = d.native_trace_id;
            },
          )
          ∷ st.stamps;
    }
    else st

abbrev pub key_of : Descriptor → Text
key_of d = state_key d.harness d.native_trace_id

module _ (hash : Text → Text) (config : CollectorConfig) (options : CollectOptions)
    (harness : Text) where
  -- The part of the round after `Describe`.
  unfoldable pub take_input : Input → Descriptor → Collecting → Collecting
  take_input input d st =
      if contains (key_of d) st.collected
      then warn (codes "duplicate_trace")
          (harness
            ++ (b' ' ∷ (d.native_trace_id ++ codes " was collected twice; the repeat was dropped")))
          st
      else if not options.all && is_acknowledged config (key_of d) d.revision_digest
      then record st { collected = key_of d ∷ st.collected }
      else record st {
        collected = key_of d ∷ st.collected;
        inputs = st.inputs ++ ((record input { descriptor = d }) ∷ []);
      }

  -- One round of the loop over `result.Inputs`; the text of the error is left out of the warning.
  unfoldable pub gather_input : Input → Collecting → Collecting
  gather_input input st = elim (describe hash input) [
    | err e ↦
        warn (codes "snapshot_failed") (harness ++ (b' ' ∷ input.descriptor.native_trace_id)) st
    | ok d ↦ take_input input d (note_stamp options input d st)
  ]

  unfoldable pub gather_inputs : List Input → Collecting → Collecting
  gather_inputs [] st = st
  gather_inputs (input ∷ inputs) st = gather_inputs inputs (gather_input input st)

-- `SaveSourceStamps`, whose error is a warning.
unfoldable pub keep_stamps : Local → CollectOptions → Collecting → Collecting
keep_stamps local options st =
    if not (text_eq options.config_dir []) && not (local.save_stamps options.config_dir st.stamps)
    then warn (codes "stamp_persist_failed") [] st
    else st

unfoldable pub configured : CollectorConfig → CollectOptions → Text → Option (List Text)
configured config options harness = elim (lookup harness options.sources) [
  | some roots ↦ some roots
  | none ↦ lookup harness config.sources
]

-- What the loop does with an adapter's result.
unfoldable pub gather :
    Local → CollectorConfig → CollectOptions → Text → Gathered → Collecting → Collecting
gather local config options harness result st = keep_stamps local options (
    gather_inputs local.hash config options harness result.inputs
      (record st { warnings = st.warnings ++ result.warnings }))

-- The loop over the adapters.
unfoldable pub collect_adapters :
    Local
    → CollectorConfig
    → CollectOptions
    → List Adapter
    → Collecting
    → Result CollectError Collecting
collect_adapters local config options [] st = ok st
collect_adapters local config options (a ∷ adapters) st =
    if not (contains a.name options.harnesses)
    then collect_adapters local config options adapters st
    else elim (a.collect (configured config options a.name) (skip config options st.stamps)) [
      | none ↦ err adapter_failed
      | some result ↦
          collect_adapters local config options adapters
            (gather local config options a.name result st)
    ]

-- `found` has every selected harness.
unfoldable pub all_found : List Text → List Adapter → Bool
all_found [] adapters = true
all_found (h ∷ hs) adapters = contains h (map (λ a. a.name) adapters) && all_found hs adapters

-- The comparison of `sort.Slice`.
unfoldable pub input_leb : Input → Input → Bool
input_leb a b =
    if text_eq a.descriptor.harness b.descriptor.harness
    then text_leb a.descriptor.native_trace_id b.descriptor.native_trace_id
    else text_leb a.descriptor.harness b.descriptor.harness

-- `sort.Slice` fixes no order for equal traces; this one keeps it.
unfoldable pub insert_input : Input → List Input → List Input
insert_input x [] = x ∷ []
insert_input x (y ∷ ys) =
    let rest = insert_input x ys in if input_leb x y then x ∷ y ∷ ys else y ∷ rest

unfoldable pub sort_inputs : List Input → List Input
sort_inputs [] = []
sort_inputs (x ∷ xs) = insert_input x (sort_inputs xs)

-- `SourceStamps` are read only from a directory that is given.
unfoldable pub source_stamps : Local → CollectOptions → Option Stamps
source_stamps local options =
    if text_eq options.config_dir [] then some [] else local.load_stamps options.config_dir

abbrev or_not_written : Option Text → Result CollectError Text
or_not_written none = err not_written
or_not_written (some name) = ok name

-- The names of the archives, if all were written.
all_written : Option (List Text × Option CollectError) → Result CollectError (List Text)
all_written none = err not_written
all_written (some (names, none)) = ok names
all_written (some (names, some e)) = err e

-- `archive.Write`
unfoldable pub write_archive :
    Local → Text → Manifest → List Input → Result CollectError (List Text)
unfolding all_written
write_archive local dir manifest inputs =
    if not (local.make_dir dir)
    then err not_written
    else elim (describe_inputs local.hash 1 inputs) [
      | err e ↦ err not_written
      | ok ds ↦ all_written (
          write
            (λ traces number.
              or_not_written (local.zip dir (record manifest { traces = traces }) number))
            (pos 0) ds)
    ]

unfoldable pub export :
    Local → CollectorConfig → CollectOptions → Collecting → Result CollectError Collection
export local config options st = elim local.hostname [
  | none ↦ err no_hostname
  | some hostname ↦
      elim (write_archive local options.output_dir
        (record {
          format_version = pos format_version;
          collector_version = options.version;
          created_at = local.now;
          source_machine = record {
            id = config.machine_id;
            hostname = hostname;
            os = local.os;
            arch = local.arch;
          };
          traces = [];
        })
        (sort_inputs st.inputs)) [
          | err e ↦ err e
          | ok paths ↦ ok (record { archives = paths; warnings = st.warnings })
        ]
]

-- The inputs for the archives: the loops of `Collect`, with the checks before and after them.
unfoldable pub collect_inputs :
    Local → CollectorConfig → CollectOptions → Result CollectError Collecting
collect_inputs local config options =
    if text_eq options.output_dir []
    then err no_output_dir
    else if length options.harnesses == 0
    then err no_harness
    else elim (source_stamps local options) [
      | none ↦ err stamps_unreadable
      | some stamps ↦
          collect_adapters local config options local.adapters
            (record { stamps = stamps; collected = []; inputs = []; warnings = [] })
          >>= (λ st.
              if all_found options.harnesses local.adapters then ok st else err unknown_harness)
    ]

-- `Collect`
unfoldable pub collect : Local → CollectorConfig → CollectOptions → Result CollectError Collection
collect local config options = do
  st ← collect_inputs local config options
  if length st.inputs == 0
      then ok (record { archives = []; warnings = st.warnings })
      else export local config options st
