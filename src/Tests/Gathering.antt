-- ===== src/Tests/Gathering.antt =====
-- A collection from one adapter that gives a changed trace twice, one that cannot be described and one that has not changed.
use traicr.Collector.Collect.Kept.{IsPending}
use traicr.Prelude.{
  length, ◌≡◌, refl, ◌≢◌, ◌⊎◌, true, false, some, [], ◌∷◌, All, codes, text_eq, text_leb,
  has_prefix, contains_byte, count_byte, Result, ok, err,
}
use traicr.Prelude.Utf8.{lead, valid_from}
use traicr.Prelude.Keys.{contains, lookup, Distinct}
use traicr.Domain.{Descriptor}
use traicr.Archive.Paths.{plain_elements, plain_element, elements, safe_path, valid_path}
use traicr.Archive.Digest.{revision_digest, digest_input, sort_by_path, insert}
use traicr.Archive.Describe.{
  DescribeError, Input, directory, regular, describe, walk, visit, hash_file,
}
use traicr.Archive.Describe.Hashed.{IsHashed, visited, file_paths, describe-IsHashed}
use traicr.Collector.{CollectorConfig, state_key, revision_at}
use traicr.Collector.Collect.{
  Collecting, CollectOptions, Local, collect_inputs, sort_inputs, is_acknowledged, key_of,
  all_found, collect_adapters, gather, gather_inputs, gather_input, take_input, note_stamp,
  keep_stamps, warn, source_stamps, CollectError,
}
use traicr.Collector.Collect.Sorted.{Sorted, input_keys}
use traicr.Collector.Collect.Complete.{IsAsked, collect_inputs-IsComplete}
use traicr.Tests.Archives.{trace_one, plain_hash}

abbrev input : Input
input = record {
  descriptor = trace_one;
  visits = directory ∷ regular (codes "source/a") 2 (some (codes "hi")) ∷ [];
  source = codes "/s";
  stamp = codes "1";
}

abbrev described : Result DescribeError Descriptor
described = describe plain_hash input

abbrev or_input : Result DescribeError Descriptor → Descriptor
or_input (ok d) = d
or_input (err e) = trace_one

input_described : describe plain_hash input ≡ ok (or_input described)
unfolding describe walk visit hash_file safe_path valid_path elements plain_element plain_elements
    lead valid_from contains_byte count_byte has_prefix text_eq text_leb
input_described = refl

describe-IsHashed_example :
    All (IsHashed plain_hash input.visits) (or_input described).files
    × (file_paths (or_input described).files ≡ visited input.visits)
    × ((or_input described).files ≢ [])
    × ((or_input described).revision_digest ≡ revision_digest plain_hash (or_input described).files)
    × (record (or_input described) { files = []; revision_digest = [] }
        ≡ record trace_one { files = []; revision_digest = [] })
describe-IsHashed_example = describe-IsHashed plain_hash input (or_input described) input_described

-- A trace that the server has as it is; of the first one it has an older revision.
abbrev second : Input
second = record input { descriptor = record trace_one { native_trace_id = codes "9" } }

abbrev config : CollectorConfig
config = record {
  machine_id = codes "m";
  server_url = [];
  token = [];
  sources = [];
  state =
      (key_of trace_one, record { digest = codes "old"; machine_id = codes "m" })
      ∷ (
        key_of second.descriptor,
        record {
          digest = (or_input (describe plain_hash second)).revision_digest;
          machine_id = codes "m";
        },
      )
      ∷ [];
}

abbrev options : CollectOptions
options = record {
  harnesses = codes "pi" ∷ [];
  sources = [];
  output_dir = codes "out";
  all = false;
  version = codes "1";
  config_dir = codes "conf";
}

abbrev local : Local
local = record {
  hash = plain_hash;
  adapters =
      (record {
        name = codes "pi";
        collect = λ roots skip. some (record {
          inputs = input ∷ record input { visits = [] } ∷ input ∷ second ∷ [];
          warnings = [];
        });
      })
      ∷ [];
  load_stamps = λ dir. some [];
  save_stamps = λ dir stamps. true;
  hostname = some (codes "h");
  os = codes "linux";
  arch = codes "amd64";
  now = codes "now";
  make_dir = λ dir. true;
  zip = λ dir m n. some (codes "a.zip");
}

abbrev or_nothing : Result CollectError Collecting → Collecting
or_nothing (ok st) = st
or_nothing (err e) = record { stamps = []; collected = []; inputs = []; warnings = [] }

abbrev got : Collecting
got = or_nothing (collect_inputs local config options)

got_ok : collect_inputs local config options ≡ ok got
unfolding collect_inputs source_stamps collect_adapters gather gather_inputs gather_input take_input
    note_stamp keep_stamps warn all_found contains is_acknowledged revision_at lookup state_key
    text_eq describe walk visit hash_file safe_path valid_path elements plain_element plain_elements
    lead valid_from contains_byte count_byte has_prefix text_leb
got_ok = refl

collect_inputs-IsComplete_example :
    Sorted (sort_inputs got.inputs)
    × Distinct (input_keys (sort_inputs got.inputs))
    × All (λ i. (false ≡ true) ⊎ IsPending config i.descriptor) (sort_inputs got.inputs)
    × (all_found options.harnesses local.adapters ≡ true)
    × All
        (λ a.
          (contains a.name options.harnesses ≡ false)
          ⊎ IsAsked local config options (sort_inputs got.inputs) a)
        local.adapters
collect_inputs-IsComplete_example = collect_inputs-IsComplete local config options got got_ok

-- The changed trace is handed over once, the other one is left out.
changed_only : length got.inputs ≡ 1
unfolding collect_inputs source_stamps collect_adapters gather gather_inputs gather_input take_input
    note_stamp keep_stamps warn all_found contains is_acknowledged revision_at lookup state_key
    text_eq describe walk visit hash_file safe_path valid_path elements plain_element plain_elements
    lead valid_from contains_byte count_byte has_prefix text_leb revision_digest digest_input
    sort_by_path insert
changed_only = refl
