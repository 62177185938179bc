-- ===== src/Tests/Archives.antt =====
-- A small archive: one trace with one source file.
use traicr.Prelude.{
  ◌^◌, ◌<◌, ℕ, zero, suc, ◌+◌, ◌≤◌, ◌≡◌, refl, ◌≢◌, ◌↔◌, Bool, true, false, none, some, List, [],
  ◌∷◌, ◌++◌, map, arith, leb, if◌then◌else◌, length, slice, All, Text, codes, text_eq, text_leb,
  has_prefix, contains_byte, count_byte, ok, err,
}
use traicr.Domain.{File, Descriptor, Manifest, pos, int_is}
use traicr.Archive.Directory.{
  Reader, Advertised, walk, check_entries, advertised, next_offset, scan, is_end_record,
  check_directory_size, uint16_at, uint32_at, uint64_at,
}
use traicr.Archive.Directory.Laws.{
  check_entries_iff, IsDirectory, check_directory_size-IsAccepted, IsAccepted,
  check_directory_size_fuel,
}
use traicr.Archive.Error.{out_of_fuel}
use traicr.Archive.Paths.{
  safe_path, safe_path-resolve, resolve, reverse_onto, elements, valid_path, plain_elements,
  plain_element,
}
use traicr.Prelude.Utf8.{valid_from}
use traicr.Prelude.Keys.{contains, lookup}
use traicr.Archive.Digest.{
  revision_digest, digest_input, sort_by_path, insert, swap, revision_digest-Reorder,
}
use traicr.Archive.Digest.Encoding.{IsPlain, identity, digest_input-injective}
use traicr.Archive.Validate.{
  Limits, ZipFile, bytes, validate, index_files, has_entry, read_metadata, descriptor_eq,
  source_entry, source_size, check_content, validate_sources, validate_trace, validate_traces,
  validate_entries, manifest_incomplete_test, limits_positive,
}
use traicr.Archive.Write.{split_inputs}
use traicr.Archive.Write.Split.{
  joined, IsSplit, HasSizes, traces_size, bytes_of, split_inputs-IsSplit,
}
use traicr.Archive.Validate.Sound.{IsArchive, validate-IsArchive}

abbrev zeros : ℕ → Text
zeros zero = []
zeros (suc n) = 0 ∷ zeros n

abbrev entry_header : Text
entry_header = b'P' ∷ b'K' ∷ 1 ∷ 2 ∷ zeros 42

abbrev end_record : Text
end_record = b'P' ∷ b'K' ∷ 5 ∷ 6 ∷ (zeros 6 ++ (3 ∷ 0 ∷ 138 ∷ 0 ∷ zeros 8))

abbrev zip_bytes : Text
zip_bytes = entry_header ++ (entry_header ++ (entry_header ++ end_record))

abbrev pub reader : Reader
reader offset count =
    if leb (offset + count) (length zip_bytes)
    then some (slice offset (offset + count) zip_bytes)
    else none

abbrev three : Advertised
three = record { count = 3; directory_size = 138; directory_offset = 0 }

abbrev never {ℓ} : {A : Type ℓ} → A → Bool
never _ = false

three_pass : check_entries reader never 10 160 three ≡ ok tt
unfolding check_entries walk next_offset uint16_at text_eq
three_pass = refl

check_entries_iff_example :
    (check_entries reader never 10 160 three ≡ ok tt) ↔ IsDirectory reader never 10 160 three
check_entries_iff_example = check_entries_iff reader never 10 160 three (omega arith) (λ k. refl)

directory_passes : check_directory_size reader never 10 160 ≡ ok tt
unfolding check_directory_size scan is_end_record advertised check_entries walk next_offset
    uint16_at uint32_at uint64_at text_eq
directory_passes = refl

check_directory_size_fuel_example : check_directory_size reader never 10 160 ≢ err out_of_fuel
check_directory_size_fuel_example = check_directory_size_fuel reader never 10 160

check_directory_size-IsAccepted_example :
    (tail : Text) × (reader 0 160 ≡ some tail) × IsAccepted reader never 10 160 0 tail 139
check_directory_size-IsAccepted_example =
    check_directory_size-IsAccepted reader never 10 160 (omega arith) directory_passes

abbrev inner_path : Text
inner_path = codes "source/a.txt"

inner_path_safe : safe_path inner_path 30 ≡ true
unfolding safe_path valid_path valid_from elements plain_elements plain_element text_eq
    contains_byte count_byte
inner_path_safe = refl

safe_path-resolve_example :
    (resolve [] (elements inner_path) ≡ some (reverse_onto [] (elements inner_path)))
    × (length (elements inner_path) ≤ 30)
safe_path-resolve_example = safe_path-resolve inner_path 30 inner_path_safe

abbrev file_a : File
file_a = record { path = codes "source/a"; size = pos 2; sha256 = codes "hi" }

abbrev file_b : File
file_b = record { path = codes "source/b"; size = pos 2; sha256 = codes "yo" }

abbrev pub plain_hash : Text → Text
plain_hash t = t

revision_digest-Reorder_example :
    revision_digest plain_hash (file_a ∷ file_b ∷ [])
    ≡ revision_digest plain_hash (file_b ∷ file_a ∷ [])
unfolding text_eq
revision_digest-Reorder_example = revision_digest-Reorder plain_hash (swap refl)

files-IsPlain : All IsPlain (file_a ∷ file_b ∷ [])
unfolding contains_byte
files-IsPlain = (
  record { path_plain = refl; digest_plain = refl },
  (record { path_plain = refl; digest_plain = refl }, tt),
)

digest_input-injective_example :
    map identity (file_a ∷ file_b ∷ []) ≡ map identity (file_a ∷ file_b ∷ [])
digest_input-injective_example =
    digest_input-injective (file_a ∷ file_b ∷ []) (file_a ∷ file_b ∷ []) files-IsPlain files-IsPlain
      refl

abbrev pub trace_one : Descriptor
trace_one = record {
  path = codes "traces/1";
  harness = codes "pi";
  adapter = codes "pi";
  native_trace_id = codes "t";
  native_updated_at = [];
  revision_digest = codes "sha256:source/a" ++ (0 ∷ b'h' ∷ b'i' ∷ 0 ∷ []);
  parent_native_trace_id = [];
  title = [];
  working_directory = [];
  repository = record { remote = []; root = [] };
  files = file_a ∷ [];
  warnings = [];
}

abbrev pub manifest_one : Manifest
manifest_one = record {
  format_version = pos 1;
  collector_version = [];
  created_at = [];
  source_machine = record { id = codes "m"; hostname = codes "h"; os = []; arch = [] };
  traces = trace_one ∷ [];
}

abbrev stored : Text → Text → ZipFile
stored name text = record {
  name = name;
  regular = true;
  uncompressed_size = length text;
  content = bytes text;
}

abbrev pub entries_one : List ZipFile
entries_one =
    stored (codes "manifest.json") (codes "m")
    ∷ stored (codes "traces/1/descriptor.json") (codes "d")
    ∷ stored (codes "traces/1/source/a") (codes "hi")
    ∷ []

abbrev small_limits : Limits
small_limits = record {
  archive_bytes = 1000;
  expanded_bytes = 100;
  file_bytes = 50;
  files = 10;
  depth = 8;
  metadata_bytes = 20;
}

archive_passes :
    validate plain_hash
      (λ _. some manifest_one)
      (λ _. some trace_one)
      never
      reader
      (some entries_one)
      160
      small_limits
    ≡ ok manifest_one
unfolding validate validate_entries limits_positive manifest_incomplete_test index_files has_entry
    read_metadata descriptor_eq source_entry source_size check_content validate_sources
    validate_trace validate_traces revision_digest digest_input sort_by_path insert text_leb
    contains lookup int_is has_prefix safe_path valid_path valid_from elements plain_elements
    plain_element text_eq contains_byte count_byte check_directory_size scan is_end_record
    advertised check_entries walk next_offset uint16_at uint32_at uint64_at
archive_passes = refl

validate-IsArchive_example :
    (entries : List ZipFile) × (some entries_one ≡ some entries)
    × IsArchive plain_hash small_limits entries manifest_one
    × (160 ≤ 1000)
    × (tail : Text) × (reader 0 160 ≡ some tail)
    × IsAccepted reader never 10 160 0 tail 139
validate-IsArchive_example =
    validate-IsArchive plain_hash (λ _. some manifest_one) (λ _. some trace_one) never reader
      (some entries_one) 160 small_limits (omega arith) (omega arith) archive_passes

two_sized : All HasSizes (trace_one ∷ trace_one ∷ [])
two_sized = (((_, refl), tt), (((_, refl), tt), tt))

two_small : traces_size (trace_one ∷ trace_one ∷ []) < 2 ^ 63
unfolding traces_size bytes_of
two_small = omega arith

split_inputs-IsSplit_example :
    (archives : List (List Descriptor)) × (split_inputs 2 1 (trace_one ∷ trace_one ∷ [])
      ≡ some archives)
    × (joined archives ≡ trace_one ∷ trace_one ∷ [])
    × All (IsSplit 1) archives
split_inputs-IsSplit_example =
    split_inputs-IsSplit 1 (trace_one ∷ trace_one ∷ []) (omega arith) two_sized two_small
