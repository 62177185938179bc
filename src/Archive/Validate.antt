-- ===== src/Archive/Validate.antt =====
-- `Validate`, `validateTrace` and `readMetadata` of internal/archive/validate.go.
pub mod Index
pub mod Used
pub mod Sound
use traicr.Prelude.{
  ℕ, zero, suc, ◌+◌, ◌-◌, ◌*◌, ◌/◌, ◌%◌, ◌^◌, ◌≤◌, ◌<◌, min, max, ◌≡◌, refl, sym, ap, ◌∙◌, ◌≢◌, ◌↔◌,
  ◌⊎◌, inl, inr, Bool, true, false, not, ◌&&◌, ◌||◌, Option, none, some, List, [], ◌∷◌, ◌++◌, map,
  arith, ltb, leb, ◌==◌, if◌then◌else◌, ltb→lt, leb→le, ==_iff, Bool-cases, Option-cases, length,
  get_elem?, take, drop, slice, length-append, length-take, length-drop, take-append-drop, Member,
  here, there, Member-append_left, Member-append_right, All, All-append, Text, codes, text_eq,
  text_eq_iff, text_eq_refl, text_leb, text_leb_refl, text_leb_trans, text_leb_total,
  text_leb_antisym, has_prefix, contains_byte, count_byte, Result, ok, err, Result-cases,
  bind-eq-ok, refuse_if, refuse_if-eq-ok, ◌>>=◌, ◌>>◌,
}
use traicr.Domain.{
  ℤ, pos, negsuc, Machine, Warning, File, Repository, Descriptor, Manifest, format_version, int_is,
}
use traicr.Prelude.Keys.{contains, lookup}
use traicr.Archive.Error.{
  ArchiveError, limits_not_positive, archive_size, too_many_files, unsafe_path, duplicate_path,
  expansion_exceeded, file_missing, metadata_exceeded, metadata_invalid, manifest_incomplete,
  duplicate_trace, unlisted_files, incomplete_descriptor, duplicate_trace_path, digest_mismatch,
  invalid_source_file, source_mismatch, open_failed, read_failed, corrupt_source,
  source_digest_mismatch, cancelled, invalid_zip,
}
use traicr.Archive.Digest.{revision_digest}
use traicr.Archive.Directory.{Check, Reader, check_directory_size}
use traicr.Archive.Paths.{safe_path}

-- A Go limit below 0 is refused as 0 is.
pub record Limits : Type 0 where
  pub archive_bytes : ℕ
  pub expanded_bytes : ℕ
  pub file_bytes : ℕ
  pub files : ℕ
  pub depth : ℕ
  pub metadata_bytes : ℕ

-- `8 << 30`, `32 << 30`, `4 << 30`, `16 << 20`
abbrev pub default_limits : Limits
default_limits = record {
  archive_bytes = 8589934592;
  expanded_bytes = 34359738368;
  file_bytes = 4294967296;
  files = 100000;
  depth = 32;
  metadata_bytes = 16777216;
}

-- What opening and reading an entry of the ZIP gives.
pub data Content : Type 0 where
  not_opened : Content
  not_read : Content
  bytes : Text → Content

-- `*zip.File`
pub record ZipFile : Type 0 where
  pub name : Text
  pub regular : Bool
  pub uncompressed_size : ℕ
  pub content : Content

abbrev pub Files : Type 0
Files = List (Text × ZipFile)

-- Where `ctx.Err()` is asked.
pub data Poll : Type 0 where
  at_header : ℕ → Poll
  at_trace : Text → Poll
  at_source : Text → Text → Poll

-- `reflect.DeepEqual` on descriptors; Go also tells a nil slice from an empty one.
list_eq {ℓ} : {A : Type ℓ} → (A → A → Bool) → List A → List A → Bool
list_eq eq [] [] = true
list_eq eq (x ∷ xs) (y ∷ ys) = eq x y && list_eq eq xs ys
list_eq eq _ _ = false

int_eq : ℤ → ℤ → Bool
int_eq (pos a) (pos b) = a == b
int_eq (negsuc a) (negsuc b) = a == b
int_eq _ _ = false

file_eq : File → File → Bool
file_eq a b = text_eq a.path b.path && int_eq a.size b.size && text_eq a.sha256 b.sha256

warning_eq : Warning → Warning → Bool
warning_eq a b = text_eq a.code b.code && text_eq a.message b.message

unfoldable pub descriptor_eq : Descriptor → Descriptor → Bool
unfolding list_eq int_eq file_eq warning_eq
descriptor_eq a b =
    text_eq a.path b.path
    && text_eq a.harness b.harness
    && text_eq a.adapter b.adapter
    && text_eq a.native_trace_id b.native_trace_id
    && text_eq a.native_updated_at b.native_updated_at
    && text_eq a.revision_digest b.revision_digest
    && text_eq a.parent_native_trace_id b.parent_native_trace_id
    && text_eq a.title b.title
    && text_eq a.working_directory b.working_directory
    && text_eq a.repository.remote b.repository.remote
    && text_eq a.repository.root b.repository.root
    && list_eq file_eq a.files b.files
    && list_eq warning_eq a.warnings b.warnings

-- `readMetadata`: `io.ReadAll` of at most `limit + 1` bytes, then `json.Unmarshal`.
unfoldable decode_within : {A : Type 0} → (Text → Option A) → ℕ → Text → Result ArchiveError A
decode_within decode limit content =
    let text = take (limit + 1) content in
    if ltb limit (length text)
    then err metadata_exceeded
    else elim (decode text) [ none ↦ err metadata_invalid | some value ↦ ok value ]

unfoldable pub read_metadata :
    {A : Type 0} → (Text → Option A) → ℕ → Option ZipFile → Result ArchiveError A
unfolding decode_within
read_metadata decode limit none = err file_missing
read_metadata decode limit (some file) =
    if ltb limit file.uncompressed_size then err metadata_exceeded else elim file.content [
      | not_opened ↦ err open_failed
      | not_read ↦ err read_failed
      | bytes content ↦ decode_within decode limit content
    ]

-- `uint64(limits.ExpandedBytes) - expanded`
abbrev pub u64_sub : ℕ → ℕ → ℕ
u64_sub a b = (a + 2 ^ 64 - b) % 2 ^ 64

-- `_, exists := files[name]`
unfoldable pub has_entry : Files → Text → Bool
has_entry files name = elim (lookup name files) [ none ↦ false | some _ ↦ true ]

-- The loop over `zipped.File`, with the map `files` and the sum `expanded` so far.
unfoldable pub index_files : Limits → Files → ℕ → List ZipFile → Check Files
index_files limits files expanded [] = ok files
index_files limits files expanded (file ∷ rest) = do
  refuse_if (not (safe_path file.name limits.depth) || not file.regular) unsafe_path
  refuse_if (has_entry files file.name) duplicate_path
  refuse_if
      (ltb limits.file_bytes file.uncompressed_size
        || ltb (u64_sub limits.expanded_bytes expanded) file.uncompressed_size)
      expansion_exceeded
  index_files limits ((file.name, file) ∷ files) ((expanded + file.uncompressed_size) % 2 ^ 64) rest

-- `file == nil || used[name] || file.UncompressedSize64 != uint64(source.Size)`
unfoldable pub source_entry : Files → List Text → Text → ℕ → Check ZipFile
source_entry files used name size = elim (lookup name files) [
  | none ↦ err source_mismatch
  | some file ↦
      if contains name used || not (file.uncompressed_size == size)
      then err source_mismatch
      else ok file
]

-- `source.Size < 0 || source.Size > limits.FileBytes`
unfoldable pub source_size : ℕ → ℤ → Check ℕ
source_size limit (negsuc n) = err invalid_source_file
source_size limit (pos n) = if ltb limit n then err invalid_source_file else ok n

abbrev pub descriptor_name : Descriptor → Text
descriptor_name d = d.path ++ codes "/descriptor.json"

-- `descriptor.Harness + "\x00" + descriptor.NativeTraceID`
abbrev pub identity_key : Descriptor → Text
identity_key d = d.harness ++ (0 ∷ d.native_trace_id)

module _ (hash : Text → Text) where
  -- `io.Copy` of at most `source.Size + 1` bytes into the hash, and the comparison of both.
  unfoldable pub check_content : ℕ → Text → Content → Check (Unit {0})
  check_content size expected not_opened = err open_failed
  check_content size expected not_read = err corrupt_source
  check_content size expected (bytes content) =
      let copied = take (size + 1) content in
      refuse_if (not (length copied == size) || not (text_eq (hash copied) expected))
        source_digest_mismatch

  module _ (done : Poll → Bool) (limits : Limits) (files : Files) (base : Text) where
    -- The loop over `descriptor.Files`; the result is the set `used`.
    unfoldable pub validate_sources : List Text → List File → Check (List Text)
    validate_sources used [] = ok used
    validate_sources used (source ∷ rest) = do
      refuse_if (done (at_source base source.path)) cancelled
      refuse_if
          (not (safe_path source.path (limits.depth - 2))
            || not (has_prefix source.path (codes "source/")))
          invalid_source_file
      size ← source_size limits.file_bytes source.size
      let name = base ++ (b'/' ∷ source.path)
      file ← source_entry files used name size
      check_content size source.sha256 file.content
      validate_sources (name ∷ used) rest

  module _ (decode_descriptor : Text → Option Descriptor) (done : Poll → Bool) (limits : Limits)
      (files : Files) where
    -- `validateTrace`
    unfoldable pub validate_trace : Descriptor → List Text → Check (List Text)
    validate_trace d used = do
      refuse_if
          (not (safe_path d.path 2)
            || not (has_prefix d.path (codes "traces/"))
            || text_eq d.harness []
            || text_eq d.native_trace_id []
            || length d.files == 0)
          incomplete_descriptor
      refuse_if (contains (descriptor_name d) used) duplicate_trace_path
      copy ←
          read_metadata decode_descriptor limits.metadata_bytes (lookup (descriptor_name d) files)
      refuse_if
          (not (descriptor_eq copy d)
            || not (text_eq d.revision_digest (revision_digest hash d.files)))
          digest_mismatch
      validate_sources done limits files d.path (descriptor_name d ∷ used) d.files

    -- The loop over `manifest.Traces`, with the sets `used` and `identities`.
    unfoldable pub validate_traces : List Text → List Text → List Descriptor → Check (List Text)
    validate_traces used identities [] = ok used
    validate_traces used identities (d ∷ rest) = do
      refuse_if (done (at_trace d.path)) cancelled
      used' ← validate_trace d used
      refuse_if (contains (identity_key d) identities) duplicate_trace
      validate_traces used' (identity_key d ∷ identities) rest

abbrev pub manifest_name : Text
manifest_name = codes "manifest.json"

unfoldable pub manifest_incomplete_test : Manifest → Bool
manifest_incomplete_test m =
    not (int_is m.format_version format_version)
    || text_eq m.source_machine.id []
    || text_eq m.source_machine.hostname []
    || length m.traces == 0

unfoldable pub limits_positive : Limits → Bool
limits_positive l = not (
    l.archive_bytes == 0
    || l.expanded_bytes == 0
    || l.file_bytes == 0
    || l.files == 0
    || l.depth == 0
    || l.metadata_bytes == 0)

or_invalid_zip : Option (List ZipFile) → Check (List ZipFile)
or_invalid_zip none = err invalid_zip
or_invalid_zip (some entries) = ok entries

-- `Validate`; `zipped` is what `zip.NewReader` makes of the file, `none` its error.
module _ (hash : Text → Text) (decode_manifest : Text → Option Manifest)
    (decode_descriptor : Text → Option Descriptor) (done : Poll → Bool) (read : Reader)
    (zipped : Option (List ZipFile)) where
  -- From the entries of the ZIP on.
  unfoldable pub validate_entries : Limits → List ZipFile → Check Manifest
  validate_entries limits entries = do
    refuse_if (ltb limits.files (length entries)) too_many_files
    files ← index_files limits [] 0 entries
    manifest ← read_metadata decode_manifest limits.metadata_bytes (lookup manifest_name files)
    refuse_if (manifest_incomplete_test manifest) manifest_incomplete
    used ←
        validate_traces hash decode_descriptor done limits files (manifest_name ∷ []) []
          manifest.traces
    refuse_if (not (length used == length files)) unlisted_files
    ok manifest

  unfoldable pub validate : ℕ → Limits → Check Manifest
  unfolding or_invalid_zip
  validate size limits = do
    refuse_if (not (limits_positive limits)) limits_not_positive
    refuse_if (size == 0 || ltb limits.archive_bytes size) archive_size
    check_directory_size read (λ n. done (at_header n)) limits.files size
    entries ← or_invalid_zip zipped
    validate_entries limits entries
