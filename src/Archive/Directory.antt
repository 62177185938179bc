-- ===== src/Archive/Directory.antt =====
-- `checkDirectorySize` of internal/archive/validate.go: the ZIP's central directory is walked
-- header by header before any entry is allocated.
-- `read offset count` is `reader.ReadAt`, which fails or fills the buffer that it is given.
-- `done n` is whether the context has ended in the round that has counted `n` headers.
pub mod Laws
use traicr.Prelude.{
  ℕ, zero, suc, ◌+◌, ◌-◌, ◌*◌, ◌%◌, ◌^◌, min, Bool, true, false, not, ◌||◌, Option, none, some,
  List, [], ◌∷◌, ltb, leb, ◌==◌, if◌then◌else◌, length, get_elem?, slice, Text, text_eq, Result, ok,
  err, refuse_if, ◌>>=◌, ◌>>◌,
}
use traicr.Archive.Error.{
  ArchiveError, too_many_files, cancelled, invalid_zip64_directory, invalid_zip64_offset,
  invalid_zip64_header, invalid_bounds, truncated_directory, invalid_entry, count_mismatch,
  end_missing, read_failed, out_of_fuel,
}

abbrev pub Check : Type 0 → Type 0
Check A = Result ArchiveError A

abbrev pub Reader : Type 0
Reader = ℕ → ℕ → Option Text

-- Every buffer below is read at places that lie in it, so the default is never taken.
abbrev byte_at : Text → ℕ → ℕ
byte_at b i = elim (get_elem? b i) [ none ↦ 0 | some x ↦ x ]

-- `binary.LittleEndian.Uint16(b[i:])`, and of 32 and 64 bits
unfoldable pub uint16_at : Text → ℕ → ℕ
uint16_at b i = byte_at b i + byte_at b (i + 1) * 256

unfoldable pub uint32_at : Text → ℕ → ℕ
uint32_at b i = uint16_at b i + uint16_at b (i + 2) * 65536

unfoldable pub uint64_at : Text → ℕ → ℕ
uint64_at b i = uint32_at b i + uint32_at b (i + 4) * 4294967296

-- Arithmetic on `uint64`.
abbrev pub u64 : ℕ → ℕ
u64 n = n % 2 ^ 64

abbrev pub signature : ℕ → ℕ → Text
signature a b = b'P' ∷ b'K' ∷ a ∷ b ∷ []

abbrev pub or_read_failed : Option Text → Check Text
or_read_failed none = err read_failed
or_read_failed (some b) = ok b

-- What the end record or the ZIP64 record advertises.
pub record Advertised : Type 0 where
  pub count : ℕ
  pub directory_size : ℕ
  pub directory_offset : ℕ

module _ (read : Reader) (size : ℕ) where
  -- The locator stands 20 bytes before the end record; a negative offset is a failed read.
  read_locator : ℕ → ℕ → Option Text
  read_locator base end = if ltb (base + end) 20 then none else read (base + end - 20) 20

  zip64_header : ℕ → Check Advertised
  zip64_header offset = elim (read offset 56) [
    | none ↦ err invalid_zip64_header
    | some header ↦
        if not (text_eq (slice 0 4 header) (signature 6 6))
        then err invalid_zip64_header
        else ok (record {
          count = uint64_at header 32;
          directory_size = uint64_at header 40;
          directory_offset = uint64_at header 48;
        })
  ]

  zip64 : ℕ → ℕ → Check Advertised
  unfolding read_locator zip64_header
  zip64 base end = elim (read_locator base end) [
    | none ↦ err invalid_zip64_directory
    | some locator ↦
        if not (text_eq (slice 0 4 locator) (signature 6 7))
        then err invalid_zip64_directory
        else let offset = uint64_at locator 8 in
          if ltb size 56 || ltb (size - 56) offset
          then err invalid_zip64_offset
          else zip64_header offset
  ]

  unfoldable pub advertised : Text → ℕ → ℕ → Check Advertised
  unfolding zip64
  advertised tail base end =
      let count = uint16_at tail (end + 10) in
      let directory_size = uint32_at tail (end + 12) in
      let directory_offset = uint32_at tail (end + 16) in
      if count == 0xffff || directory_size == 0xffffffff || directory_offset == 0xffffffff
      then zip64 base end
      else ok (record {
        count = count;
        directory_size = directory_size;
        directory_offset = directory_offset;
      })

-- `bytes.Equal(tail[end:end+4], …) && end+22+int(…) == len(tail)`
unfoldable pub is_end_record : Text → ℕ → Bool
is_end_record tail end = not (
    not (text_eq (slice end (end + 4) tail) (signature 5 6))
    || not (end + 22 + uint16_at tail (end + 20) == length tail))

-- The place behind a header and its name, extra field and comment, from offset `at` on.
unfoldable pub next_offset : ℕ → Text → ℕ
next_offset at header =
    u64 (at + u64 (46 + uint16_at header 28 + uint16_at header 30 + uint16_at header 32))

module _ (read : Reader) (done : ℕ → Bool) (limit : ℕ) where
  -- `for directoryOffset < directoryEnd`; the result is the final `directoryOffset` and `actual`.
  unfoldable pub walk : ℕ → ℕ → ℕ → ℕ → Check (ℕ × ℕ)
  walk zero stop at actual = err out_of_fuel
  walk (suc fuel) stop at actual =
      let round = (do
        refuse_if (done actual) cancelled
        refuse_if (leb limit actual) too_many_files
        refuse_if (ltb (stop - at) 46) truncated_directory
        header ← or_read_failed (read at 46)
        refuse_if (not (text_eq (slice 0 4 header) (signature 1 2))) invalid_entry
        walk fuel stop (next_offset at header) (actual + 1)) in
      if ltb at stop then round else ok (at, actual)

  -- From the advertised numbers to the verdict.
  unfoldable pub check_entries : ℕ → Advertised → Check (Unit {0})
  check_entries size a = do
    refuse_if (ltb limit a.count) too_many_files
    refuse_if (ltb size a.directory_offset || ltb (size - a.directory_offset) a.directory_size)
        invalid_bounds
    let stop = u64 (a.directory_offset + a.directory_size)
    (at, actual) ← walk (suc limit) stop a.directory_offset 0
    refuse_if (not (actual == a.count) || not (at == stop)) count_mismatch

  -- `for end := len(tail) - 22; end >= 0; end--`, with `rounds` places left to try.
  unfoldable pub scan : ℕ → Text → ℕ → ℕ → Check (Unit {0})
  scan zero tail base size = err end_missing
  scan (suc end) tail base size =
      let verdict = (do a ← advertised read size tail base end; check_entries size a) in
      let further = scan end tail base size in if is_end_record tail end then verdict else further

  unfoldable pub check_directory_size : ℕ → Check (Unit {0})
  check_directory_size size = do
    let tail_length = min size 65557
    tail ← or_read_failed (read (size - tail_length) tail_length)
    scan (tail_length - 21) tail (size - tail_length) size
