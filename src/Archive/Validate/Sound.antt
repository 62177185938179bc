-- ===== src/Archive/Validate/Sound.antt =====
-- What an archive that `Validate` accepts holds.
use mathlib.Core.Path.{subst}
use traicr.Prelude.{
  All-members, ℕ, ◌-◌, ◌^◌, ◌≤◌, ◌<◌, min, ◌≡◌, refl, sym, ap, ◌∙◌, ◌≢◌, Bool, true, false, not,
  ◌||◌, Option, none, some, List, [], ◌∷◌, arith, ltb, ◌==◌, length, length-ne-nil, Member, here,
  there, All, Text, ok, ok-injective, bind-eq-ok, refuse_if, refuse_if-eq-ok,
}
use traicr.Prelude.Keys.{contains, lookup, keys, Distinct, nil, more, Distinct-covers, length-keys}
use traicr.Domain.{Descriptor, Manifest}
use traicr.Archive.Directory.{Reader, check_directory_size}
use traicr.Archive.Directory.Laws.{IsAccepted, check_directory_size-IsAccepted}
use traicr.Archive.Validate.{
  Limits, ZipFile, Files, Poll, at_header, at_trace, index_files, validate_trace, validate_traces,
  read_metadata, descriptor_name, identity_key, manifest_name, manifest_incomplete_test,
  validate_entries, validate, limits_positive, or_invalid_zip,
}
use traicr.Archive.Validate.Index.{
  IsIndex, by_name, index_files-IsIndex, index_files-by_name, index_files-Member,
}
use traicr.Archive.Validate.Used.{
  with_sources, IsUsed, IsTrace, IsUsed-cons, read_metadata-Member, validate_trace-IsTrace,
}

abbrev with_traces : List Text → List Descriptor → List Text
with_traces used [] = used
with_traces used (d ∷ rest) =
    with_traces (with_sources d.path (descriptor_name d ∷ used) d.files) rest

-- The names of the entries that a manifest accounts for.
abbrev pub listed : Manifest → List Text
listed m = with_traces (manifest_name ∷ []) m.traces

-- The identities of the traces, the last first.
abbrev with_keys : List Text → List Descriptor → List Text
with_keys ks [] = ks
with_keys ks (d ∷ rest) = with_keys (identity_key d ∷ ks) rest

module _ (hash : Text → Text) (decode : Text → Option Descriptor) (done : Poll → Bool)
    (limits : Limits) (files : Files) where
  validate_traces-IsTrace :
      (used ids : List Text) (traces : List Descriptor) {used' : List Text}
      → IsUsed files used
      → Distinct ids
      → validate_traces hash decode done limits files used ids traces ≡ ok used'
      → (used' ≡ with_traces used traces)
        × IsUsed files used'
        × Distinct (with_keys ids traces)
        × All (IsTrace hash limits files) traces
  unfolding validate_traces
  validate_traces-IsTrace used ids [] u d e =
      let same = ok-injective e in (sym same, subst (IsUsed files) same u, d, tt)
  validate_traces-IsTrace used ids (t ∷ rest) u d e =
      let (a, c, e1) = bind-eq-ok (refuse_if (done (at_trace t.path)) _) _ e in
      let (used1, v, e2) = bind-eq-ok (validate_trace hash decode done limits files t used) _ e1 in
      let (b, fresh, e3) = bind-eq-ok (refuse_if (contains (identity_key t) ids) _) _ e2 in
      let (same, u1, trace) = validate_trace-IsTrace hash done limits files decode t used u v in
      let (rest_same, u2, ds, ts) =
        validate_traces-IsTrace used1 (identity_key t ∷ ids) rest u1
          (more (refuse_if-eq-ok _ _ fresh) d) e3 in
      (rest_same ∙ ap (λ x. with_traces x rest) same, u2, ds, (trace, ts))

-- The archive that a manifest describes, entry by entry.
pub record IsArchive (hash : Text → Text) (limits : Limits) (entries : List ZipFile) (m : Manifest)
    : Type 0 where
  pub files : Files
  pub few : length entries ≤ limits.files
  pub same_entries : files ≡ by_name [] entries
  pub indexed : All (λ f. Member (f.name, f) files) entries
  pub index : IsIndex limits files
  pub not_empty : m.traces ≢ []
  pub traces : All (IsTrace hash limits files) m.traces
  pub identities : Distinct (with_keys [] m.traces)
  pub once : Distinct (listed m)
  pub present : All (λ k. Member k (keys files)) (listed m)
  pub accounted : All (λ k. contains k (listed m) ≡ true) (keys files)

All-Member : (P : Text → Type 0) (xs : List Text) → All P xs → (k : Text) → Member k xs → P k
All-Member P [] a k m = elim m [ ]
All-Member P (x ∷ xs) a k (here e) = subst P (sym e) a.0
All-Member P (x ∷ xs) a k (there m) = All-Member P xs a.1 k m

manifest_traces : (m : Manifest) → manifest_incomplete_test m ≡ false → 0 < length m.traces
unfolding manifest_incomplete_test
manifest_traces m h = ground arith

same_length :
    (used : List Text) (files : Files)
    → not (length used == length files) ≡ false
    → length (keys files) ≤ length used
same_length used files h = ground (arith, length-keys files)

or_invalid_zip_lem :
    (z : Option (List ZipFile)) (entries : List ZipFile)
    → or_invalid_zip z ≡ ok entries
    → z ≡ some entries
unfolding or_invalid_zip
or_invalid_zip_lem none entries e = absurd (ground arith)
or_invalid_zip_lem (some zs) entries e = ap some (ok-injective e)

module _ (hash : Text → Text) (decode_manifest : Text → Option Manifest)
    (decode_descriptor : Text → Option Descriptor) (done : Poll → Bool) (read : Reader)
    (zipped : Option (List ZipFile)) where
  validate_entries-IsArchive :
      (limits : Limits) (entries : List ZipFile) {m : Manifest}
      → limits.expanded_bytes < 2 ^ 63
      → validate_entries hash decode_manifest decode_descriptor done read zipped limits entries
        ≡ ok m
      → IsArchive hash limits entries m
  unfolding validate_entries contains
  validate_entries-IsArchive limits entries {m} small e =
      let (a, few, e1) = bind-eq-ok (refuse_if (ltb limits.files (length entries)) _) _ e in
      let (files, i, e2) = bind-eq-ok (index_files limits [] 0 entries) _ e1 in
      let (manifest, r, e3) =
        bind-eq-ok
          (read_metadata decode_manifest limits.metadata_bytes (lookup manifest_name files)) _ e2 in
      let (b, full, e4) = bind-eq-ok (refuse_if (manifest_incomplete_test manifest) _) _ e3 in
      let (used, t, e5) =
        bind-eq-ok
          (validate_traces hash decode_descriptor done limits files (manifest_name ∷ []) []
            manifest.traces)
          _ e4 in
      let (c, all_used, e6) = bind-eq-ok (refuse_if (not (length used == length files)) _) _ e5 in
      let same_manifest = ok-injective e6 in
      let lengths : not (length used == length files) ≡ false = refuse_if-eq-ok _ _ all_used in
      let (f, found) =
        read_metadata-Member hash done limits files decode_descriptor decode_manifest
          limits.metadata_bytes manifest_name r in
      let start =
        IsUsed-cons files [] manifest_name f (record { distinct = nil; present = tt }) found refl in
      let (same, u, ids, traces) =
        validate_traces-IsTrace hash decode_descriptor done limits files (manifest_name ∷ []) []
          manifest.traces start nil t in
      let (index, count) =
        index_files-IsIndex limits [] entries small
          (record { distinct = nil; entries = tt; expanded = omega arith }) i in
      subst (IsArchive hash limits entries) same_manifest (record {
        files = files;
        few = ground arith;
        same_entries = index_files-by_name limits [] 0 entries i;
        indexed = index_files-Member limits [] 0 entries i;
        index = index;
        not_empty =
            length-ne-nil manifest.traces (manifest_traces manifest (refuse_if-eq-ok _ _ full));
        traces = traces;
        identities = ids;
        once = subst Distinct same u.distinct;
        present = subst (All (λ k. Member k (keys files))) same u.present;
        accounted = All-members _ (keys files) (λ k listed_key.
            subst (λ us. contains k us ≡ true) same
              (Distinct-covers used (keys files) u.distinct (All-Member _ used u.present)
                (same_length used files lengths) k listed_key));
      })

  -- An archive that `Validate` accepts, within limits below 2^63: its central directory was walked
  -- and is exact, it has at most `limits.Files` entries, every entry is a regular file under a
  -- safe path of its own, no file and no sum of sizes passes the limits, the manifest is not
  -- empty and no trace occurs twice, every source file holds the bytes of its size and digest,
  -- every revision digest is that of the listed files, and the entries are exactly those that the
  -- manifest lists, each once.
  pub validate-IsArchive :
      (size : ℕ) (limits : Limits) {m : Manifest}
      → limits.expanded_bytes < 2 ^ 63
      → limits.archive_bytes < 2 ^ 63
      → validate hash decode_manifest decode_descriptor done read zipped size limits ≡ ok m
      → (entries : List ZipFile) × (zipped ≡ some entries)
        × IsArchive hash limits entries m
        × (size ≤ limits.archive_bytes)
        × (tail : Text) × (read (size - min size 65557) (min size 65557) ≡ some tail)
        × IsAccepted read
            (λ n. done (at_header n))
            limits.files
            size
            (size - min size 65557)
            tail
            (min size 65557 - 21)
  unfolding validate
  validate-IsArchive size limits {m} small archive e =
      let (a, positive, e1) = bind-eq-ok (refuse_if (not (limits_positive limits)) _) _ e in
      let (b, ranged, e2) =
        bind-eq-ok (refuse_if (size == 0 || ltb limits.archive_bytes size) _) _ e1 in
      let (c, directory, e3) =
        bind-eq-ok (check_directory_size read (λ n. done (at_header n)) limits.files size) _ e2 in
      let (entries, z, e4) = bind-eq-ok (or_invalid_zip zipped) _ e3 in
      let range = refuse_if-eq-ok _ _ ranged in
      let fits : size ≤ limits.archive_bytes = ground arith in
      let (tail, got, accepted) =
        check_directory_size-IsAccepted read (λ n. done (at_header n)) limits.files size
          (omega arith) directory in
      (
        entries,
        or_invalid_zip_lem zipped entries z,
        validate_entries-IsArchive limits entries small e4,
        fits,
        tail,
        got,
        accepted,
      )
