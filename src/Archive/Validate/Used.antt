-- ===== src/Archive/Validate/Used.antt =====
-- The entries that the manifest accounts for, and what is known of each source file.
use traicr.Prelude.{
  ℕ, ◌+◌, ◌-◌, ◌≤◌, ◌≡◌, refl, sym, ◌≢◌, inl, inr, Bool, true, false, not, ◌||◌, Option, some, List,
  [], ◌∷◌, ◌++◌, arith, ◌==◌, Option-cases, length, take, length-take, take_whole, length-ne-nil,
  Member, All, Text, codes, text_eq, text_eq_iff, text_eq-ne, has_prefix, ok, ok-injective,
  bind-eq-ok, refuse_if, refuse_if-eq-ok,
}
use mathlib.Core.Path.{subst}
use traicr.Prelude.Keys.{contains, lookup, lookup-Member, keys, Distinct, more}
use traicr.Domain.{ℤ, pos, negsuc, File, Descriptor}
use traicr.Archive.Paths.{safe_path}
use traicr.Archive.Digest.{revision_digest}
use traicr.Archive.Validate.{
  Limits, ZipFile, Files, Content, bytes, not_opened, not_read, Poll, at_source, source_entry,
  source_size, check_content, validate_sources, validate_trace, read_metadata, descriptor_eq,
  descriptor_name,
}

-- The names that a trace's sources add to those already used.
abbrev source_name : Text → File → Text
source_name base f = base ++ (b'/' ∷ f.path)

abbrev pub with_sources : Text → List Text → List File → List Text
with_sources base used [] = used
with_sources base used (f ∷ files) = with_sources base (source_name base f ∷ used) files

-- The set of used names: without repeats, and of entries of the archive only.
pub record IsUsed (files : Files) (used : List Text) : Type 0 where
  pub distinct : Distinct used
  pub present : All (λ k. Member k (keys files)) used

-- The archive holds the bytes that a source file's descriptor promises.
pub record IsStored (hash : Text → Text) (limits : Limits) (files : Files) (base : Text) (f : File)
    : Type 0 where
  pub size : ℕ
  pub content : Text
  pub file : ZipFile
  pub found : lookup (source_name base f) files ≡ some file
  pub holds : file.content ≡ bytes content
  size_is : f.size ≡ pos size
  length_is : length content ≡ size
  pub within : size ≤ limits.file_bytes
  digest_is : hash content ≡ f.sha256
  pub safe : safe_path f.path (limits.depth - 2) ≡ true

take_all : (n : ℕ) (t : Text) → length (take (n + 1) t) ≡ n → (take (n + 1) t ≡ t) × (length t ≡ n)
take_all n t h =
    let short : length t ≤ n + 1 = omega (arith, length-take (n + 1) t) in
    let len : length t ≡ n = omega (arith, length-take (n + 1) t) in
    (take_whole (n + 1) t short, len)

check_content_lem :
    (hash : Text → Text) (size : ℕ) (expected : Text) (c : Content)
    → check_content hash size expected c ≡ ok tt
    → (t : Text) × (c ≡ bytes t) × (length t ≡ size) × (hash t ≡ expected)
unfolding check_content
check_content_lem hash size expected not_opened e = absurd (ground arith)
check_content_lem hash size expected not_read e = absurd (ground arith)
check_content_lem hash size expected (bytes t) e =
    let passed =
      refuse_if-eq-ok
        (not (length (take (size + 1) t) == size)
          || not (text_eq (hash (take (size + 1) t)) expected))
        _ e in
    let whole = take_all size t (ground arith) in
    let same : text_eq (hash (take (size + 1) t)) expected ≡ true = ground arith in
    (t, refl, whole.1, (text_eq_iff (hash t) expected).0 (rw (whole.0) at same))

source_entry_lem :
    (files : Files) (used : List Text) (name : Text) (size : ℕ) (file : ZipFile)
    → source_entry files used name size ≡ ok file
    → (lookup name files ≡ some file) × (contains name used ≡ false)
unfolding source_entry
source_entry_lem files used name size file e = elim (Option-cases (lookup name files)) [
  | inl absent ↦ absurd (ground arith)
  | inr (f, found) ↦ (ground arith, ground arith)
]

source_size_lem :
    (limit : ℕ) (z : ℤ) (n : ℕ) → source_size limit z ≡ ok n → (z ≡ pos n) × (n ≤ limit)
unfolding source_size
source_size_lem limit (pos m) n e = ground arith
source_size_lem limit (negsuc m) n e = ground arith

pub IsUsed-cons :
    (files : Files) (used : List Text) (name : Text) (file : ZipFile)
    → IsUsed files used
    → lookup name files ≡ some file
    → contains name used ≡ false
    → IsUsed files (name ∷ used)
IsUsed-cons files used name file u found fresh = record {
  distinct = more fresh u.distinct;
  present = (lookup-Member name files file found, u.present);
}

module _ (hash : Text → Text) (limits : Limits) (files : Files) where
  abbrev AllStored : Text → List File → Type 0
  AllStored base sources = All (IsStored hash limits files base) sources

  -- A trace of the manifest that the archive holds whole.
  pub record IsTrace (d : Descriptor) : Type 0 where
    pub named : d.harness ≢ []
    pub identified : d.native_trace_id ≢ []
    pub safe : safe_path d.path 2 ≡ true
    pub digest : d.revision_digest ≡ revision_digest hash d.files
    pub not_empty : d.files ≢ []
    pub stored : AllStored d.path d.files

module _ (hash : Text → Text) (done : Poll → Bool) (limits : Limits) (files : Files) where
  validate_sources-IsStored :
      (base : Text) (used : List Text) (sources : List File) {used' : List Text}
      → IsUsed files used
      → validate_sources hash done limits files base used sources ≡ ok used'
      → (used' ≡ with_sources base used sources)
        × IsUsed files used'
        × AllStored hash limits files base sources
  unfolding validate_sources
  validate_sources-IsStored base used [] u e =
      let same = ok-injective e in (sym same, subst (IsUsed files) same u, tt)
  validate_sources-IsStored base used (f ∷ rest) {used'} u e =
      let (a, c, e1) = bind-eq-ok (refuse_if (done (at_source base f.path)) _) _ e in
      let (b, d, e2) =
        bind-eq-ok
          (refuse_if
            (not (safe_path f.path (limits.depth - 2)) || not (has_prefix f.path (codes "source/")))
            _)
          _ e1 in
      let (size, g, e3) = bind-eq-ok (source_size limits.file_bytes f.size) _ e2 in
      let (file, h, e4) = bind-eq-ok (source_entry files used (source_name base f) size) _ e3 in
      let (w, k, e5) = bind-eq-ok (check_content hash size f.sha256 file.content) _ e4 in
      let path_ok = refuse_if-eq-ok _ _ d in
      let (size_is, within) = source_size_lem limits.file_bytes f.size size g in
      let (found, fresh) = source_entry_lem files used (source_name base f) size file h in
      let (content, holds, len, digest) = check_content_lem hash size f.sha256 file.content k in
      let (same, u', stored) =
        validate_sources-IsStored base (source_name base f ∷ used) rest
          (IsUsed-cons files used (source_name base f) file u found fresh) e5 in
      (
        same,
        u',
        (
          record {
            size = size;
            content = content;
            file = file;
            found = found;
            holds = holds;
            size_is = size_is;
            length_is = len;
            within = within;
            digest_is = digest;
            safe = ground arith;
          },
          stored,
        ),
      )

  module _ (decode : Text → Option Descriptor) where
    pub read_metadata-Member :
        {A : Type 0} (dec : Text → Option A) (limit : ℕ) (name : Text) {v : A}
        → read_metadata dec limit (lookup name files) ≡ ok v
        → (f : ZipFile) × (lookup name files ≡ some f)
    unfolding read_metadata
    read_metadata-Member dec limit name e = elim (Option-cases (lookup name files)) [
      | inl absent ↦ absurd (ground arith)
      | inr (f, found) ↦ (f, found)
    ]

    pub validate_trace-IsTrace :
        (d : Descriptor) (used : List Text) {used' : List Text}
        → IsUsed files used
        → validate_trace hash decode done limits files d used ≡ ok used'
        → (used' ≡ with_sources d.path (descriptor_name d ∷ used) d.files)
          × IsUsed files used'
          × IsTrace hash limits files d
    unfolding validate_trace
    validate_trace-IsTrace d used {used'} u e =
        let (a, c, e1) =
          bind-eq-ok
            (refuse_if
              (not (safe_path d.path 2)
                || not (has_prefix d.path (codes "traces/"))
                || text_eq d.harness []
                || text_eq d.native_trace_id []
                || length d.files == 0)
              _)
            _ e in
        let (b, fresh, e2) = bind-eq-ok (refuse_if (contains (descriptor_name d) used) _) _ e1 in
        let (copy, r, e3) =
          bind-eq-ok (read_metadata decode limits.metadata_bytes (lookup (descriptor_name d) files))
            _ e2 in
        let (w, g, e4) =
          bind-eq-ok
            (refuse_if
              (not (descriptor_eq copy d)
                || not (text_eq d.revision_digest (revision_digest hash d.files)))
              _)
            _ e3 in
        let (f, found) = read_metadata-Member decode limits.metadata_bytes (descriptor_name d) r in
        let u1 = IsUsed-cons files used (descriptor_name d) f u found (refuse_if-eq-ok _ _ fresh) in
        let (same, u', stored) =
          validate_sources-IsStored d.path (descriptor_name d ∷ used) d.files u1 e4 in
        let complete = refuse_if-eq-ok _ _ c in
        let matches = refuse_if-eq-ok _ _ g in
        let digest : text_eq d.revision_digest (revision_digest hash d.files) ≡ true =
          ground arith in
        let harness : text_eq d.harness [] ≡ false = ground arith in
        let native : text_eq d.native_trace_id [] ≡ false = ground arith in
        (
          same,
          u',
          record {
            named = text_eq-ne d.harness [] harness;
            identified = text_eq-ne d.native_trace_id [] native;
            safe = ground arith;
            digest = (text_eq_iff _ _).0 digest;
            not_empty = length-ne-nil d.files (ground arith);
            stored = stored;
          },
        )
