-- ===== src/Archive/Describe.antt =====
-- `Describe` and the numbering in `Write` of internal/archive/archive.go. The walk over the directory is a parameter: the
-- list of what `filepath.WalkDir` visits. A context that is cancelled is left out.
pub mod Hashed
use traicr.Prelude.{
  ℕ, zero, suc, ◌+◌, ◌-◌, ◌*◌, ◌/◌, ◌%◌, ◌^◌, ◌≤◌, ◌<◌, min, max, ◌≡◌, refl, sym, ap, ◌∙◌, ◌≢◌, ◌↔◌,
  ◌⊎◌, inl, inr, Bool, true, false, not, ◌&&◌, ◌||◌, Option, none, some, List, [], ◌∷◌, ◌++◌, map,
  arith, ltb, leb, ◌==◌, if◌then◌else◌, ltb→lt, leb→le, ==_iff, Bool-cases, Option-cases, length,
  get_elem?, take, drop, slice, length-append, length-take, length-drop, take-append-drop,
  take_whole, length-ne-nil, Member, here, there, Member-append_left, Member-append_right, All,
  All-append, Text, codes, text_eq, text_eq_iff, text_eq_refl, text_eq-ne, text_leb, text_leb_refl,
  text_leb_trans, text_leb_total, text_leb_antisym, has_prefix, contains_byte, count_byte, Result,
  ok, err, ok-injective, Result-cases, bind-eq-ok, refuse_if, refuse_if-eq-ok, ◌>>=◌, ◌>>◌,
}
use traicr.Domain.{File, Descriptor, ℤ, pos}
use traicr.Archive.Paths.{safe_path}
use traicr.Archive.Digest.{revision_digest}

-- A file in the directory: its slashed path in it, the size that `Info` gives, and the bytes that are read, if it can be read.
pub data Visit : Type 0 where
  walk_failed directory not_regular : Visit
  regular : Text → ℕ → Option Text → Visit

-- `Input`, with the visits of its directory.
pub record Input : Type 0 where
  pub descriptor : Descriptor
  pub visits : List Visit
  pub source : Text
  pub stamp : Text

pub data DescribeError : Type 0 where
  cannot_walk irregular outside_source cannot_read changed no_files : DescribeError

-- The part of the callback that hashes a file.
unfoldable pub hash_file : (Text → Text) → Text → ℕ → Option Text → Result DescribeError File
hash_file hash path size none = err cannot_read
hash_file hash path size (some content) =
    let copied = take (size + 1) content in
    if not (length copied == size)
    then err changed
    else ok (record { path = path; size = pos (length copied); sha256 = hash copied })

-- The callback of the walk, on the files so far.
unfoldable pub visit : (Text → Text) → List File → Visit → Result DescribeError (List File)
visit hash files walk_failed = err cannot_walk
visit hash files directory = ok files
visit hash files not_regular = err irregular
visit hash files (regular path size content) = do
  refuse_if (not (safe_path path 32) || not (has_prefix path (codes "source/"))) outside_source
  file ← hash_file hash path size content
  ok (files ++ (file ∷ []))

unfoldable pub walk : (Text → Text) → List Visit → List File → Result DescribeError (List File)
walk hash [] files = ok files
walk hash (v ∷ visits) files = do files' ← visit hash files v; walk hash visits files'

-- `Describe`
unfoldable pub describe : (Text → Text) → Input → Result DescribeError Descriptor
describe hash input = do
  files ← walk hash input.visits []
  refuse_if (length files == 0) no_files
  ok (record input.descriptor { files = files; revision_digest = revision_digest hash files })
