-- ===== src/Domain.antt =====
-- internal/domain/types.go: the records that the collector, the archive and the server exchange.
-- A Go string is its bytes; a JSON integer that the code compares may be negative.
use traicr.Prelude.{ℕ, Bool, List, Text, ◌==◌, false, ◌&&◌, text_eq, []}

-- Go's `int64`, as far as the program tells its values apart. `negsuc n` is -(n + 1).
pub data ℤ : Type 0 where
  pos : ℕ → ℤ
  negsuc : ℕ → ℤ

-- `a == int64(n)`
unfoldable pub int_is : ℤ → ℕ → Bool
int_is (pos m) n = m == n
int_is (negsuc m) n = false

pub record Machine : Type 0 where
  pub id : Text
  pub hostname : Text
  pub os : Text
  pub arch : Text

-- The code is a program constant; the message is its text.
pub record Warning : Type 0 where
  pub code : Text
  pub message : Text

pub record File : Type 0 where
  pub path : Text
  pub size : ℤ
  pub sha256 : Text

pub record Repository : Type 0 where
  pub remote : Text
  pub root : Text

pub record Descriptor : Type 0 where
  pub path : Text
  pub harness : Text
  pub adapter : Text
  pub native_trace_id : Text
  pub native_updated_at : Text
  pub revision_digest : Text
  pub parent_native_trace_id : Text
  pub title : Text
  pub working_directory : Text
  pub repository : Repository
  pub files : List File
  pub warnings : List Warning

pub record Manifest : Type 0 where
  pub format_version : ℤ
  pub collector_version : Text
  pub created_at : Text
  pub source_machine : Machine
  pub traces : List Descriptor

pub record SourceRef : Type 0 where
  pub path : Text
  pub line : ℕ

pub record Attachment : Type 0 where
  pub name : Text
  pub media_type : Text
  pub path : Text
  pub url : Text
  pub source_pointer : Text
  pub inline : Bool
  pub archived_path : Text
  pub size : ℕ

pub record Event : Type 0 where
  pub key : Text
  pub parent_key : Text
  pub branch : Text
  pub kind : Text
  pub role : Text
  pub model : Text
  pub provider : Text
  pub tool : Text
  pub call_id : Text
  pub timestamp : Text
  pub text : Text
  pub sources : List SourceRef
  pub attachments : List Attachment
  pub metadata : Text
  pub legacy_keys : List Text

pub record Normalization : Type 0 where
  pub version : ℕ
  pub status : Text
  pub events : List Event
  pub warnings : List Warning
  pub title : Text

pub record TraceOutcome : Type 0 where
  pub trace_id : ℕ
  pub harness : Text
  pub native_trace_id : Text
  pub revision_digest : Text
  pub status : Text
  pub warnings : List Warning
  pub error : Text

pub record ImportReport : Type 0 where
  pub id : ℕ
  pub created_at : Text
  pub machine : Machine
  pub imported : ℕ
  pub updated : ℕ
  pub unchanged : ℕ
  pub partial : ℕ
  pub unsupported : ℕ
  pub failed : ℕ
  pub complete : Bool
  pub traces : List TraceOutcome

abbrev pub format_version : ℕ
format_version = 1

-- `repository == (domain.Repository{})`
unfoldable pub is_empty_repository : Repository → Bool
is_empty_repository r = text_eq r.remote [] && text_eq r.root []
