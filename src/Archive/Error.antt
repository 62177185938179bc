-- ===== src/Archive/Error.antt =====
-- The refusals of validate.go and archive.go, one constructor for each message.
pub data ArchiveError : Type 0 where
  limits_not_positive archive_size too_many_files unsafe_path duplicate_path : ArchiveError
  expansion_exceeded file_missing metadata_exceeded metadata_invalid : ArchiveError
  manifest_incomplete duplicate_trace unlisted_files incomplete_descriptor : ArchiveError
  duplicate_trace_path digest_mismatch invalid_source_file source_mismatch : ArchiveError
  open_failed read_failed corrupt_source source_digest_mismatch cancelled invalid_zip : ArchiveError
  invalid_zip64_directory invalid_zip64_offset invalid_zip64_header : ArchiveError
  invalid_bounds truncated_directory invalid_entry count_mismatch end_missing : ArchiveError
  out_of_fuel : ArchiveError
