-- ===== src/Lib.antt =====
-- Verification library for traicr, which collects the traces of coding agents on many machines,
-- carries them to one server as ZIP archives and keeps them there, searchable.
--
-- The program's parts and the files that model them:
--
-- Domain (internal/domain/types.go) has the records that the parts exchange. A Go string is the list
-- of its bytes; `json` blobs of an event are bytes too.
--
-- Archive (internal/archive) is the container. Archive/Paths is `safePath`, Archive/Directory is
-- `checkDirectorySize`, Archive/Digest is `RevisionDigest`, Archive/Validate is `Validate` with
-- `validateTrace` and `readMetadata`. The reader, the ZIP entries, SHA-256 and the JSON decoder are
-- parameters, since they belong to Go's library. Archive/Describe is `Describe` on the
-- visits of a directory, and Archive/Write is `Write` around `writeZIP`. 64-bit sums keep
-- their `% 2 ^ 64`, and an int64 is compared by its sign.
--
-- Search (internal/search/text.go) cuts text into the chunks that the search index holds (`Chunks`);
-- Search/Snippet is the preview of a match (`SnippetRange`).
--
-- Store (internal/store) is the server's database and object directory. Store/Db has one record for
-- each table of migrations/001_initial.sql and migrations.go; a table is the list of its rows, and
-- Store/Table has the SQL statements on such lists. Store/Traces, Store/Repositories, Store/Events,
-- Store/Preferred, Store/SearchText, Store/Revisions and Store/Revisions/Backfill are the statements
-- of `commitRevision`, `upsertRepository`, `insertEvents`, `replaceRevisionEvents` and
-- `backfillMissingTraceMetadata`, Store/Objects is `storeObjects` with `writeObject`, Store/Import is
-- `importTrace`, and Store/Import/Loop is `Import` with `beginImport` and `countOutcome`.
-- Store/Titles is `setTitleOverride` and `SetGeneratedTitle` of titles.go with the reindexing of search text.
-- Store/Maintenance is `gc` and `DeleteTrace` of maintenance.go; Store/Maintenance/Links has the references of the schema.
-- The statements that can break a foreign key (events, observation_revisions, the repository of a trace) test it; the other references are to rows that
-- the same operation has just read or written. Errors of the disk in `gc` are a parameter.
-- An operation returns its result with the new state, or an error, and then the state of before is
-- kept, as a transaction that is rolled back leaves it. `Validate` gives `Import` the manifest and the
-- sources; `Import` calls the normalizer of the harness, which is a parameter here.
--
-- Collector (internal/collector) runs on each machine. Collector/Collect is `Collect`: it asks the adapters, describes what
-- they give, drops what the server has and hands the rest to `archive.Write`. Collector/Upload is the check of an answer
-- (`readCompleteReport`, `validateOutcomes`, `acknowledge`), and Collector/Upload/Files is `Upload`, which validates each archive with the model of
-- `archive.Validate`, reads the server's answer and keeps the acknowledged revisions in the configuration. Collector/Upload/Agreed puts
-- `Import` and `validateOutcomes` together. The adapters, the HTTP client, URLs and the disk are parameters.
--
-- Store/Transcript is `TranscriptEvents` of transcript.go with the cache of its orders, for the keys of the events.
--
-- Titles (internal/titles): Titles/Prompt is the excerpt that a title is made from, and Titles/Worker is the worker with `Generate` and
-- the store's `TitleCandidates`. The model's answers and the regular expressions are parameters.
--
-- Server (internal/server): Server/Logs is the buffer of log records with its pages (logs.go), and Server/Auth is auth.go: sessions, form
-- tokens and the guards before the handlers. HMAC, SHA-256, random text and `strconv` are parameters.
--
-- Prelude has the shared lists, strings, sets, UTF-8 and results. Tests runs the models at concrete
-- inputs.
--
-- Fuel: the loops of `Chunks` and of `checkDirectorySize` run on fuel. `Chunks` gets one round for
-- each byte and one more, `Write` one for each trace; the walk over a central directory gets one round more than the entries
-- allowed; `gc` gets one round for each stored object and one more; all are shown to be enough. The other loops are structural recursion.
--
-- Not modelled: reading and opening files and the database, errors of the database itself, the word and trigram indexes (they follow
-- `search_chunks` by triggers), contexts that are cancelled inside the store, progress reports, the
-- server's other handlers, the redaction of its log, the collector's adapters, the normalizers, the request to the title model, the web
-- application.
pub mod Prelude
pub mod Domain
pub mod Archive
pub mod Collector
pub mod Search
pub mod Server
pub mod Store
pub mod Titles
mod Tests
