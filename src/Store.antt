-- ===== src/Store.antt =====
-- internal/store: what the server keeps of the traces, and the operations that change it.
pub mod Table
pub mod Db
pub mod Repositories
pub mod SearchText
pub mod Traces
pub mod Transcript
pub mod Preferred
pub mod Events
pub mod Revisions
pub mod Objects
pub mod Import
pub mod Maintenance
pub mod Titles
