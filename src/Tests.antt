-- ===== src/Tests.antt =====
-- Runs of the models at concrete inputs, and the theorems at inputs that meet their conditions.
mod Archives
mod Searches
mod Fixtures
mod Gathering
mod Servers
mod Stores
mod Transcripts
mod Uploads
mod Namings
mod Rows
mod Renames
mod Collections
