-- ===== src/Titles.antt =====
-- internal/titles: traces without a title are named by a language model.
pub mod Prompt
pub mod Worker
