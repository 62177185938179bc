-- ===== src/Store/Events/Total.antt =====
-- Events with keys and valid text never fail an import, repeated records included.
use traicr.Prelude.{ℕ, ◌≤◌, ◌≡◌, true, false, List, [], Text, text_eq}
use traicr.Domain.{Event, SourceRef}
use traicr.Prelude.Utf8.{valid_utf8}
use traicr.Store.Table.{exists}
use traicr.Store.Db.{Db, ObservationSource}
use traicr.Store.Events.{
  has_trace, has_revision, is_source, lookup_ordinal, or_zero, Inserting, searchable,
}

-- No reference of the observation stands at `n` or a later place.
abbrev FreeFrom : ℕ → ℕ → ℕ → List ObservationSource → Type 0
FreeFrom observation revision from rows =
    (n : ℕ) → from ≤ n → exists (is_source observation revision n) rows ≡ false

abbrev sourced : ℕ → ℕ → ℕ → SourceRef → ObservationSource
sourced observation revision next s = record {
  observation_id = observation;
  revision_id = revision;
  ordinal = next;
  path = s.path;
  line = s.line;
}

-- What holds between two rounds: the next ordinal of every observation is free.
abbrev AllFree : ℕ → Inserting → Type 0
AllFree revision st =
    (o : ℕ) → FreeFrom o revision (or_zero (lookup_ordinal o st.ordinals)) st.db.observation_sources

-- The trace and the revision that the rows refer to are there.
abbrev Known : ℕ → ℕ → Db → Type 0
Known trace revision db = (has_trace db trace ≡ true) × (has_revision db revision ≡ true)

-- The tables that the references are looked up in, and the source references, are as they were.
record IsAside (a b : Db) : Type 0 where
  traces : b.traces ≡ a.traces
  revisions : b.revisions ≡ a.revisions
  sources : b.observation_sources ≡ a.observation_sources

-- The events of a revision as the store takes them: with a key, and with text that can be cut.
abbrev IsImportable : Text → Event → Type 0
IsImportable labels e = (text_eq e.key [] ≡ false) × (valid_utf8 (searchable labels e) ≡ true)
