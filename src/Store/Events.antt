-- ===== src/Store/Events.antt =====
-- `insertEvents` and `validateEvents` of internal/store/store.go.
pub mod Total
use mathlib.Core.Option
use traicr.Prelude.{
  ℕ, zero, suc, ◌+◌, ◌-◌, ◌*◌, ◌/◌, ◌%◌, ◌^◌, ◌≤◌, ◌<◌, min, max, ◌≡◌, refl, sym, ap, ◌∙◌, ◌≢◌, ◌↔◌,
  ◌⊎◌, inl, inr, Bool, true, false, not, ◌&&◌, ◌||◌, Option, none, some, List, [], ◌∷◌, ◌++◌, map,
  arith, ltb, leb, ◌==◌, if◌then◌else◌, ltb→lt, leb→le, ==_iff, Bool-cases, Option-cases, length,
  get_elem?, take, drop, slice, length-append, length-take, length-drop, take-append-drop,
  take_whole, length-ne-nil, Member, here, there, Member-append_left, Member-append_right, All,
  All-append, Text, codes, text_eq, text_eq_iff, text_eq_refl, text_eq-ne, text_leb, text_leb_refl,
  text_leb_trans, text_leb_total, text_leb_antisym, has_prefix, contains_byte, count_byte, Result,
  ok, err, ok-injective, Result-cases, bind-eq-ok, refuse_if, refuse_if-eq-ok, ◌>>=◌, ◌>>◌,
}
use traicr.Domain.{Event, SourceRef, Warning}
use traicr.Search.{chunks}
use traicr.Store.Table.{find, exists, max_of}
use traicr.Store.Db.{
  Db, EventRow, ObservationRow, ObservationRevision, ObservationSource, Env, Sql, StoreError,
  constraint, empty_key, or_no_rows, canonical_time,
}
use traicr.Store.SearchText.{searchable_text, index_text}
use traicr.Store.Preferred.{set_preferred}

abbrev pub is_event : ℕ → Text → EventRow → Bool
is_event trace key e = e.trace_id == trace && text_eq e.event_key key

abbrev pub is_observation : ℕ → Text → ObservationRow → Bool
is_observation event digest o = o.event_id == event && text_eq o.digest digest

-- The row that `INSERT` makes.
abbrev pub add_event : ℕ → Text → Text → Db → Db
add_event trace key time db = record db {
  events =
      (record {
        id = db.event_seq + 1;
        trace_id = trace;
        event_key = key;
        sort_time = time;
        preferred_observation_id = none;
      })
      ∷ db.events;
  event_seq = db.event_seq + 1;
}

-- `REFERENCES traces(id)` and `REFERENCES trace_revisions(id)`
abbrev pub has_trace : Db → ℕ → Bool
has_trace db trace = exists (λ t. t.id == trace) db.traces

abbrev pub has_revision : Db → ℕ → Bool
has_revision db revision = exists (λ r. r.id == revision) db.revisions

-- `INSERT OR IGNORE INTO events`; what is ignored are rows that are there, not references to a trace that is not.
unfoldable pub ensure_event : ℕ → Text → Text → Db → Sql Db
ensure_event trace key time db =
    if exists (is_event trace key) db.events
    then ok db
    else if has_trace db trace
    then ok (add_event trace key time db)
    else err constraint

-- `INSERT OR IGNORE INTO event_observations`
unfoldable pub ensure_observation :
    ℕ → Text → Text → Event → List ObservationRow → List ObservationRow
ensure_observation event digest time e rows =
    if exists (is_observation event digest) rows
    then rows
    else (record {
      id = max_of (λ o. o.id) rows + 1;
      event_id = event;
      digest = digest;
      event_time = time;
      event = e;
    })
      ∷ rows

-- `INSERT OR IGNORE INTO observation_revisions`, for an observation that was just read.
unfoldable pub ensure_observation_revision : ℕ → ℕ → Text → Db → Sql (List ObservationRevision)
ensure_observation_revision observation revision text db =
    if exists (λ x. x.observation_id == observation && x.revision_id == revision)
      db.observation_revisions
    then ok db.observation_revisions
    else if has_revision db revision
    then ok (
        (record { observation_id = observation; revision_id = revision; searchable_text = text })
        ∷ db.observation_revisions)
    else err constraint

abbrev pub is_source : ℕ → ℕ → ℕ → ObservationSource → Bool
is_source observation revision ordinal s =
    s.observation_id == observation && s.revision_id == revision && s.ordinal == ordinal

-- `INSERT INTO observation_sources` for each reference; the result is also `next`.
unfoldable pub insert_sources :
    ℕ → ℕ → ℕ → List SourceRef → List ObservationSource → Sql (ℕ × List ObservationSource)
insert_sources observation revision next [] rows = ok (next, rows)
insert_sources observation revision next (s ∷ refs) rows = do
  refuse_if (exists (is_source observation revision next) rows) constraint
  insert_sources observation revision (next + 1) refs (
      (record {
        observation_id = observation;
        revision_id = revision;
        ordinal = next;
        path = s.path;
        line = s.line;
      })
      ∷ rows)

version_is : Option ℕ → Option ℕ → Bool
version_is (some a) (some b) = a == b
version_is _ _ = false

-- `normalizer_version` of a revision, if the revision is there
unfoldable pub version_of : Db → ℕ → Option ℕ
version_of db revision =
    Option.map (λ r. r.normalizer_version) (find (λ r. r.id == revision) db.revisions)

other_observation : ℕ → Text → Option ObservationRow → Bool
other_observation event digest none = false
other_observation event digest (some o) = o.event_id == event && not (text_eq o.digest digest)

-- Whether another revision of the same normalizer version holds a different observation.
unfoldable pub differs : Db → ℕ → Text → ℕ → Bool
unfolding version_is other_observation
differs db event digest revision =
    exists
      (λ x.
        other_observation event digest (find (λ o. o.id == x.observation_id) db.observations)
        && version_is (version_of db x.revision_id) (version_of db revision))
      db.observation_revisions

-- The map `ordinals`: the newest entry of an observation counts.
unfoldable pub lookup_ordinal : ℕ → List (ℕ × ℕ) → Option ℕ
lookup_ordinal k [] = none
lookup_ordinal k ((j, n) ∷ m) = if j == k then some n else lookup_ordinal k m

abbrev pub or_zero : Option ℕ → ℕ
or_zero none = 0
or_zero (some n) = n

abbrev pub is_present : Option ℕ → Bool
is_present none = false
is_present (some _) = true

-- The variables of the loop over the events.
pub record Inserting : Type 0 where
  pub db : Db
  pub conflicts : List Warning
  pub ordinals : List (ℕ × ℕ)

abbrev pub conflicting : Event → Warning
conflicting e = record {
  code = codes "conflicting_observation";
  message = codes "conflicting observations retained for event " ++ e.key;
}

abbrev pub duplicate : Event → Warning
duplicate e = record {
  code = codes "duplicate_event";
  message =
      codes "identical repeated event "
      ++ (e.key ++ codes " was retained once with its source references merged");
}

-- `searchable`
abbrev pub searchable : Text → Event → Text
searchable labels e = searchable_text e ++ (b'\n' ∷ labels)

module _ (env : Env) (trace revision : ℕ) (labels : Text) where
  -- The rest of a round, from the source references on, for the observation with a key.
  unfoldable pub attach : Event → ℕ → ℕ → Inserting → Sql Inserting
  attach e event observation st = do
    let known = lookup_ordinal observation st.ordinals
    (next, sources) ←
        insert_sources observation revision (or_zero known) e.sources st.db.observation_sources
    let db = record st.db { observation_sources = sources }
    let ordinals = (observation, next) ∷ st.ordinals
    let first = (do
      cs ← index_text observation revision event (searchable labels e) db.search_chunks
      ok (record {
        db = set_preferred event (record db { search_chunks = cs });
        conflicts = st.conflicts;
        ordinals = ordinals;
      }))
    if is_present known
        then ok (record {
          db = db;
          conflicts = st.conflicts ++ (duplicate e ∷ []);
          ordinals = ordinals;
        })
        else first

  -- One round of the loop.
  unfoldable pub insert_event : Event → Inserting → Sql Inserting
  insert_event e st = do
    refuse_if (text_eq e.key []) empty_key
    db ← ensure_event trace e.key (canonical_time env e.timestamp) st.db
    row ← or_no_rows (find (is_event trace e.key) db.events)
    let stripped = record e { sources = [] }
    let digest = env.event_digest stripped
    let conflicts =
        if differs db row.id digest revision
        then st.conflicts ++ (conflicting e ∷ [])
        else st.conflicts
    let observations =
        ensure_observation row.id digest (canonical_time env e.timestamp) stripped db.observations
    o ← or_no_rows (find (is_observation row.id digest) observations)
    links ← ensure_observation_revision o.id revision (searchable labels e) db
    attach e row.id o.id (record {
      db = record db { observations = observations; observation_revisions = links };
      conflicts = conflicts;
      ordinals = st.ordinals;
    })

  unfoldable pub insert_loop : List Event → Inserting → Sql Inserting
  insert_loop [] st = ok st
  insert_loop (e ∷ events) st = do st' ← insert_event e st; insert_loop events st'

  -- `insertEvents`
  unfoldable pub insert_events : List Event → Db → Sql (List Warning × Db)
  insert_events events db = do
    st ← insert_loop events (record { db = db; conflicts = []; ordinals = [] })
    ok (st.conflicts, st.db)

-- `validateEvents`
unfoldable pub validate_events : List Event → Bool
validate_events [] = true
validate_events (e ∷ events) = if text_eq e.key [] then false else validate_events events
