-- ===== src/Store/Maintenance/Links.antt =====
-- The references between the tables (`REFERENCES … ON DELETE CASCADE` of migrations/001_initial.sql)
-- and what `DELETE FROM traces` makes of them.
use traicr.Prelude.{
  ◌∙◌, ap, inr, inl, ℕ, ◌≡◌, refl, Bool, true, false, ◌&&◌, ◌||◌, List, [], ◌∷◌, ◌==◌, arith,
  Bool-cases, All,
}
use traicr.Store.Table.{exists, delete_where}
use traicr.Store.Table.Rows.{exists_none, exists-delete_other}
use traicr.Store.Db.{Db, ObservationRevision, SourceObject}
use traicr.Store.Maintenance.{revision_in, observation_of, delete_trace_rows}

-- Each child has a parent that it names.
abbrev pub Refers : {A B : Type 0} → (A → B → Bool) → List A → List B → Type 0
Refers names children parents = All (λ x. exists (names x) parents ≡ true) children

-- Where the children of the deleted parents are deleted with them, every child still has one.
cascade :
    {A B : Type 0} (names : A → B → Bool) (gone : A → Bool) (deleted : B → Bool) (xs : List A)
    (ys : List B)
    → ((x : A) → gone x ≡ false → exists (λ y. names x y && deleted y) ys ≡ false)
    → Refers names xs ys
    → Refers names (delete_where gone xs) (delete_where deleted ys)
unfolding delete_where
cascade names gone deleted [] ys h a = tt
cascade names gone deleted (x ∷ xs) ys h (found, a) =
    let rest = cascade names gone deleted xs ys h a in
    elim (Bool-cases (gone x)) [
      | inl t ↦ rw t rest
      | inr f ↦ rw f (exists-delete_other (names x) deleted ys found (h x f), rest)
    ]

-- The references of the tables that a deleted trace can have rows in.
pub record IsLinked (db : Db) : Type 0 where
  pub revisions : Refers (λ r t. t.id == r.trace_id) db.revisions db.traces
  pub events : Refers (λ e t. t.id == e.trace_id) db.events db.traces
  pub aliases : Refers (λ a t. t.id == a.trace_id) db.aliases db.traces
  pub machines : Refers (λ m r. r.id == m.revision_id) db.revision_machines db.revisions
  pub runs : Refers (λ n r. r.id == n.revision_id) db.normalizer_runs db.revisions
  pub objects : Refers (λ o r. r.id == o.revision_id) db.revision_objects db.revisions
  pub observations : Refers (λ o e. e.id == o.event_id) db.observations db.events
  pub chunk_events : Refers (λ c e. e.id == c.event_id) db.search_chunks db.events
  pub of_revision : Refers (λ x r. r.id == x.revision_id) db.observation_revisions db.revisions
  pub of_observation :
      Refers (λ x o. o.id == x.observation_id) db.observation_revisions db.observations
  pub sources :
      Refers
        (λ s x. x.observation_id == s.observation_id && x.revision_id == s.revision_id)
        db.observation_sources
        db.observation_revisions
  pub chunks :
      Refers
        (λ c x. x.observation_id == c.observation_id && x.revision_id == c.revision_id)
        db.search_chunks
        db.observation_revisions

module _ (trace : ℕ) (db : Db) where
  -- A row that names another trace, and one that names a row that stays.
  of_trace :
      {A : Type 0} (key : A → ℕ) (n : ℕ) (xs : List A)
      → (n == trace) ≡ false
      → exists (λ x. (key x == n) && (key x == trace)) xs ≡ false
  of_trace key n xs h = exists_none _ xs (λ x. ground arith)

  of_pair :
      (observation revision : ℕ)
      → (revision_in db trace revision || observation_of db trace observation) ≡ false
      → exists
          (λ x.
            (x.observation_id == observation && x.revision_id == revision)
            && (revision_in db trace x.revision_id || observation_of db trace x.observation_id))
          db.observation_revisions
        ≡ false
  of_pair observation revision h =
      let left : (x : ObservationRevision)
          → (x.observation_id == observation && x.revision_id == revision) ≡ true
          → x.observation_id ≡ observation =
        λ x e. ground arith in
      let right : (x : ObservationRevision)
          → (x.observation_id == observation && x.revision_id == revision) ≡ true
          → x.revision_id ≡ revision =
        λ x e. ground arith in
      exists_none _ db.observation_revisions (λ x.
        elim (Bool-cases (x.observation_id == observation && x.revision_id == revision)) [
          | inr f ↦ rw f refl
          | inl e ↦
              let same =
                ap (λ n. revision_in db trace n || observation_of db trace x.observation_id)
                  (right x e)
                ∙ ap (λ n. revision_in db trace revision || observation_of db trace n) (left x e)
                ∙ h in
              rw (e, same) refl
        ])

  pub delete_trace_rows-IsLinked : IsLinked db → IsLinked (delete_trace_rows trace db)
  unfolding delete_trace_rows
  delete_trace_rows-IsLinked l = record {
    revisions =
        cascade _ _ _ db.revisions db.traces (λ r h. of_trace (λ t. t.id) r.trace_id db.traces h)
          l.revisions;
    events =
        cascade _ _ _ db.events db.traces (λ e h. of_trace (λ t. t.id) e.trace_id db.traces h)
          l.events;
    aliases =
        cascade _ _ _ db.aliases db.traces (λ a h. of_trace (λ t. t.id) a.trace_id db.traces h)
          l.aliases;
    machines = cascade _ _ _ db.revision_machines db.revisions (λ m h. h) l.machines;
    runs = cascade _ _ _ db.normalizer_runs db.revisions (λ m h. h) l.runs;
    objects = cascade _ _ _ db.revision_objects db.revisions (λ m h. h) l.objects;
    observations = cascade _ _ _ db.observations db.events (λ o h. h) l.observations;
    chunk_events = cascade _ _ _ db.search_chunks db.events (λ c h. ground arith) l.chunk_events;
    of_revision =
        cascade _ _ _ db.observation_revisions db.revisions (λ x h. ground arith) l.of_revision;
    of_observation =
        cascade _ _ _ db.observation_revisions db.observations (λ x h. ground arith)
          l.of_observation;
    sources =
        cascade _ _ _ db.observation_sources db.observation_revisions
          (λ s h. of_pair s.observation_id s.revision_id h) l.sources;
    chunks =
        cascade _ _ _ db.search_chunks db.observation_revisions
          (λ c h. of_pair c.observation_id c.revision_id (ground arith)) l.chunks;
  }

-- The objects are not among these tables.
pub IsLinked-objects :
    (db : Db) (objects : List SourceObject)
    → IsLinked db
    → IsLinked (record db { source_objects = objects })
IsLinked-objects db objects l = record {
  revisions = l.revisions;
  events = l.events;
  aliases = l.aliases;
  machines = l.machines;
  runs = l.runs;
  objects = l.objects;
  observations = l.observations;
  chunk_events = l.chunk_events;
  of_revision = l.of_revision;
  of_observation = l.of_observation;
  sources = l.sources;
  chunks = l.chunks;
}
