-- ===== src/Tests/Collections.antt =====
-- A store with an object that a revision refers to, one that none refers to, and a stray file.
use traicr.Prelude.{
  true, not, ◌≡◌, refl, ◌⊎◌, inl, inr, false, some, none, ok, err, ℕ, ◌==◌, [], ◌∷◌, All, codes,
  text_eq,
}
use traicr.Store.Table.{exists, delete_where}
use traicr.Store.Db.{empty, TraceRow, RevisionRow, EventRow, no_rows}
use traicr.Store.Import.{World}
use traicr.Store.Maintenance.{
  Disk, finished, stopped, walk_objects, gc, is_unused, delete_trace, delete_trace_rows,
  remove_batches, remove_unused, remove_file, remove_strays, is_referenced, unused_objects,
}
use traicr.Store.Maintenance.Links.{IsLinked}
use traicr.Store.Maintenance.Forgotten.{
  IsPlaced, HasObjects, IsForgotten, IsCollected, delete_trace-IsForgotten,
}
use traicr.Store.Maintenance.Batches.{used_rows}
use traicr.Store.Maintenance.Collected.{IsApart, is_stray}
use traicr.Store.Maintenance.Ended.{Fails, gc_collects}

abbrev row_of : ℕ → TraceRow
row_of id = record {
  id = id;
  harness = codes "pi";
  native_trace_id = codes "n";
  title = [];
  working_directory = [];
  repository_id = none;
  parent_native_trace_id = [];
  created_at = [];
  updated_at = [];
  title_override = [];
  generated_title = [];
  generated_title_revision_id = 0;
}

abbrev revision_of : ℕ → ℕ → RevisionRow
revision_of id trace = record {
  id = id;
  trace_id = trace;
  digest = codes "d";
  native_updated_at = [];
  collected_at = [];
  adapter = [];
  status = codes "normalized";
  normalizer_version = 1;
}

abbrev event_of : ℕ → ℕ → EventRow
event_of id trace = record {
  id = id;
  trace_id = trace;
  event_key = codes "k";
  sort_time = [];
  preferred_observation_id = none;
}

abbrev two_objects : World
two_objects = record {
  db = record empty {
    source_objects =
        (record { digest = codes "aab"; size = 1; path = codes "aa/b" })
        ∷ (record { digest = codes "ccd"; size = 1; path = codes "cc/d" })
        ∷ [];
    revision_objects =
        (record { revision_id = 1; relative_path = codes "s"; object_digest = codes "aab" }) ∷ [];
  };
  objects = (codes "aab", codes "x") ∷ (codes "ccd", codes "y") ∷ (codes "eef", codes "z") ∷ [];
  running_import = 0;
}

two_objects-IsApart : All (IsApart two_objects.db) two_objects.db.source_objects
unfolding is_unused exists delete_where text_eq
two_objects-IsApart = (inl refl, (inr refl, tt))

-- A disk without errors, and one on which a file cannot be removed.
abbrev sound : Disk
sound = record { removes = λ p. true; visits = λ p. true }

abbrev stuck : Disk
stuck = record { removes = λ p. not (text_eq p (codes "cc/d")); visits = λ p. true }

gc_collects_example :
    ((w : World) × (gc stuck two_objects ≡ some (finished w))
      × (w.db.source_objects ≡ used_rows two_objects.db)
      × (w.objects ≡ delete_where (is_stray two_objects.db) two_objects.objects)
      × (record w.db { source_objects = [] } ≡ record two_objects.db { source_objects = [] })
      × (w.running_import ≡ two_objects.running_import))
    ⊎ ((w : World) × (gc stuck two_objects ≡ some (stopped w))
        × (delete_where (is_unused two_objects.db) w.db.source_objects ≡ used_rows two_objects.db)
        × (delete_where (is_stray two_objects.db) w.objects
            ≡ delete_where (is_stray two_objects.db) two_objects.objects)
        × (record w.db { source_objects = [] } ≡ record two_objects.db { source_objects = [] })
        × (w.running_import ≡ two_objects.running_import)
        × Fails stuck)
gc_collects_example = gc_collects stuck two_objects two_objects-IsApart

-- Two traces with one revision each, and an object that both have.
abbrev two_traces : World
two_traces = record {
  db = record empty {
    traces = row_of 1 ∷ row_of 2 ∷ [];
    revisions = revision_of 11 1 ∷ revision_of 12 2 ∷ [];
    events = event_of 21 1 ∷ event_of 22 2 ∷ [];
    source_objects =
        (record { digest = codes "aab"; size = 1; path = codes "aa/b" })
        ∷ (record { digest = codes "ccd"; size = 1; path = codes "cc/d" })
        ∷ [];
    revision_objects =
        (record { revision_id = 11; relative_path = codes "s"; object_digest = codes "aab" })
        ∷ (record { revision_id = 11; relative_path = codes "t"; object_digest = codes "ccd" })
        ∷ (record { revision_id = 12; relative_path = codes "s"; object_digest = codes "aab" })
        ∷ [];
    normalizer_runs =
        (record {
          revision_id = 11;
          version = 1;
          status = codes "normalized";
          diagnostics = [];
          created_at = [];
        })
        ∷ [];
  };
  objects = (codes "aab", codes "x") ∷ (codes "ccd", codes "y") ∷ [];
  running_import = 0;
}

two_traces-IsPlaced : All IsPlaced two_traces.db.source_objects
two_traces-IsPlaced = (refl, (refl, tt))

two_traces-HasObjects : HasObjects two_traces.db
unfolding exists text_eq
two_traces-HasObjects = (refl, (refl, (refl, tt)))

two_traces-IsLinked : IsLinked two_traces.db
unfolding exists
two_traces-IsLinked = record {
  revisions = (refl, (refl, tt));
  events = (refl, (refl, tt));
  aliases = tt;
  machines = tt;
  runs = (refl, tt);
  objects = (refl, (refl, (refl, tt)));
  observations = tt;
  chunk_events = tt;
  of_revision = tt;
  of_observation = tt;
  sources = tt;
  chunks = tt;
}

delete_trace-IsForgotten_example :
    (exists (λ t. t.id == 1) two_traces.db.traces ≡ false
      × (delete_trace sound 1 two_traces ≡ some (err no_rows)))
    ⊎ ((w : World) × (delete_trace sound 1 two_traces ≡ some (ok (finished w)))
        × IsForgotten 1 two_traces w
        × IsCollected w)
    ⊎ ((w : World) × (delete_trace sound 1 two_traces ≡ some (ok (stopped w)))
        × IsForgotten 1 two_traces w
        × Fails sound)
delete_trace-IsForgotten_example =
    delete_trace-IsForgotten sound 1 two_traces two_traces-IsPlaced two_traces-HasObjects
      two_traces-IsLinked

-- The trace goes with its own object; the shared one stays. On the other disk the object and its row stay too.
two_traces_deleted :
    (w : World) × (delete_trace sound 1 two_traces ≡ some (ok (finished w)))
    × (w.objects ≡ (codes "aab", codes "x") ∷ [])
    × (w.db.events ≡ event_of 22 2 ∷ [])
unfolding delete_trace delete_trace_rows gc walk_objects remove_batches remove_unused remove_file
    remove_strays is_referenced is_unused unused_objects exists delete_where text_eq
two_traces_deleted = (_, refl, refl, refl)

two_traces_stopped :
    (w : World) × (delete_trace stuck 1 two_traces ≡ some (ok (stopped w)))
    × (w.objects ≡ two_traces.objects)
    × (w.db.source_objects ≡ two_traces.db.source_objects)
unfolding delete_trace delete_trace_rows gc walk_objects remove_batches remove_unused remove_file
    remove_strays is_referenced is_unused unused_objects exists delete_where text_eq
two_traces_stopped = (_, refl, refl, refl)
