-- ===== src/Titles/Worker/Named.antt =====
-- One batch of the worker, and its backoff.
use traicr.Prelude.{ℕ, ◌+◌, ◌<◌, ◌≡◌, ◌⊎◌, none, some, List, length, take, All}
use traicr.Store.Db.{Db}
use traicr.Titles.Worker.{Candidate, Batch, WorkError, Outside}
use traicr.Titles.Worker.Recorded.{IsDone}

-- The titles of these candidates are recorded, of those that were before still are, and no revision was touched.
record IsAfter (done : List Candidate) (a b : Db) : Type 0 where
  pub revisions : b.revisions ≡ a.revisions
  pub recorded : All (λ c. IsDone c b.traces) done
  pub kept : (c : Candidate) → IsDone c a.traces → IsDone c b.traces

module _ (out : Outside) where
  -- How many of the candidates were recorded, and why no more.
  abbrev Outcome : List Candidate → Batch → Batch → Type 0
  Outcome cs b b' =
      (n : ℕ) × (b'.recorded ≡ n + b.recorded)
      × (((b'.failure ≡ none) × (n ≡ length cs))
          ⊎ ((e : WorkError) × (b'.failure ≡ some e) × (n < length cs)))
      × IsAfter (take n cs) b.db b'.db
