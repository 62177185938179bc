-- ===== src/Titles/Worker/Backoff.antt =====
-- How long the worker waits between batches.
use traicr.Prelude.{
  ℕ, suc, ◌*◌, ◌^◌, ◌≤◌, ◌<◌, min, max, ◌≡◌, refl, ap, ◌∙◌, inl, inr, true, none, some, List, [],
  ◌∷◌, arith, ltb, Bool-cases, Option-cases, length, All,
}
use traicr.Titles.Worker.{
  Batch, WorkError, retry_after, next_round, run_rounds, min_backoff, max_backoff,
}

abbrev Fails : Batch → Type 0
Fails b = (e : WorkError) × (b.failure ≡ some e)

fails_lem :
    (poll backoff : ℕ) (b : Batch) (e : WorkError)
    → b.failure ≡ some e
    → next_round poll backoff b ≡ (max backoff (retry_after e), min (backoff * 2) max_backoff)
unfolding next_round
fails_lem poll backoff b e h = rw (next_round, h) refl

-- The backoff stays between its bounds.
abbrev Bounded : ℕ → Type 0
Bounded backoff = (min_backoff ≤ backoff) × (backoff ≤ max_backoff)

doubled : (n : ℕ) → Bounded n → Bounded (min (n * 2) max_backoff)
doubled n h = (omega (arith, h.0, h.1), omega arith)

next_round-Bounded :
    (poll backoff : ℕ) (b : Batch) → Bounded backoff → Bounded (next_round poll backoff b).1
next_round-Bounded poll backoff b h = elim (Option-cases b.failure) [
  | inl fine ↦ elim (Bool-cases (ltb 0 b.recorded)) [
    | inl named ↦ unfold next_round in (rw (next_round, fine, named) (omega arith, omega arith))
    | inr idle ↦ unfold next_round in (rw (next_round, fine, idle) h)
  ]
  | inr (e, failed) ↦ rw (fails_lem poll backoff b e failed) (doubled backoff h)
]

run_rounds-Bounded :
    (poll : ℕ) (bs : List Batch) (backoff : ℕ)
    → Bounded backoff
    → Bounded (run_rounds poll bs backoff)
unfolding run_rounds
run_rounds-Bounded poll [] backoff h = h
run_rounds-Bounded poll (b ∷ bs) backoff h =
    run_rounds-Bounded poll bs (next_round poll backoff b).1 (next_round-Bounded poll backoff b h)

run_cons :
    (poll : ℕ) (b : Batch) (bs : List Batch) (backoff : ℕ)
    → run_rounds poll (b ∷ bs) backoff ≡ run_rounds poll bs (next_round poll backoff b).1
unfolding run_rounds
run_cons poll b bs backoff = refl

double_min : (x : ℕ) → min (min x max_backoff * 2) max_backoff ≡ min (x * 2) max_backoff
double_min x = omega arith

run_rounds_failing :
    (poll x : ℕ) (bs : List Batch)
    → All Fails bs
    → run_rounds poll bs (min x max_backoff) ≡ min (x * 2 ^ length bs) max_backoff
unfolding run_rounds
run_rounds_failing poll x [] a = omega arith
run_rounds_failing poll x (b ∷ bs) a =
    let (e, failed) = a.0 in
    let next : (next_round poll (min x max_backoff) b).1 ≡ min (x * 2) max_backoff =
      ap (λ r. r.1) (fails_lem poll (min x max_backoff) b e failed) ∙ double_min x in
    let power : x * 2 * 2 ^ length bs ≡ x * 2 ^ suc (length bs) = grind arith in
    ap (λ n. run_rounds poll bs n) next
    ∙ run_rounds_failing poll (x * 2) bs a.1
    ∙ ap (λ n. min n max_backoff) power

-- The backoff starts at a minute and stays between a minute and half an hour. After a batch that recorded a title and k batches in a row that failed
-- it is the smaller of half an hour and 2^k minutes; and a round whose batch fails waits that long, or as long as the API asks for if that is longer.
pub run_rounds-backoff :
    (poll : ℕ) (before failing : List Batch) (b last : Batch) (e : WorkError)
    → b.failure ≡ none
    → 0 < b.recorded
    → All Fails failing
    → last.failure ≡ some e
    → (min_backoff ≤ run_rounds poll before min_backoff)
      × (run_rounds poll before min_backoff ≤ max_backoff)
      × ((next_round poll
            (run_rounds poll (b ∷ failing) (run_rounds poll before min_backoff))
            last).0
          ≡ max (min (min_backoff * 2 ^ length failing) max_backoff) (retry_after e))
run_rounds-backoff poll before failing b last e fine named fails failed =
    let (low, high) = run_rounds-Bounded poll before min_backoff (omega arith, omega arith) in
    let start = run_rounds poll before min_backoff in
    let some_named : ltb 0 b.recorded ≡ true = ground arith in
    let reset : (next_round poll start b).1 ≡ min min_backoff max_backoff =
      unfold next_round in (rw (next_round, fine, some_named) (omega arith)) in
    let then_failing : run_rounds poll (b ∷ failing) start
        ≡ min (min_backoff * 2 ^ length failing) max_backoff =
      run_cons poll b failing start
      ∙ ap (λ n. run_rounds poll failing n) reset
      ∙ run_rounds_failing poll min_backoff failing fails in
    (
      low,
      high,
      ap (λ r. r.0) (fails_lem poll _ last e failed) ∙ ap (λ n. max n (retry_after e)) then_failing,
    )
