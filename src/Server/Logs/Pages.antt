-- ===== src/Server/Logs/Pages.antt =====
-- The pages of the log, one after the other, and what the buffer keeps.
use traicr.Prelude.{
  ℕ, zero, suc, ◌+◌, ◌-◌, ◌≤◌, ◌<◌, ◌≡◌, refl, sym, ap, ◌∙◌, ◌⊎◌, inl, inr, true, false, none, some,
  List, [], ◌∷◌, ◌++◌, arith, ltb, leb, ◌==◌, if◌then◌else◌, Bool-cases, length, take, drop,
  length-append, length-drop, take-append-drop, append_nil,
}
use mathlib.Core.Path.{subst}
use traicr.Domain.{ℤ}
use traicr.Server.Logs.{
  LogRecord, LogBuffer, log_capacity, make_room, add, newest_first, selected, seq_at, page,
}
use traicr.Server.Logs.Cut.{matching, cut_page, page_loop_lem}

module _ {A : Type 0} where
  -- Each record has a smaller number than the one before it, and the first is below the bound.
  abbrev Below : ℕ → List (LogRecord A) → Type 0
  Below bound [] = Unit
  Below bound (r ∷ rest) = (1 ≤ r.seq) × (r.seq < bound) × Below r.seq rest

  Below-weaken : (a b : ℕ) (xs : List (LogRecord A)) → a ≤ b → Below a xs → Below b xs
  Below-weaken a b [] h d = tt
  Below-weaken a b (x ∷ xs) h d = (d.0, omega (arith, d.1), d.2)

  matching-Below :
      (minimum : ℤ) (since before bound : ℕ) (xs : List (LogRecord A))
      → Below bound xs
      → Below bound (matching minimum since before xs)
  unfolding matching
  matching-Below minimum since before bound [] d = tt
  matching-Below minimum since before bound (x ∷ xs) d =
      let rest = matching-Below minimum since before x.seq xs d.2 in
      elim (Bool-cases (selected minimum since before x)) [
        | inl e ↦ rw (matching, e) (d.0, d.1, rest)
        | inr e ↦ rw (matching, e) (Below-weaken x.seq bound _ (omega (arith, d.1)) rest)
      ]

  -- The records with numbers below this one.
  under : ℕ → List (LogRecord A) → List (LogRecord A)
  under bound [] = []
  under bound (r ∷ rest) =
      let others = under bound rest in if ltb r.seq bound then r ∷ others else others

  -- A cursor further down selects among what was selected before.
  matching_narrow :
      (minimum : ℤ) (since before lower : ℕ) (xs : List (LogRecord A))
      → 1 ≤ lower
      → ((before ≡ 0) ⊎ (lower ≤ before))
      → matching minimum since lower xs ≡ under lower (matching minimum since before xs)
  unfolding matching selected under
  matching_narrow minimum since before lower [] positive h = refl
  matching_narrow minimum since before lower (x ∷ xs) positive h =
      ground (arith, matching_narrow minimum since before lower xs positive h)

  under_all : (bound : ℕ) (xs : List (LogRecord A)) → Below bound xs → under bound xs ≡ xs
  unfolding under
  under_all bound [] d = refl
  under_all bound (x ∷ xs) d =
      ground (arith, under_all bound xs (Below-weaken x.seq bound xs (omega (arith, d.1)) d.2), d.1)

  seq_at-Below :
      (bound i : ℕ) (xs : List (LogRecord A))
      → i < length xs
      → Below bound xs
      → (1 ≤ seq_at i xs) × (seq_at i xs < bound)
  seq_at-Below bound i [] h d = absurd (omega arith)
  seq_at-Below bound zero (x ∷ xs) h d = unfold seq_at in (d.0, d.1)
  seq_at-Below bound (suc i) (x ∷ xs) h d =
      let step : seq_at (suc i) (x ∷ xs) ≡ seq_at i xs = unfold seq_at in refl in
      let below = seq_at-Below x.seq i xs (omega arith) d.2 in
      (omega (arith, step, below.0), omega (arith, step, below.1, d.1))

  under_skip :
      (bound : ℕ) (x : LogRecord A) (xs : List (LogRecord A))
      → bound ≤ x.seq
      → under bound (x ∷ xs) ≡ under bound xs
  unfolding under
  under_skip bound x xs h = let out : ltb x.seq bound ≡ false = ground arith in rw (under, out) refl

  under-drop :
      (bound i : ℕ) (xs : List (LogRecord A))
      → i < length xs
      → Below bound xs
      → under (seq_at i xs) xs ≡ drop (suc i) xs
  under-drop bound i [] h d = absurd (omega arith)
  under-drop bound zero (x ∷ xs) h d =
      let step : seq_at zero (x ∷ xs) ≡ x.seq = unfold seq_at in refl in
      ap (λ n. under n (x ∷ xs)) step ∙ under_skip x.seq x xs (omega arith) ∙ under_all x.seq xs d.2
  under-drop bound (suc i) (x ∷ xs) h d =
      let step : seq_at (suc i) (x ∷ xs) ≡ seq_at i xs = unfold seq_at in refl in
      let below = seq_at-Below x.seq i xs (omega arith) d.2 in
      ap (λ n. under n (x ∷ xs)) step
      ∙ under_skip (seq_at i xs) x xs (omega (arith, below.1))
      ∙ under-drop x.seq i xs (omega arith) d.2

  selected_lt :
      (minimum : ℤ) (since before : ℕ) (x : LogRecord A)
      → 1 ≤ before
      → selected minimum since before x ≡ true
      → x.seq < before
  unfolding selected
  selected_lt minimum since before x h s = ground arith

  seq_at_selected :
      (minimum : ℤ) (since before i : ℕ) (xs : List (LogRecord A))
      → 1 ≤ before
      → i < length (matching minimum since before xs)
      → seq_at i (matching minimum since before xs) < before
  seq_at_selected minimum since before i [] p h = absurd (unfold matching in (omega arith))
  seq_at_selected minimum since before i (x ∷ xs) p h =
      elim (Bool-cases (selected minimum since before x)) [
        | inr out ↦
            let same : matching minimum since before (x ∷ xs) ≡ matching minimum since before xs =
              unfold matching in (rw out refl) in
            let shorter : i < length (matching minimum since before xs) =
              subst (λ ys. i < length ys) same h in
            subst (λ ys. seq_at i ys < before) (sym same)
              (seq_at_selected minimum since before i xs p shorter)
        | inl chosen ↦
            let same : matching minimum since before (x ∷ xs)
                ≡ x ∷ matching minimum since before xs =
              unfold matching in (rw chosen refl) in
            let shorter : i < suc (length (matching minimum since before xs)) =
              subst (λ ys. i < length ys) same h in
            subst (λ ys. seq_at i ys < before) (sym same)
              (seq_at_cons before x (matching minimum since before xs) i
                (selected_lt minimum since before x p chosen)
                (λ j k. seq_at_selected minimum since before j xs p k) shorter)
      ]
    where
      seq_at_cons :
          (before : ℕ) (x : LogRecord A) (ys : List (LogRecord A)) (i : ℕ)
          → x.seq < before
          → ((j : ℕ) → j < length ys → seq_at j ys < before)
          → i < suc (length ys)
          → seq_at i (x ∷ ys) < before
      seq_at_cons before x ys zero h k m = unfold seq_at in h
      seq_at_cons before x ys (suc i) h k m = unfold seq_at in (k i (omega arith))

  -- A reader that follows the cursors, for so many pages at most.
  unfoldable pub read_pages : ℕ → LogBuffer A → ℤ → ℕ → ℕ → ℕ → List (LogRecord A)
  read_pages zero b minimum since before limit = []
  read_pages (suc rounds) b minimum since before limit =
      let p = page b minimum since before limit in
      p.records
      ++ elim p.next [ none ↦ [] | some c ↦ read_pages rounds b minimum since c.before limit ]

  -- What a page leaves for the next one.
  next_matching :
      (minimum : ℤ) (since before limit bound : ℕ) (all : List (LogRecord A))
      → 1 ≤ limit
      → Below bound all
      → limit < length (matching minimum since before all)
      → matching minimum since (seq_at (limit - 1) (matching minimum since before all)) all
        ≡ drop limit (matching minimum since before all)
  next_matching minimum since before limit bound all positive d long =
      let xs = matching minimum since before all in
      let sorted = matching-Below minimum since before bound all d in
      let at = seq_at-Below bound (limit - 1) xs (omega arith) sorted in
      let lower : (before ≡ 0) ⊎ (seq_at (limit - 1) xs ≤ before) =
        elim (Bool-cases (before == 0)) [
          | inl unset ↦ inl (ground arith)
          | inr set ↦ inr (
              omega (
                arith,
                seq_at_selected minimum since before (limit - 1) all (ground arith) (omega arith),
              ))
        ] in
      let whole : suc (limit - 1) ≡ limit = omega arith in
      matching_narrow minimum since before (seq_at (limit - 1) xs) all at.0 lower
      ∙ under-drop bound (limit - 1) xs (omega arith) sorted
      ∙ ap (λ n. drop n xs) whole

  page_cut :
      (b : LogBuffer A) (minimum : ℤ) (since before limit : ℕ)
      → 1 ≤ limit
      → page b minimum since before limit
        ≡ cut_page b.instance_id limit (matching minimum since before (newest_first b.records))
  unfolding page
  page_cut b minimum since before limit positive =
      page_loop_lem b.instance_id minimum since before limit (newest_first b.records) [] positive
        (omega arith)

  last_page :
      (rounds : ℕ) (b : LogBuffer A) (minimum : ℤ) (since before limit : ℕ)
      → 1 ≤ limit
      → leb (length (matching minimum since before (newest_first b.records))) limit ≡ true
      → read_pages (suc rounds) b minimum since before limit
        ≡ matching minimum since before (newest_first b.records)
  unfolding read_pages
  last_page rounds b minimum since before limit positive short =
      let xs = matching minimum since before (newest_first b.records) in
      let p : page b minimum since before limit ≡ record { records = xs; next = none } =
        page_cut b minimum since before limit positive ∙ (rw short refl) in
      rw (read_pages, p) (append_nil xs)

  pub read_pages_lem :
      (rounds : ℕ) (b : LogBuffer A) (minimum : ℤ) (since before limit bound : ℕ)
      → 1 ≤ limit
      → Below bound (newest_first b.records)
      → length (matching minimum since before (newest_first b.records)) ≤ rounds
      → read_pages (suc rounds) b minimum since before limit
        ≡ matching minimum since before (newest_first b.records)
  unfolding read_pages
  read_pages_lem zero b minimum since before limit bound positive d enough =
      last_page zero b minimum since before limit positive (ground arith)
  read_pages_lem (suc n) b minimum since before limit bound positive d enough =
      let all = newest_first b.records in
      let xs = matching minimum since before all in
      let lower = seq_at (limit - 1) xs in
      elim (Bool-cases (leb (length xs) limit)) [
        | inl short ↦ last_page (suc n) b minimum since before limit positive short
        | inr long ↦
            let p : page b minimum since before limit ≡ record {
              records = take limit xs;
              next = some (record { instance_id = b.instance_id; before = lower });
            } =
              page_cut b minimum since before limit positive ∙ (rw long refl) in
            let more : limit < length xs = ground arith in
            let next = next_matching minimum since before limit bound all positive d more in
            let shorter : length (matching minimum since lower all) ≤ n =
              omega (arith, ap length next, length-drop limit xs) in
            let rest = read_pages_lem n b minimum since lower limit bound positive d shorter in
            rw (read_pages, p)
              (ap (λ ys. take limit xs ++ ys) (rest ∙ next) ∙ take-append-drop limit xs)
      ]

  -- The order in which `add` numbers the records.
  pub record IsBuffer (b : LogBuffer A) : Type 0 where
    pub bounded : length b.records ≤ log_capacity
    pub numbered : Below (b.last + 1) (newest_first b.records)

  Below-front : (bound : ℕ) (xs ys : List (LogRecord A)) → Below bound (xs ++ ys) → Below bound xs
  Below-front bound [] ys d = tt
  Below-front bound (x ∷ xs) ys d = (d.0, d.1, Below-front x.seq xs ys d.2)

  newest_first_append :
      (xs : List (LogRecord A)) (r : LogRecord A)
      → newest_first (xs ++ (r ∷ [])) ≡ r ∷ newest_first xs
  unfolding newest_first
  newest_first_append [] r = refl
  newest_first_append (x ∷ xs) r = ap (λ ys. ys ++ (x ∷ [])) (newest_first_append xs r)

  make_room_lem :
      (bound : ℕ) (xs : List (LogRecord A))
      → length xs ≤ log_capacity
      → Below bound (newest_first xs)
      → (length (make_room xs) + 1 ≤ log_capacity) × Below bound (newest_first (make_room xs))
  unfolding make_room newest_first
  make_room_lem bound [] h d = (unfold make_room in (ground arith), d)
  make_room_lem bound (x ∷ xs) h d = elim (Bool-cases (length (x ∷ xs) == log_capacity)) [
    | inl full ↦ rw (make_room, full) (ground arith, Below-front bound (newest_first xs) (x ∷ []) d)
    | inr room ↦ rw (make_room, room) (ground arith, d)
  ]

  pub add-IsBuffer : (r : LogRecord A) (b : LogBuffer A) → IsBuffer b → IsBuffer (add r b)
  unfolding add
  add-IsBuffer r b g =
      let (room, below) = make_room_lem (b.last + 1) b.records g.bounded g.numbered in
      let numbered : Below (b.last + 1 + 1)
          ((record r { seq = b.last + 1 }) ∷ newest_first (make_room b.records)) =
        (omega arith, omega arith, below) in
      record {
        bounded =
            omega
              (arith, length-append (make_room b.records) ((record r { seq = b.last + 1 }) ∷ []));
        numbered =
            subst (Below (b.last + 1 + 1))
              (sym (newest_first_append (make_room b.records) (record r { seq = b.last + 1 })))
              numbered;
      }
