-- ===== src/Server/Logs/Newest.antt =====
-- The buffer and its pages against the whole log.
use traicr.Prelude.{
  ℕ, zero, suc, ◌+◌, ◌-◌, ◌≤◌, ◌≡◌, refl, sym, ap, ◌∙◌, inl, inr, List, [], ◌∷◌, ◌++◌, arith, ◌==◌,
  Bool-cases, length, drop, length-append, length-drop, append_nil, append_assoc, drop-drop, Text,
}
use traicr.Domain.{ℤ}
use traicr.Server.Logs.{LogRecord, LogBuffer, log_capacity, make_room, add, newest_first}
use traicr.Server.Logs.Cut.{matching}
use traicr.Server.Logs.Pages.{read_pages, read_pages_lem, IsBuffer, add-IsBuffer}

module _ {A : Type 0} where
  -- A buffer that nothing was logged to, and the records that are logged one after the other.
  abbrev pub new_buffer : Text → LogBuffer A
  new_buffer id = record { instance_id = id; last = 0; records = [] }

  unfoldable pub record_all : List (LogRecord A) → LogBuffer A → LogBuffer A
  record_all [] b = b
  record_all (r ∷ rs) b = record_all rs (add r b)

  -- The records with the numbers after this one.
  unfoldable pub number : ℕ → List (LogRecord A) → List (LogRecord A)
  number n [] = []
  number n (r ∷ rs) = (record r { seq = n + 1 }) ∷ number (n + 1) rs

  drop_append :
      (n : ℕ) (xs ys : List (LogRecord A)) → n ≤ length xs → drop n (xs ++ ys) ≡ drop n xs ++ ys
  drop_append zero xs ys h = refl
  drop_append (suc n) [] ys h = absurd (omega arith)
  drop_append (suc n) (x ∷ xs) ys h = drop_append n xs ys (omega arith)

  -- The newest records of a log.
  abbrev pub newest : List (LogRecord A) → List (LogRecord A)
  newest log = drop (length log - log_capacity) log

  room_lem :
      (log : List (LogRecord A)) (r : LogRecord A)
      → make_room (newest log) ++ (r ∷ []) ≡ newest (log ++ (r ∷ []))
  unfolding make_room
  room_lem log r =
      let size = length-append log (r ∷ []) in
      let kept = length-drop (length log - log_capacity) log in
      let later : length (log ++ (r ∷ [])) - log_capacity ≤ length log = omega (arith, size) in
      let goal = sym (drop_append (length (log ++ (r ∷ [])) - log_capacity) log (r ∷ []) later) in
      elim (Bool-cases (length (newest log) == log_capacity)) [
        | inl full ↦
            let step : length log - log_capacity + 1 ≡ length (log ++ (r ∷ [])) - log_capacity =
              ground (arith, size, kept) in
            rw (make_room, full)
              (ap (λ xs. xs ++ (r ∷ []))
                  (drop-drop (length log - log_capacity) 1 log ∙ ap (λ n. drop n log) step)
                ∙ goal)
        | inr room ↦
            let same : length log - log_capacity ≡ length (log ++ (r ∷ [])) - log_capacity =
              ground (arith, size, kept) in
            rw (make_room, room) (ap (λ n. drop n log ++ (r ∷ [])) same ∙ goal)
      ]

  record_all_lem :
      (rs log : List (LogRecord A)) (b : LogBuffer A)
      → b.records ≡ newest log
      → b.last ≡ length log
      → (record_all rs b).records ≡ newest (log ++ number (length log) rs)
  unfolding record_all number
  record_all_lem [] log b h k = h ∙ ap newest (sym (append_nil log))
  record_all_lem (r ∷ rs) log b h k =
      let r' : LogRecord A = record r { seq = length log + 1 } in
      let grown : length (log ++ (r' ∷ [])) ≡ length log + 1 =
        omega (arith, length-append log (r' ∷ [])) in
      let records : (add r b).records ≡ newest (log ++ (r' ∷ [])) =
        unfold add in
        (ap (λ n. make_room b.records ++ ((record r { seq = n + 1 }) ∷ [])) k
          ∙ ap (λ xs. make_room xs ++ (r' ∷ [])) h
          ∙ room_lem log r') in
      let last : (add r b).last ≡ length (log ++ (r' ∷ [])) =
        unfold add in (omega (arith, grown, k)) in
      record_all_lem rs (log ++ (r' ∷ [])) (add r b) records last
      ∙ ap (λ n. newest ((log ++ (r' ∷ [])) ++ number n rs)) grown
      ∙ ap newest (append_assoc log (r' ∷ []) (number (length log + 1) rs))

  record_all-IsBuffer :
      (rs : List (LogRecord A)) (b : LogBuffer A) → IsBuffer b → IsBuffer (record_all rs b)
  unfolding record_all
  record_all-IsBuffer [] b g = g
  record_all-IsBuffer (r ∷ rs) b g = record_all-IsBuffer rs (add r b) (add-IsBuffer r b g)

  new_buffer-IsBuffer : (id : Text) → IsBuffer (new_buffer id)
  unfolding newest_first
  new_buffer-IsBuffer id = record { bounded = omega arith; numbered = tt }

  length-newest_first : (xs : List (LogRecord A)) → length (newest_first xs) ≡ length xs
  unfolding newest_first
  length-newest_first [] = refl
  length-newest_first (x ∷ xs) =
      omega (arith, length-append (newest_first xs) (x ∷ []), length-newest_first xs)

  length-matching :
      (minimum : ℤ) (since before : ℕ) (xs : List (LogRecord A))
      → length (matching minimum since before xs) ≤ length xs
  unfolding matching
  length-matching minimum since before [] = omega arith
  length-matching minimum since before (x ∷ xs) =
      ground (arith, length-matching minimum since before xs)

-- Whatever was logged, a reader who starts without a cursor and follows those of the pages, with any page size of at least 1,
-- gets the newest 1,000 records, numbered from 1 in the order in which they were logged, of those the ones that the query asks for, the newest first
-- and each once; 1,001 pages are always enough.
pub read_pages-newest :
    {A : Type 0} (rounds : ℕ) (id : Text) (log : List (LogRecord A)) (minimum : ℤ) (since limit : ℕ)
    → log_capacity ≤ rounds
    → 1 ≤ limit
    → read_pages (suc rounds) (record_all log (new_buffer id)) minimum since 0 limit
      ≡ matching minimum since 0 (newest_first (newest (number 0 log)))
read_pages-newest rounds id log minimum since limit enough positive =
    let b = record_all log (new_buffer id) in
    let good = record_all-IsBuffer log (new_buffer id) (new_buffer-IsBuffer id) in
    let records = record_all_lem log [] (new_buffer id) refl refl in
    let small : length (matching minimum since 0 (newest_first b.records)) ≤ rounds = omega (
      arith,
      length-matching minimum since 0 (newest_first b.records),
      length-newest_first b.records,
      good.bounded,
    ) in
    read_pages_lem rounds b minimum since 0 limit (b.last + 1) positive good.numbered small
    ∙ ap (λ xs. matching minimum since 0 (newest_first xs)) records
