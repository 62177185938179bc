-- ===== src/Server/Logs/Cut.antt =====
-- One page of the log: it is cut off the records that the query asks for.
use traicr.Prelude.{
  ℕ, zero, suc, ◌-◌, ◌≤◌, ◌<◌, ◌≡◌, refl, sym, ap, ◌∙◌, inl, inr, true, false, none, some, List, [],
  ◌∷◌, ◌++◌, arith, leb, ◌==◌, if◌then◌else◌, Bool-cases, length, get_elem?, take, length-append,
  take_whole, append_nil, append_assoc, Text,
}
use traicr.Domain.{ℤ}
use traicr.Server.Logs.{LogRecord, LogPage, selected, seq_at, page_loop}

module _ {A : Type 0} where
  -- The records that the query asks for.
  unfoldable pub matching : ℤ → ℕ → ℕ → List (LogRecord A) → List (LogRecord A)
  matching minimum since before [] = []
  matching minimum since before (r ∷ rest) =
      let others = matching minimum since before rest in
      if selected minimum since before r then r ∷ others else others

  -- A page of these records, and the cursor if some are left.
  abbrev pub cut_page : Text → ℕ → List (LogRecord A) → LogPage A
  cut_page id limit xs =
      if leb (length xs) limit then record { records = xs; next = none } else record {
        records = take limit xs;
        next = some (record { instance_id = id; before = seq_at (limit - 1) xs });
      }

  take_append : (n : ℕ) (xs ys : List (LogRecord A)) → n ≤ length xs → take n (xs ++ ys) ≡ take n xs
  take_append zero xs ys h = refl
  take_append (suc n) [] ys h = absurd (omega arith)
  take_append (suc n) (x ∷ xs) ys h = ap (λ r. x ∷ r) (take_append n xs ys (omega arith))

  get_append :
      (xs ys : List (LogRecord A)) (i : ℕ) → i < length xs → get_elem? (xs ++ ys) i ≡ get_elem? xs i
  get_append [] ys i h = absurd (omega arith)
  get_append (x ∷ xs) ys zero h = refl
  get_append (x ∷ xs) ys (suc i) h = get_append xs ys i (omega arith)

  seq_at_append :
      (xs ys : List (LogRecord A)) (i : ℕ) → i < length xs → seq_at i (xs ++ ys) ≡ seq_at i xs
  unfolding seq_at
  seq_at_append xs ys i h = ap (λ o. elim o [ none ↦ 0 | some r ↦ r.seq ]) (get_append xs ys i h)

  full_page :
      (id : Text) (limit : ℕ) (found more : List (LogRecord A)) (r : LogRecord A)
      → 1 ≤ limit
      → length found ≡ limit
      → cut_page id limit (found ++ (r ∷ more)) ≡ record {
        records = found;
        next = some (record { instance_id = id; before = seq_at (limit - 1) found });
      }
  full_page id limit found more r positive h =
      let long : leb (length (found ++ (r ∷ more))) limit ≡ false =
        ground (arith, length-append found (r ∷ more)) in
      let first : take limit (found ++ (r ∷ more)) ≡ found =
        take_append limit found (r ∷ more) (omega arith) ∙ take_whole limit found (omega arith) in
      rw (long, first, seq_at_append found (r ∷ more) (limit - 1) (omega arith)) refl

  pub page_loop_lem :
      (id : Text) (minimum : ℤ) (since before limit : ℕ) (rest found : List (LogRecord A))
      → 1 ≤ limit
      → length found ≤ limit
      → page_loop id minimum since before limit rest found
        ≡ cut_page id limit (found ++ matching minimum since before rest)
  unfolding page_loop matching
  page_loop_lem id minimum since before limit [] found positive h =
      let short : leb (length found) limit ≡ true = ground arith in
      rw (append_nil found, short) refl
  page_loop_lem id minimum since before limit (r ∷ rest) found positive h =
      elim (Bool-cases (selected minimum since before r)) [
        | inr out ↦
            rw (page_loop, matching, out)
              (page_loop_lem id minimum since before limit rest found positive h)
        | inl in_page ↦ elim (Bool-cases (length found == limit)) [
          | inl full ↦
              rw (page_loop, matching, in_page, full)
                (sym (
                  full_page id limit found (matching minimum since before rest) r positive
                    (ground arith)))
          | inr room ↦
              let fits : length (found ++ (r ∷ [])) ≤ limit =
                ground (arith, length-append found (r ∷ [])) in
              rw (page_loop, matching, in_page, room)
                (page_loop_lem id minimum since before limit rest (found ++ (r ∷ [])) positive fits
                  ∙ ap (cut_page id limit)
                      (append_assoc found (r ∷ []) (matching minimum since before rest)))
        ]
      ]
