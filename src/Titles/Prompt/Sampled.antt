-- ===== src/Titles/Prompt/Sampled.antt =====
-- What `sample` keeps of a long session.
use traicr.Prelude.{
  ℕ, zero, suc, ◌+◌, ◌-◌, ◌/◌, ◌≤◌, ◌<◌, ◌≡◌, refl, sym, ap, ◌∙◌, ◌⊎◌, inl, inr, ◌&&◌, some, List,
  [], ◌∷◌, ◌++◌, arith, ltb, leb, Bool-cases, length, get_elem?, take, drop, length-take,
  length-drop, take-append-drop, append_nil, drop-drop, drop_all, Text,
}
use traicr.Titles.Prompt.{Texts, Sample, total_runes, take_end, take_start, sample}

drop_step :
    (i : ℕ) (xs : List Text)
    → i < length xs
    → (x : Text) × (get_elem? xs i ≡ some x) × (drop i xs ≡ x ∷ drop (suc i) xs)
drop_step i [] h = absurd (omega arith)
drop_step zero (x ∷ xs) h = (x, refl, refl)
drop_step (suc i) (x ∷ xs) h = drop_step i xs (omega arith)

take-take : (k n : ℕ) (xs : List Text) → k ≤ n → take k (take n xs) ≡ take k xs
take-take zero n xs h = refl
take-take (suc k) zero xs h = absurd (omega arith)
take-take (suc k) (suc n) [] h = refl
take-take (suc k) (suc n) (x ∷ xs) h = ap (λ r. x ∷ r) (take-take k n xs (omega arith))

take_more :
    (n : ℕ) (xs : List Text) (x : Text)
    → get_elem? xs n ≡ some x
    → take (suc n) xs ≡ take n xs ++ (x ∷ [])
take_more n [] x h = cc
take_more zero (y ∷ xs) x h = let same : y ≡ x = cc in ap (λ z. z ∷ []) same
take_more (suc n) (y ∷ xs) x h = ap (λ r. y ∷ r) (take_more n xs x h)

get-drop : (i n : ℕ) (xs : List Text) → get_elem? (drop i xs) n ≡ get_elem? xs (i + n)
get-drop zero n xs = ap (get_elem? xs) (omega arith)
get-drop (suc i) n [] = refl
get-drop (suc i) n (x ∷ xs) =
    get-drop i n xs ∙ ap (get_elem? (x ∷ xs)) (let e : suc (i + n) ≡ suc i + n = omega arith in e)

take_nil : (n : ℕ) → take {A = Text} n [] ≡ []
take_nil zero = refl
take_nil (suc n) = refl

take-drop : (a b : ℕ) (xs : List Text) → drop a (take b xs) ≡ take (b - a) (drop a xs)
take-drop zero b xs = ap (λ n. take n xs) (let e : b ≡ b - 0 = omega arith in e)
take-drop (suc a) zero xs =
    let e : 0 ≡ 0 - suc a = omega arith in ap (λ n. take n (drop (suc a) xs)) e
take-drop (suc a) (suc b) [] = sym (take_nil (suc b - suc a))
take-drop (suc a) (suc b) (x ∷ xs) =
    let e : b - a ≡ suc b - suc a = omega arith in take-drop a b xs ∙ ap (λ n. take n (drop a xs)) e

-- What lies between two places.
between :
    (a b : ℕ) (xs : List Text)
    → a ≤ b
    → b ≤ length xs
    → (xs ≡ take a xs ++ (take (b - a) (drop a xs) ++ drop b xs))
      × (length (take (b - a) (drop a xs)) ≡ b - a)
between a b xs h k =
    let front = take-append-drop a xs in
    let rest = take-append-drop (b - a) (drop a xs) in
    let far : drop (b - a) (drop a xs) ≡ drop b xs =
      drop-drop a (b - a) xs ∙ ap (λ n. drop n xs) (omega arith) in
    (
      sym (
          ap (λ r. take a xs ++ (take (b - a) (drop a xs) ++ r)) (sym far)
          ∙ ap (λ r. take a xs ++ r) rest
          ∙ front),
      omega (arith, length-take (b - a) (drop a xs), length-drop a xs),
    )

module _ (texts : Texts) where
  total_cons :
      (x : Text) (xs : List Text)
      → total_runes texts (x ∷ xs) ≡ texts.rune_count x + total_runes texts xs
  unfolding total_runes
  total_cons x xs = refl

  total_drop :
      (i : ℕ) (xs : List Text) (x : Text)
      → drop i xs ≡ x ∷ drop (suc i) xs
      → total_runes texts (drop i xs) ≡ texts.rune_count x + total_runes texts (drop (suc i) xs)
  unfolding total_runes
  total_drop i xs x h = ap (total_runes texts) h

  -- The message before the end that is kept would take more than its share, and the end has one.
  abbrev EndFull : List Text → ℕ → ℕ → Type 0
  EndFull messages budget end =
      (end ≡ 0)
      ⊎ ((before : ℕ) × (m : Text) × (end ≡ suc before)
          × (get_elem? messages before ≡ some m)
          × (budget / 3 < texts.rune_count m + total_runes texts (drop end messages))
          × (end < length messages))

  -- The end that is kept has its share of the budget, or is the last message alone.
  abbrev EndKept : List Text → ℕ → ℕ → Type 0
  EndKept messages budget end =
      (end ≤ length messages)
      × ((total_runes texts (drop end messages) ≤ budget / 3) ⊎ (length messages ≤ end + 1))

  take_end_lem :
      (messages : List Text) (budget end used : ℕ)
      → used ≡ total_runes texts (drop end messages)
      → EndKept messages budget end
      → ((take_end texts messages budget end used).1
          ≡ total_runes texts (drop (take_end texts messages budget end used).0 messages))
        × EndKept messages budget (take_end texts messages budget end used).0
        × EndFull messages budget (take_end texts messages budget end used).0
  unfolding take_end
  take_end_lem messages budget zero used h k = (h, k, inl refl)
  take_end_lem messages budget (suc before) used h k =
      let (m, at, split) = drop_step before messages (omega (arith, k.0)) in
      let total = total_drop before messages m split in
      elim (Bool-cases
        (ltb (budget / 3) (used + texts.rune_count m) && ltb (suc before) (length messages))) [
          | inl stop ↦
              rw (take_end, at, stop)
                (h, k, inr (before, m, refl, at, ground (arith, h), ground arith))
          | inr go ↦
              let kept : EndKept messages budget before = (
                omega (arith, k.0),
                elim (Bool-cases (ltb (budget / 3) (used + texts.rune_count m))) [
                  | inl over ↦ inr (ground (arith, k.0))
                  | inr fits ↦ inl (ground (arith, total, h))
                ],
              ) in
              rw (take_end, at, go)
                (take_end_lem messages budget before (used + texts.rune_count m)
                  (omega (arith, total, h)) kept)
        ]

  -- The message after the start that is kept would pass the budget, and the start has one.
  abbrev StartFull : ℕ → ℕ → ℕ → List Text → ℕ → Type 0
  StartFull budget start used ms k =
      (k ≡ length ms)
      ⊎ ((m : Text) × (rest : List Text) × (drop k ms ≡ m ∷ rest)
          × (budget < used + (total_runes texts (take k ms) + texts.rune_count m))
          × (0 < start + k))

  take_start_lem :
      (budget start used : ℕ) (ms : List Text)
      → ((used ≤ budget) ⊎ (start ≤ 1))
      → (k : ℕ) × (take_start texts budget start used ms ≡ start + k)
        × (k ≤ length ms)
        × ((used + total_runes texts (take k ms) ≤ budget) ⊎ (start + k ≤ 1))
        × StartFull budget start used ms k
  unfolding take_start
  take_start_lem budget start used [] h = (
    0,
    omega arith,
    omega arith,
    unfold total_runes in (elim h [ inl a ↦ inl (omega arith) | inr b ↦ inr (omega arith) ]),
    inl refl,
  )
  take_start_lem budget start used (m ∷ ms) h =
      elim (Bool-cases (ltb budget (used + texts.rune_count m) && ltb 0 start)) [
        | inl stop ↦ (
          0,
          rw (take_start, stop) (omega arith),
          omega arith,
          unfold total_runes in (elim h [ inl a ↦ inl (omega arith) | inr b ↦ inr (omega arith) ]),
          inr (m, ms, refl, unfold total_runes in (ground arith), ground arith),
        )
        | inr go ↦
            let next : (used + texts.rune_count m ≤ budget) ⊎ (start + 1 ≤ 1) =
              elim (Bool-cases (ltb 0 start)) [
                | inl moved ↦ inl (ground arith)
                | inr first ↦ inr (ground arith)
              ] in
            let (k, ended, small, kept, full) =
              take_start_lem budget (start + 1) (used + texts.rune_count m) ms next in
            (
              suc k,
              rw (take_start, go) (ended ∙ omega arith),
              omega arith,
              elim kept [
                | inl a ↦ inl (omega (arith, total_cons m (take k ms)))
                | inr b ↦ inr (omega arith)
              ],
              elim full [
                | inl all ↦ inl (omega (arith, all))
                | inr (x, rest, at, over, some_kept) ↦ inr (
                  x,
                  rest,
                  at,
                  omega (arith, over, total_cons m (take k ms)),
                  omega (arith, some_kept),
                )
              ],
            )
      ]

  -- The messages are a head, those that are left out, and a tail. Where some are left out, neither side could have kept one more.
  pub record IsExcerpt (messages : List Text) (budget : ℕ) (s : Sample) : Type 0 where
    pub left_out : List Text
    pub whole : messages ≡ s.head ++ (left_out ++ s.tail)
    pub counted : length left_out ≡ s.omitted
    pub end_small : (total_runes texts s.tail ≤ budget / 3) ⊎ (length s.tail ≤ 1)
    pub small : (total_runes texts s.head + total_runes texts s.tail ≤ budget) ⊎ (length s.head ≤ 1)
    pub head_full :
        (left_out ≡ [])
        ⊎ ((m : Text) × (rest : List Text) × (left_out ≡ m ∷ rest)
            × (budget < total_runes texts s.head + (texts.rune_count m + total_runes texts s.tail))
            × (0 < length s.head))
    pub tail_full :
        (left_out ≡ [])
        ⊎ ((m : Text) × (rest : List Text) × (left_out ≡ rest ++ (m ∷ []))
            × (budget / 3 < texts.rune_count m + total_runes texts s.tail)
            × (0 < length s.tail))

nothing_between : (xs : List Text) (k e : ℕ) → e ≤ k → take (e - k) (drop k xs) ≡ []
nothing_between xs k e h =
    let none_left : e - k ≡ 0 = omega (arith, h) in ap (λ n. take n (drop k xs)) none_left

last_between :
    (xs : List Text) (k e before : ℕ) (m : Text)
    → k < e
    → e ≡ suc before
    → get_elem? xs before ≡ some m
    → take (e - k) (drop k xs) ≡ take (before - k) (drop k xs) ++ (m ∷ [])
last_between xs k e before m h end_is at =
    let count : e - k ≡ suc (before - k) = omega (arith, h, end_is) in
    let place : k + (before - k) ≡ before = omega (arith, h, end_is) in
    ap (λ n. take n (drop k xs)) count
    ∙ take_more (before - k) (drop k xs) m
        (get-drop k (before - k) xs ∙ ap (get_elem? xs) place ∙ at)

-- `sample` keeps messages from the start and from the end whole and in order, none twice, and counts exactly those between them that it leaves out. The end
-- takes at most a third of the budget, or is at most one message; both together keep to the budget, or the start is at most one message. Where messages are
-- left out, both sides have a message, the end could not take one more within its third, nor the start one more within the budget.
pub sample-IsExcerpt :
    (texts : Texts) (messages : List Text) (budget : ℕ)
    → IsExcerpt texts messages budget (sample texts messages budget)
unfolding sample
sample-IsExcerpt texts messages budget =
    elim (Bool-cases (leb (total_runes texts messages) budget)) [
      | inl short ↦
          rw (sample, short)
            (record {
              left_out = [];
              whole = sym (append_nil messages);
              counted = refl;
              end_small = unfold total_runes in (inl (omega arith));
              small = unfold total_runes in (inl (ground arith));
              head_full = inl refl;
              tail_full = inl refl;
            })
      | inr long ↦
          let ended = take_end texts messages budget (length messages) 0 in
          let nothing : drop (length messages) messages ≡ [] =
            drop_all (length messages) messages (omega arith) in
          let (used, ended_well, end_full) =
            take_end_lem texts messages budget (length messages) 0
              (unfold total_runes in (ap (total_runes texts) (sym nothing)))
              (omega arith, inr (omega arith)) in
          let bound = ended_well.0 in
          let kept = ended_well.1 in
          let (k, started, inside, small, start_full) =
            take_start_lem texts budget 0 ended.1 (take ended.0 messages) (inr (omega arith)) in
          let low : k ≤ ended.0 = omega (arith, length-take ended.0 messages) in
          let middle = take (ended.0 - k) (drop k messages) in
          let (whole, counted) = between k ended.0 messages low bound in
          let start : take_start texts budget 0 ended.1 (take ended.0 messages) ≡ k =
            started ∙ omega arith in
          let front = take-take k ended.0 messages low in
          rw (sample, long, start)
            (record {
              left_out = middle;
              whole = whole;
              counted = counted;
              end_small = elim kept [
                | inl a ↦ inl a
                | inr b ↦ inr (omega (arith, length-drop ended.0 messages))
              ];
              small = elim small [
                | inl a ↦ inl (omega (arith, used, ap (total_runes texts) front))
                | inr b ↦ inr (omega (arith, length-take k messages))
              ];
              head_full = elim start_full [
                | inl all ↦ inl (
                    nothing_between messages k ended.0
                      (omega (arith, all, length-take ended.0 messages)))
                | inr (m, rest, at, over, some_kept) ↦ inr (
                  m,
                  rest,
                  sym (take-drop k ended.0 messages) ∙ at,
                  omega (arith, over, used, ap (total_runes texts) front),
                  omega (arith, some_kept, length-take k messages, low, bound),
                )
              ];
              tail_full = elim (Bool-cases (ltb k ended.0)) [
                | inr none_left ↦ inl (nothing_between messages k ended.0 (ground arith))
                | inl some_left ↦ elim end_full [
                  | inl zero_end ↦ absurd (ground (arith, zero_end))
                  | inr (before, m, end_is, at, over, more) ↦ inr (
                    m,
                    take (before - k) (drop k messages),
                    last_between messages k ended.0 before m (ground arith) end_is at,
                    over,
                    omega (arith, more, length-drop ended.0 messages),
                  )
                ]
              ];
            })
    ]
