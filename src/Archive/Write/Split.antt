-- ===== src/Archive/Write/Split.antt =====
-- The archives that `Write` splits an export into.
use traicr.Prelude.{
  ◌%◌, ◌^◌, ◌<◌, ℕ, zero, suc, ◌+◌, ◌≤◌, ◌≡◌, refl, sym, ap, ◌∙◌, ◌≢◌, ◌⊎◌, inl, inr, Bool, true,
  false, ◌&&◌, some, List, [], ◌∷◌, ◌++◌, arith, ltb, Bool-cases, length, length-append, All,
}
use mathlib.Core.Path.{subst}
use traicr.Domain.{File, Descriptor, ℤ, pos, negsuc}
use traicr.Archive.Write.{
  bits, add64, sub64, signed_ltb, files_size, trace_size, fill_archive, split_inputs,
}

-- The traces of all archives, one archive after the other.
unfoldable pub joined : List (List Descriptor) → List Descriptor
joined [] = []
joined (traces ∷ rest) = traces ++ joined rest

abbrev pub size_of : ℤ → ℕ
size_of (pos n) = n
size_of (negsuc n) = 0

-- The bytes of the files of a trace, of traces, without a bound.
unfoldable pub bytes_of : List File → ℕ
bytes_of [] = 0
bytes_of (f ∷ files) = size_of f.size + bytes_of files

unfoldable pub traces_size : List Descriptor → ℕ
traces_size [] = 0
traces_size (d ∷ ds) = bytes_of d.files + traces_size ds

-- No file has a negative size.
abbrev pub HasSizes : Descriptor → Type 0
HasSizes d = All (λ f. (n : ℕ) × (f.size ≡ pos n)) d.files

files_size-bytes_of :
    (size : ℕ) (files : List File)
    → All (λ f. (n : ℕ) × (f.size ≡ pos n)) files
    → size + bytes_of files < 2 ^ 63
    → files_size size files ≡ size + bytes_of files
unfolding files_size bytes_of add64 bits
files_size-bytes_of size [] a h = omega arith
files_size-bytes_of size (f ∷ files) ((n, e), a) h =
    let counted : size_of f.size ≡ n = ap size_of e in
    let held : bits f.size ≡ n % 2 ^ 64 = ap bits e in
    let small : n < 2 ^ 63 = omega (arith, counted, h) in
    let sum : (size + bits f.size) % 2 ^ 64 ≡ size + n = omega (arith, held, counted, h, small) in
    rw (files_size, add64, sum)
      (files_size-bytes_of (size + n) files a (omega (arith, counted, h)) ∙ omega (arith, counted))

-- The comparison of the loop, where nothing overflows.
over_limit :
    (split size more : ℕ)
    → split < 2 ^ 63
    → size + more < 2 ^ 63
    → signed_ltb (sub64 split size) more ≡ ltb split (size + more)
unfolding signed_ltb sub64
over_limit split size more h k = ground (arith, h, k)

-- An archive with a trace, within the limit unless it has that one trace only.
abbrev pub IsSplit : ℕ → List Descriptor → Type 0
IsSplit split traces = (traces ≢ []) × ((length traces ≡ 1) ⊎ (traces_size traces ≤ split))

fill_archive-append :
    (split : ℕ) (started : Bool) (size : ℕ) (inputs : List Descriptor)
    → (fill_archive split started size inputs).0 ++ (fill_archive split started size inputs).1
      ≡ inputs
unfolding fill_archive
fill_archive-append split started size [] = refl
fill_archive-append split started size (d ∷ inputs) =
    elim (Bool-cases (started && signed_ltb (sub64 split size) (trace_size d))) [
      | inl t ↦ rw t refl
      | inr f ↦
          rw f (ap (λ r. d ∷ r) (fill_archive-append split true (add64 size (trace_size d)) inputs))
    ]

-- What is added to an archive that has a trace fits, or nothing is added.
fill_archive-size :
    (split size : ℕ) (inputs : List Descriptor)
    → split < 2 ^ 63
    → All HasSizes inputs
    → size + traces_size inputs < 2 ^ 63
    → ((fill_archive split true size inputs).0 ≡ [])
      ⊎ (size + traces_size (fill_archive split true size inputs).0 ≤ split)
unfolding fill_archive traces_size
fill_archive-size split size [] s a h = inl refl
fill_archive-size split size (d ∷ inputs) s (c, a) h =
    let own = files_size-bytes_of 0 d.files c (omega (arith, h)) in
    let bytes : trace_size d ≡ bytes_of d.files = omega (arith, own) in
    let over = over_limit split size (bytes_of d.files) s (omega (arith, h)) in
    let test : signed_ltb (sub64 split size) (trace_size d) ≡ ltb split (size + bytes_of d.files) =
      ap (signed_ltb (sub64 split size)) bytes ∙ over in
    let next : add64 size (trace_size d) ≡ size + bytes_of d.files =
      unfold add64 in omega (arith, bytes, h) in
    elim (Bool-cases (ltb split (size + bytes_of d.files))) [
      | inl t ↦ inl (rw (test ∙ t) refl)
      | inr f ↦
          let fits : size + bytes_of d.files ≤ split = ground arith in
          elim (fill_archive-size split (size + bytes_of d.files) inputs s a (omega (arith, h))) [
            | inl nothing ↦ inr (rw (test ∙ f) (rw next (rw nothing (omega (arith, fits)))))
            | inr more ↦ inr (rw (test ∙ f) (rw next (omega (arith, more))))
          ]
    ]

fill_archive-IsSplit :
    (split : ℕ) (d : Descriptor) (inputs : List Descriptor)
    → split < 2 ^ 63
    → All HasSizes (d ∷ inputs)
    → traces_size (d ∷ inputs) < 2 ^ 63
    → IsSplit split (fill_archive split false 0 (d ∷ inputs)).0
unfolding fill_archive traces_size
fill_archive-IsSplit split d inputs s (c, a) h =
    let own = files_size-bytes_of 0 d.files c (omega (arith, h)) in
    let next : add64 0 (trace_size d) ≡ bytes_of d.files = unfold add64 in omega (arith, own, h) in
    (
      cc,
      elim (fill_archive-size split (bytes_of d.files) inputs s a (omega (arith, h))) [
        | inl nothing ↦ inl (rw next (ap (λ r. suc (length r)) nothing))
        | inr more ↦ inr (rw next (omega (arith, more)))
      ],
    )

-- What is left is counted as before.
rest_HasSizes :
    (front back inputs : List Descriptor)
    → front ++ back ≡ inputs
    → All HasSizes inputs
    → traces_size inputs < 2 ^ 63
    → All HasSizes back × (traces_size back < 2 ^ 63)
unfolding traces_size
rest_HasSizes front back inputs e a h =
    split_front front back (subst (All HasSizes) (sym e) a)
      (subst (λ x. traces_size x < 2 ^ 63) (sym e) h)
  where
    split_front :
        (front back : List Descriptor)
        → All HasSizes (front ++ back)
        → traces_size (front ++ back) < 2 ^ 63
        → All HasSizes back × (traces_size back < 2 ^ 63)
    split_front [] back a h = (a, h)
    split_front (x ∷ front) back (c, a) h = split_front front back a (omega (arith, h))

rest_shorter : (a b : List Descriptor) (n : ℕ) → a ≢ [] → length a + length b ≤ suc n → length b ≤ n
rest_shorter [] b n ne h = absurd (ne refl)
rest_shorter (x ∷ a) b n ne h = omega arith

split_inputs-IsSplit_within :
    (rounds split : ℕ) (inputs : List Descriptor)
    → split < 2 ^ 63
    → All HasSizes inputs
    → traces_size inputs < 2 ^ 63
    → length inputs ≤ rounds
    → (archives : List (List Descriptor)) × (split_inputs rounds split inputs ≡ some archives)
      × (joined archives ≡ inputs)
      × All (IsSplit split) archives
unfolding split_inputs joined
split_inputs-IsSplit_within rounds split [] s a b h = ([], refl, refl, tt)
split_inputs-IsSplit_within zero split (d ∷ inputs) s a b h = absurd (omega arith)
split_inputs-IsSplit_within (suc rounds) split (d ∷ inputs) s a b h =
    let filled = fill_archive split false 0 (d ∷ inputs) in
    let whole : filled.0 ++ filled.1 ≡ d ∷ inputs =
      fill_archive-append split false 0 (d ∷ inputs) in
    let good = fill_archive-IsSplit split d inputs s a b in
    let sum : length filled.0 + length filled.1 ≤ suc rounds =
      omega (arith, length-append filled.0 filled.1, ap length whole, h) in
    let left = rest_HasSizes filled.0 filled.1 (d ∷ inputs) whole a b in
    let (archives, found, all, split_all) =
      split_inputs-IsSplit_within rounds split filled.1 s left.0 left.1
        (rest_shorter filled.0 filled.1 rounds good.0 sum) in
    (filled.0 ∷ archives, rw found refl, ap (λ r. filled.0 ++ r) all ∙ whole, (good, split_all))

-- An export whose files have sizes, with a sum and a limit that an int64 holds, is split into archives that have all its traces in order, none without a trace, and none
-- over the limit but where one trace alone is; the splitting ends.
pub split_inputs-IsSplit :
    (split : ℕ) (inputs : List Descriptor)
    → split < 2 ^ 63
    → All HasSizes inputs
    → traces_size inputs < 2 ^ 63
    → (archives : List (List Descriptor)) × (split_inputs (length inputs) split inputs
        ≡ some archives)
      × (joined archives ≡ inputs)
      × All (IsSplit split) archives
split_inputs-IsSplit split inputs s a b =
    split_inputs-IsSplit_within (length inputs) split inputs s a b (omega arith)
