-- ===== src/Archive/Write.antt =====
-- `Write` of internal/archive/archive.go: how the traces of one export are split over archives.
-- `writeZIP` is a parameter: it reads and writes files.
pub mod Split
use traicr.Archive.Describe.{Input, DescribeError, describe}
use traicr.Prelude.{
  ◌^◌, codes, ◌/◌, ◌%◌, ◌-◌, ℕ, zero, suc, ◌+◌, ◌≤◌, ◌≡◌, refl, ap, ◌∙◌, ◌≢◌, ◌⊎◌, inl, inr, Bool,
  true, false, ◌&&◌, Option, none, some, List, [], ◌∷◌, ◌++◌, arith, ltb, if◌then◌else◌, Bool-cases,
  length, length-append, All, Text, Result, ok, err,
}
use traicr.Prelude.Maybe.{◌>>=◌}
use traicr.Domain.{File, Descriptor, ℤ, pos, negsuc}

-- An int64 is held by its 64 bits.
unfoldable pub bits : ℤ → ℕ
bits (pos n) = n % 2 ^ 64
bits (negsuc n) = 2 ^ 64 - 1 - n % 2 ^ 64

unfoldable pub add64 : ℕ → ℕ → ℕ
add64 a b = (a + b) % 2 ^ 64

unfoldable pub sub64 : ℕ → ℕ → ℕ
sub64 a b = (a + 2 ^ 64 - b) % 2 ^ 64

-- `a < b` on signed numbers
unfoldable pub signed_ltb : ℕ → ℕ → Bool
signed_ltb a b = ltb ((a + 2 ^ 63) % 2 ^ 64) ((b + 2 ^ 63) % 2 ^ 64)

-- `traceSize` after the loop over the files, from what it was before
unfoldable pub files_size : ℕ → List File → ℕ
files_size size [] = size
files_size size (f ∷ files) = files_size (add64 size (bits f.size)) files

abbrev pub trace_size : Descriptor → ℕ
trace_size d = files_size 0 d.files

-- The inner loop, after the test of `last > first`: what goes into the archive, and what is left.
unfoldable pub fill_archive : ℕ → Bool → ℕ → List Descriptor → List Descriptor × List Descriptor
fill_archive split started size [] = ([], [])
fill_archive split started size (d ∷ inputs) =
    let filled = fill_archive split true (add64 size (trace_size d)) inputs in
    if started && signed_ltb (sub64 split size) (trace_size d)
    then ([], d ∷ inputs)
    else (d ∷ filled.0, filled.1)

-- The outer loop, with the rounds that are allowed: the traces of each archive.
unfoldable pub split_inputs : ℕ → ℕ → List Descriptor → Option (List (List Descriptor))
split_inputs rounds split [] = some []
split_inputs zero split (d ∷ inputs) = none
split_inputs (suc rounds) split (d ∷ inputs) = do
  let filled = fill_archive split false 0 (d ∷ inputs)
  rest ← split_inputs rounds split filled.1
  some (filled.0 ∷ rest)

-- `splitBytes`; 0 and less are the default.
unfoldable pub split_bytes : ℤ → ℕ
split_bytes (pos zero) = 2000000000
split_bytes (pos (suc n)) = suc n
split_bytes (negsuc n) = 2000000000

-- The calls of `writeZIP`: the names so far, and the error that ends the loop.
unfoldable pub write_archives :
    {E : Type 0}
    → (List Descriptor → ℕ → Result E Text)
    → ℕ
    → List (List Descriptor)
    → List Text × Option E
write_archives zip number [] = ([], none)
write_archives zip number (traces ∷ rest) = elim (zip traces number) [
  | err e ↦ ([], some e)
  | ok name ↦ let others = write_archives zip (number + 1) rest in (name ∷ others.0, others.1)
]

-- The digits of `%06d`; the rounds that are given are enough for a number below them.
unfoldable pub digits : ℕ → ℕ → Text
digits zero n = []
digits (suc rounds) n =
    let rest = digits rounds (n / 10) in
    if ltb n 10 then (48 + n) ∷ [] else rest ++ ((48 + n % 10) ∷ [])

unfoldable pub zeros : ℕ → Text
zeros zero = []
zeros (suc n) = b'0' ∷ zeros n

-- `fmt.Sprintf("traces/%06d", number)`
unfoldable pub trace_path : ℕ → Text
trace_path number =
    let shown = digits (number + 1) number in codes "traces/" ++ (zeros (6 - length shown) ++ shown)

-- The loop that describes the inputs and numbers them, from this number on.
unfoldable pub describe_inputs :
    (Text → Text) → ℕ → List Input → Result DescribeError (List Descriptor)
describe_inputs hash number [] = ok []
describe_inputs hash number (input ∷ inputs) =
    let rest = describe_inputs hash (number + 1) inputs in
    elim (describe hash input) [
      | err e ↦ err e
      | ok d ↦ elim rest [
        | err e ↦ err e
        | ok ds ↦ ok ((record d { path = trace_path number }) ∷ ds)
      ]
    ]

-- `Write`, from the described inputs on
unfoldable pub write :
    {E : Type 0}
    → (List Descriptor → ℕ → Result E Text)
    → ℤ
    → List Descriptor
    → Option (List Text × Option E)
write zip limit inputs = do
  archives ← split_inputs (length inputs) (split_bytes limit) inputs
  some (write_archives zip 1 archives)
