-- ===== src/Prelude/Utf8.antt =====
-- `utf8.ValidString` of Go's unicode/utf8, byte by byte.
use traicr.Prelude.Strings.{Text}
use traicr.Prelude.Tests.{ltb, leb, ◌==◌, if◌then◌else◌}
use Prim.Native.Nat.{ℕ, zero, suc}
use mathlib.Core.Bool.{Bool, true, false, ◌&&◌}
use mathlib.Core.List.{[], ◌∷◌}
use mathlib.Core.Option.{Option, none, some}

-- What a first byte asks for: how many bytes follow, and the range of the next one.
pub record Lead : Type 0 where
  pub more : ℕ
  pub lo : ℕ
  pub hi : ℕ

abbrev lead_of : ℕ → ℕ → ℕ → Option Lead
lead_of n lo hi = some (record { more = n; lo = lo; hi = hi })

unfoldable pub lead : ℕ → Option Lead
lead b =
    if ltb b 0x80
    then lead_of 0 0x80 0xbf
    else if ltb b 0xc2
    then none
    else if ltb b 0xe0
    then lead_of 1 0x80 0xbf
    else if b == 0xe0
    then lead_of 2 0xa0 0xbf
    else if b == 0xed
    then lead_of 2 0x80 0x9f
    else if ltb b 0xf0
    then lead_of 2 0x80 0xbf
    else if b == 0xf0
    then lead_of 3 0x90 0xbf
    else if ltb b 0xf4
    then lead_of 3 0x80 0xbf
    else if b == 0xf4
    then lead_of 3 0x80 0x8f
    else none

-- `more` bytes of a rune are missing, the next of them between `lo` and `hi`.
unfoldable pub valid_from : ℕ → ℕ → ℕ → Text → Bool
unfolding lead
valid_from zero lo hi [] = true
valid_from (suc n) lo hi [] = false
valid_from zero lo hi (b ∷ text) = elim (lead b) [
  | none ↦ false
  | some l ↦ valid_from l.more l.lo l.hi text
]
valid_from (suc n) lo hi (b ∷ text) = leb lo b && leb b hi && valid_from n 0x80 0xbf text

abbrev pub valid_utf8 : Text → Bool
valid_utf8 text = valid_from 0 0 0 text
