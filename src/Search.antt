-- ===== src/Search.antt =====
-- internal/search/text.go: the chunks that the search index holds, and the previews of matches.
-- `none` is a run-time panic (an index or a slice out of range), or fuel that ran out.
pub mod Runes
pub mod Utf8
pub mod Chunking
pub mod Snippet
use traicr.Prelude.{
  ℕ, zero, suc, ◌+◌, ◌-◌, ◌/◌, min, max, Bool, true, false, not, ◌&&◌, Option, none, some, List, [],
  ◌∷◌, ◌++◌, ltb, leb, ◌==◌, if◌then◌else◌, length, get_elem?, drop, slice, Text,
}
use traicr.Prelude.Maybe.{◌>>=◌}

abbrev pub chunk_bytes : ℕ
chunk_bytes = 16384

abbrev pub chunk_overlap : ℕ
chunk_overlap = 1024

-- `utf8.RuneStart`: `b & 0xC0 != 0x80`
unfoldable pub rune_start : ℕ → Bool
rune_start b = not (b / 64 == 2)

-- `i < len(text) && !utf8.RuneStart(text[i])`
unfoldable pub continuation_at : Text → ℕ → Bool
unfolding rune_start
continuation_at text i = elim (get_elem? text i) [ none ↦ false | some b ↦ not (rune_start b) ]

-- `for end < len(text) && !utf8.RuneStart(text[end]) { end-- }`; below 0 the index panics
unfoldable pub retreat : Text → ℕ → Option ℕ
unfolding continuation_at
retreat text zero = if continuation_at text 0 then none else some 0
retreat text (suc i) = if continuation_at text (suc i) then retreat text i else some (suc i)

-- `for !utf8.RuneStart(text[start]) { start++ }` on the bytes from `start` on
unfoldable pub advance_from : Text → ℕ → Option ℕ
unfolding rune_start
advance_from [] i = none
advance_from (b ∷ rest) i = if rune_start b then some i else advance_from rest (i + 1)

abbrev pub advance : Text → ℕ → Option ℕ
advance text start = advance_from (drop start text) start

-- `text[start:end]`
unfoldable pub cut : Text → ℕ → ℕ → Option Text
cut text start end =
    if leb start end && leb end (length text) then some (slice start end text) else none

-- The loop of `Chunks`, one round for each unit of fuel.
unfoldable pub chunks_loop : ℕ → Text → ℕ → Option (List Text)
chunks_loop zero text start = none
chunks_loop (suc fuel) text start =
    let round = (do
      end ← retreat text (min (start + chunk_bytes) (length text))
      piece ← cut text start end
      let more = (do
        next ← advance text (end - min chunk_overlap (end - start))
        rest ← chunks_loop fuel text next
        some (piece ∷ rest))
      if end == length text then some (piece ∷ []) else more) in
    if ltb start (length text) then round else some []

-- `Chunks`
unfoldable pub chunks : Text → Option (List Text)
chunks [] = some []
chunks text = chunks_loop (suc (length text)) text 0
