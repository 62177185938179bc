-- ===== src/Search/Snippet.antt =====
-- `SnippetRange` of internal/search/text.go: the preview of a match.
pub mod Preview
use traicr.Prelude.{
  ℕ, zero, suc, ◌+◌, ◌-◌, ◌*◌, ◌≤◌, ◌<◌, min, max, ◌≡◌, refl, ◌⊎◌, inl, inr, Bool, true, false,
  ◌&&◌, ◌||◌, Option, none, some, [], ◌∷◌, ◌++◌, arith, ltb, leb, ◌==◌, if◌then◌else◌, ltb→lt,
  Bool-cases, Option-cases, length, drop, slice, length-append, length-take, length-drop, Text,
}
use traicr.Prelude.Maybe.{◌>>=◌}
use traicr.Prelude.Utf8.{valid_utf8}
use traicr.Domain.{ℤ, pos, negsuc}
use traicr.Search.{retreat, advance, cut, continuation_at}
use traicr.Search.Utf8.{valid_utf8-HasShortRunes}
use traicr.Search.Runes.{advance_lem, retreat_lem, HasShortRunes}

abbrev pub radius : ℕ
radius = 120

abbrev pub word : ℕ
word = 40

-- The bytes of "…"
abbrev pub mark : Text
mark = 226 ∷ 128 ∷ 166 ∷ []

-- `max(0, min(i, len(text)))`
unfoldable pub clamp : ℤ → ℕ → ℕ
clamp (pos i) n = min i n
clamp (negsuc i) n = 0

abbrev pub is_space : ℕ → Bool
is_space b = b == 32 || (b == 9 || b == 10)

-- `strings.IndexAny(text, " \t\n")`
unfoldable pub index_any : Text → Option ℕ
index_any [] = none
index_any (b ∷ text) =
    if is_space b then some 0 else elim (index_any text) [ none ↦ none | some i ↦ some (suc i) ]

-- `strings.LastIndexAny(text, " \t\n")`
unfoldable pub last_index_any : Text → Option ℕ
last_index_any [] = none
last_index_any (b ∷ text) = elim (last_index_any text) [
  | none ↦ if is_space b then some 0 else none
  | some i ↦ some (suc i)
]

-- `start` after the search for a word edge
unfoldable pub word_start : Text → ℕ → ℕ → ℕ
word_start text match_start start =
    if ltb 0 start
    then elim (index_any (slice start (min match_start (start + word)) text)) [
      | none ↦ start
      | some space ↦ start + (space + 1)
    ]
    else start

-- `end` after the search for a word edge
unfoldable pub word_end : Text → ℕ → ℕ → ℕ
word_end text match_end end =
    if ltb end (length text) && ltb match_end end
    then elim (last_index_any (slice (max match_end (end - word)) end text)) [
      | none ↦ end
      | some space ↦ max match_end (end - word) + space
    ]
    else end

-- `for start > 0 && !utf8.RuneStart(text[start]) { start++ }`
unfoldable pub rune_from : Text → ℕ → Option ℕ
rune_from text zero = some 0
rune_from text (suc start) = advance text (suc start)

-- The marks on the sides that are cut.
unfoldable pub marked : Text → ℕ → ℕ → Text → Text
marked text start end snippet =
    (if ltb 0 start then mark else []) ++ (snippet ++ (if ltb end (length text) then mark else []))

-- `SnippetRange`, from the clamped bounds of the match on
unfoldable pub snippet_of : Text → ℕ → ℕ → Option Text
snippet_of text match_start match_end = do
  let first = match_start - radius
  let last = min (min (length text) (match_end + radius)) (first + (480 - 2 * 3))
  start ← rune_from text (word_start text match_start first)
  end ← retreat text (word_end text match_end last)
  snippet ← cut text start end
  some (marked text start end snippet)

-- `SnippetRange`
unfoldable pub snippet_range : Text → ℤ → ℤ → Option Text
snippet_range text match_start match_end =
    let start = clamp match_start (length text) in
    snippet_of text start (max start (clamp match_end (length text)))
