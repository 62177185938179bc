-- ===== src/Tests/Searches.antt =====
-- Texts of a few runes.
use traicr.Prelude.{codes, ◌≡◌, refl, ◌≢◌, true, some, List, [], ◌∷◌, arith, Text}
use traicr.Prelude.Utf8.{lead, valid_utf8, valid_from}
use traicr.Search.{chunks, chunks_loop, retreat, cut}
use traicr.Search.Snippet.{snippet_range}
use traicr.Search.Snippet.Preview.{IsPreview, snippet_range-IsPreview}
use traicr.Domain.{pos}
use traicr.Search.Chunking.{Cuts, chunks-Cuts, Holds, chunks-Holds}

-- "aé€b"
abbrev runes : Text
runes = b'a' ∷ 0xc3 ∷ 0xa9 ∷ 0xe2 ∷ 0x82 ∷ 0xac ∷ b'b' ∷ []

runes_valid : valid_utf8 runes ≡ true
unfolding valid_from
runes_valid = refl

runes_ne : runes ≢ []
runes_ne e = cc

chunks-runes : chunks runes ≡ some (runes ∷ [])
unfolding chunks chunks_loop retreat cut
chunks-runes = refl

chunks-Cuts_example : (cs : List Text) × (chunks runes ≡ some cs) × Cuts runes 0 cs
chunks-Cuts_example = chunks-Cuts runes runes_valid runes_ne

chunks-Holds_example : (cs : List Text) × (chunks runes ≡ some cs) × Holds runes 1 6 cs
chunks-Holds_example = chunks-Holds runes 1 6 runes_valid runes_ne (omega arith) (omega arith)

abbrev sentence : Text
sentence = codes "a match"

sentence_valid : valid_utf8 sentence ≡ true
unfolding valid_from lead
sentence_valid = refl

snippet_range-IsPreview_example :
    (s : Text) × (snippet_range sentence (pos 2) (pos 7) ≡ some s) × IsPreview sentence s
snippet_range-IsPreview_example = snippet_range-IsPreview sentence (pos 2) (pos 7) sentence_valid
