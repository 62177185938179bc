-- ===== src/Tests/Transcripts.antt =====
-- A transcript of three events, read in pages of two through an empty cache.
use traicr.Prelude.{
  ℕ, zero, suc, ◌+◌, ◌^◌, ◌≤◌, ◌≡◌, refl, ◌≢◌, ◌↔◌, true, Option, none, some, [], ◌∷◌, arith, ◌==◌,
  Text, codes, text_eq, ok, err,
}
use traicr.Domain.{negsuc, ℤ, pos}
use traicr.Store.Table.{exists}
use traicr.Store.Db.{Db, empty}
use traicr.Store.Transcript.{
  panic, Orders, Outside, Position, transcript_events, start_offset, in_position, page_limit,
}
use traicr.Store.Transcript.Cache.{IsCoherent}
use traicr.Store.Transcript.Pages.{
  IsEncoding, read_transcript, read_transcript-order, transcript_events_panics,
}

-- A cursor is written as its trace, its revision, the sign and size of its offset and its generation.
abbrev encode : Position → Text
encode p = elim p.offset [
  | pos n ↦ p.trace ∷ p.revision ∷ 0 ∷ n ∷ p.generation ∷ []
  | negsuc n ↦ p.trace ∷ p.revision ∷ 1 ∷ n ∷ p.generation ∷ []
]

abbrev sign : ℕ → ℕ → ℤ
sign zero n = pos n
sign (suc s) n = negsuc n

abbrev decode : Text → Option Position
decode (trace ∷ revision ∷ s ∷ n ∷ generation ∷ []) =
    some (record { trace = trace; revision = revision; offset = sign s n; generation = generation })
decode _ = none

abbrev outside : Outside
outside = record {
  order = λ key db. 7 ∷ 8 ∷ 9 ∷ [];
  encode = encode;
  decode = λ trace revision cursor. decode cursor;
  generation = λ trace revision db. 4;
}

outside-IsEncoding : IsEncoding outside
outside-IsEncoding = record { decode_encode = back; not_empty = full }
  where
    back_at :
        (trace revision generation : ℕ) (offset : ℤ)
        → decode (
            encode (record {
              trace = trace;
              revision = revision;
              offset = offset;
              generation = generation;
            }))
          ≡ some (record {
            trace = trace;
            revision = revision;
            offset = offset;
            generation = generation;
          })
    back_at trace revision generation (pos n) = refl
    back_at trace revision generation (negsuc n) = refl

    back : (p : Position) → decode (encode p) ≡ some p
    back p = back_at p.trace p.revision p.generation p.offset

    full_at :
        (trace revision generation : ℕ) (offset : ℤ)
        → encode (record {
          trace = trace;
          revision = revision;
          offset = offset;
          generation = generation;
        })
          ≢ []
    full_at trace revision generation (pos n) h = cc
    full_at trace revision generation (negsuc n) h = cc

    full : (p : Position) → encode p ≢ []
    full p = full_at p.trace p.revision p.generation p.offset

abbrev db : Db
db = record empty {
  traces =
      (record {
        id = 1;
        harness = codes "pi";
        native_trace_id = codes "n";
        title = [];
        working_directory = [];
        repository_id = none;
        parent_native_trace_id = [];
        created_at = codes "1";
        updated_at = codes "2";
        title_override = [];
        generated_title = [];
        generated_title_revision_id = 0;
      })
      ∷ [];
}

abbrev no_orders : Orders
no_orders = record { keys = []; items = [] }

no_orders-IsCoherent : IsCoherent outside db no_orders
no_orders-IsCoherent = record { bounded = omega arith; same = tt }

db_has : exists (λ t. t.id == 1) db.traces ≡ true
unfolding exists
db_has = refl

read_transcript-order_example :
    read_transcript 4 outside 1 0 (pos 2) db [] no_orders ≡ ok (7 ∷ 8 ∷ 9 ∷ [])
read_transcript-order_example =
    read_transcript-order outside db 1 0 (pos 2) no_orders 3 outside-IsEncoding db_has refl
      no_orders-IsCoherent (omega arith) (omega arith)

abbrev far : Text
far = 1 ∷ 0 ∷ 0 ∷ 9223372036854775807 ∷ 4 ∷ []

far_starts : start_offset outside 1 0 4 far ≡ ok 9223372036854775807
unfolding start_offset in_position text_eq
far_starts = refl

transcript_events_panics_example :
    (transcript_events outside 1 0 far (pos 2) db no_orders ≡ err panic)
    ↔ (2 ^ 63 ≤ 9223372036854775807 + page_limit (pos 2))
transcript_events_panics_example =
    transcript_events_panics outside db 1 0 far (pos 2) no_orders 9223372036854775807 db_has refl
      far_starts (omega arith)
