-- ===== src/Store/Transcript/Pages.antt =====
-- The pages of a transcript, read one after the other through the cache.
use traicr.Prelude.{
  ℕ, zero, suc, ◌+◌, ◌-◌, ◌%◌, ◌^◌, ◌≤◌, ◌<◌, min, ◌≡◌, refl, sym, ap, ◌∙◌, ◌≢◌, ◌↔◌, inl, inr,
  true, false, not, ◌&&◌, some, List, [], ◌++◌, arith, ltb, leb, ◌==◌, if◌then◌else◌, ==_iff,
  Bool-cases, length, take, drop, slice, length-drop, take-append-drop, take_whole, drop-drop, Text,
  text_eq, text_eq_iff, ok, err,
}
use traicr.Domain.{ℤ, pos, negsuc}
use traicr.Store.Table.{exists}
use traicr.Store.Db.{Db}
use traicr.Store.Transcript.{
  below, checked_slice, min_int, int64, panic, OrderKey, Orders, Position, Step, IdPage, Outside,
  page_limit, in_position, start_offset, transcript_order, page_ids, transcript_events,
}
use traicr.Store.Transcript.Cache.{IsCoherent, transcript_order-IsCoherent}

-- What JSON and base64 do to a position: a cursor is read back as it was written, and is not empty.
pub record IsEncoding (out : Outside) : Type 0 where
  pub decode_encode : (p : Position) → out.decode p.trace p.revision (out.encode p) ≡ some p
  pub not_empty : (p : Position) → out.encode p ≢ []

-- A reader that follows the cursors, for so many pages at most.
unfoldable pub read_transcript : ℕ → Outside → ℕ → ℕ → ℤ → Db → Text → Orders → Step (List ℕ)
read_transcript zero out trace revision limit db cursor orders = ok []
read_transcript (suc rounds) out trace revision limit db cursor orders =
    elim (transcript_events out trace revision cursor limit db orders) [
      | err e ↦ err e
      | ok page ↦
          if text_eq page.0.next_cursor []
          then ok page.0.ids
          else elim (read_transcript rounds out trace revision limit db page.0.next_cursor page.1) [
            | err e ↦ err e
            | ok ids ↦ ok (page.0.ids ++ ids)
          ]
    ]

page_limit_bounds : (limit : ℤ) → (1 ≤ page_limit limit) × (page_limit limit ≤ 200)
unfolding page_limit
page_limit_bounds (negsuc n) = (omega arith, omega arith)
page_limit_bounds (pos zero) = (omega arith, omega arith)
page_limit_bounds (pos (suc n)) = (omega arith, omega arith)

-- The page where the sum does not overflow, and where it does.
abbrev page_of : Outside → OrderKey → List ℕ → ℕ → ℕ → IdPage
page_of out key order offset limit = record {
  ids = slice (min offset (length order)) (min (offset + limit) (length order)) order;
  next_cursor =
      if ltb (offset + limit) (length order)
      then out.encode (record {
        trace = key.trace;
        revision = key.revision;
        offset = pos (offset + limit);
        generation = key.generation;
      })
      else [];
}

page_ids_fits :
    (out : Outside) (key : OrderKey) (order : List ℕ) (offset limit : ℕ)
    → offset + limit < 2 ^ 63
    → page_ids out key order offset limit ≡ ok (page_of out key order offset limit)
unfolding page_ids int64 min_int checked_slice below
page_ids_fits out key order offset limit h =
    let sum : (offset + limit) % 2 ^ 64 ≡ offset + limit = omega (arith, h) in
    let small : ltb (offset + limit) (2 ^ 63) ≡ true = ground (arith, h) in
    let inside : (leb (min offset (length order)) (min (offset + limit) (length order))
          && leb (min (offset + limit) (length order)) (length order))
        ≡ true =
      ground arith in
    rw (page_ids, sum, int64, small, min_int, checked_slice, inside) refl

page_ids_over :
    (out : Outside) (key : OrderKey) (order : List ℕ) (offset limit : ℕ)
    → offset + limit < 2 ^ 64
    → 2 ^ 63 ≤ offset + limit
    → page_ids out key order offset limit ≡ err panic
unfolding page_ids int64 min_int checked_slice
page_ids_over out key order offset limit h k =
    let sum : (offset + limit) % 2 ^ 64 ≡ offset + limit = omega (arith, h) in
    let large : ltb (offset + limit) (2 ^ 63) ≡ false = ground (arith, k) in
    rw (page_ids, sum, int64, large, min_int, checked_slice) refl

module _ (out : Outside) (db : Db) (trace revision : ℕ) where
  -- The key of the transcript's order.
  abbrev current_key : OrderKey
  current_key = record {
    trace = trace;
    revision = revision;
    generation = out.generation trace revision db;
  }

  abbrev whole_order : List ℕ
  whole_order = out.order current_key db

  -- The page from this offset on.
  abbrev page_at : ℕ → ℕ → IdPage
  page_at offset limit = record {
    ids =
        slice (min offset (length whole_order)) (min (offset + limit) (length whole_order))
          whole_order;
    next_cursor =
        if ltb (offset + limit) (length whole_order)
        then out.encode (record {
          trace = trace;
          revision = revision;
          offset = pos (offset + limit);
          generation = out.generation trace revision db;
        })
        else [];
  }

  module _ (found : exists (λ t. t.id == trace) db.traces ≡ true)
      (known : (not (revision == 0)
          && not (exists (λ r. r.id == revision && r.trace_id == trace) db.revisions))
        ≡ false) where
    events_lem :
        (cursor : Text) (limit : ℤ) (orders : Orders) (offset : ℕ)
        → start_offset out trace revision (out.generation trace revision db) cursor ≡ ok offset
        → IsCoherent out db orders
        → offset ≤ length whole_order
        → length whole_order < 2 ^ 62
        → transcript_events out trace revision cursor limit db orders
          ≡ ok (page_at offset (page_limit limit), (transcript_order out current_key db orders).1)
    unfolding transcript_events
    events_lem cursor limit orders offset started c inside small =
        let (same, _) = transcript_order-IsCoherent out db current_key orders c in
        let bounds = page_limit_bounds limit in
        let page =
          page_ids_fits out current_key whole_order offset (page_limit limit)
            (omega (arith, bounds.1)) in
        rw (transcript_events, found, known, started, same, page) refl

    next_offset :
        (offset : ℕ)
        → IsEncoding out
        → start_offset out trace revision (out.generation trace revision db) (
            out.encode (record {
              trace = trace;
              revision = revision;
              offset = pos offset;
              generation = out.generation trace revision db;
            }))
          ≡ ok offset
    unfolding start_offset in_position
    next_offset offset e =
        let p : Position = record {
          trace = trace;
          revision = revision;
          offset = pos offset;
          generation = out.generation trace revision db;
        } in
        let full : text_eq (out.encode p) [] ≡ false =
          ground (arith, (text_eq_iff (out.encode p) []).0, e.not_empty p) in
        let self : (n : ℕ) → (n == n) ≡ true = λ n. (==_iff n n).1 refl in
        rw
          (
            start_offset,
            full,
            e.decode_encode p,
            in_position,
            self trace,
            self revision,
            self (out.generation trace revision db),
          )
          refl

    ids_last :
        (offset limit : ℕ)
        → offset ≤ length whole_order
        → ltb (offset + limit) (length whole_order) ≡ false
        → (page_at offset limit).ids ≡ drop offset whole_order
    ids_last offset limit inside last =
        let low : min offset (length whole_order) ≡ offset = omega arith in
        let high : min (offset + limit) (length whole_order) ≡ length whole_order = ground arith in
        ap (λ n. slice n (min (offset + limit) (length whole_order)) whole_order) low
        ∙ ap (λ n. slice offset n whole_order) high
        ∙ take_whole (length whole_order - offset) (drop offset whole_order)
            (omega (arith, length-drop offset whole_order))

    ids_more :
        (offset limit : ℕ)
        → offset ≤ length whole_order
        → ltb (offset + limit) (length whole_order) ≡ true
        → (page_at offset limit).ids ≡ take limit (drop offset whole_order)
    ids_more offset limit inside more =
        let low : min offset (length whole_order) ≡ offset = omega arith in
        let high : min (offset + limit) (length whole_order) ≡ offset + limit = ground arith in
        let size : offset + limit - offset ≡ limit = omega arith in
        ap (λ n. slice n (min (offset + limit) (length whole_order)) whole_order) low
        ∙ ap (λ n. slice offset n whole_order) high
        ∙ ap (λ n. take n (drop offset whole_order)) size

    last_page :
        (rounds : ℕ) (cursor : Text) (limit : ℤ) (orders : Orders) (offset : ℕ)
        → start_offset out trace revision (out.generation trace revision db) cursor ≡ ok offset
        → IsCoherent out db orders
        → offset ≤ length whole_order
        → length whole_order < 2 ^ 62
        → ltb (offset + page_limit limit) (length whole_order) ≡ false
        → read_transcript (suc rounds) out trace revision limit db cursor orders
          ≡ ok (drop offset whole_order)
    unfolding read_transcript
    last_page rounds cursor limit orders offset started c inside small last =
        let event = events_lem cursor limit orders offset started c inside small in
        let none_next : text_eq (page_at offset (page_limit limit)).next_cursor [] ≡ true =
          rw last (unfold text_eq in refl) in
        rw (read_transcript, event, none_next)
          (ap ok (ids_last offset (page_limit limit) inside last))

    read_transcript_lem :
        (rounds : ℕ) (cursor : Text) (limit : ℤ) (orders : Orders) (offset : ℕ)
        → IsEncoding out
        → start_offset out trace revision (out.generation trace revision db) cursor ≡ ok offset
        → IsCoherent out db orders
        → offset ≤ length whole_order
        → length whole_order < 2 ^ 62
        → length whole_order ≤ offset + rounds
        → read_transcript (suc rounds) out trace revision limit db cursor orders
          ≡ ok (drop offset whole_order)
    unfolding read_transcript
    read_transcript_lem zero cursor limit orders offset e started c inside small enough =
        last_page zero cursor limit orders offset started c inside small (ground arith)
    read_transcript_lem (suc n) cursor limit orders offset e started c inside small enough =
        let l = page_limit limit in
        elim (Bool-cases (ltb (offset + l) (length whole_order))) [
          | inr last ↦ last_page (suc n) cursor limit orders offset started c inside small last
          | inl more ↦
              let event = events_lem cursor limit orders offset started c inside small in
              let p : Position = record {
                trace = trace;
                revision = revision;
                offset = pos (offset + l);
                generation = out.generation trace revision db;
              } in
              let full : text_eq (out.encode p) [] ≡ false =
                ground (arith, (text_eq_iff (out.encode p) []).0, e.not_empty p) in
              let next : (page_at offset l).next_cursor ≡ out.encode p = rw more refl in
              let some_next : text_eq (page_at offset l).next_cursor [] ≡ false =
                ap (λ x. text_eq x []) next ∙ full in
              let (_, c') = transcript_order-IsCoherent out db current_key orders c in
              let orders' = (transcript_order out current_key db orders).1 in
              let rest : read_transcript (suc n) out trace revision limit db
                    (page_at offset l).next_cursor orders'
                  ≡ ok (drop (offset + l) whole_order) =
                ap (λ x. read_transcript (suc n) out trace revision limit db x orders') next
                ∙ read_transcript_lem n (out.encode p) limit orders' (offset + l) e
                    (next_offset (offset + l) e) c' (ground arith) small
                    (omega (arith, (page_limit_bounds limit).0)) in
              let joined : take l (drop offset whole_order) ++ drop (offset + l) whole_order
                  ≡ drop offset whole_order =
                ap (λ x. take l (drop offset whole_order) ++ x)
                  (sym (drop-drop offset l whole_order))
                ∙ take-append-drop l (drop offset whole_order) in
              rw (read_transcript, event, some_next, rest)
                (ap ok (
                  ap (λ x. x ++ drop (offset + l) whole_order) (ids_more offset l inside more)
                  ∙ joined))
        ]

-- For a trace that is there, and one of its revisions or all of them, a reader who starts without a cursor and follows those of the pages, with any limit, gets
-- every event of the transcript once and in order, without an error, whatever the cache holds that is coherent with the database; a page for each event and
-- one more are enough. The transcript has fewer than 2^62 events, cursors are read back as they were written, and nothing is stored in the meantime.
pub read_transcript-order :
    (out : Outside) (db : Db) (trace revision : ℕ) (limit : ℤ) (orders : Orders) (rounds : ℕ)
    → IsEncoding out
    → exists (λ t. t.id == trace) db.traces ≡ true
    → (not (revision == 0)
        && not (exists (λ r. r.id == revision && r.trace_id == trace) db.revisions))
      ≡ false
    → IsCoherent out db orders
    → length (whole_order out db trace revision) < 2 ^ 62
    → length (whole_order out db trace revision) ≤ rounds
    → read_transcript (suc rounds) out trace revision limit db [] orders
      ≡ ok (whole_order out db trace revision)
read_transcript-order out db trace revision limit orders rounds e found known c small enough =
    let started : start_offset out trace revision (out.generation trace revision db) [] ≡ ok 0 =
      unfold start_offset text_eq in refl in
    read_transcript_lem out db trace revision found known rounds [] limit orders 0 e started c
      (omega arith) small (omega arith)

-- A cursor that names the transcript and its generation is answered with a panic exactly when its offset, which is an int64, and the page's limit add up to 2^63 or more.
pub transcript_events_panics :
    (out : Outside) (db : Db) (trace revision : ℕ) (cursor : Text) (limit : ℤ) (orders : Orders)
    (offset : ℕ)
    → exists (λ t. t.id == trace) db.traces ≡ true
    → (not (revision == 0)
        && not (exists (λ r. r.id == revision && r.trace_id == trace) db.revisions))
      ≡ false
    → start_offset out trace revision (out.generation trace revision db) cursor ≡ ok offset
    → offset < 2 ^ 63
    → (transcript_events out trace revision cursor limit db orders ≡ err panic)
      ↔ (2 ^ 63 ≤ offset + page_limit limit)
unfolding transcript_events
transcript_events_panics out db trace revision cursor limit orders offset found known started
      bound =
    let bounds = page_limit_bounds limit in
    let key = current_key out db trace revision in
    let order = (transcript_order out key db orders).0 in
    elim (Bool-cases (ltb (offset + page_limit limit) (2 ^ 63))) [
      | inr over ↦
          let page =
            page_ids_over out key order offset (page_limit limit) (omega (arith, bounds.1))
              (ground arith) in
          (λ h. ground arith, λ h. rw (transcript_events, found, known, started, page) refl)
      | inl fits ↦
          let page = page_ids_fits out key order offset (page_limit limit) (ground arith) in
          (
            λ h. let r = rw (transcript_events, found, known, started, page) at h in cc,
            λ h. absurd (ground arith),
          )
    ]
