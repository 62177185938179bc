-- ===== src/Store/Transcript.antt =====
-- `TranscriptEvents`, `transcriptOrder` and the cache `transcriptOrders` of internal/store/transcript.go, and `pageLimit` of read.go, for the keys
-- of a page's events. The query for the order of a transcript's events, which reads their JSON, and the encoding of a cursor are parameters;
-- reading the rows of a page is left out.
pub mod Cache
pub mod Pages
use traicr.Prelude.{
  ℕ, zero, suc, ◌+◌, ◌-◌, ◌*◌, ◌/◌, ◌%◌, ◌^◌, ◌≤◌, ◌<◌, min, max, ◌≡◌, refl, sym, ap, ◌∙◌, ◌≢◌, ◌↔◌,
  ◌⊎◌, inl, inr, Bool, true, false, not, ◌&&◌, ◌||◌, Option, none, some, List, [], ◌∷◌, ◌++◌, map,
  arith, ltb, leb, ◌==◌, if◌then◌else◌, ltb→lt, leb→le, ==_iff, Bool-cases, Option-cases, length,
  get_elem?, take, drop, slice, length-append, length-take, length-drop, take-append-drop,
  take_whole, length-ne-nil, Member, here, there, Member-append_left, Member-append_right, All,
  All-append, All-members, append_nil, append_assoc, Text, codes, text_eq, text_eq_iff,
  text_eq_refl, text_eq-ne, text_leb, text_leb_refl, text_leb_trans, text_leb_total,
  text_leb_antisym, has_prefix, contains_byte, count_byte, Result, ok, err, ok-injective,
  Result-cases, bind-eq-ok, refuse_if, refuse_if-eq-ok, ◌>>=◌, ◌>>◌,
}
use traicr.Domain.{ℤ, pos, negsuc}
use traicr.Store.Table.{exists, max_of, delete_where}
use traicr.Store.Db.{Db, NormalizerRun, RevisionRow}

abbrev pub order_capacity : ℕ
order_capacity = 8

-- `transcriptOrderKey`
pub record OrderKey : Type 0 where
  pub trace : ℕ
  pub revision : ℕ
  pub generation : ℕ

unfoldable pub key_eq : OrderKey → OrderKey → Bool
key_eq a b = a.trace == b.trace && a.revision == b.revision && a.generation == b.generation

-- `transcriptOrders`, without its lock.
pub record Orders : Type 0 where
  pub keys : List OrderKey
  pub items : List (OrderKey × List ℕ)

unfoldable pub find_order : OrderKey → List (OrderKey × List ℕ) → Option (List ℕ)
find_order key [] = none
find_order key ((k, ids) ∷ items) = if key_eq k key then some ids else find_order key items

-- `get`
unfoldable pub get_order : OrderKey → Orders → Option (List ℕ)
get_order key orders = find_order key orders.items

unfoldable pub delete_order : OrderKey → List (OrderKey × List ℕ) → List (OrderKey × List ℕ)
delete_order key [] = []
delete_order key ((k, ids) ∷ items) =
    let rest = delete_order key items in if key_eq k key then rest else (k, ids) ∷ rest

-- `delete(c.items, c.keys[0])` and the deletion of that key, in a full cache.
unfoldable pub evict : Orders → Orders
evict orders = elim orders.keys [
  | [] ↦ orders
  | oldest ∷ keys ↦
      if length (oldest ∷ keys) == order_capacity
      then record { keys = keys; items = delete_order oldest orders.items }
      else orders
]

-- `put`
unfoldable pub put_order : OrderKey → List ℕ → Orders → Orders
put_order key ids orders =
    let room = evict orders in
    elim (find_order key orders.items) [
      | some known ↦ orders
      | none ↦ record { keys = room.keys ++ (key ∷ []); items = (key, ids) ∷ room.items }
    ]

-- The position that a cursor encodes; a negative offset is not valid.
pub record Position : Type 0 where
  pub trace : ℕ
  pub revision : ℕ
  pub offset : ℤ
  pub generation : ℕ

pub data TranscriptError : Type 0 where
  missing_trace missing_revision invalid_cursor changed panic : TranscriptError

abbrev pub Step : Type 0 → Type 0
Step A = Result TranscriptError A

pub record IdPage : Type 0 where
  pub ids : List ℕ
  pub next_cursor : Text

-- `generation` is the key of the newest normalizer run of the trace or of the one revision, 0 if there is none. A cursor is decoded into a position
-- that has the trace and the revision of the request already.
pub record Outside : Type 0 where
  pub order : OrderKey → Db → List ℕ
  pub encode : Position → Text
  pub decode : ℕ → ℕ → Text → Option Position
  pub generation : ℕ → ℕ → Db → ℕ

-- `pageLimit`
unfoldable pub page_limit : ℤ → ℕ
page_limit (negsuc n) = 50
page_limit (pos zero) = 50
page_limit (pos (suc n)) = min (suc n) 200

-- An int64 by its 64 bits.
unfoldable pub int64 : ℕ → ℤ
int64 n = if ltb n (2 ^ 63) then pos n else negsuc (2 ^ 64 - 1 - n)

-- `min` of an int64 and a length
unfoldable pub min_int : ℤ → ℕ → ℤ
min_int (pos n) m = pos (min n m)
min_int (negsuc n) m = negsuc n

-- `xs[lo:hi]` of Go: bounds that are negative, out of order or beyond the end are a panic.
unfoldable pub checked_slice : ℤ → ℤ → List ℕ → Step (List ℕ)
checked_slice (pos lo) (pos hi) xs =
    if leb lo hi && leb hi (length xs) then ok (slice lo hi xs) else err panic
checked_slice (negsuc lo) hi xs = err panic
checked_slice (pos lo) (negsuc hi) xs = err panic

-- `a < b` for an int64 and a length
unfoldable pub below : ℤ → ℕ → Bool
below (pos n) m = ltb n m
below (negsuc n) m = true

module _ (out : Outside) where
  unfoldable pub in_position : ℕ → ℕ → ℕ → Position → Step ℕ
  in_position trace revision current p = elim p.offset [
    | negsuc n ↦ err invalid_cursor
    | pos offset ↦
        if not (p.trace == trace) || not (p.revision == revision)
        then err invalid_cursor
        else if not (p.generation == current)
        then err changed
        else ok offset
  ]

  -- The offset where the page starts.
  unfoldable pub start_offset : ℕ → ℕ → ℕ → Text → Step ℕ
  start_offset trace revision current cursor =
      if text_eq cursor [] then ok 0 else elim (out.decode trace revision cursor) [
        | none ↦ err invalid_cursor
        | some p ↦ in_position trace revision current p
      ]

  -- `transcriptOrder`
  unfoldable pub transcript_order : OrderKey → Db → Orders → List ℕ × Orders
  transcript_order key db orders = elim (get_order key orders) [
    | some ids ↦ (ids, orders)
    | none ↦ let ids = out.order key db in (ids, put_order key ids orders)
  ]

  -- From `ids := order[min(offset, len):min(offset+limit, len)]` on; the offset is not negative.
  unfoldable pub page_ids : OrderKey → List ℕ → ℕ → ℕ → Step IdPage
  page_ids key order offset limit = do
    let next = int64 ((offset + limit) % 2 ^ 64)
    ids ← checked_slice (min_int (pos offset) (length order)) (min_int next (length order)) order
    ok (record {
      ids = ids;
      next_cursor =
          if below next (length order)
          then out.encode (record {
            trace = key.trace;
            revision = key.revision;
            offset = next;
            generation = key.generation;
          })
          else [];
    })

  -- `TranscriptEvents`, with the cache after it.
  unfoldable pub transcript_events : ℕ → ℕ → Text → ℤ → Db → Orders → Step (IdPage × Orders)
  transcript_events trace revision cursor limit db orders = do
    refuse_if (not (exists (λ t. t.id == trace) db.traces)) missing_trace
    refuse_if
        (not (revision == 0)
          && not (exists (λ r. r.id == revision && r.trace_id == trace) db.revisions))
        missing_revision
    offset ← start_offset trace revision (out.generation trace revision db) cursor
    let key : OrderKey = record {
      trace = trace;
      revision = revision;
      generation = out.generation trace revision db;
    }
    let found = transcript_order key db orders
    page ← page_ids key found.0 offset (page_limit limit)
    ok (page, found.1)
