-- ===== src/Server/Logs.antt =====
-- `logBuffer`, `page` and `logs` of internal/server/logs.go, and `pageLimit` of routes.go. A time counts from Go's zero time; encoding a cursor is a parameter.
pub mod Cut
pub mod Newest
pub mod Pages
use traicr.Prelude.{
  ℕ, zero, suc, ◌+◌, ◌-◌, ◌*◌, ◌/◌, ◌%◌, ◌^◌, ◌≤◌, ◌<◌, min, max, ◌≡◌, refl, sym, ap, ◌∙◌, ◌≢◌, ◌↔◌,
  ◌⊎◌, inl, inr, Bool, true, false, not, ◌&&◌, ◌||◌, Option, none, some, List, [], ◌∷◌, ◌++◌, map,
  arith, ltb, leb, ◌==◌, if◌then◌else◌, ltb→lt, leb→le, ==_iff, Bool-cases, Option-cases, length,
  get_elem?, take, drop, slice, length-append, length-take, length-drop, take-append-drop,
  take_whole, length-ne-nil, Member, here, there, Member-append_left, Member-append_right, All,
  All-append, All-members, append_nil, append_assoc, Text, codes, text_eq, text_eq_iff,
  text_eq_refl, text_eq-ne, text_leb, text_leb_refl, text_leb_trans, text_leb_total,
  text_leb_antisym, has_prefix, contains_byte, count_byte, Result, ok, err, ok-injective,
  Result-cases, bind-eq-ok, refuse_if, refuse_if-eq-ok, ◌>>=◌, ◌>>◌,
}
use traicr.Domain.{ℤ, pos, negsuc}

abbrev pub log_capacity : ℕ
log_capacity = 1000

-- `logRecord`; `A` is what its attributes are.
pub record LogRecord (A : Type 0) : Type 0 where
  pub seq : ℕ
  pub time : Text
  pub level_name : Text
  pub message : Text
  pub attrs : A
  pub level : ℤ
  pub at : ℕ

-- The oldest record comes first. `last` stays below 2 ^ 63 in any run.
pub record LogBuffer (A : Type 0) : Type 0 where
  pub instance_id : Text
  pub last : ℕ
  pub records : List (LogRecord A)

pub record LogCursor : Type 0 where
  pub instance_id : Text
  pub before : ℕ

pub record LogPage (A : Type 0) : Type 0 where
  pub records : List (LogRecord A)
  pub next : Option LogCursor

-- `a < b`
unfoldable pub int_ltb : ℤ → ℤ → Bool
int_ltb (pos a) (pos b) = ltb a b
int_ltb (pos a) (negsuc b) = false
int_ltb (negsuc a) (pos b) = true
int_ltb (negsuc a) (negsuc b) = ltb b a

module _ {A : Type 0} where
  -- `slices.Delete(b.records, 0, 1)` of a full buffer.
  unfoldable pub make_room : List (LogRecord A) → List (LogRecord A)
  make_room records = if length records == log_capacity then drop 1 records else records

  -- `add`
  unfoldable pub add : LogRecord A → LogBuffer A → LogBuffer A
  add r b = record b {
    last = b.last + 1;
    records = make_room b.records ++ ((record r { seq = b.last + 1 }) ∷ []);
  }

  -- The records from the end of the list on.
  unfoldable pub newest_first : List (LogRecord A) → List (LogRecord A)
  newest_first [] = []
  newest_first (r ∷ records) = newest_first records ++ (r ∷ [])

  -- The test that lets a record through.
  unfoldable pub selected : ℤ → ℕ → ℕ → LogRecord A → Bool
  selected minimum since before r =
      not ((ltb 0 before && leb before r.seq) || int_ltb r.level minimum || ltb r.at since)

  -- `page.Records[limit-1].Seq`; an index out of range would be a panic, and stands as 0 here.
  unfoldable pub seq_at : ℕ → List (LogRecord A) → ℕ
  seq_at i records = elim (get_elem? records i) [ none ↦ 0 | some r ↦ r.seq ]

  -- The loop of `page`, with the page so far.
  unfoldable pub page_loop :
      Text → ℤ → ℕ → ℕ → ℕ → List (LogRecord A) → List (LogRecord A) → LogPage A
  page_loop id minimum since before limit [] found = record { records = found; next = none }
  page_loop id minimum since before limit (r ∷ rest) found =
      elim (selected minimum since before r) [
        | false ↦ page_loop id minimum since before limit rest found
        | true ↦ elim (length found == limit) [
          | true ↦ record {
            records = found;
            next = some (record { instance_id = id; before = seq_at (limit - 1) found });
          }
          | false ↦ page_loop id minimum since before limit rest (found ++ (r ∷ []))
        ]
      ]

  -- `page`
  unfoldable pub page : LogBuffer A → ℤ → ℕ → ℕ → ℕ → LogPage A
  page b minimum since before limit =
      page_loop b.instance_id minimum since before limit (newest_first b.records) []

-- The parameters of the query that the handler reads; a missing one is empty.
pub record LogQuery : Type 0 where
  pub limit : Text
  pub level : Text
  pub since : Text
  pub cursor : Text

-- The answers 400 of the handler.
pub data LogError : Type 0 where
  invalid_limit invalid_level invalid_since invalid_cursor : LogError

-- What the handler takes from elsewhere: `strconv.Atoi`, `time.Parse` and the decoder of a cursor.
pub record LogParsers : Type 0 where
  pub parse_int : Text → Option ℤ
  pub parse_time : Text → Option ℕ
  pub decode_cursor : Text → Option LogCursor

-- `pageLimit`
unfoldable pub in_limit : ℤ → Result LogError ℕ
in_limit (negsuc n) = err invalid_limit
in_limit (pos n) = if ltb n 1 || ltb 200 n then err invalid_limit else ok n

unfoldable pub page_limit : LogParsers → Text → Result LogError ℕ
page_limit p limit =
    if text_eq limit []
    then ok 50
    else elim (p.parse_int limit) [ none ↦ err invalid_limit | some n ↦ in_limit n ]

-- slog.LevelInfo, slog.LevelWarn and slog.LevelError
unfoldable pub minimum_level : Text → Result LogError ℤ
minimum_level level =
    if text_eq level [] || text_eq level (codes "info")
    then ok (pos 0)
    else if text_eq level (codes "warn")
    then ok (pos 4)
    else if text_eq level (codes "error")
    then ok (pos 8)
    else err invalid_level

unfoldable pub since_time : LogParsers → Text → Result LogError ℕ
since_time p since =
    if text_eq since []
    then ok 0
    else elim (p.parse_time since) [ none ↦ err invalid_since | some t ↦ ok t ]

unfoldable pub cursor_position : LogParsers → Text → Text → Result LogError ℕ
cursor_position p id cursor = if text_eq cursor [] then ok 0 else elim (p.decode_cursor cursor) [
  | none ↦ err invalid_cursor
  | some c ↦
      if not (text_eq c.instance_id id) || c.before == 0 then err invalid_cursor else ok c.before
]

-- `logs`
unfoldable pub logs :
    {A : Type 0} → LogParsers → LogBuffer A → LogQuery → Result LogError (LogPage A)
logs p b query = do
  limit ← page_limit p query.limit
  minimum ← minimum_level query.level
  since ← since_time p query.since
  before ← cursor_position p b.instance_id query.cursor
  ok (page b minimum since before limit)
