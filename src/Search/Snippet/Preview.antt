-- ===== src/Search/Snippet/Preview.antt =====
-- What `SnippetRange` of internal/search/text.go shows of a text.
use traicr.Prelude.{
  ℕ, zero, suc, ◌+◌, ◌-◌, ◌*◌, ◌≤◌, ◌<◌, min, max, ◌≡◌, refl, ◌⊎◌, inl, inr, true, false, ◌&&◌,
  some, [], ◌∷◌, ◌++◌, arith, ltb, leb, if◌then◌else◌, ltb→lt, Bool-cases, Option-cases, length,
  drop, slice, length-append, length-take, length-drop, Text,
}
use traicr.Prelude.Utf8.{valid_utf8}
use traicr.Domain.{ℤ, pos, negsuc}
use traicr.Search.{cut, continuation_at}
use traicr.Search.Utf8.{valid_utf8-HasShortRunes}
use traicr.Search.Runes.{advance_lem, retreat_lem, HasShortRunes}
use traicr.Search.Snippet.{
  radius, word, mark, clamp, index_any, last_index_any, word_start, word_end, rune_from, marked,
  snippet_of, snippet_range,
}

index_any_bound : (text : Text) (i : ℕ) → index_any text ≡ some i → i < length text
unfolding index_any
index_any_bound [] i h = cc
index_any_bound (b ∷ text) i h = elim (Option-cases (index_any text)) [
  | inl e ↦ ground arith
  | inr (j, e) ↦ ground (arith, index_any_bound text j e)
]

last_index_any_bound : (text : Text) (i : ℕ) → last_index_any text ≡ some i → i < length text
unfolding last_index_any
last_index_any_bound [] i h = cc
last_index_any_bound (b ∷ text) i h = elim (Option-cases (last_index_any text)) [
  | inl e ↦ ground arith
  | inr (j, e) ↦ ground (arith, last_index_any_bound text j e)
]

length-slice : (a b : ℕ) (text : Text) → length (slice a b text) ≤ b - a
length-slice a b text = omega (arith, length-take (b - a) (drop a text))

clamp_bound : (i : ℤ) (n : ℕ) → clamp i n ≤ n
unfolding clamp
clamp_bound (pos i) n = omega arith
clamp_bound (negsuc i) n = omega arith

slice_whole : (a b : ℕ) (text : Text) → b ≤ length text → length (slice a b text) ≡ b - a
slice_whole a b text h = omega (arith, length-take (b - a) (drop a text), length-drop a text, h)

word_start_bound :
    (text : Text) (m s : ℕ)
    → (s ≤ word_start text m s)
      × (word_start text m s ≤ s + word)
      × ((0 < s) ⊎ (word_start text m s ≡ 0))
unfolding word_start
word_start_bound text m s = elim (Bool-cases (ltb 0 s)) [
  | inr f ↦ rw f (omega arith, omega arith, inr (ground arith))
  | inl t ↦ elim (Option-cases (index_any (slice s (min m (s + word)) text))) [
    | inl e ↦ rw t (rw e (omega arith, omega arith, inl (ltb→lt 0 s t)))
    | inr (i, e) ↦
        let near : i < min m (s + word) - s = omega (
          arith,
          index_any_bound (slice s (min m (s + word)) text) i e,
          length-slice s (min m (s + word)) text,
        ) in
        rw t (rw e (omega arith, omega (arith, near), inl (ltb→lt 0 s t)))
  ]
]

word_end_bound : (text : Text) (m e : ℕ) → (word_end text m e ≤ e) × (min m e ≤ word_end text m e)
unfolding word_end
word_end_bound text m e = elim (Bool-cases (ltb e (length text) && ltb m e)) [
  | inr f ↦ rw f (omega arith, omega arith)
  | inl t ↦ elim (Option-cases (last_index_any (slice (max m (e - word)) e text))) [
    | inl none_there ↦ rw t (rw none_there (omega arith, omega arith))
    | inr (i, found) ↦
        let near : i < e - max m (e - word) = omega (
          arith,
          last_index_any_bound (slice (max m (e - word)) e text) i found,
          length-slice (max m (e - word)) e text,
        ) in
        rw t (rw found (omega (arith, near), omega arith))
  ]
]

rune_from_lem :
    (text : Text) (s : ℕ)
    → HasShortRunes text
    → (s ≡ 0) ⊎ (s + 3 < length text)
    → (r : ℕ) × (rune_from text s ≡ some r)
      × (s ≤ r)
      × (r ≤ s + 3)
      × ((r ≡ 0) ⊎ (continuation_at text r ≡ false))
      × ((0 < s) ⊎ (r ≡ 0))
unfolding rune_from
rune_from_lem text zero short h = (0, refl, omega arith, omega arith, inl refl, inr refl)
rune_from_lem text (suc s) short (inl e) = absurd (omega (arith, e))
rune_from_lem text (suc s) short (inr h) =
    let (r, found, low, high, c) = advance_lem text (suc s) short h in
    (r, found, low, high, inr c, inl (omega arith))

length-marked :
    (text : Text) (a b : ℕ)
    → a ≤ b
    → b ≤ length text
    → length (marked text a b (slice a b text)) ≤ b - a + 6
unfolding marked
length-marked text a b h k =
    let whole = slice_whole a b text k in
    let right = λ (m : Text). length-append (slice a b text) m in
    elim (Bool-cases (ltb 0 a)) [
      | inl t ↦ elim (Bool-cases (ltb b (length text))) [
        | inl u ↦ rw t (rw u (omega (arith, whole, right mark)))
        | inr u ↦ rw t (rw u (omega (arith, whole, right [])))
      ]
      | inr t ↦ elim (Bool-cases (ltb b (length text))) [
        | inl u ↦ rw t (rw u (omega (arith, whole, right mark)))
        | inr u ↦ rw t (rw u (omega (arith, whole, right [])))
      ]
    ]

-- "…" in UTF-8
abbrev pub ellipsis : Text
ellipsis = 226 ∷ 128 ∷ 166 ∷ []

-- What is put before and after a part of the text.
record IsMarked (text : Text) (start end : ℕ) (snippet preview : Text) : Type 0 where
  before : Text
  after : Text
  shows : preview ≡ before ++ (snippet ++ after)
  cut_before : ((start ≡ 0) × (before ≡ [])) ⊎ ((0 < start) × (before ≡ ellipsis))
  cut_after : ((end ≡ length text) × (after ≡ [])) ⊎ ((end < length text) × (after ≡ ellipsis))

marked-IsMarked :
    (text : Text) (start end : ℕ) (snippet : Text)
    → end ≤ length text
    → IsMarked text start end snippet (marked text start end snippet)
unfolding marked
marked-IsMarked text start end snippet h = record {
  before = if ltb 0 start then mark else [];
  after = if ltb end (length text) then mark else [];
  shows = refl;
  cut_before = elim (Bool-cases (ltb 0 start)) [
    | inl t ↦ inr (ground arith, rw t refl)
    | inr f ↦ inl (ground arith, rw f refl)
  ];
  cut_after = elim (Bool-cases (ltb end (length text))) [
    | inl t ↦ inr (ground arith, rw t refl)
    | inr f ↦ inl (ground (arith, h), rw f refl)
  ];
}

-- A preview of the text between two bounds on rune boundaries, of at most 480 bytes.
pub record IsPreview (text preview : Text) : Type 0 where
  pub start : ℕ
  pub end : ℕ
  pub order : start ≤ end
  pub inside : end ≤ length text
  pub before : Text
  pub after : Text
  pub shows : preview ≡ before ++ (slice start end text ++ after)
  pub cut_before : ((start ≡ 0) × (before ≡ [])) ⊎ ((0 < start) × (before ≡ ellipsis))
  pub cut_after : ((end ≡ length text) × (after ≡ [])) ⊎ ((end < length text) × (after ≡ ellipsis))
  pub small : length preview ≤ 480
  pub starts_rune : (start ≡ 0) ⊎ (continuation_at text start ≡ false)
  pub ends_rune : continuation_at text end ≡ false

bounds_order :
    (a b n word_from word_to start end : ℕ)
    → a ≤ b
    → b ≤ n
    → word_from ≤ a - radius + word
    → start ≤ word_from + 3
    → (0 < a - radius) ⊎ (word_from ≡ 0)
    → (0 < word_from) ⊎ (start ≡ 0)
    → min b (min (min n (b + radius)) (a - radius + (480 - 2 * 3))) ≤ word_to
    → word_to ≤ end + 3
    → start ≤ end
bounds_order a b n word_from word_to start end h k high s_high (inl positive) s_zero e_low r_low =
    omega (arith, positive)
bounds_order a b n word_from word_to start end h k high s_high (inr z) (inl more) e_low r_low =
    omega (arith, z, more)
bounds_order a b n word_from word_to start end h k high s_high (inr z) (inr none_cut) e_low r_low =
    omega (arith, none_cut)

snippet_of-IsPreview :
    (text : Text) (a b : ℕ)
    → HasShortRunes text
    → a ≤ b
    → b ≤ length text
    → (s : Text) × (snippet_of text a b ≡ some s) × IsPreview text s
unfolding snippet_of cut
snippet_of-IsPreview text a b short h k =
    let first = a - radius in
    let last = min (min (length text) (b + radius)) (first + (480 - 2 * 3)) in
    let (low, high, zero_or) = word_start_bound text a first in
    let room : (word_start text a first ≡ 0) ⊎ (word_start text a first + 3 < length text) =
      elim zero_or [ inl positive ↦ inr (omega (arith, positive, high, h, k)) | inr z ↦ inl z ] in
    let (start, started, s_low, s_high, s_rune, s_zero) =
      rune_from_lem text (word_start text a first) short room in
    let (e_high, e_low) = word_end_bound text b last in
    let (end, ended, r_high, r_low, r_rune) =
      retreat_lem text (word_end text b last) short (omega (arith, e_high)) in
    let order : start ≤ end =
      bounds_order a b (length text) (word_start text a first) (word_end text b last) start end h k
        high s_high zero_or s_zero e_low r_low in
    let inside : end ≤ length text = omega (arith, r_high, e_high) in
    let fits : (leb start end && leb end (length text)) ≡ true = ground arith in
    let preview = marked text start end (slice start end text) in
    let shown = marked-IsMarked text start end (slice start end text) inside in
    (
      preview,
      rw started (rw ended (rw fits refl)),
      record {
        start = start;
        end = end;
        order = order;
        inside = inside;
        before = shown.before;
        after = shown.after;
        shows = shown.shows;
        cut_before = shown.cut_before;
        cut_after = shown.cut_after;
        small =
            omega (arith, length-marked text start end order inside, r_high, e_high, low, s_low);
        starts_rune = s_rune;
        ends_rune = r_rune;
      },
    )

-- For every valid text and whatever range a match has, the preview is made without a panic: it shows
-- a part of the text between rune boundaries, marked where the text goes on, in at most 480 bytes.
pub snippet_range-IsPreview :
    (text : Text) (match_start match_end : ℤ)
    → valid_utf8 text ≡ true
    → (s : Text) × (snippet_range text match_start match_end ≡ some s) × IsPreview text s
unfolding snippet_range
snippet_range-IsPreview text match_start match_end valid =
    let a = clamp match_start (length text) in
    let b = clamp match_end (length text) in
    snippet_of-IsPreview text a (max a b) (valid_utf8-HasShortRunes text valid) (omega arith)
      (omega (arith, clamp_bound match_start (length text), clamp_bound match_end (length text)))
