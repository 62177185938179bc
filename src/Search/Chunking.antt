-- ===== src/Search/Chunking.antt =====
-- What `Chunks` returns: pieces on rune boundaries, within the size limit, that overlap.
use traicr.Search.Utf8.{valid_utf8-HasShortRunes}
use traicr.Prelude.Utf8.{valid_utf8}
use traicr.Prelude.{
  ℕ, zero, suc, ◌+◌, ◌-◌, ◌≤◌, ◌<◌, min, ◌≡◌, refl, ◌≢◌, inl, inr, true, false, some, List, [], ◌∷◌,
  arith, ltb, leb, ◌==◌, ltb→lt, Bool-cases, length, slice, Member, here, there, Text,
}
use traicr.Search.Runes.{advance_lem, retreat_lem, retreat_end, HasShortRunes}
use traicr.Search.{
  chunks, chunk_bytes, chunk_overlap, continuation_at, retreat, advance, cut, chunks_loop,
}

-- The pieces of `text` from `start` on, as their bounds in the text.
pub data Cuts (text : Text) : ℕ → List Text → Type 0 where
  last :
      {start : ℕ}
      → start < length text
      → length text ≤ start + chunk_bytes
      → Cuts text start (slice start (length text) text ∷ [])
  more :
      {start end next : ℕ} {rest : List Text}
      → start < next
      → next < end
      → end < length text
      → end ≤ start + chunk_bytes
      → end ≤ next + chunk_overlap
      → next + 1021 ≤ end
      → continuation_at text end ≡ false
      → continuation_at text next ≡ false
      → Cuts text next rest
      → Cuts text start (slice start end text ∷ rest)

cut_lem : (text : Text) (s e : ℕ) → s ≤ e → e ≤ length text → cut text s e ≡ some (slice s e text)
unfolding cut
cut_lem text s e h k = ground arith

-- One round that is not the last.
round_more :
    (fuel : ℕ) (text : Text) (start end next : ℕ) (rest : List Text)
    → start + chunk_bytes < length text
    → retreat text (start + chunk_bytes) ≡ some end
    → start + chunk_overlap ≤ end
    → end < length text
    → advance text (end - chunk_overlap) ≡ some next
    → chunks_loop fuel text next ≡ some rest
    → chunks_loop (suc fuel) text start ≡ some (slice start end text ∷ rest)
unfolding chunks_loop
round_more fuel text start end next rest inside r over e a l =
    let m : min (start + chunk_bytes) (length text) ≡ start + chunk_bytes = omega arith in
    let o : end - min chunk_overlap (end - start) ≡ end - chunk_overlap = omega arith in
    let t : ltb start (length text) ≡ true = ground arith in
    let d : (end == length text) ≡ false = ground arith in
    rw (t, m, r) (rw (cut_lem text start end (omega arith) (omega arith)) (rw (d, o, a) (rw l)))

round_last :
    (fuel : ℕ) (text : Text) (start : ℕ)
    → start < length text
    → length text ≤ start + chunk_bytes
    → retreat text (length text) ≡ some (length text)
    → chunks_loop (suc fuel) text start ≡ some (slice start (length text) text ∷ [])
unfolding chunks_loop
round_last fuel text start h k r =
    let m : min (start + chunk_bytes) (length text) ≡ length text = omega arith in
    let t : ltb start (length text) ≡ true = ground arith in
    let d : (length text == length text) ≡ true = ground arith in
    rw (t, m, r) (rw (cut_lem text start (length text) (omega arith) (omega arith)) (rw d))

chunks_loop-Cuts :
    (fuel : ℕ) (text : Text) (start : ℕ)
    → HasShortRunes text
    → start < length text
    → length text < fuel + start
    → (cs : List Text) × (chunks_loop fuel text start ≡ some cs) × Cuts text start cs
chunks_loop-Cuts zero text start short h f = absurd (omega arith)
chunks_loop-Cuts (suc fuel) text start short h f =
    elim (Bool-cases (ltb (start + chunk_bytes) (length text))) [
      | inr short_text ↦
          let k : length text ≤ start + chunk_bytes = ground arith in
          (
            _,
            round_last fuel text start h k (retreat_end text (length text) (omega arith)),
            last h k,
          )
      | inl more_text ↦
          let inside : start + chunk_bytes < length text = ltb→lt _ _ more_text in
          let (end, r, a, b, c) = retreat_lem text (start + chunk_bytes) short (omega arith) in
          let (next, p, d, e, g) = advance_lem text (end - chunk_overlap) short (omega arith) in
          let (rest, l, cuts) = chunks_loop-Cuts fuel text next short (omega arith) (omega arith) in
          (
            slice start end text ∷ rest,
            round_more fuel text start end next rest inside r (omega arith) (omega arith) p l,
            more (omega arith) (omega arith) (omega arith) a (omega arith) (omega arith) c g cuts,
          )
    ]

-- A text that is valid UTF-8 and not empty is cut from its start to its end: the loop ends with
-- no panic, every piece has at most `chunkBytes` bytes, all cuts lie on rune boundaries, each
-- piece starts after the one before it and shares with it between 1021 and `ChunkOverlap` bytes.
pub chunks-Cuts :
    (text : Text)
    → valid_utf8 text ≡ true
    → text ≢ []
    → (cs : List Text) × (chunks text ≡ some cs) × Cuts text 0 cs
unfolding chunks
chunks-Cuts [] valid ne = absurd (ne refl)
chunks-Cuts (b ∷ text) valid ne =
    chunks_loop-Cuts (suc (length (b ∷ text))) (b ∷ text) 0
      (valid_utf8-HasShortRunes (b ∷ text) valid) (omega arith) (omega arith)

-- The piece that holds `text[a:b]` whole.
pub record Holds (text : Text) (a b : ℕ) (cs : List Text) : Type 0 where
  pub start : ℕ
  pub end : ℕ
  pub from : start ≤ a
  pub to : b ≤ end
  pub inside : end ≤ length text
  pub piece : Member (slice start end text) cs

Holds-there :
    {text : Text} {a b : ℕ} {c : Text} {cs : List Text}
    → Holds text a b cs
    → Holds text a b (c ∷ cs)
Holds-there h = record {
  start = h.start;
  end = h.end;
  from = h.from;
  to = h.to;
  inside = h.inside;
  piece = there h.piece;
}

Cuts-Holds :
    {text : Text} (a b : ℕ) {s : ℕ} {cs : List Text}
    → Cuts text s cs
    → s ≤ a
    → b ≤ a + 1020
    → b ≤ length text
    → Holds text a b cs
Cuts-Holds {text} a b {s = s} (last h k) from span to = record {
  start = s;
  end = length text;
  from = from;
  to = to;
  inside = omega arith;
  piece = here refl;
}
Cuts-Holds {text} a b {s = s} (more {end = end} h1 h2 h3 h4 h5 h6 c d cuts) from span to =
    elim (Bool-cases (leb b end)) [
      | inl fits ↦ record {
        start = s;
        end = end;
        from = from;
        to = ground arith;
        inside = omega arith;
        piece = here refl;
      }
      | inr long ↦
          let past : end < b = ground arith in
          Holds-there (Cuts-Holds a b cuts (omega arith) span to)
    ]

-- Any span of at most 1020 bytes (`ChunkOverlap-utf8.UTFMax`) of a valid text that is not empty
-- lies whole inside one chunk.
pub chunks-Holds :
    (text : Text) (a b : ℕ)
    → valid_utf8 text ≡ true
    → text ≢ []
    → b ≤ a + 1020
    → b ≤ length text
    → (cs : List Text) × (chunks text ≡ some cs) × Holds text a b cs
chunks-Holds text a b valid ne span to =
    let (cs, p, cuts) = chunks-Cuts text valid ne in
    (cs, p, Cuts-Holds a b cuts (omega arith) span to)
