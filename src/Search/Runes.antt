-- ===== src/Search/Runes.antt =====
-- Where runes start in a text whose runs of continuation bytes are short, as in every valid UTF-8.
use traicr.Prelude.{
  ℕ, zero, suc, ◌+◌, ◌-◌, ◌≤◌, ◌<◌, Bool, true, false, ◌≡◌, refl, ◌⊎◌, inl, inr, some, [], ◌∷◌,
  ◌&&◌, ltb, if◌then◌else◌, length, length-drop, drop, Text, arith, Bool-cases, ltb→lt, ap,
}
use native.Mathlib.Nat.{zero-add}
use traicr.Search.{rune_start, continuation_at, retreat, advance_from, advance}

-- `left` continuation bytes may follow here, and three after each first byte of a rune.
abbrev pub short_runs : ℕ → Text → Bool
short_runs left [] = true
short_runs left (b ∷ text) =
    let fresh = short_runs 3 text in
    let again = short_runs (left - 1) text in if rune_start b then fresh else ltb 0 left && again

-- What valid UTF-8 gives: the text begins with a rune, and no rune is longer than four bytes.
abbrev pub HasShortRunes : Text → Type 0
HasShortRunes text = short_runs 0 text ≡ true

-- A rune starts at most three bytes before `i`, or `i` lies in the first run.
abbrev Near : Text → ℕ → Type 0
Near text i = (k : ℕ) × (k ≤ 3) × (k ≤ i) × (continuation_at text (i - k) ≡ false)

Near-suc : (b : ℕ) (text : Text) (i : ℕ) → Near text i → Near (b ∷ text) (suc i)
unfolding continuation_at
Near-suc b text i (k, h, l, c) =
    let e : suc i - k ≡ suc (i - k) = omega arith in (k, h, omega arith, rw e c)

Near-head : (b : ℕ) (text : Text) (i : ℕ) → i ≤ 3 → rune_start b ≡ true → Near (b ∷ text) i
unfolding continuation_at
Near-head b text i h s = let e : i - i ≡ 0 = omega arith in (i, h, omega arith, rw e (ground arith))

short_runs-Near :
    (left : ℕ) (text : Text) (i : ℕ)
    → left ≤ 3
    → short_runs left text ≡ true
    → i < length text
    → Near text i ⊎ (i < left)
short_runs-Near left [] i l s h = absurd (omega arith)
short_runs-Near left (b ∷ text) zero l s h = elim (Bool-cases (rune_start b)) [
  | inl e ↦ inl (Near-head b text 0 (omega arith) e)
  | inr e ↦ inr (ground arith)
]
short_runs-Near left (b ∷ text) (suc i) l s h = elim (Bool-cases (rune_start b)) [
  | inl e ↦ elim (short_runs-Near 3 text i (omega arith) (ground arith) (omega arith)) [
    | inl n ↦ inl (Near-suc b text i n)
    | inr n ↦ inl (Near-head b text (suc i) (omega arith) e)
  ]
  | inr e ↦ elim (short_runs-Near (left - 1) text i (omega arith) (ground arith) (omega arith)) [
    | inl n ↦ inl (Near-suc b text i n)
    | inr n ↦ inr (omega arith)
  ]
]

rune-Near : (text : Text) (i : ℕ) → HasShortRunes text → i < length text → Near text i
rune-Near text i s h = elim (short_runs-Near 0 text i (omega arith) s h) [
  | inl n ↦ n
  | inr n ↦ absurd (omega arith)
]

continuation_at_end : (text : Text) (i : ℕ) → length text ≤ i → continuation_at text i ≡ false
unfolding continuation_at
continuation_at_end [] i h = refl
continuation_at_end (b ∷ text) zero h = absurd (omega arith)
continuation_at_end (b ∷ text) (suc i) h = continuation_at_end text i (omega arith)

retreat_within :
    (text : Text) (e k : ℕ)
    → k ≤ e
    → continuation_at text (e - k) ≡ false
    → (r : ℕ) × (retreat text e ≡ some r) × (r ≤ e) × (e ≤ r + k) × (continuation_at text r ≡ false)
unfolding retreat
retreat_within text zero k h c = (0, ground arith, omega arith, omega arith, ground arith)
retreat_within text (suc e) zero h c =
    let q : suc e - 0 ≡ suc e = omega arith in
    let d : continuation_at text (suc e) ≡ false = rw q at c in
    (suc e, rw d, omega arith, omega arith, d)
retreat_within text (suc e) (suc k) h c = elim (Bool-cases (continuation_at text (suc e))) [
  | inl t ↦
      let q : suc e - suc k ≡ e - k = omega arith in
      let (r, p, a, b, d) = retreat_within text e k (omega arith) (rw q at c) in
      (r, rw t p, omega arith, omega arith, d)
  | inr f ↦ (suc e, rw f, omega arith, omega arith, f)
]

-- Going back from any place in the text stops at a rune's start, at most three bytes before it.
pub retreat_lem :
    (text : Text) (e : ℕ)
    → HasShortRunes text
    → e ≤ length text
    → (r : ℕ) × (retreat text e ≡ some r) × (r ≤ e) × (e ≤ r + 3) × (continuation_at text r ≡ false)
retreat_lem text e s h = elim (Bool-cases (ltb e (length text))) [
  | inl inside ↦
      let (k, small, below, c) = rune-Near text e s (ltb→lt _ _ inside) in
      let (r, p, a, b, d) = retreat_within text e k below c in (r, p, a, omega arith, d)
  | inr past ↦
      let q : e - 0 ≡ e = omega arith in
      let beyond : length text ≤ e = ground arith in
      let (r, p, a, b, d) =
        retreat_within text e 0 (omega arith) (rw q (continuation_at_end text e beyond)) in
      (r, p, a, omega arith, d)
]

advance_from_within :
    (text : Text) (i k : ℕ)
    → k < length text
    → continuation_at text k ≡ false
    → (r : ℕ) × (advance_from text i ≡ some (i + r)) × (r ≤ k) × (continuation_at text r ≡ false)
unfolding advance_from continuation_at
advance_from_within [] i k h c = absurd (omega arith)
advance_from_within (b ∷ text) i zero h c = (0, ground arith, omega arith, c)
advance_from_within (b ∷ text) i (suc k) h c = elim (Bool-cases (rune_start b)) [
  | inl t ↦ (0, ground arith, omega arith, ground arith)
  | inr f ↦
      let (r, p, a, d) = advance_from_within text (i + 1) k (omega arith) c in
      (suc r, rw (f, p) (ap some (omega arith)), omega arith, d)
]

continuation_at-drop :
    (text : Text) (s r : ℕ) → continuation_at (drop s text) r ≡ continuation_at text (s + r)
unfolding continuation_at
continuation_at-drop text zero r = rw zero-add
continuation_at-drop [] (suc s) r = refl
continuation_at-drop (b ∷ text) (suc s) r =
    let e : suc s + r ≡ suc (s + r) = omega arith in rw e (continuation_at-drop text s r)

-- Going forward stops at a rune's start, at most three bytes on.
pub advance_lem :
    (text : Text) (s : ℕ)
    → HasShortRunes text
    → s + 3 < length text
    → (r : ℕ) × (advance text s ≡ some r) × (s ≤ r) × (r ≤ s + 3) × (continuation_at text r ≡ false)
advance_lem text s short h =
    let (k, small, below, c) = rune-Near text (s + 3) short h in
    let q : s + 3 - k ≡ s + (3 - k) = omega arith in
    let c' : continuation_at (drop s text) (3 - k) ≡ false = rw continuation_at-drop (rw (← q) c) in
    let (r, p, a, d) =
      advance_from_within (drop s text) s (3 - k) (omega (arith, length-drop s text)) c' in
    (s + r, p, omega arith, omega arith, rw (← continuation_at-drop text s r) d)

-- At the end of the text there is nothing to go back over.
pub retreat_end : (text : Text) (i : ℕ) → length text ≤ i → retreat text i ≡ some i
unfolding retreat
retreat_end text zero h = rw (continuation_at_end text 0 h)
retreat_end text (suc i) h = rw (continuation_at_end text (suc i) h)
