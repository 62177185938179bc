-- ===== src/Search/Utf8.antt =====
-- Valid UTF-8 has the short runs of continuation bytes that the search code relies on.
use traicr.Prelude.{
  ℕ, zero, suc, ◌-◌, ◌≤◌, ◌≡◌, refl, ◌⊎◌, inl, inr, true, false, some, [], ◌∷◌, arith, ltb,
  Bool-cases, Option-cases, Text,
}
use traicr.Prelude.Utf8.{lead, Lead, valid_from, valid_utf8}
use traicr.Search.{rune_start}
use traicr.Search.Runes.{short_runs, HasShortRunes}

lead-more :
    (b : ℕ) (l : Lead)
    → lead b ≡ some l
    → (l.more ≤ 3) × (0x80 ≤ l.lo) × (l.hi ≤ 0xbf) × (rune_start b ≡ true)
unfolding lead rune_start
lead-more b l h = ground arith

continuation_range : (b : ℕ) → 0x80 ≤ b → b ≤ 0xbf → rune_start b ≡ false
unfolding rune_start
continuation_range b h k = ground arith

short_runs_mono :
    (m n : ℕ) (text : Text) → m ≤ n → short_runs m text ≡ true → short_runs n text ≡ true
short_runs_mono m n [] h s = refl
short_runs_mono m n (b ∷ text) h s = elim (Bool-cases (rune_start b)) [
  | inl t ↦ ground arith
  | inr f ↦
      let left : m - 1 ≤ n - 1 = omega arith in
      ground (arith, short_runs_mono (m - 1) (n - 1) text left)
]

valid_from-short_runs :
    (n lo hi : ℕ) (text : Text)
    → 0x80 ≤ lo ⊎ (n ≡ 0)
    → hi ≤ 0xbf
    → valid_from n lo hi text ≡ true
    → short_runs n text ≡ true
unfolding valid_from
valid_from-short_runs zero lo hi [] a c h = refl
valid_from-short_runs (suc n) lo hi [] a c h = refl
valid_from-short_runs zero lo hi (b ∷ text) a c h = elim (Option-cases (lead b)) [
  | inl bad ↦ absurd (ground arith)
  | inr (l, e) ↦
      let (few, low, high, start) = lead-more b l e in
      let rest =
        valid_from-short_runs l.more l.lo l.hi text (inl low) high (rw (e, valid_from) at h) in
      rw start (short_runs_mono l.more 3 text few rest)
]
valid_from-short_runs (suc n) lo hi (b ∷ text) a c h =
    let in_range : (0x80 ≤ b) × (b ≤ 0xbf) = (ground arith, ground arith) in
    let f = continuation_range b in_range.0 in_range.1 in
    let rest =
      valid_from-short_runs n 0x80 0xbf text (inl (omega arith)) (omega arith) (ground arith) in
    let e : suc n - 1 ≡ n = omega arith in
    let p : ltb 0 (suc n) ≡ true = ground arith in rw (f, p, e) rest

-- In valid UTF-8 a rune starts at the first byte and within any four bytes.
pub valid_utf8-HasShortRunes : (text : Text) → valid_utf8 text ≡ true → HasShortRunes text
valid_utf8-HasShortRunes text h = valid_from-short_runs 0 0 0 text (inr refl) (omega arith) h
