-- ===== src/Archive/Directory/Laws.antt =====
-- What `checkDirectorySize` accepts: a chain of well-formed headers that fills the directory
-- exactly, as many as the end record says and no more than the limit.
use traicr.Prelude.{
  ℕ, zero, suc, ◌+◌, ◌-◌, ◌^◌, ◌≤◌, ◌<◌, min, ◌≡◌, ◌∙◌, ◌≢◌, ◌↔◌, inl, inr, Bool, true, false, not,
  ◌||◌, some, arith, ltb, leb, ◌==◌, ltb→lt, Bool-cases, Option-cases, slice, Text, text_eq, ok,
  err, Result-cases, bind-eq-ok, refuse_if, refuse_if-eq-ok,
}
use native.Mathlib.Nat.{add-zero}
use mathlib.Core.Path.{subst, subst₂}
use traicr.Archive.Error.{out_of_fuel}
use traicr.Archive.Directory.{
  Reader, Advertised, signature, or_read_failed, next_offset, walk, check_entries, u64, scan,
  is_end_record, check_directory_size, advertised,
}

-- From `at`, `n` headers lead to `final`, the first place not before `stop`.
pub data Headers (read : Reader) (stop : ℕ) : ℕ → ℕ → ℕ → Type 0 where
  finish : {at : ℕ} → stop ≤ at → Headers read stop at 0 at
  entry :
      {at n final : ℕ} (header : Text)
      → at + 46 ≤ stop
      → read at 46 ≡ some header
      → text_eq (slice 0 4 header) (signature 1 2) ≡ true
      → Headers read stop (next_offset at header) n final
      → Headers read stop at (suc n) final

module _ (read : Reader) (done : ℕ → Bool) (limit : ℕ) where
  -- A round that read a header, and what was true for it to be read.
  walk-step :
      (fuel stop at actual : ℕ) {r : ℕ × ℕ}
      → at < stop
      → walk read done limit (suc fuel) stop at actual ≡ ok r
      → (header : Text) × (at + 46 ≤ stop)
        × (actual < limit)
        × (read at 46 ≡ some header)
        × (text_eq (slice 0 4 header) (signature 1 2) ≡ true)
        × (walk read done limit fuel stop (next_offset at header) (actual + 1) ≡ ok r)
  unfolding walk
  walk-step fuel stop at actual h e = elim (Option-cases (read at 46)) [
    | inl failed ↦ absurd (ground arith)
    | inr (header, found) ↦ (header, ground arith, ground arith, found, ground arith, ground arith)
  ]

  walk-Headers :
      (fuel stop at actual final total : ℕ)
      → walk read done limit fuel stop at actual ≡ ok (final, total)
      → (n : ℕ) × (total ≡ actual + n) × Headers read stop at n final
  walk-Headers zero stop at actual final total e = absurd (unfold walk in ground arith)
  walk-Headers (suc fuel) stop at actual final total e = elim (Bool-cases (ltb at stop)) [
    | inr past ↦ (
      0,
      unfold walk in ground arith,
      unfold walk in
          (subst (Headers read stop at 0) (ground arith) (finish {at = at} (ground arith))),
    )
    | inl inside ↦
        let (header, room, below, found, sig, rest) =
          walk-step fuel stop at actual (ltb→lt _ _ inside) e in
        let (n, q, hs) =
          walk-Headers fuel stop (next_offset at header) (actual + 1) final total rest in
        (suc n, omega arith, entry header room found sig hs)
  ]

  Headers-walk :
      (fuel stop : ℕ) {at n final : ℕ} (actual : ℕ)
      → ((k : ℕ) → done k ≡ false)
      → Headers read stop at n final
      → n < fuel
      → actual + n ≤ limit
      → walk read done limit fuel stop at actual ≡ ok (final, actual + n)
  unfolding walk
  Headers-walk zero stop actual live hs f l = absurd (omega arith)
  Headers-walk (suc fuel) stop {at = at} actual live (finish h) f l =
      let past : ltb at stop ≡ false = ground arith in rw (past, add-zero)
  Headers-walk (suc fuel) stop {at = at} actual live (entry {n = n} header room found sig hs) f l =
      let inside : ltb at stop ≡ true = ground arith in
      let below : leb limit actual ≡ false = ground arith in
      let fits : ltb (stop - at) 46 ≡ false = ground arith in
      let rest = Headers-walk fuel stop (actual + 1) live hs (omega arith) (omega arith) in
      let e : actual + 1 + n ≡ actual + suc n = omega arith in
      rw (inside, live, below, fits, found, sig) (rest ∙ rw e)

  -- One round for each header that may be counted, and one to stop.
  walk_fuel :
      (fuel stop at actual : ℕ)
      → limit < fuel + actual
      → actual ≤ limit
      → walk read done limit fuel stop at actual ≢ err out_of_fuel
  unfolding walk
  walk_fuel zero stop at actual f l e = absurd (omega arith)
  walk_fuel (suc fuel) stop at actual f l e = elim (Option-cases (read at 46)) [
    | inl failed ↦ ground arith
    | inr (header, found) ↦ ground (arith, walk_fuel fuel stop (next_offset at header) (actual + 1))
  ]

  -- What the end record advertises, as it is accepted for a file of `size` bytes.
  pub record IsDirectory (size : ℕ) (a : Advertised) : Type 0 where
    pub within_limit : a.count ≤ limit
    pub in_file : a.directory_offset + a.directory_size ≤ size
    pub headers :
        Headers read
          (a.directory_offset + a.directory_size)
          a.directory_offset
          a.count
          (a.directory_offset + a.directory_size)

  u64_small : (n size : ℕ) → n ≤ size → size < 2 ^ 63 → u64 n ≡ n
  u64_small n size h k = omega arith

  check_entries-IsDirectory :
      (size : ℕ) (a : Advertised)
      → size < 2 ^ 63
      → check_entries read done limit size a ≡ ok tt
      → IsDirectory size a
  unfolding check_entries
  check_entries-IsDirectory size a small e =
      let (u, c, e1) = bind-eq-ok (refuse_if (ltb limit a.count) _) _ e in
      let (v, b, e2) =
        bind-eq-ok
          (refuse_if
            (ltb size a.directory_offset || ltb (size - a.directory_offset) a.directory_size) _)
          _ e1 in
      let ((at, actual), w, e3) =
        bind-eq-ok
          (walk read done limit (suc limit) (u64 (a.directory_offset + a.directory_size))
            a.directory_offset 0)
          _ e2 in
      let count_ok = refuse_if-eq-ok _ _ c in
      let bounds_ok = refuse_if-eq-ok _ _ b in
      let end_ok =
        refuse_if-eq-ok
          (not (actual == a.count) || not (at == u64 (a.directory_offset + a.directory_size))) _
          e3 in
      let fits : a.directory_offset + a.directory_size ≤ size = ground arith in
      let (n, q, hs) =
        walk-Headers (suc limit) (u64 (a.directory_offset + a.directory_size)) a.directory_offset 0
          at actual w in
      let same : at ≡ u64 (a.directory_offset + a.directory_size) = ground arith in
      let total : n ≡ a.count = ground arith in
      record {
        within_limit = ground arith;
        in_file = fits;
        headers =
            subst (λ s. Headers read s a.directory_offset a.count s) (u64_small _ size fits small)
              (subst₂
                (λ m f.
                  Headers read (u64 (a.directory_offset + a.directory_size)) a.directory_offset m f)
                total same hs);
      }

  IsDirectory-check_entries :
      (size : ℕ) (a : Advertised)
      → size < 2 ^ 63
      → ((k : ℕ) → done k ≡ false)
      → IsDirectory size a
      → check_entries read done limit size a ≡ ok tt
  unfolding check_entries
  IsDirectory-check_entries size a small live d =
      let stop = a.directory_offset + a.directory_size in
      let c : ltb limit a.count ≡ false = ground (arith, d.within_limit) in
      let b : (ltb size a.directory_offset || ltb (size - a.directory_offset) a.directory_size)
          ≡ false =
        ground (arith, d.in_file) in
      let w = Headers-walk (suc limit) stop 0 live d.headers (omega arith) (omega arith) in
      let z : 0 + a.count ≡ a.count = omega arith in
      rw (c, b, u64_small stop size d.in_file small, w) (ground arith)

  check_entries_fuel :
      (size : ℕ) (a : Advertised) → check_entries read done limit size a ≢ err out_of_fuel
  unfolding check_entries
  check_entries_fuel size a = ground (
    arith,
    walk_fuel (suc limit) (u64 (a.directory_offset + a.directory_size)) a.directory_offset 0,
  )

  -- The last end record of the tail, from place `from` down, and what it advertises.
  pub record IsAccepted (size base : ℕ) (tail : Text) (rounds : ℕ) : Type 0 where
    pub end : ℕ
    pub directory : Advertised
    pub in_tail : end < rounds
    pub is_record : is_end_record tail end ≡ true
    pub is_last : (j : ℕ) → end < j → j < rounds → is_end_record tail j ≡ false
    pub says : advertised read size tail base end ≡ ok directory
    pub fits : IsDirectory size directory

  IsAccepted-suc :
      {size base rounds : ℕ} {tail : Text}
      → is_end_record tail rounds ≡ false
      → IsAccepted size base tail rounds
      → IsAccepted size base tail (suc rounds)
  IsAccepted-suc {rounds = rounds} {tail = tail} skipped a = record {
    end = a.end;
    directory = a.directory;
    in_tail = omega (arith, a.in_tail);
    is_record = a.is_record;
    is_last = λ j after before. elim (Bool-cases (ltb j rounds)) [
      | inl t ↦ a.is_last j after (ltb→lt _ _ t)
      | inr f ↦ let e : j ≡ rounds = ground arith in rw e skipped
    ];
    says = a.says;
    fits = a.fits;
  }

  scan-IsAccepted :
      (rounds : ℕ) (tail : Text) (base size : ℕ)
      → size < 2 ^ 63
      → scan read done limit rounds tail base size ≡ ok tt
      → IsAccepted size base tail rounds
  unfolding scan
  scan-IsAccepted zero tail base size small e = absurd (ground arith)
  scan-IsAccepted (suc end) tail base size small e = elim (Bool-cases (is_end_record tail end)) [
    | inr skip ↦ IsAccepted-suc skip (scan-IsAccepted end tail base size small (ground arith))
    | inl found ↦
        let (a, says, checked) =
          bind-eq-ok (advertised read size tail base end) (check_entries read done limit size)
            (rw found at e) in
        record {
          end = end;
          directory = a;
          in_tail = omega arith;
          is_record = found;
          is_last = λ j after before. absurd (omega arith);
          says = says;
          fits = check_entries-IsDirectory size a small checked;
        }
  ]

  advertised_fuel :
      (size base end : ℕ) (tail : Text) → advertised read size tail base end ≢ err out_of_fuel
  unfolding advertised
  advertised_fuel size base end tail = ground arith

  scan_fuel :
      (rounds : ℕ) (tail : Text) (base size : ℕ)
      → scan read done limit rounds tail base size ≢ err out_of_fuel
  unfolding scan
  scan_fuel zero tail base size = ground arith
  scan_fuel (suc end) tail base size = elim (Result-cases (advertised read size tail base end)) [
    | inl (a, says) ↦ ground (arith, check_entries_fuel size a, scan_fuel end tail base size)
    | inr (e, fails) ↦
        ground (arith, advertised_fuel size base end tail, scan_fuel end tail base size)
  ]

  -- For every file and every reader, the walk ends: the rounds allowed are never used up.
  pub check_directory_size_fuel :
      (size : ℕ) → check_directory_size read done limit size ≢ err out_of_fuel
  unfolding check_directory_size
  check_directory_size_fuel size =
      elim (Option-cases (read (size - min size 65557) (min size 65557))) [
        | inl failed ↦ ground arith
        | inr (tail, got) ↦
            ground (arith, scan_fuel (min size 65557 - 21) tail (size - min size 65557) size)
      ]

  -- A file that passes has an end record; the last one in the file's tail advertises a directory
  -- that lies in the file, holds at most `limit` entries, and is filled exactly by that many
  -- well-formed headers.
  pub check_directory_size-IsAccepted :
      (size : ℕ)
      → size < 2 ^ 63
      → check_directory_size read done limit size ≡ ok tt
      → (tail : Text) × (read (size - min size 65557) (min size 65557) ≡ some tail)
        × IsAccepted size (size - min size 65557) tail (min size 65557 - 21)
  unfolding check_directory_size
  check_directory_size-IsAccepted size small e =
      let (tail, got, scanned) =
        bind-eq-ok (or_read_failed (read (size - min size 65557) (min size 65557))) _ e in
      (tail, ground arith, scan-IsAccepted _ tail _ size small scanned)

  -- For a file below 2^63 bytes and a context that does not end, the advertised numbers pass
  -- exactly when they are within the limit and the file, and headers fill the directory exactly.
  pub check_entries_iff :
      (size : ℕ) (a : Advertised)
      → size < 2 ^ 63
      → ((k : ℕ) → done k ≡ false)
      → (check_entries read done limit size a ≡ ok tt) ↔ IsDirectory size a
  check_entries_iff size a small live =
      (check_entries-IsDirectory size a small, IsDirectory-check_entries size a small live)
