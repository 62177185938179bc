-- ===== src/Archive/Validate/Index.antt =====
-- What the loop over the entries of the ZIP lets through.
use mathlib.Core.Path.{subst}
use traicr.Prelude.{
  sym, ℕ, ◌+◌, ◌%◌, ◌^◌, ◌≤◌, ◌<◌, ◌≡◌, refl, inl, inr, true, false, not, ◌||◌, List, [], ◌∷◌,
  arith, ltb, Option-cases, length, Member, here, there, All, Text, ok, ok-injective, bind-eq-ok,
  refuse_if, refuse_if-eq-ok,
}
use traicr.Prelude.Keys.{contains, lookup, lookup-contains, keys, Distinct, more}
use traicr.Archive.Paths.{safe_path}
use traicr.Archive.Validate.{Limits, ZipFile, Files, has_entry, index_files, u64_sub}

pub record IsEntry (limits : Limits) (e : Text × ZipFile) : Type 0 where
  pub named : e.1.name ≡ e.0
  pub safe : safe_path e.0 limits.depth ≡ true
  pub regular : e.1.regular ≡ true
  pub small : e.1.uncompressed_size ≤ limits.file_bytes

abbrev pub total : Files → ℕ
total [] = 0
total ((n, f) ∷ m) = f.uncompressed_size + total m

pub record IsIndex (limits : Limits) (files : Files) : Type 0 where
  pub distinct : Distinct (keys files)
  pub entries : All (IsEntry limits) files
  pub expanded : total files ≤ limits.expanded_bytes

IsIndex-cons :
    (limits : Limits) (files : Files) (file : ZipFile)
    → IsIndex limits files
    → contains file.name (keys files) ≡ false
    → IsEntry limits (file.name, file)
    → file.uncompressed_size + total files ≤ limits.expanded_bytes
    → IsIndex limits ((file.name, file) ∷ files)
IsIndex-cons limits files file i fresh e fits = record {
  distinct = more fresh i.distinct;
  entries = (e, i.entries);
  expanded = fits;
}

absent :
    (file : ZipFile) (files : Files)
    → has_entry files file.name ≡ false
    → contains file.name (keys files) ≡ false
unfolding has_entry
absent file files h = elim (Option-cases (lookup file.name files)) [
  | inl e ↦ lookup-contains file.name files e
  | inr (f, e) ↦ absurd (ground arith)
]

pub index_files-IsIndex :
    (limits : Limits) (files : Files) (rest : List ZipFile) {m : Files}
    → limits.expanded_bytes < 2 ^ 63
    → IsIndex limits files
    → index_files limits files (total files) rest ≡ ok m
    → IsIndex limits m × (length m ≡ length files + length rest)
unfolding index_files
index_files-IsIndex limits files [] small i e = (ground arith, ground arith)
index_files-IsIndex limits files (file ∷ rest) {m} small i e =
    let (u, c, e1) =
      bind-eq-ok (refuse_if (not (safe_path file.name limits.depth) || not file.regular) _) _ e in
    let (v, d, e2) = bind-eq-ok (refuse_if (has_entry files file.name) _) _ e1 in
    let (w, g, e3) =
      bind-eq-ok
        (refuse_if
          (ltb limits.file_bytes file.uncompressed_size
            || ltb (u64_sub limits.expanded_bytes (total files)) file.uncompressed_size)
          _)
        _ e2 in
    let path_ok = refuse_if-eq-ok _ _ c in
    let fresh = absent file files (refuse_if-eq-ok _ _ d) in
    let size_ok = refuse_if-eq-ok _ _ g in
    let fits : file.uncompressed_size + total files ≤ limits.expanded_bytes =
      ground (arith, i.expanded) in
    let entry : IsEntry limits (file.name, file) = record {
      named = refl;
      safe = ground arith;
      regular = ground arith;
      small = ground arith;
    } in
    let sum : (total files + file.uncompressed_size) % 2 ^ 64
        ≡ file.uncompressed_size + total files =
      omega arith in
    let (j, n) =
      index_files-IsIndex limits ((file.name, file) ∷ files) rest small
        (IsIndex-cons limits files file i fresh entry fits) (rw sum at e3) in
    (j, omega arith)

-- One round of the loop leads to the next.
index_files-step :
    (limits : Limits) (files : Files) (expanded : ℕ) (file : ZipFile) (rest : List ZipFile)
    {m : Files}
    → index_files limits files expanded (file ∷ rest) ≡ ok m
    → (sum : ℕ) × (index_files limits ((file.name, file) ∷ files) sum rest ≡ ok m)
unfolding index_files
index_files-step limits files expanded file rest e =
    let (u, c, e1) =
      bind-eq-ok (refuse_if (not (safe_path file.name limits.depth) || not file.regular) _) _ e in
    let (v, d, e2) = bind-eq-ok (refuse_if (has_entry files file.name) _) _ e1 in
    let (w, g, e3) =
      bind-eq-ok
        (refuse_if
          (ltb limits.file_bytes file.uncompressed_size
            || ltb (u64_sub limits.expanded_bytes expanded) file.uncompressed_size)
          _)
        _ e2 in
    (_, e3)

index_files_keeps :
    (limits : Limits) (p : Text × ZipFile) (files : Files) (expanded : ℕ) (rest : List ZipFile)
    {m : Files}
    → Member p files
    → index_files limits files expanded rest ≡ ok m
    → Member p m
index_files_keeps limits p files expanded [] {m} h e =
    let same : files ≡ m = unfold index_files in ok-injective e in subst (Member p) same h
index_files_keeps limits p files expanded (file ∷ rest) h e =
    let (sum, e') = index_files-step limits files expanded file rest e in
    index_files_keeps limits p ((file.name, file) ∷ files) sum rest (there h) e'

-- The map after the loop: each entry under its name, the last first.
abbrev pub by_name : Files → List ZipFile → Files
by_name files [] = files
by_name files (file ∷ rest) = by_name ((file.name, file) ∷ files) rest

pub index_files-by_name :
    (limits : Limits) (files : Files) (expanded : ℕ) (rest : List ZipFile) {m : Files}
    → index_files limits files expanded rest ≡ ok m
    → m ≡ by_name files rest
index_files-by_name limits files expanded [] e = unfold index_files in sym (ok-injective e)
index_files-by_name limits files expanded (file ∷ rest) e =
    let (sum, e') = index_files-step limits files expanded file rest e in
    index_files-by_name limits ((file.name, file) ∷ files) sum rest e'

-- Every entry of the ZIP stands in the map under its name.
pub index_files-Member :
    (limits : Limits) (files : Files) (expanded : ℕ) (rest : List ZipFile) {m : Files}
    → index_files limits files expanded rest ≡ ok m
    → All (λ f. Member (f.name, f) m) rest
index_files-Member limits files expanded [] e = tt
index_files-Member limits files expanded (file ∷ rest) e =
    let (sum, e') = index_files-step limits files expanded file rest e in
    (
      index_files_keeps limits (file.name, file) ((file.name, file) ∷ files) sum rest (here refl)
          e',
      index_files-Member limits ((file.name, file) ∷ files) sum rest e',
    )
