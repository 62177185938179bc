-- ===== src/Archive/Digest.antt =====
-- `RevisionDigest` of internal/archive/archive.go.
pub mod Encoding
use traicr.Prelude.{
  ◌≡◌, ap, ◌∙◌, inl, inr, true, false, List, [], ◌∷◌, ◌++◌, arith, if◌then◌else◌, Bool-cases, Text,
  codes, text_eq, text_eq_iff, text_leb, text_leb_trans, text_leb_total, text_leb_antisym,
}
use traicr.Domain.{File}

-- `slices.SortFunc` by path. Go's sort fixes no order for equal paths; this one keeps it.
unfoldable pub insert : File → List File → List File
insert f [] = f ∷ []
insert f (g ∷ files) =
    let rest = insert f files in if text_leb f.path g.path then f ∷ g ∷ files else g ∷ rest

unfoldable pub sort_by_path : List File → List File
sort_by_path [] = []
sort_by_path (f ∷ files) = insert f (sort_by_path files)

-- `fmt.Fprintf(hash, "%s\x00%s\x00", file.Path, file.SHA256)` for each file
unfoldable pub digest_input : List File → Text
digest_input [] = []
digest_input (f ∷ files) = f.path ++ (0 ∷ (f.sha256 ++ (0 ∷ digest_input files)))

-- `hash` is SHA-256 in hexadecimal.
unfoldable pub revision_digest : (hash : Text → Text) → List File → Text
revision_digest hash files = codes "sha256:" ++ hash (digest_input (sort_by_path files))

-- The same files in another order: neighbours with different paths change places.
pub data Reorder : List File → List File → Type 0 where
  same : {xs ys : List File} → xs ≡ ys → Reorder xs ys
  keep : {x : File} {xs ys : List File} → Reorder xs ys → Reorder (x ∷ xs) (x ∷ ys)
  swap :
      {x y : File} {xs : List File}
      → text_eq x.path y.path ≡ false
      → Reorder (x ∷ y ∷ xs) (y ∷ x ∷ xs)
  chain : {xs ys zs : List File} → Reorder xs ys → Reorder ys zs → Reorder xs zs

leb_asym : (a b : Text) → text_eq a b ≡ false → text_leb a b ≡ true → text_leb b a ≡ false
leb_asym a b d h = elim (Bool-cases (text_leb b a)) [
  | inl t ↦ absurd (ground (arith, (text_eq_iff a b).1 (text_leb_antisym a b h t)))
  | inr f ↦ f
]

insert_comm :
    (a b : File) (files : List File)
    → text_eq a.path b.path ≡ false
    → insert a (insert b files) ≡ insert b (insert a files)
unfolding insert
insert_comm a b [] d = ground (arith, leb_asym a.path b.path d, text_leb_total a.path b.path)
insert_comm a b (g ∷ files) d = ground (
  arith,
  leb_asym a.path b.path d,
  text_leb_total a.path b.path,
  text_leb_total a.path g.path,
  text_leb_total b.path g.path,
  text_leb_trans a.path b.path g.path,
  text_leb_trans b.path a.path g.path,
  text_leb_trans a.path g.path b.path,
  text_leb_trans b.path g.path a.path,
  insert_comm a b files d,
)

sort_by_path-Reorder : {xs ys : List File} → Reorder xs ys → sort_by_path xs ≡ sort_by_path ys
unfolding sort_by_path
sort_by_path-Reorder (same e) = ap sort_by_path e
sort_by_path-Reorder (keep {x = x} r) = ap (insert x) (sort_by_path-Reorder r)
sort_by_path-Reorder (swap {x = x} {y = y} {xs = xs} d) = insert_comm x y (sort_by_path xs) d
sort_by_path-Reorder (chain r s) = sort_by_path-Reorder r ∙ sort_by_path-Reorder s

-- The order in which a collector lists the files of a trace does not change its digest.
pub revision_digest-Reorder :
    (hash : Text → Text) {xs ys : List File}
    → Reorder xs ys
    → revision_digest hash xs ≡ revision_digest hash ys
unfolding revision_digest
revision_digest-Reorder hash r =
    ap (λ fs. codes "sha256:" ++ hash (digest_input fs)) (sort_by_path-Reorder r)
