-- ===== src/Archive/Digest/Encoding.antt =====
-- What `RevisionDigest` hashes determines the names and the digests of the files.
use mathlib.Core.Path.{ap₂}
use traicr.Prelude.{
  ◌≡◌, refl, sym, ◌≢◌, false, List, [], ◌∷◌, ◌++◌, map, arith, All, Text, contains_byte,
}
use traicr.Domain.{File}
use traicr.Archive.Digest.{digest_input}

abbrev HasNoNul : Text → Type 0
HasNoNul t = contains_byte 0 t ≡ false

nul_split :
    (a b r s : Text) → HasNoNul a → HasNoNul b → a ++ (0 ∷ r) ≡ b ++ (0 ∷ s) → (a ≡ b) × (r ≡ s)
unfolding contains_byte
nul_split [] [] r s h k e = ground arith
nul_split [] (y ∷ b) r s h k e = ground arith
nul_split (x ∷ a) [] r s h k e = ground arith
nul_split (x ∷ a) (y ∷ b) r s h k e = ground (arith, nul_split a b r s)

-- A name and a digest with no NUL byte, as `safePath` and hexadecimal digits are.
pub record IsPlain (f : File) : Type 0 where
  pub path_plain : HasNoNul f.path
  pub digest_plain : HasNoNul f.sha256

abbrev pub identity : File → Text × Text
identity f = (f.path, f.sha256)

nul_ne_nil : (a r : Text) → a ++ (0 ∷ r) ≢ []
nul_ne_nil [] r e = ground arith
nul_ne_nil (x ∷ a) r e = ground arith

-- Files with plain names and digests that give the hash the same bytes have the same names and
-- digests, in the same order.
pub digest_input-injective :
    (xs ys : List File)
    → All IsPlain xs
    → All IsPlain ys
    → digest_input xs ≡ digest_input ys
    → map identity xs ≡ map identity ys
unfolding digest_input
digest_input-injective [] [] h k e = refl
digest_input-injective [] (y ∷ ys) h k e = absurd (nul_ne_nil y.path _ (sym e))
digest_input-injective (x ∷ xs) [] h k e = absurd (nul_ne_nil x.path _ e)
digest_input-injective (x ∷ xs) (y ∷ ys) (hx, h) (hy, k) e =
    let (p, e1) = nul_split x.path y.path _ _ hx.path_plain hy.path_plain e in
    let (q, e2) = nul_split x.sha256 y.sha256 _ _ hx.digest_plain hy.digest_plain e1 in
    ap₂ (λ a b. a ∷ b) (ap₂ (λ a b. (a, b)) p q) (digest_input-injective xs ys h k e2)
