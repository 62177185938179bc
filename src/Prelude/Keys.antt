-- ===== src/Prelude/Keys.antt =====
-- Sets and maps with string keys, as the lists of what was put in.
use traicr.Prelude.Strings.{Text, text_eq, text_eq_iff}
use traicr.Prelude.Tests.{if◌then◌else◌, Bool-cases}
use traicr.Prelude.Lists.{All, length, Member, here, there}
use Prim.Native.Nat.{suc, ◌≤◌}
use mathlib.Core.Path.{◌≡◌, refl, sym, ap, subst₂}
use mathlib.Core.Logic.{inl, inr}
use mathlib.Core.Bool.{Bool, true, false, ◌||◌}
use mathlib.Core.List.{List, [], ◌∷◌}
use mathlib.Core.Option.{Option, none, some}
use native.Mathlib.Omega.{arith}

unfoldable pub contains : Text → List Text → Bool
contains k [] = false
contains k (x ∷ xs) = text_eq x k || contains k xs

module _ {ℓ} {V : Type ℓ} where
  unfoldable pub lookup : Text → List (Text × V) → Option V
  lookup k [] = none
  lookup k ((j, v) ∷ m) = if text_eq j k then some v else lookup k m

  abbrev pub keys : List (Text × V) → List Text
  keys [] = []
  keys ((j, v) ∷ m) = j ∷ keys m

  pub lookup-Member :
      (k : Text) (m : List (Text × V)) (v : V) → lookup k m ≡ some v → Member k (keys m)
  unfolding lookup
  lookup-Member k [] v h = cc
  lookup-Member k ((j, w) ∷ m) v h = elim (Bool-cases (text_eq j k)) [
    | inl e ↦ here (sym ((text_eq_iff j k).0 e))
    | inr e ↦ there (lookup-Member k m v (ground arith))
  ]

  pub lookup-contains :
      (k : Text) (m : List (Text × V)) → lookup k m ≡ none → contains k (keys m) ≡ false
  unfolding lookup contains
  lookup-contains k [] h = refl
  lookup-contains k ((j, w) ∷ m) h = ground (arith, lookup-contains k m)

  pub lookup-All {κ} :
      (P : Text × V → Type κ) (k : Text) (m : List (Text × V)) (v : V)
      → All P m
      → lookup k m ≡ some v
      → P (k, v)
  unfolding lookup
  lookup-All P k [] v a h = cc
  lookup-All P k ((j, w) ∷ m) v a h = elim (Bool-cases (text_eq j k)) [
    | inl e ↦
        let value : w ≡ v = ground arith in
        subst₂ (λ x y. P (x, y)) ((text_eq_iff j k).0 e) value a.0
    | inr e ↦ lookup-All P k m v a.1 (rw (e, lookup) at h)
  ]

  pub length-keys : (m : List (Text × V)) → length (keys m) ≡ length m
  length-keys [] = refl
  length-keys ((j, v) ∷ m) = ap suc (length-keys m)

-- No key twice.
pub data Distinct : List Text → Type 0 where
  nil : Distinct []
  more : {k : Text} {ks : List Text} → contains k ks ≡ false → Distinct ks → Distinct (k ∷ ks)

pub contains→Member : (k : Text) (ks : List Text) → contains k ks ≡ true → Member k ks
unfolding contains
contains→Member k [] h = cc
contains→Member k (x ∷ xs) h = elim (Bool-cases (text_eq x k)) [
  | inl e ↦ here (sym ((text_eq_iff x k).0 e))
  | inr e ↦ there (contains→Member k xs (ground arith))
]

pub Member→contains : {k : Text} {ks : List Text} → Member k ks → contains k ks ≡ true
unfolding contains
Member→contains {k} (here {x} e) = rw ((text_eq_iff x k).1 (sym e))
Member→contains {k} (there {x} {xs} m) = ground (arith, Member→contains m)

-- A key taken out once.
remove : Text → List Text → List Text
remove k [] = []
remove k (x ∷ xs) = let rest = remove k xs in if text_eq x k then xs else x ∷ rest

length-remove :
    (k : Text) (ks : List Text) → contains k ks ≡ true → length ks ≡ suc (length (remove k ks))
unfolding remove contains
length-remove k [] h = cc
length-remove k (x ∷ xs) h = ground (arith, length-remove k xs)

Member-remove :
    (k : Text) {j : Text} (ks : List Text)
    → Member j ks
    → text_eq j k ≡ false
    → Member j (remove k ks)
unfolding remove
Member-remove k [] m d = elim m [ ]
Member-remove k (x ∷ xs) (here e) d = let f : text_eq x k ≡ false = rw e at d in rw f (here e)
Member-remove k (x ∷ xs) (there m) d = elim (Bool-cases (text_eq x k)) [
  | inl e ↦ rw e m
  | inr e ↦ rw e (there (Member-remove k xs m d))
]

contains-ne :
    (x : Text) {j : Text} (xs : List Text)
    → contains x xs ≡ false
    → Member j xs
    → text_eq j x ≡ false
unfolding contains
contains-ne x [] h m = elim m [ ]
contains-ne x (y ∷ xs) h (here e) = rw e (ground arith)
contains-ne x (y ∷ xs) h (there m) = contains-ne x xs (ground arith) m

-- Distinct keys that all stand in a list which is no longer are all of that list.
pub Distinct-covers :
    (xs ys : List Text)
    → Distinct xs
    → ((k : Text) → Member k xs → Member k ys)
    → length ys ≤ length xs
    → (j : Text) → Member j ys
    → contains j xs ≡ true
Distinct-covers [] [] d sub h j m = elim m [ ]
Distinct-covers [] (y ∷ ys) d sub h j m = absurd (omega arith)
Distinct-covers (x ∷ xs) ys (more fresh d) sub h j m = elim (Bool-cases (text_eq j x)) [
  | inl e ↦ Member→contains (here ((text_eq_iff j x).0 e))
  | inr e ↦
      let present = Member→contains (sub x (here refl)) in
      let sub' = λ (k : Text) (n : Member k xs).
        Member-remove x ys (sub k (there n)) (contains-ne x xs fresh n) in
      let shorter : length (remove x ys) ≤ length xs = omega (arith, length-remove x ys present) in
      let rest = Distinct-covers xs (remove x ys) d sub' shorter j (Member-remove x ys m e) in
      Member→contains (there (contains→Member j xs rest))
]
