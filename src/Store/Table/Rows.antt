-- ===== src/Store/Table/Rows.antt =====
-- Rows of a table that stay when others are deleted, by membership.
use traicr.Prelude.{
  ◌≡◌, refl, sym, ap, ◌∙◌, inl, inr, Bool, true, false, ◌&&◌, List, [], ◌∷◌, arith, Bool-cases,
  Member, here, there, All, Text, text_eq, text_eq_iff,
}
use mathlib.Core.Path.{subst}
use traicr.Prelude.Keys.{lookup}
use traicr.Store.Table.{find, exists, delete_where}

module _ {A : Type 0} where
  pub exists_none : (p : A → Bool) (xs : List A) → ((x : A) → p x ≡ false) → exists p xs ≡ false
  unfolding exists
  exists_none p [] h = refl
  exists_none p (x ∷ xs) h = ground (arith, h x, exists_none p xs h)

  pub delete_where-kept : (p : A → Bool) (xs : List A) → All (λ x. p x ≡ false) (delete_where p xs)
  unfolding delete_where
  delete_where-kept p [] = tt
  delete_where-kept p (x ∷ xs) = elim (Bool-cases (p x)) [
    | inl t ↦ rw t (delete_where-kept p xs)
    | inr f ↦ rw f (f, delete_where-kept p xs)
  ]

  -- A row that is looked for and not deleted is still there.
  pub exists-delete_other :
      (q p : A → Bool) (xs : List A)
      → exists q xs ≡ true
      → exists (λ x. q x && p x) xs ≡ false
      → exists q (delete_where p xs) ≡ true
  unfolding exists delete_where
  exists-delete_other q p [] h k = h
  exists-delete_other q p (x ∷ xs) h k = ground (arith, exists-delete_other q p xs)

  pub delete_where-Member :
      (p : A → Bool) (x : A) (xs : List A)
      → Member x xs
      → p x ≡ false
      → Member x (delete_where p xs)
  unfolding delete_where
  delete_where-Member p x [] m h = elim m [ ]
  delete_where-Member p x (y ∷ xs) (here e) h =
      let f : p y ≡ false = ap p (sym e) ∙ h in rw f (here e)
  delete_where-Member p x (y ∷ xs) (there m) h =
      let rest = delete_where-Member p x xs m h in
      elim (Bool-cases (p y)) [ inl t ↦ rw t rest | inr f ↦ rw f (there rest) ]

  pub exists-delete_gone : (p : A → Bool) (xs : List A) → exists p (delete_where p xs) ≡ false
  unfolding exists delete_where
  exists-delete_gone p [] = refl
  exists-delete_gone p (x ∷ xs) = ground (arith, exists-delete_gone p xs)

  pub find-delete_other :
      (q p : A → Bool) (xs : List A)
      → ((x : A) → q x ≡ true → p x ≡ false)
      → find q (delete_where p xs) ≡ find q xs
  unfolding find delete_where
  find-delete_other q p [] h = refl
  find-delete_other q p (x ∷ xs) h = ground (arith, h x, find-delete_other q p xs h)

  pub exists-Member :
      (p : A → Bool) (x : A) (xs : List A) → Member x xs → p x ≡ true → exists p xs ≡ true
  unfolding exists
  exists-Member p x [] m h = elim m [ ]
  exists-Member p x (y ∷ xs) (here e) h = let t : p y ≡ true = ap p (sym e) ∙ h in rw t refl
  exists-Member p x (y ∷ xs) (there m) h = ground (arith, exists-Member p x xs m h)

  pub All-Member : (P : A → Type 0) (x : A) (xs : List A) → All P xs → Member x xs → P x
  All-Member P x [] a m = elim m [ ]
  All-Member P x (y ∷ xs) (p, a) (here e) = subst P (sym e) p
  All-Member P x (y ∷ xs) (p, a) (there m) = All-Member P x xs a m

  pub exists_none_in :
      (p : A → Bool) (xs : List A) → All (λ x. p x ≡ false) xs → exists p xs ≡ false
  unfolding exists
  exists_none_in p [] a = refl
  exists_none_in p (x ∷ xs) (f, a) = rw f (exists_none_in p xs a)

  pub exists_mono :
      (p q : A → Bool) (xs : List A)
      → All (λ x. p x ≡ true → q x ≡ true) xs
      → exists p xs ≡ true
      → exists q xs ≡ true
  unfolding exists
  exists_mono p q [] a h = h
  exists_mono p q (x ∷ xs) (f, a) h = ground (arith, f, exists_mono p q xs a)

  pub exists-undeleted :
      (q p : A → Bool) (xs : List A) → exists q (delete_where p xs) ≡ true → exists q xs ≡ true
  unfolding exists delete_where
  exists-undeleted q p [] h = h
  exists-undeleted q p (x ∷ xs) h = ground (arith, exists-undeleted q p xs)

  -- A part of the rows has what all of them have.
  pub All-delete_where :
      (P : A → Type 0) (test : A → Bool) (xs : List A) → All P xs → All P (delete_where test xs)
  unfolding delete_where
  All-delete_where P test [] a = tt
  All-delete_where P test (x ∷ xs) (p, a) = elim (Bool-cases (test x)) [
    | inl t ↦ rw t (All-delete_where P test xs a)
    | inr f ↦ rw f (p, All-delete_where P test xs a)
  ]

pub lookup-delete_other :
    (k : Text) (p : Text × Text → Bool) (xs : List (Text × Text))
    → ((f : Text × Text) → f.0 ≡ k → p f ≡ false)
    → lookup k (delete_where p xs) ≡ lookup k xs
unfolding lookup delete_where
lookup-delete_other k p [] h = refl
lookup-delete_other k p ((j, v) ∷ xs) h =
    let rest = lookup-delete_other k p xs h in
    elim (Bool-cases (text_eq j k)) [
      | inl t ↦ rw (h (j, v) ((text_eq_iff j k).0 t)) (rw t refl)
      | inr f ↦ elim (Bool-cases (p (j, v))) [ inl t ↦ rw (t, f) rest | inr g ↦ rw g (rw f rest) ]
    ]
