-- ===== src/Store/Table.antt =====
-- SQL tables as lists of rows, the newest first, with the statements that the store makes.
-- A query that names no order is used only where at most one row answers it.
pub mod Rows
use mathlib.Core.Path.{subst}
use traicr.Prelude.{
  ◌≤◌, length, ℕ, ◌+◌, ◌<◌, max, ◌≡◌, refl, ap, ◌∙◌, inl, inr, Bool, true, false, ◌||◌, Option,
  none, some, List, [], ◌∷◌, arith, ◌==◌, if◌then◌else◌, Bool-cases,
}

module _ {A : Type 0} where
  -- `SELECT … WHERE test LIMIT 1`
  unfoldable pub find : (A → Bool) → List A → Option A
  find test [] = none
  find test (x ∷ xs) = if test x then some x else find test xs

  -- `EXISTS(SELECT 1 … WHERE test)`
  unfoldable pub exists : (A → Bool) → List A → Bool
  exists test [] = false
  exists test (x ∷ xs) = test x || exists test xs

  -- `UPDATE … SET change WHERE test`
  unfoldable pub update_where : (A → Bool) → (A → A) → List A → List A
  update_where test change [] = []
  update_where test change (x ∷ xs) = (if test x then change x else x) ∷ update_where test change xs

  -- `DELETE … WHERE test`
  unfoldable pub delete_where : (A → Bool) → List A → List A
  delete_where test [] = []
  delete_where test (x ∷ xs) = let rest = delete_where test xs in if test x then rest else x ∷ rest

  -- The key of a new row of a table with an `INTEGER PRIMARY KEY`.
  unfoldable pub max_of : (A → ℕ) → List A → ℕ
  max_of key [] = 0
  max_of key (x ∷ xs) = max (key x) (max_of key xs)

  -- No two rows that `same` relates: a `UNIQUE` constraint.
  pub data Unique (same : A → A → Bool) : List A → Type 0 where
    nil : Unique same []
    cons :
        {x : A} {xs : List A} → exists (same x) xs ≡ false → Unique same xs → Unique same (x ∷ xs)

  -- A change of rows that `same` does not see.
  pub record Keeps (same : A → A → Bool) (change : A → A) : Type 0 where
    pub left : (x y : A) → same (change x) y ≡ same x y
    pub right : (x y : A) → same x (change y) ≡ same x y

  pub exists-update_where :
      (p test : A → Bool) (change : A → A) (xs : List A)
      → ((y : A) → p (change y) ≡ p y)
      → exists p (update_where test change xs) ≡ exists p xs
  unfolding exists update_where
  exists-update_where p test change [] h = refl
  exists-update_where p test change (x ∷ xs) h =
      ground (arith, h x, exists-update_where p test change xs h)

  exists_ext : (p q : A → Bool) (xs : List A) → ((y : A) → p y ≡ q y) → exists p xs ≡ exists q xs
  unfolding exists
  exists_ext p q [] h = refl
  exists_ext p q (x ∷ xs) h = ground (arith, h x, exists_ext p q xs h)

  pub update_where-Unique :
      (same : A → A → Bool) (test : A → Bool) (change : A → A) (xs : List A)
      → Keeps same change
      → Unique same xs
      → Unique same (update_where test change xs)
  unfolding update_where
  update_where-Unique same test change [] k u = nil
  update_where-Unique same test change (x ∷ xs) k (cons fresh u) =
      let rest = update_where-Unique same test change xs k u in
      let outside : exists (same x) (update_where test change xs) ≡ false =
        exists-update_where (same x) test change xs (k.right x) ∙ fresh in
      elim (Bool-cases (test x)) [
        | inl t ↦ rw t (
            cons
              (exists_ext (same (change x)) (same x) (update_where test change xs) (k.left x)
                ∙ outside)
              rest)
        | inr f ↦ rw f (cons outside rest)
      ]

  pub exists-find : (p : A → Bool) (xs : List A) → find p xs ≡ none → exists p xs ≡ false
  unfolding find exists
  exists-find p [] h = refl
  exists-find p (x ∷ xs) h = ground (arith, exists-find p xs)

  find-exists : (p : A → Bool) (xs : List A) → exists p xs ≡ false → find p xs ≡ none
  unfolding find exists
  find-exists p [] h = refl
  find-exists p (x ∷ xs) h = ground (arith, find-exists p xs)

  pub find_test : (p : A → Bool) (xs : List A) (x : A) → find p xs ≡ some x → p x ≡ true
  unfolding find
  find_test p [] x h = cc
  find_test p (y ∷ xs) x h = elim (Bool-cases (p y)) [
    | inl t ↦ let e : y ≡ x = ground arith in subst (λ z. p z ≡ true) e t
    | inr f ↦ find_test p xs x (ground arith)
  ]

  exists-delete_where :
      (p test : A → Bool) (xs : List A)
      → exists p xs ≡ false
      → exists p (delete_where test xs) ≡ false
  unfolding exists delete_where
  exists-delete_where p test [] h = refl
  exists-delete_where p test (x ∷ xs) h = ground (arith, exists-delete_where p test xs)

  delete_where-Unique :
      (same : A → A → Bool) (test : A → Bool) (xs : List A)
      → Unique same xs
      → Unique same (delete_where test xs)
  unfolding delete_where
  delete_where-Unique same test [] u = nil
  delete_where-Unique same test (x ∷ xs) (cons fresh u) = elim (Bool-cases (test x)) [
    | inl t ↦ rw t (delete_where-Unique same test xs u)
    | inr f ↦
        rw f
          (cons (exists-delete_where (same x) test xs fresh) (delete_where-Unique same test xs u))
  ]

  -- A key that no row has yet.
  max_of_bound :
      (key : A → ℕ) (n : ℕ) (xs : List A) → max_of key xs < n → exists (λ y. n == key y) xs ≡ false
  unfolding max_of exists
  max_of_bound key n [] h = refl
  max_of_bound key n (x ∷ xs) h = ground (arith, max_of_bound key n xs)

  pub next_key : (key : A → ℕ) (xs : List A) → exists (λ y. max_of key xs + 1 == key y) xs ≡ false
  next_key key xs = max_of_bound key (max_of key xs + 1) xs (omega arith)

  pub find-update_where :
      (p test : A → Bool) (change : A → A) (xs : List A)
      → ((y : A) → p (change y) ≡ p y)
      → find p (update_where test change xs)
        ≡ elim (find p xs) [ none ↦ none | some x ↦ some (if test x then change x else x) ]
  unfolding find update_where
  find-update_where p test change [] h = refl
  find-update_where p test change (x ∷ xs) h =
      ground (arith, h x, find-update_where p test change xs h)

  pub exists-find-some :
      (p : A → Bool) (xs : List A) → exists p xs ≡ true → (x : A) × (find p xs ≡ some x)
  unfolding find exists
  exists-find-some p [] h = absurd (ground arith)
  exists-find-some p (x ∷ xs) h = elim (Bool-cases (p x)) [
    | inl t ↦ (x, rw t)
    | inr f ↦ let (y, e) = exists-find-some p xs (ground arith) in (y, rw f e)
  ]

  pub exists_cons : (p : A → Bool) (x : A) (xs : List A) → p x ≡ true → exists p (x ∷ xs) ≡ true
  unfolding exists
  exists_cons p x xs h = rw h

  -- A change that makes its own test fail leaves no row that passes it.
  pub exists-update_none :
      (test : A → Bool) (change : A → A) (xs : List A)
      → ((y : A) → test (change y) ≡ false)
      → exists test (update_where test change xs) ≡ false
  unfolding exists update_where
  exists-update_none test change [] h = refl
  exists-update_none test change (x ∷ xs) h =
      ground (arith, h x, exists-update_none test change xs h)

  pub update_where_none :
      (test : A → Bool) (change : A → A) (xs : List A)
      → exists test xs ≡ false
      → update_where test change xs ≡ xs
  unfolding exists update_where
  update_where_none test change [] h = refl
  update_where_none test change (x ∷ xs) h =
      let skip : test x ≡ false = ground arith in
      rw skip (ap (λ t. x ∷ t) (update_where_none test change xs (ground arith)))

  -- Deleting less before makes no difference.
  pub delete_where_absorb :
      (p q : A → Bool) (xs : List A)
      → ((x : A) → q x ≡ true → p x ≡ true)
      → delete_where p (delete_where q xs) ≡ delete_where p xs
  unfolding delete_where
  delete_where_absorb p q [] h = refl
  delete_where_absorb p q (x ∷ xs) h = elim (Bool-cases (q x)) [
    | inl t ↦ rw t (rw (h x t) (delete_where_absorb p q xs h))
    | inr f ↦ elim (Bool-cases (p x)) [
      | inl t ↦ rw f (rw t (delete_where_absorb p q xs h))
      | inr g ↦ rw f (rw g (ap (λ r. x ∷ r) (delete_where_absorb p q xs h)))
    ]
  ]

  pub delete_where_none :
      (p : A → Bool) (xs : List A) → exists p xs ≡ false → delete_where p xs ≡ xs
  unfolding delete_where exists
  delete_where_none p [] h = refl
  delete_where_none p (x ∷ xs) h =
      let kept : p x ≡ false = ground arith in
      rw kept (ap (λ r. x ∷ r) (delete_where_none p xs (ground arith)))

  length-delete_where : (p : A → Bool) (xs : List A) → length (delete_where p xs) ≤ length xs
  unfolding delete_where
  length-delete_where p [] = omega arith
  length-delete_where p (x ∷ xs) = ground (arith, length-delete_where p xs)

  pub length-delete_where_some :
      (p : A → Bool) (xs : List A) → exists p xs ≡ true → length (delete_where p xs) < length xs
  unfolding delete_where exists
  length-delete_where_some p [] h = absurd (ground arith)
  length-delete_where_some p (x ∷ xs) h = elim (Bool-cases (p x)) [
    | inl t ↦ rw t (ground (arith, length-delete_where p xs))
    | inr f ↦ rw f (ground (arith, length-delete_where_some p xs))
  ]
