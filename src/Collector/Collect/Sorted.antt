-- ===== src/Collector/Collect/Sorted.antt =====
-- The order in which `Collect` hands the traces to the archive.
use traicr.Prelude.{
  ◌≡◌, refl, ◌∙◌, inl, inr, true, false, List, [], ◌∷◌, arith, Bool-cases, All, Text, text_eq,
  text_eq_iff, text_leb_trans, text_leb_total, text_leb_antisym,
}
use traicr.Prelude.Keys.{contains, Distinct, more}
use traicr.Archive.Describe.{Input}
use traicr.Collector.Collect.{key_of, input_leb, insert_input, sort_inputs}

abbrev pub input_keys : List Input → List Text
input_keys [] = []
input_keys (x ∷ xs) = key_of x.descriptor ∷ input_keys xs

-- Each trace stands before all later ones in the order of harness and native id.
abbrev pub Sorted : List Input → Type 0
Sorted [] = Unit
Sorted (x ∷ xs) = All (λ y. input_leb x y ≡ true) xs × Sorted xs

leb_trans : (x y z : Input) → input_leb x y ≡ true → input_leb y z ≡ true → input_leb x z ≡ true
unfolding input_leb
leb_trans x y z h k = ground (
  arith,
  text_eq_iff x.descriptor.harness y.descriptor.harness,
  text_eq_iff y.descriptor.harness z.descriptor.harness,
  text_eq_iff x.descriptor.harness z.descriptor.harness,
  text_leb_trans x.descriptor.harness y.descriptor.harness z.descriptor.harness,
  text_leb_trans x.descriptor.native_trace_id y.descriptor.native_trace_id
      z.descriptor.native_trace_id,
  text_leb_antisym x.descriptor.harness y.descriptor.harness,
)

leb_total : (x y : Input) → input_leb x y ≡ false → input_leb y x ≡ true
unfolding input_leb
leb_total x y h = ground (
  arith,
  text_eq_iff x.descriptor.harness y.descriptor.harness,
  text_eq_iff y.descriptor.harness x.descriptor.harness,
  text_leb_total x.descriptor.harness y.descriptor.harness,
  text_leb_total x.descriptor.native_trace_id y.descriptor.native_trace_id,
)

All-insert :
    (P : Input → Type 0) (x : Input) (ys : List Input) → P x → All P ys → All P (insert_input x ys)
unfolding insert_input
All-insert P x [] h a = (h, tt)
All-insert P x (y ∷ ys) h a = elim (Bool-cases (input_leb x y)) [
  | inl e ↦ rw (insert_input, e) (h, a)
  | inr e ↦ rw (insert_input, e) (a.0, All-insert P x ys h a.1)
]

All_map :
    {A : Type 0} (P Q : A → Type 0) (xs : List A) → ((x : A) → P x → Q x) → All P xs → All Q xs
All_map P Q [] f a = tt
All_map P Q (x ∷ xs) f a = (f x a.0, All_map P Q xs f a.1)

insert_input-Sorted : (x : Input) (ys : List Input) → Sorted ys → Sorted (insert_input x ys)
unfolding insert_input
insert_input-Sorted x [] s = (tt, tt)
insert_input-Sorted x (y ∷ ys) s = elim (Bool-cases (input_leb x y)) [
  | inl e ↦ rw (insert_input, e) ((e, All_map _ _ ys (λ z h. leb_trans x y z e h) s.0), s)
  | inr e ↦
      rw (insert_input, e)
        (
          All-insert (λ z. input_leb y z ≡ true) x ys (leb_total x y e) s.0,
          insert_input-Sorted x ys s.1,
        )
]

pub sort_inputs-Sorted : (xs : List Input) → Sorted (sort_inputs xs)
unfolding sort_inputs
sort_inputs-Sorted [] = tt
sort_inputs-Sorted (x ∷ xs) = insert_input-Sorted x (sort_inputs xs) (sort_inputs-Sorted xs)

pub sort_inputs-All : (P : Input → Type 0) (xs : List Input) → All P xs → All P (sort_inputs xs)
unfolding sort_inputs
sort_inputs-All P [] a = tt
sort_inputs-All P (x ∷ xs) a = All-insert P x (sort_inputs xs) a.0 (sort_inputs-All P xs a.1)

contains-insert :
    (k : Text) (x : Input) (ys : List Input)
    → contains k (input_keys (insert_input x ys)) ≡ contains k (input_keys (x ∷ ys))
unfolding insert_input contains
contains-insert k x [] = refl
contains-insert k x (y ∷ ys) = ground (arith, contains-insert k x ys)

pub contains-sort :
    (k : Text) (xs : List Input)
    → contains k (input_keys (sort_inputs xs)) ≡ contains k (input_keys xs)
unfolding sort_inputs contains
contains-sort k [] = refl
contains-sort k (x ∷ xs) =
    contains-insert k x (sort_inputs xs) ∙ (ground (arith, contains-sort k xs))

text_eq_sym : (a b : Text) → text_eq a b ≡ text_eq b a
unfolding text_eq
text_eq_sym [] [] = refl
text_eq_sym [] (y ∷ b) = refl
text_eq_sym (x ∷ a) [] = refl
text_eq_sym (x ∷ a) (y ∷ b) = ground (arith, text_eq_sym a b)

insert_input-Distinct :
    (x : Input) (ys : List Input)
    → Distinct (input_keys (x ∷ ys))
    → Distinct (input_keys (insert_input x ys))
unfolding insert_input
insert_input-Distinct x [] d = d
insert_input-Distinct x (y ∷ ys) (more fresh (more fresh' d)) = elim (Bool-cases (input_leb x y)) [
  | inl e ↦ rw (insert_input, e) (more fresh (more fresh' d))
  | inr e ↦
      let apart : contains (key_of x.descriptor) (input_keys ys) ≡ false =
        unfold contains in (ground arith) in
      let other : contains (key_of y.descriptor) (input_keys (x ∷ ys)) ≡ false =
        unfold contains in
        (ground (arith, text_eq_sym (key_of x.descriptor) (key_of y.descriptor))) in
      rw (insert_input, e)
        (more (contains-insert (key_of y.descriptor) x ys ∙ other)
          (insert_input-Distinct x ys (more apart d)))
]

pub sort_inputs-Distinct :
    (xs : List Input) → Distinct (input_keys xs) → Distinct (input_keys (sort_inputs xs))
unfolding sort_inputs
sort_inputs-Distinct [] d = d
sort_inputs-Distinct (x ∷ xs) (more fresh d) =
    insert_input-Distinct x (sort_inputs xs)
      (more (contains-sort (key_of x.descriptor) xs ∙ fresh) (sort_inputs-Distinct xs d))
