-- ===== src/Store/Objects/Again.antt =====
-- Storing the files of a trace a second time finds them all and writes nothing.
use traicr.Prelude.{
  ◌≡◌, sym, ap, ◌∙◌, ◌≢◌, inl, inr, not, Option, none, some, List, [], ◌∷◌, ◌==◌, Bool-cases,
  Option-cases, length, Text, text_eq, text_eq_iff, text_eq_refl, ok, err, ok-injective,
  Result-cases, bind-eq-ok, refuse_if, ◌>>=◌,
}
use mathlib.Core.Path.{subst}
use traicr.Prelude.Keys.{lookup}
use traicr.Domain.{File, int_is}
use traicr.Store.Db.{Sql, StoreError, invalid_digest, size_mismatch, digest_mismatch}
use traicr.Store.Revisions.{StoredObject}
use traicr.Store.Objects.{
  ObjectStore, trim_prefix, digest_length, write_content, write_object, store_file, store_objects,
  open_source,
}

-- Every object of the first store is in the second, with its content.
record Grows (a b : ObjectStore) : Type 0 where
  keeps : (k c : Text) → lookup k a ≡ some c → lookup k b ≡ some c

Grows-trans : (a b c : ObjectStore) → Grows a b → Grows b c → Grows a c
Grows-trans a b c f g = record { keeps = λ k v h. g.keeps k v (f.keeps k v h) }

some-ne : {A : Type 0} (c : A) → ◌≢◌ {A = Option A} none (some c)
some-ne c h = cc

lookup_own : (k v : Text) (a : ObjectStore) → lookup k ((k, v) ∷ a) ≡ some v
unfolding lookup
lookup_own k v a = rw (text_eq_refl k)

Grows-cons : (k v : Text) (a : ObjectStore) → lookup k a ≡ none → Grows a ((k, v) ∷ a)
unfolding lookup
Grows-cons k v a fresh = record {
  keeps = λ j c h. elim (Bool-cases (text_eq k j)) [
    | inl e ↦
        let same : k ≡ j = (text_eq_iff k j).0 e in
        absurd (some-ne c (sym (subst (λ y. lookup y a ≡ none) same fresh) ∙ h))
    | inr e ↦ rw e h
  ];
}

err-ne : {A : Type 0} (e : StoreError) (a : A) → ◌≢◌ {A = Sql A} (err e) (ok a)
err-ne e a h = cc

module _ (sha256 : Text → Text) where
  content_again :
      (digest content : Text) (file : File) (store store' : ObjectStore) (object : StoredObject)
      → write_content sha256 digest content file (lookup digest store) store ≡ ok (object, store')
      → Grows store store'
        × ((later : ObjectStore)
            → Grows store' later
            → write_content sha256 digest content file (lookup digest later) later
              ≡ ok (object, later))
  unfolding write_content
  content_again digest content file store store' object h =
      elim (Option-cases (lookup digest store)) [
        | inl e ↦
            let (_, hashed, h1) =
              bind-eq-ok (refuse_if (not (text_eq digest (sha256 content))) digest_mismatch) _
                (rw e at h) in
            let (_, sized, h2) =
              bind-eq-ok (refuse_if (not (int_is file.size (length content))) size_mismatch) _ h1 in
            let grown = ap (λ x. x.1) (ok-injective h2) in
            let same = ap (λ x. x.0) (ok-injective h2) in
            (
              subst (Grows store) grown (Grows-cons digest content store e),
              λ later g.
                  let found : lookup digest later ≡ some content =
                    (subst (λ s. Grows s later) (sym grown) g).keeps digest content
                      (lookup_own digest content store) in
                  rw found (rw sized (ap (λ o. ok (o, later)) same)),
            )
        | inr (stored, e) ↦
            let (_, sized, h2) =
              bind-eq-ok (refuse_if (not (int_is file.size (length stored))) size_mismatch) _
                (rw e at h) in
            let grown = ap (λ x. x.1) (ok-injective h2) in
            let same = ap (λ x. x.0) (ok-injective h2) in
            (
              subst (Grows store) grown (record { keeps = λ k c l. l }),
              λ later g.
                  let found : lookup digest later ≡ some stored =
                    g.keeps digest stored (subst (λ s. lookup digest s ≡ some stored) grown e) in
                  rw found (rw sized (ap (λ o. ok (o, later)) same)),
            )
      ]

  file_again :
      (source : Text → Option Text) (file : File) (store store' : ObjectStore)
      (object : StoredObject)
      → store_file sha256 source file store ≡ ok (object, store')
      → Grows store store'
        × ((later : ObjectStore)
            → Grows store' later
            → store_file sha256 source file later ≡ ok (object, later))
  unfolding store_file write_object
  file_again source file store store' object h =
      let digest = trim_prefix file.sha256 in
      let (content, opened, written) = bind-eq-ok (open_source (source file.path)) _ h in
      let (_, sized, h1) =
        bind-eq-ok (refuse_if (not (length digest == digest_length)) invalid_digest) _ written in
      let (grows, again) = content_again digest content file store store' object h1 in
      (grows, λ later g. rw opened (rw sized (again later g)))

  -- The rest of the loop, given what the first file gave.
  rest_ok :
      (object : StoredObject) (rest : Sql (List StoredObject) × ObjectStore)
      (objects : List StoredObject)
      → (rest.0 >>= λ os. ok (object ∷ os)) ≡ ok objects
      → (os : List StoredObject) × (rest.0 ≡ ok os)
        × (◌≡◌ {A = Sql (List StoredObject)} (ok (object ∷ os)) (ok objects))
  rest_ok object rest objects h = bind-eq-ok rest.0 _ h

  objects_again :
      (source : Text → Option Text) (files : List File) (store : ObjectStore)
      (objects : List StoredObject)
      → (store_objects sha256 source files store).0 ≡ ok objects
      → Grows store (store_objects sha256 source files store).1
        × ((later : ObjectStore)
            → Grows (store_objects sha256 source files store).1 later
            → store_objects sha256 source files later ≡ (ok objects, later))
  unfolding store_objects
  objects_again source [] store objects h =
      (record { keeps = λ k c l. l }, λ later g. ap (λ x. (x, later)) h)
  objects_again source (file ∷ files) store objects h =
      elim (Result-cases (store_file sha256 source file store)) [
        | inl ((object, store1), e) ↦
            let (grows1, again1) = file_again source file store store1 object e in
            let (os, rest, last) =
              rest_ok object (store_objects sha256 source files store1) objects
                (rw (e, store_objects) at h) in
            let (grows2, again2) = objects_again source files store1 os rest in
            rw (e, store_objects)
              (
                Grows-trans store store1 _ grows1 grows2,
                λ later g.
                    rw (again1 later (Grows-trans store1 _ later grows2 g), store_objects)
                      (rw (again2 later g) (ap (λ x. (x, later)) last)),
              )
        | inr (e', e) ↦ absurd (err-ne e' objects (rw (e, store_objects) at h))
      ]

  -- When the files of a trace were stored, storing them again gives the same objects and leaves the
  -- store as it is.
  pub store_objects_again :
      (source : Text → Option Text) (files : List File) (store : ObjectStore)
      (objects : List StoredObject)
      → (store_objects sha256 source files store).0 ≡ ok objects
      → store_objects sha256 source files (store_objects sha256 source files store).1
        ≡ (ok objects, (store_objects sha256 source files store).1)
  store_objects_again source files store objects h =
      (objects_again source files store objects h).1 (store_objects sha256 source files store).1
        (record { keeps = λ k c l. l })
