-- ===== src/Store/Objects.antt =====
-- `storeObjects` and `writeObject` of internal/store/store.go: the archived source files, kept under
-- the SHA-256 of their content. The directory of objects is the list of what was renamed into it;
-- temporary files are gone when `writeObject` returns and are not kept.
pub mod Again
use traicr.Prelude.{
  ℕ, zero, suc, ◌+◌, ◌-◌, ◌*◌, ◌/◌, ◌%◌, ◌^◌, ◌≤◌, ◌<◌, min, max, ◌≡◌, refl, sym, ap, ◌∙◌, ◌≢◌, ◌↔◌,
  ◌⊎◌, inl, inr, Bool, true, false, not, ◌&&◌, ◌||◌, Option, none, some, List, [], ◌∷◌, ◌++◌, map,
  arith, ltb, leb, ◌==◌, if◌then◌else◌, ltb→lt, leb→le, ==_iff, Bool-cases, Option-cases, length,
  get_elem?, take, drop, slice, length-append, length-take, length-drop, take-append-drop,
  take_whole, length-ne-nil, Member, here, there, Member-append_left, Member-append_right, All,
  All-append, Text, codes, text_eq, text_eq_iff, text_eq_refl, text_eq-ne, text_leb, text_leb_refl,
  text_leb_trans, text_leb_total, text_leb_antisym, has_prefix, contains_byte, count_byte, Result,
  ok, err, ok-injective, Result-cases, bind-eq-ok, refuse_if, refuse_if-eq-ok, ◌>>=◌, ◌>>◌,
}
use mathlib.Core.Path.{subst}
use traicr.Prelude.Keys.{lookup, lookup-All}
use traicr.Domain.{File, ℤ, pos, negsuc, int_is}
use traicr.Store.Db.{StoreError, Sql, invalid_digest, size_mismatch, digest_mismatch, open_failed}
use traicr.Store.Revisions.{StoredObject}

-- Digests in hexadecimal with the content of their files.
abbrev pub ObjectStore : Type 0
ObjectStore = List (Text × Text)

-- `strings.TrimPrefix(expected, "sha256:")`
unfoldable pub trim_prefix : Text → Text
trim_prefix expected = if has_prefix expected (codes "sha256:") then drop 7 expected else expected

-- `sha256.Size*2`
abbrev pub digest_length : ℕ
digest_length = 64

unfoldable pub open_source : Option Text → Sql Text
open_source none = err open_failed
open_source (some content) = ok content

module _ (sha256 : Text → Text) where
  -- What `writeObject` does with a digest that has the right length, given what is stored under it
  -- and the content that the archive has.
  unfoldable pub write_content :
      Text → Text → File → Option Text → ObjectStore → Sql (StoredObject × ObjectStore)
  write_content digest content file none store = do
    refuse_if (not (text_eq digest (sha256 content))) digest_mismatch
    refuse_if (not (int_is file.size (length content))) size_mismatch
    ok (
      record { path = file.path; digest = digest; size = length content },
      (digest, content) ∷ store,
    )
  write_content digest content file (some stored) store = do
    refuse_if (not (int_is file.size (length stored))) size_mismatch
    ok (record { path = file.path; digest = digest; size = length stored }, store)

  -- `writeObject`
  unfoldable pub write_object : Text → File → ObjectStore → Sql (StoredObject × ObjectStore)
  write_object content file store = do
    let digest = trim_prefix file.sha256
    refuse_if (not (length digest == digest_length)) invalid_digest
    write_content digest content file (lookup digest store) store

  -- `storeObjects`, with what the loop leaves in the object store: an error in a later file keeps
  -- the objects of the earlier ones.
  unfoldable pub store_file :
      (Text → Option Text) → File → ObjectStore → Sql (StoredObject × ObjectStore)
  store_file source file store =
      open_source (source file.path) >>= λ content. write_object content file store

  unfoldable pub store_objects :
      (Text → Option Text) → List File → ObjectStore → Sql (List StoredObject) × ObjectStore
  store_objects source [] store = (ok [], store)
  store_objects source (file ∷ files) store = elim (store_file source file store) [
    | err e ↦ (err e, store)
    | ok (object, store') ↦
        let rest = store_objects source files store' in
        (rest.0 >>= λ objects. ok (object ∷ objects), rest.1)
  ]

  -- Every object is named by the hash of its content, with a name of the right length.
  abbrev pub IsAddressed : Text × Text → Type 0
  IsAddressed (digest, content) = (digest ≡ sha256 content) × (length digest ≡ digest_length)

  -- A stored object is in the store: its name is the digest that the manifest gives, and its
  -- content has the size and the hash.
  pub record IsStored (file : File) (object : StoredObject) (store : ObjectStore) : Type 0 where
    pub path : object.path ≡ file.path
    pub digest : object.digest ≡ trim_prefix file.sha256
    pub size : int_is file.size object.size ≡ true
    pub content :
        (c : Text) × (lookup object.digest store ≡ some c)
        × (object.digest ≡ sha256 c)
        × (object.size ≡ length c)

  lookup_cons : (k v : Text) (store : ObjectStore) → lookup k ((k, v) ∷ store) ≡ some v
  unfolding lookup
  lookup_cons k v store = rw (text_eq_refl k)

  write_content-IsStored :
      (digest content : Text) (file : File) (store store' : ObjectStore) (object : StoredObject)
      → All IsAddressed store
      → length digest ≡ digest_length
      → digest ≡ trim_prefix file.sha256
      → write_content digest content file (lookup digest store) store ≡ ok (object, store')
      → All IsAddressed store' × IsStored file object store'
  unfolding write_content
  write_content-IsStored digest content file store store' object a len named h =
      elim (Option-cases (lookup digest store)) [
        | inl e ↦
            let (_, hashed, h1) =
              bind-eq-ok (refuse_if (not (text_eq digest (sha256 content))) digest_mismatch) _
                (rw e at h) in
            let (_, sized, h2) =
              bind-eq-ok (refuse_if (not (int_is file.size (length content))) size_mismatch) _ h1 in
            let same : digest ≡ sha256 content =
              (text_eq_iff digest (sha256 content)).0 (ground arith) in
            let size : int_is file.size (length content) ≡ true = ground arith in
            let object' : StoredObject = record {
              path = file.path;
              digest = digest;
              size = length content;
            } in
            let result : All IsAddressed ((digest, content) ∷ store)
                × IsStored file object' ((digest, content) ∷ store) =
              (
                ((same, len), a),
                record {
                  path = refl;
                  digest = named;
                  size = size;
                  content = (content, lookup_cons digest content store, same, refl);
                },
              ) in
            subst (λ r. All IsAddressed r.1 × IsStored file r.0 r.1) (ok-injective h2) result
        | inr (stored, e) ↦
            let (_, sized, h2) =
              bind-eq-ok (refuse_if (not (int_is file.size (length stored))) size_mismatch) _
                (rw e at h) in
            let size : int_is file.size (length stored) ≡ true = ground arith in
            let object' : StoredObject = record {
              path = file.path;
              digest = digest;
              size = length stored;
            } in
            let (same, _) = lookup-All IsAddressed digest store stored a e in
            let result : All IsAddressed store × IsStored file object' store = (
              a,
              record {
                path = refl;
                digest = named;
                size = size;
                content = (stored, e, same, refl);
              },
            ) in
            subst (λ r. All IsAddressed r.1 × IsStored file r.0 r.1) (ok-injective h2) result
      ]

  -- What `writeObject` returns is in the store under the digest of the manifest, with the size of
  -- the manifest, and it hashes to that digest; and every object stays named by its hash.
  pub write_object-IsStored :
      (content : Text) (file : File) (store store' : ObjectStore) (object : StoredObject)
      → All IsAddressed store
      → write_object content file store ≡ ok (object, store')
      → All IsAddressed store' × IsStored file object store'
  unfolding write_object
  write_object-IsStored content file store store' object a h =
      let digest = trim_prefix file.sha256 in
      let (_, sized, h1) =
        bind-eq-ok (refuse_if (not (length digest == digest_length)) invalid_digest) _ h in
      let len : length digest ≡ digest_length = ground arith in
      write_content-IsStored digest content file store store' object a len refl h1

  store_file-IsStored :
      (source : Text → Option Text) (file : File) (store store' : ObjectStore)
      (object : StoredObject)
      → All IsAddressed store
      → store_file source file store ≡ ok (object, store')
      → All IsAddressed store' × IsStored file object store'
  unfolding store_file
  store_file-IsStored source file store store' object a h =
      let (content, opened, written) = bind-eq-ok (open_source (source file.path)) _ h in
      write_object-IsStored content file store store' object a written

  -- Whatever the sources hold, and also when a file is missing or has another hash or size, storing
  -- the files of a trace leaves every object named by the hash of its content.
  store_objects-IsAddressed :
      (source : Text → Option Text) (files : List File) (store : ObjectStore)
      → All IsAddressed store
      → All IsAddressed (store_objects source files store).1
  unfolding store_objects
  store_objects-IsAddressed source [] store a = a
  store_objects-IsAddressed source (file ∷ files) store a =
      elim (Result-cases (store_file source file store)) [
        | inl ((object, store'), e) ↦
            rw (e, store_objects)
              (store_objects-IsAddressed source files store'
                (store_file-IsStored source file store store' object a e).0)
        | inr (e', e) ↦ rw (e, store_objects) a
      ]
