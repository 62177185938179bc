-- ===== src/Store/Maintenance/Batches.antt =====
-- What the batches of a garbage collection remove: the rows that no revision refers to.
use traicr.Prelude.{
  ℕ, zero, suc, ◌≤◌, ◌<◌, ◌≡◌, refl, sym, ap, ◌∙◌, ◌≢◌, inl, inr, Bool, true, false, not, ◌&&◌,
  ◌||◌, some, List, [], ◌∷◌, arith, ltb, ltb→lt, Bool-cases, length, take, length-take, take_whole,
  text_eq, text_eq_refl,
}
use mathlib.Core.Path.{subst}
use traicr.Store.Table.{
  exists, delete_where, delete_where_absorb, delete_where_none, length-delete_where_some,
}
use traicr.Store.Db.{Db, SourceObject}
use traicr.Store.Revisions.{object_path}
use traicr.Store.Import.{World}
use traicr.Prelude.{Option, none, if◌then◌else◌}
use traicr.Store.Maintenance.{is_unused, unused_objects, next_batch, batch_size}

-- What stays of the rows, and of the files by the rows that stay.
abbrev pub used_rows : Db → List SourceObject
used_rows db = delete_where (is_unused db) db.source_objects

-- A state that is reached from another by removing unused rows.
pub record IsReduced (a b : World) : Type 0 where
  pub refers : b.db.revision_objects ≡ a.db.revision_objects
  pub rows : delete_where (is_unused a.db) b.db.source_objects ≡ used_rows a.db
  pub rest : record b.db { source_objects = [] } ≡ record a.db { source_objects = [] }
  pub running : b.running_import ≡ a.running_import

unfoldable pub step : SourceObject → World → World
step o w = record w {
  objects = delete_where (λ f. text_eq (object_path f.0) o.path) w.objects;
  db = record w.db {
    source_objects =
        delete_where (λ s. text_eq s.digest o.digest && is_unused w.db s) w.db.source_objects;
  };
}

-- A batch and the batches where the disk makes no errors.
unfoldable pub clear_unused : List SourceObject → World → World
clear_unused [] w = w
clear_unused (o ∷ batch) w = clear_unused batch (step o w)

unfoldable pub clear_batches : ℕ → World → Option World
clear_batches zero w = none
clear_batches (suc rounds) w =
    let w' = clear_unused (next_batch w.db) w in
    let rest = clear_batches rounds w' in
    if ltb (length (next_batch w.db)) batch_size then some w' else rest

IsReduced-step : (o : SourceObject) (w : World) → IsReduced w (step o w)
unfolding step is_unused
IsReduced-step o w = record {
  refers = refl;
  rows =
      delete_where_absorb (is_unused w.db) (λ s. text_eq s.digest o.digest && is_unused w.db s)
        w.db.source_objects (λ x h. ground arith);
  rest = refl;
  running = refl;
}

-- Whether a row is unused depends on the references only.
pub unused_same :
    (a b : Db) (s : SourceObject)
    → b.revision_objects ≡ a.revision_objects
    → is_unused b s ≡ is_unused a s
unfolding is_unused
unused_same a b s e = ap (λ rows. not (exists (λ r. text_eq r.object_digest s.digest) rows)) e

pub delete_where_ext :
    {A : Type 0} (p q : A → Bool) (xs : List A)
    → ((x : A) → p x ≡ q x)
    → delete_where p xs ≡ delete_where q xs
unfolding delete_where
delete_where_ext p q [] h = refl
delete_where_ext p q (x ∷ xs) h = ground (arith, h x, delete_where_ext p q xs h)

pub IsReduced-trans : (a b c : World) → IsReduced a b → IsReduced b c → IsReduced a c
IsReduced-trans a b c f g = record {
  refers = g.refers ∙ f.refers;
  rows =
      let same = λ (xs : List SourceObject).
        delete_where_ext (is_unused a.db) (is_unused b.db) xs
          (λ s. sym (unused_same a.db b.db s f.refers)) in
      same c.db.source_objects ∙ g.rows ∙ sym (same b.db.source_objects) ∙ f.rows;
  rest = g.rest ∙ f.rest;
  running = g.running ∙ f.running;
}

pub clear_unused-IsReduced :
    (batch : List SourceObject) (w : World) → IsReduced w (clear_unused batch w)
unfolding clear_unused step
clear_unused-IsReduced [] w = record { refers = refl; rows = refl; rest = refl; running = refl }
clear_unused-IsReduced (o ∷ batch) w =
    IsReduced-trans w (step o w) (clear_unused batch (step o w)) (IsReduced-step o w)
      (clear_unused-IsReduced batch (step o w))

pub true-ne : true ≢ false
true-ne h = cc

none_false : (xs : List SourceObject) → exists (λ s. false) xs ≡ false
unfolding exists
none_false [] = refl
none_false (x ∷ xs) = none_false xs

first_same : (x y : SourceObject) (xs ys : List SourceObject) → x ∷ xs ≡ y ∷ ys → x ≡ y
first_same x y xs ys h = cc

unfoldable in_batch : List SourceObject → SourceObject → Bool
in_batch batch s = exists (λ b. text_eq s.digest b.digest) batch

delete_where_merge :
    {A : Type 0} (p q : A → Bool) (xs : List A)
    → delete_where p (delete_where q xs) ≡ delete_where (λ x. q x || p x) xs
unfolding delete_where
delete_where_merge p q [] = refl
delete_where_merge p q (x ∷ xs) = ground (arith, delete_where_merge p q xs)

clear_unused-rows :
    (batch : List SourceObject) (w : World)
    → (clear_unused batch w).db.source_objects
      ≡ delete_where (λ s. in_batch batch s && is_unused w.db s) w.db.source_objects
unfolding clear_unused in_batch exists step
clear_unused-rows [] w =
    sym (delete_where_none (λ s. false) w.db.source_objects (none_false w.db.source_objects))
clear_unused-rows (o ∷ batch) w =
    clear_unused-rows batch (step o w)
    ∙ delete_where_ext (λ s. in_batch batch s && is_unused (step o w).db s)
        (λ s. in_batch batch s && is_unused w.db s) (step o w).db.source_objects
        (λ s. ap (λ u. in_batch batch s && u) (unused_same w.db (step o w).db s refl))
    ∙ delete_where_merge (λ s. in_batch batch s && is_unused w.db s)
        (λ s. text_eq s.digest o.digest && is_unused w.db s) w.db.source_objects
    ∙ delete_where_ext
        (λ s. text_eq s.digest o.digest && is_unused w.db s || in_batch batch s && is_unused w.db s)
        (λ s. in_batch (o ∷ batch) s && is_unused w.db s) w.db.source_objects (λ s. ground arith)

exists_more :
    (p q : SourceObject → Bool) (xs : List SourceObject)
    → ((s : SourceObject) → p s ≡ true → q s ≡ true)
    → exists p xs ≡ true
    → exists q xs ≡ true
unfolding exists
exists_more p q [] h e = e
exists_more p q (x ∷ xs) h e = ground (arith, h x, exists_more p q xs h)

-- A batch of all unused rows.
covers :
    (db : Db) (batch xs : List SourceObject)
    → ((s : SourceObject) → in_batch (unused_objects db xs) s ≡ true → in_batch batch s ≡ true)
    → delete_where (λ s. in_batch batch s && is_unused db s) xs ≡ delete_where (is_unused db) xs
unfolding delete_where unused_objects in_batch exists
covers db batch [] h = refl
covers db batch (x ∷ xs) h = elim (Bool-cases (is_unused db x)) [
  | inl t ↦
      let own : in_batch batch x ≡ true = h x (rw t (rw (text_eq_refl x.digest) refl)) in
      rw (t, own) (covers db batch xs (λ s k. h s (rw t (ground arith))))
  | inr f ↦ rw f (ground (arith, covers db batch xs (λ s k. h s (rw f k))))
]

first_unused :
    (db : Db) (o : SourceObject) (rest xs : List SourceObject)
    → unused_objects db xs ≡ o ∷ rest
    → exists (λ s. text_eq s.digest o.digest && is_unused db s) xs ≡ true
unfolding unused_objects exists
first_unused db o rest [] h = cc
first_unused db o rest (x ∷ xs) h = elim (Bool-cases (is_unused db x)) [
  | inl t ↦
      let same : x ≡ o = first_same x o (unused_objects db xs) rest (rw t at h) in
      rw t (rw same (rw (text_eq_refl o.digest) refl))
  | inr f ↦ rw f (ground (arith, first_unused db o rest xs (rw f at h)))
]

-- A batch that is not full held every unused row.
last_batch :
    (w : World)
    → ltb (length (next_batch w.db)) batch_size ≡ true
    → (clear_unused (next_batch w.db) w).db.source_objects ≡ used_rows w.db
last_batch w few =
    let all = unused_objects w.db w.db.source_objects in
    let short : length all ≤ batch_size =
      omega (arith, ltb→lt (length (next_batch w.db)) batch_size few, length-take batch_size all) in
    clear_unused-rows (next_batch w.db) w
    ∙ covers w.db (next_batch w.db) w.db.source_objects
        (λ s k. subst (λ b. in_batch b s ≡ true) (sym (take_whole batch_size all short)) k)

full_batch_of :
    (w : World) (all : List SourceObject)
    → unused_objects w.db w.db.source_objects ≡ all
    → ltb (length (take batch_size all)) batch_size ≡ false
    → length (clear_unused (take batch_size all) w).db.source_objects < length w.db.source_objects
unfolding in_batch exists
full_batch_of w [] e full = absurd (ground arith)
full_batch_of w (o ∷ rest) e full =
    let own = first_unused w.db o rest w.db.source_objects e in
    let test = λ (s : SourceObject). in_batch (take batch_size (o ∷ rest)) s && is_unused w.db s in
    let some_row : exists test w.db.source_objects ≡ true =
      exists_more (λ s. text_eq s.digest o.digest && is_unused w.db s) test w.db.source_objects
        (λ s k. ground arith) own in
    rw (clear_unused-rows (take batch_size (o ∷ rest)) w)
      (length-delete_where_some test w.db.source_objects some_row)

-- A full batch removes a row.
full_batch :
    (w : World)
    → ltb (length (next_batch w.db)) batch_size ≡ false
    → length (clear_unused (next_batch w.db) w).db.source_objects < length w.db.source_objects
full_batch w full = full_batch_of w (unused_objects w.db w.db.source_objects) refl full

module _ (w0 : World) where
  pub clear_batches-rows :
      (rounds : ℕ) (w w' : World)
      → IsReduced w0 w
      → clear_batches rounds w ≡ some w'
      → IsReduced w0 w' × (w'.db.source_objects ≡ used_rows w0.db)
  unfolding clear_batches
  clear_batches-rows zero w w' r h = cc
  clear_batches-rows (suc rounds) w w' r h =
      let next = clear_unused (next_batch w.db) w in
      let reduced = IsReduced-trans w0 w next r (clear_unused-IsReduced (next_batch w.db) w) in
      elim (Bool-cases (ltb (length (next_batch w.db)) batch_size)) [
        | inl few ↦
            let same : next ≡ w' = ground arith in
            let rows : next.db.source_objects ≡ used_rows w0.db =
              last_batch w few
              ∙ delete_where_ext (is_unused w.db) (is_unused w0.db) w.db.source_objects
                  (λ s. unused_same w0.db w.db s r.refers)
              ∙ r.rows in
            subst (λ x. IsReduced w0 x × (x.db.source_objects ≡ used_rows w0.db)) same
              (reduced, rows)
        | inr full ↦ clear_batches-rows rounds next w' reduced (ground arith)
      ]

pub clear_batches_end :
    (rounds : ℕ) (w : World)
    → length w.db.source_objects < rounds
    → (w' : World) × (clear_batches rounds w ≡ some w')
unfolding clear_batches
clear_batches_end zero w h = absurd (omega arith)
clear_batches_end (suc rounds) w h =
    let next = clear_unused (next_batch w.db) w in
    elim (Bool-cases (ltb (length (next_batch w.db)) batch_size)) [
      | inl few ↦ (next, rw few refl)
      | inr full ↦
          let (w', e) = clear_batches_end rounds next (omega (arith, full_batch w full, h)) in
          (w', rw full e)
    ]
