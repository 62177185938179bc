-- ===== src/Store/Transcript/Cache.antt =====
-- The cache of transcript orders.
use traicr.Prelude.{
  ℕ, ◌+◌, ◌≤◌, ◌≡◌, refl, sym, ap, ◌∙◌, inl, inr, true, some, List, [], ◌∷◌, arith, ◌==◌,
  Bool-cases, Option-cases, length, length-append, All,
}
use traicr.Store.Db.{Db}
use traicr.Store.Transcript.{
  OrderKey, Orders, Outside, order_capacity, key_eq, find_order, get_order, delete_order, evict,
  put_order, transcript_order,
}

key_eq_lem : (a b : OrderKey) → key_eq a b ≡ true → a ≡ b
unfolding key_eq
key_eq_lem a b h =
    let trace : a.trace ≡ b.trace = ground arith in
    let revision : a.revision ≡ b.revision = ground arith in
    let generation : a.generation ≡ b.generation = ground arith in
    ap (λ n. record a { trace = n }) trace
    ∙ ap (λ n. record b { revision = n; generation = a.generation }) revision
    ∙ ap (λ n. record b { generation = n }) generation

module _ (out : Outside) (db : Db) where
  -- What the cache has is what the query gives, and it has no more keys than its capacity.
  pub record IsCoherent (orders : Orders) : Type 0 where
    pub bounded : length orders.keys ≤ order_capacity
    pub same : All (λ i. i.1 ≡ out.order i.0 db) orders.items

  find_order_lem :
      (key : OrderKey) (items : List (OrderKey × List ℕ)) (ids : List ℕ)
      → All (λ i. i.1 ≡ out.order i.0 db) items
      → find_order key items ≡ some ids
      → ids ≡ out.order key db
  unfolding find_order
  find_order_lem key [] ids a h = cc
  find_order_lem key ((k, found) ∷ items) ids a h = elim (Bool-cases (key_eq k key)) [
    | inl own ↦
        let got : found ≡ ids = ground arith in
        sym got ∙ a.0 ∙ ap (λ x. out.order x db) (key_eq_lem k key own)
    | inr other ↦ find_order_lem key items ids a.1 (rw (find_order, other) at h)
  ]

  delete_order-All :
      (key : OrderKey) (items : List (OrderKey × List ℕ))
      → All (λ i. i.1 ≡ out.order i.0 db) items
      → All (λ i. i.1 ≡ out.order i.0 db) (delete_order key items)
  unfolding delete_order
  delete_order-All key [] a = tt
  delete_order-All key ((k, ids) ∷ items) a = elim (Bool-cases (key_eq k key)) [
    | inl own ↦ rw (delete_order, own) (delete_order-All key items a.1)
    | inr other ↦ rw (delete_order, other) (a.0, delete_order-All key items a.1)
  ]

  evict_lem :
      (orders : Orders)
      → IsCoherent orders
      → (length (evict orders).keys + 1 ≤ order_capacity)
        × All (λ i. i.1 ≡ out.order i.0 db) (evict orders).items
  evict_lem orders c = evict_of orders.keys orders.items c.bounded c.same
    where
      evict_of :
          (keys : List OrderKey) (items : List (OrderKey × List ℕ))
          → length keys ≤ order_capacity
          → All (λ i. i.1 ≡ out.order i.0 db) items
          → (length (evict (record { keys = keys; items = items })).keys + 1 ≤ order_capacity)
            × All
                (λ i. i.1 ≡ out.order i.0 db)
                (evict (record { keys = keys; items = items })).items
      evict_of [] items h a = unfold evict in (omega arith, a)
      evict_of (oldest ∷ keys) items h a =
          elim (Bool-cases (length (oldest ∷ keys) == order_capacity)) [
            | inl full ↦ unfold evict in (rw full (ground arith, delete_order-All oldest items a))
            | inr room ↦ unfold evict in (rw room (ground arith, a))
          ]

  put_order-IsCoherent :
      (key : OrderKey) (ids : List ℕ) (orders : Orders)
      → IsCoherent orders
      → ids ≡ out.order key db
      → IsCoherent (put_order key ids orders)
  unfolding put_order
  put_order-IsCoherent key ids orders c h = elim (Option-cases (find_order key orders.items)) [
    | inr (known, found) ↦ rw (put_order, found) c
    | inl missing ↦
        let (room, same) = evict_lem orders c in
        rw (put_order, missing)
          (record {
            bounded = omega (arith, room, length-append (evict orders).keys (key ∷ []));
            same = (h, same);
          })
  ]

  -- With the cache the order is that of the query, and the cache stays coherent.
  pub transcript_order-IsCoherent :
      (key : OrderKey) (orders : Orders)
      → IsCoherent orders
      → ((transcript_order out key db orders).0 ≡ out.order key db)
        × IsCoherent (transcript_order out key db orders).1
  unfolding transcript_order get_order
  transcript_order-IsCoherent key orders c = elim (Option-cases (find_order key orders.items)) [
    | inr (ids, found) ↦
        rw (transcript_order, get_order, found)
          (find_order_lem key orders.items ids c.same found, c)
    | inl missing ↦
        rw (transcript_order, get_order, missing)
          (refl, put_order-IsCoherent key (out.order key db) orders c refl)
  ]
