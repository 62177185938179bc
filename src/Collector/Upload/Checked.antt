-- ===== src/Collector/Upload/Checked.antt =====
-- What the loop of `validateOutcomes` over the outcomes accepts, and what it counts.
use traicr.Prelude.{
  ◌+◌, ◌≡◌, refl, sym, ◌∙◌, ◌⊎◌, inl, inr, true, false, not, some, List, [], ◌∷◌, arith,
  if◌then◌else◌, Bool-cases, Option-cases, length, Member, here, there, All, Text, text_eq,
  text_eq_iff, text_eq_refl, ok, ok-injective, bind-eq-ok, refuse_if, refuse_if-eq-ok,
}
use mathlib.Core.Path.{subst}
use traicr.Prelude.Keys.{contains→Member, lookup, contains, Distinct, nil, more}
use traicr.Domain.{Descriptor, TraceOutcome}
use traicr.Collector.{state_key}
use traicr.Store.Import.Loop.Outcomes.{count_status}
use traicr.Collector.Upload.{
  Tally, expected_digests, tally_at, tally, is_outcome_status, has_digest, outcome_key,
  check_outcomes, unknown_revision, repeated_trace, unknown_status,
}

-- The outcome is for this descriptor.
pub record IsOutcomeOf (d : Descriptor) (o : TraceOutcome) : Type 0 where
  pub key : outcome_key o ≡ state_key d.harness d.native_trace_id
  pub digest : o.revision_digest ≡ d.revision_digest

abbrev pub outcome_keys : List TraceOutcome → List Text
outcome_keys [] = []
outcome_keys (o ∷ os) = outcome_key o ∷ outcome_keys os

abbrev pub descriptor_keys : List Descriptor → List Text
descriptor_keys [] = []
descriptor_keys (d ∷ ds) = state_key d.harness d.native_trace_id ∷ descriptor_keys ds

-- What is looked up among the expected digests is of a descriptor, or stood there before.
expected_digests_lem :
    (key : Text) (ds : List Descriptor) (m : List (Text × Text)) (v : Text)
    → lookup key (expected_digests ds m) ≡ some v
    → ((d : Descriptor) × Member d ds
        × (state_key d.harness d.native_trace_id ≡ key)
        × (d.revision_digest ≡ v))
      ⊎ (lookup key m ≡ some v)
unfolding expected_digests
expected_digests_lem key [] m v h = inr h
expected_digests_lem key (d ∷ ds) m v h =
    elim (expected_digests_lem key ds
      ((state_key d.harness d.native_trace_id, d.revision_digest) ∷ m) v h) [
        | inl (e, at, k, g) ↦ inl (e, there at, k, g)
        | inr found ↦ elim (Bool-cases (text_eq (state_key d.harness d.native_trace_id) key)) [
          | inl same ↦
              inl (d, here refl, (text_eq_iff _ key).0 same, unfold lookup in (ground arith))
          | inr other ↦ inr (unfold lookup in (ground arith))
        ]
      ]

-- The counts that the loop keeps are those of the outcomes.
tally_same : (s : Text) (counts : Tally) → tally_at s (tally s counts) ≡ 1 + tally_at s counts
unfolding tally tally_at lookup
tally_same s counts = ground (arith, text_eq_refl s)

tally_lem :
    (s status : Text) (counts : Tally)
    → tally_at s (tally status counts) ≡ (if text_eq status s then 1 else 0) + tally_at s counts
tally_lem s status counts = elim (Bool-cases (text_eq status s)) [
  | inl same ↦ rw (same, sym ((text_eq_iff status s).0 same)) (tally_same status counts)
  | inr other ↦ rw other (unfold tally tally_at lookup in (ground arith))
]

-- What the loop over the outcomes accepts.
pub record IsChecked (ds : List Descriptor) (os : List TraceOutcome) : Type 0 where
  pub described : All (λ o. (d : Descriptor) × Member d ds × IsOutcomeOf d o) os
  pub known : All (λ o. is_outcome_status o.status ≡ true) os

has_digest_lem :
    (ds : List Descriptor) (o : TraceOutcome)
    → has_digest (expected_digests ds []) (outcome_key o) o.revision_digest ≡ true
    → (d : Descriptor) × Member d ds × IsOutcomeOf d o
unfolding has_digest
has_digest_lem ds o h = elim (Option-cases (lookup (outcome_key o) (expected_digests ds []))) [
  | inl missing ↦ absurd (ground arith)
  | inr (v, found) ↦ elim (expected_digests_lem (outcome_key o) ds [] v found) [
    | inr none_there ↦ absurd (unfold lookup in (ground arith))
    | inl (d, at, k, g) ↦
        let equal : v ≡ o.revision_digest = (text_eq_iff v o.revision_digest).0 (ground arith) in
        (d, at, record { key = sym k; digest = sym (g ∙ equal) })
  ]
]

contains_tail : (k x : Text) (xs : List Text) → contains k (x ∷ xs) ≡ false → contains k xs ≡ false
unfolding contains
contains_tail k x xs h = ground arith

fresh_key :
    (x : Text) (ks xs : List Text)
    → ((k : Text) → Member k ks → contains k (x ∷ xs) ≡ false)
    → contains x ks ≡ false
fresh_key x ks xs h = elim (Bool-cases (contains x ks)) [
  | inl e ↦
      absurd (unfold contains in (ground (arith, h x (contains→Member x ks e), text_eq_refl x)))
  | inr e ↦ e
]

-- What the loop leaves in `seen` and in the counts.
pub check_outcomes_lem :
    (ds : List Descriptor) (os : List TraceOutcome) (seen seen' : List Text)
    (counts counts' : Tally)
    → Distinct seen
    → check_outcomes (expected_digests ds []) os seen counts ≡ ok (seen', counts')
    → IsChecked ds os
      × Distinct seen'
      × (length seen' ≡ length os + length seen)
      × ((s : Text) → tally_at s counts' ≡ count_status s os + tally_at s counts)
      × ((k : Text) → Member k seen' → Member k (outcome_keys os) ⊎ Member k seen)
      × Distinct (outcome_keys os)
      × ((k : Text) → Member k (outcome_keys os) → contains k seen ≡ false)
unfolding check_outcomes count_status
check_outcomes_lem ds [] seen seen' counts counts' apart h =
    let same = ok-injective h in
    subst
      (λ x.
        IsChecked ds []
        × Distinct x.0
        × (length x.0 ≡ 0 + length seen)
        × ((s : Text) → tally_at s x.1 ≡ 0 + tally_at s counts)
        × ((k : Text) → Member k x.0 → Member k [] ⊎ Member k seen)
        × Distinct []
        × ((k : Text) → Member k [] → contains k seen ≡ false))
      same
      (
        record { described = tt; known = tt },
        apart,
        omega arith,
        λ s. omega arith,
        λ k m. inr m,
        nil,
        λ k m. elim m [ ],
      )
check_outcomes_lem ds (o ∷ os) seen seen' counts counts' apart h =
    let (_, revised, h1) =
      bind-eq-ok
        (refuse_if (not (has_digest (expected_digests ds []) (outcome_key o) o.revision_digest))
          unknown_revision)
        _ h in
    let (_, fresh, h2) =
      bind-eq-ok (refuse_if (contains (outcome_key o) seen) repeated_trace) _ h1 in
    let (_, named, h3) =
      bind-eq-ok (refuse_if (not (is_outcome_status o.status)) unknown_status) _ h2 in
    let revised' = refuse_if-eq-ok _ unknown_revision revised in
    let known' = refuse_if-eq-ok _ unknown_status named in
    let unseen = refuse_if-eq-ok (contains (outcome_key o) seen) repeated_trace fresh in
    let (c, apart', size, counted, members, once, later) =
      check_outcomes_lem ds os (outcome_key o ∷ seen) seen' (tally o.status counts) counts'
        (more unseen apart) h3 in
    let described : has_digest (expected_digests ds []) (outcome_key o) o.revision_digest ≡ true =
      ground arith in
    let known : is_outcome_status o.status ≡ true = ground arith in
    (
      record { described = (has_digest_lem ds o described, c.described); known = (known, c.known) },
      apart',
      omega (arith, size),
      λ s. omega (arith, counted s, tally_lem s o.status counts),
      λ k m. elim (members k m) [
        | inl later ↦ inl (there later)
        | inr (here e) ↦ inl (here e)
        | inr (there before) ↦ inr before
      ],
      more (fresh_key (outcome_key o) (outcome_keys os) seen later) once,
      λ k m. elim m [
        | here e ↦ rw e unseen
        | there m' ↦ contains_tail k (outcome_key o) seen (later k m')
      ],
    )
