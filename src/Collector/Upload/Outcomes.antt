-- ===== src/Collector/Upload/Outcomes.antt =====
-- What `validateOutcomes` makes sure of, and what `acknowledge` keeps.
use traicr.Prelude.{
  ℕ, ◌+◌, ◌≡◌, refl, sym, ap, ◌∙◌, inl, inr, true, not, List, [], ◌∷◌, arith, ◌==◌, if◌then◌else◌,
  Bool-cases, length, Member, here, there, All, Text, text_eq, text_eq_iff, ok, bind-eq-ok,
  refuse_if, refuse_if-eq-ok,
}
use mathlib.Core.Path.{subst}
use traicr.Prelude.Keys.{Distinct-covers, contains→Member, lookup, contains, keys, Distinct, nil}
use traicr.Domain.{Descriptor, TraceOutcome, ImportReport}
use traicr.Collector.{state_key}
use traicr.Store.Import.Loop.Outcomes.{count_status, IsCounted}
use traicr.Store.Import.{
  status_failed, status_imported, status_updated, status_unchanged, status_partially_parsed,
  status_unsupported,
}
use traicr.Collector.Upload.{
  Tally, expected_digests, map_size, tally_at, is_outcome_status, check_outcomes, totals_match,
  validate_outcomes, outcomes_missing, totals_differ,
}
use traicr.Collector.Upload.Checked.{
  IsOutcomeOf, outcome_keys, descriptor_keys, IsChecked, check_outcomes_lem,
}

-- `len(expected)` counts every descriptor's key, as long as no key is put in twice.
expected_digests-Member :
    (ds : List Descriptor) (m : List (Text × Text)) (k : Text)
    → Member k (keys m)
    → Member k (keys (expected_digests ds m))
unfolding expected_digests
expected_digests-Member [] m k at = at
expected_digests-Member (d ∷ ds) m k at =
    expected_digests-Member ds ((state_key d.harness d.native_trace_id, d.revision_digest) ∷ m) k
      (there at)

expected_digests_has :
    (ds : List Descriptor) (m : List (Text × Text)) (k : Text)
    → Member k (descriptor_keys ds)
    → Member k (keys (expected_digests ds m))
unfolding expected_digests
expected_digests_has [] m k at = elim at [ ]
expected_digests_has (d ∷ ds) m k (here e) =
    expected_digests-Member ds ((state_key d.harness d.native_trace_id, d.revision_digest) ∷ m) k
      (here e)
expected_digests_has (d ∷ ds) m k (there at) =
    expected_digests_has ds ((state_key d.harness d.native_trace_id, d.revision_digest) ∷ m) k at

-- The keys of a map, each once.
map_keys : List (Text × Text) → List Text
map_keys [] = []
map_keys ((k, v) ∷ m) = let rest = map_keys m in if contains k (keys m) then rest else k ∷ rest

length-map_keys : (m : List (Text × Text)) → length (map_keys m) ≡ map_size m
unfolding map_keys map_size
length-map_keys [] = refl
length-map_keys ((k, v) ∷ m) = ground (arith, length-map_keys m)

Member-map_keys : (m : List (Text × Text)) (k : Text) → Member k (keys m) → Member k (map_keys m)
unfolding map_keys
Member-map_keys [] k at = at
Member-map_keys ((j, v) ∷ m) k at = elim (Bool-cases (contains j (keys m))) [
  | inl e ↦ rw e (elim at [
    | here same ↦
        Member-map_keys m k
          (subst (λ x. Member x (keys m)) (sym same) (contains→Member j (keys m) e))
    | there below ↦ Member-map_keys m k below
  ])
  | inr e ↦
      rw e (elim at [ here same ↦ here same | there below ↦ there (Member-map_keys m k below) ])
]

-- A known status is exactly one of the six.
abbrev six : Text → ℕ
six s =
    (if text_eq s status_imported then 1 else 0)
    + (if text_eq s status_updated then 1 else 0)
    + (if text_eq s status_unchanged then 1 else 0)
    + (if text_eq s status_partially_parsed then 1 else 0)
    + (if text_eq s status_unsupported then 1 else 0)
    + (if text_eq s status_failed then 1 else 0)

six_at : (s c : Text) → six c ≡ 1 → text_eq s c ≡ true → six s ≡ 1
six_at s c h e = subst (λ x. six x ≡ 1) (sym ((text_eq_iff s c).0 e)) h

six_known : (s : Text) → is_outcome_status s ≡ true → six s ≡ 1
unfolding is_outcome_status text_eq
six_known s h = elim (Bool-cases (text_eq s status_imported)) [
  | inl e ↦ six_at s status_imported refl e
  | inr a ↦ elim (Bool-cases (text_eq s status_updated)) [
    | inl e ↦ six_at s status_updated refl e
    | inr b ↦ elim (Bool-cases (text_eq s status_unchanged)) [
      | inl e ↦ six_at s status_unchanged refl e
      | inr c ↦ elim (Bool-cases (text_eq s status_partially_parsed)) [
        | inl e ↦ six_at s status_partially_parsed refl e
        | inr d ↦ elim (Bool-cases (text_eq s status_unsupported)) [
          | inl e ↦ six_at s status_unsupported refl e
          | inr f ↦ six_at s status_failed refl (rw (a, b, c, d, f) at h)
        ]
      ]
    ]
  ]
]

-- Known statuses add up.
pub count_status_sum :
    (os : List TraceOutcome)
    → All (λ o. is_outcome_status o.status ≡ true) os
    → count_status status_imported os
        + count_status status_updated os
        + count_status status_unchanged os
        + count_status status_partially_parsed os
        + count_status status_unsupported os
        + count_status status_failed os
      ≡ length os
unfolding count_status
count_status_sum [] k = omega arith
count_status_sum (o ∷ os) k = omega (arith, count_status_sum os k.1, six_known o.status k.0)

-- Every trace of the archive has one outcome, for its own revision; there are no others, and the totals are theirs.
pub record IsAnswered (ds : List Descriptor) (r : ImportReport) : Type 0 where
  pub described : All (λ o. (d : Descriptor) × Member d ds × IsOutcomeOf d o) r.traces
  pub once : Distinct (outcome_keys r.traces)
  pub complete : (k : Text) → Member k (descriptor_keys ds) → Member k (outcome_keys r.traces)
  pub known : All (λ o. is_outcome_status o.status ≡ true) r.traces
  pub counted : IsCounted r
  pub failed : r.failed ≡ count_status status_failed r.traces

described-Member :
    (ds : List Descriptor) (os : List TraceOutcome) (k : Text)
    → All (λ o. (d : Descriptor) × Member d ds × IsOutcomeOf d o) os
    → Member k (outcome_keys os)
    → Member k (descriptor_keys ds)
described-Member ds [] k a at = elim at [ ]
described-Member ds (o ∷ os) k a (here e) =
    let (d, at, of) = a.0 in
    subst (λ x. Member x (descriptor_keys ds)) (sym (e ∙ of.key)) (descriptor_key-Member ds d at)
  where
    descriptor_key-Member :
        (ds : List Descriptor) (d : Descriptor)
        → Member d ds
        → Member (state_key d.harness d.native_trace_id) (descriptor_keys ds)
    descriptor_key-Member [] d at = elim at [ ]
    descriptor_key-Member (x ∷ ds) d (here e) =
        here (ap (λ y. state_key y.harness y.native_trace_id) e)
    descriptor_key-Member (x ∷ ds) d (there at) = there (descriptor_key-Member ds d at)
described-Member ds (o ∷ os) k a (there at) = described-Member ds os k a.1 at

answered_totals :
    (ds : List Descriptor) (r : ImportReport) (counts : Tally)
    → IsChecked ds r.traces
    → ((s : Text) → tally_at s counts ≡ count_status s r.traces + tally_at s [])
    → totals_match counts r ≡ true
    → IsCounted r × (r.failed ≡ count_status status_failed r.traces)
unfolding totals_match
answered_totals ds r counts c counted h =
    let zero_before : (s : Text) → tally_at s [] ≡ 0 = λ s. unfold tally_at lookup in refl in
    let i : r.imported ≡ count_status status_imported r.traces =
      ground (arith, counted status_imported, zero_before status_imported) in
    let u : r.updated ≡ count_status status_updated r.traces =
      ground (arith, counted status_updated, zero_before status_updated) in
    let k : r.unchanged ≡ count_status status_unchanged r.traces =
      ground (arith, counted status_unchanged, zero_before status_unchanged) in
    let p : r.partial ≡ count_status status_partially_parsed r.traces =
      ground (arith, counted status_partially_parsed, zero_before status_partially_parsed) in
    let s : r.unsupported ≡ count_status status_unsupported r.traces =
      ground (arith, counted status_unsupported, zero_before status_unsupported) in
    let f : r.failed ≡ count_status status_failed r.traces =
      ground (arith, counted status_failed, zero_before status_failed) in
    (
      record {
        imported = i;
        updated = u;
        unchanged = k;
        partial = p;
        unsupported = s;
        total = omega (arith, count_status_sum r.traces c.known);
      },
      f,
    )

-- A report that `validateOutcomes` lets pass has exactly one outcome for each trace of the archive, each for the revision that the
-- archive holds, with a status that the collector knows, and the totals of the report are the numbers of outcomes with each status.
pub validate_outcomes-IsAnswered :
    (r : ImportReport) (ds : List Descriptor) → validate_outcomes r ds ≡ ok tt → IsAnswered ds r
unfolding validate_outcomes
validate_outcomes-IsAnswered r ds h =
    let ((seen, counts), looped, h1) =
      bind-eq-ok (check_outcomes (expected_digests ds []) r.traces [] []) _ h in
    let (_, all, totals) =
      bind-eq-ok
        (refuse_if (not (length seen == map_size (expected_digests ds []))) outcomes_missing) _
        h1 in
    let (c, apart, size, counted, members, once, _) =
      check_outcomes_lem ds r.traces [] seen [] counts nil looped in
    let same_size : length seen ≡ map_size (expected_digests ds []) =
      ground (arith, refuse_if-eq-ok _ outcomes_missing all) in
    let matched : totals_match counts r ≡ true =
      ground (arith, refuse_if-eq-ok _ totals_differ totals) in
    let (tallied, failed) = answered_totals ds r counts c counted matched in
    let ys = map_keys (expected_digests ds []) in
    let among : (k : Text) → Member k seen → Member k ys = λ k at. elim (members k at) [
      | inl of ↦
          Member-map_keys (expected_digests ds []) k
            (expected_digests_has ds [] k (described-Member ds r.traces k c.described of))
      | inr none_there ↦ elim none_there [ ]
    ] in
    let complete : (k : Text) → Member k (descriptor_keys ds) → Member k (outcome_keys r.traces) =
      λ k at.
        let found =
          Distinct-covers seen ys apart among
            (omega (arith, length-map_keys (expected_digests ds []))) k
            (Member-map_keys (expected_digests ds []) k (expected_digests_has ds [] k at)) in
        elim (members k (contains→Member k seen found)) [
          | inl of ↦ of
          | inr none_there ↦ elim none_there [ ]
        ] in
    record {
      described = c.described;
      once = once;
      complete = complete;
      known = c.known;
      counted = tallied;
      failed = failed;
    }
