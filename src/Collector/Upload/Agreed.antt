-- ===== src/Collector/Upload/Agreed.antt =====
-- The server's report of an import and the collector's check of it: `Import` and `validateOutcomes`.
use traicr.Prelude.{
  suc, ◌+◌, ◌≡◌, refl, sym, ap, ◌∙◌, inl, inr, true, false, Option, some, List, [], ◌∷◌, arith,
  ◌==◌, Bool-cases, length, Member, here, there, All, Text, text_eq, text_eq_iff, text_eq_refl, ok,
}
use mathlib.Core.Path.{subst, subst₂}
use traicr.Prelude.Keys.{lookup, contains, keys, Distinct, nil, more, Member→contains}
use traicr.Domain.{Descriptor, Manifest, TraceOutcome, ImportReport}
use traicr.Store.Import.{
  Files, Program, World, status_failed, status_imported, status_updated, status_unchanged,
  status_partially_parsed, status_unsupported,
}
use traicr.Store.Import.Loop.{run_import}
use traicr.Store.Import.Loop.Outcomes.{
  count_status, IsCounted, outcome_names, names_of, outcome_name, name_of,
}
use traicr.Store.Import.Loop.Counts.{run_import-IsCounted}
use traicr.Collector.{state_key}
use traicr.Collector.Upload.{
  Tally, expected_digests, map_size, tally_at, tally, is_outcome_status, has_digest, outcome_key,
  check_outcomes, totals_match, validate_outcomes,
}
use traicr.Collector.Upload.Outcomes.{count_status_sum}
use traicr.Collector.Upload.Checked.{check_outcomes_lem, outcome_keys, descriptor_keys}
use traicr.Collector.Upload.Statuses.{HasKnownStatuses, run_import_known}

lookup_other :
    (k : Text) (ds : List Descriptor) (m : List (Text × Text))
    → contains k (descriptor_keys ds) ≡ false
    → lookup k (expected_digests ds m) ≡ lookup k m
unfolding expected_digests lookup contains
lookup_other k [] m h = refl
lookup_other k (d ∷ ds) m h =
    ground
      (arith, lookup_other k ds ((state_key d.harness d.native_trace_id, d.revision_digest) ∷ m))

lookup_first :
    (d : Descriptor) (ds : List Descriptor) (m : List (Text × Text))
    → contains (state_key d.harness d.native_trace_id) (descriptor_keys ds) ≡ false
    → lookup (state_key d.harness d.native_trace_id) (expected_digests (d ∷ ds) m)
      ≡ some d.revision_digest
unfolding expected_digests
lookup_first d ds m h =
    lookup_other (state_key d.harness d.native_trace_id) ds _ h
    ∙ (unfold lookup in (rw (text_eq_refl (state_key d.harness d.native_trace_id)) refl))

has_digest_at :
    (expected : List (Text × Text)) (k v w : Text)
    → lookup k expected ≡ some v
    → w ≡ v
    → has_digest expected k w ≡ true
unfolding has_digest
has_digest_at expected k v w h e = rw (has_digest, h) ((text_eq_iff v w).1 (sym e))

-- The outcomes carry the names of these descriptors, whose digests are expected.
expected_all :
    (expected : List (Text × Text)) (ds : List Descriptor) (os : List TraceOutcome)
    → All (λ d. lookup (state_key d.harness d.native_trace_id) expected ≡ some d.revision_digest) ds
    → outcome_names os ≡ names_of ds
    → All (λ o. has_digest expected (outcome_key o) o.revision_digest ≡ true) os
      × (outcome_keys os ≡ descriptor_keys ds)
unfolding outcome_names names_of outcome_name name_of outcome_key
expected_all expected [] [] a h = (tt, refl)
expected_all expected [] (o ∷ os) a h = cc
expected_all expected (d ∷ ds) [] a h = cc
expected_all expected (d ∷ ds) (o ∷ os) a h =
    let harness : o.harness ≡ d.harness = cc in
    let native : o.native_trace_id ≡ d.native_trace_id = cc in
    let digest : o.revision_digest ≡ d.revision_digest = cc in
    let rest : outcome_names os ≡ names_of ds = cc in
    let (later, keys_rest) = expected_all expected ds os a.1 rest in
    let key : outcome_key o ≡ state_key d.harness d.native_trace_id = cc in
    let found = subst (λ k. lookup k expected ≡ some d.revision_digest) (sym key) a.0 in
    (
      (
        has_digest_at expected (outcome_key o) d.revision_digest o.revision_digest found digest,
        later,
      ),
      subst₂ (λ x y. x ∷ y ≡ state_key d.harness d.native_trace_id ∷ descriptor_keys ds) (sym key)
          (sym keys_rest) refl,
    )

-- With no key twice every digest is found, and the map is as large as the list.
lookup_all :
    (ds : List Descriptor) (m : List (Text × Text))
    → Distinct (descriptor_keys ds)
    → All
        (λ d.
          lookup (state_key d.harness d.native_trace_id) (expected_digests ds m)
          ≡ some d.revision_digest)
        ds
unfolding expected_digests
lookup_all [] m apart = tt
lookup_all (d ∷ ds) m (more fresh apart) = (
  lookup_first d ds m fresh,
  lookup_all ds ((state_key d.harness d.native_trace_id, d.revision_digest) ∷ m) apart,
)

size_all :
    (ds : List Descriptor) (m : List (Text × Text))
    → Distinct (descriptor_keys ds)
    → ((k : Text) → Member k (descriptor_keys ds) → contains k (keys m) ≡ false)
    → map_size (expected_digests ds m) ≡ length ds + map_size m
unfolding expected_digests
size_all [] m apart new = omega arith
size_all (d ∷ ds) m (more fresh apart) new =
    let key = state_key d.harness d.native_trace_id in
    let m' : List (Text × Text) = (key, d.revision_digest) ∷ m in
    let first : map_size m' ≡ suc (map_size m) =
      unfold map_size in (rw (new key (here refl)) (omega arith)) in
    omega (
      arith,
      first,
      size_all ds m' apart (λ k at. elim (Bool-cases (text_eq key k)) [
        | inl same ↦ absurd (
            ground (
              arith,
              Member→contains (
                  subst (λ x. Member x (descriptor_keys ds)) (sym ((text_eq_iff key k).0 same)) at),
            ))
        | inr other ↦ unfold contains in (rw (other, new k (there at)) refl)
      ]),
    )

-- The loop accepts outcomes that are expected, distinct and known.
check_outcomes_ok :
    (expected : List (Text × Text)) (os : List TraceOutcome) (seen : List Text) (counts : Tally)
    → All (λ o. has_digest expected (outcome_key o) o.revision_digest ≡ true) os
    → All (λ o. is_outcome_status o.status ≡ true) os
    → Distinct (outcome_keys os)
    → ((k : Text) → Member k (outcome_keys os) → contains k seen ≡ false)
    → (r : List Text × Tally) × (check_outcomes expected os seen counts ≡ ok r)
unfolding check_outcomes
check_outcomes_ok expected [] seen counts a known apart new = ((seen, counts), refl)
check_outcomes_ok expected (o ∷ os) seen counts a known (more fresh apart) new =
    let key = outcome_key o in
    let (r, rest) =
      check_outcomes_ok expected os (key ∷ seen) (tally o.status counts) a.1 known.1 apart (λ k at.
        elim (Bool-cases (text_eq key k)) [
          | inl same ↦ absurd (
              ground (
                arith,
                Member→contains
                    (subst (λ x. Member x (outcome_keys os)) (sym ((text_eq_iff key k).0 same)) at),
              ))
          | inr other ↦ unfold contains in (rw (other, new k (there at)) refl)
        ]) in
    (r, rw (a.0, new key (here refl), known.0) rest)

totals_ok :
    (r : ImportReport) (counts : Tally)
    → IsCounted r
    → All (λ o. is_outcome_status o.status ≡ true) r.traces
    → ((s : Text) → tally_at s counts ≡ count_status s r.traces + tally_at s [])
    → totals_match counts r ≡ true
unfolding totals_match
totals_ok r counts c known counted =
    let zero_before : (s : Text) → tally_at s [] ≡ 0 = λ s. unfold tally_at lookup in refl in
    let at : (s : Text) → tally_at s counts ≡ count_status s r.traces =
      λ s. omega (arith, counted s, zero_before s) in
    let sum = count_status_sum r.traces known in
    let failed : r.failed ≡ count_status status_failed r.traces =
      omega (arith, sum, c.imported, c.updated, c.unchanged, c.partial, c.unsupported, c.total) in
    ground (
      arith,
      at status_imported,
      at status_updated,
      at status_unchanged,
      at status_partially_parsed,
      at status_unsupported,
      at status_failed,
      c.imported,
      c.updated,
      c.unchanged,
      c.partial,
      c.unsupported,
      failed,
    )

length-names :
    (ds : List Descriptor) (os : List TraceOutcome)
    → outcome_keys os ≡ descriptor_keys ds
    → length os ≡ length ds
length-names [] [] h = refl
length-names [] (o ∷ os) h = cc
length-names (d ∷ ds) [] h = cc
length-names (d ∷ ds) (o ∷ os) h =
    let rest : outcome_keys os ≡ descriptor_keys ds = cc in ap suc (length-names ds os rest)

agreed :
    (ds : List Descriptor) (r : ImportReport)
    → Distinct (descriptor_keys ds)
    → outcome_names r.traces ≡ names_of ds
    → IsCounted r
    → All (λ o. is_outcome_status o.status ≡ true) r.traces
    → validate_outcomes r ds ≡ ok tt
unfolding validate_outcomes
agreed ds r apart names c known =
    let (given, same) =
      expected_all (expected_digests ds []) ds r.traces (lookup_all ds [] apart) names in
    let apart' = subst Distinct (sym same) apart in
    let ((seen, counts), looped) =
      check_outcomes_ok (expected_digests ds []) r.traces [] [] given known apart'
        (λ k at. unfold contains in refl) in
    let (_, _, size, counted, _, _, _) =
      check_outcomes_lem ds r.traces [] seen [] counts nil looped in
    let whole = size_all ds [] apart (λ k at. unfold contains in refl) in
    let none_before : map_size {A = Text} [] ≡ 0 = unfold map_size in refl in
    let all : (length seen == map_size (expected_digests ds [])) ≡ true =
      ground (arith, size, whole, none_before, length-names ds r.traces same) in
    rw (looped, all, totals_ok r counts c known counted) refl

-- Where no two traces of a manifest have the same name and the normalizers give their own statuses, the
-- collector's check accepts the report of every import of the manifest that returns.
pub run_import-validate_outcomes :
    (p : Program) (good : HasKnownStatuses p) (m : Manifest) (sources : Text → Option Files)
    (w w' : World) (r : ImportReport)
    → Distinct (descriptor_keys m.traces)
    → run_import p m sources w ≡ ok (r, w')
    → validate_outcomes r m.traces ≡ ok tt
run_import-validate_outcomes p good m sources w w' r apart h =
    let (c, names, _, _) = run_import-IsCounted p m sources w w' r h in
    agreed m.traces r apart names c (run_import_known p good m sources w w' r h)
