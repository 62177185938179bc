-- ===== src/Collector/Collect/Complete.antt =====
-- A collection as a whole: what the loops of `Collect` end with.
use traicr.Prelude.{
  Member, All-members, ◌≡◌, refl, ap, ◌∙◌, ◌⊎◌, inl, inr, true, false, not, ◌&&◌, some, List, [],
  ◌∷◌, ◌++◌, arith, ◌==◌, Bool-cases, Option-cases, length, All, Text, text_eq, ok, err,
  ok-injective, Result-cases, bind-eq-ok,
}
use mathlib.Core.Path.{subst}
use traicr.Prelude.Keys.{contains, Distinct, nil}
use traicr.Domain.{Descriptor}
use traicr.Archive.Describe.{DescribeError, Input, describe}
use traicr.Collector.{CollectorConfig}
use traicr.Collector.Collect.{
  Adapter, Collecting, CollectOptions, Gathered, Local, Stamps, skip, warn, key_of, gather_inputs,
  keep_stamps, configured, gather, collect_adapters, all_found, collect_inputs, sort_inputs,
  source_stamps,
}
use traicr.Collector.Collect.Kept.{IsPending, IsGathered, LeftOut}
use traicr.Collector.Collect.Sorted.{
  input_keys, Sorted, sort_inputs-Sorted, sort_inputs-All, contains-sort, sort_inputs-Distinct,
}
use traicr.Collector.Collect.Met.{Grows, IsMet, Grows-IsMet, gather_inputs_lem}

-- An adapter of a selected harness gave the input.
abbrev pub IsGiven : Local → CollectorConfig → CollectOptions → Input → Type 0
IsGiven local config options input =
    (a : Adapter) × Member a local.adapters
    × (contains a.name options.harnesses ≡ true)
    × (stamps : Stamps) × (result : Gathered) × (a.collect (configured config options a.name)
          (skip config options stamps)
        ≡ some result)
    × Member input result.inputs

module _ (local : Local) (config : CollectorConfig) (options : CollectOptions) where
  -- The adapter was asked, and each of its traces that can be described has been met.
  record IsRead (st : Collecting) (a : Adapter) : Type 0 where
    pub stamps : Stamps
    pub result : Gathered
    pub asked :
        a.collect (configured config options a.name) (skip config options stamps) ≡ some result
    pub met : All (IsMet local.hash config options (IsGiven local config options) st) result.inputs

  kept-IsGathered :
      (st : Collecting)
      → IsGathered local.hash config options (IsGiven local config options) st
      → IsGathered local.hash config options
          (IsGiven local config options)
          (keep_stamps local options st)
        × ((keep_stamps local options st).collected ≡ st.collected)
  unfolding keep_stamps warn
  kept-IsGathered st g =
      elim (Bool-cases (
        not (text_eq options.config_dir [])
        && not (local.save_stamps options.config_dir st.stamps))) [
          | inl lost ↦
              rw (keep_stamps, lost)
                (
                  record { once = g.once; met = g.met; wanted = g.wanted; settled = g.settled },
                  refl,
                )
          | inr fine ↦ rw (keep_stamps, fine) (g, refl)
        ]

  gather_lem :
      (harness : Text) (result : Gathered) (st : Collecting)
      → All (IsGiven local config options) result.inputs
      → IsGathered local.hash config options (IsGiven local config options) st
      → IsGathered local.hash config options
          (IsGiven local config options)
          (gather local config options harness result st)
        × Grows local.hash config options
            (IsGiven local config options)
            st
            (gather local config options harness result st)
        × All
            (IsMet local.hash config options
              (IsGiven local config options)
              (gather local config options harness result st))
            result.inputs
  unfolding gather
  gather_lem harness result st given g =
      let begun : Collecting = record st { warnings = st.warnings ++ result.warnings } in
      let g0 : IsGathered local.hash config options (IsGiven local config options) begun = record {
        once = g.once;
        met = g.met;
        wanted = g.wanted;
        settled = g.settled;
      } in
      let (g1, grows, met) =
        gather_inputs_lem local.hash config options (IsGiven local config options) harness
          result.inputs begun given g0 in
      let (g2, same) =
        kept-IsGathered (gather_inputs local.hash config options harness result.inputs begun) g1 in
      (
        g2,
        λ key h. ap (contains key) same ∙ grows key h,
        Grows-IsMet local.hash config options (IsGiven local config options)
            (gather_inputs local.hash config options harness result.inputs begun)
            (keep_stamps local options
              (gather_inputs local.hash config options harness result.inputs begun))
            result.inputs (λ key h. ap (contains key) same ∙ h) met,
      )

  collect_adapters_lem :
      (adapters : List Adapter) (st st' : Collecting)
      → All (λ a. Member a local.adapters) adapters
      → IsGathered local.hash config options (IsGiven local config options) st
      → collect_adapters local config options adapters st ≡ ok st'
      → IsGathered local.hash config options (IsGiven local config options) st'
        × Grows local.hash config options (IsGiven local config options) st st'
        × All (λ a. contains a.name options.harnesses ≡ true → IsRead st' a) adapters
  unfolding collect_adapters
  collect_adapters_lem [] st st' m g h =
      subst
        (λ x.
          IsGathered local.hash config options (IsGiven local config options) x
          × Grows local.hash config options (IsGiven local config options) st x
          × Unit {0})
        (ok-injective h) (g, λ key e. e, tt)
  collect_adapters_lem (a ∷ adapters) st st' (there_is, m) g h =
      elim (Bool-cases (contains a.name options.harnesses)) [
        | inr other ↦
            let h' : collect_adapters local config options adapters st ≡ ok st' =
              rw (collect_adapters, other) at h in
            let (g', grows, read) = collect_adapters_lem adapters st st' m g h' in
            (g', grows, (λ wanted. absurd (ground arith), read))
        | inl wanted ↦
            elim (Option-cases
              (a.collect (configured config options a.name) (skip config options st.stamps))) [
                | inl failed ↦ absurd (ground arith)
                | inr (result, asked) ↦
                    let next = gather local config options a.name result st in
                    let h' : collect_adapters local config options adapters next ≡ ok st' =
                      rw (collect_adapters, wanted, asked) at h in
                    let (g1, grows1, met1) =
                      gather_lem a.name result st
                        (All-members _ result.inputs
                          (λ i given. (a, there_is, wanted, st.stamps, result, asked, given)))
                        g in
                    let (g', grows, read) = collect_adapters_lem adapters next st' m g1 h' in
                    (
                      g',
                      λ key e. grows key (grows1 key e),
                      (
                        λ w. record {
                          stamps = st.stamps;
                          result = result;
                          asked = asked;
                          met =
                              Grows-IsMet local.hash config options (IsGiven local config options)
                                next st' result.inputs grows met1;
                        },
                        read,
                      ),
                    )
              ]
      ]

  collect_inputs_lem :
      (st : Collecting)
      → collect_inputs local config options ≡ ok st
      → IsGathered local.hash config options (IsGiven local config options) st
        × All (λ a. contains a.name options.harnesses ≡ true → IsRead st a) local.adapters
        × (all_found options.harnesses local.adapters ≡ true)
  unfolding collect_inputs
  collect_inputs_lem st h =
      let written : text_eq options.output_dir [] ≡ false = ground arith in
      let some_harness : (length options.harnesses == 0) ≡ false = ground arith in
      elim (Option-cases (source_stamps local options)) [
        | inl unreadable ↦ absurd (ground arith)
        | inr (stamps, loaded) ↦
            let start : Collecting = record {
              stamps = stamps;
              collected = [];
              inputs = [];
              warnings = [];
            } in
            let none_met : (key : Text) → contains key [] ≡ true → contains key [] ≡ true =
              λ key e. e in
            let begun : IsGathered local.hash config options (IsGiven local config options) start =
              record { once = nil; met = none_met; wanted = tt; settled = λ key e. inl e } in
            let (st', looped, h1) =
              bind-eq-ok (collect_adapters local config options local.adapters start) _
                (rw (collect_inputs, written, some_harness, loaded) at h) in
            let found : all_found options.harnesses local.adapters ≡ true = ground arith in
            let same : st' ≡ st = ground arith in
            let (g, _, read) =
              collect_adapters_lem local.adapters start st'
                (All-members _ local.adapters (λ a given. given)) begun looped in
            subst
              (λ x.
                IsGathered local.hash config options (IsGiven local config options) x
                × All (λ a. contains a.name options.harnesses ≡ true → IsRead x a) local.adapters
                × (all_found options.harnesses local.adapters ≡ true))
              same (g, read, found)
      ]

-- The adapter was asked, and each trace that it gave cannot be described, is handed over, or is left out because the server has it.
pub record IsAsked (local : Local) (config : CollectorConfig) (options : CollectOptions)
    (handed : List Input) (a : Adapter) : Type 0 where
  pub stamps : Stamps
  pub result : Gathered
  pub asked :
      a.collect (configured config options a.name) (skip config options stamps) ≡ some result
  pub settled :
      All
        (λ input.
          ((e : DescribeError) × (describe local.hash input ≡ err e))
          ⊎ ((d : Descriptor) × (describe local.hash input ≡ ok d)
              × ((contains (key_of d) (input_keys handed) ≡ true)
                  ⊎ LeftOut local.hash config options (IsGiven local config options) (key_of d))))
        result.inputs

module _ (local : Local) (config : CollectorConfig) (options : CollectOptions) (st : Collecting)
    (g : IsGathered local.hash config options (IsGiven local config options) st) where
  settle :
      (inputs : List Input)
      → All (IsMet local.hash config options (IsGiven local config options) st) inputs
      → All
          (λ input.
            ((e : DescribeError) × (describe local.hash input ≡ err e))
            ⊎ ((d : Descriptor) × (describe local.hash input ≡ ok d)
                × ((contains (key_of d) (input_keys (sort_inputs st.inputs)) ≡ true)
                    ⊎ LeftOut local.hash config options (IsGiven local config options) (key_of d))))
          inputs
  settle [] m = tt
  settle (input ∷ inputs) m = (
    elim (Result-cases (describe local.hash input)) [
      | inr failed ↦ inl failed
      | inl (d, described) ↦ inr (
        d,
        described,
        elim (g.settled (key_of d) (m.0 d described)) [
          | inl kept ↦ inl (contains-sort (key_of d) st.inputs ∙ kept)
          | inr out ↦ inr out
        ],
      )
    ],
    settle inputs m.1,
  )

  ask :
      (adapters : List Adapter)
      → All
          (λ a. contains a.name options.harnesses ≡ true → IsRead local config options st a)
          adapters
      → All
          (λ a.
            (contains a.name options.harnesses ≡ false)
            ⊎ IsAsked local config options (sort_inputs st.inputs) a)
          adapters
  ask [] r = tt
  ask (a ∷ adapters) r = (
    elim (Bool-cases (contains a.name options.harnesses)) [
      | inr other ↦ inl other
      | inl chosen ↦
          let read = r.0 chosen in
          inr (record {
            stamps = read.stamps;
            result = read.result;
            asked = read.asked;
            settled = settle read.result.inputs read.met;
          })
    ],
    ask adapters r.1,
  )

-- A collection that gets to its archive: the traces that it hands over are sorted by harness and native id, no trace stands there twice, and none
-- has a revision that the server acknowledged for this machine, unless all were asked for. Every selected harness has an adapter; each adapter of a selected harness was asked, and
-- each trace that it gave cannot be described, is handed over, or is left out, as only new ones were asked for and it was given by one of these adapters in the very revision that the server
-- acknowledged for this machine.
pub collect_inputs-IsComplete :
    (local : Local) (config : CollectorConfig) (options : CollectOptions) (st : Collecting)
    → collect_inputs local config options ≡ ok st
    → Sorted (sort_inputs st.inputs)
      × Distinct (input_keys (sort_inputs st.inputs))
      × All (λ i. (options.all ≡ true) ⊎ IsPending config i.descriptor) (sort_inputs st.inputs)
      × (all_found options.harnesses local.adapters ≡ true)
      × All
          (λ a.
            (contains a.name options.harnesses ≡ false)
            ⊎ IsAsked local config options (sort_inputs st.inputs) a)
          local.adapters
collect_inputs-IsComplete local config options st h =
    let (g, read, found) = collect_inputs_lem local config options st h in
    (
      sort_inputs-Sorted st.inputs,
      sort_inputs-Distinct st.inputs g.once,
      sort_inputs-All _ st.inputs g.wanted,
      found,
      ask local config options st g local.adapters read,
    )
