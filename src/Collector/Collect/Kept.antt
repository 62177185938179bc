-- ===== src/Collector/Collect/Kept.antt =====
-- The traces that `Collect` keeps for the archive, and those that it leaves out.
use traicr.Prelude.{
  ◌≢◌, text_eq-ne, ok, ◌≡◌, refl, sym, ap, ◌∙◌, ◌⊎◌, inl, inr, true, false, not, ◌&&◌, ◌||◌, List,
  [], ◌∷◌, ◌++◌, arith, Bool-cases, All, All-append, Text, text_eq, text_eq_iff, text_eq_refl,
}
use mathlib.Core.Path.{subst}
use traicr.Prelude.Keys.{contains, Distinct, nil, more}
use traicr.Domain.{Descriptor}
use traicr.Archive.Describe.{describe, Input}
use traicr.Collector.{revision_at, CollectorConfig}
use traicr.Collector.Collect.{Collecting, CollectOptions, is_acknowledged, warn, key_of, take_input}
use traicr.Collector.Collect.Sorted.{input_keys}

input_keys_append :
    (xs : List Input) (x : Input)
    → input_keys (xs ++ (x ∷ [])) ≡ input_keys xs ++ (key_of x.descriptor ∷ [])
input_keys_append [] x = refl
input_keys_append (y ∷ xs) x = ap (λ z. key_of y.descriptor ∷ z) (input_keys_append xs x)

first_member : (k : Text) (xs : List Text) → contains k (k ∷ xs) ≡ true
unfolding contains
first_member k xs = ground (arith, text_eq_refl k)

contains_append :
    (k x : Text) (xs : List Text) → contains k (xs ++ (x ∷ [])) ≡ (contains k xs || text_eq x k)
unfolding contains
contains_append k x [] = ground arith
contains_append k x (y ∷ xs) = ground (arith, contains_append k x xs)

Distinct_append :
    (k : Text) (ks : List Text) → Distinct ks → contains k ks ≡ false → Distinct (ks ++ (k ∷ []))
Distinct_append k [] d h =
    let alone : contains k [] ≡ false = unfold contains in refl in more alone nil
Distinct_append k (x ∷ ks) (more fresh d) h =
    let other : contains x (ks ++ (k ∷ [])) ≡ false =
      contains_append x k ks
      ∙ (unfold contains in (ground (arith, fresh, h, text_eq_iff x k, text_eq_iff k x))) in
    let later : contains k ks ≡ false = unfold contains in (ground (arith, h)) in
    more other (Distinct_append k ks d later)

-- The server has this revision of the trace, from this machine.
abbrev pub IsAcknowledged : CollectorConfig → Descriptor → Type 0
IsAcknowledged config d =
    ((revision_at (key_of d) config.state).machine_id ≡ config.machine_id)
    × ((revision_at (key_of d) config.state).digest ≡ d.revision_digest)

-- It has not: it has another revision of it, or another machine's, or none.
abbrev pub IsPending : CollectorConfig → Descriptor → Type 0
IsPending config d =
    ((revision_at (key_of d) config.state).machine_id ≢ config.machine_id)
    ⊎ ((revision_at (key_of d) config.state).digest ≢ d.revision_digest)

is_acknowledged-IsAcknowledged :
    (config : CollectorConfig) (d : Descriptor)
    → is_acknowledged config (key_of d) d.revision_digest ≡ true
    → IsAcknowledged config d
unfolding is_acknowledged
is_acknowledged-IsAcknowledged config d h =
    let r = revision_at (key_of d) config.state in
    let machine : text_eq r.machine_id config.machine_id ≡ true = ground arith in
    let digest : text_eq r.digest d.revision_digest ≡ true = ground arith in
    ((text_eq_iff _ _).0 machine, (text_eq_iff _ _).0 digest)

is_acknowledged-IsPending :
    (config : CollectorConfig) (d : Descriptor)
    → is_acknowledged config (key_of d) d.revision_digest ≡ false
    → IsPending config d
unfolding is_acknowledged
is_acknowledged-IsPending config d h =
    let r = revision_at (key_of d) config.state in
    elim (Bool-cases (text_eq r.machine_id config.machine_id)) [
      | inr other ↦ inl (text_eq-ne _ _ other)
      | inl same ↦ inr (text_eq-ne _ _ (ground arith))
    ]

-- `Given` holds of the inputs that the adapters gave.
module _ (hash : Text → Text) (config : CollectorConfig) (options : CollectOptions)
    (Given : Input → Type 0) where
  -- Only what is new was asked for, and an input of this trace was given in a revision that the server has.
  abbrev pub LeftOut : Text → Type 0
  LeftOut key =
      (options.all ≡ false)
      × (input : Input) × (d : Descriptor) × Given input
      × (describe hash input ≡ ok d)
      × (key_of d ≡ key)
      × IsAcknowledged config d

  -- No trace twice; none that was acknowledged, unless all were asked for; and no other trace was dropped.
  pub record IsGathered (st : Collecting) : Type 0 where
    pub once : Distinct (input_keys st.inputs)
    pub met :
        (key : Text) → contains key (input_keys st.inputs) ≡ true → contains key st.collected ≡ true
    pub wanted : All (λ i. (options.all ≡ true) ⊎ IsPending config i.descriptor) st.inputs
    pub settled :
        (key : Text)
        → contains key st.collected ≡ true
        → (contains key (input_keys st.inputs) ≡ true) ⊎ LeftOut key

  known-IsGathered :
      (input : Input) (d : Descriptor) (st : Collecting)
      → Given input
      → describe hash input ≡ ok d
      → (not options.all && is_acknowledged config (key_of d) d.revision_digest) ≡ true
      → IsGathered st
      → IsGathered (record st { collected = key_of d ∷ st.collected })
  known-IsGathered input d st given described known g =
      let partial : options.all ≡ false = ground arith in
      let had : is_acknowledged config (key_of d) d.revision_digest ≡ true = ground arith in
      record {
        once = g.once;
        met = λ key h. unfold contains in (ground (arith, g.met key h));
        wanted = g.wanted;
        settled = λ key h. elim (Bool-cases (text_eq (key_of d) key)) [
          | inl same ↦ inr (
            partial,
            input,
            d,
            given,
            described,
            (text_eq_iff (key_of d) key).0 same,
            is_acknowledged-IsAcknowledged config d had,
          )
          | inr other ↦ g.settled key (unfold contains in (ground arith))
        ];
      }

  new-IsGathered :
      (input : Input) (d : Descriptor) (st : Collecting)
      → (not options.all && is_acknowledged config (key_of d) d.revision_digest) ≡ false
      → contains (key_of d) st.collected ≡ false
      → IsGathered st
      → IsGathered (record st {
        collected = key_of d ∷ st.collected;
        inputs = st.inputs ++ ((record input { descriptor = d }) ∷ []);
      })
  new-IsGathered input d st new fresh g =
      let kept : Input = record input { descriptor = d } in
      let grown = input_keys_append st.inputs kept in
      let has : (key : Text)
          → contains key (input_keys (st.inputs ++ (kept ∷ [])))
            ≡ (contains key (input_keys st.inputs) || text_eq (key_of d) key) =
        λ key. ap (contains key) grown ∙ contains_append key (key_of d) (input_keys st.inputs) in
      let apart : contains (key_of d) (input_keys st.inputs) ≡ false =
        ground (arith, g.met (key_of d)) in
      let wanted : (options.all ≡ true) ⊎ IsPending config d = elim (Bool-cases options.all) [
        | inl all ↦ inl all
        | inr some_only ↦ inr (is_acknowledged-IsPending config d (ground arith))
      ] in
      record {
        once =
            subst Distinct (sym grown)
              (Distinct_append (key_of d) (input_keys st.inputs) g.once apart);
        met = λ key h. unfold contains in (ground (arith, h, has key, g.met key));
        wanted = All-append _ st.inputs (kept ∷ []) g.wanted (wanted, tt);
        settled = λ key h. elim (Bool-cases (text_eq (key_of d) key)) [
          | inl same ↦ inl (ground (arith, has key))
          | inr other ↦
              let before : contains key st.collected ≡ true =
                unfold contains in (ground (arith, h)) in
              elim (g.settled key before) [
                | inl kept ↦ inl (ground (arith, has key))
                | inr out ↦ inr out
              ]
        ];
      }

  -- What a round does to the inputs and to the set; warnings and stamps are left aside.
  pub take-IsGathered :
      (harness : Text) (input : Input) (d : Descriptor) (st : Collecting)
      → Given input
      → describe hash input ≡ ok d
      → IsGathered st
      → IsGathered (take_input hash config options harness input d st)
        × (contains (key_of d) (take_input hash config options harness input d st).collected ≡ true)
  unfolding take_input warn
  take-IsGathered harness input d st given described g =
      elim (Bool-cases (contains (key_of d) st.collected)) [
        | inl repeated ↦
            rw (take_input, repeated)
              (
                record { once = g.once; met = g.met; wanted = g.wanted; settled = g.settled },
                repeated,
              )
        | inr fresh ↦
            elim (Bool-cases
              (not options.all && is_acknowledged config (key_of d) d.revision_digest)) [
                | inl known ↦
                    rw (take_input, fresh, known)
                      (
                        known-IsGathered input d st given described known g,
                        first_member (key_of d) st.collected,
                      )
                | inr new ↦
                    rw (take_input, fresh, new)
                      (new-IsGathered input d st new fresh g, first_member (key_of d) st.collected)
              ]
      ]
