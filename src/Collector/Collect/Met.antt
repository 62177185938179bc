-- ===== src/Collector/Collect/Met.antt =====
-- What the loops of `Collect` over the inputs of an adapter end with.
use traicr.Prelude.{
  ◌≡◌, refl, ap, ◌∙◌, inl, inr, true, not, ◌&&◌, List, [], ◌∷◌, arith, Bool-cases, All, Text,
  text_eq, ok, ok-injective, Result-cases,
}
use mathlib.Core.Path.{subst}
use traicr.Prelude.Keys.{contains}
use traicr.Domain.{Descriptor}
use traicr.Archive.Describe.{Input, describe}
use traicr.Collector.{CollectorConfig}
use traicr.Collector.Collect.{
  Collecting, CollectOptions, warn, note_stamp, key_of, take_input, gather_input, gather_inputs,
}
use traicr.Collector.Collect.Kept.{IsGathered, take-IsGathered}

module _ (hash : Text → Text) (config : CollectorConfig) (options : CollectOptions)
    (Given : Input → Type 0) where
  -- The keys that have been met stay so.
  abbrev pub Grows : Collecting → Collecting → Type 0
  Grows st st' = (key : Text) → contains key st.collected ≡ true → contains key st'.collected ≡ true

  take_input-Grows :
      (harness : Text) (input : Input) (d : Descriptor) (st : Collecting)
      → Grows st (take_input hash config options harness input d st)
  unfolding take_input warn contains
  take_input-Grows harness input d st key h = ground (arith, h)

  noted-IsGathered :
      (input : Input) (d : Descriptor) (st : Collecting)
      → IsGathered hash config options Given st
      → IsGathered hash config options Given (note_stamp options input d st)
        × ((note_stamp options input d st).collected ≡ st.collected)
  unfolding note_stamp
  noted-IsGathered input d st g =
      elim (Bool-cases (
        not (text_eq input.source [])
        && not (text_eq input.stamp [])
        && not (text_eq options.config_dir []))) [
          | inl noted ↦
              rw (note_stamp, noted)
                (
                  record { once = g.once; met = g.met; wanted = g.wanted; settled = g.settled },
                  refl,
                )
          | inr plain ↦ rw (note_stamp, plain) (g, refl)
        ]

  warned-IsGathered :
      (code message : Text) (st : Collecting)
      → IsGathered hash config options Given st
      → IsGathered hash config options Given (warn code message st)
  unfolding warn
  warned-IsGathered code message st g = record {
    once = g.once;
    met = g.met;
    wanted = g.wanted;
    settled = g.settled;
  }

  -- The trace of the input has been met, if it can be described.
  abbrev pub IsMet : Collecting → Input → Type 0
  IsMet st input =
      (d : Descriptor) → describe hash input ≡ ok d → contains (key_of d) st.collected ≡ true

  pub Grows-IsMet :
      (a b : Collecting) (inputs : List Input)
      → Grows a b
      → All (IsMet a) inputs
      → All (IsMet b) inputs
  Grows-IsMet a b [] f m = tt
  Grows-IsMet a b (x ∷ inputs) f m = (λ d h. f (key_of d) (m.0 d h), Grows-IsMet a b inputs f m.1)

  gather_input_lem :
      (harness : Text) (input : Input) (st : Collecting)
      → Given input
      → IsGathered hash config options Given st
      → IsGathered hash config options Given (gather_input hash config options harness input st)
        × Grows st (gather_input hash config options harness input st)
        × IsMet (gather_input hash config options harness input st) input
  unfolding gather_input
  gather_input_lem harness input st given g = elim (Result-cases (describe hash input)) [
    | inr (e, failed) ↦
        rw (gather_input, failed) (warned-IsGathered _ _ st g, λ key h. unfold warn in h, λ d h. cc)
    | inl (d, described) ↦
        let (g', same) = noted-IsGathered input d st g in
        let st' = note_stamp options input d st in
        let (g'', known) =
          take-IsGathered hash config options Given harness input d st' given described g' in
        let grown : Grows st (take_input hash config options harness input d st') =
          λ key h. take_input-Grows harness input d st' key (ap (contains key) same ∙ h) in
        rw (gather_input, described)
          (
            g'',
            grown,
            λ e h.
                subst
                  (λ x.
                    contains (key_of x)
                      (take_input hash config options harness input d st').collected
                    ≡ true)
                  (ok-injective h) known,
          )
  ]

  pub gather_inputs_lem :
      (harness : Text) (inputs : List Input) (st : Collecting)
      → All Given inputs
      → IsGathered hash config options Given st
      → IsGathered hash config options Given (gather_inputs hash config options harness inputs st)
        × Grows st (gather_inputs hash config options harness inputs st)
        × All (IsMet (gather_inputs hash config options harness inputs st)) inputs
  unfolding gather_inputs
  gather_inputs_lem harness [] st given g = (g, λ key h. h, tt)
  gather_inputs_lem harness (input ∷ inputs) st (given, rest_given) g =
      let (g', grows, first) = gather_input_lem harness input st given g in
      let (g'', grows', rest) =
        gather_inputs_lem harness inputs (gather_input hash config options harness input st)
          rest_given g' in
      (g'', λ key h. grows' key (grows key h), (λ d h. grows' (key_of d) (first d h), rest))
