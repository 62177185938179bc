-- ===== src/Collector.antt =====
-- internal/config/collector.go, internal/config/stamps.go and `StateKey` of internal/collector:
-- what the collector keeps between its runs. A map is the list of what was put in, the last first.
pub mod Collect
pub mod Upload
use traicr.Prelude.Keys.{lookup}
use traicr.Prelude.{
  ℕ, zero, suc, ◌+◌, ◌-◌, ◌*◌, ◌/◌, ◌%◌, ◌^◌, ◌≤◌, ◌<◌, min, max, ◌≡◌, refl, sym, ap, ◌∙◌, ◌≢◌, ◌↔◌,
  ◌⊎◌, inl, inr, Bool, true, false, not, ◌&&◌, ◌||◌, Option, none, some, List, [], ◌∷◌, ◌++◌, map,
  arith, ltb, leb, ◌==◌, if◌then◌else◌, ltb→lt, leb→le, ==_iff, Bool-cases, Option-cases, length,
  get_elem?, take, drop, slice, length-append, length-take, length-drop, take-append-drop,
  take_whole, length-ne-nil, Member, here, there, Member-append_left, Member-append_right, All,
  All-append, Text, codes, text_eq, text_eq_iff, text_eq_refl, text_eq-ne, text_leb, text_leb_refl,
  text_leb_trans, text_leb_total, text_leb_antisym, has_prefix, contains_byte, count_byte, Result,
  ok, err, ok-injective, Result-cases, bind-eq-ok, refuse_if, refuse_if-eq-ok, ◌>>=◌, ◌>>◌,
}

-- `CollectionRevision`: the revision of a trace that a server took.
pub record CollectionRevision : Type 0 where
  pub digest : Text
  pub machine_id : Text

abbrev pub State : Type 0
State = List (Text × CollectionRevision)

-- The fields of config.Collector; the sources are the roots that each harness is read from.
pub record CollectorConfig : Type 0 where
  pub machine_id : Text
  pub server_url : Text
  pub token : Text
  pub sources : List (Text × List Text)
  pub state : State

-- `StateKey`
unfoldable pub state_key : Text → Text → Text
state_key harness native_trace_id = harness ++ (0 ∷ native_trace_id)

-- `cfg.State[key]`, the zero value for a key that is missing.
unfoldable pub revision_at : Text → State → CollectionRevision
revision_at key state = elim (lookup key state) [
  | none ↦ record { digest = []; machine_id = [] }
  | some revision ↦ revision
]
