-- ===== src/Store/Preferred.antt =====
-- Which observation of an event readers see: the `ORDER BY` of the `preferred_observation_id`
-- statements in `insertEvents` and `replaceRevisionEvents`.
use mathlib.Core.Path.{subst}
use traicr.Prelude.{
  ℕ, ◌+◌, ◌≡◌, refl, inl, inr, Bool, true, false, not, Option, none, some, List, [], ◌∷◌, arith,
  ltb, ◌==◌, if◌then◌else◌, Bool-cases, All, Text, text_eq, text_eq_iff, text_eq_refl, text_leb,
  text_leb_refl, text_leb_trans, text_leb_total, text_leb_antisym,
}
use traicr.Domain.{Attachment}
use traicr.Store.Table.{find, update_where}
use traicr.Store.Db.{Db, ObservationRow, ObservationRevision, RevisionRow}

-- What `json_each(o.event_json,'$.attachments')` counts: attachments with an archived path.
unfoldable pub archived_count : List Attachment → ℕ
archived_count [] = 0
archived_count (a ∷ rest) = (if text_eq a.archived_path [] then 0 else 1) + archived_count rest

pub record Candidate : Type 0 where
  pub observation_id : ℕ
  pub updated_at : Text
  pub event_time : Text
  pub archived : ℕ
  pub digest : Text

-- `ORDER BY r.native_updated_at DESC, o.event_time DESC, … DESC, o.digest DESC`: `a` may stand first
unfoldable pub precedes : Candidate → Candidate → Bool
precedes a b =
    if not (text_eq a.updated_at b.updated_at)
    then text_leb b.updated_at a.updated_at
    else if not (text_eq a.event_time b.event_time)
    then text_leb b.event_time a.event_time
    else if not (a.archived == b.archived)
    then ltb b.archived a.archived
    else text_leb b.digest a.digest

unfoldable pub better : Candidate → Option Candidate → Candidate
better a none = a
better a (some b) = if precedes a b then a else b

-- `LIMIT 1`
unfoldable pub best : List Candidate → Option Candidate
best [] = none
best (c ∷ cs) = some (better c (best cs))

candidate_of : ObservationRow → RevisionRow → Candidate
candidate_of o r = record {
  observation_id = o.id;
  updated_at = r.native_updated_at;
  event_time = o.event_time;
  archived = archived_count o.event.attachments;
  digest = o.digest;
}

add_candidate : Option ObservationRow → Option RevisionRow → ℕ → List Candidate → List Candidate
add_candidate (some o) (some r) event rest =
    if o.event_id == event then candidate_of o r ∷ rest else rest
add_candidate _ _ event rest = rest

-- `event_observations o JOIN observation_revisions x … JOIN trace_revisions r … WHERE o.event_id=?`
unfoldable pub candidates : Db → ℕ → List ObservationRevision → List Candidate
unfolding candidate_of add_candidate
candidates db event [] = []
candidates db event (x ∷ rest) =
    add_candidate (find (λ o. o.id == x.observation_id) db.observations)
      (find (λ r. r.id == x.revision_id) db.revisions) event (candidates db event rest)

abbrev id_of : Option Candidate → Option ℕ
id_of none = none
id_of (some c) = some c.observation_id

-- The choice for the event with a key.
unfoldable pub preferred : Db → ℕ → Option ℕ
preferred db event = id_of (best (candidates db event db.observation_revisions))

-- `UPDATE events SET preferred_observation_id=(…) WHERE id=?`
unfoldable pub set_preferred : ℕ → Db → Db
set_preferred event db = record db {
  events =
      update_where (λ e. e.id == event)
        (λ e. record e { preferred_observation_id = preferred db event }) db.events;
}

-- `UPDATE events SET preferred_observation_id=(…) WHERE trace_id=?`
unfoldable pub set_preferred_in : ℕ → Db → Db
set_preferred_in trace db = record db {
  events =
      update_where (λ e. e.trace_id == trace)
        (λ e. record e { preferred_observation_id = preferred db e.id }) db.events;
}

precedes_refl : (a : Candidate) → precedes a a ≡ true
unfolding precedes
precedes_refl a =
    ground (arith, text_eq_refl a.updated_at, text_eq_refl a.event_time, text_leb_refl a.digest)

precedes_total : (a b : Candidate) → precedes a b ≡ false → precedes b a ≡ true
unfolding precedes
precedes_total a b h = ground (
  arith,
  text_eq_iff a.updated_at b.updated_at,
  text_eq_iff b.updated_at a.updated_at,
  text_eq_iff a.event_time b.event_time,
  text_eq_iff b.event_time a.event_time,
  text_leb_total b.updated_at a.updated_at,
  text_leb_total b.event_time a.event_time,
  text_leb_total b.digest a.digest,
)

-- One column of the order, with what decides where two values of it are equal.
abbrev level : Text → Text → Bool → Bool
level x y rest = if not (text_eq x y) then text_leb y x else rest

level_trans :
    (x y z : Text) (r s t : Bool)
    → (r ≡ true → s ≡ true → t ≡ true)
    → level x y r ≡ true
    → level y z s ≡ true
    → level x z t ≡ true
level_trans x y z r s t f h k = ground (
  arith,
  f,
  text_eq_iff x y,
  text_eq_iff y z,
  text_eq_iff x z,
  text_leb_trans z y x,
  text_leb_antisym x y,
  text_leb_antisym y z,
)

rank_trans :
    (a b c : Candidate)
    → (if not (a.archived == b.archived)
        then ltb b.archived a.archived
        else text_leb b.digest a.digest)
      ≡ true
    → (if not (b.archived == c.archived)
        then ltb c.archived b.archived
        else text_leb c.digest b.digest)
      ≡ true
    → (if not (a.archived == c.archived)
        then ltb c.archived a.archived
        else text_leb c.digest a.digest)
      ≡ true
rank_trans a b c h k = ground (arith, text_leb_trans c.digest b.digest a.digest)

precedes_trans :
    (a b c : Candidate) → precedes a b ≡ true → precedes b c ≡ true → precedes a c ≡ true
unfolding precedes
precedes_trans a b c h k =
    level_trans a.updated_at b.updated_at c.updated_at _ _ _
      (λ h1 k1. level_trans a.event_time b.event_time c.event_time _ _ _ (rank_trans a b c) h1 k1) h
      k

better-precedes : (a : Candidate) (o : Option Candidate) → precedes (better a o) a ≡ true
unfolding better
better-precedes a none = precedes_refl a
better-precedes a (some b) = elim (Bool-cases (precedes a b)) [
  | inl t ↦ rw t (precedes_refl a)
  | inr f ↦ rw f (precedes_total a b f)
]

better-other : (a b : Candidate) → precedes (better a (some b)) b ≡ true
unfolding better
better-other a b = elim (Bool-cases (precedes a b)) [
  | inl t ↦ rw t t
  | inr f ↦ rw f (precedes_refl b)
]

All-precedes :
    (a b : Candidate) (cs : List Candidate)
    → precedes a b ≡ true
    → All (λ c. precedes b c ≡ true) cs
    → All (λ c. precedes a c ≡ true) cs
All-precedes a b [] h k = tt
All-precedes a b (c ∷ cs) h k = (precedes_trans a b c h k.0, All-precedes a b cs h k.1)

best-cons :
    (c : Candidate) (cs : List Candidate) (o : Option Candidate)
    → best cs ≡ o
    → ((b : Candidate) → o ≡ some b → All (λ x. precedes b x ≡ true) cs)
    → (o ≡ none → cs ≡ [])
    → All (λ x. precedes (better c o) x ≡ true) cs
best-cons c cs none e h k = rw (k refl) tt
best-cons c cs (some b) e h k = All-precedes (better c (some b)) b cs (better-other c b) (h b refl)

best-none : (cs : List Candidate) → best cs ≡ none → cs ≡ []
unfolding best
best-none [] e = refl
best-none (c ∷ cs) e = cc

-- The preferred candidate stands before every other: no candidate has a newer revision, nor, at
-- equal times, a later event time, more archived attachments or a greater digest, in this order.
best-precedes :
    (cs : List Candidate) (b : Candidate) → best cs ≡ some b → All (λ c. precedes b c ≡ true) cs
unfolding best
best-precedes [] b e = tt
best-precedes (c ∷ cs) b e =
    let same : better c (best cs) ≡ b = ground arith in
    subst (λ x. precedes x c ≡ true × All (λ y. precedes x y ≡ true) cs) same
      (better-precedes c (best cs), best-cons c cs (best cs) refl (best-precedes cs) (best-none cs))
