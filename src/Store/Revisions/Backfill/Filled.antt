-- ===== src/Store/Revisions/Backfill/Filled.antt =====
-- How the rows of traces may change in `backfillMissingTraceMetadata`.
use traicr.Prelude.{
  ℕ, ◌≡◌, refl, ◌∙◌, ◌⊎◌, inl, inr, true, none, some, [], ◌==◌, Text, text_eq, text_leb,
}
use mathlib.Core.Path.{subst}
use traicr.Store.Table.{find}
use traicr.Store.Db.{Db, TraceRow}

-- What may become of a row: only what is missing is filled, and nothing in a newer row.
pub record IsFilled (time : Text) (before after : TraceRow) : Type 0 where
  pub title : (text_eq before.title [] ≡ true) ⊎ (after.title ≡ before.title)
  pub directory :
      (text_eq before.working_directory [] ≡ true)
      ⊎ (after.working_directory ≡ before.working_directory)
  pub repository : (before.repository_id ≡ none) ⊎ (after.repository_id ≡ before.repository_id)
  pub newer : (text_leb before.updated_at time ≡ true) ⊎ (after ≡ before)
  pub updated_at : after.updated_at ≡ before.updated_at
  pub title_override : after.title_override ≡ before.title_override
  pub generated_title : after.generated_title ≡ before.generated_title

pub IsFilled-refl : (time : Text) (t : TraceRow) → IsFilled time t t
IsFilled-refl time t = record {
  title = inr refl;
  directory = inr refl;
  repository = inr refl;
  newer = inr refl;
  updated_at = refl;
  title_override = refl;
  generated_title = refl;
}

-- What a field missed, or kept, over two changes.
either_trans :
    {A : Type 0} {B : Type 0} (missing : B → Type 0) (of : A → B) (a b c : A)
    → missing (of a) ⊎ (of b ≡ of a)
    → missing (of b) ⊎ (of c ≡ of b)
    → missing (of a) ⊎ (of c ≡ of a)
either_trans missing of a b c (inl p) g = inl p
either_trans missing of a b c (inr e) (inl q) = inl (subst missing e q)
either_trans missing of a b c (inr e) (inr f) = inr (f ∙ e)

newer_trans :
    (time : Text) (a b c : TraceRow)
    → b.updated_at ≡ a.updated_at
    → (text_leb a.updated_at time ≡ true) ⊎ (b ≡ a)
    → (text_leb b.updated_at time ≡ true) ⊎ (c ≡ b)
    → (text_leb a.updated_at time ≡ true) ⊎ (c ≡ a)
newer_trans time a b c same (inl p) g = inl p
newer_trans time a b c same (inr e) (inl q) = inl (subst (λ u. text_leb u time ≡ true) same q)
newer_trans time a b c same (inr e) (inr f) = inr (f ∙ e)

pub IsFilled-trans :
    (time : Text) {a b c : TraceRow} → IsFilled time a b → IsFilled time b c → IsFilled time a c
IsFilled-trans time {a} {b} {c} f g = record {
  title = either_trans (λ v. text_eq v [] ≡ true) (λ t. t.title) a b c f.title g.title;
  directory =
      either_trans (λ v. text_eq v [] ≡ true) (λ t. t.working_directory) a b c f.directory
        g.directory;
  repository = either_trans (λ v. v ≡ none) (λ t. t.repository_id) a b c f.repository g.repository;
  newer = newer_trans time a b c f.updated_at f.newer g.newer;
  updated_at = g.updated_at ∙ f.updated_at;
  title_override = g.title_override ∙ f.title_override;
  generated_title = g.generated_title ∙ f.generated_title;
}

-- Every row keeps its key, and what it had.
unfoldable pub IsFilledDb : Text → Db → Db → Type 0
IsFilledDb time db db' =
    (x : ℕ) (t : TraceRow)
    → find (λ r. r.id == x) db.traces ≡ some t
    → (t' : TraceRow) × (find (λ r. r.id == x) db'.traces ≡ some t') × IsFilled time t t'
