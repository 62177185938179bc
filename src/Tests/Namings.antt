-- ===== src/Tests/Namings.antt =====
-- A worker that names one trace, its backoff, and an excerpt of a long session.
use traicr.Prelude.{
  ◌*◌, ◌^◌, ◌≤◌, min, max, ◌≡◌, refl, true, none, some, [], ◌∷◌, arith, length, take, codes, ok,
}
use traicr.Store.Db.{Db, empty}
use traicr.Titles.Prompt.{Texts, sample}
use traicr.Titles.Prompt.Sampled.{IsExcerpt, sample-IsExcerpt}
use traicr.Titles.Worker.{Batch, Outside, Reply, in_client, next_round, run_rounds, retry_after}
use traicr.Titles.Worker.Backoff.{run_rounds-backoff}

-- One rune is one byte here.
abbrev texts : Texts
texts = record {
  clean = λ t. t;
  rune_count = length;
  first_runes = λ n t. take n t;
  trim_space = λ t. t;
  decimal = λ n. codes "n";
  introduction = [];
  conclusion = [];
}

sample-IsExcerpt_example :
    IsExcerpt texts
      (codes "aa" ∷ codes "bb" ∷ codes "cc" ∷ codes "dd" ∷ [])
      5
      (sample texts (codes "aa" ∷ codes "bb" ∷ codes "cc" ∷ codes "dd" ∷ []) 5)
sample-IsExcerpt_example =
    sample-IsExcerpt texts (codes "aa" ∷ codes "bb" ∷ codes "cc" ∷ codes "dd" ∷ []) 5

abbrev untitled : Db
untitled = record empty {
  traces =
      (record {
        id = 1;
        harness = codes "pi";
        native_trace_id = codes "n";
        title = [];
        working_directory = [];
        repository_id = none;
        parent_native_trace_id = [];
        created_at = codes "1";
        updated_at = codes "2";
        title_override = [];
        generated_title = [];
        generated_title_revision_id = 0;
      })
      ∷ [];
  revisions =
      (record {
        id = 3;
        trace_id = 1;
        digest = codes "d";
        native_updated_at = codes "2";
        collected_at = codes "2";
        adapter = codes "pi";
        status = codes "normalized";
        normalizer_version = 1;
      })
      ∷ [];
}

abbrev outside : Outside
outside = record {
  ask = λ trace text attempt. Reply.title (codes "A title");
  source = λ trace db. ok (record {
    harness = codes "pi";
    working_directory = [];
    repository = [];
    user_messages = codes "hi" ∷ [];
    last_assistant_message = [];
  });
  valid_title = λ t. ok t;
  texts = texts;
}

abbrev named : Batch
named = record { recorded = 1; failure = none; accepted = true; db = empty }

abbrev failed : Batch
failed = record { recorded = 0; failure = some in_client; accepted = true; db = empty }

run_rounds-backoff_example :
    (60 ≤ run_rounds 300 (failed ∷ []) 60)
    × (run_rounds 300 (failed ∷ []) 60 ≤ 1800)
    × ((next_round 300
          (run_rounds 300 (named ∷ failed ∷ failed ∷ []) (run_rounds 300 (failed ∷ []) 60))
          failed).0
        ≡ max (min (60 * 2 ^ 2) 1800) (retry_after in_client))
run_rounds-backoff_example =
    run_rounds-backoff 300 (failed ∷ []) (failed ∷ failed ∷ []) named failed in_client refl
      (omega arith) ((in_client, refl), ((in_client, refl), tt)) refl
