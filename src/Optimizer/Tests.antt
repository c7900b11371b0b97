-- ===== src/Optimizer/Tests.antt =====
-- The optimizer's driver on a concrete store and model.
use prompt_graft.Base.{◌⊎◌, true, Option, none, some, List, [], ◌∷◌, ◌≡◌, ◌≢◌, Bytes, codes, All}
use prompt_graft.Base.Int.{pos, negsuc, is_negative}
use prompt_graft.Base.Float.{Value, whole}
use prompt_graft.Store.Types.{Variant, ConversationFeedback}
use prompt_graft.Optimizer.Driver.{Settings, Backend, run_once}
use prompt_graft.Optimizer.Driver.Guarantee.{IsKept}
use prompt_graft.Optimizer.Driver.Once.{run_once-IsKept}

abbrev disliked : ConversationFeedback
disliked = record {
  conversation_id = codes "c";
  variant_id = [];
  score = negsuc 0;
  prompt = codes "you are brief";
  response = [];
  comment = [];
}

abbrev liked : ConversationFeedback
liked = record disliked { score = pos 1; prompt = codes "you are kind" }

-- The variant lists that were set, the newest first.
abbrev Journal : Type 0
Journal = List (List (Variant Value))

abbrev backend : Backend Value Journal
backend = record {
  ready_sessions = λ s. some (record { key_hash = codes "k"; session_id = codes "s" } ∷ []);
  load_samples = λ s ref n. some (disliked ∷ liked ∷ []);
  session_prompt = λ s ref. [];
  set_session_prompt = λ s ref template. s;
  complete = λ s system user. (some (codes "- be kind"), s);
  rollup = λ s ref. s;
  mark_optimized = λ s ref. s;
  mark_used = λ s ref ids. s;
  set_variants = λ s ref vs. (true, vs ∷ s);
  update_best = λ s ref best. s;
  append_history = λ s ref entry. s;
  now = λ s. 7;
}

abbrev settings : Settings
settings = record { gepa_top_n = 3; gepa_output_size = pos 2 }

abbrev decode : Bytes → Option (List Bytes)
decode s = none

abbrev HasVariants : Journal → Type 0
HasVariants s = All (λ vs. vs ≢ []) s

journal-IsKept : IsKept whole backend settings decode (λ s. s) HasVariants
journal-IsKept = record {
  by_complete = λ s system user p. p;
  by_template = λ s ref template n p. p;
  by_rollup = λ s ref p. p;
  by_mark = λ s ref p. p;
  by_used = λ s ref ids p. p;
  by_variants = λ s ref vs v p. (v.some_variant, p);
  by_best = λ s ref best n p. p;
  by_history = λ s ref entry n p. p;
}

run_once-IsKept_example :
    ((t : Journal) × (run_once whole backend settings decode (λ s. s) [] ≡ some t) × HasVariants t)
    ⊎ ((run_once whole backend settings decode (λ s. s) [] ≡ none) × (is_negative (pos 2) ≡ true))
run_once-IsKept_example =
    run_once-IsKept whole backend settings decode (λ s. s) HasVariants journal-IsKept [] tt
