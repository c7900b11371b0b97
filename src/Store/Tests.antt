-- ===== src/Store/Tests.antt =====
-- The stores on concrete states.
use prompt_graft.Base.{true, false, Option, none, some, List, [], ◌∷◌, ◌≡◌, codes}
use prompt_graft.Base.Int.{ℤ, pos, negsuc}
use prompt_graft.Base.Float.{Value, num}
use prompt_graft.Provider.{answer}
use prompt_graft.Store.Types.{
  Variant, VariantSet, BestPrompt, HistoryEntry, ConversationFeedback, SessionRef,
}
use prompt_graft.Store.Layered.{
  Tier, RedisOnly, PgOnly, get_variant, set_variants, set_session_prompt, update_best_prompt,
  append_history, mark_session_optimized, record_feedback,
}
use prompt_graft.Store.Layered.Laws.{IsAlone, get_variant-first_hit, writes_report_redis}

abbrev ref : SessionRef
ref = record { key_hash = codes "k"; session_id = codes "s" }

-- A store that holds one set.
abbrev Slot : Type 0
Slot = Option (VariantSet Value)

abbrev slot : Tier Value Slot
slot = record {
  set_session_prompt = λ s r prompt ttl. (true, s);
  get_session_prompt = λ s r. answer [];
  set_variants = λ s r vs ttl. (true, some (record { variants = vs; active_until = ttl }));
  get_variants = λ s r. some s;
  record_feedback = λ s r conversation variant rating comment. (true, s);
  update_best_prompt = λ s r best. (true, s);
  append_history = λ s r entry. (true, s);
  ready_sessions = λ s min_samples every. some [];
  load_conversation_samples = λ s r n. some [];
  mark_session_optimized = λ s r. (false, s);
  mark_feedback_used = λ s r ids. (true, s);
}

abbrev redis_only : RedisOnly Value Slot
redis_only = record {
  get_session_info = λ s r. none;
  get_variants_info = λ s r. none;
  get_variant_feedback = λ s r variant. none;
  get_session_feedback = λ s r. none;
  log_request = λ s r entry. (true, s);
  log_response = λ s r entry. (true, s);
  load_dataset = λ s r. some [];
  rollup_conversation_feedback = λ s r. (true, s);
}

abbrev pg_only : PgOnly Value Slot
pg_only = record { get_best_prompt = λ s r. none; get_history = λ s r n. none }

abbrev one_variant : List (Variant Value)
one_variant = record { id = codes "v"; system_prompt = codes "be kind"; weight = num 1 } ∷ []

abbrev held : VariantSet Value
held = record { variants = one_variant; active_until = 9 }

get_variant-first_hit_example :
    ((get_variant slot redis_only (some (slot, pg_only)) 5 ref (none, some held)).0
      ≡ some (some held))
    × ((get_variant slot redis_only (some (slot, pg_only)) 5 ref (none, some held)).1.1 ≡ some held)
get_variant-first_hit_example =
    get_variant-first_hit slot redis_only (some (slot, pg_only)) 5 ref none (some held)

abbrev best : BestPrompt Value
best = record { prompt = codes "p"; score = num 1; promoted_at = 3 }

abbrev entry : HistoryEntry Value
entry = record { prompt = codes "p"; score = num 1; promoted_at = 3; retired_at = 0 }

writes_report_redis_example :
    let pg : Option (Tier Value Slot × PgOnly Value Slot) = some (slot, pg_only) in
    let alone = IsAlone slot redis_only slot pg_only in
    alone
      (set_variants slot redis_only pg ref one_variant 60 (none, none))
      (slot.set_variants none ref one_variant 60)
    × alone (set_session_prompt slot redis_only pg ref (codes "p") 60 (none, none)) (true, none)
    × alone (update_best_prompt slot redis_only pg ref best (none, none)) (true, none)
    × alone (append_history slot redis_only pg ref entry (none, none)) (true, none)
    × alone (mark_session_optimized slot redis_only pg ref (none, none)) (false, none)
    × alone
        (record_feedback slot redis_only pg ref (codes "c") (codes "v") (pos 1) [] (none, none))
        (true, none)
writes_report_redis_example =
    writes_report_redis slot redis_only slot pg_only ref one_variant 60 (codes "p") best entry
      (codes "c") (codes "v") (pos 1) [] none none

abbrev sample : ℤ → ConversationFeedback
sample score = record {
  conversation_id = codes "c";
  variant_id = [];
  score = score;
  prompt = codes "p";
  response = [];
  comment = [];
}

abbrev samples : List ConversationFeedback
samples = sample (pos 1) ∷ sample (pos 1) ∷ sample (negsuc 0) ∷ []
