-- ===== src/Store/PgTests.antt =====
-- The Postgres store (internal/store/pg/store.go) on concrete tables.
use prompt_graft.Base.{
  ℕ, ◌+◌, ◌*◌, ◌≤◌, ◌<◌, Bool, true, false, none, some, List, [], ◌∷◌, map, ◌≡◌, ◌↔◌, refl, Bytes,
  codes, ◌==◌, keep, All, Memᴰ,
}
use prompt_graft.Base.Int.{pos}
use prompt_graft.Store.Types.{Variant, SessionRef, ConversationFeedback}
use prompt_graft.Store.Pg.{
  Tables, same_ref, VariantRow, Event, LogRow, mark_feedback_used, mark_session_optimized, is_any,
  upsert, select, order_by, insert_by, is_row,
}
use prompt_graft.Store.Pg.Variants.{set_variants}
use prompt_graft.Store.Pg.Variants.Table.{active}
use prompt_graft.Store.Pg.Variants.Laws.{ReadsAs, get_active_variants-set_variants}
use prompt_graft.Store.Pg.Sessions.{
  UnusedSession, find_unused_variant_sessions, left_join, distinct_refs, max_time, last_feedback,
}
use prompt_graft.Store.Pg.Sessions.Laws.{find_unused_variant_sessions_iff}
use prompt_graft.Store.Pg.Sessions.Join.{HasActive}
use prompt_graft.Store.Pg.Sessions.Times.{AllOld}
use prompt_graft.Store.Pg.Ready.{ready_sessions, joined_events, has_log, has_enough, distinct}
use prompt_graft.Store.Pg.Ready.Laws.{ready_sessions-mark}
use prompt_graft.Store.Pg.Samples.{
  load_conversation_samples, all_samples, samples_of, buckets_of, distinct_comments, score_of_votes,
}
use prompt_graft.Store.Pg.Samples.Laws.{
  HasUnused, load_conversation_samples-unused, load_conversation_samples-mark_feedback_used,
}
use prompt_graft.Store.Feedback.Samples.{select_all, add_to_bucket}
use prompt_graft.Store.Feedback.Samples.Laws.{variant_count}
use prompt_graft.Store.Balance.{select_balanced, balance, take_one}

abbrev ref : SessionRef
ref = record { key_hash = codes "k"; session_id = codes "s" }

abbrev kind_variant : Variant ℕ
kind_variant = record { id = codes "v"; system_prompt = codes "be kind"; weight = 1 }

abbrev always : ℕ → Bool
always i = true

abbrev in_order : Bytes → Bytes → Bool
in_order a b = false

get_active_variants-set_variants_example :
    ((set_variants 5 always [] ref (kind_variant ∷ []) 60).0 ≡ true
      → ReadsAs in_order
          (set_variants 5 always [] ref (kind_variant ∷ []) 60).1
          ref
          (kind_variant ∷ [])
          60
        × ((other : SessionRef) (id : Bytes)
            → same_ref ref other ≡ false
            → active other id (set_variants 5 always [] ref (kind_variant ∷ []) 60).1
              ≡ active other id []))
    × ((set_variants 5 always [] ref (kind_variant ∷ []) 60).0 ≡ false
        → (set_variants 5 always [] ref (kind_variant ∷ []) 60).1 ≡ [])
get_active_variants-set_variants_example =
    get_active_variants-set_variants in_order 5 always [] ref kind_variant [] 60 tt

abbrev stored : List (VariantRow ℕ)
stored =
    record {
      ref = ref;
      id = codes "v";
      system_prompt = codes "be kind";
      weight = 1;
      active_until = 60;
      retired_at = none;
    }
    ∷ []

abbrev event : Event
event = record {
  ref = ref;
  conversation_id = codes "c";
  variant_id = codes "v";
  rating = pos 1;
  comment = none;
  created_at = 7;
  times_used = 0;
}

abbrev row : LogRow
row = record {
  ref = ref;
  conversation_id = codes "c";
  variant_id = some (codes "v");
  prompt = some (codes "why");
  response_text = some (codes "so");
}

abbrev tables : Tables ℕ
tables = record {
  variants = stored;
  feedback_events = event ∷ [];
  session_prompts = [];
  best_prompts = [];
  prompt_history = [];
  conversation_logs = row ∷ [];
  session_metadata = [];
}

abbrev unused : UnusedSession
unused = record { ref = ref; active_variants = 1; last_feedback_at = some 7 }

found : find_unused_variant_sessions 100 true stored (event ∷ []) 60 ≡ some (unused ∷ [])
unfolding find_unused_variant_sessions left_join distinct_refs max_time last_feedback keep same_ref
    ◌==◌
found = refl

find_unused_variant_sessions_iff_example :
    Memᴰ ref (map (λ (u : UnusedSession). u.ref) (unused ∷ []))
    ↔ (HasActive stored ref × AllOld 100 60 ref (event ∷ []))
find_unused_variant_sessions_iff_example =
    find_unused_variant_sessions_iff 100 60 stored (event ∷ []) (unused ∷ []) found ref

ready :
    ready_sessions 700 true
      (mark_session_optimized true 5 tables ref).1.session_metadata
      tables.conversation_logs
      tables.feedback_events
      (pos 1)
      60
    ≡ some (ref ∷ [])
unfolding ready_sessions mark_session_optimized upsert joined_events has_log has_enough distinct
    select keep same_ref ◌==◌ is_row distinct_refs
ready = refl

ready_sessions-mark_example : 5 + 60 * 10 < 700
ready_sessions-mark_example =
    ready_sessions-mark 5 700 60 tables ref (pos 1) (ref ∷ []) ready (Memᴰ.head refl)

abbrev sample : ConversationFeedback
sample = record {
  conversation_id = codes "c";
  variant_id = codes "v";
  score = pos 1;
  prompt = codes "why";
  response = codes "so";
  comment = [];
}

loaded : load_conversation_samples in_order true (row ∷ []) (event ∷ []) ref 2 ≡ some (sample ∷ [])
unfolding load_conversation_samples all_samples samples_of buckets_of distinct_comments
    score_of_votes select_all add_to_bucket select_balanced balance take_one keep same_ref ◌==◌
    is_row order_by insert_by
loaded = refl

load_conversation_samples-unused_example :
    All (λ (x : ConversationFeedback). HasUnused (event ∷ []) ref x.conversation_id) (sample ∷ [])
    × ((v : Bytes) → variant_count v (sample ∷ []) ≤ 2)
load_conversation_samples-unused_example =
    load_conversation_samples-unused in_order (row ∷ []) (event ∷ []) ref 2 (sample ∷ []) loaded

marked :
    load_conversation_samples in_order true
      (mark_feedback_used true 8 tables ref (codes "d" ∷ [])).1.conversation_logs
      (mark_feedback_used true 8 tables ref (codes "d" ∷ [])).1.feedback_events
      ref
      2
    ≡ some (sample ∷ [])
unfolding mark_feedback_used is_any load_conversation_samples all_samples samples_of buckets_of
    distinct_comments score_of_votes select_all add_to_bucket select_balanced balance take_one keep
    same_ref ◌==◌ is_row order_by insert_by
marked = refl

load_conversation_samples-mark_feedback_used_example :
    All
      (λ (x : ConversationFeedback). is_any (codes "d" ∷ []) x.conversation_id ≡ false)
      (sample ∷ [])
load_conversation_samples-mark_feedback_used_example =
    load_conversation_samples-mark_feedback_used in_order 8 tables ref (codes "d") [] 2
      (sample ∷ []) marked
