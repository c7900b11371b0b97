-- ===== src/Store/FeedbackTests.antt =====
-- The feedback half of Redis (internal/store/redis/feedback.go) on concrete states.
use prompt_graft.Base.{
  ℕ, ◌+◌, ◌≤◌, true, not, ◌&&◌, some, List, [], ◌∷◌, map, ◌≡◌, refl, inr, if◌then◌else◌, ltb, Bytes,
  codes, ◌==◌, arith, All, Memᴰ,
}
use prompt_graft.Base.Int.{ℤ, pos, ltb_ℤ}
use prompt_graft.Base.Decimal.{parse_int, int_to_string, digits, IsInt64}
use prompt_graft.Store.Types.{SessionRef, ConversationFeedback}
use prompt_graft.Store.Keys.{key_session_feedback, key_conversation_feedback}
use prompt_graft.Store.Log.{Role, request, response, LogEntry}
use prompt_graft.Store.Feedback.{
  up, total_rated, record_feedback, mark_session_optimized, rating_commands, conversation_part,
  session_part, vote,
}
use prompt_graft.Store.Feedback.Counts.{record_feedback-counts}
use prompt_graft.Store.Feedback.Counts.Parts.{rated}
use prompt_graft.Store.Feedback.Ready.{ready_key}
use prompt_graft.Store.Feedback.Ready.Laws.{ready_key-mark}
use prompt_graft.Store.Feedback.Rollup.{rollup}
use prompt_graft.Store.Feedback.Rollup.Twice.{conversation-IsRated, rollup_counts_twice}
use prompt_graft.Store.Feedback.Rollup.Owed.{owed, IsRated, IsVote, flat}
use prompt_graft.Store.Feedback.Rollup.Laws.{rollup_moves}
use prompt_graft.Store.Feedback.Dataset.{
  dataset_from_session, dataset_from, point_of, pending_of, rating_of, no_request,
}
use prompt_graft.Store.Feedback.Dataset.Laws.{
  dataset_pairs_older, dataset_from_session-IsPoint, IsPoint,
}
use prompt_graft.Store.Feedback.Samples.{
  load_conversation_samples, select_all, sort_by_id, rate, rate_keys, rate_pages, convo_map, fill,
  take_in, add_to_bucket, store_convo, find_convo,
}
use prompt_graft.Store.Feedback.Samples.Laws.{variant_count}
use prompt_graft.Store.Feedback.Samples.Sort.{IsOrdered}
use prompt_graft.Store.Feedback.Samples.Origin.{
  IsSample, IsLogged, log_of, load_conversation_samples_lem,
}
use prompt_graft.Base.{keep}
use prompt_graft.Text.{trim_prefix, has_prefix}
use prompt_graft.Store.Balance.{select_balanced, balance, take_one}
use prompt_graft.Store.Feedback.Dataset.{score_of}
use prompt_graft.Base.Decimal.{is_digit, parse_digits, parse_uint}
use prompt_graft.Store.Feedback.Samples.{insert_by_id, is_before}
use prompt_graft.Store.MiniRedis.{
  run_commands, run_command, Mini, mini, mini-IsRedis, mini-IsUp, field_of, held,
}

abbrev ref : SessionRef
ref = record { key_hash = codes "k"; session_id = codes "s" }

abbrev empty : Mini
empty = record { writes = []; log = [] }

abbrev session_key : Bytes
session_key = key_session_feedback ref.key_hash ref.session_id

abbrev liked : Mini
liked = (record_feedback mini 5 empty ref (codes "c") (codes "v") (pos 1) (codes "nice")).1

nothing_held : (k f : Bytes) → parse_int (field_of empty k f) ≡ pos 0
unfolding parse_int held
nothing_held k f = refl

record_feedback-counts_example :
    parse_int (field_of liked session_key total_rated)
    ≡ pos (0 + rated ref (codes "c") (pos 1) session_key total_rated)
unfolding record_feedback
record_feedback-counts_example =
    record_feedback-counts mini field_of mini-IsRedis 5 empty ref (codes "c") (codes "v") (pos 1)
      (codes "nice") session_key total_rated 0 refl refl (inr (inr refl))
      (nothing_held session_key total_rated) bound
  where
    bound : IsInt64 (0 + rated ref (codes "c") (pos 1) session_key total_rated)
    bound = ground arith

ready_key-mark_example :
    ready_key mini 100 (pos 1) 60 (mark_session_optimized mini 50 liked ref).1 session_key ≡ (
      if not (ltb_ℤ (parse_int (field_of liked session_key total_rated)) (pos 1))
        && not (ltb 100 (50 + 60))
      then ref ∷ []
      else [])
ready_key-mark_example =
    ready_key-mark mini field_of mini-IsRedis mini-IsUp 50 100 60 (pos 1) liked ref
      ((refl, tt), (refl, tt)) (omega arith) (omega arith)

abbrev conversation_key : Bytes
conversation_key = key_conversation_feedback ref.key_hash ref.session_id (codes "c")

-- SCAN gives the key twice.
abbrev twice : List (List Bytes)
twice = (conversation_key ∷ conversation_key ∷ []) ∷ []

rollup_moves_example :
    ((rollup mini ref liked (map some twice)).0 ≡ true)
    × ((t f : Bytes) (m : ℕ)
        → ¬ IsRated ref t
        → IsVote f
        → parse_int (field_of liked t f) ≡ pos m
        → IsInt64 (m + owed ref t f (field_of liked) (flat twice))
        → parse_int (field_of (rollup mini ref liked (map some twice)).1 t f)
          ≡ pos (m + owed ref t f (field_of liked) (flat twice)))
    × ((k g : Bytes)
        → Memᴰ k (flat twice)
        → field_of (rollup mini ref liked (map some twice)).1 k g ≡ [])
rollup_moves_example =
    rollup_moves mini field_of mini-IsRedis mini-IsUp ref twice liked
      (conversation-IsRated ref (codes "c"), (conversation-IsRated ref (codes "c"), tt))

rollup_counts_twice_example :
    parse_int (
      field_of
        (rollup mini ref
          (record_feedback mini 5 empty ref (codes "c") [] (pos 1) []).1
          (some (conversation_key ∷ []) ∷ [])).1
        session_key
        up)
    ≡ pos (0 + 2)
unfolding held
rollup_counts_twice_example =
    rollup_counts_twice mini field_of mini-IsRedis mini-IsUp 5 empty ref (codes "c") (pos 1) [] 0
      refl refl (λ f. refl) (nothing_held session_key up) (omega arith)

abbrev entry : Role → Bytes → Bytes → LogEntry
entry role prompt text = record {
  ts = 1;
  role = role;
  content_type = [];
  prompt_snippet = [];
  prompt = prompt;
  prompt_original = [];
  variant_id = codes "v";
  conversation_id = codes "c";
  response_text = text;
  response_snippet = [];
  session_id = codes "s";
}

abbrev logged : Mini
logged = record {
  writes = liked.writes;
  log =
      entry response [] (codes "yes")
      ∷ entry request (codes "why") []
      ∷ entry response [] (codes "so")
      ∷ [];
}

abbrev rating_itself : ℤ → ℤ
rating_itself z = z

dataset_pairs_older_example :
    dataset_from_session rating_itself mini logged ref
    ≡ some (
        point_of rating_itself mini no_request (codes "yes") (pos 0, [])
        ∷ point_of rating_itself mini
            (pending_of rating_itself mini (entry request (codes "why") []))
            (codes "so")
            (rating_of rating_itself mini logged ref (codes "c"))
        ∷ dataset_from rating_itself mini logged ref no_request [])
dataset_pairs_older_example =
    dataset_pairs_older rating_itself mini logged ref (entry response [] (codes "yes"))
      (entry request (codes "why") []) (entry response [] (codes "so")) [] refl refl refl refl refl
      refl

abbrev sample : ConversationFeedback
sample = record {
  conversation_id = codes "c";
  variant_id = codes "v";
  score = pos 1;
  prompt = codes "why";
  response = codes "yes";
  comment = codes "nice";
}

loaded :
    load_conversation_samples mini logged ref 2 (some (conversation_key ∷ []) ∷ [])
    ≡ some (sample ∷ [])
unfolding load_conversation_samples rate_pages sort_by_id select_all rate_keys find_convo convo_map
    fill ◌==◌ take_in trim_prefix key_conversation_feedback add_to_bucket select_balanced balance
    take_one keep rate is_digit parse_digits parse_int parse_uint score_of insert_by_id is_before
    store_convo has_prefix run_commands run_command held record_feedback rating_commands
    conversation_part session_part vote int_to_string digits key_session_feedback
loaded = refl

load_conversation_samples_lem_example :
    All (IsSample (IsLogged (log_of mini logged ref))) (sample ∷ [])
    × (IsOrdered (sample ∷ []) × ((v : Bytes) → variant_count v (sample ∷ []) ≤ 2))
load_conversation_samples_lem_example =
    load_conversation_samples_lem mini logged ref 2 (some (conversation_key ∷ []) ∷ [])
      (sample ∷ []) loaded

dataset_found :
    dataset_from_session rating_itself mini logged ref
    ≡ some (dataset_from rating_itself mini logged ref no_request logged.log)
unfolding dataset_from_session
dataset_found = refl

dataset_from_session-IsPoint_example :
    All
      (IsPoint rating_itself mini)
      (dataset_from rating_itself mini logged ref no_request logged.log)
dataset_from_session-IsPoint_example =
    dataset_from_session-IsPoint rating_itself mini logged ref
      (dataset_from rating_itself mini logged ref no_request logged.log) dataset_found
