-- ===== src/Store/Feedback.antt =====
-- internal/store/redis/feedback.go: what is recorded and read of ratings, over the commands of Redis.
-- Times and ages are in whole seconds.
pub mod Ready
pub mod Dataset
pub mod Samples
pub mod Rollup
pub mod Counts
use prompt_graft.Base.{
  ℕ, Bool, true, false, Option, none, some, List, [], ◌∷◌, ◌++◌, map, is_empty, if◌then◌else◌,
  Bytes, codes,
}
use prompt_graft.Base.Int.{ℤ, pos, negsuc, is_positive, is_negative}
use prompt_graft.Base.Decimal.{int_to_string, parse_int}
use prompt_graft.Store.Types.{
  Variant, VariantSet, BestPrompt, HistoryEntry, FeedbackSummary, SessionInfo, VariantsInfo,
  SessionRef,
}
use prompt_graft.Store.Keys.{
  key_variants, key_log, key_feedback, key_session_feedback, key_conversation_feedback,
  key_best_prompt, key_history,
}
use prompt_graft.Store.Log.{Role, request, response, LogEntry}
use prompt_graft.Store.Variants.{SetCodec}
use prompt_graft.Store.Hashes.{Command, hincrby, hset, expire, hdel, set, lpush, ltrim, Redis}

abbrev pub up : Bytes
up = codes "up"

abbrev pub down : Bytes
down = codes "down"

abbrev pub total_rated : Bytes
total_rated = codes "totalRated"

abbrev pub last_updated : Bytes
last_updated = codes "lastUpdated"

abbrev pub last_optimized : Bytes
last_optimized = codes "lastOptimized"

abbrev pub variant_field : Bytes
variant_field = codes "variantId"

abbrev pub comment_field : Bytes
comment_field = codes "comment"

-- 90 days
abbrev pub rating_age : ℕ
rating_age = 7776000

-- The vote that a rating counts as, if any.
unfoldable pub vote : Bytes → ℤ → List Command
vote key rating =
    if is_positive rating
    then hincrby key up 1 ∷ []
    else if is_negative rating
    then hincrby key down 1 ∷ []
    else []

abbrev pub comment_command : Bytes → Bytes → List Command
comment_command key comment = if is_empty comment then [] else hset key comment_field comment ∷ []

-- The commands on the hash of the conversation.
unfoldable pub conversation_part : ℕ → Bytes → Bytes → ℤ → Bytes → List Command
conversation_part now key variant rating comment =
    vote key rating
    ++ (hset key variant_field variant
        ∷ hset key last_updated (int_to_string (pos now))
        ∷ (comment_command key comment ++ expire key rating_age ∷ []))

-- The commands on the hash of the session.
unfoldable pub session_part : ℕ → Bytes → ℤ → List Command
session_part now key rating =
    hincrby key total_rated 1
    ∷ (vote key rating ++ hset key last_updated (int_to_string (pos now)) ∷ [])

unfoldable pub rating_commands : ℕ → SessionRef → Bytes → Bytes → ℤ → Bytes → List Command
rating_commands now ref conversation variant rating comment =
    conversation_part now (key_conversation_feedback ref.key_hash ref.session_id conversation)
      variant rating comment
    ++ session_part now (key_session_feedback ref.key_hash ref.session_id) rating

abbrev pub summary_of : Option (Bytes → Bytes) → Option FeedbackSummary
summary_of none = none
summary_of (some vals) = some (record { up = parse_int (vals up); down = parse_int (vals down) })

abbrev pub empty_summary : FeedbackSummary
empty_summary = record { up = pos 0; down = pos 0 }

-- What a loop over the log keeps of the newest request and the newest variant.
pub record Latest : Type 0 where
  pub variant_id : Bytes
  pub prompt_snippet : Bytes
  pub conversation_id : Bytes

unfoldable pub is_request : Role → Bool
is_request request = true
is_request response = false

abbrev pub see_request : LogEntry → Latest → Latest
see_request e l =
    if is_request e.role
    then (if is_empty l.prompt_snippet
        then record l { prompt_snippet = e.prompt_snippet; conversation_id = e.conversation_id }
        else l)
    else l

abbrev pub see_variant : LogEntry → Latest → Latest
see_variant e l =
    if is_empty e.variant_id
    then l
    else (if is_empty l.variant_id then record l { variant_id = e.variant_id } else l)

unfoldable pub latest_from : Latest → List LogEntry → Latest
latest_from l [] = l
latest_from l (e ∷ log) = latest_from (see_variant e (see_request e l)) log

abbrev pub or_none {ℓ} : {A : Type ℓ} → Option (List A) → List A
or_none none = []
or_none (some xs) = xs

module _ {S : Type 0} (redis : Redis S) where
  unfoldable pub record_feedback : ℕ → S → SessionRef → Bytes → Bytes → ℤ → Bytes → Bool × S
  record_feedback now s ref conversation variant rating comment =
      if is_empty conversation
      then (true, s)
      else redis.exec s (rating_commands now ref conversation variant rating comment)

  unfoldable pub get_variant_feedback : S → SessionRef → Bytes → Option FeedbackSummary
  get_variant_feedback s ref variant =
      if is_empty variant
      then some empty_summary
      else summary_of (redis.hgetall s (key_feedback ref.key_hash ref.session_id variant))

  unfoldable pub get_session_feedback : S → SessionRef → Option FeedbackSummary
  get_session_feedback s ref =
      summary_of (redis.hgetall s (key_session_feedback ref.key_hash ref.session_id))

  -- An error of `GetVariantFeedback` is dropped: the summary is then the empty one.
  abbrev pub or_empty : Option FeedbackSummary → FeedbackSummary
  or_empty none = empty_summary
  or_empty (some summary) = summary

  unfoldable pub info_of : S → SessionRef → Latest → SessionInfo
  info_of s ref l = record {
    session_id = ref.session_id;
    variant_id = l.variant_id;
    conversation_id = l.conversation_id;
    prompt_snippet = l.prompt_snippet;
    feedback_summary = or_empty (get_variant_feedback s ref l.variant_id);
  }

  unfoldable pub get_session_info : S → SessionRef → SessionInfo
  get_session_info s ref = info_of s ref (
      latest_from (record { variant_id = []; prompt_snippet = []; conversation_id = [] })
        (or_none (redis.log_range s (key_log ref.key_hash ref.session_id) 20)))

  unfoldable pub mark_session_optimized : ℕ → S → SessionRef → Bool × S
  mark_session_optimized now s ref = redis.exec s (
      hset (key_session_feedback ref.key_hash ref.session_id) last_optimized
        (int_to_string (pos now))
      ∷ [])

  unfoldable pub append_history : S → SessionRef → Bytes → Bool × S
  append_history s ref raw = redis.exec s (
      lpush (key_history ref.key_hash ref.session_id) raw
      ∷ ltrim (key_history ref.key_hash ref.session_id) 49
      ∷ [])

  unfoldable pub update_best_prompt : S → SessionRef → Bytes → Bool × S
  update_best_prompt s ref raw =
      redis.exec s (set (key_best_prompt ref.key_hash ref.session_id) raw ∷ [])

  -- HDEL names no field.
  unfoldable pub used_commands : SessionRef → List Bytes → List Command
  used_commands ref ids =
      map (λ c. hdel (key_conversation_feedback ref.key_hash ref.session_id c) []) ids

  unfoldable pub mark_feedback_used : S → SessionRef → List Bytes → Bool × S
  mark_feedback_used s ref ids =
      if is_empty ids then (true, s) else redis.exec s (used_commands ref ids)

-- json.Marshal and json.Unmarshal of the values that Redis keeps.
pub record Codecs (F : Type 0) : Type 0 where
  pub decode_set : Bytes → Option (VariantSet F)
  pub decode_best : Bytes → Option (BestPrompt F)
  pub decode_entry : Bytes → Option (HistoryEntry F)

abbrev pub then_decode {ℓ} : {A : Type ℓ} → (Bytes → Option A) → Option Bytes → Option A
then_decode decode none = none
then_decode decode (some raw) = decode raw

abbrev pub variants_of : {F : Type 0} → Option (VariantSet F) → List (Variant F)
variants_of none = []
variants_of (some vs) = vs.variants

-- Entries that do not decode are left out.
abbrev pub cons_decoded {ℓ} : {A : Type ℓ} → Option A → List A → List A
cons_decoded none xs = xs
cons_decoded (some x) xs = x ∷ xs

unfoldable pub decode_all {ℓ} : {A : Type ℓ} → (Bytes → Option A) → List Bytes → List A
decode_all decode [] = []
decode_all decode (raw ∷ raws) = cons_decoded (decode raw) (decode_all decode raws)

module _ {F S : Type 0} (redis : Redis S) (codecs : Codecs F) where
  unfoldable pub get_variants_info : S → SessionRef → VariantsInfo F
  get_variants_info s ref = record {
    session_id = ref.session_id;
    variants =
        variants_of
          (then_decode codecs.decode_set (redis.get s (key_variants ref.key_hash ref.session_id)));
    best_prompt =
        then_decode codecs.decode_best (redis.get s (key_best_prompt ref.key_hash ref.session_id));
    history =
        decode_all codecs.decode_entry
          (or_none (redis.lrange s (key_history ref.key_hash ref.session_id) 49));
  }
