-- ===== src/Store/Feedback/Dataset.antt =====
-- `datasetFromSession` of internal/store/redis/feedback.go: a loop over the log, whose newest entry is
-- the first.
pub mod Laws
use prompt_graft.Base.{
  ℕ, Bool, true, false, not, ◌||◌, Option, none, some, List, [], ◌∷◌, is_empty, if◌then◌else◌,
  Bytes,
}
use prompt_graft.Base.Int.{ℤ, pos, negsuc, ltb_ℤ}
use prompt_graft.Base.Decimal.{parse_int}
use prompt_graft.Store.Types.{SessionRef}
use prompt_graft.Store.Keys.{key_log, key_conversation_feedback}
use prompt_graft.Store.Log.{Role, request, response, LogEntry, first_text₂, first_text₃}
use prompt_graft.Store.Hashes.{Redis}
use prompt_graft.Store.Feedback.{up, down, comment_field}
use prompt_graft.Gepa.Dataset.{DataPoint}

-- The variables of the loop that a request sets.
pub record Pending : Type 0 where
  pub prompt : Bytes
  pub variant_id : Bytes
  pub conversation_id : Bytes

abbrev pub no_request : Pending
no_request = record { prompt = []; variant_id = []; conversation_id = [] }

-- 1 for more votes up than down, -1 for more down than up, else 0
unfoldable pub score_of : (Bytes → Bytes) → ℤ
score_of vals =
    if ltb_ℤ (parse_int (vals down)) (parse_int (vals up))
    then pos 1
    else if ltb_ℤ (parse_int (vals up)) (parse_int (vals down))
    then negsuc 0
    else pos 0

abbrev pub Rated : Type 0
Rated = ℤ × Bytes

abbrev pub rated_of : Option (Bytes → Bytes) → Rated
rated_of none = (pos 0, [])
rated_of (some vals) = (score_of vals, vals comment_field)

-- float64 of the ratings is a parameter.
module _ {F S : Type 0} (float : ℤ → F) (redis : Redis S) where
  unfoldable pub rating_of : S → SessionRef → Bytes → Rated
  rating_of s ref conversation =
      if is_empty conversation
      then (pos 0, [])
      else rated_of
          (redis.hgetall s (key_conversation_feedback ref.key_hash ref.session_id conversation))

  abbrev pub pending_of : LogEntry → Pending
  pending_of e = record {
    prompt = first_text₃ e.prompt_original e.prompt e.prompt_snippet;
    variant_id = e.variant_id;
    conversation_id = e.conversation_id;
  }

  abbrev pub point_of : Pending → Bytes → Rated → DataPoint F
  point_of p output (score, comment) = record {
    input = p.prompt;
    output = output;
    rating = float score;
    asi = [];
    variant_id = p.variant_id;
    comment = comment;
  }

  abbrev pub answered : S → SessionRef → Pending → Bytes → List (DataPoint F) → List (DataPoint F)
  answered s ref p output rest =
      if not (is_empty p.prompt) || not (is_empty output)
      then point_of p output (rating_of s ref p.conversation_id) ∷ rest
      else rest

  unfoldable pub dataset_from : S → SessionRef → Pending → List LogEntry → List (DataPoint F)
  dataset_from s ref p [] = []
  dataset_from s ref p (e ∷ log) = elim e.role [
    | request ↦ dataset_from s ref (pending_of e) log
    | response ↦
        answered s ref p (first_text₂ e.response_text e.response_snippet)
          (dataset_from s ref no_request log)
  ]

  abbrev pub dataset_of : S → SessionRef → Option (List LogEntry) → Option (List (DataPoint F))
  dataset_of s ref none = none
  dataset_of s ref (some log) = some (dataset_from s ref no_request log)

  unfoldable pub dataset_from_session : S → SessionRef → Option (List (DataPoint F))
  dataset_from_session s ref =
      dataset_of s ref (redis.log_range s (key_log ref.key_hash ref.session_id) 50)
