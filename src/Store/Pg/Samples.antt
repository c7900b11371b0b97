-- ===== src/Store/Pg/Samples.antt =====
-- `LoadConversationSamples` of internal/store/pg/store.go. A conversation has one row in
-- conversation_logs, so that the groups of the statement are the pairs of a row and a comment.
pub mod Laws
use prompt_graft.Base.{
  ℕ, ◌+◌, Bool, true, false, not, ◌&&◌, Option, none, some, List, [], ◌∷◌, ◌++◌, map, keep, length,
  eqb, ltb, if◌then◌else◌, Bytes, ◌==◌,
}
use prompt_graft.Base.Int.{ℤ, pos, negsuc, is_positive, is_negative}
use prompt_graft.Store.Types.{SessionRef, ConversationFeedback}
use prompt_graft.Store.Pg.{same_ref, Event, LogRow, is_row, order_by}
use prompt_graft.Store.Feedback.Samples.{Buckets, add_to_bucket, select_all}

-- COALESCE(…, '')
abbrev pub or_blank : Option Bytes → Bytes
or_blank none = []
or_blank (some x) = x

abbrev pub same_text : Option Bytes → Option Bytes → Bool
same_text none none = true
same_text (some a) (some b) = a == b
same_text _ _ = false

unfoldable pub distinct_comments : List (Option Bytes) → List (Option Bytes)
distinct_comments [] = []
distinct_comments (c ∷ cs) = c ∷ keep (λ d. not (same_text d c)) (distinct_comments cs)

-- fe.times_used = 0, of the conversation of the row
abbrev pub is_unused_event : LogRow → Event → Bool
is_unused_event row e = is_row e.ref e.conversation_id row && eqb e.times_used 0

unfoldable pub score_of_votes : ℕ → ℕ → ℤ
score_of_votes up down = if ltb down up then pos 1 else if ltb up down then negsuc 0 else pos 0

-- The ratings of a group, positive and negative ones counted
abbrev pub sample_of : LogRow → Bytes → Bytes → List Event → Option Bytes → ConversationFeedback
sample_of row prompt response events comment =
    let of_comment = keep (λ (e : Event). same_text e.comment comment) events in
    record {
      conversation_id = row.conversation_id;
      variant_id = or_blank row.variant_id;
      score =
          score_of_votes (length (keep (λ (e : Event). is_positive e.rating) of_comment))
            (length (keep (λ (e : Event). is_negative e.rating) of_comment));
      prompt = prompt;
      response = response;
      comment = or_blank comment;
    }

abbrev pub samples_of_texts :
    LogRow → List Event → Option Bytes → Option Bytes → List ConversationFeedback
samples_of_texts row events (some prompt) (some response) =
    map (sample_of row prompt response events)
      (distinct_comments (map (λ (e : Event). e.comment) events))
samples_of_texts row events _ _ = []

unfoldable pub samples_of : List Event → LogRow → List ConversationFeedback
samples_of events row =
    samples_of_texts row (keep (is_unused_event row) events) row.prompt row.response_text

unfoldable pub all_samples : List Event → List LogRow → List ConversationFeedback
all_samples events [] = []
all_samples events (row ∷ rows) = samples_of events row ++ all_samples events rows

unfoldable pub buckets_of : Buckets → List ConversationFeedback → Buckets
buckets_of buckets [] = buckets
buckets_of buckets (cf ∷ samples) = buckets_of (add_to_bucket cf buckets) samples

unfoldable pub load_conversation_samples :
    (Bytes → Bytes → Bool)
    → Bool
    → List LogRow
    → List Event
    → SessionRef
    → ℕ
    → Option (List ConversationFeedback)
load_conversation_samples before taken logs events ref per_variant =
    if taken
    then some (
        select_all per_variant (
          buckets_of [] (
            order_by (λ a b. before a.conversation_id b.conversation_id)
              (all_samples events (keep (λ (row : LogRow). same_ref row.ref ref) logs)))))
    else none
