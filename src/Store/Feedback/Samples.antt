-- ===== src/Store/Feedback/Samples.antt =====
-- `LoadConversationSamples` of internal/store/redis/feedback.go. A map is an association list in the
-- order of first entry; `pages` are the answers of the SCAN calls.
pub mod Laws
pub mod Sort
pub mod Origin
use prompt_graft.Base.{
  ℕ, Bool, true, false, Option, none, some, List, [], ◌∷◌, ◌++◌, is_empty, ltb, if◌then◌else◌,
  Bytes, codes, ◌==◌, eqb,
}
use prompt_graft.Base.Int.{pos}
use prompt_graft.Text.{trim_prefix}
use prompt_graft.Store.Types.{ConversationFeedback, SessionRef}
use prompt_graft.Store.Keys.{key_log, key_conversation_feedback}
use prompt_graft.Store.Log.{Role, request, response, LogEntry, first_text₂, first_text₃}
use prompt_graft.Store.Balance.{select_balanced}
use prompt_graft.Store.Hashes.{Redis}
use prompt_graft.Store.Feedback.{variant_field, comment_field, or_none}
use prompt_graft.Store.Feedback.Ready.{Pages}
use prompt_graft.Store.Feedback.Dataset.{score_of}

abbrev pub started : LogEntry → ConversationFeedback
started e = record {
  conversation_id = e.conversation_id;
  variant_id = e.variant_id;
  score = pos 0;
  prompt = [];
  response = [];
  comment = [];
}

-- A text that is still empty is filled, and the variant with it.
abbrev pub with_prompt : LogEntry → ConversationFeedback → ConversationFeedback
with_prompt e cf = record cf {
  prompt = first_text₃ e.prompt_original e.prompt e.prompt_snippet;
  variant_id = first_text₂ cf.variant_id e.variant_id;
}

abbrev pub with_response : LogEntry → ConversationFeedback → ConversationFeedback
with_response e cf = record cf {
  response = first_text₂ e.response_text e.response_snippet;
  variant_id = first_text₂ cf.variant_id e.variant_id;
}

unfoldable pub take_in : Role → LogEntry → ConversationFeedback → ConversationFeedback
take_in request e cf = if is_empty cf.prompt then with_prompt e cf else cf
take_in response e cf = if is_empty cf.response then with_response e cf else cf

abbrev pub Convos : Type 0
Convos = List ConversationFeedback

-- convoMap[entry.ConversationID], made where it is missing
unfoldable pub fill : Convos → LogEntry → Convos
fill [] e = take_in e.role e (started e) ∷ []
fill (cf ∷ m) e =
    if cf.conversation_id == e.conversation_id then take_in e.role e cf ∷ m else cf ∷ fill m e

unfoldable pub convo_map : Convos → List LogEntry → Convos
convo_map m [] = m
convo_map m (e ∷ log) = convo_map (if is_empty e.conversation_id then m else fill m e) log

unfoldable pub find_convo : Bytes → Convos → Option ConversationFeedback
find_convo id [] = none
find_convo id (cf ∷ m) = if cf.conversation_id == id then some cf else find_convo id m

-- *cf = rated
unfoldable pub store_convo : ConversationFeedback → Convos → Convos
store_convo rated [] = []
store_convo rated (cf ∷ m) =
    if cf.conversation_id == rated.conversation_id then rated ∷ m else cf ∷ store_convo rated m

unfoldable pub rate : (Bytes → Bytes) → ConversationFeedback → ConversationFeedback
rate vals cf = record cf {
  score = score_of vals;
  variant_id = first_text₂ cf.variant_id (vals variant_field);
  comment = first_text₂ cf.comment (vals comment_field);
}

abbrev pub Buckets : Type 0
Buckets = List (Bytes × List ConversationFeedback)

unfoldable pub add_to_bucket : ConversationFeedback → Buckets → Buckets
add_to_bucket cf [] = (cf.variant_id, cf ∷ []) ∷ []
add_to_bucket cf ((v, list) ∷ buckets) =
    if v == cf.variant_id
    then (v, list ++ cf ∷ []) ∷ buckets
    else (v, list) ∷ add_to_bucket cf buckets

unfoldable pub select_all : ℕ → Buckets → List ConversationFeedback
select_all n [] = []
select_all n ((v, list) ∷ buckets) = select_balanced list n ++ select_all n buckets

-- s < t, by bytes
unfoldable pub is_before : Bytes → Bytes → Bool
is_before s [] = false
is_before [] (b ∷ t) = true
is_before (a ∷ s) (b ∷ t) =
    let rest = is_before s t in if ltb a b then true else if eqb a b then rest else false

-- sort.Slice by the conversation
unfoldable pub insert_by_id :
    ConversationFeedback → List ConversationFeedback → List ConversationFeedback
insert_by_id cf [] = cf ∷ []
insert_by_id cf (x ∷ xs) =
    if is_before x.conversation_id cf.conversation_id then x ∷ insert_by_id cf xs else cf ∷ x ∷ xs

unfoldable pub sort_by_id : List ConversationFeedback → List ConversationFeedback
sort_by_id [] = []
sort_by_id (x ∷ xs) = insert_by_id x (sort_by_id xs)

module _ {S : Type 0} (redis : Redis S) where
  abbrev pub State : Type 0
  State = Convos × Buckets

  abbrev pub rate_found : (Bytes → Bytes) → State → Option ConversationFeedback → State
  rate_found vals (m, buckets) none = (m, buckets)
  rate_found vals (m, buckets) (some cf) =
      (store_convo (rate vals cf) m, add_to_bucket (rate vals cf) buckets)

  abbrev pub rate_answer : SessionRef → Bytes → State → Option (Bytes → Bytes) → State
  rate_answer ref key st none = st
  rate_answer ref key st (some vals) =
      rate_found vals st (
        find_convo (trim_prefix key (key_conversation_feedback ref.key_hash ref.session_id []))
          st.0)

  unfoldable pub rate_keys : S → SessionRef → State → List Bytes → State
  rate_keys s ref st [] = st
  rate_keys s ref st (key ∷ keys) =
      rate_keys s ref (rate_answer ref key st (redis.hgetall s key)) keys

  unfoldable pub rate_pages : S → SessionRef → State → Pages → Option State
  rate_pages s ref st [] = some st
  rate_pages s ref st (none ∷ pages) = none
  rate_pages s ref st (some keys ∷ pages) = rate_pages s ref (rate_keys s ref st keys) pages

  abbrev pub selected : ℕ → Option State → Option (List ConversationFeedback)
  selected n none = none
  selected n (some (m, buckets)) = some (sort_by_id (select_all n buckets))

  unfoldable pub load_conversation_samples :
      S → SessionRef → ℕ → Pages → Option (List ConversationFeedback)
  load_conversation_samples s ref per_variant pages = selected per_variant (
      rate_pages s ref
        (convo_map [] (or_none (redis.log_range s (key_log ref.key_hash ref.session_id) 200)), [])
        pages)
