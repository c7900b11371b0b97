-- ===== src/Store/Pg.antt =====
-- internal/store/pg/store.go, with the tables of internal/store/pg/migrations. A statement of SQL is a
-- function on the tables; `taken` is whether the server runs it, and what it fails leaves the tables
-- as they were. Times are in whole seconds, and `now` is the time of the server.
pub mod Variants
pub mod Sessions
pub mod Ready
pub mod Samples
pub mod Keys
pub mod Rows
pub mod Groups
use prompt_graft.Base.{
  ℕ, ◌+◌, Bool, true, false, ◌&&◌, Option, none, some, List, [], ◌∷◌, ◌++◌, map, take, is_empty,
  eqb, ltb, leb, keep, if◌then◌else◌, Bytes, ◌==◌,
}
use prompt_graft.Base.Int.{ℤ}
use prompt_graft.Store.Types.{BestPrompt, HistoryEntry, SessionRef, ConversationLog}
use prompt_graft.Provider.{Answer}

unfoldable pub same_ref : SessionRef → SessionRef → Bool
same_ref a b = (a.key_hash == b.key_hash) && (a.session_id == b.session_id)

pub record VariantRow (F : Type 0) : Type 0 where
  pub ref : SessionRef
  pub id : Bytes
  pub system_prompt : Bytes
  pub weight : F
  pub active_until : ℕ
  pub retired_at : Option ℕ

pub record Event : Type 0 where
  pub ref : SessionRef
  pub conversation_id : Bytes
  pub variant_id : Bytes
  pub rating : ℤ
  pub comment : Option Bytes
  pub created_at : ℕ
  pub times_used : ℕ

pub record LogRow : Type 0 where
  pub ref : SessionRef
  pub conversation_id : Bytes
  pub variant_id : Option Bytes
  pub prompt : Option Bytes
  pub response_text : Option Bytes

pub record HistoryRow (F : Type 0) : Type 0 where
  pub ref : SessionRef
  pub prompt : Bytes
  pub score : F
  pub promoted_at : ℕ
  pub retired_at : Option ℕ

-- The tables; session_prompts, best_prompts and session_metadata have one row for each session.
pub record Tables (F : Type 0) : Type 0 where
  pub variants : List (VariantRow F)
  pub feedback_events : List Event
  pub session_prompts : List (SessionRef × Bytes)
  pub best_prompts : List (SessionRef × BestPrompt F)
  pub prompt_history : List (HistoryRow F)
  pub conversation_logs : List LogRow
  pub session_metadata : List (SessionRef × ℕ)

-- INSERT … ON CONFLICT (key_hash, session_id) DO UPDATE
unfoldable pub upsert {ℓ} :
    {V : Type ℓ} → SessionRef → V → List (SessionRef × V) → List (SessionRef × V)
upsert ref v [] = (ref, v) ∷ []
upsert ref v ((r, w) ∷ rows) =
    if same_ref r ref then (ref, v) ∷ rows else (r, w) ∷ upsert ref v rows

-- SELECT … WHERE key_hash = $1 AND session_id = $2, of at most one row
unfoldable pub select {ℓ} : {V : Type ℓ} → SessionRef → List (SessionRef × V) → Option V
select ref [] = none
select ref ((r, v) ∷ rows) = if same_ref r ref then some v else select ref rows

-- ORDER BY, by the order of the database
unfoldable pub insert_by {ℓ} : {A : Type ℓ} → (A → A → Bool) → A → List A → List A
insert_by before a [] = a ∷ []
insert_by before a (b ∷ bs) = if before b a then b ∷ insert_by before a bs else a ∷ b ∷ bs

unfoldable pub order_by {ℓ} : {A : Type ℓ} → (A → A → Bool) → List A → List A
order_by before [] = []
order_by before (a ∷ rest) = insert_by before a (order_by before rest)

unfoldable pub nil_if_empty : Bytes → Option Bytes
nil_if_empty s = if is_empty s then none else some s

abbrev pub execute : {T : Type 0} → Bool → T → T → Bool × T
execute taken t next = if taken then (true, next) else (false, t)

abbrev pub prompt_of : Option Bytes → Answer
prompt_of none = record { text = []; failed = false }
prompt_of (some prompt) = record { text = prompt; failed = false }

abbrev pub or_zero : Option ℕ → ℕ
or_zero none = 0
or_zero (some n) = n

abbrev pub entry_of : {F : Type 0} → HistoryRow F → HistoryEntry F
entry_of row = record {
  prompt = row.prompt;
  score = row.score;
  promoted_at = row.promoted_at;
  retired_at = or_zero row.retired_at;
}

unfoldable pub is_row : SessionRef → Bytes → LogRow → Bool
is_row ref conversation row = same_ref row.ref ref && (row.conversation_id == conversation)

-- INSERT … ON CONFLICT (key_hash, session_id, conversation_id) DO NOTHING
unfoldable pub insert_new : LogRow → List LogRow → List LogRow
insert_new new [] = new ∷ []
insert_new new (row ∷ rows) =
    if is_row new.ref new.conversation_id row then row ∷ rows else row ∷ insert_new new rows

abbrev pub row_of : ConversationLog → LogRow
row_of entry = record {
  ref = record { key_hash = entry.key_hash; session_id = entry.session_id };
  conversation_id = entry.conversation_id;
  variant_id = nil_if_empty entry.variant_id;
  prompt = nil_if_empty entry.prompt;
  response_text = nil_if_empty entry.response_text;
}

-- conversation_id = ANY($3)
unfoldable pub is_any : List Bytes → Bytes → Bool
is_any [] id = false
is_any (x ∷ ids) id = if id == x then true else is_any ids id

abbrev pub use_event : SessionRef → List Bytes → Event → Event
use_event ref ids e =
    if same_ref e.ref ref && is_any ids e.conversation_id
    then record e { times_used = e.times_used + 1 }
    else e

module _ {F : Type 0} (taken : Bool) (now : ℕ) (t : Tables F) where
  unfoldable pub record_feedback : SessionRef → Bytes → Bytes → ℤ → Bytes → Bool × Tables F
  record_feedback ref conversation variant rating comment = execute taken t (record t {
    feedback_events =
        t.feedback_events
        ++ record {
          ref = ref;
          conversation_id = conversation;
          variant_id = variant;
          rating = rating;
          comment = nil_if_empty comment;
          created_at = now;
          times_used = 0;
        }
          ∷ [];
  })

  unfoldable pub set_session_prompt : SessionRef → Bytes → Bool × Tables F
  set_session_prompt ref prompt =
      execute taken t (record t { session_prompts = upsert ref prompt t.session_prompts })

  unfoldable pub get_session_prompt : SessionRef → Answer
  get_session_prompt ref =
      if taken
      then prompt_of (select ref t.session_prompts)
      else record { text = []; failed = true }

  unfoldable pub update_best_prompt : SessionRef → BestPrompt F → Bool × Tables F
  update_best_prompt ref best =
      execute taken t (record t { best_prompts = upsert ref best t.best_prompts })

  unfoldable pub get_best_prompt : SessionRef → Option (Option (BestPrompt F))
  get_best_prompt ref = if taken then some (select ref t.best_prompts) else none

  -- A retirement at the time 0 is none.
  unfoldable pub append_history : SessionRef → HistoryEntry F → Bool × Tables F
  append_history ref entry = execute taken t (record t {
    prompt_history =
        t.prompt_history
        ++ record {
          ref = ref;
          prompt = entry.prompt;
          score = entry.score;
          promoted_at = entry.promoted_at;
          retired_at = if eqb entry.retired_at 0 then none else some entry.retired_at;
        }
          ∷ [];
  })

  -- ORDER BY promoted_at DESC
  unfoldable pub get_history : SessionRef → ℕ → Option (List (HistoryEntry F))
  get_history ref limit =
      if taken
      then some (
          map entry_of (
            take limit (
              order_by (λ a b. leb b.promoted_at a.promoted_at)
                (keep (λ row. same_ref row.ref ref) t.prompt_history))))
      else none

  unfoldable pub insert_conversation_log : ConversationLog → Bool × Tables F
  insert_conversation_log entry =
      execute taken t
        (record t { conversation_logs = insert_new (row_of entry) t.conversation_logs })

  unfoldable pub mark_session_optimized : SessionRef → Bool × Tables F
  mark_session_optimized ref =
      execute taken t (record t { session_metadata = upsert ref now t.session_metadata })

  unfoldable pub mark_feedback_used : SessionRef → List Bytes → Bool × Tables F
  mark_feedback_used ref ids =
      if is_empty ids
      then (true, t)
      else execute taken t
          (record t { feedback_events = map (use_event ref ids) t.feedback_events })
