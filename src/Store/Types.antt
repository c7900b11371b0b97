-- ===== src/Store/Types.antt =====
-- The data that the stores exchange with their clients (internal/store/store.go). `F` is float64;
-- times are Unix seconds.
use prompt_graft.Base.{ℕ, List, Option, Bytes}
use prompt_graft.Base.Int.{ℤ}

pub record Variant (F : Type 0) : Type 0 where
  pub id : Bytes
  pub system_prompt : Bytes
  pub weight : F

pub record VariantSet (F : Type 0) : Type 0 where
  pub variants : List (Variant F)
  pub active_until : ℕ

pub record BestPrompt (F : Type 0) : Type 0 where
  pub prompt : Bytes
  pub score : F
  pub promoted_at : ℕ

pub record HistoryEntry (F : Type 0) : Type 0 where
  pub prompt : Bytes
  pub score : F
  pub promoted_at : ℕ
  pub retired_at : ℕ

pub record FeedbackSummary : Type 0 where
  pub up : ℤ
  pub down : ℤ

pub record ConversationFeedback : Type 0 where
  pub conversation_id : Bytes
  pub variant_id : Bytes
  pub score : ℤ
  pub prompt : Bytes
  pub response : Bytes
  pub comment : Bytes

pub record SessionInfo : Type 0 where
  pub session_id : Bytes
  pub variant_id : Bytes
  pub conversation_id : Bytes
  pub prompt_snippet : Bytes
  pub feedback_summary : FeedbackSummary

pub record VariantsInfo (F : Type 0) : Type 0 where
  pub session_id : Bytes
  pub variants : List (Variant F)
  pub best_prompt : Option (BestPrompt F)
  pub history : List (HistoryEntry F)

pub record SessionRef : Type 0 where
  pub key_hash : Bytes
  pub session_id : Bytes

pub record ConversationLog : Type 0 where
  pub key_hash : Bytes
  pub session_id : Bytes
  pub conversation_id : Bytes
  pub variant_id : Bytes
  pub prompt : Bytes
  pub response_text : Bytes
