-- ===== src/Optimizer/Prompts.antt =====
-- The functions on texts of internal/optimizer/driver.go. `decode` is json.Unmarshal into []string.
pub mod Laws
use prompt_graft.Base.{
  ℕ, zero, suc, ◌+◌, ◌/◌, ◌%◌, Bool, true, false, ◌&&◌, Option, none, some, List, [], ◌∷◌, ◌++◌,
  map, is_empty, length, ltb, eqb, if◌then◌else◌, Bytes, codes,
}
use prompt_graft.Base.Decimal.{int_to_string}
use prompt_graft.Base.Int.{ℤ, pos, negsuc, eqb_ℤ}
use prompt_graft.Text.{has_prefix, trim_space, trim_prefix, split_text}
use prompt_graft.Store.Types.{ConversationFeedback}

abbrev pub is_positive_sample : ConversationFeedback → Bool
is_positive_sample s = eqb_ℤ s.score (pos 1)

unfoldable pub all_from : List ConversationFeedback → Bool
all_from [] = true
all_from (s ∷ samples) = let rest = all_from samples in if is_positive_sample s then rest else false

unfoldable pub all_positive : List ConversationFeedback → Bool
all_positive samples = if is_empty samples then false else all_from samples

unfoldable pub extract_conversation_ids : List ConversationFeedback → List Bytes
extract_conversation_ids samples = map (λ s. s.conversation_id) samples

-- The two characters of `\\n` in the Go source: a backslash and an n, no line break.
abbrev pub backslash_n : Bytes
backslash_n = 92 ∷ 110 ∷ []

unfoldable pub sample_text : ℕ → ConversationFeedback → Bytes
sample_text i s =
    codes "Sample "
    ++ int_to_string (pos (i + 1))
    ++ backslash_n
    ++ codes "PROMPT:"
    ++ backslash_n
    ++ s.prompt
    ++ backslash_n
    ++ codes "RESPONSE:"
    ++ backslash_n
    ++ (if is_empty s.response then s.prompt else s.response)
    ++ backslash_n
    ++ codes "SCORE: "
    ++ int_to_string s.score
    ++ (if is_empty s.comment then [] else backslash_n ++ codes "USER COMMENT: " ++ s.comment)
    ++ backslash_n
    ++ backslash_n

unfoldable pub sample_texts : ℕ → List ConversationFeedback → Bytes
sample_texts i [] = []
sample_texts i (s ∷ samples) = sample_text i s ++ sample_texts (suc i) samples

unfoldable pub build_analysis_prompt : List ConversationFeedback → Bytes
build_analysis_prompt samples =
    codes
      "You are analyzing prompt performance. Below are prompt/response pairs with scores (-1,0,1). For each, explain what worked and what failed. Provide a concise summary of improvements."
    ++ backslash_n
    ++ backslash_n
    ++ sample_texts 0 samples
    ++ codes "Summarize what works and what to improve. Return bullet points."

unfoldable pub build_generation_prompt : Bytes → ℤ → Bytes
build_generation_prompt analysis output_size =
    codes "Using the analysis below, generate "
    ++ int_to_string output_size
    ++ codes " improved system prompts. Output ONLY a JSON array of strings."
    ++ backslash_n
    ++ backslash_n
    ++ codes "ANALYSIS:"
    ++ backslash_n
    ++ analysis

abbrev pub cleaned : Bytes → Bytes
cleaned s = trim_space (trim_prefix (trim_space s) (codes "-"))

unfoldable pub clean_candidates : List Bytes → List Bytes
clean_candidates [] = []
clean_candidates (s ∷ list) =
    let rest = clean_candidates list in if is_empty (cleaned s) then rest else cleaned s ∷ rest

abbrev or_lines : Bytes → Option (List Bytes) → List Bytes
or_lines raw none = split_text raw backslash_n
or_lines raw (some out) = out

unfoldable pub parse_candidates : (Bytes → Option (List Bytes)) → Bytes → List Bytes
parse_candidates decode raw =
    let trimmed = trim_space raw in
    if is_empty trimmed
    then []
    else clean_candidates
        (or_lines trimmed (if has_prefix trimmed (codes "[") then decode trimmed else none))

unfoldable pub common_prefix : Bytes → Bytes → Bytes
common_prefix [] b = []
common_prefix (x ∷ a) [] = []
common_prefix (x ∷ a) (y ∷ b) = let rest = common_prefix a b in if eqb x y then x ∷ rest else []

-- for i := 1; …; the loop breaks on an empty template.
unfoldable pub shared_from : Bytes → List ConversationFeedback → Bytes
shared_from template [] = template
shared_from template (s ∷ samples) =
    let shorter = common_prefix template s.prompt in
    let rest = shared_from shorter samples in if is_empty shorter then shorter else rest

unfoldable pub derive_template : List ConversationFeedback → Bytes
derive_template [] = []
derive_template (s ∷ samples) = trim_space (shared_from s.prompt samples)
