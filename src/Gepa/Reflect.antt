-- ===== src/Gepa/Reflect.antt =====
-- internal/optimizer/gepa/reflect.go. The model is a parameter on a state `W`, `none` for no model; a
-- completion is `none` on an error. `show` is the format "%.3f".
use prompt_graft.Base.{
  ℕ, suc, ◌+◌, ◌-◌, Option, none, some, List, [], ◌∷◌, ◌++◌, ◌≢◌, is_empty, take, drop, ltb,
  if◌then◌else◌, Bytes, codes,
}
use prompt_graft.Base.Int.{pos}
use prompt_graft.Base.Float.{Floats}
use prompt_graft.Text.{index, trim_space, to_lower}
use prompt_graft.Base.Decimal.{int_to_string}
use prompt_graft.Gepa.Candidate.{Candidate}
use prompt_graft.Gepa.Dataset.{DataPoint, Dataset}
use prompt_graft.Gepa.Run.{ReflectionResult}

abbrev newline : Bytes
newline = 10 ∷ []

unfoldable pub build_mutation_prompt : Bytes → Bytes → Bytes → Bytes
build_mutation_prompt parent asi suggestions =
    codes "CURRENT SYSTEM PROMPT:"
    ++ newline
    ++ parent
    ++ newline
    ++ newline
    ++ codes "DIAGNOSIS (what is going wrong and why):"
    ++ newline
    ++ asi
    ++ newline
    ++ newline
    ++ codes "SUGGESTIONS:"
    ++ newline
    ++ suggestions
    ++ newline
    ++ newline
    ++ codes
        "Rewrite the system prompt to address these failure modes. Preserve everything that is working well. Output only the new system prompt text, nothing else."
    ++ newline

unfoldable pub build_crossover_prompt : Bytes → Bytes → Bytes
build_crossover_prompt a b =
    codes "PROMPT A:"
    ++ newline
    ++ a
    ++ newline
    ++ newline
    ++ codes "PROMPT B:"
    ++ newline
    ++ b
    ++ newline
    ++ newline
    ++ codes
        "Combine the strengths of both prompts into a single, unified system prompt. Output only the new system prompt text, nothing else."
    ++ newline

-- text[asiIdx+4 : sugIdx] and text[sugIdx+12:]
abbrev sections : Bytes → Option ℕ → Option ℕ → ReflectionResult
sections text (some a) (some s) =
    if ltb a s
    then record {
      asi = trim_space (take (s - (a + 4)) (drop (a + 4) text));
      suggestions = trim_space (drop (s + 12) text);
    }
    else record { asi = text; suggestions = [] }
sections text _ _ = record { asi = text; suggestions = [] }

unfoldable pub split_reflection : Bytes → ReflectionResult
split_reflection raw =
    let text = trim_space raw in
    let lower = to_lower text in
    if is_empty text
    then record { asi = []; suggestions = [] }
    else sections text (index lower (codes "asi:")) (index lower (codes "suggestions:"))

-- LLMClient.Complete
abbrev pub Llm : Type 0 → Type 0
Llm W = W → Bytes → Bytes → Option Bytes × W

abbrev expert : Bytes
expert = codes "You are a prompt optimization expert."

module _ (fl : Floats) (show : fl.F → Bytes) where
  open fl use {F}

  abbrev first_score : List F → Bytes
  first_score [] = codes "0.000"
  first_score (x ∷ scores) = show x

  abbrev rest_scores : List F → List F
  rest_scores [] = []
  rest_scores (x ∷ scores) = scores

  unfoldable pub user_feedback : DataPoint F → Bytes
  user_feedback item =
      let comment = codes "UserFeedback:" ++ newline ++ item.comment ++ newline in
      let asi = codes "UserFeedback:" ++ newline ++ item.asi ++ newline in
      if is_empty item.comment then (if is_empty item.asi then [] else asi) else comment

  unfoldable pub example_texts : ℕ → Dataset fl → List F → Bytes
  example_texts i [] scores = []
  example_texts i (item ∷ batch) scores =
      codes "Example "
      ++ int_to_string (pos (i + 1))
      ++ codes ":"
      ++ newline
      ++ codes "Input:"
      ++ newline
      ++ item.input
      ++ newline
      ++ codes "Output:"
      ++ newline
      ++ item.output
      ++ newline
      ++ codes "Score: "
      ++ first_score scores
      ++ newline
      ++ user_feedback item
      ++ newline
      ++ example_texts (suc i) batch (rest_scores scores)

  unfoldable pub build_reflection_prompt : Bytes → Dataset fl → List F → Bytes
  build_reflection_prompt parent minibatch scores =
      codes "SYSTEM PROMPT:"
      ++ newline
      ++ parent
      ++ newline
      ++ newline
      ++ codes "EVALUATION RESULTS:"
      ++ newline
      ++ example_texts 0 minibatch scores
      ++ codes
          "Analyze why the prompt is failing on the low-scoring examples. Identify specific patterns in the failures. Provide a concise natural-language diagnosis (ASI) and concrete suggestions for improving the prompt. Be specific and cite failure modes."
      ++ newline
      ++ codes "Return in two sections labeled ASI: and SUGGESTIONS:."
      ++ newline

module _ (fl : Floats) (show : fl.F → Bytes) {W : Type 0} (llm : Option (Llm W)) where
  open fl use {F}

  abbrev asked : W → Bytes → Option Bytes × W
  asked w user = elim llm [ none ↦ (none, w) | some complete ↦ complete w expert user ]

  abbrev reflection_of : Option Bytes → ReflectionResult
  reflection_of none = record { asi = []; suggestions = [] }
  reflection_of (some raw) = split_reflection raw

  unfoldable pub reflect : W → Candidate F → Dataset fl → List F → ReflectionResult × W
  reflect w parent minibatch scores =
      let (raw, next) = asked w (build_reflection_prompt fl show parent.prompt minibatch scores) in
      (reflection_of raw, next)

  -- The answer of the model, trimmed, or else the old prompt.
  abbrev prompt_or : Bytes → Option Bytes → Bytes
  prompt_or old none = old
  prompt_or old (some raw) =
      let trimmed = trim_space raw in if is_empty trimmed then old else trimmed

  unfoldable pub mutate : W → Candidate F → ReflectionResult → Bytes × W
  mutate w parent result =
      let (raw, next) =
        asked w (build_mutation_prompt parent.prompt result.asi result.suggestions) in
      (prompt_or parent.prompt raw, next)

  unfoldable pub crossover : W → Candidate F → Candidate F → Bytes × W
  crossover w a b =
      let (raw, next) = asked w (build_crossover_prompt a.prompt b.prompt) in
      (prompt_or a.prompt raw, next)

  prompt_or-ne-nil : (old : Bytes) (raw : Option Bytes) → old ≢ [] → prompt_or old raw ≢ []
  prompt_or-ne-nil old none n = n
  prompt_or-ne-nil old (some raw) n = filled (trim_space raw)
    where
      filled : (t : Bytes) → (if is_empty t then old else t) ≢ []
      filled [] = n
      filled (x ∷ t) = λ e. cc

  -- From a parent whose prompt is not empty, neither a mutation nor a crossover gives an empty prompt,
  -- whatever the model answers, with an error or without, and also without a model.
  pub mutate-ne-nil :
      (w : W) (parent other : Candidate F) (result : ReflectionResult)
      → parent.prompt ≢ []
      → ((mutate w parent result).0 ≢ []) × ((crossover w parent other).0 ≢ [])
  unfolding mutate crossover
  mutate-ne-nil w parent other result n =
      (prompt_or-ne-nil parent.prompt _ n, prompt_or-ne-nil parent.prompt _ n)
