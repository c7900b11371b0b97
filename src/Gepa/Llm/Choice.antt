-- ===== src/Gepa/Llm/Choice.antt =====
-- Which client of the language model the configuration picks (`NewLLMClient` in
-- internal/optimizer/gepa/llm.go), and what each client answers.
use prompt_graft.Base.{Option, some, [], ◌∷◌, is_empty, if◌then◌else◌, Bytes, codes, ◌==◌}
use prompt_graft.Gepa.Llm.{
  Replicate, Service, Answer, replied, refused, not_implemented, first_non_empty, complete,
}

-- The settings that are read. Those of Replicate hold its own token and model, and the others' stand in
-- where they are empty.
pub record LlmSettings (F : Type 0) : Type 0 where
  pub optimizer_llm_provider : Bytes
  pub optimizer_llm_model : Bytes
  pub optimizer_llm_api_key : Bytes
  pub replicate : Replicate F

pub data LlmClient (F : Type 0) : Type 0 where
  noop_client : LlmClient F
  replicate_client : Replicate F → LlmClient F
  openai_client : Bytes → Bytes → Bytes → LlmClient F
  anthropic_client : Bytes → Bytes → LlmClient F

module _ {F : Type 0} where
  unfoldable pub new_llm_client : LlmSettings F → LlmClient F
  unfolding ◌==◌ first_non_empty
  new_llm_client cfg =
      if cfg.optimizer_llm_provider == codes "replicate"
      then replicate_client (record {
        base_url = cfg.replicate.base_url;
        api_token = first_non_empty (cfg.replicate.api_token ∷ cfg.optimizer_llm_api_key ∷ []);
        model = first_non_empty (cfg.replicate.model ∷ cfg.optimizer_llm_model ∷ []);
        reasoning_effort = cfg.replicate.reasoning_effort;
        verbosity = cfg.replicate.verbosity;
        max_completion_tokens = cfg.replicate.max_completion_tokens;
        temperature = cfg.replicate.temperature;
        top_p = cfg.replicate.top_p;
        presence_penalty = cfg.replicate.presence_penalty;
        frequency_penalty = cfg.replicate.frequency_penalty;
        timeout = cfg.replicate.timeout;
      })
      else (if is_empty cfg.optimizer_llm_api_key
          then noop_client
          else (if cfg.optimizer_llm_provider == codes "anthropic"
              then anthropic_client cfg.optimizer_llm_api_key cfg.optimizer_llm_model
              else openai_client [] cfg.optimizer_llm_api_key cfg.optimizer_llm_model))

  unfoldable pub complete_with :
      {W : Type 0} → Service F W → LlmClient F → Bytes → Bytes → W → Option (Answer Bytes × W)
  complete_with service noop_client system_prompt user_prompt w = some (replied [], w)
  complete_with service (replicate_client r) system_prompt user_prompt w =
      complete service r system_prompt user_prompt w
  complete_with service (openai_client url key model) system_prompt user_prompt w =
      some (refused not_implemented, w)
  complete_with service (anthropic_client key model) system_prompt user_prompt w =
      some (refused not_implemented, w)
