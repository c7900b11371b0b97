-- ===== src/Optimizer/Driver.antt =====
-- `Driver.RunOnce` of internal/optimizer/driver.go and `Promoter.Promote` of
-- internal/optimizer/promoter.go, on what they call. `S` is the state of all that is called: the store
-- and the language model. A Boolean is whether a call succeeded; `none` is a run-time panic.
pub mod Guarantee
pub mod Once
use prompt_graft.Base.{
  ℕ, zero, suc, Bool, true, false, not, ◌&&◌, Option, none, some, List, [], ◌∷◌, map, is_empty,
  length, take, ltb, if◌then◌else◌, Bytes, codes, ◌==◌,
}
use prompt_graft.Base.Int.{ℤ, pos, negsuc, ltb_ℤ}
use prompt_graft.Base.Float.{Floats}
use prompt_graft.Store.Types.{Variant, BestPrompt, HistoryEntry, ConversationFeedback, SessionRef}
use prompt_graft.Gepa.Candidate.{Candidate}
use prompt_graft.Optimizer.Prompts.{
  all_positive, extract_conversation_ids, build_analysis_prompt, build_generation_prompt,
  parse_candidates, derive_template,
}

pub record Settings : Type 0 where
  pub gepa_top_n : ℕ
  pub gepa_output_size : ℤ

-- The methods of store.Store and of LLMClient that the optimizer calls. The clock, the age limit of the
-- variants and the sample threshold are the state's.
pub record Backend (F S : Type 0) : Type 0 where
  pub ready_sessions : S → Option (List SessionRef)
  pub load_samples : S → SessionRef → ℕ → Option (List ConversationFeedback)
  pub session_prompt : S → SessionRef → Bytes
  pub set_session_prompt : S → SessionRef → Bytes → S
  pub complete : S → Bytes → Bytes → Option Bytes × S
  pub rollup : S → SessionRef → S
  pub mark_optimized : S → SessionRef → S
  pub mark_used : S → SessionRef → List Bytes → S
  pub set_variants : S → SessionRef → List (Variant F) → Bool × S
  pub update_best : S → SessionRef → BestPrompt F → S
  pub append_history : S → SessionRef → HistoryEntry F → S
  pub now : S → ℕ

abbrev expert : Bytes
expert = codes "You are a prompt optimization expert."

-- cs[:n], which panics for a negative n
abbrev pub slice_to : ℤ → List Bytes → Option (List Bytes)
slice_to (pos n) cs = some (take n cs)
slice_to (negsuc n) cs = none

-- if len(cs) > n { cs = cs[:n] }
unfoldable pub limited : ℤ → List Bytes → Option (List Bytes)
limited n cs = if ltb_ℤ n (pos (length cs)) then slice_to n cs else some cs

module _ (fl : Floats) {S : Type 0} (be : Backend fl.F S) (cfg : Settings)
    (decode : Bytes → Option (List Bytes)) (hash_prompt : Bytes → Bytes) where
  open fl use {F, of_nat, div}

  abbrev pub variant_of : ℕ → Candidate F → Variant F
  variant_of n c = record {
    id = hash_prompt c.prompt;
    system_prompt = c.prompt;
    weight = div (of_nat 1) (of_nat n);
  }

  -- From the best prompt on; reading a nil Best panics.
  unfoldable pub record_best : SessionRef → Option (Candidate F) → S → Option S
  record_best ref none s = none
  record_best ref (some best) s =
      let updated =
        be.update_best s ref
          (record { prompt = best.prompt; score = best.agg_score; promoted_at = be.now s }) in
      some (
        be.mark_optimized
          (be.append_history updated ref (record {
            prompt = best.prompt;
            score = best.agg_score;
            promoted_at = be.now updated;
            retired_at = 0;
          }))
          ref)

  -- if err := p.store.SetVariants(…); err != nil { return err }
  unfoldable pub promoted : SessionRef → Option (Candidate F) → Bool × S → Option (Bool × S)
  promoted ref best (false, s) = some (false, s)
  promoted ref best (true, s) = elim (record_best ref best s) [
    | none ↦ none
    | some t ↦ some (true, t)
  ]

  unfoldable pub promote :
      SessionRef → List (Candidate F) → Option (Candidate F) → S → Option (Bool × S)
  promote ref [] best s = some (true, s)
  promote ref (c ∷ cs) best s =
      promoted ref best (be.set_variants s ref (map (variant_of (length (c ∷ cs))) (c ∷ cs)))

  -- &gepa.Candidate{Prompt: c}
  abbrev pub candidate_of : Bytes → Candidate F
  candidate_of prompt = record {
    id = [];
    prompt = prompt;
    parent_id = [];
    scores = [];
    agg_score = of_nat 0;
    generation = 0;
    asi = [];
  }

  abbrev pub first_of {ℓ} : {A : Type ℓ} → List A → Option A
  first_of [] = none
  first_of (x ∷ xs) = some x

  unfoldable pub finish : SessionRef → Option (Bool × S) → Option S
  finish ref none = none
  finish ref (some (false, s)) = some s
  finish ref (some (true, s)) = some (be.mark_optimized s ref)

  -- From the candidates that were chosen on.
  unfoldable pub with_chosen :
      SessionRef → List ConversationFeedback → S → Option (List Bytes) → Option S
  with_chosen ref samples s none = none
  with_chosen ref samples s (some cs) = finish ref (
      promote ref (map candidate_of cs) (first_of (map candidate_of cs))
        (be.rollup (be.mark_used s ref (extract_conversation_ids samples)) ref))

  -- From the parsed candidates on.
  unfoldable pub use_candidates : SessionRef → List ConversationFeedback → List Bytes → S → Option S
  unfolding limited
  use_candidates ref samples [] s = some s
  use_candidates ref samples (c ∷ cs) s =
      with_chosen ref samples s (limited cfg.gepa_output_size (c ∷ cs))

  unfoldable pub with_generation :
      SessionRef → List ConversationFeedback → Option Bytes × S → Option S
  with_generation ref samples (none, s) = some s
  with_generation ref samples (some raw, s) =
      use_candidates ref samples (parse_candidates decode raw) s

  unfoldable pub with_analysis :
      SessionRef → List ConversationFeedback → Option Bytes × S → Option S
  with_analysis ref samples (none, s) = some s
  with_analysis ref samples (some analysis, s) =
      with_generation ref samples
        (be.complete s expert (build_generation_prompt analysis cfg.gepa_output_size))

  unfoldable pub persist_template : SessionRef → List ConversationFeedback → S → S
  persist_template ref samples s =
      let inferred = derive_template samples in
      if not (is_empty inferred) && not (inferred == be.session_prompt s ref)
      then be.set_session_prompt s ref inferred
      else s

  -- From allPositive on.
  unfoldable pub improve : SessionRef → List ConversationFeedback → S → Option S
  improve ref samples s =
      if all_positive samples
      then some (be.mark_optimized (be.rollup s ref) ref)
      else with_analysis ref samples (be.complete s expert (build_analysis_prompt samples))

  unfoldable pub with_samples : SessionRef → S → Option (List ConversationFeedback) → Option S
  with_samples ref s none = some s
  with_samples ref s (some []) = some s
  with_samples ref s (some (x ∷ xs)) = improve ref (x ∷ xs) (persist_template ref (x ∷ xs) s)

  unfoldable pub run_session : S → SessionRef → Option S
  run_session s ref = with_samples ref s (be.load_samples s ref cfg.gepa_top_n)

  unfoldable pub run_sessions : S → List SessionRef → Option S
  run_sessions s [] = some s
  run_sessions s (ref ∷ refs) = elim (run_session s ref) [
    | none ↦ none
    | some t ↦ run_sessions t refs
  ]

  unfoldable pub with_ready : S → Option (List SessionRef) → Option S
  with_ready s none = some s
  with_ready s (some refs) = run_sessions s refs

  unfoldable pub run_once : S → Option S
  run_once s = with_ready s (be.ready_sessions s)
