-- ===== src/Store/Layered.antt =====
-- internal/store/layered/store.go: Redis in front of Postgres. The two stores are interfaces, on states
-- `R` and `D`. A read is `none` on an error; a write gives whether it succeeded, with the new state.
pub mod Laws
use prompt_graft.Base.{
  ℕ, ◌+◌, ◌-◌, Bool, true, false, Option, none, some, List, [], ◌∷◌, is_empty, ltb, if◌then◌else◌,
  Bytes,
}
use prompt_graft.Base.Int.{ℤ}
use prompt_graft.Provider.{Answer}
use prompt_graft.Store.Types.{
  Variant, VariantSet, BestPrompt, HistoryEntry, FeedbackSummary, ConversationFeedback, SessionInfo,
  VariantsInfo, SessionRef,
}
use prompt_graft.Gepa.Dataset.{DataPoint}

-- The operations that both stores have.
pub record Tier (F S : Type 0) : Type 0 where
  pub set_session_prompt : S → SessionRef → Bytes → ℕ → Bool × S
  pub get_session_prompt : S → SessionRef → Answer
  pub set_variants : S → SessionRef → List (Variant F) → ℕ → Bool × S
  pub get_variants : S → SessionRef → Option (Option (VariantSet F))
  pub record_feedback : S → SessionRef → Bytes → Bytes → ℤ → Bytes → Bool × S
  pub update_best_prompt : S → SessionRef → BestPrompt F → Bool × S
  pub append_history : S → SessionRef → HistoryEntry F → Bool × S
  pub ready_sessions : S → ℕ → ℕ → Option (List SessionRef)
  pub load_conversation_samples : S → SessionRef → ℕ → Option (List ConversationFeedback)
  pub mark_session_optimized : S → SessionRef → Bool × S
  pub mark_feedback_used : S → SessionRef → List Bytes → Bool × S

-- What only Redis is asked for.
pub record RedisOnly (F R : Type 0) : Type 0 where
  pub get_session_info : R → SessionRef → Option SessionInfo
  pub get_variants_info : R → SessionRef → Option (VariantsInfo F)
  pub get_variant_feedback : R → SessionRef → Bytes → Option FeedbackSummary
  pub get_session_feedback : R → SessionRef → Option FeedbackSummary
  pub log_request : R → SessionRef → Bytes → Bool × R
  pub log_response : R → SessionRef → Bytes → Bool × R
  pub load_dataset : R → SessionRef → Option (List (DataPoint F))
  pub rollup_conversation_feedback : R → SessionRef → Bool × R

-- What only Postgres is asked for.
pub record PgOnly (F D : Type 0) : Type 0 where
  pub get_best_prompt : D → SessionRef → Option (Option (BestPrompt F))
  pub get_history : D → SessionRef → ℕ → Option (List (HistoryEntry F))

-- ttl, at least a minute, in seconds
abbrev pub rewarm_ttl : ℕ → ℕ → ℕ
rewarm_ttl now active_until = if ltb (active_until - now) 60 then 60 else active_until - now

module _ {F R D : Type 0} (redis : Tier F R) (cache : RedisOnly F R)
    (pg : Option (Tier F D × PgOnly F D)) where
  abbrev pub with_redis : R × D → Bool × R → Bool × (R × D)
  with_redis (r, d) (ok, next) = (ok, (next, d))

  -- A write to Redis and then, if it is there, to Postgres, whose failure is dropped.
  unfoldable pub write_both : (R → Bool × R) → (Tier F D → D → Bool × D) → R × D → Bool × (R × D)
  write_both on_redis on_pg (r, d) =
      let (ok, next) = on_redis r in
      elim pg [ none ↦ (ok, (next, d)) | some (tier, only) ↦ (ok, (next, (on_pg tier d).1)) ]

  -- The answer of Postgres to a miss, whose result was `miss`.
  unfoldable pub on_pg_answer :
      ℕ
      → SessionRef
      → R × D
      → Option (Option (VariantSet F))
      → Option (Option (VariantSet F))
      → Option (Option (VariantSet F)) × (R × D)
  on_pg_answer now ref (r, d) miss none = (miss, (r, d))
  on_pg_answer now ref (r, d) miss (some none) = (miss, (r, d))
  on_pg_answer now ref (r, d) miss (some (some vs)) = (
    some (some vs),
    ((redis.set_variants r ref vs.variants (rewarm_ttl now vs.active_until)).1, d),
  )

  unfoldable pub on_miss :
      ℕ
      → SessionRef
      → R × D
      → Option (Option (VariantSet F))
      → Option (Option (VariantSet F)) × (R × D)
  on_miss now ref (r, d) miss = elim pg [
    | none ↦ (miss, (r, d))
    | some (tier, only) ↦ on_pg_answer now ref (r, d) miss (tier.get_variants d ref)
  ]

  unfoldable pub on_redis_answer :
      ℕ
      → SessionRef
      → R × D
      → Option (Option (VariantSet F))
      → Option (Option (VariantSet F)) × (R × D)
  on_redis_answer now ref st (some (some vs)) = (some (some vs), st)
  on_redis_answer now ref st (some none) = on_miss now ref st (some none)
  on_redis_answer now ref st none = on_miss now ref st none

  unfoldable pub get_variant : ℕ → SessionRef → R × D → Option (Option (VariantSet F)) × (R × D)
  get_variant now ref (r, d) = on_redis_answer now ref (r, d) (redis.get_variants r ref)

  unfoldable pub set_variants : SessionRef → List (Variant F) → ℕ → R × D → Bool × (R × D)
  set_variants ref variants ttl =
      write_both (λ r. redis.set_variants r ref variants ttl)
        (λ tier d. tier.set_variants d ref variants ttl)

  unfoldable pub get_session_prompt : SessionRef → R × D → Answer
  get_session_prompt ref (r, d) =
      let cached = redis.get_session_prompt r ref in
      if cached.failed
      then prompt_of_pg cached d
      else (if is_empty cached.text then prompt_of_pg cached d else cached)
    where
      prompt_of_pg : Answer → D → Answer
      prompt_of_pg cached d = elim pg [
        | none ↦ cached
        | some (tier, only) ↦
            let stored = tier.get_session_prompt d ref in
            if stored.failed
            then record { text = []; failed = cached.failed }
            else record { text = stored.text; failed = false }
      ]

  unfoldable pub set_session_prompt : SessionRef → Bytes → ℕ → R × D → Bool × (R × D)
  set_session_prompt ref prompt ttl =
      write_both (λ r. redis.set_session_prompt r ref prompt ttl)
        (λ tier d. tier.set_session_prompt d ref prompt ttl)

  -- Postgres is written only if there is a conversation.
  unfoldable pub record_feedback : SessionRef → Bytes → Bytes → ℤ → Bytes → R × D → Bool × (R × D)
  record_feedback ref conversation variant rating comment st =
      let only_redis = redis.record_feedback st.0 ref conversation variant rating comment in
      if is_empty conversation
      then with_redis st only_redis
      else write_both (λ r. redis.record_feedback r ref conversation variant rating comment)
          (λ tier d. tier.record_feedback d ref conversation variant rating comment) st

  unfoldable pub update_best_prompt : SessionRef → BestPrompt F → R × D → Bool × (R × D)
  update_best_prompt ref best =
      write_both (λ r. redis.update_best_prompt r ref best)
        (λ tier d. tier.update_best_prompt d ref best)

  unfoldable pub append_history : SessionRef → HistoryEntry F → R × D → Bool × (R × D)
  append_history ref entry =
      write_both (λ r. redis.append_history r ref entry) (λ tier d. tier.append_history d ref entry)

  unfoldable pub mark_session_optimized : SessionRef → R × D → Bool × (R × D)
  mark_session_optimized ref =
      write_both (λ r. redis.mark_session_optimized r ref)
        (λ tier d. tier.mark_session_optimized d ref)

  -- Here a failure of Postgres is returned, and Redis is left alone.
  unfoldable pub mark_feedback_used : SessionRef → List Bytes → R × D → Bool × (R × D)
  mark_feedback_used ref ids (r, d) = elim pg [
    | none ↦ with_redis (r, d) (redis.mark_feedback_used r ref ids)
    | some (tier, only) ↦
        let (ok, next) = tier.mark_feedback_used d ref ids in
        if ok then with_redis (r, next) (redis.mark_feedback_used r ref ids) else (false, (r, next))
  ]

  abbrev or_none {ℓ} : {A : Type ℓ} → Option (Option A) → Option A
  or_none none = none
  or_none (some o) = o

  abbrev or_nil {ℓ} : {A : Type ℓ} → Option (List A) → List A
  or_nil none = []
  or_nil (some xs) = xs

  abbrev variants_of : Option (VariantSet F) → List (Variant F)
  variants_of none = []
  variants_of (some vs) = vs.variants

  unfoldable pub get_variants_info : SessionRef → R × D → Option (VariantsInfo F)
  get_variants_info ref (r, d) = elim pg [
    | none ↦ cache.get_variants_info r ref
    | some (tier, only) ↦ some (record {
      session_id = ref.session_id;
      variants = variants_of (or_none (tier.get_variants d ref));
      best_prompt = or_none (only.get_best_prompt d ref);
      history = or_nil (only.get_history d ref 50);
    })
  ]

  unfoldable pub ready_sessions : ℕ → ℕ → R × D → Option (List SessionRef)
  ready_sessions min_samples optimize_every (r, d) = elim pg [
    | none ↦ redis.ready_sessions r min_samples optimize_every
    | some (tier, only) ↦ tier.ready_sessions d min_samples optimize_every
  ]

  unfoldable pub load_conversation_samples :
      SessionRef → ℕ → R × D → Option (List ConversationFeedback)
  load_conversation_samples ref per_variant (r, d) = elim pg [
    | none ↦ redis.load_conversation_samples r ref per_variant
    | some (tier, only) ↦ elim (tier.load_conversation_samples d ref per_variant) [
      | none ↦ redis.load_conversation_samples r ref per_variant
      | some samples ↦ some samples
    ]
  ]

  -- What is Redis's alone.
  unfoldable pub get_session_info : SessionRef → R × D → Option SessionInfo
  get_session_info ref (r, d) = cache.get_session_info r ref

  unfoldable pub get_variant_feedback : SessionRef → Bytes → R × D → Option FeedbackSummary
  get_variant_feedback ref variant (r, d) = cache.get_variant_feedback r ref variant

  unfoldable pub get_session_feedback : SessionRef → R × D → Option FeedbackSummary
  get_session_feedback ref (r, d) = cache.get_session_feedback r ref

  unfoldable pub log_request : SessionRef → Bytes → R × D → Bool × (R × D)
  log_request ref entry (r, d) = with_redis (r, d) (cache.log_request r ref entry)

  unfoldable pub log_response : SessionRef → Bytes → R × D → Bool × (R × D)
  log_response ref entry (r, d) = with_redis (r, d) (cache.log_response r ref entry)

  unfoldable pub load_dataset : SessionRef → R × D → Option (List (DataPoint F))
  load_dataset ref (r, d) = cache.load_dataset r ref

  unfoldable pub rollup_conversation_feedback : SessionRef → R × D → Bool × (R × D)
  rollup_conversation_feedback ref (r, d) =
      with_redis (r, d) (cache.rollup_conversation_feedback r ref)
