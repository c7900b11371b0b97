-- ===== src/Store/Layered/Laws.antt =====
-- What the two stores promise together.
use prompt_graft.Base.{ℕ, Bool, Option, none, some, List, [], ◌∷◌, ◌≡◌, refl, Bytes}
use prompt_graft.Base.Int.{ℤ}
use prompt_graft.Store.Types.{Variant, VariantSet, BestPrompt, HistoryEntry, SessionRef}
use prompt_graft.Store.Layered.{
  Tier, RedisOnly, PgOnly, write_both, on_pg_answer, on_miss, on_redis_answer, get_variant,
  set_variants, set_session_prompt, record_feedback, update_best_prompt, append_history,
  mark_session_optimized,
}

-- A read that found something.
abbrev pub IsHit {ℓ} : {A : Type ℓ} → Option (Option A) → Type 0
IsHit (some (some x)) = Unit
IsHit _ = ⊥

-- The first of two reads that found something, and else the first.
abbrev pub first_hit {ℓ} : {A : Type ℓ} → Option (Option A) → Option (Option A) → Option (Option A)
first_hit (some (some x)) b = some (some x)
first_hit a (some (some y)) = some (some y)
first_hit a _ = a

module _ {F R D : Type 0} (redis : Tier F R) (cache : RedisOnly F R)
    (pg : Option (Tier F D × PgOnly F D)) where
  -- The read of Postgres, which finds nothing when there is none.
  abbrev pub pg_variants : D → SessionRef → Option (Option (VariantSet F))
  pg_variants d ref = elim pg [ none ↦ none | some (tier, only) ↦ tier.get_variants d ref ]

  on_pg_answer-first :
      (p : Option (Tier F D × PgOnly F D)) (now : ℕ) (ref : SessionRef) (r : R) (d : D)
      (miss found : Option (Option (VariantSet F)))
      → (IsHit miss → ⊥)
      → ((on_pg_answer redis cache p now ref (r, d) miss found).0 ≡ first_hit miss found)
        × ((on_pg_answer redis cache p now ref (r, d) miss found).1.1 ≡ d)
  unfolding on_pg_answer
  on_pg_answer-first p now ref r d none none h = (refl, refl)
  on_pg_answer-first p now ref r d (some none) none h = (refl, refl)
  on_pg_answer-first p now ref r d (some (some x)) none h = (refl, refl)
  on_pg_answer-first p now ref r d none (some none) h = (refl, refl)
  on_pg_answer-first p now ref r d (some none) (some none) h = (refl, refl)
  on_pg_answer-first p now ref r d (some (some x)) (some none) h = (refl, refl)
  on_pg_answer-first p now ref r d none (some (some vs)) h = (refl, refl)
  on_pg_answer-first p now ref r d (some none) (some (some vs)) h = (refl, refl)
  on_pg_answer-first p now ref r d (some (some x)) (some (some vs)) h = absurd (h tt)

  -- The variants of a session are those that Redis holds, and else those of Postgres: an error of either
  -- store never hides what the other one has. A read does not change Postgres.
  pub get_variant-first_hit :
      (now : ℕ) (ref : SessionRef) (r : R) (d : D)
      → ((get_variant redis cache pg now ref (r, d)).0
          ≡ first_hit (redis.get_variants r ref) (pg_variants d ref))
        × ((get_variant redis cache pg now ref (r, d)).1.1 ≡ d)
  unfolding get_variant on_redis_answer on_miss
  get_variant-first_hit now ref r d = answered (redis.get_variants r ref)
    where
      missed :
          (p : Option (Tier F D × PgOnly F D)) (miss : Option (Option (VariantSet F)))
          → (IsHit miss → ⊥)
          → ((on_miss redis cache p now ref (r, d) miss).0
              ≡ first_hit miss
                  (elim p [ none ↦ none | some (tier, only) ↦ tier.get_variants d ref ]))
            × ((on_miss redis cache p now ref (r, d) miss).1.1 ≡ d)
      missed none none h = (refl, refl)
      missed none (some none) h = (refl, refl)
      missed none (some (some x)) h = (refl, refl)
      missed (some (tier, only)) miss h =
          on_pg_answer-first (some (tier, only)) now ref r d miss (tier.get_variants d ref) h

      answered :
          (found : Option (Option (VariantSet F)))
          → ((on_redis_answer redis cache pg now ref (r, d) found).0
              ≡ first_hit found (pg_variants d ref))
            × ((on_redis_answer redis cache pg now ref (r, d) found).1.1 ≡ d)
      answered (some (some vs)) = (refl, refl)
      answered (some none) = missed pg (some none) (λ h. h)
      answered none = missed pg none (λ h. h)

-- Where the first of two reads finds nothing, the second counts.
pub first_hit-miss {ℓ} :
    {A : Type ℓ} (a : Option (Option A)) (x : A)
    → (IsHit a → ⊥)
    → first_hit a (some (some x)) ≡ some (some x)
first_hit-miss none x h = refl
first_hit-miss (some none) x h = refl
first_hit-miss (some (some y)) x h = absurd (h tt)

module _ {F R D : Type 0} (redis : Tier F R) (cache : RedisOnly F R) (tier : Tier F D)
    (only : PgOnly F D) where
  -- The report of a write, and the state of Redis behind it.
  abbrev pub IsAlone : Bool × (R × D) → Bool × R → Type 0
  IsAlone both alone = (both.0 ≡ alone.0) × (both.1.0 ≡ alone.1)

  -- Six writes report what Redis reports, and Redis has what it would have alone, whatever Postgres does.
  pub writes_report_redis :
      (ref : SessionRef) (vs : List (Variant F)) (ttl : ℕ) (prompt : Bytes) (best : BestPrompt F)
      (entry : HistoryEntry F) (conversation variant : Bytes) (rating : ℤ) (comment : Bytes) (r : R)
      (d : D)
      → let pg : Option (Tier F D × PgOnly F D) = some (tier, only) in
        IsAlone (set_variants redis cache pg ref vs ttl (r, d)) (redis.set_variants r ref vs ttl)
        × IsAlone
            (set_session_prompt redis cache pg ref prompt ttl (r, d))
            (redis.set_session_prompt r ref prompt ttl)
        × IsAlone
            (update_best_prompt redis cache pg ref best (r, d))
            (redis.update_best_prompt r ref best)
        × IsAlone
            (append_history redis cache pg ref entry (r, d))
            (redis.append_history r ref entry)
        × IsAlone
            (mark_session_optimized redis cache pg ref (r, d))
            (redis.mark_session_optimized r ref)
        × IsAlone
            (record_feedback redis cache pg ref conversation variant rating comment (r, d))
            (redis.record_feedback r ref conversation variant rating comment)
  unfolding set_variants set_session_prompt update_best_prompt append_history mark_session_optimized
      record_feedback write_both
  writes_report_redis ref vs ttl prompt best entry conversation variant rating comment r d =
      ((refl, refl), (refl, refl), (refl, refl), (refl, refl), (refl, refl), feedback conversation)
    where
      feedback :
          (c : Bytes)
          → IsAlone
              (record_feedback redis cache (some (tier, only)) ref c variant rating comment (r, d))
              (redis.record_feedback r ref c variant rating comment)
      feedback [] = (refl, refl)
      feedback (x ∷ c) = (refl, refl)
