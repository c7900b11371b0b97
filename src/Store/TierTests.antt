-- ===== src/Store/TierTests.antt =====
-- The two stores together on concrete states.
use prompt_graft.Base.{
  ℕ, ◌<◌, ◌≤◌, Bool, true, Option, none, some, [], ◌∷◌, ◌≡◌, refl, Bytes, codes, arith,
}
use prompt_graft.Provider.{answer}
use prompt_graft.Store.Types.{Variant, VariantSet, SessionRef}
use prompt_graft.Store.Layered.{Tier, RedisOnly, PgOnly}
use prompt_graft.Store.Layered
use prompt_graft.Store.Layered.Laws.{IsHit}
use prompt_graft.Store.Pg.Variants as PgVariants
use prompt_graft.Store.Pg.Variants.Laws.{find_variant, last_with}
use prompt_graft.Store.Variants.{SetCodec, decoded, get_variant, set_variants}
use prompt_graft.Store.Variants.Laws.{set_until}
use prompt_graft.Store.Variants.Tiers.{
  redis_tier, set_then_get, get_variant_rewarms, get_variant-set_variants,
}
use prompt_graft.Store.MiniKv.{Cells, no_values, mini_kv, mini_kv-IsKv}

abbrev ref : SessionRef
ref = record { key_hash = codes "k"; session_id = codes "s" }

abbrev kind : Variant ℕ
kind = record { id = codes "v"; system_prompt = codes "be kind"; weight = 1 }

-- A codec that gives back one set.
abbrev codec_of : ℕ → SetCodec ℕ
codec_of time = record {
  encode = λ vs. codes "set";
  decode = λ s. some (record { variants = kind ∷ []; active_until = time });
}

-- Stores with the other operations idle.
abbrev idle : {S : Type 0} → Tier ℕ S
idle = record {
  set_session_prompt = λ s r prompt ttl. (true, s);
  get_session_prompt = λ s r. answer [];
  set_variants = λ s r vs ttl. (true, s);
  get_variants = λ s r. none;
  record_feedback = λ s r conversation variant rating comment. (true, s);
  update_best_prompt = λ s r best. (true, s);
  append_history = λ s r entry. (true, s);
  ready_sessions = λ s min_samples every. some [];
  load_conversation_samples = λ s r n. some [];
  mark_session_optimized = λ s r. (true, s);
  mark_feedback_used = λ s r ids. (true, s);
}

abbrev redis_only : RedisOnly ℕ Cells
redis_only = record {
  get_session_info = λ s r. none;
  get_variants_info = λ s r. none;
  get_variant_feedback = λ s r variant. none;
  get_session_feedback = λ s r. none;
  log_request = λ s r entry. (true, s);
  log_response = λ s r entry. (true, s);
  load_dataset = λ s r. some [];
  rollup_conversation_feedback = λ s r. (true, s);
}

abbrev pg_only : {D : Type 0} → PgOnly ℕ D
pg_only = record { get_best_prompt = λ s r. none; get_history = λ s r n. none }

-- Variants whose time was over at 9.
abbrev held : VariantSet ℕ
held = record { variants = kind ∷ []; active_until = 9 }

abbrev holder : Tier ℕ (VariantSet ℕ)
holder = record idle { get_variants = λ s r. some (some s) }

abbrev read_at_20 : Cells
read_at_20 =
    (Layered.get_variant (redis_tier mini_kv (codec_of 80) 20 idle) redis_only
      (some (holder, pg_only)) 20 ref (no_values, held)).1.0

abbrev Found : Type 0
Found =
    (x : VariantSet ℕ) × (get_variant mini_kv (codec_of 80) 50 read_at_20 ref ≡ some (some x))
    × (x.variants ≡ kind ∷ [])

get_variant_rewarms_example :
    (50 < 80 → Found)
    × (50 < 9 → Found)
    × (80 ≤ 50 → 9 ≤ 50 → get_variant mini_kv (codec_of 80) 50 read_at_20 ref ≡ none)
unfolding get_variant set_variants decoded
get_variant_rewarms_example =
    get_variant_rewarms mini_kv (codec_of 80) idle redis_only holder pg_only 20 50 ref held
      no_values held mini_kv-IsKv refl (omega arith) refl refl refl

abbrev in_order : Bytes → Bytes → Bool
in_order a b = true

abbrev always : ℕ → Bool
always n = true

abbrev read_back : Option (Option (VariantSet ℕ))
read_back =
    set_then_get mini_kv (codec_of 65) idle redis_only in_order always 5 idle pg_only ref
      (kind ∷ []) 60 no_values []

get_variant-set_variants_example :
    ((set_variants mini_kv (codec_of 65) 5 no_values ref (kind ∷ []) 60).0 ≡ true
      → read_back ≡ some (some (set_until mini_kv (codec_of 65) (kind ∷ []) 65)))
    × ((IsHit (
            get_variant mini_kv
              (codec_of 65)
              5
              (set_variants mini_kv (codec_of 65) 5 no_values ref (kind ∷ []) 60).1
              ref)
          → ⊥)
        → (PgVariants.set_variants 5 always [] ref (kind ∷ []) 65).0 ≡ true
        → (x : VariantSet ℕ) × (read_back ≡ some (some x))
          × ((id : Bytes) → find_variant id x.variants ≡ last_with id none (kind ∷ []))
          × (x.active_until ≡ 65))
get_variant-set_variants_example =
    get_variant-set_variants mini_kv (codec_of 65) idle redis_only in_order always 5 idle pg_only
      ref kind [] 60 no_values [] mini_kv-IsKv refl tt
