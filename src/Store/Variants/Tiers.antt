-- ===== src/Store/Variants/Tiers.antt =====
-- The variants of a session in the two stores together (internal/store/layered/store.go), with Redis
-- and Postgres as internal/store/redis/variant.go and internal/store/pg/store.go write and read them.
use prompt_graft.Base.{
  ℕ, ◌+◌, ◌-◌, ◌≤◌, ◌<◌, Bool, true, false, Option, none, some, List, ◌∷◌, ◌≡◌, refl, ◌∙◌, ap,
  Bytes, arith, ltb, if◌then◌else◌,
}
use prompt_graft.Store.Types.{Variant, VariantSet, SessionRef}
use prompt_graft.Store.Layered.{
  Tier, RedisOnly, PgOnly, rewarm_ttl, write_both, on_pg_answer, on_miss, on_redis_answer,
}
use prompt_graft.Store.Layered
use prompt_graft.Store.Layered.Laws.{IsHit, first_hit, first_hit-miss, get_variant-first_hit}
use prompt_graft.Store.Pg.{VariantRow}
use prompt_graft.Store.Pg.Variants as PgVariants
use prompt_graft.Store.Pg.Variants.Table.{IsKeyed}
use prompt_graft.Store.Pg.Variants.Laws.{find_variant, last_with, get_active_variants-set_variants}
use prompt_graft.Store.Variants.{Kv, IsKv, SetCodec, get_variant, set_variants}
use prompt_graft.Store.Variants.Laws.{
  set_until, Reads, get_variant_at_once, get_variant-set_variants_until,
}

module _ {F S : Type 0} (kv : Kv S) (codec : SetCodec F) where
  -- Redis, at the time `now`, as the first of the two stores.
  abbrev pub redis_tier : ℕ → Tier F S → Tier F S
  redis_tier now base = record base {
    set_variants = λ s ref variants ttl. set_variants kv codec now s ref variants ttl;
    get_variants = λ s ref. get_variant kv codec now s ref;
  }

-- Postgres at the time `now` as the second. `taken` are the statements that the server runs, and
-- `before` is the order of its names.
abbrev pub pg_tier :
    {F : Type 0}
    → (Bytes → Bytes → Bool)
    → (ℕ → Bool)
    → ℕ
    → Tier F (List (VariantRow F))
    → Tier F (List (VariantRow F))
pg_tier before taken now base = record base {
  set_variants =
      λ rows ref variants ttl. PgVariants.set_variants now taken rows ref variants (now + ttl);
  get_variants = λ rows ref. PgVariants.get_active_variants before true rows ref;
}

module _ {F S : Type 0} (kv : Kv S) (codec : SetCodec F) (base : Tier F S)
    (cache : RedisOnly F S) where
  module _ {D : Type 0} (tier : Tier F D) (only : PgOnly F D) where
    rewarmed :
        (now : ℕ) (ref : SessionRef) (vs : VariantSet F) (r : S) (d : D)
        → get_variant kv codec now r ref ≡ none
        → tier.get_variants d ref ≡ some (some vs)
        → (Layered.get_variant
            (redis_tier kv codec now base)
            cache
            (some (tier, only))
            now
            ref
            (r, d)).1.0
          ≡ (set_variants kv codec now r ref vs.variants (rewarm_ttl now vs.active_until)).1
    unfolding Layered.get_variant on_redis_answer on_miss on_pg_answer
    rewarmed now ref vs r d miss found = rw (miss, found) refl

    rewarm_ttl_lem :
        (now time later : ℕ)
        → (later < now + 60 → later < now + rewarm_ttl now time)
          × (later < time → now ≤ later → later < now + rewarm_ttl now time)
          × (now + 60 ≤ later → time ≤ later → now + rewarm_ttl now time ≤ later)
          × (0 < rewarm_ttl now time)
    rewarm_ttl_lem now time later = by_size (ltb (time - now) 60) refl
      where
        by_size :
            (b : Bool)
            → ltb (time - now) 60 ≡ b
            → (later < now + 60 → later < now + (if b then 60 else time - now))
              × (later < time → now ≤ later → later < now + (if b then 60 else time - now))
              × (now + 60 ≤ later → time ≤ later → now + (if b then 60 else time - now) ≤ later)
              × (0 < (if b then 60 else time - now))
        by_size true e = (λ h. h, λ h k. ground arith, λ h k. h, omega arith)
        by_size false e =
            (λ h. ground arith, λ h k. ground arith, λ h k. ground arith, ground arith)

    -- Variants that only Postgres has are in Redis after a read, if Redis takes them. They are then read from
    -- Redis for the rest of their time, and for a minute at least, even if their time is over; and when
    -- both are past, they are not read. Redis does as documented, and the codec gives back the set.
    pub get_variant_rewarms :
        (now later : ℕ) (ref : SessionRef) (vs : VariantSet F) (r : S) (d : D)
        → IsKv kv
        → Reads kv codec vs.variants (now + rewarm_ttl now vs.active_until)
        → now ≤ later
        → get_variant kv codec now r ref ≡ none
        → tier.get_variants d ref ≡ some (some vs)
        → (set_variants kv codec now r ref vs.variants (rewarm_ttl now vs.active_until)).0 ≡ true
        → let after =
            (Layered.get_variant
              (redis_tier kv codec now base)
              cache
              (some (tier, only))
              now
              ref
              (r, d)).1.0 in
          let Found =
            (x : VariantSet F) × (get_variant kv codec later after ref ≡ some (some x))
            × (x.variants ≡ vs.variants) in
          (later < now + 60 → Found)
          × (later < vs.active_until → Found)
          × (now + 60 ≤ later
              → vs.active_until ≤ later
              → get_variant kv codec later after ref ≡ none)
    get_variant_rewarms now later ref vs r d law coded h miss found ok =
        let ttl : ℕ = rewarm_ttl now vs.active_until in
        let same = rewarmed now ref vs r d miss found in
        let (early, gone, at_once, over, deleted) =
          get_variant-set_variants_until kv codec now later r ref vs.variants ttl law coded h ok in
        let (minute, time, both, some_time) = rewarm_ttl_lem now vs.active_until later in
        rw same (
          λ k. (set_until kv codec vs.variants (now + ttl), early (minute k), refl),
          λ k. (set_until kv codec vs.variants (now + ttl), early (time k h), refl),
          λ k l. gone some_time (both k l),
        )

  module _ (before : Bytes → Bytes → Bool) (taken : ℕ → Bool) (now : ℕ)
      (pg_base : Tier F (List (VariantRow F))) (only : PgOnly F (List (VariantRow F))) where
    abbrev pub redis : Tier F S
    redis = redis_tier kv codec now base

    abbrev pub pg : Option (Tier F (List (VariantRow F)) × PgOnly F (List (VariantRow F)))
    pg = some (pg_tier before taken now pg_base, only)

    -- What is read at once of variants that were set.
    abbrev pub set_then_get :
        SessionRef → List (Variant F) → ℕ → S → List (VariantRow F) → Option (Option (VariantSet F))
    set_then_get ref variants ttl r rows =
        (Layered.get_variant redis cache pg now ref
          (Layered.set_variants redis cache pg ref variants ttl (r, rows)).1).0

    set_then_get_lem :
        (ref : SessionRef) (variants : List (Variant F)) (ttl : ℕ) (r : S)
        (rows : List (VariantRow F))
        → set_then_get ref variants ttl r rows
          ≡ first_hit
              (get_variant kv codec now (set_variants kv codec now r ref variants ttl).1 ref)
              (PgVariants.get_active_variants before true
                (PgVariants.set_variants now taken rows ref variants (now + ttl)).1
                ref)
    unfolding Layered.set_variants write_both
    set_then_get_lem ref variants ttl r rows =
        (get_variant-first_hit redis cache pg now ref
          (set_variants kv codec now r ref variants ttl).1
          (PgVariants.set_variants now taken rows ref variants (now + ttl)).1).0

    -- With both stores, variants that were set are read back at once: as they were set, if Redis took
    -- them, whatever Postgres does; and if Redis has none of the session and Postgres took them, with the
    -- last of those that share an id under each id, and no others. The ids of a session are distinct in
    -- Postgres, there is a variant, Redis does as documented, and the codec gives back the set.
    pub get_variant-set_variants :
        (ref : SessionRef) (v : Variant F) (variants : List (Variant F)) (ttl : ℕ) (r : S)
        (rows : List (VariantRow F))
        → IsKv kv
        → Reads kv codec (v ∷ variants) (now + ttl)
        → IsKeyed rows
        → ((set_variants kv codec now r ref (v ∷ variants) ttl).0 ≡ true
            → set_then_get ref (v ∷ variants) ttl r rows
              ≡ some (some (set_until kv codec (v ∷ variants) (now + ttl))))
          × ((IsHit (
                  get_variant kv codec now
                    (set_variants kv codec now r ref (v ∷ variants) ttl).1
                    ref)
                → ⊥)
              → (PgVariants.set_variants now taken rows ref (v ∷ variants) (now + ttl)).0 ≡ true
              → (x : VariantSet F) × (set_then_get ref (v ∷ variants) ttl r rows ≡ some (some x))
                × ((id : Bytes) → find_variant id x.variants ≡ last_with id none (v ∷ variants))
                × (x.active_until ≡ now + ttl))
    get_variant-set_variants ref v variants ttl r rows law coded keyed = (
      λ ok.
          set_then_get_lem ref (v ∷ variants) ttl r rows
          ∙ rw (get_variant_at_once kv codec now r ref (v ∷ variants) ttl law coded ok) refl,
      λ miss ok.
          let (x, found, same, time) =
            ((get_active_variants-set_variants before now taken rows ref v variants (now + ttl)
                keyed).0
              ok).0 in
          (
            x,
            set_then_get_lem ref (v ∷ variants) ttl r rows
                ∙ ap (first_hit _) found
                ∙ first_hit-miss _ x miss,
            same,
            time,
          ),
    )
