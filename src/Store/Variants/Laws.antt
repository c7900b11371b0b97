-- ===== src/Store/Variants/Laws.antt =====
-- Variants that were set are read for their time.
use prompt_graft.Base.{
  ℕ, ◌+◌, ◌≤◌, ◌<◌, Bool, true, false, none, some, List, ◌≡◌, refl, ◌∙◌, ==_refl, arith,
  if◌then◌else◌, Option,
}
use prompt_graft.Store.Types.{Variant, VariantSet, SessionRef}
use prompt_graft.Store.Variants.{
  Kv, IsKv, SetCodec, is_kept, key_of, still_active, decoded, get_variant, set_variants,
  delete_variants,
}

module _ {F S : Type 0} (kv : Kv S) (codec : SetCodec F) where
  abbrev pub set_until : List (Variant F) → ℕ → VariantSet F
  set_until variants time = record { variants = variants; active_until = time }

  -- Written, the set reads as itself.
  abbrev pub Reads : List (Variant F) → ℕ → Type 0
  Reads variants time =
      codec.decode (codec.encode (set_until variants time)) ≡ some (set_until variants time)

  get_variant_later :
      (now later : ℕ) (s : S) (ref : SessionRef) (variants : List (Variant F)) (ttl : ℕ)
      → IsKv kv
      → Reads variants (now + ttl)
      → now ≤ later
      → (set_variants kv codec now s ref variants ttl).0 ≡ true
      → get_variant kv codec later (set_variants kv codec now s ref variants ttl).1 ref ≡ (
          if is_kept now ttl later
          then still_active kv codec later (some (set_until variants (now + ttl)))
          else none)
  unfolding get_variant set_variants decoded
  get_variant_later now later s ref variants ttl law coded after ok =
      rw
        (
          law.get-set now later s (key_of kv codec ref) _ ttl (key_of kv codec ref) after ok,
          ==_refl (key_of kv codec ref),
        )
        (by_kept (is_kept now ttl later))
    where
      by_kept :
          (b : Bool)
          → decoded kv codec later
              (if b then some (codec.encode (set_until variants (now + ttl))) else none)
            ≡ (if b
                then still_active kv codec later (some (set_until variants (now + ttl)))
                else none)
      by_kept true = rw coded refl
      by_kept false = refl

  kept_before :
      (now ttl later : ℕ) (variants : List (Variant F))
      → later < now + ttl
      → (if is_kept now ttl later
          then still_active kv codec later (some (set_until variants (now + ttl)))
          else none)
        ≡ some (some (set_until variants (now + ttl)))
  unfolding still_active
  kept_before now ttl later variants h = ground arith

  dropped :
      (now ttl later : ℕ) (x : Option (Option (VariantSet F)))
      → 0 < ttl
      → now + ttl ≤ later
      → (if is_kept now ttl later then x else none) ≡ none
  dropped now ttl later x p h = ground arith

  over :
      (b : Bool) (later : ℕ) (variants : List (Variant F)) (time : ℕ)
      → 0 < time
      → time < later
      → (if b then still_active kv codec later (some (set_until variants time)) else none) ≡ none
  unfolding still_active
  over b later variants time p h = ground arith

  fresh :
      (now : ℕ) (variants : List (Variant F)) (ttl : ℕ)
      → (if is_kept now ttl now
          then still_active kv codec now (some (set_until variants (now + ttl)))
          else none)
        ≡ some (some (set_until variants (now + ttl)))
  unfolding still_active
  fresh now variants ttl = ground arith

  -- Variants are read at the time at which they are set, even without an age.
  pub get_variant_at_once :
      (now : ℕ) (s : S) (ref : SessionRef) (variants : List (Variant F)) (ttl : ℕ)
      → IsKv kv
      → Reads variants (now + ttl)
      → (set_variants kv codec now s ref variants ttl).0 ≡ true
      → get_variant kv codec now (set_variants kv codec now s ref variants ttl).1 ref
        ≡ some (some (set_until variants (now + ttl)))
  get_variant_at_once now s ref variants ttl law coded ok =
      get_variant_later now now s ref variants ttl law coded (omega arith) ok
      ∙ fresh now variants ttl

  get_variant-delete_variants :
      (later : ℕ) (t : S) (ref : SessionRef)
      → IsKv kv
      → (delete_variants kv codec t ref).0 ≡ true
      → get_variant kv codec later (delete_variants kv codec t ref).1 ref ≡ none
  unfolding get_variant delete_variants decoded
  get_variant-delete_variants later t ref law deleted =
      rw
        (
          law.get-del later t (key_of kv codec ref) (key_of kv codec ref) deleted,
          ==_refl (key_of kv codec ref),
        )
        refl

  -- Variants that Redis took are what is read of their session until their age is reached, and from
  -- then on nothing is read; without an age they are read at the same second, and, the clock being past
  -- zero, not after it, though Redis keeps them; and when they are deleted, nothing is read. Redis does
  -- as documented, and the codec gives back the set.
  pub get_variant-set_variants_until :
      (now later : ℕ) (s : S) (ref : SessionRef) (variants : List (Variant F)) (ttl : ℕ)
      → IsKv kv
      → Reads variants (now + ttl)
      → now ≤ later
      → (set_variants kv codec now s ref variants ttl).0 ≡ true
      → (later < now + ttl
          → get_variant kv codec later (set_variants kv codec now s ref variants ttl).1 ref
            ≡ some (some (set_until variants (now + ttl))))
        × (0 < ttl
            → now + ttl ≤ later
            → get_variant kv codec later (set_variants kv codec now s ref variants ttl).1 ref
              ≡ none)
        × (get_variant kv codec now (set_variants kv codec now s ref variants ttl).1 ref
            ≡ some (some (set_until variants (now + ttl))))
        × (0 < now + ttl
            → now + ttl < later
            → get_variant kv codec later (set_variants kv codec now s ref variants ttl).1 ref
              ≡ none)
        × ((t : S)
            → (delete_variants kv codec t ref).0 ≡ true
            → get_variant kv codec later (delete_variants kv codec t ref).1 ref ≡ none)
  get_variant-set_variants_until now later s ref variants ttl law coded after ok =
      let read = get_variant_later now later s ref variants ttl law coded after ok in
      (
        λ h. read ∙ kept_before now ttl later variants h,
        λ p h. read ∙ dropped now ttl later _ p h,
        get_variant_at_once now s ref variants ttl law coded ok,
        λ p h. read ∙ over (is_kept now ttl later) later variants (now + ttl) p h,
        λ t deleted. get_variant-delete_variants later t ref law deleted,
      )
