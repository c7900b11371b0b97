-- ===== src/Store/Variants.antt =====
-- internal/store/redis/variant.go. Redis is an interface on a state `S`, and so are the encoder and the
-- decoder of variant sets. Times and ages are in seconds.
pub mod Laws
pub mod Tiers
use prompt_graft.Base.{
  ℕ, ◌+◌, Bool, true, false, ◌&&◌, ◌||◌, ◌≤◌, eqb, Option, none, some, List, [], ◌∷◌, ◌≡◌, is_empty,
  ltb, if◌then◌else◌, Bytes, ◌==◌,
}
use prompt_graft.Provider.{Answer}
use prompt_graft.Store.Types.{Variant, VariantSet, SessionRef}
use prompt_graft.Store.Keys.{key_variants, key_session_prompt}

-- GET at a time, SET at a time with an age, which is for ever if it is 0, and DEL.
pub record Kv (S : Type 0) : Type 0 where
  pub get : ℕ → S → Bytes → Option Bytes
  pub set : ℕ → S → Bytes → Bytes → ℕ → Bool × S
  pub del : S → Bytes → Bool × S

-- A key that was set with an age is still there at a later time.
abbrev pub is_kept : ℕ → ℕ → ℕ → Bool
is_kept now ttl later = eqb ttl 0 || ltb later (now + ttl)

-- What Redis documents of these: a value that was set is read under its key until its age is reached, and
-- no other key changes.
pub record IsKv {S : Type 0} (kv : Kv S) : Type 0 where
  pub get-set :
      (now later : ℕ) (s : S) (k v : Bytes) (ttl : ℕ) (j : Bytes)
      → now ≤ later
      → (kv.set now s k v ttl).0 ≡ true
      → kv.get later (kv.set now s k v ttl).1 j
        ≡ (if k == j then (if is_kept now ttl later then some v else none) else kv.get later s j)
  pub get-del :
      (later : ℕ) (s : S) (k j : Bytes)
      → (kv.del s k).0 ≡ true
      → kv.get later (kv.del s k).1 j ≡ (if k == j then none else kv.get later s j)

-- json.Marshal and json.Unmarshal of a VariantSet
pub record SetCodec (F : Type 0) : Type 0 where
  pub encode : VariantSet F → Bytes
  pub decode : Bytes → Option (VariantSet F)

module _ {F S : Type 0} (kv : Kv S) (codec : SetCodec F) where
  abbrev pub key_of : SessionRef → Bytes
  key_of ref = key_variants ref.key_hash ref.session_id

  -- A set whose time is over is not found.
  unfoldable pub still_active : ℕ → Option (VariantSet F) → Option (Option (VariantSet F))
  still_active now none = none
  still_active now (some vs) =
      if ltb 0 vs.active_until && ltb vs.active_until now then none else some (some vs)

  unfoldable pub decoded : ℕ → Option Bytes → Option (Option (VariantSet F))
  decoded now none = none
  decoded now (some raw) = still_active now (codec.decode raw)

  unfoldable pub get_variant : ℕ → S → SessionRef → Option (Option (VariantSet F))
  get_variant now s ref = decoded now (kv.get now s (key_of ref))

  unfoldable pub set_variants : ℕ → S → SessionRef → List (Variant F) → ℕ → Bool × S
  set_variants now s ref variants ttl =
      kv.set now s (key_of ref)
        (codec.encode (record { variants = variants; active_until = now + ttl })) ttl

  abbrev text_of : Option Bytes → Answer
  text_of none = record { text = []; failed = true }
  text_of (some prompt) = record { text = prompt; failed = false }

  unfoldable pub get_session_prompt : ℕ → S → SessionRef → Answer
  get_session_prompt now s ref =
      text_of (kv.get now s (key_session_prompt ref.key_hash ref.session_id))

  unfoldable pub set_session_prompt : ℕ → S → SessionRef → Bytes → ℕ → Bool × S
  set_session_prompt now s ref prompt ttl =
      if is_empty prompt
      then (true, s)
      else kv.set now s (key_session_prompt ref.key_hash ref.session_id) prompt ttl

  unfoldable pub delete_variants : S → SessionRef → Bool × S
  delete_variants s ref = kv.del s (key_of ref)
