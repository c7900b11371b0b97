-- ===== src/Store/Keys/Laws.antt =====
-- What becomes of a key that is split again.
use mathlib.Core.Option.{some-injective}
use prompt_graft.Base.{
  true, false, Option, none, some, [], ◌∷◌, ◌++◌, ◌≡◌, refl, ap, subst, ◌∙◌, inl, inr, length,
  length-append, drop, leb, eqb, Bytes, codes, arith, Bool-cases,
}
use prompt_graft.Text.{has_prefix}
use prompt_graft.Text.Search.{eq-append_of_has_prefix}
use prompt_graft.Store.Types.{SessionRef}
use prompt_graft.Store.Keys.{
  colon, with_first, ref_of, split_at_colon, key_log, split_log_key, HasNoColon,
}

split_at_colon-joined : (a b : Bytes) → HasNoColon a → split_at_colon (a ++ colon ∷ b) ≡ some (a, b)
unfolding split_at_colon
split_at_colon-joined [] b h = refl
split_at_colon-joined (c ∷ a) b (e, h) = rw (e, split_at_colon-joined a b h) refl

split_at_colon_sound :
    (s a b : Bytes) → split_at_colon s ≡ some (a, b) → (s ≡ a ++ colon ∷ b) × HasNoColon a
unfolding split_at_colon
split_at_colon_sound [] a b e = cc
split_at_colon_sound (c ∷ s) a b e = elim (Bool-cases (eqb c colon)) [
  | inl found ↦ here a b found (rw found at e)
  | inr other ↦
      later (split_at_colon s) a b (rw other at e) other (λ x y. split_at_colon_sound s x y)
]
  where
    here :
        (a b : Bytes)
        → eqb c colon ≡ true
        → ◌≡◌ {A = Option (Bytes × Bytes)} (some ([], s)) (some (a, b))
        → (c ∷ s ≡ a ++ colon ∷ b) × HasNoColon a
    here a b found e =
        let same : c ≡ colon = ground arith in
        subst (λ (x : Bytes × Bytes). (c ∷ s ≡ x.0 ++ colon ∷ x.1) × HasNoColon x.0)
          (some-injective _ (a, b) e) (ap (λ d. d ∷ s) same, tt)

    later :
        (o : Option (Bytes × Bytes)) (a b : Bytes)
        → with_first c o ≡ some (a, b)
        → eqb c colon ≡ false
        → ((x y : Bytes) → o ≡ some (x, y) → (s ≡ x ++ colon ∷ y) × HasNoColon x)
        → (c ∷ s ≡ a ++ colon ∷ b) × HasNoColon a
    later none a b e n h = cc
    later (some (x, y)) a b e n h =
        subst (λ (z : Bytes × Bytes). (c ∷ s ≡ z.0 ++ colon ∷ z.1) × HasNoColon z.0)
          (some-injective _ (a, b) e) (ap (λ t. c ∷ t) (h x y refl).0, (n, (h x y refl).1))

-- A log key is split into what it was made of, if the key hash has no colon. The session may have some.
pub split_log_key-key_log :
    (key_hash session_id : Bytes)
    → HasNoColon key_hash
    → split_log_key (key_log key_hash session_id)
      ≡ some (record { key_hash = key_hash; session_id = session_id })
unfolding split_log_key key_log
split_log_key-key_log key_hash session_id h =
    let long : leb (length (key_log key_hash session_id)) 7 ≡ false =
      ground (arith, length-append key_hash (colon ∷ session_id)) in
    rw (long, split_at_colon-joined key_hash session_id h) refl

ref_of_sound :
    (o : Option (Bytes × Bytes)) (ref : SessionRef)
    → ref_of o ≡ some ref
    → o ≡ some (ref.key_hash, ref.session_id)
ref_of_sound none ref e = cc
ref_of_sound (some (a, b)) ref e =
    ap (λ (r : SessionRef). some (r.key_hash, r.session_id)) (some-injective _ ref e)

-- A key of the log's family is the key of the session that it is split into, and the key hash of that
-- has no colon.
pub key_log-split_log_key :
    (key : Bytes) (ref : SessionRef)
    → has_prefix key (codes "pg:log:") ≡ true
    → split_log_key key ≡ some ref
    → (key ≡ key_log ref.key_hash ref.session_id) × HasNoColon ref.key_hash
unfolding split_log_key key_log
key_log-split_log_key key ref p e = elim (Bool-cases (leb (length key) 7)) [
  | inl short ↦ absurd (not_some (rw short at e))
  | inr long ↦
      let parts =
        split_at_colon_sound (drop 7 key) ref.key_hash ref.session_id
          (ref_of_sound (split_at_colon (drop 7 key)) ref (rw long at e)) in
      (
        eq-append_of_has_prefix key (codes "pg:log:") p ∙ ap (λ t. codes "pg:log:" ++ t) parts.0,
        parts.1,
      )
]
  where
    not_some : ◌≡◌ {A = Option SessionRef} none (some ref) → ⊥
    not_some e = cc
