-- ===== src/Proxy/Auth.antt =====
-- `validBearerToken`, which internal/proxy/handler.go and internal/api/server.go both define, and
-- `APIKey` of pkg/hash/key.go. `digest` is the hex form of the first 8 bytes of SHA-256.
use prompt_graft.Base.{
  Bool, true, false, ◌≡◌, ◌↔◌, ◌++◌, if◌then◌else◌, Bytes, codes, drop, ◌==◌, ==_iff, ==_refl,
  arith, inl, inr, Bool-cases,
}
use prompt_graft.Text.{has_prefix, trim_space}
use prompt_graft.Text.Search.{eq-append_of_has_prefix, has_prefix-append}

abbrev pub bearer : Bytes
bearer = codes "Bearer "

unfoldable pub valid_bearer_token : Bytes → Bytes → Bool
valid_bearer_token header expected =
    if has_prefix header bearer then trim_space (drop 7 header) == expected else false

unfoldable pub api_key : (Bytes → Bytes) → Bytes → Bytes → Bytes
api_key digest salt key = digest (salt ++ key)

refused :
    (header expected : Bytes)
    → has_prefix header bearer ≡ false
    → valid_bearer_token header expected ≡ true
    → ⊥
unfolding valid_bearer_token
refused header expected e h = ground arith

-- A header is accepted exactly when it is "Bearer " and a text that is the expected token once it is
-- trimmed.
pub valid_bearer_token_iff :
    (header expected : Bytes)
    → (valid_bearer_token header expected ≡ true)
      ↔ ((rest : Bytes) × (header ≡ bearer ++ rest) × (trim_space rest ≡ expected))
valid_bearer_token_iff header expected = (to, from)
  where
    to :
        valid_bearer_token header expected ≡ true
        → (rest : Bytes) × (header ≡ bearer ++ rest) × (trim_space rest ≡ expected)
    to h = elim (Bool-cases (has_prefix header bearer)) [
      | inr e ↦ absurd (refused header expected e h)
      | inl e ↦ (
        drop 7 header,
        eq-append_of_has_prefix header bearer e,
        (==_iff (trim_space (drop 7 header)) expected).0 (unfold valid_bearer_token in rw e at h),
      )
    ]

    from :
        ((rest : Bytes) × (header ≡ bearer ++ rest) × (trim_space rest ≡ expected))
        → valid_bearer_token header expected ≡ true
    from (rest, e, t) =
        rw e (
          unfold valid_bearer_token in rw (has_prefix-append bearer rest) (rw t (==_refl expected)))
