-- ===== src/Store/Keys.antt =====
-- internal/store/schema.go, and `splitLogKey` of internal/store/redis/log.go.
pub mod Laws
use prompt_graft.Base.{
  ℕ, zero, suc, ◌+◌, ◌≤◌, Bool, true, false, Option, none, some, List, [], ◌∷◌, ◌++◌, ◌≡◌, refl,
  sym, ap, ◌∙◌, inl, inr, length, drop, leb, eqb, if◌then◌else◌, Bytes, codes, arith, Bool-cases,
  Option-cases, All,
}
use prompt_graft.Text.{has_prefix}
use prompt_graft.Text.Search.{eq-append_of_has_prefix}
use prompt_graft.Store.Types.{SessionRef}

abbrev pub colon : ℕ
colon = 58

-- fmt.Sprintf("%s%s:%s", …)
abbrev pub joined : Bytes → Bytes → Bytes → Bytes
joined family a b = family ++ (a ++ colon ∷ b)

unfoldable pub key_variants : Bytes → Bytes → Bytes
key_variants key_hash session_id = joined (codes "pg:variants:") key_hash session_id

unfoldable pub key_log : Bytes → Bytes → Bytes
key_log key_hash session_id = joined (codes "pg:log:") key_hash session_id

unfoldable pub key_feedback : Bytes → Bytes → Bytes → Bytes
key_feedback key_hash session_id variant_id =
    joined (codes "pg:feedback:") key_hash (session_id ++ colon ∷ variant_id)

unfoldable pub key_session_feedback : Bytes → Bytes → Bytes
key_session_feedback key_hash session_id = joined (codes "pg:session_feedback:") key_hash session_id

unfoldable pub key_conversation_feedback : Bytes → Bytes → Bytes → Bytes
key_conversation_feedback key_hash session_id conversation_id =
    joined (codes "pg:conversation_feedback:") key_hash (session_id ++ colon ∷ conversation_id)

unfoldable pub key_session_prompt : Bytes → Bytes → Bytes
key_session_prompt key_hash session_id = joined (codes "pg:session_prompt:") key_hash session_id

unfoldable pub key_best_prompt : Bytes → Bytes → Bytes
key_best_prompt key_hash session_id = joined (codes "pg:best_prompt:") key_hash session_id

unfoldable pub key_history : Bytes → Bytes → Bytes
key_history key_hash session_id = joined (codes "pg:history:") key_hash session_id

-- for i, c := range rest: what stands before the first colon and behind it.
abbrev pub with_first : ℕ → Option (Bytes × Bytes) → Option (Bytes × Bytes)
with_first c none = none
with_first c (some (a, b)) = some (c ∷ a, b)

unfoldable pub split_at_colon : Bytes → Option (Bytes × Bytes)
split_at_colon [] = none
split_at_colon (c ∷ rest) =
    let later = split_at_colon rest in if eqb c colon then some ([], rest) else with_first c later

abbrev pub ref_of : Option (Bytes × Bytes) → Option SessionRef
ref_of none = none
ref_of (some (a, b)) = some (record { key_hash = a; session_id = b })

unfoldable pub split_log_key : Bytes → Option SessionRef
split_log_key key = if leb (length key) 7 then none else ref_of (split_at_colon (drop 7 key))

abbrev pub HasNoColon : Bytes → Type 0
HasNoColon s = All (λ c. eqb c colon ≡ false) s
