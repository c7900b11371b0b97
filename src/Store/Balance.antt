-- ===== src/Store/Balance.antt =====
-- `selectBalanced`, which internal/store/redis/feedback.go and internal/store/pg/store.go both define.
pub mod Laws
use prompt_graft.Base.{
  ℕ, zero, suc, ◌+◌, ◌-◌, Bool, true, false, not, ◌&&◌, ◌||◌, List, [], ◌∷◌, ◌++◌, is_empty, length,
  keep, eqb, if◌then◌else◌,
}
use prompt_graft.Base.Int.{ℤ, pos, negsuc, eqb_ℤ}
use prompt_graft.Store.Types.{ConversationFeedback}

-- The first of a bucket and what stays in it, with `left` places to fill.
unfoldable pub take_one {ℓ} : {A : Type ℓ} → ℕ → List A → List A × List A
take_one zero xs = ([], xs)
take_one (suc left) [] = ([], [])
take_one (suc left) (x ∷ xs) = (x ∷ [], xs)

-- for len(out) < n: one pass over the three buckets a round, until a pass takes nothing. `left` is
-- n - len(out), and a round that goes on has filled a place, so that n rounds are enough.
unfoldable pub balance {ℓ} : {A : Type ℓ} → ℕ → ℕ → List A → List A → List A → List A
balance zero left up down flat = []
balance (suc k) left up down flat =
    let (first, up_left) = take_one left up in
    let (second, down_left) = take_one (left - length first) down in
    let (third, flat_left) = take_one (left - length first - length second) flat in
    let rest =
      balance k (left - length first - length second - length third) up_left down_left flat_left in
    if is_empty (first ++ second ++ third) then [] else (first ++ second ++ third) ++ rest

abbrev pub is_up : ConversationFeedback → Bool
is_up item = eqb_ℤ item.score (pos 1)

abbrev pub is_down : ConversationFeedback → Bool
is_down item = eqb_ℤ item.score (negsuc 0)

abbrev pub is_flat : ConversationFeedback → Bool
is_flat item = not (is_up item || is_down item)

unfoldable pub select_balanced : List ConversationFeedback → ℕ → List ConversationFeedback
select_balanced list n =
    if eqb n 0 || is_empty list
    then []
    else balance n n (keep is_up list) (keep is_down list) (keep is_flat list)
