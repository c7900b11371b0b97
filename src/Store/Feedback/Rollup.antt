-- ===== src/Store/Feedback/Rollup.antt =====
-- `RollupConversationFeedback` of internal/store/redis/feedback.go: the votes of each conversation go to
-- its variant, or to the session where it has none.
pub mod Owed
pub mod Laws
pub mod Twice
use prompt_graft.Base.{
  ℕ, suc, Bool, true, false, Option, none, some, List, [], ◌∷◌, is_empty, if◌then◌else◌, Bytes,
}
use prompt_graft.Base.Int.{ℤ, pos, negsuc}
use prompt_graft.Base.Decimal.{parse_int}
use prompt_graft.Store.Types.{SessionRef}
use prompt_graft.Store.Keys.{key_feedback, key_session_feedback}
use prompt_graft.Store.Hashes.{Command, hincrby, del, Redis}
use prompt_graft.Store.Feedback.{up, down, variant_field}
use prompt_graft.Store.Feedback.Ready.{Pages}

abbrev pub target : SessionRef → Bytes → Bytes
target ref variant =
    if is_empty variant
    then key_session_feedback ref.key_hash ref.session_id
    else key_feedback ref.key_hash ref.session_id variant

module _ {S : Type 0} (redis : Redis S) where
  -- if n > 0, HIncrBy; its error is dropped.
  unfoldable pub add_votes : Bytes → Bytes → ℤ → S → S
  add_votes key f (pos (suc n)) s = (redis.exec s (hincrby key f (suc n) ∷ [])).1
  add_votes key f _ s = s

  unfoldable pub move_votes : SessionRef → Bytes → (Bytes → Bytes) → S → S
  move_votes ref key vals s =
      (redis.exec
        (add_votes (target ref (vals variant_field)) down (parse_int (vals down))
          (add_votes (target ref (vals variant_field)) up (parse_int (vals up)) s))
        (del key ∷ [])).1

  abbrev pub move_answer : SessionRef → Bytes → S → Option (Bytes → Bytes) → S
  move_answer ref key s none = s
  move_answer ref key s (some vals) = move_votes ref key vals s

  unfoldable pub rollup_key : SessionRef → S → Bytes → S
  rollup_key ref s key = move_answer ref key s (redis.hgetall s key)

  unfoldable pub rollup_keys : SessionRef → S → List Bytes → S
  rollup_keys ref s [] = s
  rollup_keys ref s (key ∷ keys) = rollup_keys ref (rollup_key ref s key) keys

  -- Whether every SCAN succeeded, and the state.
  unfoldable pub rollup : SessionRef → S → Pages → Bool × S
  rollup ref s [] = (true, s)
  rollup ref s (none ∷ pages) = (false, s)
  rollup ref s (some keys ∷ pages) = rollup ref (rollup_keys ref s keys) pages
