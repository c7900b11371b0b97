-- ===== src/Store/Feedback/Rollup/Twice.antt =====
-- A rating without a variant, recorded and then rolled up (internal/store/redis/feedback.go).
use prompt_graft.Base.{
  ℕ, ◌+◌, true, false, [], ◌∷◌, ◌++◌, ◌≡◌, refl, ◌∙◌, sym, ap, is_empty, Bytes, ◌==◌, ==_refl,
  arith, append_assoc, some, inl, inr, Bool-cases, subst, ==_iff,
}
use prompt_graft.Base.Int.{ℤ, pos, is_positive}
use prompt_graft.Base.Decimal.{parse_int, IsInt64}
use prompt_graft.Text.Search.{has_prefix-append}
use prompt_graft.Store.Types.{SessionRef}
use prompt_graft.Store.Keys.{key_session_feedback, key_conversation_feedback}
use prompt_graft.Store.Hashes.{Redis, IsRedis, IsUp}
use prompt_graft.Store.Feedback.{up, variant_field, rating_commands, record_feedback}
use prompt_graft.Store.Feedback.Counts.{record_feedback-counts, variant_kept}
use prompt_graft.Store.Feedback.Counts.Parts.{rated, votes}
use prompt_graft.Store.Feedback.Rollup.{rollup}
use prompt_graft.Store.Feedback.Rollup.Owed.{View, owed, IsRated, not_same}
use prompt_graft.Store.Feedback.Rollup.Laws.{rollup_moves, owed_session, session-not-IsRated}

conversation_key-append :
    (ref : SessionRef) (conversation : Bytes)
    → key_conversation_feedback ref.key_hash ref.session_id conversation
      ≡ key_conversation_feedback ref.key_hash ref.session_id [] ++ conversation
unfolding key_conversation_feedback
conversation_key-append ref conversation = simp append_assoc

pub conversation-IsRated :
    (ref : SessionRef) (conversation : Bytes)
    → IsRated ref (key_conversation_feedback ref.key_hash ref.session_id conversation)
conversation-IsRated ref conversation =
    rw (conversation_key-append ref conversation)
      (has_prefix-append (key_conversation_feedback ref.key_hash ref.session_id []) conversation)

abbrev conversation_key : SessionRef → Bytes → Bytes
conversation_key ref conversation =
    key_conversation_feedback ref.key_hash ref.session_id conversation

abbrev session_key : SessionRef → Bytes
session_key ref = key_session_feedback ref.key_hash ref.session_id

keys_apart :
    (ref : SessionRef) (conversation : Bytes)
    → (conversation_key ref conversation == session_key ref) ≡ false
keys_apart ref conversation =
    not_same ref (conversation_key ref conversation) (session_key ref)
      (conversation-IsRated ref conversation) (session-not-IsRated ref)

not_same_back :
    (ref : SessionRef) (conversation : Bytes)
    → (session_key ref == conversation_key ref conversation) ≡ false
not_same_back ref conversation =
    elim (Bool-cases (session_key ref == conversation_key ref conversation)) [
      | inl same ↦ absurd (
          session-not-IsRated ref (
            subst (IsRated ref)
              (sym ((==_iff (session_key ref) (conversation_key ref conversation)).0 same))
              (conversation-IsRated ref conversation)))
      | inr other ↦ other
    ]

votes_up : (rating : ℤ) → is_positive rating ≡ true → votes rating up ≡ 1
unfolding ◌==◌
votes_up rating h = rw h refl

rated_conversation :
    (ref : SessionRef) (conversation : Bytes) (rating : ℤ)
    → is_positive rating ≡ true
    → rated ref conversation rating (conversation_key ref conversation) up ≡ 1
rated_conversation ref conversation rating h =
    rw
      (
        votes_up rating h,
        ==_refl (conversation_key ref conversation),
        not_same_back ref conversation,
      )
      refl

rated_session :
    (ref : SessionRef) (conversation : Bytes) (rating : ℤ)
    → is_positive rating ≡ true
    → rated ref conversation rating (session_key ref) up ≡ 1
unfolding ◌==◌
rated_session ref conversation rating h =
    rw (votes_up rating h, keys_apart ref conversation, ==_refl (session_key ref)) refl

record_feedback_taken :
    {S : Type 0} (redis : Redis S)
    → IsUp redis
    → (now : ℕ) (s : S) (ref : SessionRef) (conversation : Bytes) (rating : ℤ) (comment : Bytes)
    → is_empty conversation ≡ false
    → (record_feedback redis now s ref conversation [] rating comment).0 ≡ true
unfolding record_feedback
record_feedback_taken redis running now s ref conversation rating comment full =
    rw full (running.takes s (rating_commands now ref conversation [] rating comment))

parse_int_nil : parse_int [] ≡ pos 0
unfolding parse_int
parse_int_nil = refl

-- A positive rating of a new conversation that has no variant, recorded and then rolled up, adds two to the
-- session's count of up votes. Redis does as documented, answers and takes every command.
pub rollup_counts_twice :
    {S : Type 0} (redis : Redis S) (field : S → View)
    → IsRedis redis field
    → IsUp redis
    → (now : ℕ) (s : S) (ref : SessionRef) (conversation : Bytes) (rating : ℤ) (comment : Bytes)
      (m : ℕ)
    → is_empty conversation ≡ false
    → is_positive rating ≡ true
    → ((f : Bytes) → field s (conversation_key ref conversation) f ≡ [])
    → parse_int (field s (session_key ref) up) ≡ pos m
    → IsInt64 (m + 2)
    → parse_int (
        field
          (rollup redis ref
            (record_feedback redis now s ref conversation [] rating comment).1
            (some (conversation_key ref conversation ∷ []) ∷ [])).1
          (session_key ref)
          up)
      ≡ pos (m + 2)
rollup_counts_twice {S = S} redis field law running now s ref conversation rating comment m full
      positive new e h =
    let s' : S = (record_feedback redis now s ref conversation [] rating comment).1 in
    let key : Bytes = conversation_key ref conversation in
    let taken = record_feedback_taken redis running now s ref conversation rating comment full in
    let one : IsInt64 (0 + rated ref conversation rating key up) =
      rw (rated_conversation ref conversation rating positive) (omega arith) in
    let of_conversation : parse_int (field s' key up) ≡ pos 1 =
      record_feedback-counts redis field law now s ref conversation [] rating comment key up 0 full
        taken (inl refl) (rw (new up) (parse_int_nil)) one
      ∙ rw (rated_conversation ref conversation rating positive) refl in
    let of_session : parse_int (field s' (session_key ref) up) ≡ pos (m + 1) =
      record_feedback-counts redis field law now s ref conversation [] rating comment
        (session_key ref) up m full taken (inl refl) e
        (rw (rated_session ref conversation rating positive) (omega arith))
      ∙ rw (rated_session ref conversation rating positive) refl in
    let variant : field s' key variant_field ≡ [] =
      variant_kept redis field law now s ref conversation [] rating comment key full taken
        (new variant_field) in
    let owes : owed ref (session_key ref) up (field s') (key ∷ []) ≡ 1 =
      owed_session ref key up (field s') 1 variant of_conversation in
    (rollup_moves redis field law running ref ((key ∷ []) ∷ []) s'
        (conversation-IsRated ref conversation, tt)).1
      (session_key ref) up (m + 1) (session-not-IsRated ref) (inl refl) of_session
      (rw owes (omega arith))
    ∙ rw owes (ap pos (omega arith))
