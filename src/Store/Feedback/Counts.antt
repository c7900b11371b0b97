-- ===== src/Store/Feedback/Counts.antt =====
-- What `RecordFeedback` (internal/store/redis/feedback.go) does to every counter that Redis keeps.
pub mod Exec
pub mod Kept
pub mod Parts
use prompt_graft.Base.{
  ℕ, ◌+◌, Bool, true, false, ◌&&◌, List, [], ◌∷◌, ◌++◌, ◌≡◌, ◌⊎◌, inl, inr, refl, ◌∙◌, ap, subst,
  ==_iff, and-eq-true, is_empty, if◌then◌else◌, Bytes, ◌==◌, arith, All, All-append, Bool-cases,
}
use prompt_graft.Base.Int.{ℤ, pos, is_positive, is_negative}
use prompt_graft.Base.Decimal.{parse_int, int_to_string, IsInt64}
use prompt_graft.Store.Types.{SessionRef}
use prompt_graft.Store.Keys.{key_session_feedback, key_conversation_feedback}
use prompt_graft.Store.Hashes.{
  Command, hincrby, hset, expire, del, hdel, set, lpush, ltrim, Redis, Ok, after, IsRedis,
}
use prompt_graft.Store.Feedback.{
  up, down, total_rated, last_updated, variant_field, comment_field, vote, comment_command,
  conversation_part, session_part, rating_commands, record_feedback,
}
use prompt_graft.Store.Feedback.Counts.Parts.{
  rated, IsCounter, added-rating_commands, and_false, conversation_part-Adds, session_part-Adds,
}
use prompt_graft.Store.Feedback.Counts.Kept.{Writes, exec-Writes}
use prompt_graft.Store.Feedback.Counts.Exec.{Adds, count-exec}

-- A rating that Redis took in a conversation adds to the counters of the conversation's hash its vote,
-- to those of the session's hash its vote and one rating, and to no counter of another hash: each counter
-- is what it was and what `rated` says. The counter stays an int64, and Redis does as documented.
pub record_feedback-counts :
    {S : Type 0} (redis : Redis S) (field : S → Bytes → Bytes → Bytes)
    → IsRedis redis field
    → (now : ℕ) (s : S) (ref : SessionRef) (conversation variant : Bytes) (rating : ℤ)
      (comment k f : Bytes) (m : ℕ)
    → is_empty conversation ≡ false
    → (record_feedback redis now s ref conversation variant rating comment).0 ≡ true
    → IsCounter f
    → parse_int (field s k f) ≡ pos m
    → IsInt64 (m + rated ref conversation rating k f)
    → parse_int (field (record_feedback redis now s ref conversation variant rating comment).1 k f)
      ≡ pos (m + rated ref conversation rating k f)
unfolding record_feedback rating_commands
record_feedback-counts redis field law now s ref conversation variant rating comment k f m full done
      q e h =
    let cs : List Command = rating_commands now ref conversation variant rating comment in
    let sum = added-rating_commands now ref conversation variant rating comment k f in
    rw full (
      rw (← sum) (
        count-exec redis field law cs s k f m (rw full at done)
          (All-append (Adds k f)
            (conversation_part now
              (key_conversation_feedback ref.key_hash ref.session_id conversation) variant rating
              comment)
            _
            (conversation_part-Adds now
              (key_conversation_feedback ref.key_hash ref.session_id conversation) k f variant
              rating comment q)
            (session_part-Adds now (key_session_feedback ref.key_hash ref.session_id) k f rating q))
          e (rw sum h)))

vote-Writes : (key k v : Bytes) (rating : ℤ) → All (Writes k variant_field v) (vote key rating)
unfolding vote ◌==◌
vote-Writes key k v rating = ground (
  arith,
  and_false (key == k) (up == variant_field) refl,
  and_false (key == k) (down == variant_field) refl,
)

conversation_part-Writes :
    (now : ℕ) (key k v : Bytes) (rating : ℤ) (comment : Bytes)
    → All (Writes k variant_field v) (conversation_part now key v rating comment)
unfolding conversation_part ◌==◌
conversation_part-Writes now key k v rating comment =
    All-append (Writes k variant_field v) (vote key rating) _ (vote-Writes key k v rating) (
      inr refl,
      (
        inl (and_false (key == k) false refl),
        All-append (Writes k variant_field v) (comment_command key comment) _
            (comment-Writes comment) (tt, tt),
      ),
    )
  where
    comment-Writes : (text : Bytes) → All (Writes k variant_field v) (comment_command key text)
    comment-Writes [] = tt
    comment-Writes (x ∷ text) = (inl (and_false (key == k) false refl), tt)

session_part-Writes :
    (now : ℕ) (key k v : Bytes) (rating : ℤ)
    → All (Writes k variant_field v) (session_part now key rating)
unfolding session_part ◌==◌
session_part-Writes now key k v rating = (
  and_false (key == k) false refl,
  All-append (Writes k variant_field v) (vote key rating) _ (vote-Writes key k v rating)
      (inl (and_false (key == k) false refl), tt),
)

-- A rating that Redis took names a variant in the hash of its conversation only if it has one.
pub variant_kept :
    {S : Type 0} (redis : Redis S) (field : S → Bytes → Bytes → Bytes)
    → IsRedis redis field
    → (now : ℕ) (s : S) (ref : SessionRef) (conversation variant : Bytes) (rating : ℤ)
      (comment k : Bytes)
    → is_empty conversation ≡ false
    → (record_feedback redis now s ref conversation variant rating comment).0 ≡ true
    → field s k variant_field ≡ variant
    → field (record_feedback redis now s ref conversation variant rating comment).1 k variant_field
      ≡ variant
unfolding record_feedback rating_commands
variant_kept redis field law now s ref conversation variant rating comment k full done e = rw full (
    exec-Writes redis field law (rating_commands now ref conversation variant rating comment) s k
      variant_field variant (rw full at done)
      (All-append (Writes k variant_field variant)
        (conversation_part now (key_conversation_feedback ref.key_hash ref.session_id conversation)
          variant rating comment)
        _
        (conversation_part-Writes now
          (key_conversation_feedback ref.key_hash ref.session_id conversation) k variant rating
          comment)
        (session_part-Writes now (key_session_feedback ref.key_hash ref.session_id) k variant
          rating))
      e)
