-- ===== src/Store/Feedback/Counts/Parts.antt =====
-- What one rating adds to the counters of Redis (`RecordFeedback` in internal/store/redis/feedback.go).
use prompt_graft.Base.{
  ℕ, ◌+◌, Bool, false, ◌&&◌, List, [], ◌∷◌, ◌++◌, ◌≡◌, ◌⊎◌, inl, inr, refl, if◌then◌else◌, Bytes,
  ◌==◌, arith, All, All-append,
}
use prompt_graft.Base.Int.{ℤ, pos, is_positive, is_negative}
use prompt_graft.Base.Decimal.{int_to_string}
use prompt_graft.Store.Types.{SessionRef}
use prompt_graft.Store.Keys.{key_session_feedback, key_conversation_feedback}
use prompt_graft.Store.Hashes.{Command, hincrby, hset, expire, del, hdel, set, lpush, ltrim}
use prompt_graft.Store.Feedback.Counts.Exec.{added, Adds}
use prompt_graft.Store.Feedback.{
  up, down, total_rated, last_updated, variant_field, comment_field, vote, comment_command,
  conversation_part, session_part, rating_commands,
}

-- What one rating adds to the votes under a field.
abbrev pub votes : ℤ → Bytes → ℕ
votes rating f =
    if is_positive rating
    then (if up == f then 1 else 0)
    else (if is_negative rating then (if down == f then 1 else 0) else 0)

-- What one rating adds to a counter: its votes to the hash of the conversation, and to the hash of the
-- session its votes and one more to the number of ratings.
abbrev pub rated : SessionRef → Bytes → ℤ → Bytes → Bytes → ℕ
rated ref conversation rating k f =
    (if key_conversation_feedback ref.key_hash ref.session_id conversation == k
      then votes rating f
      else 0)
    + (if key_session_feedback ref.key_hash ref.session_id == k
        then (if total_rated == f then 1 else 0) + votes rating f
        else 0)

abbrev pub IsCounter : Bytes → Type 0
IsCounter f = (f ≡ up) ⊎ ((f ≡ down) ⊎ (f ≡ total_rated))

added-append :
    (k f : Bytes) (cs ds : List Command) → added k f (cs ++ ds) ≡ added k f cs + added k f ds
added-append k f [] ds = omega arith
added-append k f (hincrby j g n ∷ cs) ds = omega (arith, added-append k f cs ds)
added-append k f (hset j g v ∷ cs) ds = added-append k f cs ds
added-append k f (expire j age ∷ cs) ds = added-append k f cs ds
added-append k f (del j ∷ cs) ds = added-append k f cs ds
added-append k f (hdel j gs ∷ cs) ds = added-append k f cs ds
added-append k f (set j v ∷ cs) ds = added-append k f cs ds
added-append k f (lpush j v ∷ cs) ds = added-append k f cs ds
added-append k f (ltrim j n ∷ cs) ds = added-append k f cs ds

added-vote :
    (key k f : Bytes) (rating : ℤ)
    → added k f (vote key rating) ≡ (if key == k then votes rating f else 0)
unfolding vote
added-vote key k f rating = ground arith

added-conversation_part :
    (now : ℕ) (key k f variant : Bytes) (rating : ℤ) (comment : Bytes)
    → added k f (conversation_part now key variant rating comment)
      ≡ (if key == k then votes rating f else 0)
unfolding conversation_part
added-conversation_part now key k f variant rating [] =
    omega (arith, added-append k f (vote key rating) _, added-vote key k f rating)
added-conversation_part now key k f variant rating (x ∷ comment) =
    omega (arith, added-append k f (vote key rating) _, added-vote key k f rating)

first_and_votes :
    (a b : Bool) (v n m : ℕ)
    → n ≡ m + 0
    → m ≡ (if a then v else 0)
    → (if a && b then 1 else 0) + n ≡ (if a then (if b then 1 else 0) + v else 0)
first_and_votes a b v n m p q = ground arith

added-session_part :
    (now : ℕ) (key k f : Bytes) (rating : ℤ)
    → added k f (session_part now key rating)
      ≡ (if key == k then (if total_rated == f then 1 else 0) + votes rating f else 0)
unfolding session_part
added-session_part now key k f rating =
    first_and_votes (key == k) (total_rated == f) (votes rating f) _ (added k f (vote key rating))
      (added-append k f (vote key rating) _) (added-vote key k f rating)

pub added-rating_commands :
    (now : ℕ) (ref : SessionRef) (conversation variant : Bytes) (rating : ℤ) (comment k f : Bytes)
    → added k f (rating_commands now ref conversation variant rating comment)
      ≡ rated ref conversation rating k f
unfolding rating_commands
added-rating_commands now ref conversation variant rating comment k f = omega (
  arith,
  added-append k f
      (conversation_part now (key_conversation_feedback ref.key_hash ref.session_id conversation)
        variant rating comment)
      (session_part now (key_session_feedback ref.key_hash ref.session_id) rating),
  added-conversation_part now (key_conversation_feedback ref.key_hash ref.session_id conversation) k
      f variant rating comment,
  added-session_part now (key_session_feedback ref.key_hash ref.session_id) k f rating,
)

-- No field that is set is a counter.
abbrev IsSetField : Bytes → Type 0
IsSetField g = (g ≡ variant_field) ⊎ ((g ≡ last_updated) ⊎ (g ≡ comment_field))

counter_apart : (g f : Bytes) → IsSetField g → IsCounter f → (g == f) ≡ false
unfolding ◌==◌
counter_apart g f (inl p) (inl q) = rw (p, q) refl
counter_apart g f (inl p) (inr (inl q)) = rw (p, q) refl
counter_apart g f (inl p) (inr (inr q)) = rw (p, q) refl
counter_apart g f (inr (inl p)) (inl q) = rw (p, q) refl
counter_apart g f (inr (inl p)) (inr (inl q)) = rw (p, q) refl
counter_apart g f (inr (inl p)) (inr (inr q)) = rw (p, q) refl
counter_apart g f (inr (inr p)) (inl q) = rw (p, q) refl
counter_apart g f (inr (inr p)) (inr (inl q)) = rw (p, q) refl
counter_apart g f (inr (inr p)) (inr (inr q)) = rw (p, q) refl

pub and_false : (a b : Bool) → b ≡ false → (a && b) ≡ false
and_false a b h = ground arith

vote-Adds : (key k f : Bytes) (rating : ℤ) → All (Adds k f) (vote key rating)
unfolding vote
vote-Adds key k f rating = ground arith

set-Adds : (key g v k f : Bytes) → IsSetField g → IsCounter f → Adds k f (hset key g v)
set-Adds key g v k f p q = and_false (key == k) (g == f) (counter_apart g f p q)

pub conversation_part-Adds :
    (now : ℕ) (key k f variant : Bytes) (rating : ℤ) (comment : Bytes)
    → IsCounter f
    → All (Adds k f) (conversation_part now key variant rating comment)
unfolding conversation_part
conversation_part-Adds now key k f variant rating comment q =
    All-append (Adds k f) (vote key rating) _ (vote-Adds key k f rating) (
      set-Adds key variant_field variant k f (inl refl) q,
      (
        set-Adds key last_updated (int_to_string (pos now)) k f (inr (inl refl)) q,
        All-append (Adds k f) (comment_command key comment) _ (comment-Adds comment) (tt, tt),
      ),
    )
  where
    comment-Adds : (text : Bytes) → All (Adds k f) (comment_command key text)
    comment-Adds [] = tt
    comment-Adds (x ∷ text) = (set-Adds key comment_field (x ∷ text) k f (inr (inr refl)) q, tt)

pub session_part-Adds :
    (now : ℕ) (key k f : Bytes) (rating : ℤ)
    → IsCounter f
    → All (Adds k f) (session_part now key rating)
unfolding session_part
session_part-Adds now key k f rating q = (
  tt,
  All-append (Adds k f) (vote key rating) _ (vote-Adds key k f rating)
      (set-Adds key last_updated (int_to_string (pos now)) k f (inr (inl refl)) q, tt),
)
