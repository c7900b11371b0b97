-- ===== src/Store/Feedback/Ready/Laws.antt =====
-- Which sessions `ReadySessions` (internal/store/redis/feedback.go) gives to the optimizer.
use prompt_graft.Base.{
  ℕ, ◌+◌, ◌<◌, false, not, ◌&&◌, some, [], ◌∷◌, ◌++◌, ◌≡◌, refl, ◌∙◌, ap, ltb, lt→ltb,
  if◌then◌else◌, Bytes, codes, ◌==◌, ==_refl, append_assoc, append-nil,
}
use prompt_graft.Base.Int.{ℤ, pos, ltb_ℤ}
use prompt_graft.Base.Decimal.{parse_int, int_to_string, parse_int-int_to_string, IsInt64}
use prompt_graft.Text.{split, split_from}
use prompt_graft.Store.Types.{SessionRef}
use prompt_graft.Store.Keys.{colon, HasNoColon, key_session_feedback}
use prompt_graft.Store.Hashes.{Redis, IsRedis, IsUp}
use prompt_graft.Store.Feedback.{total_rated, last_optimized, mark_session_optimized}
use prompt_graft.Store.Feedback.Ready.{is_recent, is_ready, session_of, ready_key}

abbrev pub Separable : SessionRef → Type 0
Separable ref = HasNoColon ref.key_hash × HasNoColon ref.session_id

-- The text in front of a separator, and the rest.
split_from-append :
    (cur a b : Bytes)
    → HasNoColon a
    → split_from colon cur (a ++ colon ∷ b) ≡ (cur ++ a) ∷ split_from colon [] b
unfolding split_from
split_from-append cur [] b h = rw (append-nil cur) refl
split_from-append cur (c ∷ a) b h =
    rw h.0 (split_from-append (cur ++ c ∷ []) a b h.1 ∙ rw (append_assoc cur (c ∷ []) a) refl)

split_from_all : (cur a : Bytes) → HasNoColon a → split_from colon cur a ≡ (cur ++ a) ∷ []
unfolding split_from
split_from_all cur [] h = rw (append-nil cur) refl
split_from_all cur (c ∷ a) h =
    rw h.0 (split_from_all (cur ++ c ∷ []) a h.1 ∙ rw (append_assoc cur (c ∷ []) a) refl)

session_feedback-HasNoColon : HasNoColon (codes "session_feedback")
session_feedback-HasNoColon = (
  refl,
  (
    refl,
    (
      refl,
      (
        refl,
        (
          refl,
          (
            refl,
            (refl, (refl, (refl, (refl, (refl, (refl, (refl, (refl, (refl, (refl, tt)))))))))),
          ),
        ),
      ),
    ),
  ),
)

split-key_session_feedback :
    (ref : SessionRef)
    → Separable ref
    → session_of (split (key_session_feedback ref.key_hash ref.session_id) colon) ≡ some ref
unfolding split key_session_feedback
split-key_session_feedback ref h =
    rw
      (
        split_from-append [] (codes "pg")
            (codes "session_feedback" ++ colon ∷ (ref.key_hash ++ colon ∷ ref.session_id))
            (refl, (refl, tt)),
        split_from-append [] (codes "session_feedback") (ref.key_hash ++ colon ∷ ref.session_id)
            session_feedback-HasNoColon,
        split_from-append [] ref.key_hash ref.session_id h.0,
        split_from_all [] ref.session_id h.1,
      )
      refl

after_mark :
    (now later every : ℕ) (min_samples : ℤ) (vals : Bytes → Bytes)
    → 0 < now
    → parse_int (vals last_optimized) ≡ pos now
    → is_ready later min_samples every vals
      ≡ (not (ltb_ℤ (parse_int (vals total_rated)) min_samples) && not (ltb later (now + every)))
unfolding is_ready is_recent
after_mark now later every min_samples vals p e = rw (e, lt→ltb 0 now p) refl

apart : (last_optimized == total_rated) ≡ false
unfolding ◌==◌
apart = refl

module _ {S : Type 0} (redis : Redis S) (field : S → Bytes → Bytes → Bytes)
    (law : IsRedis redis field) (running : IsUp redis) where
  abbrev session_key : SessionRef → Bytes
  session_key ref = key_session_feedback ref.key_hash ref.session_id

  field-mark_session_optimized :
      (now : ℕ) (s : S) (ref : SessionRef) (g : Bytes)
      → field (mark_session_optimized redis now s ref).1 (session_key ref) g
        ≡ (if last_optimized == g then int_to_string (pos now) else field s (session_key ref) g)
  unfolding mark_session_optimized
  field-mark_session_optimized now s ref g =
      law.get-hset s (session_key ref) last_optimized (int_to_string (pos now)) (session_key ref) g
        (running.takes s _)
      ∙ rw (==_refl (session_key ref)) refl

  ready_key_lem :
      (later every : ℕ) (min_samples : ℤ) (s : S) (ref : SessionRef)
      → Separable ref
      → ready_key redis later min_samples every s (session_key ref) ≡ (
          if is_ready later min_samples every (running.answers s (session_key ref)).0
          then ref ∷ []
          else [])
  unfolding ready_key
  ready_key_lem later every min_samples s ref h =
      rw (split-key_session_feedback ref h, (running.answers s (session_key ref)).1) refl

  -- A session marked as optimized at the time `now` is found under its key exactly if it has enough ratings,
  -- as many as before the mark, and `every` seconds have gone by since. Neither part of its name
  -- has a colon, Redis does as documented and answers, and the time is a positive int64.
  pub ready_key-mark :
      (now later every : ℕ) (min_samples : ℤ) (s : S) (ref : SessionRef)
      → Separable ref
      → 0 < now
      → IsInt64 now
      → ready_key redis later min_samples every
          (mark_session_optimized redis now s ref).1
          (session_key ref)
        ≡ (if not (ltb_ℤ (parse_int (field s (session_key ref) total_rated)) min_samples)
              && not (ltb later (now + every))
            then ref ∷ []
            else [])
  ready_key-mark now later every min_samples s ref h p q =
      let s' : S = (mark_session_optimized redis now s ref).1 in
      let read = running.answers s' (session_key ref) in
      let total : read.0 total_rated ≡ field s (session_key ref) total_rated =
        law.reads s' (session_key ref) read.0 total_rated read.1
        ∙ (field-mark_session_optimized now s ref total_rated ∙ rw apart refl) in
      let last : parse_int (read.0 last_optimized) ≡ pos now =
        ap parse_int (
          law.reads s' (session_key ref) read.0 last_optimized read.1
          ∙ (field-mark_session_optimized now s ref last_optimized
              ∙ rw (==_refl last_optimized) refl))
        ∙ parse_int-int_to_string now q in
      ready_key_lem later every min_samples s' ref h
      ∙ rw (after_mark now later every min_samples read.0 p last, total) refl
