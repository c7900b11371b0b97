-- ===== src/Store/Feedback/Dataset/Laws.antt =====
-- The data points of `datasetFromSession` (internal/store/redis/feedback.go).
use prompt_graft.Base.{
  Bool, true, false, not, ◌||◌, Option, none, some, List, [], ◌∷◌, ◌≡◌, ◌≢◌, ◌⊎◌, inl, inr, refl,
  subst, is_empty, if◌then◌else◌, Bytes, arith, All,
}
use prompt_graft.Base.Int.{ℤ, pos, negsuc, ltb_ℤ}
use prompt_graft.Base.Decimal.{parse_int}
use prompt_graft.Store.Types.{SessionRef}
use prompt_graft.Store.Keys.{key_log}
use prompt_graft.Store.Log.{Role, request, response, LogEntry, first_text₂}
use prompt_graft.Store.Hashes.{Redis}
use prompt_graft.Store.Feedback.{up, down}
use prompt_graft.Store.Feedback.Dataset.{
  Pending, no_request, score_of, rated_of, rating_of, pending_of, point_of, answered, dataset_from,
  dataset_of, dataset_from_session,
}
use prompt_graft.Gepa.Dataset.{DataPoint}

abbrev pub IsScore : ℤ → Type 0
IsScore z = (z ≡ pos 1) ⊎ ((z ≡ pos 0) ⊎ (z ≡ negsuc 0))

pub score_of-IsScore : (vals : Bytes → Bytes) → IsScore (score_of vals)
unfolding score_of
score_of-IsScore vals = choose (ltb_ℤ (parse_int (vals down)) (parse_int (vals up))) _
  where
    choose : (b c : Bool) → IsScore (if b then pos 1 else if c then negsuc 0 else pos 0)
    choose true c = inl refl
    choose false true = inr (inr refl)
    choose false false = inr (inl refl)

kept {ℓ} : {A : Type ℓ} (a b : Bool) (x y : A) → b ≡ false → (if not a || not b then x else y) ≡ x
kept a b x y q = ground arith

module _ {F S : Type 0} (float : ℤ → F) (redis : Redis S) where
  -- A data point with a text, whose rating is 1, 0 or -1.
  abbrev pub IsPoint : DataPoint F → Type 0
  IsPoint p = ((p.input ≢ []) ⊎ (p.output ≢ [])) × ((z : ℤ) × IsScore z × (p.rating ≡ float z))

  rating_of-IsScore :
      (s : S) (ref : SessionRef) (conversation : Bytes)
      → IsScore (rating_of float redis s ref conversation).0
  unfolding rating_of
  rating_of-IsScore s ref [] = inr (inl refl)
  rating_of-IsScore s ref (x ∷ c) = of_answer (redis.hgetall s _)
    where
      of_answer : (o : Option (Bytes → Bytes)) → IsScore (rated_of o).0
      of_answer none = inr (inl refl)
      of_answer (some vals) = score_of-IsScore vals

  either_text :
      (a b : Bytes) (p : DataPoint F) (rest : List (DataPoint F))
      → p.input ≡ a
      → p.output ≡ b
      → (z : ℤ) × IsScore z × (p.rating ≡ float z)
      → All IsPoint rest
      → All IsPoint (if not (is_empty a) || not (is_empty b) then p ∷ rest else rest)
  either_text [] [] p rest e f score h = h
  either_text [] (y ∷ b) p rest e f score h = ((inr (λ q. cc), score), h)
  either_text (x ∷ a) b p rest e f score h = ((inl (λ q. cc), score), h)

  answered-IsPoint :
      (s : S) (ref : SessionRef) (p : Pending) (output : Bytes) (rest : List (DataPoint F))
      → All IsPoint rest
      → All IsPoint (answered float redis s ref p output rest)
  answered-IsPoint s ref p output rest h =
      either_text p.prompt output _ rest refl refl
        (
          (rating_of float redis s ref p.conversation_id).0,
          rating_of-IsScore s ref p.conversation_id,
          refl,
        )
        h

  dataset_from-IsPoint :
      (s : S) (ref : SessionRef) (p : Pending) (log : List LogEntry)
      → All IsPoint (dataset_from float redis s ref p log)
  unfolding dataset_from
  dataset_from-IsPoint s ref p [] = tt
  dataset_from-IsPoint s ref p (e ∷ log) =
      by_role e.role (dataset_from-IsPoint s ref (pending_of float redis e) log) (
        answered-IsPoint s ref p (first_text₂ e.response_text e.response_snippet) _
          (dataset_from-IsPoint s ref no_request log))
    where
      by_role :
          (r : Role)
          → All IsPoint (dataset_from float redis s ref (pending_of float redis e) log)
          → All IsPoint (
              answered float redis s ref p
                (first_text₂ e.response_text e.response_snippet)
                (dataset_from float redis s ref no_request log))
          → All IsPoint (elim r [
            | request ↦ dataset_from float redis s ref (pending_of float redis e) log
            | response ↦
                answered float redis s ref p
                  (first_text₂ e.response_text e.response_snippet)
                  (dataset_from float redis s ref no_request log)
          ])
      by_role request h k = h
      by_role response h k = k

  dataset_of-IsPoint :
      (s : S) (ref : SessionRef) (o : Option (List LogEntry)) (d : List (DataPoint F))
      → dataset_of float redis s ref o ≡ some d
      → All IsPoint d
  dataset_of-IsPoint s ref none d e = cc
  dataset_of-IsPoint s ref (some log) d e =
      let same : dataset_from float redis s ref no_request log ≡ d = cc in
      subst (All IsPoint) same (dataset_from-IsPoint s ref no_request log)

  -- Each data point of a session's dataset has a text that is not empty, and is rated 1, 0 or -1.
  pub dataset_from_session-IsPoint :
      (s : S) (ref : SessionRef) (d : List (DataPoint F))
      → dataset_from_session float redis s ref ≡ some d
      → All IsPoint d
  unfolding dataset_from_session
  dataset_from_session-IsPoint s ref d e = dataset_of-IsPoint s ref _ d e

  unrated : (s : S) (ref : SessionRef) → rating_of float redis s ref [] ≡ (pos 0, [])
  unfolding rating_of
  unrated s ref = refl

  abbrev pub text_of : LogEntry → Bytes
  text_of e = first_text₂ e.response_text e.response_snippet

  dataset_from-request :
      (s : S) (ref : SessionRef) (p : Pending) (e : LogEntry) (log : List LogEntry)
      → e.role ≡ request
      → dataset_from float redis s ref p (e ∷ log)
        ≡ dataset_from float redis s ref (pending_of float redis e) log
  unfolding dataset_from
  dataset_from-request s ref p e log h = rw h refl

  dataset_from-response :
      (s : S) (ref : SessionRef) (p : Pending) (e : LogEntry) (log : List LogEntry)
      → e.role ≡ response
      → is_empty (text_of e) ≡ false
      → dataset_from float redis s ref p (e ∷ log)
        ≡ point_of float redis p (text_of e) (rating_of float redis s ref p.conversation_id)
          ∷ dataset_from float redis s ref no_request log
  unfolding dataset_from
  dataset_from-response s ref p e log h full =
      rw h (kept (is_empty p.prompt) (is_empty (text_of e)) _ _ full)

  -- The log is read from its newest entry on, so that in two exchanges the newer response has no prompt, and
  -- the newer request is paired with the older response. Both responses have a text.
  pub dataset_pairs_older :
      (s : S) (ref : SessionRef) (new_response new_request old_response : LogEntry)
      (log : List LogEntry)
      → redis.log_range s (key_log ref.key_hash ref.session_id) 50
        ≡ some (new_response ∷ new_request ∷ old_response ∷ log)
      → new_response.role ≡ response
      → new_request.role ≡ request
      → old_response.role ≡ response
      → is_empty (text_of new_response) ≡ false
      → is_empty (text_of old_response) ≡ false
      → dataset_from_session float redis s ref
        ≡ some (
            point_of float redis no_request (text_of new_response) (pos 0, [])
            ∷ point_of float redis
                (pending_of float redis new_request)
                (text_of old_response)
                (rating_of float redis s ref new_request.conversation_id)
            ∷ dataset_from float redis s ref no_request log)
  unfolding dataset_from_session
  dataset_pairs_older s ref r q r' log e h k h' full full' =
      rw
        (
          e,
          dataset_from-response s ref no_request r (q ∷ r' ∷ log) h full,
          dataset_from-request s ref no_request q (r' ∷ log) k,
          dataset_from-response s ref (pending_of float redis q) r' log h' full',
          unrated s ref,
        )
        refl
