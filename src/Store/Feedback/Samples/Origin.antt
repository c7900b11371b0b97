-- ===== src/Store/Feedback/Samples/Origin.antt =====
-- Where the samples of `LoadConversationSamples` (internal/store/redis/feedback.go) come from.
use prompt_graft.Base.{
  ℕ, ◌≤◌, false, Option, none, some, List, [], ◌∷◌, map, ◌≡◌, refl, sym, subst, inl, inr, is_empty,
  Bytes, ◌==◌, arith, All, Memᴰ, Bool-cases,
}
use prompt_graft.Store.Types.{ConversationFeedback, SessionRef}
use prompt_graft.Store.Keys.{key_log}
use prompt_graft.Store.Log.{Role, request, response, LogEntry}
use prompt_graft.Store.Hashes.{Redis}
use prompt_graft.Store.Feedback.{or_none}
use prompt_graft.Store.Feedback.Ready.{Pages}
use prompt_graft.Store.Feedback.Dataset.Laws.{IsScore, score_of-IsScore}
use prompt_graft.Store.Feedback.Samples.{
  Convos, Buckets, started, take_in, fill, convo_map, find_convo, store_convo, rate, select_all,
  sort_by_id, rate_found, rate_answer, rate_keys, rate_pages, selected, load_conversation_samples,
}
use prompt_graft.Store.Feedback.Samples.Laws.{
  IsPartition, add_to_bucket-IsPartition, add_to_bucket-All, variant_count,
  variant_count-select_all, select_all-All, of_variant,
}
use prompt_graft.Store.Feedback.Samples.Sort.{
  IsOrdered, sort_by_id-IsOrdered, sort_by_id-All, keep-sort_by_id,
}

-- A conversation with a name that an entry of the log has.
abbrev pub IsLogged : List LogEntry → Bytes → Type 0
IsLogged log id = (is_empty id ≡ false) × Memᴰ id (map (λ (e : LogEntry). e.conversation_id) log)

take_in_id :
    (r : Role) (e : LogEntry) (cf : ConversationFeedback)
    → (take_in r e cf).conversation_id ≡ cf.conversation_id
unfolding take_in
take_in_id request e cf = ground arith
take_in_id response e cf = ground arith

module _ (P : Bytes → Type 0) where
  abbrev Named : ConversationFeedback → Type 0
  Named cf = P cf.conversation_id

  fill-Named :
      (m : Convos) (e : LogEntry) → All Named m → P e.conversation_id → All Named (fill m e)
  unfolding fill
  fill-Named [] e h p = (subst P (sym (take_in_id e.role e (started e))) p, tt)
  fill-Named (cf ∷ m) e h p = elim (Bool-cases (cf.conversation_id == e.conversation_id)) [
    | inl q ↦ rw q (subst P (sym (take_in_id e.role e cf)) h.0, h.1)
    | inr q ↦ rw q (h.0, fill-Named m e h.1 p)
  ]

  abbrev OfLog : List LogEntry → Type 0
  OfLog log = All (λ (e : LogEntry). is_empty e.conversation_id ≡ false → P e.conversation_id) log

  convo_map-Named :
      (log : List LogEntry) (m : Convos) → All Named m → OfLog log → All Named (convo_map m log)
  unfolding convo_map
  convo_map-Named [] m h o = h
  convo_map-Named (e ∷ log) m h o = elim (Bool-cases (is_empty e.conversation_id)) [
    | inl q ↦ rw q (convo_map-Named log m h o.1)
    | inr q ↦ rw q (convo_map-Named log (fill m e) (fill-Named m e h (o.0 q)) o.1)
  ]

  -- A sample with a name and a score of 1, 0 or -1.
  abbrev pub IsSample : ConversationFeedback → Type 0
  IsSample cf = P cf.conversation_id × IsScore cf.score

  find_convo-Named :
      (id : Bytes) (m : Convos) {cf : ConversationFeedback}
      → All Named m
      → find_convo id m ≡ some cf
      → Named cf
  unfolding find_convo
  find_convo-Named id [] h e = cc
  find_convo-Named id (x ∷ m) {cf} h e = elim (Bool-cases (x.conversation_id == id)) [
    | inl q ↦ let same : x ≡ cf = ground arith in subst Named same h.0
    | inr q ↦ find_convo-Named id m h.1 (rw q at e)
  ]

  store_convo-Named :
      (r : ConversationFeedback) (m : Convos) → Named r → All Named m → All Named (store_convo r m)
  unfolding store_convo
  store_convo-Named r [] p h = tt
  store_convo-Named r (x ∷ m) p h = elim (Bool-cases (x.conversation_id == r.conversation_id)) [
    | inl q ↦ rw q (p, h.1)
    | inr q ↦ rw q (h.0, store_convo-Named r m p h.1)
  ]

  abbrev Filled : Bytes × List ConversationFeedback → Type 0
  Filled b = All IsSample b.1

  abbrev IsValid : Convos × Buckets → Type 0
  IsValid st = All Named st.0 × (All Filled st.1 × IsPartition st.1)

  rate-IsSample :
      (vals : Bytes → Bytes) (cf : ConversationFeedback) → Named cf → IsSample (rate vals cf)
  unfolding rate
  rate-IsSample vals cf p = (p, score_of-IsScore vals)

  module _ {S : Type 0} (redis : Redis S) where
    rate_found-IsValid :
        (vals : Bytes → Bytes) (st : Convos × Buckets) (o : Option ConversationFeedback)
        → IsValid st
        → ((cf : ConversationFeedback) → o ≡ some cf → Named cf)
        → IsValid (rate_found redis vals st o)
    rate_found-IsValid vals st none h n = h
    rate_found-IsValid vals st (some cf) (m, (f, p)) n =
        let sample = rate-IsSample vals cf (n cf refl) in
        (
          store_convo-Named (rate vals cf) st.0 sample.0 m,
          (
            add_to_bucket-All IsSample (rate vals cf) st.1 sample f,
            add_to_bucket-IsPartition (rate vals cf) st.1 p,
          ),
        )

    rate_answer-IsValid :
        (ref : SessionRef) (key : Bytes) (st : Convos × Buckets) (o : Option (Bytes → Bytes))
        → IsValid st
        → IsValid (rate_answer redis ref key st o)
    rate_answer-IsValid ref key st none h = h
    rate_answer-IsValid ref key st (some vals) h =
        rate_found-IsValid vals st _ h (λ cf e. find_convo-Named _ st.0 h.0 e)

    rate_keys-IsValid :
        (s : S) (ref : SessionRef) (keys : List Bytes) (st : Convos × Buckets)
        → IsValid st
        → IsValid (rate_keys redis s ref st keys)
    unfolding rate_keys
    rate_keys-IsValid s ref [] st h = h
    rate_keys-IsValid s ref (key ∷ keys) st h =
        rate_keys-IsValid s ref keys _ (rate_answer-IsValid ref key st (redis.hgetall s key) h)

    rate_pages-IsValid :
        (s : S) (ref : SessionRef) (pages : Pages) (st st' : Convos × Buckets)
        → IsValid st
        → rate_pages redis s ref st pages ≡ some st'
        → IsValid st'
    unfolding rate_pages
    rate_pages-IsValid s ref [] st st' h e = let same : st ≡ st' = cc in subst IsValid same h
    rate_pages-IsValid s ref (none ∷ pages) st st' h e = cc
    rate_pages-IsValid s ref (some keys ∷ pages) st st' h e =
        rate_pages-IsValid s ref pages _ st' (rate_keys-IsValid s ref keys st h) e

logged_each :
    (log : List LogEntry) (Q : Bytes → Type 0)
    → ((id : Bytes) → IsLogged log id → Q id)
    → OfLog Q log
logged_each [] Q f = tt
logged_each (e ∷ log) Q f = (
  λ q. f e.conversation_id (q, Memᴰ.head refl),
  logged_each log Q (λ id (h : IsLogged log id). f id (h.0, Memᴰ.tail h.1)),
)

module _ {S : Type 0} (redis : Redis S) where
  abbrev pub log_of : S → SessionRef → List LogEntry
  log_of s ref = or_none (redis.log_range s (key_log ref.key_hash ref.session_id) 200)

  start-IsValid :
      (s : S) (ref : SessionRef)
      → IsValid (IsLogged (log_of s ref)) (convo_map [] (log_of s ref), [])
  start-IsValid s ref = (
    convo_map-Named (IsLogged (log_of s ref)) (log_of s ref) [] tt
        (logged_each (log_of s ref) (IsLogged (log_of s ref)) (λ id h. h)),
    (tt, tt),
  )

  abbrev AreSamples : S → SessionRef → ℕ → List ConversationFeedback → Type 0
  AreSamples s ref n xs =
      All (IsSample (IsLogged (log_of s ref))) xs
      × (IsOrdered xs × ((v : Bytes) → variant_count v xs ≤ n))

  selected-AreSamples :
      (s : S) (ref : SessionRef) (n : ℕ) (o : Option (Convos × Buckets))
      (xs : List ConversationFeedback)
      → ((st : Convos × Buckets) → o ≡ some st → IsValid (IsLogged (log_of s ref)) st)
      → selected redis n o ≡ some xs
      → AreSamples s ref n xs
  selected-AreSamples s ref n none xs h e = cc
  selected-AreSamples s ref n (some (m, buckets)) xs h e =
      let same : sort_by_id (select_all n buckets) ≡ xs = cc in
      let (named, (filled, parted)) = h (m, buckets) refl in
      subst (AreSamples s ref n) same (
        sort_by_id-All (IsSample (IsLogged (log_of s ref))) (select_all n buckets)
            (select_all-All (IsSample (IsLogged (log_of s ref))) n buckets filled),
        (
          sort_by_id-IsOrdered (select_all n buckets),
          λ v.
              rw (keep-sort_by_id (of_variant v) (select_all n buckets))
                (variant_count-select_all v n buckets parted),
        ),
      )

  -- The samples loaded are of conversations that the log names, rated 1, 0 or -1, in the order of their
  -- conversations, and of each variant there are at most as many as asked for.
  pub load_conversation_samples_lem :
      (s : S) (ref : SessionRef) (per_variant : ℕ) (pages : Pages) (xs : List ConversationFeedback)
      → load_conversation_samples redis s ref per_variant pages ≡ some xs
      → All (IsSample (IsLogged (log_of s ref))) xs
        × (IsOrdered xs × ((v : Bytes) → variant_count v xs ≤ per_variant))
  unfolding load_conversation_samples
  load_conversation_samples_lem s ref n pages xs e =
      selected-AreSamples s ref n _ xs
        (λ st r.
          rate_pages-IsValid (IsLogged (log_of s ref)) redis s ref pages _ st (start-IsValid s ref)
            r)
        e
