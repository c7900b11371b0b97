-- ===== src/Optimizer/Driver/Once.antt =====
-- A run of the optimizer keeps what its calls keep.
use prompt_graft.Base.{
  Bool, true, false, not, ◌&&◌, Option, none, some, List, [], ◌∷◌, ◌≡◌, ◌≢◌, ◌⊎◌, inl, inr, refl,
  map, is_empty, length, length-take, length-map, ltb, if◌then◌else◌, Bytes, ◌==◌, arith,
  Bool-cases, All, All-take,
}
use prompt_graft.Base.Int.{ℤ, pos, negsuc, ltb_ℤ, is_negative}
use prompt_graft.Base.Float.{Floats}
use prompt_graft.Store.Types.{ConversationFeedback, SessionRef}
use prompt_graft.Optimizer.Prompts.{all_positive, extract_conversation_ids, derive_template}
use prompt_graft.Optimizer.Prompts.Laws.{parse_candidates-ne-nil}
use prompt_graft.Optimizer.Driver.{
  Settings, Backend, candidate_of, limited, with_chosen, use_candidates, with_generation,
  with_analysis, persist_template, improve, with_samples, run_session, run_sessions, with_ready,
  run_once,
}
use prompt_graft.Optimizer.Driver.Guarantee.{IsKept, Reaches, promote-Reaches, finish-Reaches}

-- No more candidates than the output size, none of them empty; only a negative size leaves no list.
abbrev IsLimited : ℤ → Option (List Bytes) → Type 0
IsLimited n none = is_negative n ≡ true
IsLimited n (some cs) = All (λ c. c ≢ []) cs × (ltb_ℤ n (pos (length cs)) ≡ false)

limited-IsLimited : (n : ℤ) (cs : List Bytes) → All (λ c. c ≢ []) cs → IsLimited n (limited n cs)
unfolding limited
limited-IsLimited (pos n) cs all = elim (Bool-cases (ltb n (length cs))) [
  | inl e ↦ rw e (All-take (λ c. c ≢ []) n cs all, ground (arith, length-take n cs))
  | inr e ↦ rw e (all, ground arith)
]
limited-IsLimited (negsuc n) cs all = refl

module _ (fl : Floats) {S : Type 0} (be : Backend fl.F S) (cfg : Settings)
    (decode : Bytes → Option (List Bytes)) (hash_prompt : Bytes → Bytes) where
  open fl use {F}

  module _ (P : S → Type 0) (k : IsKept fl be cfg decode hash_prompt P) where
    prompts :
        (xs : List Bytes)
        → All (λ x. x ≢ []) xs
        → All (λ c. c.prompt ≢ []) (map (candidate_of fl be cfg decode hash_prompt) xs)
    prompts [] h = tt
    prompts (x ∷ xs) (e, h) = (e, prompts xs h)

    with_chosen-Reaches :
        (ref : SessionRef) (samples : List ConversationFeedback) (s : S) (o : Option (List Bytes))
        → IsLimited cfg.gepa_output_size o
        → P s
        → Reaches fl be cfg decode hash_prompt P
            (with_chosen fl be cfg decode hash_prompt ref samples s o)
    unfolding with_chosen
    with_chosen-Reaches ref samples s none h p = h
    with_chosen-Reaches ref samples s (some cs) (all, few) p =
        finish-Reaches fl be cfg decode hash_prompt P k ref _ (
          promote-Reaches fl be cfg decode hash_prompt P k ref
            (map (candidate_of fl be cfg decode hash_prompt) cs) _ (prompts cs all)
            (rw (length-map (candidate_of fl be cfg decode hash_prompt) cs) few)
            (k.by_rollup _ ref (k.by_used s ref (extract_conversation_ids samples) p)))

    use_candidates-Reaches :
        (ref : SessionRef) (samples : List ConversationFeedback) (cs : List Bytes) (s : S)
        → All (λ c. c ≢ []) cs
        → P s
        → Reaches fl be cfg decode hash_prompt P
            (use_candidates fl be cfg decode hash_prompt ref samples cs s)
    unfolding use_candidates
    use_candidates-Reaches ref samples [] s h p = p
    use_candidates-Reaches ref samples (c ∷ cs) s h p =
        with_chosen-Reaches ref samples s (limited cfg.gepa_output_size (c ∷ cs))
          (limited-IsLimited cfg.gepa_output_size (c ∷ cs) h) p

    with_generation-Reaches :
        (ref : SessionRef) (samples : List ConversationFeedback) (r : Option Bytes × S)
        → P r.1
        → Reaches fl be cfg decode hash_prompt P
            (with_generation fl be cfg decode hash_prompt ref samples r)
    unfolding with_generation
    with_generation-Reaches ref samples (none, s) p = p
    with_generation-Reaches ref samples (some raw, s) p =
        use_candidates-Reaches ref samples _ s (parse_candidates-ne-nil decode raw) p

    with_analysis-Reaches :
        (ref : SessionRef) (samples : List ConversationFeedback) (r : Option Bytes × S)
        → P r.1
        → Reaches fl be cfg decode hash_prompt P
            (with_analysis fl be cfg decode hash_prompt ref samples r)
    unfolding with_analysis
    with_analysis-Reaches ref samples (none, s) p = p
    with_analysis-Reaches ref samples (some analysis, s) p =
        with_generation-Reaches ref samples _ (k.by_complete s _ _ p)

    improve-Reaches :
        (ref : SessionRef) (samples : List ConversationFeedback) (s : S)
        → P s
        → Reaches fl be cfg decode hash_prompt P
            (improve fl be cfg decode hash_prompt ref samples s)
    unfolding improve
    improve-Reaches ref samples s p = elim (Bool-cases (all_positive samples)) [
      | inl e ↦ rw e (k.by_mark _ ref (k.by_rollup s ref p))
      | inr e ↦ rw e (with_analysis-Reaches ref samples _ (k.by_complete s _ _ p))
    ]

    persist_template-Kept :
        (ref : SessionRef) (samples : List ConversationFeedback) (s : S)
        → P s
        → P (persist_template fl be cfg decode hash_prompt ref samples s)
    unfolding persist_template
    persist_template-Kept ref samples s p =
        chosen (derive_template samples) (derive_template samples == be.session_prompt s ref)
      where
        chosen :
            (t : Bytes) (same : Bool)
            → P (if not (is_empty t) && not same then be.set_session_prompt s ref t else s)
        chosen [] same = p
        chosen (c ∷ t) true = p
        chosen (c ∷ t) false = k.by_template s ref (c ∷ t) (λ e. cc) p

    with_samples-Reaches :
        (ref : SessionRef) (s : S) (samples : Option (List ConversationFeedback))
        → P s
        → Reaches fl be cfg decode hash_prompt P
            (with_samples fl be cfg decode hash_prompt ref s samples)
    unfolding with_samples
    with_samples-Reaches ref s none p = p
    with_samples-Reaches ref s (some []) p = p
    with_samples-Reaches ref s (some (x ∷ xs)) p =
        improve-Reaches ref (x ∷ xs) _ (persist_template-Kept ref (x ∷ xs) s p)

    run_sessions-Reaches :
        (refs : List SessionRef) (s : S)
        → P s
        → Reaches fl be cfg decode hash_prompt P (run_sessions fl be cfg decode hash_prompt s refs)
    unfolding run_sessions run_session
    run_sessions-Reaches [] s p = p
    run_sessions-Reaches (ref ∷ refs) s p =
        go (λ t. run_sessions-Reaches refs t)
          (with_samples fl be cfg decode hash_prompt ref s (be.load_samples s ref cfg.gepa_top_n))
          (with_samples-Reaches ref s _ p)
      where
        go :
            ((t : S)
              → P t
              → Reaches fl be cfg decode hash_prompt P
                  (run_sessions fl be cfg decode hash_prompt t refs))
            → (o : Option S) → Reaches fl be cfg decode hash_prompt P o
            → Reaches fl be cfg decode hash_prompt P (elim o as (λ x. Option S) [
              | none ↦ none
              | some t ↦ run_sessions fl be cfg decode hash_prompt t refs
            ])
        go rec none h = h
        go rec (some t) h = rec t h

    -- A run sets no variants but well-formed lists of them: a property of the state that is kept by
    -- every such call, and by the other calls of the store and of the model, holds when the run ends, if
    -- it held when it began. It ends, unless it panics, which it does only if the configured output
    -- size is negative.
    pub run_once-IsKept :
        (s : S)
        → P s
        → ((t : S) × (run_once fl be cfg decode hash_prompt s ≡ some t) × P t)
          ⊎ ((run_once fl be cfg decode hash_prompt s ≡ none)
              × (is_negative cfg.gepa_output_size ≡ true))
    unfolding run_once with_ready
    run_once-IsKept s p = reached _ (ready_sessions (be.ready_sessions s))
      where
        ready_sessions :
            (r : Option (List SessionRef))
            → Reaches fl be cfg decode hash_prompt P (with_ready fl be cfg decode hash_prompt s r)
        ready_sessions none = p
        ready_sessions (some refs) = run_sessions-Reaches refs s p

        reached :
            (o : Option S)
            → Reaches fl be cfg decode hash_prompt P o
            → ((t : S) × (o ≡ some t) × P t)
              ⊎ ((o ≡ none) × (is_negative cfg.gepa_output_size ≡ true))
        reached none h = inr (refl, h)
        reached (some t) h = inl (t, refl, h)
