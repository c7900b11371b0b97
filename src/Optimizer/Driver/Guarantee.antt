-- ===== src/Optimizer/Driver/Guarantee.antt =====
-- What a run of the optimizer does to the store.
use prompt_graft.Base.{
  sym, subst, ℕ, Bool, true, false, Option, none, some, List, [], ◌∷◌, ◌≡◌, ◌≢◌, refl, map, length,
  length-map, Bytes, All,
}
use prompt_graft.Base.Int.{pos, ltb_ℤ, is_negative}
use prompt_graft.Base.Float.{Floats}
use prompt_graft.Store.Types.{Variant, BestPrompt, HistoryEntry, SessionRef}
use prompt_graft.Gepa.Candidate.{Candidate}
use prompt_graft.Optimizer.Driver.{
  Settings, Backend, variant_of, record_best, promoted, promote, first_of, finish,
}

module _ (fl : Floats) {S : Type 0} (be : Backend fl.F S) (cfg : Settings)
    (decode : Bytes → Option (List Bytes)) (hash_prompt : Bytes → Bytes) where
  open fl use {F, of_nat, div}

  -- A variant of a list of `n`: its prompt is not empty, its hash is the name, and its weight is 1/n.
  abbrev pub IsFormed : ℕ → Variant F → Type 0
  IsFormed n v =
      (v.system_prompt ≢ [])
      × (v.id ≡ hash_prompt v.system_prompt)
      × (v.weight ≡ div (of_nat 1) (of_nat n))

  -- The variants that a run may set: at least one and at most as many as configured; each has a prompt
  -- that is not empty, is named by its hash, and weighs the same.
  pub record IsVariantList (vs : List (Variant F)) : Type 0 where
    pub some_variant : vs ≢ []
    pub few : ltb_ℤ cfg.gepa_output_size (pos (length vs)) ≡ false
    pub formed : All (IsFormed (length vs)) vs

  -- A property of the state that every call keeps, as far as the run makes the call.
  pub record IsKept (P : S → Type 0) : Type 0 where
    pub by_complete : (s : S) (system user : Bytes) → P s → P (be.complete s system user).1
    pub by_template :
        (s : S) (ref : SessionRef) (template : Bytes)
        → template ≢ []
        → P s
        → P (be.set_session_prompt s ref template)
    pub by_rollup : (s : S) (ref : SessionRef) → P s → P (be.rollup s ref)
    pub by_mark : (s : S) (ref : SessionRef) → P s → P (be.mark_optimized s ref)
    pub by_used : (s : S) (ref : SessionRef) (ids : List Bytes) → P s → P (be.mark_used s ref ids)
    pub by_variants :
        (s : S) (ref : SessionRef) (vs : List (Variant F))
        → IsVariantList vs
        → P s
        → P (be.set_variants s ref vs).1
    pub by_best :
        (s : S) (ref : SessionRef) (best : BestPrompt F)
        → best.prompt ≢ []
        → P s
        → P (be.update_best s ref best)
    pub by_history :
        (s : S) (ref : SessionRef) (entry : HistoryEntry F)
        → entry.prompt ≢ []
        → P s
        → P (be.append_history s ref entry)

  -- A step ends in a state with the property, or panics, which takes a negative output size.
  abbrev pub Reaches : (S → Type 0) → Option S → Type 0
  Reaches P none = is_negative cfg.gepa_output_size ≡ true
  Reaches P (some s) = P s

  abbrev ReachesPair : (S → Type 0) → Option (Bool × S) → Type 0
  ReachesPair P none = is_negative cfg.gepa_output_size ≡ true
  ReachesPair P (some (ok, s)) = P s

  module _ (P : S → Type 0) (k : IsKept P) where
    record_best-Reaches :
        (ref : SessionRef) (c : Candidate F) (s : S)
        → c.prompt ≢ []
        → P s
        → Reaches P (record_best fl be cfg decode hash_prompt ref (some c) s)
    unfolding record_best
    record_best-Reaches ref c s n p =
        k.by_mark _ ref (k.by_history _ ref _ n (k.by_best s ref _ n p))

    promoted-Reaches :
        (ref : SessionRef) (c : Candidate F) (r : Bool × S)
        → c.prompt ≢ []
        → P r.1
        → ReachesPair P (promoted fl be cfg decode hash_prompt ref (some c) r)
    unfolding promoted
    promoted-Reaches ref c (false, s) n p = p
    promoted-Reaches ref c (true, s) n p =
        pass (record_best fl be cfg decode hash_prompt ref (some c) s)
          (record_best-Reaches ref c s n p)
      where
        pass :
            (o : Option S)
            → Reaches P o
            → ReachesPair P
                (elim o as (λ x. Option (Bool × S)) [ none ↦ none | some t ↦ some (true, t) ])
        pass none h = h
        pass (some t) h = h

    IsFormed-from :
        (n : ℕ) (cs : List (Candidate F))
        → All (λ c. c.prompt ≢ []) cs
        → All (IsFormed n) (map (variant_of fl be cfg decode hash_prompt n) cs)
    IsFormed-from n [] h = tt
    IsFormed-from n (c ∷ cs) (e, h) = ((e, refl, refl), IsFormed-from n cs h)

    pub promote-Reaches :
        (ref : SessionRef) (cs : List (Candidate F)) (s : S)
        → All (λ c. c.prompt ≢ []) cs
        → ltb_ℤ cfg.gepa_output_size (pos (length cs)) ≡ false
        → P s
        → ReachesPair P (
            promote fl be cfg decode hash_prompt ref cs
              (first_of fl be cfg decode hash_prompt cs)
              s)
    unfolding promote
    promote-Reaches ref [] s h few p = p
    promote-Reaches ref (c ∷ cs) s (n, h) few p =
        let vs = map (variant_of fl be cfg decode hash_prompt (length (c ∷ cs))) (c ∷ cs) in
        let same : length vs ≡ length (c ∷ cs) =
          length-map (variant_of fl be cfg decode hash_prompt (length (c ∷ cs))) (c ∷ cs) in
        promoted-Reaches ref c (be.set_variants s ref vs) n (
          k.by_variants s ref vs
            (record {
              some_variant = λ e. cc;
              few = rw same few;
              formed =
                  subst (λ m. All (IsFormed m) vs) (sym same)
                    (IsFormed-from (length (c ∷ cs)) (c ∷ cs) (n, h));
            })
            p)

    pub finish-Reaches :
        (ref : SessionRef) (r : Option (Bool × S))
        → ReachesPair P r
        → Reaches P (finish fl be cfg decode hash_prompt ref r)
    unfolding finish
    finish-Reaches ref none h = h
    finish-Reaches ref (some (false, s)) h = h
    finish-Reaches ref (some (true, s)) h = k.by_mark s ref h
