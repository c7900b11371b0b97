-- ===== src/Gepa/Best.antt =====
-- `CandidatePool.Best` of internal/optimizer/gepa/candidate.go.
use prompt_graft.Base.{false, some, List, [], ◌∷◌, ◌≡◌, refl, inl, inr, Memᴰ, Bool-cases, All}
use prompt_graft.Base.Float.{Floats}
use prompt_graft.Gepa.Candidate.{Candidate, better, best_from, best}
use prompt_graft.Gepa.Pareto.Laws.{lt_asymm}

module _ (fl : Floats) where
  open fl use {F, lt, IsNum, not_lt_trans, lt_irrefl}

  -- The fold's result is the candidate it began with or one of the list, and none of these is above it.
  record IsBest (from : Candidate F) (cs : List (Candidate F)) (c : Candidate F) : Type 0 where
    pub listed : Memᴰ c (from ∷ cs)
    pub top : All (λ d. lt c.agg_score d.agg_score ≡ false) (from ∷ cs)
    pub number : IsNum c.agg_score

  best_from-IsBest :
      (from : Candidate F) (cs : List (Candidate F))
      → IsNum from.agg_score
      → All (λ d. IsNum d.agg_score) cs
      → (c : Candidate F) × (best_from fl (some from) cs ≡ some c) × IsBest from cs c
  unfolding best_from better
  best_from-IsBest from [] n ns = (
    from,
    refl,
    record { listed = Memᴰ.head refl; top = (lt_irrefl from.agg_score, tt); number = n },
  )
  best_from-IsBest from (d ∷ cs) n (m, ns) = elim (Bool-cases (lt from.agg_score d.agg_score)) [
    | inl up ↦
        let (c, e, b) = best_from-IsBest d cs m ns in
        (
          c,
          rw up e,
          record {
            listed = Memᴰ.tail b.listed;
            top = (
              not_lt_trans c.agg_score d.agg_score from.agg_score b.number m n b.top.0
                  (lt_asymm fl from.agg_score d.agg_score up),
              b.top,
            );
            number = b.number;
          },
        )
    | inr low ↦
        let (c, e, b) = best_from-IsBest from cs n ns in
        (
          c,
          rw low e,
          record {
            listed = later c from d cs b.listed;
            top = (
              b.top.0,
              (
                not_lt_trans c.agg_score from.agg_score d.agg_score b.number n m b.top.0 low,
                b.top.1,
              ),
            );
            number = b.number;
          },
        )
  ]
    where
      later :
          (c from d : Candidate F) (cs : List (Candidate F))
          → Memᴰ c (from ∷ cs)
          → Memᴰ c (from ∷ d ∷ cs)
      later c from d cs (Memᴰ.head e) = Memᴰ.head e
      later c from d cs (Memᴰ.tail m) = Memᴰ.tail (Memᴰ.tail m)

  -- A pool that is not empty, with no NaN among its scores, has a best candidate: one of the pool, and
  -- no candidate of the pool has a larger score.
  pub best-mem :
      (c : Candidate F) (cs : List (Candidate F))
      → All (λ d. IsNum d.agg_score) (c ∷ cs)
      → (b : Candidate F) × (best fl (c ∷ cs) ≡ some b)
        × Memᴰ b (c ∷ cs)
        × All (λ d. lt b.agg_score d.agg_score ≡ false) (c ∷ cs)
  unfolding best best_from better
  best-mem c cs (n, ns) = let (b, e, h) = best_from-IsBest c cs n ns in (b, e, h.listed, h.top)
