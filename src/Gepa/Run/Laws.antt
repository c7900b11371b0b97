-- ===== src/Gepa/Run/Laws.antt =====
-- What `Optimizer.Run` returns.
use prompt_graft.Base.{
  ℕ, zero, suc, ◌+◌, ◌≤◌, false, none, some, List, [], ◌∷◌, ◌++◌, ◌≡◌, inl, inr, refl, sym, ap, ◌∙◌,
  Memᴰ, length, length-append, is_empty, if◌then◌else◌, Bytes, arith, Option-cases, All,
}
use prompt_graft.Base.Float.{Floats}
use prompt_graft.Gepa.Candidate.{Candidate, best}
use prompt_graft.Gepa.Best.{best-mem}
use prompt_graft.Gepa.Dataset.{DataPoint, Dataset, split}
use prompt_graft.Gepa.Run.{Config, World, State, round, rounds, base, start, evolve, run}
use prompt_graft.Gepa.Run.Rounds.{IsNext, round-IsNext}

module _ {F : Type 0} where
  -- A pool as it comes about: a first candidate, and children of what was there. A candidate of round
  -- i is dated i + 1, so `n` bounds the dates.
  pub data Lineage (seed : Candidate F) : ℕ → List (Candidate F) → Type 0 where
    seeded : (n : ℕ) → Lineage seed n (seed ∷ [])
    born :
        (n i : ℕ) (pool : List (Candidate F)) (parent c : Candidate F)
        → Lineage seed n pool
        → n ≤ i
        → Memᴰ parent pool
        → c.parent_id ≡ parent.id
        → c.generation ≡ i + 1
        → Lineage seed (i + 1) (pool ++ c ∷ [])

  Lineage-ne-nil :
      (seed : Candidate F) (n : ℕ) (pool : List (Candidate F))
      → Lineage seed n pool
      → (rest : List (Candidate F)) × (pool ≡ seed ∷ rest)
  Lineage-ne-nil seed n _ (Lineage.seeded _) = ([], refl)
  Lineage-ne-nil seed _ _ (Lineage.born n i pool parent c l le m d g) =
      let (rest, e) = Lineage-ne-nil seed n pool l in (rest ++ c ∷ [], ap (λ xs. xs ++ c ∷ []) e)

module _ (fl : Floats) {W : Type 0} (env : World fl W) (cfg : Config fl.F) where
  open fl use {F, lt, IsNum}

  -- After the rounds up to `i`.
  record IsGrown (seed : Candidate F) (i : ℕ) (st : State F W) : Type 0 where
    pub dates : ℕ
    pub bounded : dates ≤ i
    pub lineage : Lineage seed dates st.pool
    pub recorded : st.history ≡ st.pool
    pub counted : length st.pool ≡ st.iterations + 1
    pub within : st.iterations ≤ i

  IsGrown-next :
      (seed : Candidate F) (i : ℕ) (st next : State F W)
      → IsGrown seed i st
      → IsNext fl env cfg i st next
      → IsGrown seed (suc i) next
  IsGrown-next seed i st next g (inl (pool, history, iterations)) = record {
    dates = g.dates;
    bounded = omega (arith, g.bounded);
    lineage = rw pool g.lineage;
    recorded = history ∙ g.recorded ∙ sym pool;
    counted = rw (pool, iterations) g.counted;
    within = rw iterations (omega (arith, g.within));
  }
  IsGrown-next seed i st next g (inr b) = record {
    dates = i + 1;
    bounded = omega arith;
    lineage = rw b.pool (
        Lineage.born g.dates i st.pool b.parent b.born g.lineage g.bounded b.listed b.descends
          b.dated);
    recorded = b.history ∙ ap (λ xs. xs ++ b.born ∷ []) g.recorded ∙ sym b.pool;
    counted =
        ap length b.pool
        ∙ length-append st.pool (b.born ∷ [])
        ∙ omega (arith, g.counted, b.counted);
    within = omega (arith, g.within, b.counted);
  }

  rounds_done :
      (k i : ℕ) (pareto_set feedback_set : Dataset fl) (st : State F W)
      → round fl env cfg i pareto_set feedback_set st ≡ none
      → rounds fl env cfg (suc k) i pareto_set feedback_set st ≡ st
  unfolding rounds
  rounds_done k i pareto_set feedback_set st e = rw (e, rounds) refl

  rounds_step :
      (k i : ℕ) (pareto_set feedback_set : Dataset fl) (st next : State F W)
      → round fl env cfg i pareto_set feedback_set st ≡ some next
      → rounds fl env cfg (suc k) i pareto_set feedback_set st
        ≡ rounds fl env cfg k (suc i) pareto_set feedback_set next
  unfolding rounds
  rounds_step k i pareto_set feedback_set st next e = rw (e, rounds) refl

  rounds-IsGrown :
      (seed : Candidate F) (k i : ℕ) (pareto_set feedback_set : Dataset fl) (st : State F W)
      → IsGrown seed i st
      → (n : ℕ) × (n ≤ i + k) × IsGrown seed n (rounds fl env cfg k i pareto_set feedback_set st)
  rounds-IsGrown seed zero i pareto_set feedback_set st g = (i, omega arith, unfold rounds in g)
  rounds-IsGrown seed (suc k) i pareto_set feedback_set st g =
      elim (Option-cases (round fl env cfg i pareto_set feedback_set st)) [
        | inl e ↦ rw (rounds_done k i pareto_set feedback_set st e) (i, omega arith, g)
        | inr (next, e) ↦
            let grown = IsGrown-next seed i st next g (round-IsNext fl env cfg i _ _ st next e) in
            let (n, bound, done) =
              rounds-IsGrown seed k (suc i) pareto_set feedback_set next grown in
            rw (rounds_step k i pareto_set feedback_set st next e) (n, omega (arith, bound), done)
      ]

  evolve-IsGrown :
      (prompt : Bytes) (parts : Dataset fl × Dataset fl) (dataset : Dataset fl) (w : W)
      → (seed : Candidate F) × (seed.prompt ≡ prompt)
        × (n : ℕ) × (n ≤ cfg.rollout_budget)
        × IsGrown seed n (evolve fl env cfg prompt parts dataset w)
  unfolding evolve base
  evolve-IsGrown prompt (first, feedback_set) dataset w =
      let pareto_set = if is_empty first then dataset else first in
      let begun = base fl env cfg prompt pareto_set w in
      let (n, bound, grown) =
        rounds-IsGrown begun.0 cfg.rollout_budget 0 pareto_set feedback_set (start fl env cfg begun)
          (record {
            dates = 0;
            bounded = omega arith;
            lineage = Lineage.seeded 0;
            recorded = refl;
            counted = refl;
            within = omega arith;
          }) in
      (begun.0, refl, n, omega (arith, bound), grown)

  -- A run on a dataset that is not empty takes at most as many children as the budget has rounds, and
  -- its history is the lineage of the seed prompt: the seed first, then one child for each iteration,
  -- each of them the child of a candidate before it.
  pub run-Lineage :
      (prompt : Bytes) (d : DataPoint F) (ds : Dataset fl) (w : W)
      → ((run fl env cfg prompt (d ∷ ds) w).iterations ≤ cfg.rollout_budget)
        × (length (run fl env cfg prompt (d ∷ ds) w).history
            ≡ (run fl env cfg prompt (d ∷ ds) w).iterations + 1)
        × (seed : Candidate F) × (seed.prompt ≡ prompt)
        × (n : ℕ) × (n ≤ cfg.rollout_budget)
        × Lineage seed n (run fl env cfg prompt (d ∷ ds) w).history
  unfolding run
  run-Lineage prompt d ds w =
      let (seed, named, n, bound, g) =
        evolve-IsGrown prompt (split fl env.shuffle (d ∷ ds) cfg.pareto_fraction) (d ∷ ds) w in
      (
        omega (arith, g.within, bound),
        ap length g.recorded ∙ g.counted,
        seed,
        named,
        g.dates,
        omega (arith, g.bounded, bound),
        rw g.recorded g.lineage,
      )

  -- When no score in the history of a run on a dataset that is not empty is NaN, the run has a best
  -- candidate: it is of the history, and nothing in the history, the seed prompt included, has a larger
  -- score.
  pub run-best :
      (prompt : Bytes) (d : DataPoint F) (ds : Dataset fl) (w : W)
      → All (λ c. IsNum c.agg_score) (run fl env cfg prompt (d ∷ ds) w).history
      → (b : Candidate F) × ((run fl env cfg prompt (d ∷ ds) w).best ≡ some b)
        × Memᴰ b (run fl env cfg prompt (d ∷ ds) w).history
        × All (λ c. lt b.agg_score c.agg_score ≡ false) (run fl env cfg prompt (d ∷ ds) w).history
  unfolding run
  run-best prompt d ds w nums =
      let st =
        evolve fl env cfg prompt (split fl env.shuffle (d ∷ ds) cfg.pareto_fraction) (d ∷ ds) w in
      let (seed, named, n, bound, g) =
        evolve-IsGrown prompt (split fl env.shuffle (d ∷ ds) cfg.pareto_fraction) (d ∷ ds) w in
      let (rest, e) = Lineage-ne-nil seed g.dates st.pool g.lineage in
      let whole : st.history ≡ seed ∷ rest = g.recorded ∙ e in
      let (b, found, listed, top) = best-mem fl seed rest (rw whole at nums) in
      (b, ap (best fl) e ∙ found, rw whole listed, rw whole top)
