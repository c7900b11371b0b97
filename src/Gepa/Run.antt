-- ===== src/Gepa/Run.antt =====
-- `New` and `Optimizer.Run` of internal/optimizer/gepa/gepa.go. `W` is the state of what Run calls: the
-- scorer, the reflector's model, the random numbers. The errors of these calls are dropped, as Run does.
pub mod Rounds
pub mod Laws
use prompt_graft.Base.{
  ℕ, zero, suc, ◌+◌, Bool, true, false, ◌&&◌, ◌||◌, Option, none, some, List, [], ◌∷◌, ◌++◌, length,
  is_empty, get_elem?, leb, eqb, if◌then◌else◌, Bytes, ◌==◌,
}
use prompt_graft.Base.Float.{Floats}
use prompt_graft.Gepa.Candidate.{Candidate, add, best}
use prompt_graft.Gepa.Pareto.{pareto_frontier, sample_from_frontier}
use prompt_graft.Gepa.Selection.{mean, top_n}
use prompt_graft.Gepa.Dataset.{Dataset, split, minibatch}

pub record Config (F : Type 0) : Type 0 where
  pub rollout_budget : ℕ
  pub minibatch_size : ℕ
  pub pareto_fraction : F
  pub min_delta : F
  pub crossover_enabled : Bool
  pub crossover_frequency : F
  pub top_n : ℕ

pub record ReflectionResult : Type 0 where
  pub asi : Bytes
  pub suggestions : Bytes

abbrev pub or_default : ℕ → ℕ → ℕ
or_default n d = if eqb n 0 then d else n

-- The calls of Run. `shuffle` is the shuffle of Split.
pub record World (fl : Floats) (W : Type 0) : Type 0 where
  pub shuffle : Dataset fl → Dataset fl
  pub score : W → Bytes → Dataset fl → List fl.F × W
  pub reflect : W → Candidate fl.F → Dataset fl → List fl.F → ReflectionResult × W
  pub mutate : W → Candidate fl.F → ReflectionResult → Bytes × W
  pub crossover : W → Candidate fl.F → Candidate fl.F → Bytes × W
  pub gen_id : W → Bytes × W
  pub float64 : W → fl.F × W
  pub intn : W → ℕ → ℕ × W
  pub perm : W → ℕ → List ℕ × W

pub record State (F W : Type 0) : Type 0 where
  pub pool : List (Candidate F)
  pub weights : List (Bytes × F)
  pub history : List (Candidate F)
  pub iterations : ℕ
  pub world : W

pub record Result (F : Type 0) : Type 0 where
  pub candidates : List (Candidate F)
  pub best : Option (Candidate F)
  pub iterations : ℕ
  pub history : List (Candidate F)

module _ (fl : Floats) where
  open fl use {F, add as plus, div, of_nat, lt, le}

  abbrev is_zero : F → Bool
  is_zero x = le x (of_nat 0) && le (of_nat 0) x

  -- New: 0.3 and 0.01 are quotients of whole numbers.
  unfoldable pub new_config : Config F → Config F
  new_config cfg = record {
    rollout_budget = or_default cfg.rollout_budget 50;
    minibatch_size = or_default cfg.minibatch_size 5;
    pareto_fraction =
        if is_zero cfg.pareto_fraction then div (of_nat 3) (of_nat 10) else cfg.pareto_fraction;
    min_delta = if is_zero cfg.min_delta then div (of_nat 1) (of_nat 100) else cfg.min_delta;
    crossover_enabled = cfg.crossover_enabled;
    crossover_frequency = if cfg.crossover_enabled then cfg.crossover_frequency else of_nat 0;
    top_n = or_default cfg.top_n 3;
  }

  -- weights[id] += 1
  unfoldable pub bump : List (Bytes × F) → Bytes → List (Bytes × F)
  bump [] id = (id, plus (of_nat 0) (of_nat 1)) ∷ []
  bump ((k, w) ∷ weights) id =
      let rest = bump weights id in
      if k == id then (k, plus w (of_nat 1)) ∷ weights else (k, w) ∷ rest

module _ (fl : Floats) {W : Type 0} (env : World fl W) (cfg : Config fl.F) where
  open fl use {F, add as plus, lt, le}

  -- SampleFromFrontier draws a number only if there is a choice.
  unfoldable pub draw_parent : List (Candidate F) → List (Bytes × F) → W → Option (Candidate F) × W
  draw_parent [] weights w = (none, w)
  draw_parent (c ∷ []) weights w = (some c, w)
  draw_parent (c ∷ d ∷ cs) weights w =
      let (u, next) = env.float64 w in (sample_from_frontier fl (c ∷ d ∷ cs) weights u, next)

  -- Minibatch draws a permutation only if the batch is a part.
  unfoldable pub draw_batch : Dataset fl → W → Dataset fl × W
  draw_batch d w =
      let (indices, next) = env.perm w (length d) in
      if eqb cfg.minibatch_size 0 || leb (length d) cfg.minibatch_size
      then (minibatch fl d cfg.minibatch_size [], w)
      else (minibatch fl d cfg.minibatch_size indices, next)

  abbrev pub or_candidate : Candidate F → Option (Candidate F) → Candidate F
  or_candidate c none = c
  or_candidate c (some d) = d

  -- rng.Intn(n) is below n, so that the frontier has the place.
  unfoldable pub crossed : List (Candidate F) → Candidate F → W → Bytes × W
  crossed frontier parent w =
      let (i, next) = env.intn w (length frontier) in
      env.crossover next parent (or_candidate parent (get_elem? frontier i))

  -- The child's prompt.
  unfoldable pub child_prompt : List (Candidate F) → Candidate F → ReflectionResult → W → Bytes × W
  child_prompt frontier parent reflection w =
      let (u, next) = env.float64 w in
      if cfg.crossover_enabled
      then (if lt u cfg.crossover_frequency && leb 2 (length frontier)
          then crossed frontier parent next
          else env.mutate next parent reflection)
      else env.mutate w parent reflection

  -- The child that is accepted in round `i`.
  unfoldable pub child :
      ℕ → Dataset fl → Candidate F → ReflectionResult → Bytes → W → Candidate F × W
  child i pareto_set parent reflection prompt w =
      let (scores, scored) = env.score w prompt pareto_set in
      let (id, named) = env.gen_id scored in
      (
        record {
          id = id;
          prompt = prompt;
          parent_id = parent.id;
          scores = scores;
          agg_score = mean fl scores;
          generation = i + 1;
          asi = reflection.asi;
        },
        named,
      )

  unfoldable pub accept : State F W → Candidate F → Candidate F × W → State F W
  accept st parent (c, w) = record {
    pool = add fl st.pool c;
    weights = bump fl st.weights parent.id;
    history = st.history ++ c ∷ [];
    iterations = st.iterations + 1;
    world = w;
  }

  -- A round with its parent and its batch.
  unfoldable pub try_child :
      ℕ → Dataset fl → List (Candidate F) → State F W → Candidate F → Dataset fl → W → State F W
  try_child i pareto_set frontier st parent batch w =
      let (parent_scores, w₁) = env.score w parent.prompt batch in
      let (reflection, w₂) = env.reflect w₁ parent batch parent_scores in
      let (prompt, w₃) = child_prompt frontier parent reflection w₂ in
      let (child_scores, w₄) = env.score w₃ prompt batch in
      if le (mean fl child_scores) (plus (mean fl parent_scores) cfg.min_delta)
      then record st { world = w₄ }
      else accept st parent (child i pareto_set parent reflection prompt w₄)

  unfoldable pub with_batch :
      ℕ
      → Dataset fl
      → List (Candidate F)
      → State F W
      → Candidate F
      → Dataset fl × W
      → Option (State F W)
  with_batch i pareto_set frontier st parent (batch, w) =
      if is_empty batch then none else some (try_child i pareto_set frontier st parent batch w)

  unfoldable pub with_parent :
      ℕ
      → Dataset fl
      → Dataset fl
      → List (Candidate F)
      → State F W
      → Option (Candidate F) × W
      → Option (State F W)
  with_parent i pareto_set feedback_set frontier st (none, w) = none
  with_parent i pareto_set feedback_set frontier st (some parent, w) =
      with_batch i pareto_set frontier st parent
        (draw_batch (if is_empty feedback_set then pareto_set else feedback_set) w)

  -- The body of the loop; `none` is `break`.
  unfoldable pub round : ℕ → Dataset fl → Dataset fl → State F W → Option (State F W)
  round i pareto_set feedback_set st =
      let frontier = pareto_frontier fl st.pool in
      with_parent i pareto_set feedback_set frontier st (draw_parent frontier st.weights st.world)

  -- for i := 0; i < RolloutBudget; i++: `k` rounds are left.
  unfoldable pub rounds : ℕ → ℕ → Dataset fl → Dataset fl → State F W → State F W
  rounds zero i pareto_set feedback_set st = st
  rounds (suc k) i pareto_set feedback_set st = elim (round i pareto_set feedback_set st) [
    | none ↦ st
    | some next ↦ rounds k (suc i) pareto_set feedback_set next
  ]

  unfoldable pub base : Bytes → Dataset fl → W → Candidate F × W
  base seed_prompt pareto_set w =
      let (scores, scored) = env.score w seed_prompt pareto_set in
      let (id, named) = env.gen_id scored in
      (
        record {
          id = id;
          prompt = seed_prompt;
          parent_id = [];
          scores = scores;
          agg_score = mean fl scores;
          generation = 0;
          asi = [];
        },
        named,
      )

  abbrev pub start : Candidate F × W → State F W
  start (c, w) = record { pool = c ∷ []; weights = []; history = c ∷ []; iterations = 0; world = w }

  abbrev pub result_of : State F W → Result F
  result_of st = record {
    candidates = top_n fl st.pool cfg.top_n;
    best = best fl st.pool;
    iterations = st.iterations;
    history = st.history;
  }

  -- The state in which the loop ends.
  unfoldable pub evolve : Bytes → Dataset fl × Dataset fl → Dataset fl → W → State F W
  evolve seed_prompt (first, feedback_set) dataset w =
      let pareto_set = if is_empty first then dataset else first in
      rounds cfg.rollout_budget 0 pareto_set feedback_set (start (base seed_prompt pareto_set w))

  unfoldable pub run : Bytes → Dataset fl → W → Result F
  run seed_prompt [] w = record { candidates = []; best = none; iterations = 0; history = [] }
  run seed_prompt (d ∷ ds) w =
      result_of (evolve seed_prompt (split fl env.shuffle (d ∷ ds) cfg.pareto_fraction) (d ∷ ds) w)
