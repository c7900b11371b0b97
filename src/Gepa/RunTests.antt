-- ===== src/Gepa/RunTests.antt =====
-- The optimizer's loop on a concrete world.
use prompt_graft.Base.{ℕ, ◌+◌, ◌≤◌, false, some, [], ◌∷◌, ◌++◌, ◌≡◌, map, length, Memᴰ, codes, All}
use prompt_graft.Base.Float.{Value, num, whole}
use prompt_graft.Gepa.Candidate.{Candidate, add}
use prompt_graft.Gepa.Pareto.{dominates, pareto_frontier}
use prompt_graft.Gepa.Selection.{sum_from, mean}
use prompt_graft.Gepa.Dataset.{DataPoint, split, minibatch}
use prompt_graft.Gepa.Run.{
  Config, World, run, evolve, rounds, round, base, with_parent, with_batch, draw_parent, draw_batch,
  try_child, child_prompt, child, accept,
}
use prompt_graft.Gepa.Reflect.{Llm}
use prompt_graft.Gepa.Run.Laws.{Lineage, run-Lineage, run-best}

abbrev point : DataPoint Value
point = record {
  input = codes "a";
  output = [];
  rating = num 0;
  asi = [];
  variant_id = [];
  comment = [];
}

-- A prompt scores its length, and a mutation makes it longer. The state numbers the candidates.
abbrev growing : World whole ℕ
growing = record {
  shuffle = λ d. d;
  score = λ w prompt d. (map (λ p. num (length prompt)) d, w);
  reflect = λ w c d scores. (record { asi = []; suggestions = [] }, w);
  mutate = λ w c r. (c.prompt ++ codes "!", w);
  crossover = λ w c d. (c.prompt, w);
  gen_id = λ w. (w ∷ [], w + 1);
  float64 = λ w. (num 0, w);
  intn = λ w n. (0, w);
  perm = λ w n. ([], w);
}

abbrev two_rounds : Config Value
two_rounds = record {
  rollout_budget = 2;
  minibatch_size = 5;
  pareto_fraction = num 0;
  min_delta = num 0;
  crossover_enabled = false;
  crossover_frequency = num 0;
  top_n = 3;
}

run-Lineage_example :
    ((run whole growing two_rounds (codes "p") (point ∷ []) 0).iterations ≤ 2)
    × (length (run whole growing two_rounds (codes "p") (point ∷ []) 0).history
        ≡ (run whole growing two_rounds (codes "p") (point ∷ []) 0).iterations + 1)
    × (seed : Candidate Value) × (seed.prompt ≡ codes "p")
    × (n : ℕ) × (n ≤ 2)
    × Lineage seed n (run whole growing two_rounds (codes "p") (point ∷ []) 0).history
run-Lineage_example = run-Lineage whole growing two_rounds (codes "p") point [] 0

run-best_example :
    (b : Candidate Value) × ((run whole growing two_rounds (codes "p") (point ∷ []) 0).best
      ≡ some b)
    × Memᴰ b (run whole growing two_rounds (codes "p") (point ∷ []) 0).history
    × All
        (λ c. whole.lt b.agg_score c.agg_score ≡ false)
        (run whole growing two_rounds (codes "p") (point ∷ []) 0).history
unfolding dominates run evolve rounds round base with_parent with_batch draw_parent draw_batch
    try_child child_prompt child accept split minibatch mean sum_from pareto_frontier add
run-best_example = run-best whole growing two_rounds (codes "p") point [] 0 (tt, (tt, (tt, tt)))

abbrev silent : Llm ℕ
silent w system user = (some (codes "  "), w)

abbrev parent : Candidate Value
parent = record {
  id = [];
  prompt = codes "p";
  parent_id = [];
  scores = [];
  agg_score = num 0;
  generation = 0;
  asi = [];
}
