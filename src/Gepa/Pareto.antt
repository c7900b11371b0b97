-- ===== src/Gepa/Pareto.antt =====
-- internal/optimizer/gepa/pareto.go. The pool's candidates are pointers: `other == c` compares the
-- places of the candidates in the pool, which holds no pointer twice.
pub mod Laws
pub mod Frontier
use prompt_graft.Base.{
  ℕ, zero, suc, ◌+◌, Bool, true, false, not, ◌&&◌, ◌||◌, Option, none, some, List, [], ◌∷◌, ◌++◌,
  ◌≡◌, if◌then◌else◌, Bytes, eqb, ◌==◌,
}
use prompt_graft.Base.Float.{Floats}
use prompt_graft.Gepa.Candidate.{Candidate}

module _ (fl : Floats) where
  open fl use {F, lt, le, add, mul, of_nat}

  -- The loop of `dominates`, with strictlyBetter
  unfoldable pub dominates_from : Bool → List F → List F → Bool
  dominates_from better [] b = better
  dominates_from better (x ∷ a) [] = false
  dominates_from better (x ∷ a) (y ∷ b) =
      let rest = dominates_from (better || lt y x) a b in if lt x y then false else rest

  unfoldable pub dominates : List F → List F → Bool
  unfolding dominates_from
  dominates a b = dominates_from false a b

  -- The inner loop: some other candidate, from place j on, dominates the one at place i.
  unfoldable pub is_dominated : ℕ → Candidate F → ℕ → List (Candidate F) → Bool
  is_dominated i c j [] = false
  is_dominated i c j (other ∷ pool) =
      let rest = is_dominated i c (suc j) pool in
      if eqb j i then rest else if dominates other.scores c.scores then true else rest

  unfoldable pub frontier_from : List (Candidate F) → ℕ → List (Candidate F) → List (Candidate F)
  unfolding is_dominated
  frontier_from pool i [] = []
  frontier_from pool i (c ∷ cs) =
      let rest = frontier_from pool (suc i) cs in if is_dominated i c 0 pool then rest else c ∷ rest

  unfoldable pub pareto_frontier : List (Candidate F) → List (Candidate F)
  unfolding frontier_from
  pareto_frontier pool = frontier_from pool 0 pool

  -- weights[id], zero when it is not there
  unfoldable pub weight_of : List (Bytes × F) → Bytes → F
  weight_of [] id = of_nat 0
  weight_of ((k, w) ∷ weights) id = if k == id then w else weight_of weights id

  unfoldable pub total_weight : List (Bytes × F) → F → List (Candidate F) → F
  unfolding weight_of
  total_weight weights total [] = total
  total_weight weights total (c ∷ cs) =
      total_weight weights (add total (add (weight_of weights c.id) (of_nat 1))) cs

  unfoldable pub sample_from :
      List (Bytes × F) → F → F → Candidate F → List (Candidate F) → Candidate F
  unfolding weight_of
  sample_from weights r cumulative c [] = c
  sample_from weights r cumulative c (d ∷ cs) =
      let next = add cumulative (add (weight_of weights c.id) (of_nat 1)) in
      let later = sample_from weights r next d cs in if le r next then c else later

  -- `u` is rng.Float64(), which is drawn only when there is a choice.
  unfoldable pub sample_from_frontier :
      List (Candidate F) → List (Bytes × F) → F → Option (Candidate F)
  unfolding total_weight sample_from
  sample_from_frontier [] weights u = none
  sample_from_frontier (c ∷ []) weights u = some c
  sample_from_frontier (c ∷ d ∷ cs) weights u = some (
      sample_from weights (mul u (total_weight weights (of_nat 0) (c ∷ d ∷ cs))) (of_nat 0) c
        (d ∷ cs))
