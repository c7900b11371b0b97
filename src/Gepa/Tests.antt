-- ===== src/Gepa/Tests.antt =====
-- The optimizer's pool on concrete candidates.
use prompt_graft.Base.{ℕ, false, List, [], ◌∷◌, ◌≡◌, ◌≢◌, ◌↔◌, refl, Memᴰ, min, length}
use prompt_graft.Base.Float.{Value, num, whole}
use prompt_graft.Gepa.Candidate.{Candidate}
use prompt_graft.Gepa.Pareto.{dominates, pareto_frontier}
use prompt_graft.Gepa.Pareto.Frontier.{mem-frontier_iff, frontier-ne-nil}
use prompt_graft.Gepa.Selection.{top_n}
use prompt_graft.Gepa.Selection.TopN.{IsDescending, Splits}
use prompt_graft.Gepa.Selection.Length.{top_n_lem}

abbrev scored : ℕ → ℕ → Candidate Value
scored m n = record {
  id = [];
  prompt = [];
  parent_id = [];
  scores = num m ∷ num n ∷ [];
  agg_score = num m;
  generation = 0;
  asi = [];
}

abbrev pool : List (Candidate Value)
pool = scored 1 5 ∷ scored 4 1 ∷ scored 2 6 ∷ []

mem-frontier_iff_example : Memᴰ (scored 4 1) (pareto_frontier whole pool) ↔ (
    Memᴰ (scored 4 1) pool
    × ((o : Candidate Value) → Memᴰ o pool → dominates whole o.scores (scored 4 1).scores ≡ false))
mem-frontier_iff_example = mem-frontier_iff whole pool (scored 4 1)

frontier-ne-nil_example : pareto_frontier whole pool ≢ []
frontier-ne-nil_example =
    frontier-ne-nil whole (scored 1 5) (scored 4 1 ∷ scored 2 6 ∷ [])
      ((tt, (tt, tt)), ((tt, (tt, tt)), ((tt, (tt, tt)), tt)))

top_n_lem_example :
    (length (top_n whole pool 2) ≡ min 2 3)
    × IsDescending whole (top_n whole pool 2)
    × Splits whole pool (top_n whole pool 2)
top_n_lem_example = top_n_lem whole pool 2 tt (tt, (tt, (tt, tt))) (refl, (refl, (refl, tt)))
