-- ===== src/Gepa/Candidate.antt =====
-- internal/optimizer/gepa/candidate.go. The pool's mutex makes each call atomic, so a pool is the list
-- of its candidates; `All` copies it.
use prompt_graft.Base.{ℕ, Option, none, some, List, [], ◌∷◌, ◌++◌, if◌then◌else◌, Bytes}
use prompt_graft.Base.Float.{Floats}

pub record Candidate (F : Type 0) : Type 0 where
  pub id : Bytes
  pub prompt : Bytes
  pub parent_id : Bytes
  pub scores : List F
  pub agg_score : F
  pub generation : ℕ
  pub asi : Bytes

module _ (fl : Floats) where
  open fl use {F, lt}

  unfoldable pub add : List (Candidate F) → Candidate F → List (Candidate F)
  add pool c = pool ++ c ∷ []

  -- if best == nil || c.AggScore > best.AggScore { best = c }
  unfoldable pub better : Option (Candidate F) → Candidate F → Option (Candidate F)
  better none c = some c
  better (some best) c = if lt best.agg_score c.agg_score then some c else some best

  unfoldable pub best_from : Option (Candidate F) → List (Candidate F) → Option (Candidate F)
  unfolding better
  best_from best [] = best
  best_from best (c ∷ cs) = best_from (better best c) cs

  unfoldable pub best : List (Candidate F) → Option (Candidate F)
  unfolding best_from
  best pool = best_from none pool
