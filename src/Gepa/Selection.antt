-- ===== src/Gepa/Selection.antt =====
-- `mean` and `topN` of internal/optimizer/gepa/gepa.go. The pool and its `picked` flags are one list of
-- pairs.
pub mod Laws
pub mod Places
pub mod TopN
pub mod Length
use prompt_graft.Base.{
  ℕ, zero, suc, Bool, true, false, Option, none, some, List, [], ◌∷◌, map, length, min,
  if◌then◌else◌,
}
use prompt_graft.Base.Float.{Floats}
use prompt_graft.Gepa.Candidate.{Candidate}

module _ (fl : Floats) where
  open fl use {F, lt, add, div, of_nat, neg_inf}

  unfoldable pub sum_from : F → List F → F
  sum_from sum [] = sum
  sum_from sum (v ∷ vals) = sum_from (add sum v) vals

  unfoldable pub mean : List F → F
  mean [] = of_nat 0
  mean (v ∷ vals) = div (sum_from (of_nat 0) (v ∷ vals)) (of_nat (length (v ∷ vals)))

  abbrev pub Flagged : Type 0
  Flagged = List (Candidate F × Bool)

  -- The scan of a round: the best place so far with its candidate, `none` for -1, and bestScore.
  unfoldable pub scan : ℕ → Option (ℕ × Candidate F) → F → Flagged → Option (ℕ × Candidate F)
  scan i best score [] = best
  scan i best score ((c, true) ∷ all) = scan (suc i) best score all
  scan i best score ((c, false) ∷ all) =
      let taken = scan (suc i) (some (i, c)) c.agg_score all in
      let left = scan (suc i) best score all in if lt score c.agg_score then taken else left

  -- picked[i] = true
  unfoldable pub mark : ℕ → Flagged → Flagged
  mark i [] = []
  mark zero ((c, p) ∷ all) = (c, true) ∷ all
  mark (suc i) ((c, p) ∷ all) = (c, p) ∷ mark i all

  -- `for len(out) < n`: the first argument is n - len(out).
  unfoldable pub pick_rounds : ℕ → Flagged → List (Candidate F)
  pick_rounds zero all = []
  pick_rounds (suc k) all = elim (scan 0 none neg_inf all) [
    | none ↦ []
    | some (i, c) ↦ c ∷ pick_rounds k (mark i all)
  ]

  abbrev pub unflagged : List (Candidate F) → Flagged
  unflagged all = map (λ c. (c, false)) all

  unfoldable pub top_n : List (Candidate F) → ℕ → List (Candidate F)
  top_n all n = pick_rounds (min n (length all)) (unflagged all)
