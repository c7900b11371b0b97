-- ===== src/Gepa/Selection/Length.antt =====
-- How many candidates topN returns.
use prompt_graft.Base.{
  ℕ, zero, suc, true, false, none, List, [], ◌∷◌, ◌≡◌, inl, inr, refl, ap, length, length-append,
  min, ◌∙◌, ◌++◌, ◌-◌, arith, Option-cases, All,
}
use mathlib.Core.List.{Permᴰ}
use prompt_graft.Base.Float.{Floats}
use prompt_graft.Gepa.Candidate.{Candidate}
use prompt_graft.Gepa.Selection.{Flagged, scan, mark, pick_rounds, unflagged, top_n}
use prompt_graft.Gepa.Selection.Laws.{Free, Free-mark, scan-some}
use prompt_graft.Gepa.Selection.Places.{IsAt, scan-IsAt}
use prompt_graft.Gepa.Selection.TopN.{
  pick_rounds-zero, pick_rounds_done, pick_rounds_step, IsDescending, Splits, top_n-Splits,
  Free-unflagged, Perm-refl, free_of, free_of-mark, free_of-unflagged,
}

module _ (fl : Floats) where
  open fl use {F, lt, neg_inf, IsNum}

  abbrev free_count : Flagged fl → ℕ
  free_count [] = 0
  free_count ((c, true) ∷ all) = free_count all
  free_count ((c, false) ∷ all) = suc (free_count all)

  free_count-mark :
      (i : ℕ) (c : Candidate F) (all : Flagged fl)
      → IsAt fl i c all
      → suc (free_count (mark fl i all)) ≡ free_count all
  unfolding mark
  free_count-mark i c [] at = absurd at
  free_count-mark zero c ((d, true) ∷ all) at = absurd at
  free_count-mark zero c ((d, false) ∷ all) at = refl
  free_count-mark (suc i) c ((d, true) ∷ all) at = free_count-mark i c all at
  free_count-mark (suc i) c ((d, false) ∷ all) at = ap suc (free_count-mark i c all at)

  -- A scan without a result has met no free candidate above neg_inf.
  scan-none :
      (all : Flagged fl) (i : ℕ)
      → Free fl (λ d. lt neg_inf d.agg_score ≡ true) all
      → scan fl i none neg_inf all ≡ none
      → free_count all ≡ 0
  unfolding scan
  scan-none [] i free e = refl
  scan-none ((d, true) ∷ all) i free e = scan-none all (suc i) free e
  scan-none ((d, false) ∷ all) i (up, free) e =
      absurd (scan-some fl all (suc i) (i, d) d.agg_score (rw up at e))

  length-pick_rounds :
      (k : ℕ) (all : Flagged fl)
      → Free fl (λ d. lt neg_inf d.agg_score ≡ true) all
      → length (pick_rounds fl k all) ≡ min k (free_count all)
  length-pick_rounds zero all free = rw (pick_rounds-zero fl all) (omega arith)
  length-pick_rounds (suc k) all free = elim (Option-cases (scan fl 0 none neg_inf all)) [
    | inl e ↦ rw (pick_rounds_done fl k all e) (omega (arith, scan-none all 0 free e))
    | inr ((i, c), e) ↦
        let here = free_count-mark i c all (scan-IsAt fl all i c e) in
        let rest = length-pick_rounds k (mark fl i all) (Free-mark fl _ i all free) in
        rw (pick_rounds_step fl k all i c e) (omega arith)
  ]

  free_count-unflagged : (cs : List (Candidate F)) → free_count (unflagged fl cs) ≡ length cs
  free_count-unflagged [] = refl
  free_count-unflagged (c ∷ cs) = ap suc (free_count-unflagged cs)

  length-Perm : (cs ds : List (Candidate F)) → Permᴰ cs ds → length cs ≡ length ds
  length-Perm [] [] Permᴰ.nil = refl
  length-Perm (c ∷ cs) (d ∷ ds) (Permᴰ.cons e p) = ap suc (length-Perm cs ds p)
  length-Perm (a ∷ b ∷ cs) (c ∷ d ∷ ds) (Permᴰ.swap e f) = refl
  length-Perm cs es (Permᴰ.trans {l₂ = ds} p q) = length-Perm cs ds p ∙ length-Perm ds es q

  pick_rounds-Parts :
      (k : ℕ) (all : Flagged fl)
      → (rest : List (Candidate F)) × Permᴰ (pick_rounds fl k all ++ rest) (free_of fl all)
  pick_rounds-Parts zero all =
      rw (pick_rounds-zero fl all) (free_of fl all, Perm-refl fl (free_of fl all))
  pick_rounds-Parts (suc k) all = elim (Option-cases (scan fl 0 none neg_inf all)) [
    | inl e ↦ rw (pick_rounds_done fl k all e) (free_of fl all, Perm-refl fl (free_of fl all))
    | inr ((i, c), e) ↦
        let (rest, perm) = pick_rounds-Parts k (mark fl i all) in
        rw (pick_rounds_step fl k all i c e) (
          rest,
          Permᴰ.trans (Permᴰ.cons refl perm) (free_of-mark fl i c all (scan-IsAt fl all i c e)),
        )
  ]

  pub length-top_n :
      (all : List (Candidate F)) (n : ℕ)
      → All (λ c. lt neg_inf c.agg_score ≡ true) all
      → (length (top_n fl all n) ≡ min n (length all))
        × ((rest : List (Candidate F)) × Permᴰ (top_n fl all n ++ rest) all
            × (length rest ≡ length all - n))
  unfolding top_n
  length-top_n all n above =
      let free = Free-unflagged fl (λ c. lt neg_inf c.agg_score ≡ true) all above in
      let counted = free_count-unflagged all in
      let rounds = length-pick_rounds (min n (length all)) (unflagged fl all) free in
      let (rest, perm) : (rest : List (Candidate F)) × Permᴰ
            (pick_rounds fl (min n (length all)) (unflagged fl all) ++ rest) all =
        rw (free_of-unflagged fl all) at
          (pick_rounds-Parts (min n (length all)) (unflagged fl all)) in
      let sizes = length-Perm _ all perm in
      let split = length-append (pick_rounds fl (min n (length all)) (unflagged fl all)) rest in
      (omega arith, (rest, perm, omega arith))

  -- Where the scores are numbers above the least value, topN returns n candidates, or as many as there
  -- are, from different places of the pool; none of them is below a later one, and none is below a
  -- candidate that is left in the pool.
  pub top_n_lem :
      (all : List (Candidate F)) (n : ℕ)
      → IsNum neg_inf
      → All (λ c. IsNum c.agg_score) all
      → All (λ c. lt neg_inf c.agg_score ≡ true) all
      → (length (top_n fl all n) ≡ min n (length all))
        × IsDescending fl (top_n fl all n)
        × Splits fl all (top_n fl all n)
  top_n_lem all n ni nums above =
      let (down, split) = top_n-Splits fl all n ni nums in
      ((length-top_n all n above).0, down, split)
