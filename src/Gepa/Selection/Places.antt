-- ===== src/Gepa/Selection/Places.antt =====
-- Where a round of topN stands in the flagged pool.
use prompt_graft.Base.{
  ℕ, zero, suc, ◌+◌, Bool, true, false, Option, none, some, [], ◌∷◌, ◌≡◌, ◌⊎◌, inl, inr, arith,
  Bool-cases,
}
use prompt_graft.Base.Float.{Floats}
use prompt_graft.Gepa.Candidate.{Candidate}
use prompt_graft.Gepa.Selection.{Flagged, scan}
use prompt_graft.Gepa.Selection.Laws.{Free}

module _ (fl : Floats) where
  open fl use {F, lt, neg_inf, IsNum}

  -- The place `i` holds `c`, which is not picked.
  abbrev pub IsAt : ℕ → Candidate F → Flagged fl → Type 0
  IsAt i c [] = ⊥
  IsAt zero c ((d, true) ∷ all) = ⊥
  IsAt zero c ((d, false) ∷ all) = d ≡ c
  IsAt (suc i) c ((d, p) ∷ all) = IsAt i c all

  abbrev Found : ℕ → Option (ℕ × Candidate F) → Flagged fl → ℕ → Candidate F → Type 0
  Found j best all i c = ((k : ℕ) × (i ≡ j + k) × IsAt k c all) ⊎ (best ≡ some (i, c))

  Found-later :
      (j : ℕ) (best : Option (ℕ × Candidate F)) (d : Candidate F) (p : Bool) (all : Flagged fl)
      (i : ℕ) (c : Candidate F)
      → Found (suc j) best all i c
      → Found j best ((d, p) ∷ all) i c
  Found-later j best d p all i c (inl (k, e, at)) = inl (suc k, omega arith, at)
  Found-later j best d p all i c (inr e) = inr e

  Found-here :
      (j : ℕ) (best : Option (ℕ × Candidate F)) (d : Candidate F) (all : Flagged fl) (i : ℕ)
      (c : Candidate F)
      → Found (suc j) (some (j, d)) all i c
      → Found j best ((d, false) ∷ all) i c
  Found-here j best d all i c (inl (k, e, at)) = inl (suc k, omega arith, at)
  Found-here j best d all i c (inr e) = inl (0, ground arith, ground arith)

  scan-Found :
      (all : Flagged fl) (j : ℕ) (best : Option (ℕ × Candidate F)) (score : F) (i : ℕ)
      (c : Candidate F)
      → scan fl j best score all ≡ some (i, c)
      → Found j best all i c
  unfolding scan
  scan-Found [] j best score i c e = inr e
  scan-Found ((d, true) ∷ all) j best score i c e =
      Found-later j best d true all i c (scan-Found all (suc j) best score i c e)
  scan-Found ((d, false) ∷ all) j best score i c e = elim (Bool-cases (lt score d.agg_score)) [
    | inl up ↦
        Found-here j best d all i c
          (scan-Found all (suc j) (some (j, d)) d.agg_score i c (rw up at e))
    | inr low ↦
        Found-later j best d false all i c (scan-Found all (suc j) best score i c (rw low at e))
  ]

  -- The candidate that a round takes stands at its place, and is free.
  pub scan-IsAt :
      (all : Flagged fl) (i : ℕ) (c : Candidate F)
      → scan fl 0 none neg_inf all ≡ some (i, c)
      → IsAt i c all
  scan-IsAt all i c e = at_start (scan-Found all 0 none neg_inf i c e)
    where
      at_start : Found 0 none all i c → IsAt i c all
      at_start (inl (k, same, at)) = let here : i ≡ k = omega arith in rw here at
      at_start (inr wrong) = cc

  pub Free-at :
      (P : Candidate F → Type 0) (i : ℕ) (c : Candidate F) (all : Flagged fl)
      → IsAt i c all
      → Free fl P all
      → P c
  Free-at P i c [] at free = absurd at
  Free-at P zero c ((d, true) ∷ all) at free = absurd at
  Free-at P zero c ((d, false) ∷ all) at free = rw (← at) free.0
  Free-at P (suc i) c ((d, true) ∷ all) at free = Free-at P i c all at free
  Free-at P (suc i) c ((d, false) ∷ all) at free = Free-at P i c all at free.1
