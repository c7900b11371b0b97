-- ===== src/Gepa/Selection/Laws.antt =====
-- What topN selects.
use prompt_graft.Base.{
  ℕ, zero, suc, true, false, Option, none, some, [], ◌∷◌, ◌≡◌, ◌≢◌, inl, inr, refl, Bool-cases,
}
use prompt_graft.Base.Float.{Floats}
use prompt_graft.Gepa.Candidate.{Candidate}
use prompt_graft.Gepa.Pareto.Laws.{lt_asymm}
use prompt_graft.Gepa.Selection.{Flagged, scan, mark}

module _ (fl : Floats) where
  open fl use {F, lt, neg_inf, IsNum, not_lt_trans, lt_irrefl}

  -- What holds of every candidate that is not picked.
  abbrev pub Free : (Candidate F → Type 0) → Flagged fl → Type 0
  Free P [] = Unit
  Free P ((c, true) ∷ all) = Free P all
  Free P ((c, false) ∷ all) = P c × Free P all

  pub Free-mark :
      (P : Candidate F → Type 0) (i : ℕ) (all : Flagged fl) → Free P all → Free P (mark fl i all)
  unfolding mark
  Free-mark P i [] h = tt
  Free-mark P zero ((c, true) ∷ all) h = h
  Free-mark P zero ((c, false) ∷ all) h = h.1
  Free-mark P (suc i) ((c, true) ∷ all) h = Free-mark P i all h
  Free-mark P (suc i) ((c, false) ∷ all) h = (h.0, Free-mark P i all h.1)

  -- A bound of the score so far is kept under the score of what is taken.
  abbrev pub Bounds : F → Option (ℕ × Candidate F) → Type 0
  Bounds score none = Unit
  Bounds score (some (i, c)) = c.agg_score ≡ score

  -- The result of a scan: not below the score that the scan began with, nor any free candidate.
  abbrev pub IsTop : F → Flagged fl → Option (ℕ × Candidate F) → Type 0
  IsTop score all none = Free (λ d. lt score d.agg_score ≡ false) all
  IsTop score all (some (i, c)) =
      IsNum c.agg_score
      × (lt c.agg_score score ≡ false)
      × Free (λ d. lt c.agg_score d.agg_score ≡ false) all

  IsTop-skip :
      (score : F) (c : Candidate F) (all : Flagged fl) (r : Option (ℕ × Candidate F))
      → IsNum score
      → IsNum c.agg_score
      → lt score c.agg_score ≡ false
      → IsTop score all r
      → IsTop score ((c, false) ∷ all) r
  IsTop-skip score c all none ns nc low t = (low, t)
  IsTop-skip score c all (some (i, d)) ns nc low (nd, above, free) =
      (nd, above, (not_lt_trans d.agg_score score c.agg_score nd ns nc above low, free))

  IsTop-take :
      (score : F) (c : Candidate F) (all : Flagged fl) (i : ℕ) (d : Candidate F)
      → IsNum score
      → IsNum c.agg_score
      → lt score c.agg_score ≡ true
      → IsTop c.agg_score all (some (i, d))
      → IsTop score ((c, false) ∷ all) (some (i, d))
  IsTop-take score c all i d ns nc up (nd, above, free) = (
    nd,
    not_lt_trans d.agg_score c.agg_score score nd nc ns above (lt_asymm fl score c.agg_score up),
    (above, free),
  )

  -- A scan that has a candidate ends with one.
  pub scan-some :
      (all : Flagged fl) (i : ℕ) (b : ℕ × Candidate F) (score : F)
      → scan fl i (some b) score all ≢ none
  unfolding scan
  scan-some [] i b score e = cc
  scan-some ((c, true) ∷ all) i b score e = scan-some all (suc i) b score e
  scan-some ((c, false) ∷ all) i b score e = elim (Bool-cases (lt score c.agg_score)) [
    | inl up ↦ scan-some all (suc i) (i, c) c.agg_score (rw up at e)
    | inr low ↦ scan-some all (suc i) b score (rw low at e)
  ]

  -- The candidate that the scan began with is its bound, if there is one.
  pub scan-IsTop :
      (all : Flagged fl) (i : ℕ) (best : Option (ℕ × Candidate F)) (score : F)
      → IsNum score
      → Bounds score best
      → Free (λ d. IsNum d.agg_score) all
      → IsTop score all (scan fl i best score all)
  unfolding scan
  scan-IsTop [] i none score ns b free = tt
  scan-IsTop [] i (some (j, c)) score ns b free = (rw b ns, rw b (lt_irrefl score), tt)
  scan-IsTop ((c, true) ∷ all) i best score ns b free =
      IsTop_flagged (scan fl (suc i) best score all) (scan-IsTop all (suc i) best score ns b free)
    where
      IsTop_flagged :
          (r : Option (ℕ × Candidate F)) → IsTop score all r → IsTop score ((c, true) ∷ all) r
      IsTop_flagged none t = t
      IsTop_flagged (some (j, d)) t = t
  scan-IsTop ((c, false) ∷ all) i best score ns b (nc, free) =
      elim (Bool-cases (lt score c.agg_score)) [
        | inr low ↦ rw low (
            IsTop-skip score c all (scan fl (suc i) best score all) ns nc low
              (scan-IsTop all (suc i) best score ns b free))
        | inl up ↦ rw up (
            taken up (scan fl (suc i) (some (i, c)) c.agg_score all)
              (scan-some all (suc i) (i, c) c.agg_score)
              (scan-IsTop all (suc i) (some (i, c)) c.agg_score nc refl free))
      ]
    where
      taken :
          lt score c.agg_score ≡ true
          → (r : Option (ℕ × Candidate F)) → r ≢ none
          → IsTop c.agg_score all r
          → IsTop score ((c, false) ∷ all) r
      taken up none ne t = absurd (ne refl)
      taken up (some (j, d)) ne t = IsTop-take score c all j d ns nc up t
