-- ===== src/Gepa/Selection/TopN.antt =====
-- What topN takes of the pool, and what it leaves.
use prompt_graft.Base.{
  ℕ, zero, suc, true, false, none, some, List, [], ◌∷◌, ◌≡◌, inl, inr, refl, length, min, ◌++◌, sym,
  ap, Option-cases, All,
}
use mathlib.Core.List.{Permᴰ}
use prompt_graft.Base.Float.{Floats}
use prompt_graft.Gepa.Candidate.{Candidate}
use prompt_graft.Gepa.Selection.{Flagged, scan, mark, pick_rounds, unflagged, top_n}
use prompt_graft.Gepa.Selection.Laws.{Free, Free-mark, IsTop, scan-IsTop}
use prompt_graft.Gepa.Selection.Places.{IsAt, scan-IsAt, Free-at}

module _ (fl : Floats) where
  open fl use {F, lt, neg_inf, IsNum}

  pub pick_rounds-zero : (all : Flagged fl) → pick_rounds fl zero all ≡ []
  unfolding pick_rounds
  pick_rounds-zero all = refl

  pub pick_rounds_done :
      (k : ℕ) (all : Flagged fl)
      → scan fl 0 none neg_inf all ≡ none
      → pick_rounds fl (suc k) all ≡ []
  unfolding pick_rounds
  pick_rounds_done k all e = rw (e, pick_rounds) refl

  pub pick_rounds_step :
      (k : ℕ) (all : Flagged fl) (i : ℕ) (c : Candidate F)
      → scan fl 0 none neg_inf all ≡ some (i, c)
      → pick_rounds fl (suc k) all ≡ c ∷ pick_rounds fl k (mark fl i all)
  unfolding pick_rounds
  pick_rounds_step k all i c e = rw (e, pick_rounds) refl

  -- Whatever holds of every free candidate holds of every selected one.
  pick_rounds-All :
      (P : Candidate F → Type 0) (k : ℕ) (all : Flagged fl)
      → Free fl P all
      → All P (pick_rounds fl k all)
  pick_rounds-All P zero all free = rw (pick_rounds-zero all) tt
  pick_rounds-All P (suc k) all free = elim (Option-cases (scan fl 0 none neg_inf all)) [
    | inl e ↦ rw (pick_rounds_done k all e) tt
    | inr ((i, c), e) ↦ rw (pick_rounds_step k all i c e) (
      Free-at fl P i c all (scan-IsAt fl all i c e) free,
      pick_rounds-All P k (mark fl i all) (Free-mark fl P i all free),
    )
  ]

  -- Each candidate is not below any later one.
  abbrev pub IsDescending : List (Candidate F) → Type 0
  IsDescending [] = Unit
  IsDescending (c ∷ cs) = All (λ d. lt c.agg_score d.agg_score ≡ false) cs × IsDescending cs

  -- No selected candidate is below this one.
  abbrev pub IsBeaten : List (Candidate F) → Candidate F → Type 0
  IsBeaten out d = All (λ c. lt c.agg_score d.agg_score ≡ false) out

  -- The selected candidates with the others are the pool, each at a place of its own, and no selected
  -- one is below another candidate.
  abbrev pub Splits : List (Candidate F) → List (Candidate F) → Type 0
  Splits all out = (rest : List (Candidate F)) × Permᴰ (out ++ rest) all × All (IsBeaten out) rest

  abbrev pub free_of : Flagged fl → List (Candidate F)
  free_of [] = []
  free_of ((c, true) ∷ all) = free_of all
  free_of ((c, false) ∷ all) = c ∷ free_of all

  pub Perm-refl : (cs : List (Candidate F)) → Permᴰ cs cs
  Perm-refl [] = Permᴰ.nil
  Perm-refl (c ∷ cs) = Permᴰ.cons refl (Perm-refl cs)

  pub free_of-mark :
      (i : ℕ) (c : Candidate F) (all : Flagged fl)
      → IsAt fl i c all
      → Permᴰ (c ∷ free_of (mark fl i all)) (free_of all)
  unfolding mark
  free_of-mark i c [] at = absurd at
  free_of-mark zero c ((d, true) ∷ all) at = absurd at
  free_of-mark zero c ((d, false) ∷ all) at = Permᴰ.cons (sym at) (Perm-refl (free_of all))
  free_of-mark (suc i) c ((d, true) ∷ all) at = free_of-mark i c all at
  free_of-mark (suc i) c ((d, false) ∷ all) at =
      Permᴰ.trans (Permᴰ.swap refl refl) (Permᴰ.cons refl (free_of-mark i c all at))

  pub free_of-unflagged : (cs : List (Candidate F)) → free_of (unflagged fl cs) ≡ cs
  free_of-unflagged [] = refl
  free_of-unflagged (c ∷ cs) = ap (λ ds. c ∷ ds) (free_of-unflagged cs)

  Free-All : (P : Candidate F → Type 0) (all : Flagged fl) → Free fl P all → All P (free_of all)
  Free-All P [] h = tt
  Free-All P ((c, true) ∷ all) h = Free-All P all h
  Free-All P ((c, false) ∷ all) h = (h.0, Free-All P all h.1)

  -- What holds of a list holds of a part of an arrangement of it.
  All-Perm :
      (P : Candidate F → Type 0) (cs ds : List (Candidate F)) → Permᴰ cs ds → All P ds → All P cs
  All-Perm P [] [] Permᴰ.nil h = tt
  All-Perm P (c ∷ cs) (d ∷ ds) (Permᴰ.cons e p) h = (rw e h.0, All-Perm P cs ds p h.1)
  All-Perm P (a ∷ b ∷ cs) (c ∷ d ∷ ds) (Permᴰ.swap e f) h = (rw e h.1.0, (rw f h.0, h.1.1))
  All-Perm P cs es (Permᴰ.trans {l₂ = ds} p q) h = All-Perm P cs ds p (All-Perm P ds es q h)

  All-append_right :
      (P : Candidate F → Type 0) (cs ds : List (Candidate F)) → All P (cs ++ ds) → All P ds
  All-append_right P [] ds h = h
  All-append_right P (c ∷ cs) ds h = All-append_right P cs ds h.1

  All-both :
      (P Q R : Candidate F → Type 0) (cs : List (Candidate F))
      → ((c : Candidate F) → P c → Q c → R c)
      → All P cs
      → All Q cs
      → All R cs
  All-both P Q R [] f p q = tt
  All-both P Q R (c ∷ cs) f p q = (f c p.0 q.0, All-both P Q R cs f p.1 q.1)

  All-IsBeaten_nil : (cs : List (Candidate F)) → All (IsBeaten []) cs
  All-IsBeaten_nil [] = tt
  All-IsBeaten_nil (c ∷ cs) = (tt, All-IsBeaten_nil cs)

  Splits-nil : (all : List (Candidate F)) → Splits all []
  Splits-nil all = (all, Perm-refl all, All-IsBeaten_nil all)

  top_of_scan :
      (all : Flagged fl) (i : ℕ) (c : Candidate F)
      → IsNum neg_inf
      → Free fl (λ d. IsNum d.agg_score) all
      → scan fl 0 none neg_inf all ≡ some (i, c)
      → Free fl (λ d. lt c.agg_score d.agg_score ≡ false) all
  top_of_scan all i c ni free e =
      let t : IsTop fl neg_inf all (some (i, c)) =
        rw e at (scan-IsTop fl all 0 none neg_inf ni tt free) in
      t.2

  pick_rounds_lem :
      (k : ℕ) (all : Flagged fl)
      → IsNum neg_inf
      → Free fl (λ d. IsNum d.agg_score) all
      → IsDescending (pick_rounds fl k all) × Splits (free_of all) (pick_rounds fl k all)
  pick_rounds_lem zero all ni free = rw (pick_rounds-zero all) (tt, Splits-nil (free_of all))
  pick_rounds_lem (suc k) all ni free = elim (Option-cases (scan fl 0 none neg_inf all)) [
    | inl e ↦ rw (pick_rounds_done k all e) (tt, Splits-nil (free_of all))
    | inr ((i, c), e) ↦
        let top = top_of_scan all i c ni free e in
        let top_left = Free-mark fl (λ d. lt c.agg_score d.agg_score ≡ false) i all top in
        let (down, (rest, perm, beaten)) =
          pick_rounds_lem k (mark fl i all) ni (Free-mark fl _ i all free) in
        let out = pick_rounds fl k (mark fl i all) in
        rw (pick_rounds_step k all i c e) (
          (
            pick_rounds-All (λ d. lt c.agg_score d.agg_score ≡ false) k (mark fl i all) top_left,
            down,
          ),
          (
            rest,
            Permᴰ.trans (Permᴰ.cons refl perm) (free_of-mark i c all (scan-IsAt fl all i c e)),
            All-both (λ d. lt c.agg_score d.agg_score ≡ false) (IsBeaten out) (IsBeaten (c ∷ out))
                rest (λ d above low. (above, low))
                (All-append_right _ out rest (
                  All-Perm _ (out ++ rest) (free_of (mark fl i all)) perm
                    (Free-All _ (mark fl i all) top_left)))
                beaten,
          ),
        )
  ]

  pub Free-unflagged :
      (P : Candidate F → Type 0) (cs : List (Candidate F)) → All P cs → Free fl P (unflagged fl cs)
  Free-unflagged P [] h = tt
  Free-unflagged P (c ∷ cs) (p, h) = (p, Free-unflagged P cs h)

  pub top_n-Splits :
      (all : List (Candidate F)) (n : ℕ)
      → IsNum neg_inf
      → All (λ c. IsNum c.agg_score) all
      → IsDescending (top_n fl all n) × Splits all (top_n fl all n)
  unfolding top_n
  top_n-Splits all n ni nums = rw (free_of-unflagged all) at (
      pick_rounds_lem (min n (length all)) (unflagged fl all) ni
        (Free-unflagged (λ c. IsNum c.agg_score) all nums))
