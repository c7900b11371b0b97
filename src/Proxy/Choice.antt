-- ===== src/Proxy/Choice.antt =====
-- `pickWeightedRandom` of internal/proxy/handler.go. `now` is time.Now().UnixNano(), and `none` is the
-- run-time panic of a remainder by zero.
use prompt_graft.Base.{
  ℕ, ◌%◌, false, Option, none, some, List, [], ◌∷◌, ◌≡◌, ◌⊎◌, refl, inl, inr, Memᴰ, arith, eqb,
  if◌then◌else◌, Bool-cases,
}
use prompt_graft.Base.Float.{Floats}
use prompt_graft.Store.Types.{Variant}

module _ (fl : Floats) where
  open fl use {F, add, mul, of_nat, trunc, le}

  abbrev pub no_variant : Variant F
  no_variant = record { id = []; system_prompt = []; weight = of_nat 0 }

  -- total := 0.0; for v: total += v.Weight
  unfoldable pub total_weight : F → List (Variant F) → F
  total_weight total [] = total
  total_weight total (v ∷ vs) = total_weight (add total v.weight) vs

  -- The second loop, which falls back on the last variant.
  unfoldable pub reach : ℕ → F → Variant F → List (Variant F) → Variant F
  reach r cumulative v [] = v
  reach r cumulative v (w ∷ vs) =
      let next = add cumulative (mul v.weight (of_nat 1000)) in
      let later = reach r next w vs in if le (of_nat r) next then v else later

  -- int64(total*1000), and total
  abbrev pub total_of : List (Variant F) → F
  total_of vs = total_weight (of_nat 0) vs

  abbrev pub range_of : List (Variant F) → ℕ
  range_of vs = trunc (mul (total_of vs) (of_nat 1000))

  unfoldable pub pick_weighted_random : ℕ → List (Variant F) → Option (Variant F)
  unfolding total_weight reach
  pick_weighted_random now [] = some no_variant
  pick_weighted_random now (v ∷ vs) =
      if le (total_of (v ∷ vs)) (of_nat 0)
      then some v
      else if eqb (range_of (v ∷ vs)) 0
      then none
      else some (reach (now % range_of (v ∷ vs)) (of_nat 0) v vs)

  reach-mem :
      (r : ℕ) (c : F) (v : Variant F) (vs : List (Variant F)) → Memᴰ (reach r c v vs) (v ∷ vs)
  unfolding reach
  reach-mem r c v [] = Memᴰ.head refl
  reach-mem r c v (w ∷ vs) =
      elim (Bool-cases (le (of_nat r) (add c (mul v.weight (of_nat 1000))))) [
        | inl e ↦ rw e (Memᴰ.head refl)
        | inr e ↦ rw e (Memᴰ.tail (reach-mem r (add c (mul v.weight (of_nat 1000))) w vs))
      ]

  -- Whatever the clock says, the choice from a set that is not empty is one of its variants, or the
  -- call panics. It panics only if the total weight is not at most zero, and a thousand times the
  -- total is cut to zero.
  pub pick-mem :
      (now : ℕ) (v : Variant F) (vs : List (Variant F))
      → ((chosen : Variant F) × (pick_weighted_random now (v ∷ vs) ≡ some chosen)
          × Memᴰ chosen (v ∷ vs))
        ⊎ ((pick_weighted_random now (v ∷ vs) ≡ none)
            × (le (total_of (v ∷ vs)) (of_nat 0) ≡ false)
            × (range_of (v ∷ vs) ≡ 0))
  unfolding pick_weighted_random
  pick-mem now v vs = elim (Bool-cases (le (total_of (v ∷ vs)) (of_nat 0))) [
    | inl e ↦ inl (v, rw e, Memᴰ.head refl)
    | inr e ↦ elim (Bool-cases (eqb (range_of (v ∷ vs)) 0)) [
      | inl z ↦ inr (rw (e, z), e, ground arith)
      | inr z ↦ inl (
        reach (now % range_of (v ∷ vs)) (of_nat 0) v vs,
        rw (e, z),
        reach-mem (now % range_of (v ∷ vs)) (of_nat 0) v vs,
      )
    ]
  ]
