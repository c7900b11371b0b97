-- ===== src/Gepa/Dataset.antt =====
-- internal/optimizer/gepa/dataset.go. The random numbers are parameters: `shuffle` is rng.Shuffle for
-- the seed of Split, `indices` is what rng.Perm(len(d)) returns.
pub mod Laws
use prompt_graft.Base.{
  ℕ, zero, suc, ◌+◌, Bool, true, false, ◌||◌, Option, none, some, List, [], ◌∷◌, length, take, drop,
  is_empty, get_elem?, ltb, leb, eqb, if◌then◌else◌, Bytes,
}
use prompt_graft.Base.Float.{Floats}

pub record DataPoint (F : Type 0) : Type 0 where
  pub input : Bytes
  pub output : Bytes
  pub rating : F
  pub asi : Bytes
  pub variant_id : Bytes
  pub comment : Bytes

abbrev pub at_least_one : ℕ → ℕ
at_least_one n = if ltb n 1 then 1 else n

-- batch = append(batch, d[idx]); rng.Perm returns places of d only.
abbrev pub cons_found {ℓ} : {A : Type ℓ} → Option A → List A → List A
cons_found none xs = xs
cons_found (some x) xs = x ∷ xs

unfoldable pub gather {ℓ} : {A : Type ℓ} → List A → List ℕ → List A
gather d [] = []
gather d (i ∷ is) = cons_found (get_elem? d i) (gather d is)

module _ (fl : Floats) where
  open fl use {F, mul, of_nat, trunc, le}

  abbrev pub Dataset : Type 0
  Dataset = List (DataPoint F)

  unfoldable pub split : (Dataset → Dataset) → Dataset → F → Dataset × Dataset
  split shuffle d fraction =
      let shuffled = shuffle d in
      let cutoff = at_least_one (trunc (mul (of_nat (length shuffled)) fraction)) in
      if le fraction (of_nat 0) || le (of_nat 1) fraction || is_empty d
      then (d, [])
      else (take cutoff shuffled, drop cutoff shuffled)

  unfoldable pub minibatch : Dataset → ℕ → List ℕ → Dataset
  minibatch d n indices =
      if eqb n 0 || is_empty d
      then []
      else if leb (length d) n
      then d
      else gather d (take n indices)
