-- ===== src/Gepa/Dataset/Laws.antt =====
-- What Split and Minibatch return.
use prompt_graft.Base.{
  ℕ, zero, suc, ◌≤◌, ◌||◌, Option, none, some, List, [], ◌∷◌, ◌++◌, ◌≡◌, ◌≢◌, ◌⊎◌, inl, inr, refl,
  Memᴰ, length, length-take, take, take-append-drop, is_empty, get_elem?, ltb, leb, eqb, arith,
  Bool-cases, All,
}
use prompt_graft.Base.Float.{Floats}
use prompt_graft.Gepa.Dataset.{Dataset, at_least_one, cons_found, gather, split, minibatch}

take-ne-nil {ℓ} : {A : Type ℓ} (n : ℕ) (xs : List A) → xs ≢ [] → take (at_least_one n) xs ≢ []
take-ne-nil zero [] h e = h refl
take-ne-nil zero (x ∷ xs) h e = cc
take-ne-nil (suc n) [] h e = h refl
take-ne-nil {A = A} (suc n) (x ∷ xs) h e = elim (Bool-cases (ltb (suc n) 1)) [
  | inl low ↦ absurd (ground arith)
  | inr high ↦ not_nil (take n xs) (rw high at e)
]
  where
    not_nil : (ys : List A) → x ∷ ys ≡ [] → ⊥
    not_nil ys e = cc

get_elem?-mem {ℓ} : {A : Type ℓ} (xs : List A) (i : ℕ) (x : A) → get_elem? xs i ≡ some x → Memᴰ x xs
get_elem?-mem [] i x e = cc
get_elem?-mem (y ∷ xs) zero x e = Memᴰ.head (ground arith)
get_elem?-mem (y ∷ xs) (suc i) x e = Memᴰ.tail (get_elem?-mem xs i x e)

gather-mem {ℓ} :
    {A : Type ℓ} (xs : List A) (is : List ℕ)
    → All (λ x. Memᴰ x xs) (gather xs is) × (length (gather xs is) ≤ length is)
unfolding gather
gather-mem xs [] = (tt, omega arith)
gather-mem {A = A} xs (i ∷ is) = found (get_elem? xs i) refl (gather-mem xs is)
  where
    found :
        (o : Option A)
        → get_elem? xs i ≡ o
        → All (λ x. Memᴰ x xs) (gather xs is) × (length (gather xs is) ≤ length is)
        → All (λ x. Memᴰ x xs) (cons_found o (gather xs is))
          × (length (cons_found o (gather xs is)) ≤ suc (length is))
    found none e (mem, len) = (mem, omega (arith, len))
    found (some x) e (mem, len) = ((get_elem?-mem xs i x e, mem), omega (arith, len))

All-listed {ℓ} :
    {A : Type ℓ} (xs ys : List A) → ((x : A) → Memᴰ x xs → Memᴰ x ys) → All (λ x. Memᴰ x ys) xs
All-listed [] ys h = tt
All-listed (x ∷ xs) ys h = (h x (Memᴰ.head refl), All-listed xs ys (λ y m. h y (Memᴰ.tail m)))

module _ (fl : Floats) where
  open fl use {F, mul, trunc, of_nat, le}

  -- A dataset that is not empty is not split, or its parts make up its shuffle; the first part is not
  -- empty. The shuffle of a dataset that is not empty is not empty.
  pub split_lem :
      (shuffle : Dataset fl → Dataset fl) (d : Dataset fl) (fraction : F)
      → shuffle d ≢ []
      → d ≢ []
      → ((split fl shuffle d fraction ≡ (d, []))
          ⊎ ((split fl shuffle d fraction).0 ++ (split fl shuffle d fraction).1 ≡ shuffle d))
        × ((split fl shuffle d fraction).0 ≢ [])
  unfolding split
  split_lem shuffle d fraction s n =
      elim (Bool-cases (le fraction (of_nat 0) || le (of_nat 1) fraction || is_empty d)) [
        | inl e ↦ rw e (inl refl, n)
        | inr e ↦
            let cutoff = trunc (mul (of_nat (length (shuffle d))) fraction) in
            rw e (
              inr (take-append-drop (at_least_one cutoff) (shuffle d)),
              take-ne-nil cutoff (shuffle d) s,
            )
      ]

  -- A minibatch of size n has at most n data points, all of them of the dataset.
  pub minibatch-mem :
      (d : Dataset fl) (n : ℕ) (indices : List ℕ)
      → All (λ x. Memᴰ x d) (minibatch fl d n indices) × (length (minibatch fl d n indices) ≤ n)
  unfolding minibatch
  minibatch-mem d n indices = elim (Bool-cases (eqb n 0 || is_empty d)) [
    | inl e ↦ rw e (tt, omega arith)
    | inr e ↦ elim (Bool-cases (leb (length d) n)) [
      | inl small ↦ rw (e, small) (All-listed d d (λ x m. m), ground arith)
      | inr large ↦
          let (mem, len) = gather-mem d (take n indices) in
          rw (e, large) (mem, omega (arith, len, length-take n indices))
    ]
  ]
