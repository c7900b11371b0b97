-- ===== src/Base/Lists.antt =====
-- Lists measured and indexed by native numbers, under the library's names, and predicates on them.
use Prim.Native.Nat.{ℕ, zero, suc, ◌+◌, ◌-◌, ◌≤◌, min}
use mathlib.Core.Path.{◌≡◌, refl, ap}
use mathlib.Core.List.{List, [], ◌∷◌, ◌++◌, map, Memᴰ}
use mathlib.Core.Bool.{Bool, true, false}
use mathlib.Core.Logic.{inl, inr}
use mathlib.Core.Option.{Option, none, some}
use native.Mathlib.Omega.{arith}
use prompt_graft.Base.Tests.{if◌then◌else◌, Bool-cases}

module _ {ℓ} {A : Type ℓ} where
  abbrev pub length : List A → ℕ
  length [] = 0
  length (x ∷ xs) = suc (length xs)

  abbrev pub get_elem? : List A → ℕ → Option A
  get_elem? [] i = none
  get_elem? (x ∷ xs) zero = some x
  get_elem? (x ∷ xs) (suc i) = get_elem? xs i

  abbrev pub take : ℕ → List A → List A
  take zero xs = []
  take (suc n) [] = []
  take (suc n) (x ∷ xs) = x ∷ take n xs

  abbrev pub drop : ℕ → List A → List A
  drop zero xs = xs
  drop (suc n) [] = []
  drop (suc n) (x ∷ xs) = drop n xs

  abbrev pub is_empty : List A → Bool
  is_empty [] = true
  is_empty (_ ∷ _) = false

  -- The elements that pass a test, in order.
  unfoldable pub keep : (A → Bool) → List A → List A
  keep p [] = []
  keep p (x ∷ xs) = let rest = keep p xs in if p x then x ∷ rest else rest

module _ {ℓ} {A : Type ℓ} where
  pub length-append : (xs ys : List A) → length (xs ++ ys) ≡ length xs + length ys
  length-append [] ys = omega arith
  length-append (x ∷ xs) ys = omega (arith, length-append xs ys)

  pub take-append-drop : (n : ℕ) (xs : List A) → take n xs ++ drop n xs ≡ xs
  take-append-drop zero xs = refl
  take-append-drop (suc n) [] = refl
  take-append-drop (suc n) (x ∷ xs) = ap (λ ys. x ∷ ys) (take-append-drop n xs)

  pub length-take : (n : ℕ) (xs : List A) → length (take n xs) ≡ min n (length xs)
  length-take zero xs = omega arith
  length-take (suc n) [] = omega arith
  length-take (suc n) (x ∷ xs) = omega (arith, length-take n xs)

  pub length-drop : (n : ℕ) (xs : List A) → length (drop n xs) ≡ length xs - n
  length-drop zero xs = omega arith
  length-drop (suc n) [] = omega arith
  length-drop (suc n) (x ∷ xs) = omega (arith, length-drop n xs)

  pub length-map {κ} : {B : Type κ} (f : A → B) (xs : List A) → length (map f xs) ≡ length xs
  length-map f [] = refl
  length-map f (x ∷ xs) = ap suc (length-map f xs)

  -- Taking all of a list, or more, is the list.
  pub take_all : (n : ℕ) (xs : List A) → length xs ≤ n → take n xs ≡ xs
  take_all zero [] h = refl
  take_all zero (x ∷ xs) h = absurd (omega arith)
  take_all (suc n) [] h = refl
  take_all (suc n) (x ∷ xs) h = ap (λ ys. x ∷ ys) (take_all n xs (omega arith))

module _ {ℓ κ} {A : Type ℓ} (P : A → Type κ) where
  abbrev pub All : List A → Type κ
  All [] = Unit
  All (x ∷ xs) = P x × All xs

  pub All-append : (xs ys : List A) → All xs → All ys → All (xs ++ ys)
  All-append [] ys h k = k
  All-append (x ∷ xs) ys (p, h) k = (p, All-append xs ys h k)

  pub All-take : (n : ℕ) (xs : List A) → All xs → All (take n xs)
  All-take zero xs h = tt
  All-take (suc n) [] h = tt
  All-take (suc n) (x ∷ xs) (p, h) = (p, All-take n xs h)

  pub All-mem : {x : A} {xs : List A} → All xs → Memᴰ x xs → P x
  All-mem {xs = []} h m = elim m [ ]
  All-mem {xs = y ∷ ys} (p, h) (Memᴰ.head e) = rw e p
  All-mem {xs = y ∷ ys} (p, h) (Memᴰ.tail m) = All-mem h m

module _ {ℓ} {A : Type ℓ} (p : A → Bool) where
  mem-keep_head :
      (x : A) (xs : List A) (y : A)
      → p x ≡ true
      → (Memᴰ y (keep p xs) → Memᴰ y xs × (p y ≡ true))
      → Memᴰ y (x ∷ keep p xs)
      → Memᴰ y (x ∷ xs) × (p y ≡ true)
  mem-keep_head x xs y e rec (Memᴰ.head same) = (Memᴰ.head same, rw same e)
  mem-keep_head x xs y e rec (Memᴰ.tail m) = (Memᴰ.tail (rec m).0, (rec m).1)

  -- What is kept is in the list and passes the test.
  pub mem-keep : (xs : List A) (y : A) → Memᴰ y (keep p xs) → Memᴰ y xs × (p y ≡ true)
  unfolding keep
  mem-keep [] y m = elim m [ ]
  mem-keep (x ∷ xs) y m = elim (Bool-cases (p x)) [
    | inl e ↦ mem-keep_head x xs y e (mem-keep xs y) (rw e at m)
    | inr e ↦ let (there, holds) = mem-keep xs y (rw e at m) in (Memᴰ.tail there, holds)
  ]

  pub mem-keep_of_mem : (xs : List A) (y : A) → Memᴰ y xs → p y ≡ true → Memᴰ y (keep p xs)
  unfolding keep
  mem-keep_of_mem [] y m h = elim m [ ]
  mem-keep_of_mem (x ∷ xs) y (Memᴰ.head same) h =
      let e : p x ≡ true = rw (← same) h in rw e (Memᴰ.head same)
  mem-keep_of_mem (x ∷ xs) y (Memᴰ.tail m) h = elim (Bool-cases (p x)) [
    | inl e ↦ rw e (Memᴰ.tail (mem-keep_of_mem xs y m h))
    | inr e ↦ rw e (mem-keep_of_mem xs y m h)
  ]
