-- ===== src/Store/Pg/Groups.antt =====
-- GROUP BY and WHERE of the statements in internal/store/pg/store.go, by membership.
use prompt_graft.Base.{
  Bool, not, List, [], ◌∷◌, ◌++◌, map, ◌≡◌, ◌⊎◌, ◌↔◌, inl, inr, refl, sym, ap, keep, mem-keep,
  mem-keep_of_mem, Memᴰ, All, Bool-cases,
}
use prompt_graft.Store.Types.{SessionRef}
use prompt_graft.Store.Pg.{same_ref, insert_by, order_by}
use prompt_graft.Store.Pg.Keys.{same_ref_iff}
use prompt_graft.Store.Pg.Sessions.{distinct_refs}

pub mem_map {ℓ κ} :
    {A : Type ℓ} {B : Type κ} (f : A → B) {x : A} (xs : List A) → Memᴰ x xs → Memᴰ (f x) (map f xs)
mem_map f [] m = elim m [ ]
mem_map f (y ∷ xs) (Memᴰ.head e) = Memᴰ.head (ap f e)
mem_map f (y ∷ xs) (Memᴰ.tail m) = Memᴰ.tail (mem_map f xs m)

pub of_mem_map {ℓ κ} :
    {A : Type ℓ} {B : Type κ} (f : A → B) {y : B} (xs : List A)
    → Memᴰ y (map f xs)
    → (x : A) × Memᴰ x xs × (f x ≡ y)
of_mem_map f [] m = elim m [ ]
of_mem_map f (x ∷ xs) (Memᴰ.head e) = (x, Memᴰ.head refl, sym e)
of_mem_map f (x ∷ xs) (Memᴰ.tail m) =
    let (z, there, e) = of_mem_map f xs m in (z, Memᴰ.tail there, e)

pub mem_append_left {ℓ} : {A : Type ℓ} {x : A} (xs ys : List A) → Memᴰ x xs → Memᴰ x (xs ++ ys)
mem_append_left [] ys m = elim m [ ]
mem_append_left (x ∷ xs) ys (Memᴰ.head e) = Memᴰ.head e
mem_append_left (x ∷ xs) ys (Memᴰ.tail m) = Memᴰ.tail (mem_append_left xs ys m)

pub mem_append_right {ℓ} : {A : Type ℓ} {x : A} (xs ys : List A) → Memᴰ x ys → Memᴰ x (xs ++ ys)
mem_append_right [] ys m = m
mem_append_right (x ∷ xs) ys m = Memᴰ.tail (mem_append_right xs ys m)

pub of_mem_append {ℓ} :
    {A : Type ℓ} {x : A} (xs ys : List A) → Memᴰ x (xs ++ ys) → Memᴰ x xs ⊎ Memᴰ x ys
of_mem_append [] ys m = inr m
of_mem_append (x ∷ xs) ys (Memᴰ.head e) = inl (Memᴰ.head e)
of_mem_append (x ∷ xs) ys (Memᴰ.tail m) = elim (of_mem_append xs ys m) [
  | inl k ↦ inl (Memᴰ.tail k)
  | inr k ↦ inr k
]

distinct_step :
    (ref r : SessionRef) (kept refs : List SessionRef)
    → Memᴰ ref kept ↔ Memᴰ ref refs
    → Memᴰ ref (r ∷ keep (λ x. not (same_ref x r)) kept) ↔ Memᴰ ref (r ∷ refs)
distinct_step ref r kept refs same = (to, back)
  where
    to : Memᴰ ref (r ∷ keep (λ x. not (same_ref x r)) kept) → Memᴰ ref (r ∷ refs)
    to (Memᴰ.head e) = Memᴰ.head e
    to (Memᴰ.tail m) = Memᴰ.tail (same.0 (mem-keep (λ x. not (same_ref x r)) kept ref m).0)

    back : Memᴰ ref (r ∷ refs) → Memᴰ ref (r ∷ keep (λ x. not (same_ref x r)) kept)
    back (Memᴰ.head e) = Memᴰ.head e
    back (Memᴰ.tail m) = elim (Bool-cases (same_ref ref r)) [
      | inl e ↦ Memᴰ.head ((same_ref_iff ref r).0 e)
      | inr e ↦
          Memᴰ.tail (mem-keep_of_mem (λ x. not (same_ref x r)) kept ref (same.1 m) (rw e refl))
    ]

pub mem-distinct_refs :
    (ref : SessionRef) (refs : List SessionRef) → Memᴰ ref (distinct_refs refs) ↔ Memᴰ ref refs
unfolding distinct_refs
mem-distinct_refs ref [] = (λ m. m, λ m. m)
mem-distinct_refs ref (r ∷ refs) =
    distinct_step ref r (distinct_refs refs) refs (mem-distinct_refs ref refs)

insert_by-All {ℓ κ} :
    {A : Type ℓ} (P : A → Type κ) (before : A → A → Bool) (a : A) (rest : List A)
    → P a
    → All P rest
    → All P (insert_by before a rest)
unfolding insert_by
insert_by-All P before a [] p h = (p, tt)
insert_by-All P before a (b ∷ bs) p h = elim (Bool-cases (before b a)) [
  | inl e ↦ rw e (h.0, insert_by-All P before a bs p h.1)
  | inr e ↦ rw e (p, h)
]

pub order_by-All {ℓ κ} :
    {A : Type ℓ} (P : A → Type κ) (before : A → A → Bool) (bs : List A)
    → All P bs
    → All P (order_by before bs)
unfolding order_by
order_by-All P before [] h = tt
order_by-All P before (b ∷ bs) h =
    insert_by-All P before b (order_by before bs) h.0 (order_by-All P before bs h.1)
