-- ===== src/Store/Feedback/Samples/Laws.antt =====
-- How many samples of a variant `LoadConversationSamples` (internal/store/redis/feedback.go) selects, and
-- in which order.
use prompt_graft.Base.{
  ℕ, ◌+◌, ◌≤◌, Bool, false, List, [], ◌∷◌, ◌++◌, ◌≡◌, ◌≢◌, refl, ◌∙◌, sym, subst, inl, inr, length,
  keep, Bytes, ◌==◌, ==_iff, arith, All, All-append, All-mem, Memᴰ, Bool-cases,
}
use prompt_graft.Store.Types.{ConversationFeedback}
use prompt_graft.Store.Balance.{select_balanced}
use prompt_graft.Store.Balance.Laws.{select_balanced_lem}
use prompt_graft.Store.Feedback.Samples.{Buckets, add_to_bucket, select_all}

abbrev pub of_variant : Bytes → ConversationFeedback → Bool
of_variant v x = x.variant_id == v

abbrev pub variant_count : Bytes → List ConversationFeedback → ℕ
variant_count v xs = length (keep (of_variant v) xs)

-- A bucket holds samples of its variant, and no variant has two buckets.
abbrev pub IsPartition : Buckets → Type 0
IsPartition [] = Unit
IsPartition ((v, list) ∷ buckets) =
    All (λ (x : ConversationFeedback). x.variant_id ≡ v) list
    × (All (λ (b : Bytes × List ConversationFeedback). b.0 ≢ v) buckets × IsPartition buckets)

abbrev Other : Bytes → Bytes × List ConversationFeedback → Type 0
Other v b = b.0 ≢ v

add_to_bucket-Other :
    (cf : ConversationFeedback) (buckets : Buckets) (v : Bytes)
    → All (Other v) buckets
    → cf.variant_id ≢ v
    → All (Other v) (add_to_bucket cf buckets)
unfolding add_to_bucket
add_to_bucket-Other cf [] v h n = (n, tt)
add_to_bucket-Other cf ((w, list) ∷ buckets) v h n = elim (Bool-cases (w == cf.variant_id)) [
  | inl e ↦ rw e (h.0, h.1)
  | inr e ↦ rw e (h.0, add_to_bucket-Other cf buckets v h.1 n)
]

pub add_to_bucket-IsPartition :
    (cf : ConversationFeedback) (buckets : Buckets)
    → IsPartition buckets
    → IsPartition (add_to_bucket cf buckets)
unfolding add_to_bucket
add_to_bucket-IsPartition cf [] h = ((refl, tt), (tt, tt))
add_to_bucket-IsPartition cf ((v, list) ∷ buckets) (same, (others, h)) =
    elim (Bool-cases (v == cf.variant_id)) [
      | inl e ↦ rw e (
        All-append (λ x. x.variant_id ≡ v) list (cf ∷ []) same
            (sym ((==_iff v cf.variant_id).0 e), tt),
        (others, h),
      )
      | inr e ↦ rw e (
        same,
        (
          add_to_bucket-Other cf buckets v others (λ q. cc ((==_iff v cf.variant_id).1 (sym q), e)),
          add_to_bucket-IsPartition cf buckets h,
        ),
      )
    ]

pub add_to_bucket-All :
    (P : ConversationFeedback → Type 0) (cf : ConversationFeedback) (buckets : Buckets)
    → P cf
    → All (λ (b : Bytes × List ConversationFeedback). All P b.1) buckets
    → All (λ (b : Bytes × List ConversationFeedback). All P b.1) (add_to_bucket cf buckets)
unfolding add_to_bucket
add_to_bucket-All P cf [] p h = ((p, tt), tt)
add_to_bucket-All P cf ((v, list) ∷ buckets) p h = elim (Bool-cases (v == cf.variant_id)) [
  | inl q ↦ rw q (All-append P list (cf ∷ []) h.0 (p, tt), h.1)
  | inr q ↦ rw q (h.0, add_to_bucket-All P cf buckets p h.1)
]

keep_le : {A : Type 0} (p : A → Bool) (xs : List A) → length (keep p xs) ≤ length xs
unfolding keep
keep_le p [] = omega arith
keep_le p (x ∷ xs) = ground (arith, keep_le p xs)

length-keep-append :
    {A : Type 0} (p : A → Bool) (xs ys : List A)
    → length (keep p (xs ++ ys)) ≡ length (keep p xs) + length (keep p ys)
unfolding keep
length-keep-append p [] ys = omega arith
length-keep-append p (x ∷ xs) ys = ground (arith, length-keep-append p xs ys)

keep_nothing :
    {A : Type 0} (p : A → Bool) (xs : List A) → All (λ x. p x ≡ false) xs → length (keep p xs) ≡ 0
unfolding keep
keep_nothing p [] h = refl
keep_nothing p (x ∷ xs) h = rw h.0 (keep_nothing p xs h.1)

-- The samples selected of one bucket are samples of its variant.
select_balanced-All :
    (P : ConversationFeedback → Type 0) (list : List ConversationFeedback) (n : ℕ)
    → All P list
    → All P (select_balanced list n)
select_balanced-All P list n h = lifted (select_balanced list n) (select_balanced_lem list n).1
  where
    lifted : (xs : List ConversationFeedback) → All (λ x. Memᴰ x list) xs → All P xs
    lifted [] m = tt
    lifted (x ∷ xs) m = (All-mem P h m.0, lifted xs m.1)

pub select_all-All :
    (P : ConversationFeedback → Type 0) (n : ℕ) (buckets : Buckets)
    → All (λ (b : Bytes × List ConversationFeedback). All P b.1) buckets
    → All P (select_all n buckets)
unfolding select_all
select_all-All P n [] h = tt
select_all-All P n ((v, list) ∷ buckets) h =
    All-append P (select_balanced list n) (select_all n buckets) (select_balanced-All P list n h.0)
      (select_all-All P n buckets h.1)

of_variant_other :
    (v w : Bytes) → w ≢ v → (x : ConversationFeedback) → x.variant_id ≡ w → of_variant v x ≡ false
of_variant_other v w n x e = elim (Bool-cases (x.variant_id == v)) [
  | inl q ↦ absurd (n (sym e ∙ (==_iff x.variant_id v).0 q))
  | inr q ↦ q
]

All-map :
    {A : Type 0} {P Q : A → Type 0} (xs : List A) → ((x : A) → P x → Q x) → All P xs → All Q xs
All-map [] f h = tt
All-map (x ∷ xs) f h = (f x h.0, All-map xs f h.1)

no_sample_elsewhere :
    (v : Bytes) (n : ℕ) (buckets : Buckets)
    → IsPartition buckets
    → All (Other v) buckets
    → variant_count v (select_all n buckets) ≡ 0
unfolding select_all keep
no_sample_elsewhere v n [] h o = refl
no_sample_elsewhere v n ((w, list) ∷ buckets) (same, (others, h)) o =
    length-keep-append (of_variant v) (select_balanced list n) (select_all n buckets)
    ∙ rw
        (
          keep_nothing (of_variant v) (select_balanced list n) (
              All-map (select_balanced list n) (of_variant_other v w o.0)
                (select_balanced-All (λ x. x.variant_id ≡ w) list n same)),
          no_sample_elsewhere v n buckets h o.1,
        )
        (omega arith)

pub variant_count-select_all :
    (v : Bytes) (n : ℕ) (buckets : Buckets)
    → IsPartition buckets
    → variant_count v (select_all n buckets) ≤ n
unfolding select_all keep
variant_count-select_all v n [] h = omega arith
variant_count-select_all v n ((w, list) ∷ buckets) (same, (others, h)) =
    elim (Bool-cases (w == v)) [
      | inl e ↦
          let rest : variant_count v (select_all n buckets) ≡ 0 =
            no_sample_elsewhere v n buckets h
              (subst (λ x. All (Other x) buckets) ((==_iff w v).0 e) others) in
          omega (
            arith,
            split,
            rest,
            keep_le (of_variant v) (select_balanced list n),
            (select_balanced_lem list n).0,
          )
      | inr e ↦
          let first : variant_count v (select_balanced list n) ≡ 0 =
            keep_nothing (of_variant v) (select_balanced list n) (
              All-map (select_balanced list n)
                (of_variant_other v w (λ q. cc ((==_iff w v).1 q, e)))
                (select_balanced-All (λ x. x.variant_id ≡ w) list n same)) in
          omega (arith, split, first, variant_count-select_all v n buckets h)
    ]
  where
    split :
        variant_count v (select_balanced list n ++ select_all n buckets)
        ≡ variant_count v (select_balanced list n) + variant_count v (select_all n buckets)
    split = length-keep-append (of_variant v) (select_balanced list n) (select_all n buckets)
