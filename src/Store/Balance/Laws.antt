-- ===== src/Store/Balance/Laws.antt =====
-- How many samples selectBalanced selects, and which.
use prompt_graft.Base.{
  ap, sym, subst, ◌∙◌, ℕ, zero, suc, ◌+◌, ◌-◌, ◌≤◌, min, Bool, true, false, List, [], ◌∷◌, ◌++◌,
  ◌≡◌, inl, inr, refl, is_empty, length, length-append, keep, mem-keep, Memᴰ, eqb, if◌then◌else◌,
  arith, Bool-cases, All, All-append,
}
use prompt_graft.Base.Int.{ℤ, pos, negsuc, eqb_ℤ}
use prompt_graft.Store.Types.{ConversationFeedback}
use prompt_graft.Store.Balance.{take_one, balance, is_up, is_down, is_flat, select_balanced}

length-take_one {ℓ} :
    {A : Type ℓ} (left : ℕ) (xs : List A)
    → (length (take_one left xs).0 ≡ min 1 (min left (length xs)))
      × (length (take_one left xs).1 ≡ length xs - length (take_one left xs).0)
unfolding take_one
length-take_one zero xs = (omega arith, omega arith)
length-take_one (suc left) [] = (omega arith, omega arith)
length-take_one (suc left) (x ∷ xs) = (omega arith, omega arith)

is_empty-length {ℓ} : {A : Type ℓ} (xs : List A) → is_empty xs ≡ true → length xs ≡ 0
is_empty-length [] e = refl
is_empty-length (x ∷ xs) e = cc

length-append₃ {ℓ} :
    {A : Type ℓ} (xs ys zs : List A) → length (xs ++ ys ++ zs) ≡ length xs + (length ys + length zs)
length-append₃ xs ys zs = omega (arith, length-append (xs ++ ys) zs, length-append xs ys)

-- The numbers of a pass that takes nothing, and of one that takes something.
pass_none :
    (l u d f a b c : ℕ)
    → a ≡ min 1 (min l u)
    → b ≡ min 1 (min (l - a) d)
    → c ≡ min 1 (min (l - a - b) f)
    → a + (b + c) ≡ 0
    → 0 ≡ min l (u + (d + f))
pass_none l u d f a b c x y z e = omega arith

taken_few : (l u a : ℕ) → a ≡ min 1 (min l u) → (a ≤ l) × (a ≤ u)
taken_few l u a x = (omega arith, omega arith)

pass_rest :
    (l u d f a b c : ℕ)
    → a ≤ l
    → a ≤ u
    → b ≤ l - a
    → b ≤ d
    → c ≤ l - a - b
    → c ≤ f
    → (a + (b + c)) + min (l - a - b - c) ((u - a) + ((d - b) + (f - c))) ≡ min l (u + (d + f))
pass_rest l u d f a b c p q r s t v = omega arith

pass_some :
    (l u d f a b c : ℕ)
    → a ≡ min 1 (min l u)
    → b ≡ min 1 (min (l - a) d)
    → c ≡ min 1 (min (l - a - b) f)
    → (a + (b + c)) + min (l - a - b - c) ((u - a) + ((d - b) + (f - c))) ≡ min l (u + (d + f))
pass_some l u d f a b c x y z =
    let (p, q) = taken_few l u a x in
    let (r, s) = taken_few (l - a) d b y in
    let (t, v) = taken_few (l - a - b) f c z in pass_rest l u d f a b c p q r s t v

length-balance {ℓ} :
    {A : Type ℓ} (k left : ℕ) (up down flat : List A)
    → left ≤ k
    → length (balance k left up down flat) ≡ min left (length up + (length down + length flat))
unfolding balance
length-balance zero left up down flat h = omega (arith, h)
length-balance {A = A} (suc k) left up down flat h =
    let a = length (take_one left up).0 in
    let b = length (take_one (left - a) down).0 in
    let c = length (take_one (left - a - b) flat).0 in
    let first = take_one left up in
    let second = take_one (left - a) down in
    let third = take_one (left - a - b) flat in
    let (x, x') = length-take_one left up in
    let (y, y') = length-take_one (left - a) down in
    let (z, z') = length-take_one (left - a - b) flat in
    let taken = length-append₃ first.0 second.0 third.0 in
    elim (Bool-cases (is_empty (first.0 ++ second.0 ++ third.0))) [
      | inl e ↦
          let none_taken = is_empty-length (first.0 ++ second.0 ++ third.0) e in
          rw e (
            pass_none left (length up) (length down) (length flat) a b c x y z
              (sym taken ∙ none_taken))
      | inr e ↦
          let one : 1 ≤ a + (b + c) =
            subst (λ n. 1 ≤ n) taken (not-is_empty-length (first.0 ++ second.0 ++ third.0) e) in
          let rest = length-balance k (left - a - b - c) first.1 second.1 third.1 (omega arith) in
          rw e (
            length-append (first.0 ++ second.0 ++ third.0) _
            ∙ ap₂ ◌+◌ taken (rest ∙ ap₂ (λ m n. min (left - a - b - c) (m + n)) x' (ap₂ ◌+◌ y' z'))
            ∙ pass_some left (length up) (length down) (length flat) a b c x y z)
    ]
  where
    ap₂ : (f : ℕ → ℕ → ℕ) {m n p q : ℕ} → m ≡ n → p ≡ q → f m p ≡ f n q
    ap₂ f e g = rw (e, g) refl

    not-is_empty-length : (xs : List A) → is_empty xs ≡ false → 1 ≤ length xs
    not-is_empty-length [] e = cc
    not-is_empty-length (x ∷ xs) e = omega arith

module _ {ℓ κ} {A : Type ℓ} (P : A → Type κ) where
  take_one-All :
      (left : ℕ) (xs : List A) → All P xs → All P (take_one left xs).0 × All P (take_one left xs).1
  unfolding take_one
  take_one-All zero xs h = (tt, h)
  take_one-All (suc left) [] h = (tt, tt)
  take_one-All (suc left) (x ∷ xs) (p, h) = ((p, tt), h)

  -- What holds of every bucket holds of the selection.
  balance-All :
      (k left : ℕ) (up down flat : List A)
      → All P up
      → All P down
      → All P flat
      → All P (balance k left up down flat)
  unfolding balance
  balance-All zero left up down flat u d f = tt
  balance-All (suc k) left up down flat u d f =
      let (first, up_left) = take_one-All left up u in
      let (second, down_left) = take_one-All _ down d in
      let (third, flat_left) = take_one-All _ flat f in
      chosen _ _ _ (All-append P _ _ (All-append P _ _ first second) third)
        (balance-All k _ _ _ _ up_left down_left flat_left)
    where
      chosen :
          (b : Bool) (xs ys : List A) → All P xs → All P ys → All P (if b then [] else xs ++ ys)
      chosen true xs ys p q = tt
      chosen false xs ys p q = All-append P xs ys p q

apart : (z : ℤ) → eqb_ℤ z (pos 1) ≡ true → eqb_ℤ z (negsuc 0) ≡ true → ⊥
apart (pos n) e f = cc
apart (negsuc n) e f = cc

length-buckets :
    (list : List ConversationFeedback)
    → length (keep is_up list) + (length (keep is_down list) + length (keep is_flat list))
      ≡ length list
unfolding keep
length-buckets [] = omega arith
length-buckets (item ∷ list) = placed (is_up item) (is_down item) refl refl (length-buckets list)
  where
    placed :
        (u d : Bool)
        → is_up item ≡ u
        → is_down item ≡ d
        → length (keep is_up list) + (length (keep is_down list) + length (keep is_flat list))
          ≡ length list
        → length (if is_up item then item ∷ keep is_up list else keep is_up list)
            + (length (if is_down item then item ∷ keep is_down list else keep is_down list)
                + length (if is_flat item then item ∷ keep is_flat list else keep is_flat list))
          ≡ suc (length list)
    placed true true e f h = absurd (apart item.score e f)
    placed true false e f h = rw (e, f) (omega arith)
    placed false true e f h = rw (e, f) (omega arith)
    placed false false e f h = rw (e, f) (omega arith)

listed :
    (p : ConversationFeedback → Bool) (list : List ConversationFeedback)
    → All (λ item. Memᴰ item list) (keep p list)
listed p list = each (keep p list) (λ item m. (mem-keep p list item m).0)
  where
    each :
        (xs : List ConversationFeedback)
        → ((x : ConversationFeedback) → Memᴰ x xs → Memᴰ x list)
        → All (λ item. Memᴰ item list) xs
    each [] h = tt
    each (x ∷ xs) h = (h x (Memᴰ.head refl), each xs (λ y m. h y (Memᴰ.tail m)))

pub select_balanced_lem :
    (list : List ConversationFeedback) (n : ℕ)
    → (length (select_balanced list n) ≡ min n (length list))
      × All (λ item. Memᴰ item list) (select_balanced list n)
unfolding select_balanced
select_balanced_lem list n = elim (Bool-cases (eqb n 0)) [
  | inl e ↦ rw e (ground arith, tt)
  | inr e ↦ rw e (filled list)
]
  where
    filled :
        (xs : List ConversationFeedback)
        → (length (
              if is_empty xs
              then []
              else balance n n (keep is_up xs) (keep is_down xs) (keep is_flat xs))
            ≡ min n (length xs))
          × All
              (λ item. Memᴰ item xs)
              (if is_empty xs
                then []
                else balance n n (keep is_up xs) (keep is_down xs) (keep is_flat xs))
    filled [] = (omega arith, tt)
    filled (x ∷ xs) = (
      length-balance n n _ _ _ (omega arith) ∙ ap (min n) (length-buckets (x ∷ xs)),
      balance-All _ n n _ _ _ (listed is_up (x ∷ xs)) (listed is_down (x ∷ xs))
          (listed is_flat (x ∷ xs)),
    )
