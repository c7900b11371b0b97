-- ===== src/Gepa/Pareto/Laws.antt =====
-- Domination is a strict order on score vectors of one length, and the frontier is what it leaves.
use prompt_graft.Base.{
  Bool, true, false, ◌||◌, List, [], ◌∷◌, ◌≡◌, ◌⊎◌, ◌↔◌, inl, inr, arith, Bool-cases, All,
}
use prompt_graft.Base.Float.{Floats}
use prompt_graft.Gepa.Pareto.{dominates_from, dominates}

module _ (fl : Floats) where
  open fl use {F, lt, le, add, of_nat, IsNum, lt_irrefl, lt_trans, not_lt_trans}

  -- `a` is nowhere below `b`, place by place; each place of `a` has one of `b`.
  abbrev pub NowhereBelow : List F → List F → Type 0
  NowhereBelow [] b = Unit
  NowhereBelow (x ∷ a) [] = ⊥
  NowhereBelow (x ∷ a) (y ∷ b) = (lt x y ≡ false) × NowhereBelow a b

  abbrev pub SomewhereAbove : List F → List F → Type 0
  SomewhereAbove [] b = ⊥
  SomewhereAbove (x ∷ a) [] = ⊥
  SomewhereAbove (x ∷ a) (y ∷ b) = (lt y x ≡ true) ⊎ SomewhereAbove a b

  dominates_from_sound :
      (better : Bool) (a b : List F)
      → dominates_from fl better a b ≡ true
      → NowhereBelow a b × ((better ≡ true) ⊎ SomewhereAbove a b)
  unfolding dominates_from
  dominates_from_sound better [] b h = (tt, inl h)
  dominates_from_sound better (x ∷ a) [] h = cc
  dominates_from_sound better (x ∷ a) (y ∷ b) h =
      ground (arith, dominates_from_sound (better || lt y x) a b)

  dominates_from_complete :
      (better : Bool) (a b : List F)
      → NowhereBelow a b
      → (better ≡ true) ⊎ SomewhereAbove a b
      → dominates_from fl better a b ≡ true
  unfolding dominates_from
  dominates_from_complete better [] b n s = ground arith
  dominates_from_complete better (x ∷ a) [] n s = absurd n
  dominates_from_complete better (x ∷ a) (y ∷ b) n s =
      ground (arith, dominates_from_complete (better || lt y x) a b n.1)

  -- `dominates(a, b)` holds exactly when a is nowhere below b and somewhere above it; a place of a
  -- that b lacks refutes it.
  pub dominates_iff :
      (a b : List F) → (dominates fl a b ≡ true) ↔ (NowhereBelow a b × SomewhereAbove a b)
  unfolding dominates
  dominates_iff a b = (
    λ h. ground (arith, dominates_from_sound false a b),
    λ h. dominates_from_complete false a b h.0 (inr h.1),
  )

  pub lt_asymm : (a b : F) → lt a b ≡ true → lt b a ≡ false
  lt_asymm a b h = elim (Bool-cases (lt b a)) [
    | inr e ↦ e
    | inl e ↦ let loop = lt_trans a b a h e in cc (lt_irrefl a)
  ]

  not-SomewhereAbove_self : (a : List F) → SomewhereAbove a a → ⊥
  not-SomewhereAbove_self [] s = s
  not-SomewhereAbove_self (x ∷ a) (inl h) = cc (lt_irrefl x)
  not-SomewhereAbove_self (x ∷ a) (inr s) = not-SomewhereAbove_self a s

  pub dominates_irrefl : (a : List F) → dominates fl a a ≡ false
  dominates_irrefl a = elim (Bool-cases (dominates fl a a)) [
    | inr e ↦ e
    | inl e ↦ absurd (not-SomewhereAbove_self a ((dominates_iff a a).0 e).1)
  ]

  abbrev pub AllNum : List F → Type 0
  AllNum a = All IsNum a

  NowhereBelow-trans :
      (a b c : List F)
      → AllNum a
      → AllNum b
      → AllNum c
      → NowhereBelow a b
      → NowhereBelow b c
      → NowhereBelow a c
  NowhereBelow-trans [] b c na nb nc h k = tt
  NowhereBelow-trans (x ∷ a) [] c na nb nc h k = absurd h
  NowhereBelow-trans (x ∷ a) (y ∷ b) [] na nb nc h k = absurd k
  NowhereBelow-trans (x ∷ a) (y ∷ b) (z ∷ c) (nx, na) (ny, nb) (nz, nc) (h, hs) (k, ks) =
      (not_lt_trans x y z nx ny nz h k, NowhereBelow-trans a b c na nb nc hs ks)

  -- What is above at one place stays above what is nowhere above.
  lt_of_not_lt-lt :
      (x y z : F) → IsNum x → IsNum y → IsNum z → lt y x ≡ true → lt y z ≡ false → lt z x ≡ true
  lt_of_not_lt-lt x y z nx ny nz h k = elim (Bool-cases (lt z x)) [
    | inl e ↦ e
    | inr e ↦ let low = not_lt_trans y z x ny nz nx k e in cc
  ]

  lt_of_lt-not_lt :
      (x y z : F) → IsNum x → IsNum y → IsNum z → lt z y ≡ true → lt x y ≡ false → lt z x ≡ true
  lt_of_lt-not_lt x y z nx ny nz h k = elim (Bool-cases (lt z x)) [
    | inl e ↦ e
    | inr e ↦ let low = not_lt_trans z x y nz nx ny e k in cc
  ]

  SomewhereAbove-left :
      (a b c : List F)
      → AllNum a
      → AllNum b
      → AllNum c
      → SomewhereAbove a b
      → NowhereBelow b c
      → NowhereBelow a c
      → SomewhereAbove a c
  SomewhereAbove-left [] b c na nb nc s k n = absurd s
  SomewhereAbove-left (x ∷ a) [] c na nb nc s k n = absurd s
  SomewhereAbove-left (x ∷ a) (y ∷ b) [] na nb nc s k n = absurd k
  SomewhereAbove-left (x ∷ a) (y ∷ b) (z ∷ c) (nx, na) (ny, nb) (nz, nc) (inl h) (k, ks) (n, ns) =
      inl (lt_of_not_lt-lt x y z nx ny nz h k)
  SomewhereAbove-left (x ∷ a) (y ∷ b) (z ∷ c) (nx, na) (ny, nb) (nz, nc) (inr s) (k, ks) (n, ns) =
      inr (SomewhereAbove-left a b c na nb nc s ks ns)

  -- Domination is transitive on vectors with no NaN.
  pub dominates_trans :
      (a b c : List F)
      → AllNum a
      → AllNum b
      → AllNum c
      → dominates fl a b ≡ true
      → dominates fl b c ≡ true
      → dominates fl a c ≡ true
  dominates_trans a b c na nb nc h k =
      let (ab, s) = (dominates_iff a b).0 h in
      let (bc, t) = (dominates_iff b c).0 k in
      let ac = NowhereBelow-trans a b c na nb nc ab bc in
      (dominates_iff a c).1 (ac, SomewhereAbove-left a b c na nb nc s bc ac)
