-- ===== src/Gepa/Pareto/Frontier.antt =====
-- The frontier holds exactly the candidates that no candidate of the pool dominates.
use mathlib.Core.Option.{some-injective}
use prompt_graft.Base.{
  length-append, ℕ, suc, ◌+◌, Bool, true, false, not, ◌||◌, some, List, [], ◌∷◌, ◌++◌, ◌≡◌, ◌≢◌,
  ◌↔◌, inl, inr, refl, sym, ap, ◌∙◌, Memᴰ, arith, Bool-cases, All, length, append_assoc, Bytes,
  All-mem, mem-keep, mem-keep_of_mem, eqb, get_elem?, keep,
}
use prompt_graft.Base.Float.{Floats}
use prompt_graft.Gepa.Candidate.{Candidate}
use prompt_graft.Gepa.Pareto.{
  dominates, is_dominated, frontier_from, pareto_frontier, weight_of, sample_from,
}
use prompt_graft.Gepa.Pareto.Laws.{dominates_irrefl, dominates_trans, AllNum}

get_elem?-middle {ℓ} :
    {A : Type ℓ} (pre : List A) (x : A) (xs : List A)
    → get_elem? (pre ++ x ∷ xs) (length pre) ≡ some x
get_elem?-middle [] x xs = refl
get_elem?-middle (p ∷ pre) x xs = get_elem?-middle pre x xs

module _ (fl : Floats) where
  open fl use {F}

  own_place :
      (pool pre : List (Candidate F)) (c : Candidate F) (cs : List (Candidate F))
      → pool ≡ pre ++ c ∷ cs
      → (k : ℕ) (o : Candidate F) → 0 + k ≡ length pre
      → get_elem? pool k ≡ some o
      → dominates fl o.scores c.scores ≡ false
  own_place pool pre c cs e k o place g =
      let there : k ≡ length pre = omega arith in
      let here : get_elem? pool k ≡ some c = rw (e, there) (get_elem?-middle pre c cs) in
      let same : o ≡ c = some-injective o c (sym g ∙ here) in rw same (dominates_irrefl fl c.scores)

module _ (fl : Floats) where
  open fl use {F, le, add, mul, of_nat}

  -- Some candidate of a list dominates `c`.
  pub beaten : List (Candidate F) → Candidate F → Bool
  beaten [] c = false
  beaten (o ∷ pool) c = dominates fl o.scores c.scores || beaten pool c

  -- To skip the candidate's own place changes nothing.
  is_dominated-beaten :
      (i : ℕ) (c : Candidate F) (j : ℕ) (pool : List (Candidate F))
      → ((k : ℕ) (o : Candidate F)
          → j + k ≡ i
          → get_elem? pool k ≡ some o
          → dominates fl o.scores c.scores ≡ false)
      → is_dominated fl i c j pool ≡ beaten pool c
  unfolding is_dominated beaten
  is_dominated-beaten i c j [] own = refl
  is_dominated-beaten i c j (o ∷ pool) own =
      let ih = is_dominated-beaten i c (suc j) pool (λ k o' e g. own (suc k) o' (omega arith) g) in
      elim (Bool-cases (eqb j i)) [
        | inl e ↦ rw (e, own 0 o (ground arith) refl) ih
        | inr e ↦ elim (Bool-cases (dominates fl o.scores c.scores)) [
          | inl d ↦ rw (e, d)
          | inr d ↦ rw (e, d) ih
        ]
      ]

  frontier_from-keep :
      (pool : List (Candidate F)) (pre cs : List (Candidate F))
      → pool ≡ pre ++ cs
      → frontier_from fl pool (length pre) cs ≡ keep (λ c. not (beaten pool c)) cs
  unfolding frontier_from keep
  frontier_from-keep pool pre [] e = refl
  frontier_from-keep pool pre (c ∷ cs) e =
      let own = is_dominated-beaten (length pre) c 0 pool (own_place fl pool pre c cs e) in
      let longer : pool ≡ (pre ++ c ∷ []) ++ cs = e ∙ sym (append_assoc pre (c ∷ []) cs) in
      let size : length (pre ++ c ∷ []) ≡ suc (length pre) =
        omega (arith, length-append pre (c ∷ [])) in
      let ih : frontier_from fl pool (suc (length pre)) cs ≡ keep (λ d. not (beaten pool d)) cs =
        rw size at (frontier_from-keep pool (pre ++ c ∷ []) cs longer) in
      elim (Bool-cases (beaten pool c)) [
        | inl b ↦ rw (own, b) ih
        | inr b ↦ rw (own, b) (ap (λ ds. c ∷ ds) ih)
      ]

  -- The frontier is the pool without the candidates that a candidate of the pool dominates, in order.
  pub frontier-keep :
      (pool : List (Candidate F)) → pareto_frontier fl pool ≡ keep (λ c. not (beaten pool c)) pool
  unfolding pareto_frontier
  frontier-keep pool = frontier_from-keep pool [] pool refl

  beaten_sound :
      (pool : List (Candidate F)) (c : Candidate F)
      → beaten pool c ≡ true
      → (o : Candidate F) × Memᴰ o pool × (dominates fl o.scores c.scores ≡ true)
  unfolding beaten
  beaten_sound [] c h = cc
  beaten_sound (o ∷ pool) c h = elim (Bool-cases (dominates fl o.scores c.scores)) [
    | inl d ↦ (o, Memᴰ.head refl, d)
    | inr d ↦ let (o', m, d') = beaten_sound pool c (rw d at h) in (o', Memᴰ.tail m, d')
  ]

  beaten_complete :
      (pool : List (Candidate F)) (c o : Candidate F)
      → Memᴰ o pool
      → dominates fl o.scores c.scores ≡ true
      → beaten pool c ≡ true
  unfolding beaten
  beaten_complete [] c o m d = elim m [ ]
  beaten_complete (p ∷ pool) c o (Memᴰ.head same) d =
      let d' : dominates fl p.scores c.scores ≡ true = rw (← same) d in rw d'
  beaten_complete (p ∷ pool) c o (Memᴰ.tail m) d = ground (arith, beaten_complete pool c o m d)

  -- A candidate is in the frontier exactly when it is in the pool and no candidate of the pool
  -- dominates it.
  pub mem-frontier_iff :
      (pool : List (Candidate F)) (c : Candidate F)
      → Memᴰ c (pareto_frontier fl pool)
        ↔ (Memᴰ c pool × ((o : Candidate F) → Memᴰ o pool → dominates fl o.scores c.scores ≡ false))
  mem-frontier_iff pool c = (to, from)
    where
      to :
          Memᴰ c (pareto_frontier fl pool)
          → Memᴰ c pool × ((o : Candidate F) → Memᴰ o pool → dominates fl o.scores c.scores ≡ false)
      to m =
          let (there, free) =
            mem-keep (λ d. not (beaten pool d)) pool c (rw (frontier-keep pool) at m) in
          (
            there,
            λ o mo. elim (Bool-cases (dominates fl o.scores c.scores)) [
              | inr e ↦ e
              | inl e ↦ let b = beaten_complete pool c o mo e in cc free
            ],
          )

      from :
          (Memᴰ c pool × ((o : Candidate F) → Memᴰ o pool → dominates fl o.scores c.scores ≡ false))
          → Memᴰ c (pareto_frontier fl pool)
      from (there, free) = rw (frontier-keep pool) (
          mem-keep_of_mem (λ d. not (beaten pool d)) pool c there
            (elim (Bool-cases (beaten pool c)) [
              | inr e ↦ ap not e
              | inl e ↦ let (o, mo, d) = beaten_sound pool c e in let free_of = free o mo in cc
            ]))

  -- Some candidate of a pool is dominated by none of another list, when it stays on top of it.
  AllNumbers : List (Candidate F) → Type 0
  AllNumbers pool = All (λ c. AllNum fl c.scores) pool

  top_of :
      (c : Candidate F) (cs : List (Candidate F))
      → AllNum fl c.scores
      → All (λ d. AllNum fl d.scores) cs
      → (m : Candidate F) × Memᴰ m (c ∷ cs)
        × AllNum fl m.scores
        × All (λ o. dominates fl o.scores m.scores ≡ false) (c ∷ cs)
  top_of c [] n ns = (c, Memᴰ.head refl, n, (dominates_irrefl fl c.scores, tt))
  top_of c (d ∷ cs) n (nd, ns) =
      let (m, mem, nm, free) = top_of d cs nd ns in
      elim (Bool-cases (dominates fl c.scores m.scores)) [
        | inr e ↦ (m, Memᴰ.tail mem, nm, (e, free))
        | inl e ↦ (
          c,
          Memᴰ.head refl,
          n,
          (dominates_irrefl fl c.scores, above c m n nm e (d ∷ cs) (nd, ns) free),
        )
      ]
    where
      above :
          (c m : Candidate F)
          → AllNum fl c.scores
          → AllNum fl m.scores
          → dominates fl c.scores m.scores ≡ true
          → (os : List (Candidate F)) → All (λ d. AllNum fl d.scores) os
          → All (λ o. dominates fl o.scores m.scores ≡ false) os
          → All (λ o. dominates fl o.scores c.scores ≡ false) os
      above c m n nm e [] ns free = tt
      above c m n nm e (o ∷ os) (num, ns) (f, free) = (
        elim (Bool-cases (dominates fl o.scores c.scores)) [
          | inr x ↦ x
          | inl x ↦ let t = dominates_trans fl o.scores c.scores m.scores num n nm x e in cc
        ],
        above c m n nm e os ns free,
      )

  -- A pool that is not empty has a frontier that is not empty, if no score is NaN: the search for
  -- better prompts always has a parent.
  pub frontier-ne-nil :
      (c : Candidate F) (cs : List (Candidate F))
      → All (λ d. AllNum fl d.scores) (c ∷ cs)
      → pareto_frontier fl (c ∷ cs) ≢ []
  frontier-ne-nil c cs (n, ns) e =
      let (m, mem, nm, free) = top_of c cs n ns in
      let there = (mem-frontier_iff (c ∷ cs) m).1 (
        mem,
        λ o mo. All-mem (λ (o : Candidate F). dominates fl o.scores m.scores ≡ false) free mo,
      ) in
      no_member m (rw e at there)
    where
      no_member : (m : Candidate F) → Memᴰ m [] → ⊥
      no_member m x = elim x [ ]

  pub sample_from-mem :
      (weights : List (Bytes × F)) (r cum : F) (c : Candidate F) (cs : List (Candidate F))
      → Memᴰ (sample_from fl weights r cum c cs) (c ∷ cs)
  unfolding sample_from
  sample_from-mem weights r cum c [] = Memᴰ.head refl
  sample_from-mem weights r cum c (d ∷ cs) =
      elim (Bool-cases (le r (add cum (add (weight_of fl weights c.id) (of_nat 1))))) [
        | inl e ↦ rw e (Memᴰ.head refl)
        | inr e ↦ rw e (
            Memᴰ.tail (
              sample_from-mem weights r (add cum (add (weight_of fl weights c.id) (of_nat 1))) d
                cs))
      ]
