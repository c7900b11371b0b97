-- ===== src/Gepa/Run/Rounds.antt =====
-- What one round of `Optimizer.Run` does to the pool.
use mathlib.Core.Option.{some-injective}
use prompt_graft.Base.{
  ℕ, ◌+◌, Bool, true, false, Option, none, some, List, [], ◌∷◌, ◌++◌, ◌≡◌, ◌⊎◌, inl, inr, refl, sym,
  Memᴰ, is_empty, if◌then◌else◌, Bytes, Bool-cases,
}
use prompt_graft.Base.Float.{Floats}
use prompt_graft.Gepa.Candidate.{Candidate, add}
use prompt_graft.Gepa.Pareto.{pareto_frontier, sample_from_frontier}
use prompt_graft.Gepa.Pareto.Frontier.{mem-frontier_iff, sample_from-mem}
use prompt_graft.Gepa.Dataset.{Dataset}
use prompt_graft.Gepa.Run.{
  Config, ReflectionResult, World, State, draw_parent, child, accept, try_child, with_batch,
  with_parent, round,
}

either_branch {ℓ κ} :
    {A : Type ℓ} (P : A → Type κ) (b : Bool) (x y : A) → P x → P y → P (if b then x else y)
either_branch P true x y p q = p
either_branch P false x y p q = q

module _ (fl : Floats) {W : Type 0} (env : World fl W) (cfg : Config fl.F) where
  open fl use {F}

  -- A child is added to the pool and to the history; its parent is of the pool.
  pub record IsBirth (i : ℕ) (st next : State F W) : Type 0 where
    pub parent : Candidate F
    pub born : Candidate F
    pub listed : Memᴰ parent st.pool
    pub descends : born.parent_id ≡ parent.id
    pub dated : born.generation ≡ i + 1
    pub pool : next.pool ≡ st.pool ++ born ∷ []
    pub history : next.history ≡ st.history ++ born ∷ []
    pub counted : next.iterations ≡ st.iterations + 1

  abbrev pub IsSame : State F W → State F W → Type 0
  IsSame st next =
      (next.pool ≡ st.pool) × (next.history ≡ st.history) × (next.iterations ≡ st.iterations)

  abbrev pub IsNext : ℕ → State F W → State F W → Type 0
  IsNext i st next = IsSame st next ⊎ IsBirth i st next

  accept-IsBirth :
      (i : ℕ) (pareto_set : Dataset fl) (st : State F W) (parent : Candidate F)
      (reflection : ReflectionResult) (prompt : Bytes) (w : W)
      → Memᴰ parent st.pool
      → IsBirth i st
          (accept fl env cfg st parent (child fl env cfg i pareto_set parent reflection prompt w))
  unfolding accept child add
  accept-IsBirth i pareto_set st parent reflection prompt w m = record {
    parent = parent;
    born = (child fl env cfg i pareto_set parent reflection prompt w).0;
    listed = m;
    descends = refl;
    dated = refl;
    pool = refl;
    history = refl;
    counted = refl;
  }

  try_child-IsNext :
      (i : ℕ) (pareto_set : Dataset fl) (frontier : List (Candidate F)) (st : State F W)
      (parent : Candidate F) (batch : Dataset fl) (w : W)
      → Memᴰ parent st.pool
      → IsNext i st (try_child fl env cfg i pareto_set frontier st parent batch w)
  unfolding try_child
  try_child-IsNext i pareto_set frontier st parent batch w m =
      either_branch (IsNext i st) _ _ _ (inl (refl, refl, refl))
        (inr (accept-IsBirth i pareto_set st parent _ _ _ m))

  with_batch-IsNext :
      (i : ℕ) (pareto_set : Dataset fl) (frontier : List (Candidate F)) (st : State F W)
      (parent : Candidate F) (drawn : Dataset fl × W) (next : State F W)
      → Memᴰ parent st.pool
      → with_batch fl env cfg i pareto_set frontier st parent drawn ≡ some next
      → IsNext i st next
  unfolding with_batch
  with_batch-IsNext i pareto_set frontier st parent (batch, w) next m e =
      elim (Bool-cases (is_empty batch)) [
        | inl empty ↦ absurd (not_next (rw empty at e))
        | inr full ↦
            let same = some-injective _ next (rw full at e) in
            rw (← same) (try_child-IsNext i pareto_set frontier st parent batch w m)
      ]
    where
      not_next : ◌≡◌ {A = Option (State F W)} none (some next) → ⊥
      not_next e = cc

  with_parent-IsNext :
      (i : ℕ) (pareto_set feedback_set : Dataset fl) (frontier : List (Candidate F))
      (st : State F W) (drawn : Option (Candidate F) × W) (next : State F W)
      → ((p : Candidate F) → drawn.0 ≡ some p → Memᴰ p st.pool)
      → with_parent fl env cfg i pareto_set feedback_set frontier st drawn ≡ some next
      → IsNext i st next
  unfolding with_parent
  with_parent-IsNext i pareto_set feedback_set frontier st (none, w) next m e = cc
  with_parent-IsNext i pareto_set feedback_set frontier st (some parent, w) next m e =
      with_batch-IsNext i pareto_set frontier st parent _ next (m parent refl) e

  -- The parent that is drawn is of the frontier.
  draw_parent-mem :
      (frontier : List (Candidate F)) (weights : List (Bytes × F)) (w : W) (p : Candidate F)
      → (draw_parent fl env cfg frontier weights w).0 ≡ some p
      → Memᴰ p frontier
  unfolding draw_parent sample_from_frontier
  draw_parent-mem [] weights w p e = cc
  draw_parent-mem (c ∷ []) weights w p e = Memᴰ.head (sym (some-injective c p e))
  draw_parent-mem (c ∷ d ∷ cs) weights w p e =
      rw (← some-injective _ p e) (sample_from-mem fl weights _ _ c (d ∷ cs))

  pub round-IsNext :
      (i : ℕ) (pareto_set feedback_set : Dataset fl) (st next : State F W)
      → round fl env cfg i pareto_set feedback_set st ≡ some next
      → IsNext i st next
  unfolding round
  round-IsNext i pareto_set feedback_set st next e =
      with_parent-IsNext i pareto_set feedback_set (pareto_frontier fl st.pool) st _ next
        (λ p drawn.
          ((mem-frontier_iff fl st.pool p).0
            (draw_parent-mem (pareto_frontier fl st.pool) st.weights st.world p drawn)).0)
        e
