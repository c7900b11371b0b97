-- ===== src/Optimizer/Prompts/Laws.antt =====
-- What the driver makes of the samples and of the model's answer.
use prompt_graft.Base.{
  sym, subst, true, false, Option, List, [], ◌∷◌, ◌≡◌, ◌≢◌, ◌↔◌, inl, inr, refl, is_empty, Bytes,
  arith, Bool-cases, All,
}
use prompt_graft.Base.Int.{ℤ, pos, negsuc, eqb_ℤ}
use prompt_graft.Text.{has_prefix, trim_space}
use prompt_graft.Store.Types.{ConversationFeedback}
use prompt_graft.Optimizer.Prompts.{
  is_positive_sample, all_from, all_positive, cleaned, clean_candidates, parse_candidates,
  common_prefix, shared_from, derive_template,
}

-- Every candidate that is kept is a text that is not empty.
clean_candidates-ne-nil : (list : List Bytes) → All (λ c. c ≢ []) (clean_candidates list)
unfolding clean_candidates
clean_candidates-ne-nil [] = tt
clean_candidates-ne-nil (s ∷ list) = elim (Bool-cases (is_empty (cleaned s))) [
  | inl e ↦ rw e (clean_candidates-ne-nil list)
  | inr e ↦ rw e (filled (cleaned s) e, clean_candidates-ne-nil list)
]
  where
    filled : (c : Bytes) → is_empty c ≡ false → c ≢ []
    filled [] e h = cc
    filled (x ∷ c) e h = cc

-- Whatever the model answers, no candidate that is parsed from it is empty.
pub parse_candidates-ne-nil :
    (decode : Bytes → Option (List Bytes)) (raw : Bytes)
    → All (λ c. c ≢ []) (parse_candidates decode raw)
unfolding parse_candidates
parse_candidates-ne-nil decode raw = elim (Bool-cases (is_empty (trim_space raw))) [
  | inl e ↦ rw e tt
  | inr e ↦ rw e (clean_candidates-ne-nil _)
]

all_from_iff :
    (samples : List ConversationFeedback)
    → (all_from samples ≡ true) ↔ All (λ s. s.score ≡ pos 1) samples
unfolding all_from
all_from_iff samples = (to samples, from samples)
  where
    to : (ss : List ConversationFeedback) → all_from ss ≡ true → All (λ s. s.score ≡ pos 1) ss
    to [] e = tt
    to (s ∷ ss) e = elim (Bool-cases (is_positive_sample s)) [
      | inl up ↦ (one s.score up, to ss (rw up at e))
      | inr low ↦ absurd (not_true (rw low at e))
    ]
      where
        one : (z : ℤ) → eqb_ℤ z (pos 1) ≡ true → z ≡ pos 1
        one (pos n) e = ground arith
        one (negsuc n) e = ground arith

        not_true : false ≡ true → ⊥
        not_true e = cc

    from : (ss : List ConversationFeedback) → All (λ s. s.score ≡ pos 1) ss → all_from ss ≡ true
    from [] h = refl
    from (s ∷ ss) (e, h) = rw e (from ss h)

-- Samples count as all positive exactly when there is one and each has the score 1.
pub all_positive_iff :
    (samples : List ConversationFeedback)
    → (all_positive samples ≡ true) ↔ ((samples ≢ []) × All (λ s. s.score ≡ pos 1) samples)
unfolding all_positive
all_positive_iff [] = (λ e. cc, λ h. absurd (h.0 refl))
all_positive_iff (s ∷ samples) =
    (λ e. (λ h. cc, (all_from_iff (s ∷ samples)).0 e), λ h. (all_from_iff (s ∷ samples)).1 h.1)

has_prefix_refl : (s : Bytes) → has_prefix s s ≡ true
unfolding has_prefix
has_prefix_refl [] = refl
has_prefix_refl (x ∷ s) = ground (arith, has_prefix_refl s)

has_prefix_trans :
    (a b c : Bytes) → has_prefix a b ≡ true → has_prefix b c ≡ true → has_prefix a c ≡ true
unfolding has_prefix
has_prefix_trans a b [] e f = ground arith
has_prefix_trans a [] (z ∷ c) e f = cc
has_prefix_trans [] (y ∷ b) (z ∷ c) e f = cc
has_prefix_trans (x ∷ a) (y ∷ b) (z ∷ c) e f = ground (arith, has_prefix_trans a b c)

has_prefix-common_prefix :
    (a b : Bytes)
    → (has_prefix a (common_prefix a b) ≡ true) × (has_prefix b (common_prefix a b) ≡ true)
unfolding common_prefix has_prefix
has_prefix-common_prefix [] b = (refl, ground arith)
has_prefix-common_prefix (x ∷ a) [] = (refl, refl)
has_prefix-common_prefix (x ∷ a) (y ∷ b) =
    let (left, right) = has_prefix-common_prefix a b in (ground arith, ground arith)

common_prefix_longest :
    (a b p : Bytes)
    → has_prefix a p ≡ true
    → has_prefix b p ≡ true
    → has_prefix (common_prefix a b) p ≡ true
unfolding common_prefix has_prefix
common_prefix_longest a b [] e f = ground arith
common_prefix_longest [] b (z ∷ p) e f = cc
common_prefix_longest (x ∷ a) [] (z ∷ p) e f = cc
common_prefix_longest (x ∷ a) (y ∷ b) (z ∷ p) e f = ground (arith, common_prefix_longest a b p)

-- `t` is a prefix of every sample's prompt, and any common prefix is a prefix of it.
pub record IsSharedPrefix (samples : List ConversationFeedback) (t : Bytes) : Type 0 where
  pub shared : All (λ s. has_prefix s.prompt t ≡ true) samples
  pub longest :
      (p : Bytes) → All (λ s. has_prefix s.prompt p ≡ true) samples → has_prefix t p ≡ true

prefix_of_nil :
    (samples : List ConversationFeedback) → All (λ s. has_prefix s.prompt [] ≡ true) samples
unfolding has_prefix
prefix_of_nil [] = tt
prefix_of_nil (s ∷ samples) = (ground arith, prefix_of_nil samples)

empty_nil : (b : Bytes) → is_empty b ≡ true → b ≡ []
empty_nil [] e = refl
empty_nil (x ∷ b) e = cc

shared_from_start : (template : Bytes) → shared_from template [] ≡ template
unfolding shared_from
shared_from_start template = refl

shared_from_stop :
    (template : Bytes) (s : ConversationFeedback) (samples : List ConversationFeedback)
    → is_empty (common_prefix template s.prompt) ≡ true
    → shared_from template (s ∷ samples) ≡ []
unfolding shared_from
shared_from_stop template s samples e = rw e (empty_nil _ e)

shared_from_step :
    (template : Bytes) (s : ConversationFeedback) (samples : List ConversationFeedback)
    → is_empty (common_prefix template s.prompt) ≡ false
    → shared_from template (s ∷ samples) ≡ shared_from (common_prefix template s.prompt) samples
unfolding shared_from
shared_from_step template s samples e = rw e refl

-- What `shared_from` has of the template that it began with and of the samples.
abbrev IsShared : Bytes → List ConversationFeedback → Bytes → Type 0
IsShared template samples t =
    (has_prefix template t ≡ true)
    × All (λ s. has_prefix s.prompt t ≡ true) samples
    × ((p : Bytes)
        → has_prefix template p ≡ true
        → All (λ s. has_prefix s.prompt p ≡ true) samples
        → has_prefix t p ≡ true)

IsShared-stop :
    (template : Bytes) (s : ConversationFeedback) (samples : List ConversationFeedback)
    → is_empty (common_prefix template s.prompt) ≡ true
    → IsShared template (s ∷ samples) []
unfolding has_prefix
IsShared-stop template s samples e = (
  ground arith,
  (ground arith, prefix_of_nil samples),
  λ p f h.
      rw (empty_nil (common_prefix template s.prompt) e) at
        (common_prefix_longest template s.prompt p f h.0),
)

shared_from-IsShared :
    (template : Bytes) (samples : List ConversationFeedback)
    → IsShared template samples (shared_from template samples)
shared_from-IsShared template [] =
    subst (IsShared template []) (sym (shared_from_start template))
      (has_prefix_refl template, tt, λ p e h. e)
shared_from-IsShared template (s ∷ samples) =
    let shorter = common_prefix template s.prompt in
    let (left, right) = has_prefix-common_prefix template s.prompt in
    elim (Bool-cases (is_empty (common_prefix template s.prompt))) [
      | inl e ↦
          subst (IsShared template (s ∷ samples)) (sym (shared_from_stop template s samples e))
            (IsShared-stop template s samples e)
      | inr e ↦
          let (down, all, most) = shared_from-IsShared shorter samples in
          let rest = shared_from shorter samples in
          subst (IsShared template (s ∷ samples)) (sym (shared_from_step template s samples e)) (
            has_prefix_trans template shorter rest left down,
            (has_prefix_trans s.prompt shorter rest right down, all),
            λ p f h. most p (common_prefix_longest template s.prompt p f h.0) h.1,
          )
    ]

-- The template that is inferred from samples is the longest common prefix of their prompts, trimmed.
derive_template_lem :
    (s : ConversationFeedback) (samples : List ConversationFeedback)
    → (t : Bytes) × (derive_template (s ∷ samples) ≡ trim_space t) × IsSharedPrefix (s ∷ samples) t
unfolding derive_template
derive_template_lem s samples =
    let (down, all, most) = shared_from-IsShared s.prompt samples in
    (
      shared_from s.prompt samples,
      refl,
      record { shared = (down, all); longest = λ p h. most p h.0 h.1 },
    )
