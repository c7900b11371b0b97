-- ===== src/Gepa/Scorer.antt =====
-- internal/optimizer/gepa/scorer.go. A token set is the list of its tokens, each once; the constants
-- 0.5 and 0.1 are quotients of whole numbers.
use prompt_graft.Base.{
  sym, subst, ℕ, Bool, true, false, ◌&&◌, ◌||◌, List, [], ◌∷◌, ◌≡◌, ◌⊎◌, inl, inr, refl, map,
  is_empty, length, keep, eqb, if◌then◌else◌, Bytes, ◌==◌, Bool-cases,
}
use prompt_graft.Base.Float.{Floats}
use prompt_graft.Text.{contains, fields, to_lower}
use prompt_graft.Gepa.Dataset.{DataPoint, Dataset}

unfoldable pub has_token : List Bytes → Bytes → Bool
has_token [] t = false
has_token (x ∷ xs) t = if x == t then true else has_token xs t

unfoldable pub distinct : List Bytes → List Bytes
distinct [] = []
distinct (x ∷ xs) = let rest = distinct xs in if has_token rest x then rest else x ∷ rest

unfoldable pub token_set : Bytes → List Bytes
token_set s = distinct (fields (to_lower s))

unfoldable pub overlap : List Bytes → List Bytes → ℕ
overlap prompt_tokens input_tokens = length (keep (has_token input_tokens) prompt_tokens)

module _ (fl : Floats) where
  open fl use {F, add, div, of_nat, lt, le}

  abbrev pub half : F
  half = div (of_nat 1) (of_nat 2)

  abbrev pub tenth : F
  tenth = div (of_nat 1) (of_nat 10)

  unfoldable pub clamped : F → F
  clamped score = if lt score tenth then tenth else if lt (of_nat 1) score then of_nat 1 else score

  unfoldable pub similarity_score : Bytes → Bytes → F
  similarity_score prompt input =
      let prompt_tokens = token_set prompt in
      let input_tokens = token_set input in
      if is_empty prompt || is_empty input
      then half
      else if is_empty prompt_tokens || is_empty input_tokens
      then half
      else if eqb (length prompt_tokens) 0
      then half
      else clamped
          (div (of_nat (overlap prompt_tokens input_tokens)) (of_nat (length prompt_tokens)))

  abbrev is_zero : F → Bool
  is_zero x = le x (of_nat 0) && le (of_nat 0) x

  unfoldable pub feedback_score : Bytes → DataPoint F → F
  feedback_score prompt d =
      if is_zero d.rating
      then similarity_score prompt d.input
      else div (add d.rating (of_nat 1)) (of_nat 2)

  unfoldable pub feedback_scorer : Bytes → Dataset fl → List F
  feedback_scorer prompt points = map (feedback_score prompt) points

  unfoldable pub exact_match_scorer : Bytes → Bytes → Dataset fl → List F
  exact_match_scorer expected_output prompt points =
      map (λ d. if contains d.output expected_output then of_nat 1 else of_nat 0) points

  -- A score in the bounds: a half, a tenth, one, or a value that is not below a tenth nor above one.
  abbrev pub IsBounded : F → Type 0
  IsBounded x =
      (x ≡ half)
      ⊎ ((x ≡ tenth) ⊎ ((x ≡ of_nat 1) ⊎ ((lt x tenth ≡ false) × (lt (of_nat 1) x ≡ false))))

  clamped-IsBounded : (x : F) → IsBounded (clamped x)
  unfolding clamped
  clamped-IsBounded x = elim (Bool-cases (lt x tenth)) [
    | inl low ↦ rw low (inr (inl refl))
    | inr high ↦ elim (Bool-cases (lt (of_nat 1) x)) [
      | inl above ↦ rw (high, above) (inr (inr (inl refl)))
      | inr below_one ↦ rw (high, below_one) (inr (inr (inr (high, below_one))))
    ]
  ]

  either_half :
      (a b c : Bool) (x : F)
      → IsBounded x
      → IsBounded (if a then half else if b then half else if c then half else x)
  either_half true b c x h = inl refl
  either_half false true c x h = inl refl
  either_half false false true x h = inl refl
  either_half false false false x h = h

  similarity_score-IsBounded : (prompt input : Bytes) → IsBounded (similarity_score prompt input)
  unfolding similarity_score
  similarity_score-IsBounded prompt input =
      let p = token_set prompt in
      let i = token_set input in
      let score = div (of_nat (overlap p i)) (of_nat (length p)) in
      either_half (is_empty prompt || is_empty input) (is_empty p || is_empty i) (eqb (length p) 0)
        (clamped score) (clamped-IsBounded score)

  feedback_score_unrated :
      (prompt : Bytes) (d : DataPoint F)
      → (le d.rating (of_nat 0) && le (of_nat 0) d.rating) ≡ true
      → feedback_score prompt d ≡ similarity_score prompt d.input
  unfolding feedback_score
  feedback_score_unrated prompt d e = rw e refl

  -- The score of a data point whose rating is zero is a half, a tenth, one, or a value that is not below
  -- a tenth nor above one, whatever the texts are. With another rating the prompt has no part in it.
  pub feedback_score-IsBounded :
      (prompt : Bytes) (d : DataPoint F)
      → ((le d.rating (of_nat 0) && le (of_nat 0) d.rating) ≡ true
          → IsBounded (feedback_score prompt d))
        × ((le d.rating (of_nat 0) && le (of_nat 0) d.rating) ≡ false
            → (other : Bytes) → feedback_score prompt d ≡ feedback_score other d)
  unfolding feedback_score
  feedback_score-IsBounded prompt d = (
    λ e.
        subst IsBounded (sym (feedback_score_unrated prompt d e))
          (similarity_score-IsBounded prompt d.input),
    λ e other. rw e refl,
  )
