-- ===== src/Text/Replace.antt =====
-- Replacing the first occurrence.
use prompt_graft.Base.{
  ℕ, zero, suc, ◌<◌, sym, append-nil, true, false, [], ◌∷◌, ◌++◌, ◌≡◌, refl, ap, inl, inr, length,
  drop, Bytes, arith, Bool-cases,
}
use prompt_graft.Text.{has_prefix, contains, replace_first}
use prompt_graft.Text.Search.{eq-append_of_has_prefix}

-- The first occurrence is replaced and the text around it is kept. No earlier place holds one.
pub record IsReplaced (s old new out : Bytes) : Type 0 where
  pub before : Bytes
  pub after : Bytes
  pub source : s ≡ before ++ old ++ after
  pub earliest : (k : ℕ) → k < length before → has_prefix (drop k s) old ≡ false
  pub result : out ≡ before ++ new ++ after

earlier_at :
    (a : ℕ) (s old : Bytes)
    → has_prefix (a ∷ s) old ≡ false
    → (before : Bytes) → ((k : ℕ) → k < length before → has_prefix (drop k s) old ≡ false)
    → (k : ℕ) → k < length (a ∷ before)
    → has_prefix (drop k (a ∷ s)) old ≡ false
earlier_at a s old e before h zero lt = e
earlier_at a s old e before h (suc k) lt = h k (omega arith)

pub replace_first-IsReplaced :
    (s old new : Bytes) → contains s old ≡ true → IsReplaced s old new (replace_first s old new)
unfolding contains replace_first
replace_first-IsReplaced [] [] new h = record {
  before = [];
  after = [];
  source = refl;
  earliest = λ k lt. absurd (omega arith);
  result = sym (append-nil new);
}
replace_first-IsReplaced [] (b ∷ p) new h = cc
replace_first-IsReplaced (a ∷ s) old new h = elim (Bool-cases (has_prefix (a ∷ s) old)) [
  | inl here ↦ record {
    before = [];
    after = drop (length old) (a ∷ s);
    source = eq-append_of_has_prefix (a ∷ s) old here;
    earliest = λ k lt. absurd (omega arith);
    result = rw here;
  }
  | inr later ↦
      let ih = replace_first-IsReplaced s old new (ground arith) in
      record {
        before = a ∷ ih.before;
        after = ih.after;
        source = ap (λ t. a ∷ t) ih.source;
        earliest = earlier_at a s old later ih.before ih.earliest;
        result = rw later (ap (λ t. a ∷ t) ih.result);
      }
]

-- A text that does not hold the old one is unchanged.
pub replace_first_absent :
    (s old new : Bytes) → contains s old ≡ false → replace_first s old new ≡ s
unfolding contains replace_first
replace_first_absent [] old new h = rw h
replace_first_absent (a ∷ s) old new h = ground (arith, replace_first_absent s old new)
