-- ===== src/Text/Search.antt =====
-- What a search for a text in a text says.
use prompt_graft.Base.{
  true, [], ◌∷◌, ◌++◌, ◌≡◌, refl, ap, ap, inl, inr, length, drop, eqb_iff, Bytes, arith,
  append_assoc, Bool-cases,
}
use prompt_graft.Text.{has_prefix, contains}

pub has_prefix-append : (p s : Bytes) → has_prefix (p ++ s) p ≡ true
unfolding has_prefix
has_prefix-append [] s = unfold has_prefix in refl
has_prefix-append (b ∷ p) s = ground (arith, has_prefix-append p s)

-- A text with a prefix is that prefix and the rest.
pub eq-append_of_has_prefix : (s p : Bytes) → has_prefix s p ≡ true → s ≡ p ++ drop (length p) s
unfolding has_prefix
eq-append_of_has_prefix [] [] h = refl
eq-append_of_has_prefix (a ∷ s) [] h = refl
eq-append_of_has_prefix [] (b ∷ p) h = cc
eq-append_of_has_prefix (a ∷ s) (b ∷ p) h = ground (arith, eqb_iff a b, eq-append_of_has_prefix s p)

pub contains-append : (pre p suf : Bytes) → contains (pre ++ p ++ suf) p ≡ true
unfolding contains
contains-append [] [] [] = refl
contains-append [] [] (c ∷ suf) = refl
contains-append [] (b ∷ p) suf = ground (arith, has_prefix-append (b ∷ p) suf)
contains-append (a ∷ pre) p suf = ground (arith, contains-append pre p suf)

-- The text around an occurrence.
pub occurrence_of_contains :
    (s p : Bytes) → contains s p ≡ true → (pre : Bytes) × (suf : Bytes) × (s ≡ pre ++ p ++ suf)
unfolding contains
occurrence_of_contains [] p h = ([], _, eq-append_of_has_prefix [] p h)
occurrence_of_contains (a ∷ s) p h = elim (Bool-cases (has_prefix (a ∷ s) p)) [
  | inl here ↦ ([], _, eq-append_of_has_prefix (a ∷ s) p here)
  | inr later ↦
      let (pre, suf, e) = occurrence_of_contains s p (ground arith) in
      (a ∷ pre, suf, ap (λ t. a ∷ t) e)
]

-- A text that holds a longer text holds each part of it.
pub contains-part :
    (s pre p suf : Bytes) → contains s (pre ++ p ++ suf) ≡ true → contains s p ≡ true
contains-part s pre p suf h =
    let (a, b, e) = occurrence_of_contains s (pre ++ p ++ suf) h in
    rw e (
      let regroup : a ++ (pre ++ p ++ suf) ++ b ≡ (a ++ pre) ++ p ++ (suf ++ b) =
        simp append_assoc in
      rw regroup (contains-append (a ++ pre) p (suf ++ b)))
