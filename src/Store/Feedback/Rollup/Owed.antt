-- ===== src/Store/Feedback/Rollup/Owed.antt =====
-- The votes that the conversations' hashes owe (internal/store/redis/feedback.go), and the kinds of keys.
use prompt_graft.Base.{
  ℕ, ◌+◌, Bool, true, false, ◌&&◌, List, [], ◌∷◌, ◌++◌, ◌≡◌, ◌≢◌, ◌⊎◌, inl, inr, refl, ◌∙◌, sym, ap,
  subst, if◌then◌else◌, Bytes, ◌==◌, ==_iff, arith, All, Memᴰ, Bool-cases,
}
use prompt_graft.Base.Int.{ℤ, pos, negsuc}
use prompt_graft.Base.Decimal.{parse_int}
use prompt_graft.Text.{has_prefix}
use prompt_graft.Text.Search.{eq-append_of_has_prefix}
use prompt_graft.Store.Types.{SessionRef}
use prompt_graft.Store.Keys.{key_feedback, key_session_feedback, key_conversation_feedback}
use prompt_graft.Store.Feedback.{up, down, variant_field}
use prompt_graft.Store.Feedback.Rollup.{target}

-- What all hashes hold.
abbrev pub View : Type 0
View = Bytes → Bytes → Bytes

abbrev pub clear : Bytes → View → View
clear k v j g = if k == j then [] else v j g

abbrev pub gain : ℤ → ℕ
gain (pos n) = n
gain (negsuc n) = 0

-- The votes under `f` that the conversations of the list owe to a hash, each of them once.
abbrev pub owed : SessionRef → Bytes → Bytes → View → List Bytes → ℕ
owed ref t f v [] = 0
owed ref t f v (k ∷ ks) =
    (if target ref (v k variant_field) == t then gain (parse_int (v k f)) else 0)
    + owed ref t f (clear k v) ks

-- SCAN gives only keys that match its pattern.
abbrev pub IsRated : SessionRef → Bytes → Type 0
IsRated ref k = has_prefix k (key_conversation_feedback ref.key_hash ref.session_id []) ≡ true

abbrev pub IsVote : Bytes → Type 0
IsVote f = (f ≡ up) ⊎ (f ≡ down)

-- The byte that tells the kinds of keys apart.
abbrev pub kind : Bytes → ℕ
kind (a ∷ b ∷ c ∷ d ∷ s) = d
kind _ = 0

pub IsRated-kind : (ref : SessionRef) (k : Bytes) → IsRated ref k → kind k ≡ b'c'
unfolding key_conversation_feedback
IsRated-kind ref k h =
    ap kind (eq-append_of_has_prefix k (key_conversation_feedback ref.key_hash ref.session_id []) h)

pub target-kind : (ref : SessionRef) (variant : Bytes) → kind (target ref variant) ≢ b'c'
unfolding key_feedback key_session_feedback
target-kind ref [] e = omega arith
target-kind ref (x ∷ variant) e = omega arith

pub target-apart :
    (ref : SessionRef) (variant k : Bytes) → IsRated ref k → (target ref variant == k) ≡ false
target-apart ref variant k h = elim (Bool-cases (target ref variant == k)) [
  | inl same ↦ absurd (
      target-kind ref variant
        (ap kind ((==_iff (target ref variant) k).0 same) ∙ IsRated-kind ref k h))
  | inr other ↦ other
]

pub and_left : (a b : Bool) → a ≡ false → (a && b) ≡ false
and_left a b h = ground arith

abbrev pub SameAt : View → View → Bytes → Type 0
SameAt v w j = (g : Bytes) → v j g ≡ w j g

pub All-SameAt :
    {v w : View} (P : Bytes → Type 0) (ks : List Bytes)
    → All P ks
    → ((j : Bytes) → P j → SameAt v w j)
    → All (SameAt v w) ks
All-SameAt P [] h f = tt
All-SameAt P (k ∷ ks) h f = (f k h.0, All-SameAt P ks h.1 f)

clear-SameAt :
    (k : Bytes) (v w : View) (ks : List Bytes)
    → All (SameAt v w) ks
    → All (SameAt (clear k v) (clear k w)) ks
clear-SameAt k v w [] h = tt
clear-SameAt k v w (j ∷ ks) h =
    (λ g. ap (λ x. if k == j then [] else x) (h.0 g), clear-SameAt k v w ks h.1)

pub owed_same :
    (ref : SessionRef) (t f : Bytes) (v w : View) (ks : List Bytes)
    → All (SameAt v w) ks
    → owed ref t f v ks ≡ owed ref t f w ks
owed_same ref t f v w [] h = refl
owed_same ref t f v w (k ∷ ks) h =
    rw
      (
        h.0 variant_field,
        h.0 f,
        owed_same ref t f (clear k v) (clear k w) ks (clear-SameAt k v w ks h.1),
      )
      refl

pub not_same : (ref : SessionRef) (k t : Bytes) → IsRated ref k → ¬ IsRated ref t → (k == t) ≡ false
not_same ref k t rated apart = elim (Bool-cases (k == t)) [
  | inl same ↦ absurd (apart (subst (IsRated ref) ((==_iff k t).0 same) rated))
  | inr other ↦ other
]

empty_either : (b : Bool) (x : Bytes) → x ≡ [] → (if b then [] else x) ≡ []
empty_either b x e = ground arith

pub emptied :
    (k j g : Bytes) (ks : List Bytes) (v : View) {x : Bytes}
    → Memᴰ j (k ∷ ks) ⊎ (v j g ≡ [])
    → x ≡ clear k v j g
    → Memᴰ j ks ⊎ (x ≡ [])
emptied k j g ks v (inl (Memᴰ.head e)) f =
    inr (f ∙ ap (λ b. if b then [] else v j g) ((==_iff k j).1 (sym e)))
emptied k j g ks v (inl (Memᴰ.tail m)) f = inl m
emptied k j g ks v (inr e) f = inr (f ∙ empty_either (k == j) (v j g) e)

abbrev pub flat : List (List Bytes) → List Bytes
flat [] = []
flat (ks ∷ lists) = ks ++ flat lists
