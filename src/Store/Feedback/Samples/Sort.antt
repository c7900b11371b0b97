-- ===== src/Store/Feedback/Samples/Sort.antt =====
-- The order of the samples of `LoadConversationSamples` (internal/store/redis/feedback.go).
use prompt_graft.Base.{
  Bool, true, false, List, [], ◌∷◌, ◌≡◌, refl, ◌∙◌, inl, inr, length, keep, Bytes, arith, All,
  Bool-cases,
}
use prompt_graft.Store.Types.{ConversationFeedback}
use prompt_graft.Store.Feedback.Samples.{is_before, insert_by_id, sort_by_id}

is_before_asymm : (s t : Bytes) → is_before s t ≡ true → is_before t s ≡ false
unfolding is_before
is_before_asymm [] [] h = refl
is_before_asymm [] (b ∷ t) h = refl
is_before_asymm (a ∷ s) [] h = cc
is_before_asymm (a ∷ s) (b ∷ t) h = ground (arith, is_before_asymm s t)

-- No sample stands behind one that its conversation comes before.
abbrev pub Follows : ConversationFeedback → List ConversationFeedback → Type 0
Follows x [] = Unit
Follows x (y ∷ ys) = is_before y.conversation_id x.conversation_id ≡ false

abbrev pub IsOrdered : List ConversationFeedback → Type 0
IsOrdered [] = Unit
IsOrdered (x ∷ xs) = Follows x xs × IsOrdered xs

insert_by_id-Follows :
    (x cf : ConversationFeedback) (ys : List ConversationFeedback)
    → Follows x ys
    → is_before cf.conversation_id x.conversation_id ≡ false
    → Follows x (insert_by_id cf ys)
unfolding insert_by_id
insert_by_id-Follows x cf [] h e = e
insert_by_id-Follows x cf (y ∷ ys) h e =
    elim (Bool-cases (is_before y.conversation_id cf.conversation_id)) [
      | inl q ↦ rw q h
      | inr q ↦ rw q e
    ]

insert_by_id-IsOrdered :
    (cf : ConversationFeedback) (xs : List ConversationFeedback)
    → IsOrdered xs
    → IsOrdered (insert_by_id cf xs)
unfolding insert_by_id
insert_by_id-IsOrdered cf [] h = (tt, tt)
insert_by_id-IsOrdered cf (x ∷ xs) h =
    elim (Bool-cases (is_before x.conversation_id cf.conversation_id)) [
      | inl q ↦ rw q (
        insert_by_id-Follows x cf xs h.0 (is_before_asymm x.conversation_id cf.conversation_id q),
        insert_by_id-IsOrdered cf xs h.1,
      )
      | inr q ↦ rw q (q, h)
    ]

pub sort_by_id-IsOrdered : (xs : List ConversationFeedback) → IsOrdered (sort_by_id xs)
unfolding sort_by_id
sort_by_id-IsOrdered [] = tt
sort_by_id-IsOrdered (x ∷ xs) = insert_by_id-IsOrdered x (sort_by_id xs) (sort_by_id-IsOrdered xs)

insert_by_id-All :
    (P : ConversationFeedback → Type 0) (cf : ConversationFeedback) (xs : List ConversationFeedback)
    → P cf
    → All P xs
    → All P (insert_by_id cf xs)
unfolding insert_by_id
insert_by_id-All P cf [] p h = (p, tt)
insert_by_id-All P cf (x ∷ xs) p h =
    elim (Bool-cases (is_before x.conversation_id cf.conversation_id)) [
      | inl q ↦ rw q (h.0, insert_by_id-All P cf xs p h.1)
      | inr q ↦ rw q (p, h)
    ]

pub sort_by_id-All :
    (P : ConversationFeedback → Type 0) (xs : List ConversationFeedback)
    → All P xs
    → All P (sort_by_id xs)
unfolding sort_by_id
sort_by_id-All P [] h = tt
sort_by_id-All P (x ∷ xs) h = insert_by_id-All P x (sort_by_id xs) h.0 (sort_by_id-All P xs h.1)

keep-insert_by_id :
    (p : ConversationFeedback → Bool) (cf : ConversationFeedback) (xs : List ConversationFeedback)
    → length (keep p (insert_by_id cf xs)) ≡ length (keep p (cf ∷ xs))
unfolding keep insert_by_id
keep-insert_by_id p cf [] = refl
keep-insert_by_id p cf (x ∷ xs) = ground (arith, keep-insert_by_id p cf xs)

pub keep-sort_by_id :
    (p : ConversationFeedback → Bool) (xs : List ConversationFeedback)
    → length (keep p (sort_by_id xs)) ≡ length (keep p xs)
unfolding sort_by_id keep
keep-sort_by_id p [] = refl
keep-sort_by_id p (x ∷ xs) =
    keep-insert_by_id p x (sort_by_id xs) ∙ ground (arith, keep-sort_by_id p xs)
