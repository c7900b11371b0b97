-- ===== src/Proxy/Inject/Laws.antt =====
-- What can become of a body.
use prompt_graft.Base.{
  ℕ, false, not, ◌&&◌, Option, none, some, List, [], ◌∷◌, ◌≡◌, ◌≢◌, ◌⊎◌, inl, inr, refl, is_empty,
  Bytes, Memᴰ, arith, Bool-cases,
}
use prompt_graft.Base.Float.{Floats}
use prompt_graft.Text.Replace.{IsReplaced, replace_first-IsReplaced}
use prompt_graft.Provider.{Answer, Provider}
use prompt_graft.Store.Types.{Variant, VariantSet}
use prompt_graft.Proxy.Segment.{find_replacement_segment}
use prompt_graft.Proxy.Segment.Laws.{IsWindow, words_of, segment-IsWindow}
use prompt_graft.Proxy.Choice.{pick_weighted_random, pick-mem, no_variant}
use prompt_graft.Proxy.Inject.{
  Injection, baseline, Variants, accept, inject_variant, inject_chosen, with_variants, inject,
}

module _ (fl : Floats) where
  open fl use {F}

  -- `out` is `base` with a variant of the set in it: the prompt is that of `base` with its first
  -- occurrence of a segment of the template replaced, and the body is what the adapter made of it.
  pub record IsInjection (adapter : Provider) (content_type : Bytes) (template : Bytes)
      (variants : List (Variant F)) (base out : Injection) : Type 0 where
    pub chosen : Variant F
    pub listed : Memᴰ chosen variants
    pub named : (out.variant_id ≡ chosen.id) × (chosen.id ≢ [])
    pub segment : Bytes
    pub window : IsWindow base.prompt (words_of template) segment
    pub replaced : IsReplaced base.prompt segment chosen.system_prompt out.prompt
    pub result : Answer
    pub made : adapter.inject_system_prompt content_type base.body out.prompt ≡ some result
    pub succeeded : (result.failed ≡ false) × (out.body ≡ result.text)
    pub original : out.original ≡ base.original

  module _ (adapter : Provider) (content_type template : Bytes) (base : Injection) where
    Outcome : List (Variant F) → Injection → Type 0
    Outcome variants out =
        (out ≡ base) ⊎ IsInjection adapter content_type template variants base out

    accept_lem :
        (chosen : Variant F) (new_prompt : Bytes) (a : Option Answer) (out : Injection)
        → accept fl base chosen new_prompt a ≡ some out
        → (out ≡ base)
          ⊎ ((result : Answer) × (a ≡ some result)
              × (result.failed ≡ false)
              × (out.variant_id ≡ chosen.id)
              × (out.body ≡ result.text)
              × (out.prompt ≡ new_prompt)
              × (out.original ≡ base.original))
    unfolding accept
    accept_lem chosen new_prompt none out e = cc
    accept_lem chosen new_prompt (some a) out e = elim (Bool-cases a.failed) [
      | inl bad ↦ inl (ground arith)
      | inr good ↦
          let e' = rw good at e in
          inr (a, refl, good, ground arith, ground arith, ground arith, ground arith)
    ]

    ne-nil_of_not-is_empty : (s : Bytes) → is_empty s ≡ false → s ≢ []
    ne-nil_of_not-is_empty [] h e = cc
    ne-nil_of_not-is_empty (c ∷ s) h e = cc

    inject_variant_lem :
        (variants : List (Variant F)) (chosen : Variant F) (out : Injection)
        → (chosen.id ≢ [] → Memᴰ chosen variants)
        → inject_variant fl adapter content_type base chosen template ≡ some out
        → Outcome variants out
    unfolding inject_variant Outcome
    inject_variant_lem variants chosen out listed e = elim (Bool-cases (is_empty chosen.id)) [
      | inl unnamed ↦ inl (ground arith)
      | inr named ↦
          let id_ne = ne-nil_of_not-is_empty chosen.id named in
          let segment = find_replacement_segment base.prompt template in
          elim (Bool-cases (is_empty segment)) [
            | inl absent ↦ inl (ground arith)
            | inr present ↦
                let window =
                  segment-IsWindow base.prompt template (ne-nil_of_not-is_empty segment present) in
                elim (accept_lem chosen _ _ out (rw (named, present) at e)) [
                  | inl same ↦ inl same
                  | inr (result, made, good, id, body, prompt, original) ↦ inr (record {
                    chosen = chosen;
                    listed = listed id_ne;
                    named = (id, id_ne);
                    segment = segment;
                    window = window;
                    replaced = rw prompt (
                        replace_first-IsReplaced base.prompt segment chosen.system_prompt
                          window.occurs);
                    result = result;
                    made = rw prompt made;
                    succeeded = (good, body);
                    original = original;
                  })
                ]
          ]
    ]

    inject_chosen_lem :
        (now : ℕ) (variants : List (Variant F)) (out : Injection)
        → inject_chosen fl adapter content_type base template (pick_weighted_random fl now variants)
          ≡ some out
        → Outcome variants out
    unfolding inject_chosen
    inject_chosen_lem now [] out e =
        inject_variant_lem [] (no_variant fl) out (λ ne. absurd (ne refl))
          (unfold pick_weighted_random in e)
    inject_chosen_lem now (v ∷ vs) out e = elim (pick-mem fl now v vs) [
      | inl (chosen, picked, m) ↦ inject_variant_lem (v ∷ vs) chosen out (λ ne. m) (rw picked at e)
      | inr (panics, _, _) ↦ let e' = rw panics at e in cc e'
    ]

    with_variants_lem :
        (now : ℕ) (set : VariantSet F) (out : Injection)
        → with_variants fl now adapter content_type base template (some (some set)) ≡ some out
        → Outcome set.variants out
    unfolding with_variants Outcome
    with_variants_lem now set out e =
        elim (Bool-cases (not (is_empty base.body) && not (is_empty base.prompt))) [
          | inl on ↦ inject_chosen_lem now set.variants out (rw on at e)
          | inr off ↦ inl (ground arith)
        ]

    Outcome-parts :
        (set : VariantSet F) (out : Injection)
        → Outcome set.variants out
        → (out ≡ base) ⊎ IsInjection adapter content_type template set.variants base out
    unfolding Outcome
    Outcome-parts set out o = o

    answer_lem :
        (now : ℕ) (answer : Option (Option (VariantSet F))) (out : Injection)
        → with_variants fl now adapter content_type base template answer ≡ some out
        → (out ≡ base)
          ⊎ ((set : VariantSet F) × (answer ≡ some (some set))
              × IsInjection adapter content_type template set.variants base out)
    answer_lem now none out e =
        let e' : some base ≡ some out = unfold with_variants in e in inl (ground arith)
    answer_lem now (some none) out e =
        let e' : some base ≡ some out = unfold with_variants in e in inl (ground arith)
    answer_lem now (some (some set)) out e =
        elim (Outcome-parts set out (with_variants_lem now set out e)) [
          | inl same ↦ inl same
          | inr injected ↦ inr (set, refl, injected)
        ]

  -- A body goes out as it came, or with a variant of the set that the store has for the session:
  -- then the first occurrence of a segment of the session's template is replaced by the variant's
  -- text, the body is what the adapter made of that prompt without an error, and the variant has
  -- a name. In both cases the original prompt is kept for the log.
  pub inject_outcome :
      (now : ℕ) (store : Variants F) (adapter : Provider)
      (key_hash session_id content_type buffered : Bytes) (out : Injection)
      → inject fl now (some store) adapter key_hash session_id content_type buffered ≡ some out
      → (out ≡ baseline adapter content_type buffered)
        ⊎ ((set : VariantSet F) × (store.get_variant key_hash session_id ≡ some (some set))
            × IsInjection adapter content_type
                (store.get_session_prompt key_hash session_id)
                set.variants
                (baseline adapter content_type buffered)
                out)
  unfolding inject
  inject_outcome now store adapter key_hash session_id content_type buffered out e =
      answer_lem adapter content_type (store.get_session_prompt key_hash session_id)
        (baseline adapter content_type buffered) now (store.get_variant key_hash session_id) out e

  -- With no store, and when the store fails or has no variants, the body goes out as it came.
  pub inject-baseline :
      (now : ℕ) (store : Option (Variants F)) (adapter : Provider)
      (key_hash session_id content_type buffered : Bytes)
      → ((s : Variants F)
          → store ≡ some s
          → (set : VariantSet F) → s.get_variant key_hash session_id ≢ some (some set))
      → inject fl now store adapter key_hash session_id content_type buffered
        ≡ some (baseline adapter content_type buffered)
  unfolding inject
  inject-baseline now none adapter key_hash session_id content_type buffered h = refl
  inject-baseline now (some s) adapter key_hash session_id content_type buffered h =
      on_answer (s.get_variant key_hash session_id) refl
    where
      on_answer :
          (o : Option (Option (VariantSet F)))
          → s.get_variant key_hash session_id ≡ o
          → with_variants fl now adapter content_type
              (baseline adapter content_type buffered)
              (s.get_session_prompt key_hash session_id)
              (s.get_variant key_hash session_id)
            ≡ some (baseline adapter content_type buffered)
      on_answer none a = unfold with_variants in rw a
      on_answer (some none) a = unfold with_variants in rw a
      on_answer (some (some set)) a = absurd (h s refl set a)
