-- ===== src/Proxy/Inject.antt =====
-- The part of `Handler.ServeHTTP` (internal/proxy/handler.go) that reads the prompt of a body and puts
-- a variant in its place. `none` is a run-time panic.
pub mod Laws
use prompt_graft.Base.{
  ℕ, Bool, true, false, not, ◌&&◌, Option, none, some, List, [], ◌∷◌, is_empty, if◌then◌else◌,
  Bytes, codes, length, take, leb,
}
use prompt_graft.Base.Float.{Floats}
use prompt_graft.Text.{replace_first}
use prompt_graft.Provider.{Answer, Provider}
use prompt_graft.Store.Types.{Variant, VariantSet}
use prompt_graft.Proxy.Segment.{find_replacement_segment}
use prompt_graft.Proxy.Choice.{pick_weighted_random}
use prompt_graft.Proxy.Output.{snippet_string}

-- The handler's local variables variantID, injectedBody, promptSnippet, prompt and promptOriginal.
pub record Injection : Type 0 where
  pub variant_id : Bytes
  pub body : Bytes
  pub snippet : Bytes
  pub prompt : Bytes
  pub original : Bytes

-- The variables before the store is asked.
unfoldable pub baseline : Provider → Bytes → Bytes → Injection
baseline adapter content_type buffered =
    let extracted = (adapter.extract_system_prompt content_type buffered).text in
    let prompt = if is_empty buffered then [] else extracted in
    record {
      variant_id = [];
      body = buffered;
      snippet = snippet_string prompt 400;
      prompt = prompt;
      original = prompt;
    }

-- What the store is asked for: (*VariantSet, error) with `none` for an error and `some none` for nil,
-- and the session prompt, whose error is dropped.
pub record Variants (F : Type 0) : Type 0 where
  pub get_variant : Bytes → Bytes → Option (Option (VariantSet F))
  pub get_session_prompt : Bytes → Bytes → Bytes

module _ (fl : Floats) where
  open fl use {F}

  -- The result of InjectSystemPrompt: on an error the variables are left alone.
  unfoldable pub accept : Injection → Variant F → Bytes → Option Answer → Option Injection
  accept base chosen new_prompt none = none
  accept base chosen new_prompt (some a) =
      if a.failed
      then some base
      else some (record base {
        variant_id = chosen.id;
        body = a.text;
        snippet = snippet_string new_prompt 400;
        prompt = new_prompt;
      })

  -- A chosen variant goes into the segment that the session's template shares with the prompt.
  unfoldable pub inject_variant :
      Provider → Bytes → Injection → Variant F → Bytes → Option Injection
  inject_variant adapter content_type base chosen template =
      let segment = find_replacement_segment base.prompt template in
      let new_prompt = replace_first base.prompt segment chosen.system_prompt in
      if is_empty chosen.id
      then some base
      else if is_empty segment
      then some base
      else accept base chosen new_prompt
          (adapter.inject_system_prompt content_type base.body new_prompt)

  unfoldable pub inject_chosen :
      Provider → Bytes → Injection → Bytes → Option (Variant F) → Option Injection
  inject_chosen adapter content_type base template none = none
  inject_chosen adapter content_type base template (some chosen) =
      inject_variant adapter content_type base chosen template

  -- The answer of the store. An error and a nil set leave the baseline.
  unfoldable pub with_variants :
      ℕ → Provider → Bytes → Injection → Bytes → Option (Option (VariantSet F)) → Option Injection
  with_variants now adapter content_type base template none = some base
  with_variants now adapter content_type base template (some none) = some base
  with_variants now adapter content_type base template (some (some set)) =
      if not (is_empty base.body) && not (is_empty base.prompt)
      then inject_chosen adapter content_type base template
          (pick_weighted_random fl now set.variants)
      else some base

  -- The whole part; `none` is h.store == nil.
  unfoldable pub inject :
      ℕ → Option (Variants F) → Provider → Bytes → Bytes → Bytes → Bytes → Option Injection
  inject now none adapter key_hash session_id content_type buffered =
      some (baseline adapter content_type buffered)
  inject now (some store) adapter key_hash session_id content_type buffered =
      with_variants now adapter content_type (baseline adapter content_type buffered)
        (store.get_session_prompt key_hash session_id) (store.get_variant key_hash session_id)
