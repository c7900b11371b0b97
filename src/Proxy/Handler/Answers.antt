-- ===== src/Proxy/Handler/Answers.antt =====
-- What the client is told of the session, the conversation and the variant.
use prompt_graft.Base.{
  true, false, some, [], ◌∷◌, ◌≡◌, ◌∙◌, inl, inr, refl, ap, is_empty, if◌then◌else◌, Bytes,
  Bool-cases,
}
use prompt_graft.Base.Float.{Floats}
use prompt_graft.Text.{has_prefix, to_upper, equal_fold}
use prompt_graft.Proxy.Headers.{Header, values, set, is_withheld, copy_headers}
use prompt_graft.Proxy.Headers.Laws.{values-set, values-copy_headers_withheld}
use prompt_graft.Proxy.Http.{Request, Outgoing, Response}
use prompt_graft.Proxy.Forwarder.{performed}
use prompt_graft.Proxy.Inject.{Injection}
use prompt_graft.Proxy.Records.{Env, Served}
use prompt_graft.Proxy.Handler.{
  session_id_key, conversation_id_key, variant_id_key, conversation_id, answer_header, respond,
  session_of, key_hash_of, read_body, injected, relayed, built, serve_http,
}
use prompt_graft.Proxy.Handler.Laws.{serve_http-IsForwarded}

-- Three control headers, no two of which are the same.
keys_apart :
    (equal_fold session_id_key session_id_key ≡ true)
    × (equal_fold conversation_id_key conversation_id_key ≡ true)
    × (equal_fold variant_id_key variant_id_key ≡ true)
    × (equal_fold conversation_id_key session_id_key ≡ false)
    × (equal_fold variant_id_key session_id_key ≡ false)
    × (equal_fold variant_id_key conversation_id_key ≡ false)
    × (equal_fold session_id_key variant_id_key ≡ false)
    × (equal_fold conversation_id_key variant_id_key ≡ false)
    × (is_withheld variant_id_key ≡ true)
unfolding equal_fold is_withheld has_prefix to_upper
keys_apart = (refl, refl, refl, refl, refl, refl, refl, refl, refl)

-- The values that an answer's header has under the three keys.
pub record Announces (w out : Header) (session conversation variant : Bytes) : Type 0 where
  pub of_session : values out session_id_key ≡ session ∷ []
  pub of_conversation : values out conversation_id_key ≡ conversation ∷ []
  -- Only a variant that was applied is named.
  pub of_variant :
      values out variant_id_key
      ≡ (if is_empty variant then values w variant_id_key else variant ∷ [])

answer_header-Announces :
    {F : Type 0} (env : Env F) (w resp : Header) (session conversation variant : Bytes)
    → Announces w
        (answer_header env w resp session conversation variant)
        session
        conversation
        variant
unfolding answer_header
answer_header-Announces env w resp session conversation variant =
    let (s, c, v, cs, vs, vc, sv, cv, withheld) = keys_apart in
    let base = copy_headers w resp in
    let one = set base session_id_key session in
    let two = set one conversation_id_key conversation in
    let session_two : values two session_id_key ≡ session ∷ [] =
      rw (values-set one conversation_id_key conversation session_id_key, cs)
        (rw (values-set base session_id_key session session_id_key, s)) in
    let conversation_two : values two conversation_id_key ≡ conversation ∷ [] =
      rw (values-set one conversation_id_key conversation conversation_id_key, c) in
    let variant_two : values two variant_id_key ≡ values w variant_id_key =
      rw (values-set one conversation_id_key conversation variant_id_key, cv)
        (rw (values-set base session_id_key session variant_id_key, sv)
          (values-copy_headers_withheld w resp variant_id_key withheld)) in
    elim (Bool-cases (is_empty variant)) [
      | inl e ↦ rw e (record {
        of_session = session_two;
        of_conversation = conversation_two;
        of_variant = rw e variant_two;
      })
      | inr e ↦ rw e (record {
        of_session = rw (values-set two variant_id_key variant session_id_key, vs) session_two;
        of_conversation =
            rw (values-set two variant_id_key variant conversation_id_key, vc) conversation_two;
        of_variant = rw (values-set two variant_id_key variant variant_id_key, v, e);
      })
    ]

-- When the upstream provider answers, the client gets its status and its body, and the session, the
-- conversation and the applied variant in headers that the provider's own headers cannot change: a
-- variant that was not applied is not named, whatever the provider sends.
pub served-Announces :
    (fl : Floats) (env : Env fl.F) (w : Header) (r : Request) (out : Served) (o : Outgoing)
    (resp : Response)
    → serve_http fl env w r ≡ some out
    → out.sent ≡ some o
    → env.net.perform o ≡ some resp
    → (inj : Injection) × (injected fl env r ≡ some inj)
      × (out.status ≡ resp.status)
      × (out.body ≡ resp.body)
      × Announces w out.header
          (session_of fl env r)
          (conversation_id env.digest inj.prompt)
          inj.variant_id
unfolding respond
served-Announces fl env w r out o resp e s p =
    let f = serve_http-IsForwarded fl env w r out o e s in
    let answer : performed env.net env.forwarder (relayed fl env r) (built fl env r f.injection)
        ≡ some resp =
      rw f.was_built p in
    let whole =
      f.answered
      ∙ ap
          (respond fl env w r (key_hash_of fl env r) (session_of fl env r) f.injection
            (read_body fl env r).buffer (built fl env r f.injection))
          answer in
    (
      f.injection,
      f.was_injected,
      ap (λ (x : Served). x.status) whole,
      ap (λ (x : Served). x.body) whole,
      rw whole (
          answer_header-Announces env w resp.header (session_of fl env r)
            (conversation_id env.digest f.injection.prompt) f.injection.variant_id),
    )
