-- ===== src/Proxy/Handler/Laws.antt =====
-- What the proxy's handler guarantees.
use prompt_graft.Base.{
  Bool, true, false, not, ◌&&◌, Option, none, some, [], ◌∷◌, ◌++◌, ◌≡◌, ◌≢◌, ◌⊎◌, ◌∙◌, inl, inr,
  refl, sym, ap, is_empty, if◌then◌else◌, Bytes, codes, arith, Bool-cases,
}
use mathlib.Core.Option.{some-injective}
use prompt_graft.Base.Float.{Floats}
use prompt_graft.Store.Types.{VariantSet}
use prompt_graft.Text.{has_prefix, to_upper, equal_fold}
use prompt_graft.Proxy.Headers.{Header, values, get, set, authorization, is_withheld}
use prompt_graft.Proxy.Headers.Laws.{
  values-set, is_withheld-fold, HasDistinctKeys, HasDistinctKeys-set,
}
use prompt_graft.Proxy.Http.{Request, Outgoing, Response}
use prompt_graft.Proxy.Forwarder.{upstream_auth, performed}
use prompt_graft.Proxy.Forwarder.Laws.{credential, IsClean, build_request-IsClean}
use prompt_graft.Proxy.Auth.{bearer, valid_bearer_token}
use prompt_graft.Proxy.Body.{or_stream, stream_or_buffer_whole}
use prompt_graft.Proxy.Inject.{Injection, Variants, baseline}
use prompt_graft.Proxy.Inject.Laws.{inject-baseline}
use prompt_graft.Proxy.Records.{Env, Served}
use prompt_graft.Proxy.Handler.{
  with_upstream_auth, respond, session_of, key_hash_of, read_body, injected, relayed, built,
  forwarded, is_denied, is_health, serve_http, choose_adapter,
}

module _ (fl : Floats) (env : Env fl.F) (w : Header) (r : Request) where
  -- What is true of an answer for which a request went upstream.
  pub record IsForwarded (out : Served) (o : Outgoing) : Type 0 where
    pub not_health : is_health fl env r ≡ false
    pub not_denied : is_denied fl env r ≡ false
    pub injection : Injection
    pub was_injected : injected fl env r ≡ some injection
    pub was_built : built fl env r injection ≡ some o
    pub answered :
        out
        ≡ respond fl env w r
            (key_hash_of fl env r)
            (session_of fl env r)
            injection
            (read_body fl env r).buffer
            (built fl env r injection)
            (performed env.net env.forwarder (relayed fl env r) (built fl env r injection))

  sent-respond :
      (key session : Bytes) (inj : Injection) (buffered : Bytes) (sent : Option Outgoing)
      (resp : Option Response)
      → (respond fl env w r key session inj buffered sent resp).sent ≡ sent
  unfolding respond
  sent-respond key session inj buffered sent none = refl
  sent-respond key session inj buffered sent (some resp) = refl

  forwarded_lem :
      (i : Option Injection) (out : Served) (o : Outgoing)
      → is_health fl env r ≡ false
      → is_denied fl env r ≡ false
      → injected fl env r ≡ i
      → forwarded fl env w r i ≡ some out
      → out.sent ≡ some o
      → IsForwarded out o
  unfolding forwarded
  forwarded_lem none out o h d i e s = cc
  forwarded_lem (some inj) out o h d i e s =
      let answered : out
          ≡ respond fl env w r (key_hash_of fl env r) (session_of fl env r) inj
              (read_body fl env r).buffer (built fl env r inj)
              (performed env.net env.forwarder (relayed fl env r) (built fl env r inj)) =
        sym (some-injective _ out e) in
      record {
        not_health = h;
        not_denied = d;
        injection = inj;
        was_injected = i;
        was_built =
            sym (sent-respond _ _ inj _ (built fl env r inj) _)
            ∙ ap (λ (x : Served). x.sent) (sym answered)
            ∙ s;
        answered = answered;
      }

  pub serve_http-IsForwarded :
      (out : Served) (o : Outgoing)
      → serve_http fl env w r ≡ some out
      → out.sent ≡ some o
      → IsForwarded out o
  unfolding serve_http
  serve_http-IsForwarded out o e s = elim (Bool-cases (is_health fl env r)) [
    | inl health ↦ absurd (unsent _ out o (rw health at e) refl s)
    | inr other ↦ elim (Bool-cases (is_denied fl env r)) [
      | inl denied ↦ absurd (unsent _ out o (rw (other, denied) at e) refl s)
      | inr allowed ↦
          forwarded_lem (injected fl env r) out o other allowed refl (rw (other, allowed) at e) s
    ]
  ]
    where
      unsent :
          (own out : Served) (o : Outgoing)
          → ◌≡◌ {A = Option Served} (some own) (some out)
          → own.sent ≡ none
          → out.sent ≡ some o
          → ⊥
      unsent own out o e n s = ground arith

-- The header that the forwarder gets: X-PG-Auth falls back on the configured token.
with_upstream_auth-HasDistinctKeys :
    {F : Type 0} (env : Env F) (h : Header)
    → HasDistinctKeys h
    → HasDistinctKeys (with_upstream_auth env h)
unfolding with_upstream_auth
with_upstream_auth-HasDistinctKeys env h d =
    elim (Bool-cases
      (is_empty (get h upstream_auth) && not (is_empty env.cfg.replicate_api_token))) [
        | inl e ↦
            rw e (HasDistinctKeys-set h upstream_auth (bearer ++ env.cfg.replicate_api_token) d)
        | inr e ↦ rw e d
      ]

-- The credential that a client may use: what it sends in X-PG-Auth, or else the configured token.
abbrev pub own_or_token : Bytes → Bytes → Bytes
own_or_token (c ∷ own) token = c ∷ own
own_or_token [] [] = []
own_or_token [] (c ∷ token) = bearer ++ c ∷ token

upstream_auth_self : equal_fold upstream_auth upstream_auth ≡ true
unfolding equal_fold
upstream_auth_self = refl

upstream_auth_withheld : is_withheld upstream_auth ≡ true
unfolding is_withheld has_prefix to_upper equal_fold
upstream_auth_withheld = refl

get-set_auth : (h : Header) (v : Bytes) → get (set h upstream_auth v) upstream_auth ≡ v
unfolding get
get-set_auth h v = rw (values-set h upstream_auth v upstream_auth, upstream_auth_self) refl

values-set_auth :
    (h : Header) (v j : Bytes)
    → is_withheld j ≡ false
    → values (set h upstream_auth v) j ≡ values h j
values-set_auth h v j e = elim (Bool-cases (equal_fold upstream_auth j)) [
  | inl same ↦ let held = is_withheld-fold upstream_auth j same in cc upstream_auth_withheld
  | inr other ↦ values-set h upstream_auth v j ∙ rw other refl
]

get-with_upstream_auth :
    {F : Type 0} (env : Env F) (h : Header)
    → get (with_upstream_auth env h) upstream_auth
      ≡ own_or_token (get h upstream_auth) env.cfg.replicate_api_token
unfolding with_upstream_auth
get-with_upstream_auth env h = by_token (get h upstream_auth) env.cfg.replicate_api_token refl
  where
    by_token :
        (own token : Bytes)
        → get h upstream_auth ≡ own
        → get
            (if is_empty own && not (is_empty token)
              then set h upstream_auth (bearer ++ token)
              else h)
            upstream_auth
          ≡ own_or_token own token
    by_token (c ∷ own) token e = e
    by_token [] [] e = e
    by_token [] (c ∷ token) e = get-set_auth h (bearer ++ c ∷ token)

values-with_upstream_auth :
    {F : Type 0} (env : Env F) (h : Header) (j : Bytes)
    → is_withheld j ≡ false
    → values (with_upstream_auth env h) j ≡ values h j
unfolding with_upstream_auth
values-with_upstream_auth env h j e =
    elim (Bool-cases
      (is_empty (get h upstream_auth) && not (is_empty env.cfg.replicate_api_token))) [
        | inl q ↦ rw q (values-set_auth h (bearer ++ env.cfg.replicate_api_token) j e)
        | inr q ↦ rw q refl
      ]

IsClean-with_upstream_auth :
    {F : Type 0} (env : Env F) (h out : Header)
    → IsClean (with_upstream_auth env h) (get (with_upstream_auth env h) upstream_auth) out
    → IsClean h (own_or_token (get h upstream_auth) env.cfg.replicate_api_token) out
IsClean-with_upstream_auth env h out clean = record {
  no_control = clean.no_control;
  auth = clean.auth ∙ ap credential (get-with_upstream_auth env h);
  others = λ j e other. clean.others j e other ∙ values-with_upstream_auth env h j e;
}

module _ (fl : Floats) (env : Env fl.F) (w : Header) (r : Request) (out : Served)
    (o : Outgoing) where
  -- Nothing goes upstream for a request without the token: when one went, no token is configured,
  -- or the Authorization header carries it.
  pub sent_authorized :
      serve_http fl env w r ≡ some out
      → out.sent ≡ some o
      → (env.cfg.auth_token ≡ [])
        ⊎ (valid_bearer_token (get r.header authorization) env.cfg.auth_token ≡ true)
  sent_authorized e s =
      let f = serve_http-IsForwarded fl env w r out o e s in
      open_or_valid env.cfg.auth_token _ f.not_denied
    where
      open_or_valid :
          (token : Bytes) (valid : Bool)
          → (not (is_empty token) && not valid) ≡ false
          → (token ≡ []) ⊎ (valid ≡ true)
      open_or_valid [] valid e = inl refl
      open_or_valid (c ∷ token) true e = inr refl
      open_or_valid (c ∷ token) false e = cc

  -- The headers that go upstream are clean: no X-PG- header; no Authorization but, trimmed, the
  -- client's X-PG-Auth, or, if that is empty, the configured token, or none if that is empty too; all
  -- else as the client sent it; and the method is the client's. The inbound header's keys are distinct.
  pub sent-IsClean :
      HasDistinctKeys r.header
      → serve_http fl env w r ≡ some out
      → out.sent ≡ some o
      → IsClean r.header
          (own_or_token (get r.header upstream_auth) env.cfg.replicate_api_token)
          o.header
        × (o.method ≡ r.method)
  sent-IsClean d e s =
      let f = serve_http-IsForwarded fl env w r out o e s in
      let (clean, method, body) =
        build_request-IsClean env.net env.forwarder (relayed fl env r)
          (or_stream (read_body fl env r).stream f.injection.body) o
          (with_upstream_auth-HasDistinctKeys env r.header d) f.was_built in
      (IsClean-with_upstream_auth env r.header o.header clean, method)

  -- With no store, and when the store fails or has no variants for the session, a body that is read
  -- without an error goes upstream byte for byte. The inbound header's keys are distinct.
  pub sent_verbatim :
      HasDistinctKeys r.header
      → ((st : Variants fl.F)
          → env.store ≡ some st
          → (vs : VariantSet fl.F)
          → st.get_variant (key_hash_of fl env r) (session_of fl env r) ≢ some (some vs))
      → (read_body fl env r).failed ≡ false
      → serve_http fl env w r ≡ some out
      → out.sent ≡ some o
      → o.body ≡ r.body.content
  sent_verbatim d no_variants whole e s =
      let f = serve_http-IsForwarded fl env w r out o e s in
      let (clean, method, body) =
        build_request-IsClean env.net env.forwarder (relayed fl env r)
          (or_stream (read_body fl env r).stream f.injection.body) o
          (with_upstream_auth-HasDistinctKeys env r.header d) f.was_built in
      let base =
        inject-baseline fl env.now env.store (choose_adapter env r) (key_hash_of fl env r)
          (session_of fl env r) (get r.header (codes "Content-Type")) (read_body fl env r).buffer
          no_variants in
      let same = some-injective _ _ (sym f.was_injected ∙ base) in
      let unchanged : f.injection.body ≡ (read_body fl env r).buffer =
        unfold baseline in ap (λ (i : Injection). i.body) same in
      body
      ∙ ap (or_stream (read_body fl env r).stream) unchanged
      ∙ ((stream_or_buffer_whole (get r.header (codes "Content-Type")) r.body
            env.cfg.max_buffer_bytes).0
          whole).0
