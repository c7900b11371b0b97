-- ===== src/Proxy/Handler.antt =====
-- `Handler.ServeHTTP` of internal/proxy/handler.go. The result is what the client is answered, the
-- request that went upstream and the entries that were logged; `none` is a run-time panic.
pub mod Laws
pub mod Answers
use prompt_graft.Base.{
  ℕ, Bool, true, false, not, ◌&&◌, ◌||◌, Option, none, some, List, [], ◌∷◌, ◌++◌, is_empty,
  if◌then◌else◌, Bytes, codes, length, take, leb, ◌==◌,
}
use prompt_graft.Base.Float.{Floats}
use prompt_graft.Text.{to_lower, trim_space}
use prompt_graft.Json.{Json}
use prompt_graft.Provider.{Answer, Provider, Registry, lookup}
use prompt_graft.Proxy.Headers.{Header, get, set, del, copy_headers}
use prompt_graft.Proxy.Http.{Request, Outgoing, Response, Net}
use prompt_graft.Proxy.Forwarder.{
  Forwarder, upstream_host, upstream_auth, or_else, build_request, performed,
}
use prompt_graft.Proxy.Auth.{bearer, valid_bearer_token, api_key}
use prompt_graft.Proxy.Body.{Buffered, or_stream, stream_or_buffer}
use prompt_graft.Proxy.Records.{Settings, Env, RequestLog, ResponseLog, Served}
use prompt_graft.Proxy.Output.{snippet_string, extract_text_output}
use prompt_graft.Proxy.Inject.{Injection, Variants, inject}

abbrev pub content_type_key : Bytes
content_type_key = codes "Content-Type"

abbrev pub session_id_key : Bytes
session_id_key = codes "X-PG-Session-Id"

abbrev pub conversation_id_key : Bytes
conversation_id_key = codes "X-PG-Conversation-Id"

abbrev pub variant_id_key : Bytes
variant_id_key = codes "X-PG-Variant-Id"

abbrev pub json_type : Bytes
json_type = codes "application/json"

-- conversationID: the digest of the first 5000 bytes
unfoldable pub conversation_id : (Bytes → Bytes) → Bytes → Bytes
conversation_id digest prompt =
    if is_empty prompt
    then []
    else digest (if leb (length prompt) 5000 then prompt else take 5000 prompt)

-- An answer of the handler's own, with nothing sent or logged.
abbrev pub own_answer : Header → ℕ → Bytes → Bytes → Served
own_answer header status type body = record {
  status = status;
  header = set header content_type_key type;
  body = body;
  sent = none;
  requests_logged = [];
  responses_logged = [];
}

abbrev pub or_store {ℓ κ} : {A : Type ℓ} {B : Type κ} → Option A → List B → List B
or_store none entries = []
or_store (some s) entries = entries

-- The style that a request asks for, and the adapter that it gets.
unfoldable pub api_style : Header → Bytes
api_style h = to_lower (trim_space (get h (codes "X-PG-Api-Style")))

abbrev styled : Bytes → Provider → Option Registry → Provider
styled style p none = p
styled style p (some styles) = if is_empty style then p else lookup styles style

module _ {F : Type 0} (env : Env F) where
  open env use {cfg}

  unfoldable pub choose_adapter : Request → Provider
  choose_adapter r =
      let host = or_else (or_else (get r.header upstream_host) cfg.default_upstream_host) r.host in
      styled (api_style r.header) (lookup env.registry host) env.styles

  -- X-PG-Auth falls back on the configured token.
  unfoldable pub with_upstream_auth : Header → Header
  with_upstream_auth h =
      if is_empty (get h upstream_auth) && not (is_empty cfg.replicate_api_token)
      then set h upstream_auth (bearer ++ cfg.replicate_api_token)
      else h

  unfoldable pub response_text : Provider → Bytes → Response → Bytes
  response_text adapter style resp =
      let type = get resp.header content_type_key in
      let extracted = adapter.extract_output_text type resp.body in
      if is_empty style
      then extract_text_output env.parse type resp.body
      else if extracted.failed
      then []
      else extracted.text

  abbrev pub with_variant_id : Header → Bytes → Header
  with_variant_id h id = if is_empty id then h else set h variant_id_key id

  -- The header of the answer to a request that was forwarded.
  unfoldable pub answer_header : Header → Header → Bytes → Bytes → Bytes → Header
  answer_header w resp session conversation variant =
      with_variant_id
        (set (set (copy_headers w resp) session_id_key session) conversation_id_key conversation)
        variant

module _ (fl : Floats) (env : Env fl.F) where
  open env use {cfg}

  -- go h.store.LogRequest(…)
  unfoldable pub request_log : Request → Bytes → Bytes → Injection → Bytes → List RequestLog
  request_log r key_hash session inj buffered = or_store env.store (
      record {
        key_hash = key_hash;
        session_id = session;
        variant_id = inj.variant_id;
        conversation_id = conversation_id env.digest inj.prompt;
        content_type = get r.header content_type_key;
        prompt_snippet = inj.snippet;
        prompt = inj.prompt;
        prompt_original = inj.original;
        body = buffered;
      }
      ∷ [])

  -- go h.store.LogResponse(…)
  unfoldable pub response_log : Request → Bytes → Bytes → Injection → Response → List ResponseLog
  response_log r key_hash session inj resp = or_store env.store (
      record {
        key_hash = key_hash;
        session_id = session;
        variant_id = inj.variant_id;
        conversation_id = conversation_id env.digest inj.prompt;
        content_type = get resp.header content_type_key;
        response_text = response_text env (choose_adapter env r) (api_style r.header) resp;
        body = resp.body;
      }
      ∷ [])

  -- From the forwarding on: `w` is the answer's header so far.
  unfoldable pub respond :
      Header
      → Request
      → Bytes
      → Bytes
      → Injection
      → Bytes
      → Option Outgoing
      → Option Response
      → Served
  respond w r key_hash session inj buffered sent none = record {
    status = 502;
    header =
        set
          (set (del w (codes "Content-Length")) content_type_key
            (codes "text/plain; charset=utf-8"))
          (codes "X-Content-Type-Options") (codes "nosniff");
    body = codes "upstream error" ++ 10 ∷ [];
    sent = sent;
    requests_logged = request_log r key_hash session inj buffered;
    responses_logged = [];
  }
  respond w r key_hash session inj buffered sent (some resp) = record {
    status = resp.status;
    header =
        answer_header env w resp.header session (conversation_id env.digest inj.prompt)
          inj.variant_id;
    body = resp.body;
    sent = sent;
    requests_logged = request_log r key_hash session inj buffered;
    responses_logged = response_log r key_hash session inj resp;
  }

  abbrev pub session_of : Request → Bytes
  session_of r = or_else (get r.header (codes "X-PG-Session")) env.new_session_id

  abbrev pub key_hash_of : Request → Bytes
  key_hash_of r = api_key env.digest cfg.api_key_salt (get r.header (codes "Authorization"))

  abbrev pub read_body : Request → Buffered
  read_body r = stream_or_buffer (get r.header content_type_key) r.body cfg.max_buffer_bytes

  abbrev pub injected : Request → Option Injection
  injected r =
      inject fl env.now env.store (choose_adapter env r) (key_hash_of r) (session_of r)
        (get r.header content_type_key) (read_body r).buffer

  -- The request as the forwarder gets it.
  abbrev pub relayed : Request → Request
  relayed r = record r { header = with_upstream_auth env r.header }

  abbrev pub built : Request → Injection → Option Outgoing
  built r inj =
      build_request env.net env.forwarder (relayed r) (or_stream (read_body r).stream inj.body)

  unfoldable pub forwarded : Header → Request → Option Injection → Option Served
  forwarded w r none = none
  forwarded w r (some inj) = some (
      respond w r (key_hash_of r) (session_of r) inj (read_body r).buffer (built r inj)
        (performed env.net env.forwarder (relayed r) (built r inj)))

  -- The bearer test, which is made only when a token is configured.
  abbrev pub is_denied : Request → Bool
  is_denied r =
      not (is_empty cfg.auth_token)
      && not (valid_bearer_token (get r.header (codes "Authorization")) cfg.auth_token)

  abbrev pub is_health : Request → Bool
  is_health r = (r.path == codes "/health") || (r.path == codes "/")

  unfoldable pub serve_http : Header → Request → Option Served
  serve_http w r =
      if is_health r
      then some (own_answer w 200 json_type (codes "{\"service\":\"proxy\",\"status\":\"ok\"}"))
      else if is_denied r
      then some (own_answer w 401 json_type (codes "{\"error\":\"unauthorized\"}"))
      else forwarded w r (injected r)
