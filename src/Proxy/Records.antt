-- ===== src/Proxy/Records.antt =====
-- The state of the handler of internal/proxy/handler.go, and what becomes of a request.
use prompt_graft.Base.{ℕ, Option, List, Bytes}
use prompt_graft.Json.{Json}
use prompt_graft.Provider.{Registry}
use prompt_graft.Proxy.Headers.{Header}
use prompt_graft.Proxy.Http.{Outgoing, Net}
use prompt_graft.Proxy.Forwarder.{Forwarder}
use prompt_graft.Proxy.Inject.{Variants}

-- The fields of the configuration that the handler reads.
pub record Settings : Type 0 where
  pub auth_token : Bytes
  pub default_upstream_host : Bytes
  pub api_key_salt : Bytes
  pub max_buffer_bytes : ℕ
  pub replicate_api_token : Bytes

-- The handler's fields and what a request meets: the clock, the random session id, SHA-256, the JSON
-- decoder and the network.
pub record Env (F : Type 0) : Type 0 where
  pub cfg : Settings
  pub store : Option (Variants F)
  pub registry : Registry
  pub styles : Option Registry
  pub forwarder : Forwarder
  pub net : Net
  pub now : ℕ
  pub new_session_id : Bytes
  pub digest : Bytes → Bytes
  pub parse : Bytes → Option Json

pub record RequestLog : Type 0 where
  pub key_hash : Bytes
  pub session_id : Bytes
  pub variant_id : Bytes
  pub conversation_id : Bytes
  pub content_type : Bytes
  pub prompt_snippet : Bytes
  pub prompt : Bytes
  pub prompt_original : Bytes
  pub body : Bytes

pub record ResponseLog : Type 0 where
  pub key_hash : Bytes
  pub session_id : Bytes
  pub variant_id : Bytes
  pub conversation_id : Bytes
  pub content_type : Bytes
  pub response_text : Bytes
  pub body : Bytes

pub record Served : Type 0 where
  pub status : ℕ
  pub header : Header
  pub body : Bytes
  pub sent : Option Outgoing
  pub requests_logged : List RequestLog
  pub responses_logged : List ResponseLog
