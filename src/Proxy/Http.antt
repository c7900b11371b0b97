-- ===== src/Proxy/Http.antt =====
-- Requests and responses, and what the proxy takes from the network: `Net` stands for net/url and for
-- the HTTP client, which answer as the environment decides.
use prompt_graft.Base.{ℕ, Bool, Option, Bytes}
use prompt_graft.Proxy.Headers.{Header}

-- url.URL
pub record Url : Type 0 where
  pub scheme : Bytes
  pub host : Bytes
  pub path : Bytes
  pub raw_query : Bytes

-- A body as it will be read: its bytes, and whether an error comes behind them.
pub record Reader : Type 0 where
  pub content : Bytes
  pub fails : Bool

-- The inbound *http.Request
pub record Request : Type 0 where
  pub method : Bytes
  pub path : Bytes
  pub raw_query : Bytes
  pub host : Bytes
  pub header : Header
  pub body : Reader

-- The request that is handed to the HTTP client
pub record Outgoing : Type 0 where
  pub method : Bytes
  pub url : Url
  pub header : Header
  pub host : Bytes
  pub body : Bytes

pub record Response : Type 0 where
  pub status : ℕ
  pub header : Header
  pub body : Bytes

pub record Net : Type 0 where
  -- url.Parse
  pub parse_url : Bytes → Option Url
  -- http.NewRequestWithContext accepts the method and the URL
  pub accepts : Bytes → Url → Bool
  -- client.Do
  pub perform : Outgoing → Option Response
