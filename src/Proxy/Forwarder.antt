-- ===== src/Proxy/Forwarder.antt =====
-- `Forwarder.Forward` of internal/proxy/forwarder.go. `none` is an error that is returned.
pub mod Laws
use prompt_graft.Base.{
  Bool, true, false, Option, none, some, [], is_empty, if◌then◌else◌, Bytes, codes,
}
use prompt_graft.Text.{trim_space}
use prompt_graft.Proxy.Headers.{Header, get, copy_headers, apply_upstream_auth}
use prompt_graft.Proxy.Http.{Url, Request, Outgoing, Response, Net}

pub record Forwarder : Type 0 where
  pub default_host : Bytes
  pub default_scheme : Bytes

abbrev pub upstream_url : Bytes
upstream_url = codes "X-PG-Upstream-Url"

abbrev pub upstream_host : Bytes
upstream_host = codes "X-PG-Upstream-Host"

abbrev pub upstream_scheme : Bytes
upstream_scheme = codes "X-PG-Upstream-Scheme"

abbrev pub upstream_auth : Bytes
upstream_auth = codes "X-PG-Auth"

abbrev pub or_else : Bytes → Bytes → Bytes
or_else s t = if is_empty s then t else s

-- The header of the upstream request.
unfoldable pub outgoing_header : Header → Header
unfolding get copy_headers apply_upstream_auth
outgoing_header h = apply_upstream_auth (copy_headers [] h) (get h upstream_auth)

abbrev pub outgoing : Request → Url → Bytes → Bytes → Outgoing
outgoing r target host body = record {
  method = r.method;
  url = target;
  header = outgoing_header r.header;
  host = host;
  body = body;
}

module _ (net : Net) (f : Forwarder) (r : Request) where
  -- The branch on X-PG-Upstream-Url, with a URL that was parsed.
  abbrev pub with_scheme : Url → Url
  with_scheme target = record target { scheme = or_else target.scheme f.default_scheme }

  unfoldable pub to_url : Option Url → Bytes → Option Outgoing
  unfolding outgoing_header
  to_url none body = none
  to_url (some target) body =
      if net.accepts r.method (with_scheme target)
      then some (outgoing r (with_scheme target) target.host body)
      else none

  abbrev pub host_of : Bytes
  host_of = or_else (or_else (get r.header upstream_host) f.default_host) r.host

  abbrev pub target_of : Url
  target_of = record {
    scheme = or_else (get r.header upstream_scheme) f.default_scheme;
    host = host_of;
    path = r.path;
    raw_query = r.raw_query;
  }

  -- The request that Forward makes.
  unfoldable pub build_request : Bytes → Option Outgoing
  unfolding to_url outgoing_header
  build_request body =
      let url = trim_space (get r.header upstream_url) in
      if is_empty url
      then (if net.accepts r.method target_of
          then some (outgoing r target_of host_of body)
          else none)
      else to_url (net.parse_url url) body

  abbrev pub performed : Option Outgoing → Option Response
  performed none = none
  performed (some out) = net.perform out

  unfoldable pub forward : Bytes → Option Response
  unfolding build_request
  forward body = performed (build_request body)
