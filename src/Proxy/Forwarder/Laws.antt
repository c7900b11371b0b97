-- ===== src/Proxy/Forwarder/Laws.antt =====
-- Which headers reach the upstream provider.
use prompt_graft.Base.{
  true, false, Option, none, some, List, [], ◌∷◌, ◌≡◌, ◌∙◌, refl, sym, inl, inr, is_empty,
  if◌then◌else◌, Bytes, arith, Bool-cases,
}
use prompt_graft.Text.{has_prefix, to_upper, trim_space, equal_fold}
use prompt_graft.Proxy.Headers.{
  Header, values, get, del, authorization, is_withheld, copy_headers, apply_upstream_auth,
}
use prompt_graft.Proxy.Headers.Laws.{
  values-del, values-set, is_withheld-fold, has_key, HasDistinctKeys, values_absent,
  values-copy_headers, values-copy_headers_withheld,
}
use prompt_graft.Proxy.Http.{Url, Request, Outgoing, Net}
use prompt_graft.Proxy.Forwarder.{
  Forwarder, upstream_url, upstream_auth, upstream_host, with_scheme, target_of, host_of, or_else,
  outgoing_header, outgoing, to_url, build_request,
}

abbrev pub credential : Bytes → List Bytes
credential auth = if is_empty (trim_space auth) then [] else trim_space auth ∷ []

values-apply_upstream_auth :
    (h : Header) (auth j : Bytes)
    → values (apply_upstream_auth h auth) j
      ≡ (if equal_fold authorization j then credential auth else values h j)
unfolding apply_upstream_auth
values-apply_upstream_auth h auth j = elim (Bool-cases (is_empty (trim_space auth))) [
  | inl e ↦ rw (e, values-del h authorization j)
  | inr e ↦
      rw (e, values-set (del h authorization) authorization (trim_space auth) j)
        (ground (arith, values-del h authorization j))
]

authorization_kept : is_withheld authorization ≡ false
unfolding is_withheld has_prefix to_upper equal_fold
authorization_kept = refl

authorization_self : equal_fold authorization authorization ≡ true
unfolding equal_fold
authorization_self = refl

-- What the upstream provider is sent of a request's headers, with the credential that it may see.
pub record IsClean (src : Header) (authority : Bytes) (out : Header) : Type 0 where
  -- no control header, and no Host entry
  pub no_control : (j : Bytes) → is_withheld j ≡ true → values out j ≡ []
  -- no credential but that one
  pub auth : values out authorization ≡ credential authority
  -- all else as it came
  pub others :
      (j : Bytes)
      → is_withheld j ≡ false
      → equal_fold authorization j ≡ false
      → values out j ≡ values src j

not-authorization : (j : Bytes) → is_withheld j ≡ true → equal_fold authorization j ≡ false
not-authorization j h = elim (Bool-cases (equal_fold authorization j)) [
  | inr e ↦ e
  | inl e ↦ let same = is_withheld-fold authorization j e in cc authorization_kept
]

has_key-values :
    (h : Header) (j : Bytes) → (if has_key h j then values h j else values [] j) ≡ values h j
unfolding values
has_key-values h j = elim (Bool-cases (has_key h j)) [
  | inl e ↦ rw e
  | inr e ↦ rw e (sym (values_absent h j e))
]

outgoing_header-IsClean :
    (src : Header) → HasDistinctKeys src → IsClean src (get src upstream_auth) (outgoing_header src)
unfolding outgoing_header values
outgoing_header-IsClean src d = record {
  no_control = λ j h.
      values-apply_upstream_auth (copy_headers [] src) (get src upstream_auth) j
      ∙ rw (not-authorization j h) (values-copy_headers_withheld [] src j h);
  auth =
      values-apply_upstream_auth (copy_headers [] src) (get src upstream_auth) authorization
      ∙ rw authorization_self;
  others = λ j h other.
      values-apply_upstream_auth (copy_headers [] src) (get src upstream_auth) j
      ∙ rw other (values-copy_headers [] src j d h ∙ has_key-values src j);
}

or_else_assoc : (s t u : Bytes) → or_else (or_else s t) u ≡ or_else s (or_else t u)
or_else_assoc [] t u = refl
or_else_assoc (c ∷ s) t u = refl

module _ (net : Net) (f : Forwarder) (r : Request) (body : Bytes) where
  -- Every request that is made has the same header, and its target is one of two.
  abbrev IsOutgoing : Outgoing → Type 0
  IsOutgoing out = (target : Url) × (host : Bytes) × (out ≡ outgoing r target host body)

  to_url-IsOutgoing :
      (u : Option Url) (out : Outgoing) → to_url net f r u body ≡ some out → IsOutgoing out
  unfolding to_url
  to_url-IsOutgoing none out e = cc
  to_url-IsOutgoing (some target) out e = (with_scheme net f r target, target.host, ground arith)

  build_request-IsOutgoing :
      (out : Outgoing) → build_request net f r body ≡ some out → IsOutgoing out
  unfolding build_request
  build_request-IsOutgoing out e =
      elim (Bool-cases (is_empty (trim_space (get r.header upstream_url)))) [
        | inl direct ↦ (target_of net f r, host_of net f r, ground arith)
        | inr named ↦
            to_url-IsOutgoing (net.parse_url (trim_space (get r.header upstream_url))) out
              (rw named at e)
      ]

  -- A request that is sent upstream has the inbound method and the given body. Its headers hold no
  -- X-PG- control header; its only credential is that of X-PG-Auth, so the inbound Authorization
  -- never leaves; every other header keeps its values. The inbound header's keys are distinct.
  pub build_request-IsClean :
      (out : Outgoing)
      → HasDistinctKeys r.header
      → build_request net f r body ≡ some out
      → IsClean r.header (get r.header upstream_auth) out.header
        × (out.method ≡ r.method)
        × (out.body ≡ body)
  build_request-IsClean out d e =
      let (target, host, same) = build_request-IsOutgoing out e in
      rw same (outgoing_header-IsClean r.header d, refl, refl)

  -- With no X-PG-Upstream-Url the request goes to the inbound path and query on the first host that
  -- is set: X-PG-Upstream-Host, then the configured default, then the inbound host.
  pub build_request_direct :
      (out : Outgoing)
      → trim_space (get r.header upstream_url) ≡ []
      → build_request net f r body ≡ some out
      → (out.host ≡ or_else (get r.header upstream_host) (or_else f.default_host r.host))
        × (out.url.host ≡ out.host)
        × (out.url.path ≡ r.path)
        × (out.url.raw_query ≡ r.raw_query)
  unfolding build_request
  build_request_direct out absent e =
      let e' = rw absent at e in
      let same : out ≡ outgoing r (target_of net f r) (host_of net f r) body = ground arith in
      rw same (or_else_assoc (get r.header upstream_host) f.default_host r.host, refl, refl, refl)
