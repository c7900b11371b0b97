-- ===== src/Api.antt =====
-- `authWrap` of internal/api/server.go, which guards every route of the API service. `basic` is what
-- r.BasicAuth() reads of a request; the routes are the handler `next`.
pub mod Guard
mod Tests
use prompt_graft.Base.{
  ℕ, Bool, true, false, not, ◌&&◌, ◌||◌, Option, none, some, List, [], ◌∷◌, ◌++◌, ◌≡◌, ◌≢◌, ◌⊎◌,
  ◌↔◌, inl, inr, refl, is_empty, if◌then◌else◌, Bytes, codes, ◌==◌, ==_iff, ==_refl, arith,
  Bool-cases,
}
use prompt_graft.Text.{trim_space}
use prompt_graft.Proxy.Headers.{Header, get, set, authorization}
use prompt_graft.Proxy.Http.{Request, Response}
use prompt_graft.Proxy.Auth.{bearer, valid_bearer_token, valid_bearer_token_iff}

pub record Settings : Type 0 where
  pub auth_token : Bytes
  pub studio_password : Bytes

abbrev pub is_health : Request → Bool
is_health r = r.path == codes "/health"

abbrev pub is_static : Request → Bool
is_static r = (r.path == codes "/") || (r.path == codes "/studio-chat.html")

-- ok && user == "admin" && pass == cfg.StudioPassword
abbrev pub is_admin : Bytes → Option (Bytes × Bytes) → Bool
is_admin password none = false
is_admin password (some (user, pass)) = (user == codes "admin") && (pass == password)

abbrev studio_denial : Header → Response
studio_denial w = record {
  status = 401;
  header = set w (codes "WWW-Authenticate") (codes "Basic realm=\"Prompt Graft\"");
  body = codes "Unauthorized";
}

abbrev token_denial : Header → Response
token_denial w = record {
  status = 401;
  header = set w (codes "Content-Type") (codes "application/json");
  body = codes "{\"error\":\"unauthorized\"}";
}

unfoldable pub auth_wrap :
    Settings → (Request → Response) → Header → Option (Bytes × Bytes) → Request → Response
auth_wrap cfg next w basic r =
    if is_health r
    then next r
    else if is_static r
    then (if not (is_empty cfg.studio_password) && not (is_admin cfg.studio_password basic)
        then studio_denial w
        else next r)
    else if not (is_empty cfg.auth_token)
        && not (valid_bearer_token (get r.header authorization) cfg.auth_token)
    then token_denial w
    else next r
