-- ===== src/Api/Tests.antt =====
-- The guard on a concrete request.
use prompt_graft.Base.{false, none, [], ◌∷◌, ◌≡◌, ◌⊎◌, codes}
use prompt_graft.Proxy.Headers.{authorization}
use prompt_graft.Proxy.Http.{Request, Response}
use prompt_graft.Api.{Settings, auth_wrap}
use prompt_graft.Api.Guard.{IsAllowed, auth_wrap_lem}

abbrev closed : Settings
closed = record { auth_token = codes "t"; studio_password = codes "p" }

abbrev sessions : Request
sessions = record {
  method = codes "GET";
  path = codes "/api/sessions";
  raw_query = [];
  host = codes "api";
  header = (authorization, codes "Bearer t" ∷ []) ∷ [];
  body = record { content = []; fails = false };
}

abbrev found : Request → Response
found r = record { status = 200; header = []; body = codes "ok" }

auth_wrap_lem_example :
    (IsAllowed closed none sessions × (auth_wrap closed found [] none sessions ≡ found sessions))
    ⊎ ((IsAllowed closed none sessions → ⊥)
        × ((auth_wrap closed found [] none sessions).status ≡ 401))
auth_wrap_lem_example = auth_wrap_lem closed none sessions found []
