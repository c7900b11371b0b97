-- ===== src/Api/Guard.antt =====
-- Whom authWrap lets through.
use prompt_graft.Base.{
  sym, subst, Bool, true, false, not, ◌&&◌, Option, none, some, [], ◌∷◌, ◌++◌, ◌≡◌, ◌⊎◌, ◌↔◌, inl,
  inr, refl, is_empty, Bytes, codes, ◌==◌, ==_iff, ==_refl, Bool-cases,
}
use prompt_graft.Text.{trim_space}
use prompt_graft.Proxy.Headers.{Header, get, authorization}
use prompt_graft.Proxy.Http.{Request, Response}
use prompt_graft.Proxy.Auth.{bearer, valid_bearer_token, valid_bearer_token_iff}
use prompt_graft.Api.{Settings, is_health, is_static, is_admin, auth_wrap}

-- Who may use a route: the health route is for all; a static page is for all if no password is set, and
-- for the user `admin` with the password otherwise; every other route is for all if no token is set,
-- and for requests whose Authorization header is "Bearer " and the token otherwise.
abbrev pub IsAllowed : Settings → Option (Bytes × Bytes) → Request → Type 0
IsAllowed cfg basic r =
    (r.path ≡ codes "/health")
    ⊎ (((is_static r ≡ true)
          × ((cfg.studio_password ≡ []) ⊎ (basic ≡ some (codes "admin", cfg.studio_password))))
        ⊎ ((is_static r ≡ false)
            × ((cfg.auth_token ≡ [])
                ⊎ ((rest : Bytes) × (get r.header authorization ≡ bearer ++ rest)
                    × (trim_space rest ≡ cfg.auth_token)))))

both_true : (a b : Bool) → (a && b) ≡ true → (a ≡ true) × (b ≡ true)
both_true true b e = (refl, e)
both_true false b e = cc

is_admin_iff :
    (password : Bytes) (basic : Option (Bytes × Bytes))
    → (is_admin password basic ≡ true) ↔ (basic ≡ some (codes "admin", password))
is_admin_iff password none = (λ e. cc, λ e. cc)
is_admin_iff password (some (user, pass)) = (
  λ e.
      let (u, p) = both_true (user == codes "admin") (pass == password) e in
      let named : user ≡ codes "admin" = (==_iff user (codes "admin")).0 u in
      let known : pass ≡ password = (==_iff pass password).0 p in rw (named, known) refl,
  λ e.
      subst (λ b. is_admin password b ≡ true) (sym e)
        (rw (==_refl (codes "admin"), ==_refl password) refl),
)

-- A secret that is asked for guards, and one that is empty does not.
guarded :
    (secret : Bytes) (valid : Bool)
    → ((secret ≡ []) ⊎ (valid ≡ true)) ↔ ((not (is_empty secret) && not valid) ≡ false)
guarded [] valid = (λ h. refl, λ e. inl refl)
guarded (c ∷ secret) true = (λ h. refl, λ e. inr refl)
guarded (c ∷ secret) false = (refused, λ e. cc)
  where
    refused : ((c ∷ secret ≡ []) ⊎ (false ≡ true)) → true ≡ false
    refused (inl e) = cc
    refused (inr e) = cc

not_both : {b : Bool} → b ≡ true → b ≡ false → ⊥
not_both e f = cc (e, f)

module _ (cfg : Settings) (basic : Option (Bytes × Bytes)) (r : Request) where
  abbrev studio_refused : Bool
  studio_refused = not (is_empty cfg.studio_password) && not (is_admin cfg.studio_password basic)

  abbrev token_refused : Bool
  token_refused =
      not (is_empty cfg.auth_token)
      && not (valid_bearer_token (get r.header authorization) cfg.auth_token)

  map_right : {A B C : Type 0} → (B → C) → A ⊎ B → A ⊎ C
  map_right f (inl a) = inl a
  map_right f (inr b) = inr (f b)

  studio_refused_iff :
      ((cfg.studio_password ≡ []) ⊎ (basic ≡ some (codes "admin", cfg.studio_password)))
      ↔ (studio_refused ≡ false)
  studio_refused_iff =
      let admin = is_admin_iff cfg.studio_password basic in
      let g = guarded cfg.studio_password (is_admin cfg.studio_password basic) in
      (λ h. g.0 (map_right admin.1 h), λ e. map_right admin.0 (g.1 e))

  token_refused_iff :
      ((cfg.auth_token ≡ [])
        ⊎ ((rest : Bytes) × (get r.header authorization ≡ bearer ++ rest)
            × (trim_space rest ≡ cfg.auth_token)))
      ↔ (token_refused ≡ false)
  token_refused_iff =
      let token = valid_bearer_token_iff (get r.header authorization) cfg.auth_token in
      let g =
        guarded cfg.auth_token (valid_bearer_token (get r.header authorization) cfg.auth_token) in
      (λ h. g.0 (map_right token.1 h), λ e. map_right token.0 (g.1 e))

  not_static :
      is_health r ≡ false → is_static r ≡ true → studio_refused ≡ true → IsAllowed cfg basic r → ⊥
  not_static h s e (inl p) = not_both ((==_iff r.path (codes "/health")).1 p) h
  not_static h s e (inr (inl (t, g))) = not_both e (studio_refused_iff.0 g)
  not_static h s e (inr (inr (f, g))) = not_both s f

  not_other :
      is_health r ≡ false → is_static r ≡ false → token_refused ≡ true → IsAllowed cfg basic r → ⊥
  not_other h s e (inl p) = not_both ((==_iff r.path (codes "/health")).1 p) h
  not_other h s e (inr (inl (t, g))) = not_both t s
  not_other h s e (inr (inr (f, g))) = not_both e (token_refused_iff.0 g)

  -- A request reaches the routes exactly when it is allowed: then the answer is that of the routes, and
  -- otherwise it is 401, whatever the routes would have answered.
  pub auth_wrap_lem :
      (next : Request → Response) (w : Header)
      → (IsAllowed cfg basic r × (auth_wrap cfg next w basic r ≡ next r))
        ⊎ ((IsAllowed cfg basic r → ⊥) × ((auth_wrap cfg next w basic r).status ≡ 401))
  unfolding auth_wrap
  auth_wrap_lem next w = elim (Bool-cases (is_health r)) [
    | inl h ↦ inl (inl ((==_iff r.path (codes "/health")).0 h), rw h refl)
    | inr h ↦ elim (Bool-cases (is_static r)) [
      | inl s ↦ elim (Bool-cases studio_refused) [
        | inl e ↦ inr (not_static h s e, rw (h, s, e) refl)
        | inr e ↦ inl (inr (inl (s, studio_refused_iff.1 e)), rw (h, s, e) refl)
      ]
      | inr s ↦ elim (Bool-cases token_refused) [
        | inl e ↦ inr (not_other h s e, rw (h, s, e) refl)
        | inr e ↦ inl (inr (inr (s, token_refused_iff.1 e)), rw (h, s, e) refl)
      ]
    ]
  ]
