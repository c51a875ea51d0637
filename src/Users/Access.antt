-- ===== src/Users/Access.antt =====
-- The access tokens of core/apps/users/authentication.py: their claims, and `JWTAuthentication`. The encoding, the
-- signature and the expiry are the library's: a request comes with the decoded payload or the library's error.
use saasmint.Base.{ℕ, ◌&&◌, none, some, [], ◌∷◌, ◌++◌, String, ◌==◌, ltb, if◌then◌else◌, find}
use saasmint.Domain.{Uuid, User}
use saasmint.Json.{Value, num, str, obj, end, entry}
use saasmint.Json.Access.{get, get_default, as_int, equals_text}
use saasmint.Database.Result.{Result, ok, err, Error, ◌>>=◌}
use saasmint.Billing.Env.{Texts}
use saasmint.Users.Accounts.{Site, Visit, cached_user}

-- `int(pwd_changed.timestamp()) if pwd_changed else 0`
abbrev pub pwd_iat_of : User → ℕ
pwd_iat_of u = elim u.password_changed_at [ none ↦ 0 | some t ↦ t ]

-- The claims of `create_access_token` that the site reads again; `iat` and `exp` are for the library.
unfoldable pub create_access_token : Texts → User → Value
create_access_token t user = obj (
    entry "sub" (str (t.show_uuid user.id)) (
      entry "email" (str user.email)
        (entry "type" (str "access") (entry "pwd_iat" (num (pwd_iat_of user)) end))))

-- `not isinstance(sub, str) or not sub`; a text that is no UUID fails in the query.
unfoldable pub read_sub : Texts → Value → Result Uuid
read_sub t (str String.[]) = err Error.invalid_token
read_sub t (str (String.◌∷◌ c s)) = elim (t.parse_uuid (String.◌∷◌ c s)) [
  | none ↦ err Error.validation_error
  | some u ↦ ok u
]
read_sub t v = err Error.invalid_token

-- The user and the `pwd_iat` of a payload.
unfoldable pub read_claims : Texts → Value → Result (Uuid × ℕ)
unfolding get get_default equals_text as_int read_sub
read_claims t payload = do
  type ← get "type" payload
  sub ← if equals_text "access" type then get "sub" payload else err Error.invalid_token
  user_id ← read_sub t sub
  raw ← get_default "pwd_iat" (num 0) payload
  ok (user_id, elim (as_int raw) [ none ↦ 0 | some n ↦ n ])

-- The user from the cache, else from the table, which fills the cache.
unfoldable pub load_user : Uuid → Visit User
load_user u w = elim (cached_user u w) [
  | some user ↦ (ok user, w)
  | none ↦ elim (find (λ (r : User). r.id == u && r.is_active) w.db.users) [
    | none ↦ (err Error.user_not_found, w)
    | some user ↦ (ok user, record w { cached = w.cached ++ user ∷ [] })
  ]
]

-- Whether the token is older than the last change of the password.
abbrev pub check_pwd_iat : ℕ → Result User × Site → Result User × Site
check_pwd_iat pwd_iat (err x, w) = (err x, w)
check_pwd_iat pwd_iat (ok user, w) =
    (if ltb pwd_iat (pwd_iat_of user) then err Error.token_revoked else ok user, w)

-- `JWTAuthentication.authenticate` of a Bearer token.
unfoldable pub authenticate : Texts → (decoded : Result Value) → Visit User
unfolding read_claims load_user
authenticate t decoded w = elim (decoded >>= read_claims t) [
  | err x ↦ (err x, w)
  | ok (user_id, pwd_iat) ↦ check_pwd_iat pwd_iat (load_user user_id w)
]
