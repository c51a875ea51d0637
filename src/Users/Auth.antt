-- ===== src/Users/Auth.antt =====
-- The password views of core/apps/users/auth_views.py, after the validation of the request's body.

pub mod Examples
pub mod Revoked
pub mod Consumed
use text.Mathlib.Text.{◌==◌ as str_eq}
use saasmint.Base.{
  ℕ, ◌+◌, Bool, true, false, not, ◌&&◌, Option, none, some, List, [], ◌∷◌, ◌++◌, String, ◌==◌,
  if◌then◌else◌, is_some, find, any, update_where,
}
use saasmint.Domain.{Uuid, Time, User, OneTimeToken}
use saasmint.Json.{Value}
use saasmint.Database.{
  Db, Action, Task, send_verification_email, send_password_reset_email, enqueue,
}
use saasmint.Database.Result.{Result, ok, err, Error}
use saasmint.Billing.Env.{Texts}
use saasmint.Users.Accounts.{insert_user, Site, save_user, Visit, at_db}
use saasmint.Users.Access.{create_access_token}
use saasmint.Users.Tokens.{
  TokenEnv, create_refresh_token, rotate_refresh_token, revoke_refresh_token,
  revoke_all_refresh_tokens, create_one_time_token, consume_one_time_token,
}

-- What a view takes from outside: the clock; what `one_time` and `session` draw for a new one-time token and a new
-- refresh token; Django's `authenticate` and `check_password`; the comparison of emails by the database, the
-- normalisation of an email, and a new user's id.
pub record AuthEnv : Type 0 where
  pub now : Time
  pub one_time : TokenEnv
  pub session : TokenEnv
  pub texts : Texts
  pub iexact : String → String → Bool
  pub normalize_email : String → String
  pub fresh_id : Uuid
  pub backend : (email password : String) → Db → Option User
  pub check_password : User → String → Bool

-- `EMAIL_VERIFICATION_LIFETIME` and `PASSWORD_RESET_LIFETIME` in seconds.
abbrev pub verification_lifetime : ℕ
verification_lifetime = 86400

abbrev pub password_reset_lifetime : ℕ
password_reset_lifetime = 600

-- The claims of the access token and the raw refresh token.
pub record TokenPair : Type 0 where
  pub access : Value
  pub refresh : String

abbrev pub pair_with : AuthEnv → User → Result String × Site → Result TokenPair × Site
pair_with e user (err x, w) = (err x, w)
pair_with e user (ok raw, w) =
    (ok (record { access = create_access_token e.texts user; refresh = raw }), w)

-- `_token_response(user, create_refresh_token(user))`
unfoldable pub token_response : AuthEnv → User → Visit TokenPair
unfolding create_refresh_token
token_response e user w = pair_with e user (at_db (create_refresh_token e.session user) w)

-- The password reset tokens are a table of their own, with the same code.
abbrev pub on_reset_tokens : {A : Type 0} → Action A → Action A
on_reset_tokens m db =
    let (r, db') = m (record db { one_time_tokens = db.reset_tokens }) in
    (r, record db' { one_time_tokens = db.one_time_tokens; reset_tokens = db'.one_time_tokens })

abbrev pub mail_token : (String → Task) → Result String × Site → Result (Unit {0}) × Site
mail_token task (err x, w) = (err x, w)
mail_token task (ok raw, w) =
    (ok tt, record w { db = record w.db { queue = w.db.queue ++ task raw ∷ [] } })

-- `create_email_verification_token(user)` and its email.
unfoldable pub send_verification : AuthEnv → User → Visit (Unit {0})
unfolding create_one_time_token
send_verification e user w =
    mail_token (send_verification_email user.email)
      (at_db (create_one_time_token e.one_time user verification_lifetime) w)

-- `create_password_reset_token(user)` and its email.
unfoldable pub send_password_reset : AuthEnv → User → Visit (Unit {0})
unfolding create_one_time_token
send_password_reset e user w =
    mail_token (send_password_reset_email user.email)
      (at_db (on_reset_tokens (create_one_time_token e.one_time user password_reset_lifetime)) w)

abbrev pub new_user : AuthEnv → (email full_name : String) → User
new_user e email full_name = record {
  id = e.fresh_id;
  email = e.normalize_email email;
  full_name = full_name;
  is_verified = false;
  is_active = true;
  has_password = true;
  password_changed_at = none;
}

abbrev pub then_respond : AuthEnv → User → Result (Unit {0}) × Site → Result TokenPair × Site
then_respond e user (err x, w) = (err x, w)
then_respond e user (ok _, w) = token_response e user w

abbrev pub welcome : AuthEnv → User → Result (Unit {0}) × Site → Result TokenPair × Site
welcome e user (err x, w) = (err Error.email_exists, w)
welcome e user (ok _, w) = then_respond e user (send_verification e user w)

-- `_register_user`
unfoldable pub register_user : AuthEnv → (email password full_name : String) → Visit TokenPair
unfolding insert_user send_verification token_response
register_user e email password full_name w =
    if any (λ (u : User). e.iexact u.email email) w.db.users
    then (err Error.email_exists, w)
    else welcome e (new_user e email full_name)
        (at_db (insert_user e.texts.lower (new_user e email full_name)) w)

-- The row of a verified account, with the password that an invitee sets.
abbrev pub verified : User → User
verified u = record u { has_password = true; is_verified = true }

abbrev pub verify_consumed :
    AuthEnv → Option String → Result (OneTimeToken × User) × Site → Result TokenPair × Site
verify_consumed e password (err x, w) = (err x, w)
verify_consumed e password (ok (t, user), w) =
    if not user.has_password && not (is_some password)
    then (err Error.password_required, w)
    else if user.has_password && user.is_verified
    then token_response e user w
    else token_response e (verified user) (save_user user.id verified w)

-- `VerifyEmailView.post`; a password that is empty counts as none.
unfoldable pub verify_email :
    AuthEnv → (token : String) (password : Option String) → Visit TokenPair
unfolding consume_one_time_token token_response save_user
verify_email e token password w =
    verify_consumed e password (at_db (consume_one_time_token e.one_time token) w)

-- The unused verification tokens of a user, marked as used.
unfoldable pub invalidate_tokens : Time → Uuid → Db → Db
invalidate_tokens now u db = record db {
  one_time_tokens =
      update_where (λ (t : OneTimeToken). t.user_id == u && not (is_some t.used_at))
        (λ t. record t { used_at = some now }) db.one_time_tokens;
}

-- `ResendVerificationView.post`, which answers the same in any case.
unfoldable pub resend_verification : AuthEnv → (email : String) → Visit (Unit {0})
unfolding invalidate_tokens send_verification
resend_verification e email w =
    elim (find (λ (u : User). e.iexact u.email email && (u.is_active && not u.is_verified))
      w.db.users) [
        | none ↦ (ok tt, w)
        | some user ↦
            send_verification e user (record w { db = invalidate_tokens e.now user.id w.db })
      ]

-- `LoginView.post`
unfoldable pub login : AuthEnv → (email password : String) → Visit TokenPair
unfolding token_response
login e email password w = elim (e.backend email password w.db) [
  | none ↦ (err Error.invalid_credentials, w)
  | some user ↦
      if not user.is_active
      then (err Error.account_deactivated, w)
      else if not user.is_verified
      then (err Error.invalid_credentials, w)
      else token_response e user w
]

abbrev pub respond_rotated : AuthEnv → Result (User × String) × Site → Result TokenPair × Site
respond_rotated e (err x, w) = (err x, w)
respond_rotated e (ok (user, raw), w) = pair_with e user (ok raw, w)

-- `RefreshView.post`
unfoldable pub refresh : AuthEnv → (token : String) → Visit TokenPair
unfolding rotate_refresh_token
refresh e token w = respond_rotated e (at_db (rotate_refresh_token e.session token) w)

-- `LogoutView.post`
unfoldable pub logout : AuthEnv → (token : String) → Visit (Unit {0})
unfolding revoke_refresh_token
logout e token w = (ok tt, record w { db = revoke_refresh_token e.session token w.db })

-- `ForgotPasswordView.post`, which answers the same in any case.
unfoldable pub forgot_password : AuthEnv → (email : String) → Visit (Unit {0})
unfolding send_password_reset
forgot_password e email w =
    elim (find (λ (u : User). e.iexact u.email email && u.is_active) w.db.users) [
      | none ↦ (ok tt, w)
      | some user ↦ send_password_reset e user w
    ]

-- `user.set_password(…)`, `user.password_changed_at = now`
abbrev pub with_password : Time → User → User
with_password now u = record u { has_password = true; password_changed_at = some now }

-- The save of the changed row, the revocation of the refresh tokens, and a new pair.
unfoldable pub start_over : AuthEnv → (user : Uuid) → (User → User) → User → Visit TokenPair
unfolding save_user revoke_all_refresh_tokens token_response
start_over e u f user w =
    let saved = save_user u f w in
    token_response e user (record saved { db = revoke_all_refresh_tokens e.session u saved.db })

abbrev pub reset_user : AuthEnv → User → User
reset_user e u = record (with_password e.now u) { is_verified = true }

abbrev pub reset_consumed : AuthEnv → Result (OneTimeToken × User) × Site → Result TokenPair × Site
reset_consumed e (err x, w) = (err x, w)
reset_consumed e (ok (t, user), w) = start_over e user.id (reset_user e) (reset_user e user) w

-- `ResetPasswordView.post`
unfoldable pub reset_password : AuthEnv → (token password : String) → Visit TokenPair
unfolding consume_one_time_token start_over
reset_password e token password w =
    reset_consumed e (at_db (on_reset_tokens (consume_one_time_token e.one_time token)) w)

-- `ChangePasswordView.post` for the signed-in user.
unfoldable pub change_password :
    AuthEnv → User → (current_password new_password : String) → Visit TokenPair
unfolding start_over
change_password e user current_password new_password w =
    if not (e.check_password user current_password)
    then (err Error.invalid_password, w)
    else start_over e user.id (with_password e.now) (with_password e.now user) w
