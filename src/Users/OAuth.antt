-- ===== src/Users/OAuth.antt =====
-- `resolve_oauth_user` and `_link_or_request` of core/apps/users/services.py.
pub mod Trust
use text.Mathlib.Text.{◌==◌ as str_eq}
use saasmint.Base.{
  Bool, true, false, not, ◌&&◌, ◌||◌, Option, none, some, List, [], ◌∷◌, ◌++◌, String, ◌==◌,
  if◌then◌else◌, find, any,
}
use saasmint.Domain.{Uuid, User, SocialAccount}
use saasmint.Database.{Db, Action}
use saasmint.Database.Result.{Result, ok, err, Error}
use saasmint.Users.Accounts.{insert_user}
use saasmint.Users.Tokens.{find_user}

-- `OAuthUserInfo`
pub record UserInfo : Type 0 where
  pub email : String
  pub email_verified : Bool
  pub provider_user_id : String
  pub full_name : String

-- `OAuthResolution`
pub data Resolution : Type 0 where
  sign_in : User → Resolution
  collision : Option User → Resolution

-- The comparison of emails by the database, their normalisation, and a new user's id.
pub record OAuthEnv : Type 0 where
  pub iexact : String → String → Bool
  pub lower : String → String
  pub normalize_email : String → String
  pub fresh_id : Uuid

-- `provider in TRUSTED_FOR_AUTO_LINK`
unfoldable pub is_trusted : String → Bool
is_trusted p = str_eq p "google" || (str_eq p "github" || str_eq p "microsoft")

abbrev pub is_link : (provider provider_user_id : String) → SocialAccount → Bool
is_link provider uid a = str_eq a.provider provider && str_eq a.provider_user_id uid

-- The user of the social account, read with a join.
unfoldable pub linked_user : (provider provider_user_id : String) → Db → Option User
unfolding find_user
linked_user provider uid db = elim (find (is_link provider uid) db.social_accounts) [
  | none ↦ none
  | some a ↦ find_user a.user_id db
]

-- `SocialAccount.objects.get_or_create(…)`; a user has one account at a provider.
unfoldable pub get_or_create_link : (provider provider_user_id : String) → User → Action (Unit {0})
get_or_create_link provider uid user db =
    if any (is_link provider uid) db.social_accounts
    then (ok tt, db)
    else if any (λ (a : SocialAccount). a.user_id == user.id && str_eq a.provider provider)
        db.social_accounts
    then (err Error.integrity_error, db)
    else (
      ok tt,
      record db {
        social_accounts =
            db.social_accounts
            ++ (record { user_id = user.id; provider = provider; provider_user_id = uid }) ∷ [];
      },
    )

abbrev pub sign_in_after : User → Result (Unit {0}) × Db → Result Resolution × Db
sign_in_after user (ok _, db) = (ok (sign_in user), db)
sign_in_after user (err x, db) = (err x, db)

-- `_link_or_request`
unfoldable pub link_or_request : (provider : String) → UserInfo → User → Action Resolution
unfolding is_trusted get_or_create_link
link_or_request provider info existing db =
    if info.email_verified && is_trusted provider
    then sign_in_after existing (get_or_create_link provider info.provider_user_id existing db)
    else if not existing.is_active
    then (ok (collision none), db)
    else (ok (collision (some existing)), db)

module _ (e : OAuthEnv) (provider : String) (info : UserInfo) where
  -- The row of a new user, with no usable password.
  abbrev pub oauth_user : User
  oauth_user = record {
    id = e.fresh_id;
    email = e.normalize_email info.email;
    full_name = info.full_name;
    is_verified = true;
    is_active = true;
    has_password = false;
    password_changed_at = none;
  }

  abbrev pub by_email : Db → Option User
  by_email db = find (λ (u : User). e.iexact u.email info.email) db.users

  -- After an IntegrityError, whose transaction is taken back: the row that another request made meanwhile.
  abbrev pub after_race : Action Resolution
  after_race db = elim (by_email db) [
    | none ↦ (err Error.does_not_exist, db)
    | some existing ↦ link_or_request provider info existing db
  ]

  abbrev pub link_new : Result (Unit {0}) × Db → Db → Result Resolution × Db
  link_new (err x, db1) db = after_race db
  link_new (ok _, db1) db =
      let (linked, db2) = get_or_create_link provider info.provider_user_id oauth_user db1 in
      elim linked [ ok _ ↦ (ok (sign_in oauth_user), db2) | err x ↦ after_race db ]

  -- `resolve_oauth_user`
  unfoldable pub resolve_oauth_user : Action Resolution
  unfolding linked_user link_or_request insert_user get_or_create_link
  resolve_oauth_user db = elim (linked_user provider info.provider_user_id db) [
    | some user ↦ (ok (sign_in user), db)
    | none ↦ elim (by_email db) [
      | some existing ↦ link_or_request provider info existing db
      | none ↦
          if not info.email_verified
          then (err Error.email_not_verified, db)
          else link_new (insert_user e.lower oauth_user db) db
    ]
  ]
