-- ===== src/Users/Auth/Examples.antt =====
-- The theorems about the sign-in code at one user.
use Prim.Native.String.{len}
use saasmint.Json.Access.{truthy}
use saasmint.Base.{Bool, ◌≤◌, ◌≡◌, refl, false, none, some, [], ◌∷◌, arith}
use saasmint.Domain.{User, OneTimeToken}
use saasmint.Json.{Value}
use saasmint.Database.Result.{Result, ok, err, Error}
use saasmint.Samples.{db, user, texts}
use saasmint.Users.Accounts.{Site}
use saasmint.Users.Access.{create_access_token, read_claims, authenticate}
use saasmint.Users.Tokens.{TokenEnv}
use saasmint.Users.Auth.{AuthEnv, change_password, reset_password, verify_email, with_password}
use saasmint.Users.Auth.Revoked.{
  is_ok, others_live, change_password-refused, read_claims-create_access_token,
}
use saasmint.Users.Auth.Consumed.{verify_email-burnt}
use saasmint.Users.OAuth.{UserInfo, OAuthEnv, linked_user, resolve_oauth_user}
use saasmint.Users.OAuth.Trust.{SignsInOnly, resolve_oauth_user-SignsInOnly}
use saasmint.Users.Exchange.{
  Exchange, Steps, here, then, add, get, store_oauth_exchange, add_sentinel, get_data,
}
use saasmint.Users.Exchange.Once.{store_oauth_exchange-once}

abbrev tokens : TokenEnv
tokens = record { now = 100; fresh_token = "long-token"; hash_token = λ t. len t }

abbrev env : AuthEnv
env = record {
  now = 100;
  one_time = tokens;
  session = tokens;
  texts = texts;
  iexact = λ a b. false;
  normalize_email = λ t. t;
  fresh_id = 70;
  backend = λ a b d. none;
  check_password = λ u p. Bool.true;
}

abbrev token : OneTimeToken
token = record { user_id = 11; token_hash = 5; expires_at = 200; used_at = none }

abbrev invitee : User
invitee = record (user 11) { has_password = false; is_verified = false }

abbrev site : Site
site = record {
  db = record db { users = invitee ∷ []; one_time_tokens = token ∷ []; reset_tokens = token ∷ [] };
  cached = user 11 ∷ [];
}

abbrev old_token : Result Value
old_token = ok (create_access_token texts (user 11))

abbrev changed_site : Site
changed_site = (change_password env (user 11) "old" "new" site).1

change_password-refused_example :
    (others_live 11 10 changed_site.db ≡ false)
    × (is_ok (authenticate texts old_token changed_site).0 ≡ false)
unfolding change_password read_claims create_access_token
change_password-refused_example =
    change_password-refused env (user 11) "old" "new" site changed_site
      (record {
        access = create_access_token texts (with_password 100 (user 11));
        refresh = "long-token";
      })
      texts old_token 0 refl refl (omega arith)

abbrev reset_site : Site
reset_site = (reset_password env "reset" "new" site).1

verify_email-burnt_example :
    verify_email env "token" (some "secret") (verify_email env "token" none site).1
    ≡ (err Error.token_used, (verify_email env "token" none site).1)
unfolding verify_email
verify_email-burnt_example =
    verify_email-burnt env env "token" (some "secret") site (verify_email env "token" none site).1
      refl refl

read_claims-create_access_token_example :
    read_claims texts (create_access_token texts (user 11)) ≡ ok (11, 0)
unfolding truthy
read_claims-create_access_token_example = read_claims-create_access_token texts (user 11) refl refl

abbrev oauth : OAuthEnv
oauth = record {
  iexact = λ a b. Bool.true;
  lower = λ t. t;
  normalize_email = λ t. t;
  fresh_id = 70;
}

abbrev info : UserInfo
info = record {
  email = "user@example.com";
  email_verified = false;
  provider_user_id = "7";
  full_name = "A User";
}

resolve_oauth_user-SignsInOnly_example :
    let (result, db') = resolve_oauth_user oauth "google" info site.db in
    (db' ≡ site.db) × SignsInOnly (linked_user "google" "7" site.db) result
resolve_oauth_user-SignsInOnly_example =
    resolve_oauth_user-SignsInOnly oauth "google" info site.db refl

-- Two requests add their sentinels, and the one that has won gets the pair later.
abbrev raced : Exchange
raced = get_data (add_sentinel (add_sentinel (store_oauth_exchange 100)))

race : Steps (store_oauth_exchange 100) raced
unfolding add_sentinel store_oauth_exchange
race =
    then _ _ _
      (then _ _ _ (then _ _ _ (here (store_oauth_exchange 100)) (add (store_oauth_exchange 100)))
        (add (add_sentinel (store_oauth_exchange 100))))
      (get (add_sentinel (add_sentinel (store_oauth_exchange 100))) (omega arith))

store_oauth_exchange-once_example : raced.served ≤ 1
store_oauth_exchange-once_example = store_oauth_exchange-once 100 raced race
