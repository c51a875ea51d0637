-- ===== src/Users/Examples.antt =====
-- The theorems about core/apps/users at one user's tokens.
use saasmint.Base.{◌≤◌, ◌≡◌, refl, false, any, [], ◌∷◌, arith}
use saasmint.Database.{Db}
use saasmint.Database.Result.{err, Error}
use saasmint.Samples.{db, user}
use saasmint.Users.Tokens.{TokenEnv, is_live, rotate_refresh_token}
use saasmint.Users.Tokens.Rotation.{rotate_refresh_token-reuse}
use saasmint.Users.Tokens.Redeeming.{claims_won, claims_won-at_most_one}
use Prim.Native.String.{len}

abbrev env : TokenEnv
env = record { now = 100; fresh_token = "long-token"; hash_token = λ t. len t }

abbrev rotated : Db
rotated = (rotate_refresh_token env "token1" db).1

rotate_refresh_token-reuse_example :
    ((rotate_refresh_token env "token1" rotated).0 ≡ err Error.token_revoked)
    × (any (is_live 11) (rotate_refresh_token env "token1" rotated).1.refresh_tokens ≡ false)
unfolding rotate_refresh_token
rotate_refresh_token-reuse_example =
    rotate_refresh_token-reuse env env "token1" "long-token" (user 11) db rotated refl refl

claims_won-at_most_one_example : claims_won 6 ((100, 6) ∷ (101, 6) ∷ (102, 9) ∷ []) db ≤ 1
claims_won-at_most_one_example =
    claims_won-at_most_one 6 ((100, 6) ∷ (101, 6) ∷ (102, 9) ∷ []) db (omega arith)
