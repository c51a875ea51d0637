-- ===== src/Users/Tokens/Rotation.antt =====
-- `rotate_refresh_token` of core/apps/users/authentication.py: a refresh token is good for one rotation.
use saasmint.Base.{
  ℕ, ◌+◌, ◌≡◌, refl, inl, inr, true, false, none, some, List, [], ◌∷◌, ◌++◌, String, ◌==◌, find,
  any, update_where, arith, Bool-cases, Option-cases, find-eq-some, find-update_where, find-append,
  ==_refl,
}
use saasmint.Domain.{Uuid, User, RefreshToken}
use saasmint.Database.{Db}
use saasmint.Database.Result.{ok, err, Error}
use saasmint.Users.Tokens.{
  TokenEnv, find_user, has_hash, is_live, create_refresh_token, revoke_all_refresh_tokens,
  save_revoked, get_refresh_token, rotate_refresh_token,
}

-- After `revoke_all_refresh_tokens` the user has no live token.
no_live :
    (u : Uuid) (now : ℕ) (rows : List RefreshToken)
    → any (is_live u) (update_where (is_live u) (λ t. record t { revoked_at = some now }) rows)
      ≡ false
no_live u now [] = refl
no_live u now (t ∷ rows) = ground (arith, no_live u now rows)

-- What a successful rotation wrote.
rotated :
    (e : TokenEnv) (raw fresh : String) (user : User) (db db' : Db)
    → rotate_refresh_token e raw db ≡ (ok (user, fresh), db')
    → (rt : RefreshToken) × (get_refresh_token (e.hash_token raw) db ≡ some (rt, user))
      × (db'.users ≡ db.users)
      × (db'.refresh_tokens
          ≡ update_where
              (has_hash rt.token_hash)
              (λ t. record t { revoked_at = some e.now })
              db.refresh_tokens
            ++ (record {
              user_id = user.id;
              token_hash = e.hash_token e.fresh_token;
              expires_at = e.now + 604800;
              revoked_at = none;
            })
              ∷ [])
unfolding rotate_refresh_token create_refresh_token save_revoked
rotated e raw fresh user db db' h = elim (Option-cases (get_refresh_token (e.hash_token raw) db)) [
  | inl missing ↦ ground arith
  | inr ((rt, owner), found) ↦
      let fresh_hash = e.hash_token e.fresh_token in
      elim (Bool-cases (any (has_hash fresh_hash) (save_revoked e rt db).refresh_tokens)) [
        | inl clash ↦ ground arith
        | inr free ↦ (rt, ground arith, ground arith, ground arith)
      ]
]

get_of_both :
    (h : ℕ) (db : Db) (t : RefreshToken) (u : User)
    → find (has_hash h) db.refresh_tokens ≡ some t
    → find (λ (r : User). r.id == t.user_id) db.users ≡ some u
    → get_refresh_token h db ≡ some (t, u)
unfolding get_refresh_token find_user
get_of_both h db t u there known = rw (get_refresh_token, there, find_user, known) refl

-- The row that a rotation read is found again, revoked.
get_again :
    (e : TokenEnv) (raw : String) (user : User) (db db' : Db) (rt : RefreshToken)
    → get_refresh_token (e.hash_token raw) db ≡ some (rt, user)
    → db'.users ≡ db.users
    → db'.refresh_tokens
      ≡ update_where
          (has_hash rt.token_hash)
          (λ t. record t { revoked_at = some e.now })
          db.refresh_tokens
        ++ (record {
          user_id = user.id;
          token_hash = e.hash_token e.fresh_token;
          expires_at = e.now + 604800;
          revoked_at = none;
        })
          ∷ []
    → get_refresh_token (e.hash_token raw) db' ≡ some (record rt { revoked_at = some e.now }, user)
unfolding get_refresh_token find_user
get_again e raw user db db' rt found users written =
    elim (Option-cases (find (has_hash (e.hash_token raw)) db.refresh_tokens)) [
      | inl missing ↦ ground arith
      | inr (t, present) ↦
          let key = find-eq-some (has_hash (e.hash_token raw)) db.refresh_tokens t present in
          let updated =
            find-update_where (has_hash (e.hash_token raw)) (has_hash rt.token_hash)
              (λ t. record t { revoked_at = some e.now }) db.refresh_tokens (λ x. refl) in
          let appended =
            find-append (has_hash (e.hash_token raw))
              (update_where (has_hash rt.token_hash) (λ t. record t { revoked_at = some e.now })
                db.refresh_tokens)
              ((record {
                user_id = user.id;
                token_hash = e.hash_token e.fresh_token;
                expires_at = e.now + 604800;
                revoked_at = none;
              })
                ∷ []) in
          elim (Option-cases (find (λ (r : User). r.id == t.user_id) db.users)) [
            | inl nobody ↦ ground arith
            | inr (u, looked) ↦
                let same : t ≡ rt = ground arith in
                let same_user : u ≡ user = ground arith in
                let own : has_hash rt.token_hash t ≡ true = rw same (==_refl rt.token_hash) in
                let there : find (has_hash (e.hash_token raw)) db'.refresh_tokens
                    ≡ some (record t { revoked_at = some e.now }) =
                  rw (written, appended, updated, present) (rw own refl) in
                let known : find (λ (r : User). r.id == t.user_id) db'.users ≡ some u =
                  rw users looked in
                rw (← same, ← same_user)
                  (get_of_both (e.hash_token raw) db' (record t { revoked_at = some e.now }) u there
                    known)
          ]
    ]

-- A refresh token that was rotated is revoked: to rotate it again is refused, and revokes every live
-- token of its user, the one just issued included.
pub rotate_refresh_token-reuse :
    (e e' : TokenEnv) (raw fresh : String) (user : User) (db db' : Db)
    → rotate_refresh_token e raw db ≡ (ok (user, fresh), db')
    → e'.hash_token raw ≡ e.hash_token raw
    → ((rotate_refresh_token e' raw db').0 ≡ err Error.token_revoked)
      × (any (is_live user.id) (rotate_refresh_token e' raw db').1.refresh_tokens ≡ false)
unfolding rotate_refresh_token revoke_all_refresh_tokens
rotate_refresh_token-reuse e e' raw fresh user db db' h same =
    let (rt, found, users, written) = rotated e raw fresh user db db' h in
    let again : get_refresh_token (e'.hash_token raw) db'
        ≡ some (record rt { revoked_at = some e.now }, user) =
      rw same (get_again e raw user db db' rt found users written) in
    (
      rw (rotate_refresh_token, again) refl,
      rw (rotate_refresh_token, again) (no_live user.id e'.now db'.refresh_tokens),
    )
