-- ===== src/Users/Auth/Revoked.antt =====
-- What a new password does to the sessions of its user: ChangePasswordView and ResetPasswordView of
-- core/apps/users/auth_views.py, with `JWTAuthentication`.
use saasmint.Base.{
  ℕ, ◌+◌, ◌<◌, ◌≡◌, refl, ap, sym, ◌∙◌, Bool, true, false, not, ◌&&◌, none, some, List, [], ◌∷◌,
  ◌++◌, String, ◌==◌, find, any, reject, update_where, any-append, any-reject-same, find-of-not-any,
  arith, inl, inr, Bool-cases, Option-cases, ==_refl,
}
use saasmint.Domain.{Uuid, Time, User, RefreshToken, OneTimeToken}
use saasmint.Json.{Value}
use saasmint.Json.Access.{get, get_default, lookup, equals_text, as_int, truthy}
use saasmint.Json.{str}
use saasmint.Database.{Db}
use saasmint.Database.Result.{Result, ok, err, ◌>>=◌}
use saasmint.Billing.Env.{Texts}
use saasmint.Users.Accounts.{Site, save_user, cached_user}
use saasmint.Users.Access.{
  pwd_iat_of, create_access_token, read_sub, read_claims, load_user, authenticate,
}
use saasmint.Users.Tokens.{
  has_hash, is_live, create_refresh_token, revoke_all_refresh_tokens, consume_one_time_token,
}
use saasmint.Users.Auth.{
  AuthEnv, TokenPair, token_response, with_password, start_over, reset_user, reset_password,
  change_password, on_reset_tokens,
}

abbrev pub is_ok {ℓ} : {A : Type ℓ} → Result A → Bool
is_ok (ok a) = true
is_ok (err x) = false

module _ (u : Uuid) (now : Time) (f : User → User) where
  -- The row that is found after the save has the new time.
  found_changed :
      ((x : User) → (f x).password_changed_at ≡ some now)
      → (rows : List User) (r : User)
      → find
          (λ (x : User). x.id == u && x.is_active)
          (update_where (λ (x : User). x.id == u) f rows)
        ≡ some r
      → r.password_changed_at ≡ some now
  found_changed hf [] r h = ground arith
  found_changed hf (x ∷ rows) r h = elim (Bool-cases (x.id == u)) [
    | inr other ↦ found_changed hf rows r (ground arith)
    | inl own ↦ elim (Bool-cases ((f x).id == u && (f x).is_active)) [
      | inr hidden ↦ found_changed hf rows r (ground arith)
      | inl there ↦
          let same : f x ≡ r = ground arith in
          ap (λ (y : User). y.password_changed_at) (sym same) ∙ hf x
    ]
  ]

-- A payload that is older than the password of the row that is loaded.
refused :
    {u : Uuid} {now : Time} (t : Texts) (decoded : Result Value) (iat : ℕ) (w : Site)
    → (decoded >>= read_claims t) ≡ ok (u, iat)
    → iat < now
    → cached_user u w ≡ none
    → ((r : User)
        → find (λ (x : User). x.id == u && x.is_active) w.db.users ≡ some r
        → r.password_changed_at ≡ some now)
    → is_ok (authenticate t decoded w).0 ≡ false
unfolding authenticate load_user
refused {u} {now} t decoded iat w claims older uncached stamped =
    elim (Option-cases (find (λ (x : User). x.id == u && x.is_active) w.db.users)) [
      | inl nobody ↦ rw (authenticate, claims, load_user, uncached, nobody) refl
      | inr (r, there) ↦
          let at = stamped r there in
          rw (authenticate, claims, load_user, uncached, there) (ground arith)
    ]

revoked_rows :
    (u : Uuid) (now : Time) (h : ℕ) (rows : List RefreshToken)
    → any
        (λ t. is_live u t && not (has_hash h t))
        (update_where (is_live u) (λ t. record t { revoked_at = some now }) rows)
      ≡ false
revoked_rows u now h [] = refl
revoked_rows u now h (t ∷ rows) = ground (arith, revoked_rows u now h rows)

module _ (e : AuthEnv) (u : Uuid) (f : User → User) (user : User) where
  fresh_hash : ℕ
  fresh_hash = e.session.hash_token e.session.fresh_token

  abbrev is_older : RefreshToken → Bool
  is_older t = is_live u t && not (has_hash fresh_hash t)

  abbrev fresh_row : RefreshToken
  fresh_row = record {
    user_id = user.id;
    token_hash = fresh_hash;
    expires_at = e.session.now + 604800;
    revoked_at = none;
  }

  -- What a save, a revocation and a new pair of tokens write.
  started_over :
      (w w' : Site) (pair : TokenPair)
      → start_over e u f user w ≡ (ok pair, w')
      → (w'.db.users ≡ update_where (λ (x : User). x.id == u) f w.db.users)
        × (w'.cached ≡ reject (λ (x : User). x.id == u) w.cached)
        × (any (λ t. is_live u t && not (has_hash fresh_hash t)) w'.db.refresh_tokens ≡ false)
  unfolding start_over save_user token_response create_refresh_token revoke_all_refresh_tokens
      fresh_hash
  started_over w w' pair h =
      let revoked =
        update_where (is_live u) (λ t. record t { revoked_at = some e.session.now })
          w.db.refresh_tokens in
      let old = revoked_rows u e.session.now fresh_hash w.db.refresh_tokens in
      elim (Bool-cases (any (has_hash fresh_hash) revoked)) [
        | inl clash ↦ ground arith
        | inr free ↦
            let issued : w'.db.refresh_tokens ≡ revoked ++ fresh_row ∷ [] = ground arith in
            (
              ground arith,
              ground arith,
              rw (issued, any-append is_older revoked (fresh_row ∷ []), old, ==_refl fresh_hash)
                  (ground arith),
            )
      ]

  -- So an access token from before is refused, where the save stamps the row with the time.
  start_over-refused :
      (w w' : Site) (pair : TokenPair) (t : Texts) (decoded : Result Value) (iat : ℕ)
      → ((x : User) → (f x).password_changed_at ≡ some e.now)
      → start_over e u f user w ≡ (ok pair, w')
      → (decoded >>= read_claims t) ≡ ok (u, iat)
      → iat < e.now
      → is_ok (authenticate t decoded w').0 ≡ false
  start_over-refused w w' pair t decoded iat stamped h claims older =
      let (users, cached, revoked) = started_over w w' pair h in
      let own : User → Bool = λ x. x.id == u in
      refused t decoded iat w' claims older
        (rw (cached, find-of-not-any own (reject own w.cached) (any-reject-same own w.cached)) refl)
        (λ r found. found_changed u e.now f stamped w.db.users r (rw users at found))

-- The live refresh tokens of a user but for the one with this hash.
abbrev pub others_live : Uuid → (fresh_hash : ℕ) → Db → Bool
others_live u h db = any (λ t. is_live u t && not (has_hash h t)) db.refresh_tokens

-- A change of the password that succeeds ends the sessions of the user that started before: of the user's refresh
-- tokens only the new one is live, and an access token of the user whose `pwd_iat` is before the change is refused,
-- also where the cache held the user.
pub change_password-refused :
    (e : AuthEnv) (user : User) (current new : String) (w w' : Site) (pair : TokenPair)
    → (t : Texts) (decoded : Result Value) (iat : ℕ)
    → change_password e user current new w ≡ (ok pair, w')
    → (decoded >>= read_claims t) ≡ ok (user.id, iat)
    → iat < e.now
    → (others_live user.id (e.session.hash_token e.session.fresh_token) w'.db ≡ false)
      × (is_ok (authenticate t decoded w').0 ≡ false)
unfolding change_password fresh_hash
change_password-refused e user current new w w' pair t decoded iat h claims older =
    elim (Bool-cases (e.check_password user current)) [
      | inr wrong ↦ ground arith
      | inl right ↦
          let changed = with_password e.now in
          let steps : start_over e user.id changed (changed user) w ≡ (ok pair, w') =
            rw (change_password, right) at h in
          (
            (started_over e user.id changed (changed user) w w' pair steps).2,
            start_over-refused e user.id changed (changed user) w w' pair t decoded iat (λ x. refl)
                steps claims older,
          )
    ]

-- A reset of the password that succeeds with a reset token of a user ends that user's sessions in the same way.
pub reset_password-refused :
    (e : AuthEnv) (token password : String) (w w' : Site) (pair : TokenPair)
    → (row : OneTimeToken) (user : User) (t : Texts) (decoded : Result Value) (iat : ℕ)
    → (on_reset_tokens (consume_one_time_token e.one_time token) w.db).0 ≡ ok (row, user)
    → reset_password e token password w ≡ (ok pair, w')
    → (decoded >>= read_claims t) ≡ ok (user.id, iat)
    → iat < e.now
    → (others_live user.id (e.session.hash_token e.session.fresh_token) w'.db ≡ false)
      × (is_ok (authenticate t decoded w').0 ≡ false)
unfolding reset_password fresh_hash
reset_password-refused e token password w w' pair row user t decoded iat found h claims older =
    let v : Site = record w {
      db = (on_reset_tokens (consume_one_time_token e.one_time token) w.db).1;
    } in
    let steps : start_over e user.id (reset_user e) (reset_user e user) v ≡ (ok pair, w') =
      rw (reset_password, found) at h in
    (
      (started_over e user.id (reset_user e) (reset_user e user) v w' pair steps).2,
      start_over-refused e user.id (reset_user e) (reset_user e user) v w' pair t decoded iat
          (λ x. refl) steps claims older,
    )

read_sub_text :
    (t : Texts) (s : String) (u : Uuid)
    → t.parse_uuid s ≡ some u
    → truthy (str s) ≡ true
    → read_sub t (str s) ≡ ok u
unfolding read_sub truthy
read_sub_text t String.[] u parsed nonempty = ground arith
read_sub_text t (String.◌∷◌ c s) u parsed nonempty = rw (read_sub, parsed) refl

-- The claims of an access token are read back: the user's id and the time of the last change of the password, or 0,
-- where the UUID parser reads back what `str(uuid)` wrote, which is not empty.
pub read_claims-create_access_token :
    (t : Texts) (user : User)
    → t.parse_uuid (t.show_uuid user.id) ≡ some user.id
    → truthy (str (t.show_uuid user.id)) ≡ true
    → read_claims t (create_access_token t user) ≡ ok (user.id, pwd_iat_of user)
unfolding read_claims create_access_token truthy get get_default lookup equals_text as_int
read_claims-create_access_token t user parsed nonempty =
    rw (read_sub_text t (t.show_uuid user.id) user.id parsed nonempty) refl
