-- ===== src/Users/OAuth/Trust.antt =====
-- What an identity provider that has not confirmed the email can do.
use saasmint.Base.{◌≡◌, refl, false, Option, none, some, String, inl, inr, Bool-cases, Option-cases}
use saasmint.Domain.{User}
use saasmint.Database.{Db}
use saasmint.Database.Result.{Result, ok, err}
use saasmint.Users.OAuth.{
  UserInfo, Resolution, sign_in, collision, OAuthEnv, linked_user, link_or_request, by_email,
  resolve_oauth_user,
}

link_or_request-unverified :
    (provider : String) (info : UserInfo) (existing : User) (db : Db)
    → info.email_verified ≡ false
    → (o : Option User) × (link_or_request provider info existing db ≡ (ok (collision o), db))
unfolding link_or_request
link_or_request-unverified provider info existing db unverified =
    elim (Bool-cases existing.is_active) [
      | inl active ↦ (some existing, rw (link_or_request, unverified, active) refl)
      | inr inactive ↦ (none, rw (link_or_request, unverified, inactive) refl)
    ]

-- Where a user is signed in, it is the one who was linked.
abbrev pub SignsInOnly : Option User → Result Resolution → Type 0
SignsInOnly linked (ok (sign_in user)) = linked ≡ some user
SignsInOnly linked (ok (collision o)) = Unit
SignsInOnly linked (err x) = Unit

-- When the provider has not confirmed the email, nothing is written, and a user is signed in only by a link to the
-- provider's account that was there before: an account that has the same email is not taken over.
pub resolve_oauth_user-SignsInOnly :
    (e : OAuthEnv) (provider : String) (info : UserInfo) (db : Db)
    → info.email_verified ≡ false
    → let (result, db') = resolve_oauth_user e provider info db in
      (db' ≡ db) × SignsInOnly (linked_user provider info.provider_user_id db) result
unfolding resolve_oauth_user
resolve_oauth_user-SignsInOnly e provider info db unverified =
    elim (Option-cases (linked_user provider info.provider_user_id db)) [
      | inr (linked, there) ↦ rw (resolve_oauth_user, there) (refl, refl)
      | inl unlinked ↦ elim (Option-cases (by_email e provider info db)) [
        | inl unknown ↦ rw (resolve_oauth_user, unlinked, unknown, unverified) (refl, tt)
        | inr (existing, known) ↦
            let (o, refused) = link_or_request-unverified provider info existing db unverified in
            rw (resolve_oauth_user, unlinked, known, refused) (refl, tt)
      ]
    ]
