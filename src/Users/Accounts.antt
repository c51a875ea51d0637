-- ===== src/Users/Accounts.antt =====
-- The user rows: their insert by `UserManager.create_user` of core/apps/users/managers.py, and their saves.
use text.Mathlib.Text.{◌==◌ as str_eq}
use saasmint.Base.{
  ◌||◌, Option, List, [], ◌∷◌, ◌++◌, String, ◌==◌, if◌then◌else◌, any, find, reject, update_where,
}
use saasmint.Domain.{Uuid, User}
use saasmint.Database.{Db, Action}
use saasmint.Database.Result.{Result, ok, err, Error}

-- The email is unique, and unique up to case.
unfoldable pub insert_user : (lower : String → String) → User → Action (Unit {0})
insert_user lower u db =
    if any (λ (r : User). str_eq r.email u.email || str_eq (lower r.email) (lower u.email)) db.users
    then (err Error.integrity_error, db)
    else (ok tt, record db { users = db.users ++ u ∷ [] })

-- The tables beside the cache of `JWTAuthentication`, which holds users by their id. An entry that times out is
-- one that is not there.
pub record Site : Type 0 where
  pub db : Db
  pub cached : List User

abbrev pub cached_user : Uuid → Site → Option User
cached_user u w = find (λ (r : User). r.id == u) w.cached

-- `user.save(update_fields=[…])`, after which the `post_save` signal drops the user from the cache.
unfoldable pub save_user : Uuid → (User → User) → Site → Site
save_user u f w = record {
  db = record w.db { users = update_where (λ (r : User). r.id == u) f w.db.users };
  cached = reject (λ (r : User). r.id == u) w.cached;
}

abbrev pub Visit : Type 0 → Type 0
Visit A = Site → Result A × Site

-- A step on the tables alone.
abbrev pub at_db : {A : Type 0} → Action A → Visit A
at_db m w = let (r, db') = m w.db in (r, record w { db = db' })
