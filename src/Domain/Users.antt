-- ===== src/Domain/Users.antt =====
-- core/apps/users/models.py: the user row, the server-side tokens, and the links to OAuth providers.
use saasmint.Base.{ℕ, Bool, Option, String}
use saasmint.Domain.Subscriptions.{Uuid, Time}

-- `has_password` is false after `set_unusable_password()`.
pub record User : Type 0 where
  pub id : Uuid
  pub email : String
  pub full_name : String
  pub is_verified : Bool
  pub is_active : Bool
  pub has_password : Bool
  pub password_changed_at : Option Time

pub record RefreshToken : Type 0 where
  pub user_id : Uuid
  pub token_hash : ℕ
  pub expires_at : Time
  pub revoked_at : Option Time

pub record OneTimeToken : Type 0 where
  pub user_id : Uuid
  pub token_hash : ℕ
  pub expires_at : Time
  pub used_at : Option Time

pub record SocialAccount : Type 0 where
  pub user_id : Uuid
  pub provider : String
  pub provider_user_id : String
