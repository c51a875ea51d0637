-- ===== src/Domain/Orgs.antt =====
-- core/core/saasmint_core/domain/org.py and core/apps/orgs/models.py.
use saasmint.Base.{Bool, Option, String}
use saasmint.Domain.Subscriptions.{Uuid, Time}

pub data OrgRole : Type 0 where
  owner admin member : OrgRole

pub data InvitationStatus : Type 0 where
  pending accepted expired cancelled declined : InvitationStatus

-- `created_by` is a foreign key with SET_NULL.
pub record Org : Type 0 where
  pub id : Uuid
  pub name : String
  pub slug : String
  pub created_by : Option Uuid

pub record OrgMember : Type 0 where
  pub org_id : Uuid
  pub user_id : Uuid
  pub role : OrgRole
  pub is_billing : Bool

pub record Invitation : Type 0 where
  pub id : Uuid
  pub org_id : Uuid
  pub email : String
  pub role : OrgRole
  pub token : String
  pub status : InvitationStatus
  pub invited_by : Option Uuid
  pub expires_at : Time
