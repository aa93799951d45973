-- ===== src/Database/Identity.antt =====
-- The rows of backend/internal/platform/database/models.go that the sessions work on.
use pdv.Base.{List, Option}
use pdv.Errors.{Text}
use pdv.Database.Rows.{Uuid, Time}

pub data UserStatus : Type 0 where
  user_active user_suspended user_disabled : UserStatus

pub record User : Type 0 where
  pub id : Uuid
  pub status : UserStatus

pub data AuthSessionStatus : Type 0 where
  active revoked compromised expired : AuthSessionStatus

pub data AuthContextKind : Type 0 where
  identity organization store : AuthContextKind

-- An address is a text.
pub record AuthSession : Type 0 where
  pub id : Uuid
  pub user_id : Uuid
  pub status : AuthSessionStatus
  pub client_id : Text
  pub device_name : Option Text
  pub user_agent : Option Text
  pub ip_address : Option Text
  pub context_kind : AuthContextKind
  pub current_organization_id : Option Uuid
  pub current_membership_id : Option Uuid
  pub current_store_id : Option Uuid
  pub idle_expires_at : Time
  pub absolute_expires_at : Time
  pub last_seen_at : Time
  pub revoked_at : Option Time
  pub revoke_reason : Option Text
  pub created_at : Time
  pub updated_at : Time

-- A hash is a text of bytes.
pub record AuthRefreshToken : Type 0 where
  pub id : Uuid
  pub session_id : Uuid
  pub parent_token_id : Option Uuid
  pub replaced_by_token_id : Option Uuid
  pub secret_hash : Text
  pub expires_at : Time
  pub consumed_at : Option Time
  pub revoked_at : Option Time
  pub created_at : Time

pub data AuditOutcome : Type 0 where
  success failure : AuditOutcome

-- The metadata is the list of its entries.
pub record SecurityAuditEvent : Type 0 where
  pub id : Uuid
  pub organization_id : Option Uuid
  pub store_id : Option Uuid
  pub actor_user_id : Option Uuid
  pub actor_membership_id : Option Uuid
  pub session_id : Option Uuid
  pub event_type : Text
  pub request_id : Option Text
  pub ip_address : Option Text
  pub user_agent : Option Text
  pub outcome : AuditOutcome
  pub metadata : List (Text × Text)
  pub occurred_at : Time
