-- ===== src/Sessions/Input.antt =====
-- What the sessions are given: backend/internal/sessions/service.go, validation.go and helpers.go. The codec of
-- refresh tokens, the clock, the source of random identifiers and the parser of addresses are parameters.
use pdv.Base.{◌&&◌, ◌||◌, Bool, not, ℕ, Option, Result, err, fail_if, if◌then◌else◌}
use pdv.Errors.{Text, codes, validation}
use pdv.Database.Rows.{Uuid, Time}
use pdv.Database.Identity.{AuthContextKind, identity, organization, store}
use pdv.Database.Sales.{text_eq}
use pdv.Database.Sessions.{is_none}
use pdv.Database.Store.{Db}
use pdv.Sessions.Errors.{SessionsError}

pub record ParsedRefreshToken : Type 0 where
  pub selector : Uuid
  pub secret : Text

-- RefreshTokenCodec, the clock, Config, newRandomUUID, netip.ParseAddr. What is random depends on the run.
pub record Dependencies : Type 0 where
  pub parse : Text → Result SessionsError ParsedRefreshToken
  pub verify_secret : Text → Text → Bool
  pub generate : Db → Uuid → Result SessionsError (Text × Text)
  pub random_uuid : Db → Result SessionsError Uuid
  pub parse_addr : Text → Option Text
  pub clock_now : Db → Time
  pub refresh_idle_ttl : ℕ
  pub session_absolute_ttl : ℕ

pub record RequestMetadata : Type 0 where
  pub client_ip : Text
  pub user_agent : Text
  pub request_id : Text

pub record CreateSessionInput : Type 0 where
  pub user_id : Uuid
  pub client_id : Text
  pub device_name : Option Text
  pub user_agent : Option Text
  pub ip_address : Option Text
  pub context_kind : AuthContextKind
  pub organization_id : Option Uuid
  pub membership_id : Option Uuid
  pub store_id : Option Uuid

unfoldable pub validate_client_id : Text → Result SessionsError (Unit {0})
validate_client_id client_id =
    fail_if
      (not (text_eq client_id (codes "pdv-web")) && not (text_eq client_id (codes "pdv-admin")))
      (validation (codes "client_id") "unsupported client id")

unfoldable pub validate_context_coherence :
    AuthContextKind → Option Uuid → Option Uuid → Option Uuid → Result SessionsError (Unit {0})
validate_context_coherence identity org membership branch =
    fail_if (not (is_none org) || (not (is_none membership) || not (is_none branch)))
      (validation (codes "context") "identity context must not have tenant attributes")
validate_context_coherence organization org membership branch =
    if is_none org || is_none membership
    then err (
        validation (codes "context")
          "organization context requires organization_id and membership_id")
    else fail_if (not (is_none branch))
        (validation (codes "context") "organization context must not have store_id")
validate_context_coherence store org membership branch =
    fail_if (is_none org || (is_none membership || is_none branch)) (
      validation (codes "context")
        "store context requires organization_id, membership_id, and store_id")
