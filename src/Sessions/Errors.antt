-- ===== src/Sessions/Errors.antt =====
-- backend/internal/sessions/errors.go.
use pdv.Errors.{Error, sentinel, wrap}
use pdv.Base.{String}

pub data Sentinel : Type 0 where
  refresh_token_missing refresh_token_invalid refresh_token_expired refresh_token_reused : Sentinel
  session_not_found session_revoked session_expired session_compromised session_not_owned : Sentinel
  invalid_client_id invalid_context user_suspended user_disabled dependency_unavailable : Sentinel

abbrev pub SessionsError : Type 0
SessionsError = Error Sentinel

-- fmt.Errorf("%w: text", ErrX)
abbrev pub because : Sentinel → String → SessionsError
because s text = wrap text (sentinel s)
