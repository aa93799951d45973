-- ===== src/Tests/Sessions.antt =====
-- Runs of the commands on sessions.
use pdv.Base.{◌++◌, ◌∷◌, ◌+◌, ◌≡◌, ◌⊎◌, refl, arith, true, err, is_ok, [], none, some, ok, length}
use pdv.Errors.{codes, wrap}
use pdv.Text.{decimal, value_of}
use pdv.Database.Identity.{AuthRefreshToken, AuthSession, active, identity}
use pdv.Database.Store.{Db, with_tx}
use pdv.Database.Sessions.{
  create_auth_session, create_refresh_token, get_refresh_token_for_update,
  get_auth_session_for_update, consume_and_replace_refresh_token, touch_session, create_audit_event,
}
use pdv.Sessions.Errors.{because, refresh_token_invalid, refresh_token_reused}
use pdv.Sessions.Input.{
  Dependencies, RequestMetadata, CreateSessionInput, validate_client_id, validate_context_coherence,
}
use pdv.Sessions.Service.{create_session}
use pdv.Sessions.Rotate.{rotate_refresh_token}
use pdv.Sessions.Revoke.{revoke_session, revoke_all_user_sessions}
use pdv.Sessions.Guard.{IsGuarded, count, live_of}
use pdv.Sessions.Commands.{
  create_session-IsGuarded, rotate_refresh_token-IsGuarded, revoke_session-IsGuarded,
}
use pdv.Sessions.Everywhere.{revoke_all_user_sessions-IsGuarded}
use pdv.Sessions.Mitigation.{compromise}
use pdv.Sessions.Reuse.{rotate_refresh_token-reused, rotate_refresh_token-fails}
use pdv.Tests.Samples.{calm, shop}

-- The identifier of a token is its text, and every secret is accepted.
abbrev plain : Dependencies
plain = record {
  parse = λ raw. ok (record { selector = value_of raw; secret = [] });
  verify_secret = λ secret hash. true;
  generate = λ db id. ok (decimal id, codes "hash");
  random_uuid = λ db. ok (500 + length db.auth_refresh_tokens);
  parse_addr = λ t. none;
  clock_now = λ db. 1;
  refresh_idle_ttl = 100;
  session_absolute_ttl = 1000;
}

abbrev browser : RequestMetadata
browser = record { client_ip = []; user_agent = codes "browser"; request_id = [] }

abbrev web : CreateSessionInput
web = record {
  user_id = 5;
  client_id = codes "pdv-web";
  device_name = none;
  user_agent = none;
  ip_address = none;
  context_kind = identity;
  organization_id = none;
  membership_id = none;
  store_id = none;
}

shop-IsGuarded : IsGuarded shop
shop-IsGuarded = record { deadlines = tt; owners = tt; single = λ id. omega arith }

abbrev logged_in : Db
logged_in = (create_session calm plain web shop).1

logged_in-IsGuarded : IsGuarded logged_in
logged_in-IsGuarded = create_session-IsGuarded calm plain web shop shop-IsGuarded

create_session-IsGuarded_example : IsGuarded (create_session calm plain web shop).1
create_session-IsGuarded_example = create_session-IsGuarded calm plain web shop shop-IsGuarded

abbrev rotated_once : Db
rotated_once = (rotate_refresh_token calm plain (codes "500") browser logged_in).1

created : is_ok (create_session calm plain web shop).0 ≡ true
unfolding create_session with_tx validate_client_id validate_context_coherence create_auth_session
    create_refresh_token
created = refl

rotates : is_ok (rotate_refresh_token calm plain (codes "500") browser logged_in).0 ≡ true
unfolding rotate_refresh_token with_tx get_refresh_token_for_update create_session
    validate_client_id validate_context_coherence create_auth_session create_refresh_token
    get_auth_session_for_update consume_and_replace_refresh_token touch_session create_audit_event
rotates = refl

rotate_refresh_token-IsGuarded_example :
    IsGuarded (rotate_refresh_token calm plain (codes "500") browser logged_in).1
rotate_refresh_token-IsGuarded_example =
    rotate_refresh_token-IsGuarded calm plain (codes "500") browser logged_in logged_in-IsGuarded

revoke_session-IsGuarded_example :
    IsGuarded
      (revoke_session calm plain 5 101 none
        (codes "user_revoked")
        "session.revoked"
        browser
        logged_in).1
revoke_session-IsGuarded_example =
    revoke_session-IsGuarded calm plain 5 101 none (codes "user_revoked") "session.revoked" browser
      logged_in logged_in-IsGuarded

revoke_all_user_sessions-IsGuarded_example :
    IsGuarded (revoke_all_user_sessions calm plain 5 101 browser logged_in).1
revoke_all_user_sessions-IsGuarded_example =
    revoke_all_user_sessions-IsGuarded calm plain 5 101 browser logged_in logged_in-IsGuarded

-- The token 500 as the first rotation has left it.
abbrev consumed : AuthRefreshToken
consumed = record {
  id = 500;
  session_id = 101;
  parent_token_id = none;
  replaced_by_token_id = some 501;
  secret_hash = codes "hash";
  expires_at = 1001;
  consumed_at = some 0;
  revoked_at = none;
  created_at = 0;
}

abbrev after_reuse : Db
after_reuse = (rotate_refresh_token calm plain (codes "500") browser rotated_once).1

abbrev rotated_session : AuthSession
rotated_session = record {
  id = 101;
  user_id = 5;
  status = active;
  client_id = codes "pdv-web";
  device_name = none;
  user_agent = none;
  ip_address = none;
  context_kind = identity;
  current_organization_id = none;
  current_membership_id = none;
  current_store_id = none;
  idle_expires_at = 101;
  absolute_expires_at = 1001;
  last_seen_at = 0;
  revoked_at = none;
  revoke_reason = none;
  created_at = 0;
  updated_at = 0;
}

rotate_refresh_token-reused_example :
    ((rotate_refresh_token calm plain (codes "500") browser rotated_once).0
      ≡ err (because refresh_token_reused "token was already consumed"))
    × (count (live_of 101) after_reuse.auth_refresh_tokens ≡ 0)
    × (after_reuse.auth_sessions ≡ compromise calm rotated_once 101)
    × (after_reuse.invalidated_sessions ≡ rotated_once.invalidated_sessions ++ 101 ∷ [])
unfolding rotate_refresh_token with_tx get_refresh_token_for_update create_session
    validate_client_id validate_context_coherence create_auth_session create_refresh_token
    get_auth_session_for_update consume_and_replace_refresh_token touch_session create_audit_event
rotate_refresh_token-reused_example =
    rotate_refresh_token-reused calm plain (codes "500") (record { selector = 500; secret = [] })
      browser rotated_once consumed rotated_session (λ name db. refl) refl refl refl refl refl refl
      refl

-- A token that is not there.
rotate_refresh_token-fails_example :
    ((rotate_refresh_token calm plain (codes "7") browser logged_in).1 ≡ logged_in)
    ⊎ (wrap "rotate refresh token transaction" (because refresh_token_invalid "token not found")
        ≡ because refresh_token_reused "token was already consumed")
unfolding rotate_refresh_token with_tx get_refresh_token_for_update create_session
    validate_client_id validate_context_coherence create_auth_session create_refresh_token
rotate_refresh_token-fails_example =
    rotate_refresh_token-fails calm plain (codes "7") browser logged_in
      (wrap "rotate refresh token transaction" (because refresh_token_invalid "token not found"))
      refl
