-- ===== src/Tenancy/Sessions.antt =====
-- contracts/tenancy/sessions.ts: issuing a session and deciding whether it still stands. The
-- random UUID is an argument.
pub mod Validity
use geoplane.Base.{
  ℕ, ◌+◌, ◌*◌, String, Bool, true, false, not, ◌==◌, Option, none, some, Result, ok, err, ◌>>◌,
  throw_if, get_or, leb, is_none, if◌then◌else◌,
}
use geoplane.Base.Host.{Host}
use geoplane.Tenancy.Entities.{Membership, Session, AuthorizationContext}
use geoplane.Tenancy.Invitations.{has_passed}

abbrev pub default_session_ttl_ms : ℕ
default_session_ttl_ms = 24 * 60 * 60 * 1000

pub record IssueSessionInput : Type 0 where
  pub id : Option String
  pub now : ℕ
  pub ttl_ms : Option ℕ

pub record CurrentMembershipSessionVersion : Type 0 where
  pub membership_id : String
  pub session_version : ℕ

-- The errors that the functions of this file throw, each with the two ids that differ.
pub data SessionError : Type 0 where
  issue_membership_mismatch : (membership_id current_id : String) → SessionError
  issue_user_mismatch : (user_id actor_user_id : String) → SessionError
  version_membership_mismatch : (membership_id current_id : String) → SessionError

module _ (host : Host) where
  unfoldable pub issue_session :
      (uuid : String)
      → Membership
      → CurrentMembershipSessionVersion
      → AuthorizationContext
      → IssueSessionInput
      → Result SessionError Session
  issue_session uuid membership current ctx input = do
    throw_if (not (membership.id == current.membership_id))
        (issue_membership_mismatch membership.id current.membership_id)
    throw_if (not (membership.user_id == ctx.actor_user_id))
        (issue_user_mismatch membership.user_id ctx.actor_user_id)
    ok (record {
      id = get_or input.id uuid;
      user_id = membership.user_id;
      membership_id = membership.id;
      organization_id = membership.organization_id;
      role = ctx.actor_role;
      active_client_organization_id = ctx.active_client_organization_id;
      active_project_id = ctx.active_project_id;
      session_version = current.session_version;
      created_at = host.to_iso_string input.now;
      expires_at = host.to_iso_string (input.now + get_or input.ttl_ms default_session_ttl_ms);
      revoked_at = none;
    })

unfoldable pub is_session_version_current :
    Session → CurrentMembershipSessionVersion → Result SessionError Bool
is_session_version_current session current = do
  throw_if (not (session.membership_id == current.membership_id))
      (version_membership_mismatch session.membership_id current.membership_id)
  ok (leb current.session_version session.session_version)

unfoldable pub is_session_valid :
    Host → Session → CurrentMembershipSessionVersion → ℕ → Result SessionError Bool
unfolding is_session_version_current
is_session_valid host session current now =
    if not (is_none session.revoked_at)
    then ok false
    else if has_passed host session.expires_at now
    then ok false
    else is_session_version_current session current
