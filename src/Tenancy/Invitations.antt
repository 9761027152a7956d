-- ===== src/Tenancy/Invitations.antt =====
-- contracts/tenancy/invitations.ts. The random token and UUID are arguments; `Date` values are
-- milliseconds from the epoch on.
pub mod Lifecycle
use geoplane.Base.{
  ℕ, ◌+◌, ◌*◌, String, Bool, true, false, not, ◌&&◌, ◌==◌, Option, none, some, Result, ok, err,
  ◌>>◌, throw_if, get_or, leb, if◌then◌else◌,
}
use geoplane.Base.Host.{Host}
use geoplane.Tenancy.Entities.{
  PlatformRole, Invitation, InvitationStatus, pending, accepted, revoked, expired,
  AuthorizationContext,
}
use geoplane.Tenancy.Authorization.{AuthorizationDenied, assert_is_platform_admin}

abbrev pub default_invitation_ttl_ms : ℕ
default_invitation_ttl_ms = 7 * 24 * 60 * 60 * 1000

pub record IssueInvitationInput : Type 0 where
  pub id : Option String
  pub organization_id : String
  pub invited_email : String
  pub role : PlatformRole
  pub created_by_user_id : String
  pub now : ℕ
  pub ttl_ms : Option ℕ
  pub token : Option String

pub record IssuedInvitation : Type 0 where
  pub invitation : Invitation
  pub token : String

pub record RevokeInvitationArgs : Type 0 where
  pub invitation_id : String
  pub actor : AuthorizationContext
  pub now : ℕ

-- The errors that `revokeInvitation` throws.
pub data RevokeError : Type 0 where
  id_mismatch : (invitation_id requested_id : String) → RevokeError
  not_authorized : AuthorizationDenied → RevokeError

-- An expiry time that is no date is never passed: NaN compares false.
abbrev pub has_passed : Host → String → ℕ → Bool
has_passed host time now = elim (host.get_time time) [ none ↦ false | some ms ↦ leb ms now ]

assert_ops_surface_authorized : AuthorizationContext → Result RevokeError (Unit {0})
assert_ops_surface_authorized actor = elim (assert_is_platform_admin actor) [
  | ok done ↦ ok done
  | err d ↦ err (not_authorized d)
]

abbrev pub is_revoked : InvitationStatus → Bool
is_revoked revoked = true
is_revoked _ = false

abbrev pub is_pending : InvitationStatus → Bool
is_pending pending = true
is_pending _ = false

module _ (host : Host) where
  unfoldable pub hash_invitation_token : String → String
  hash_invitation_token token = host.sha256_hex token

  unfoldable pub issue_invitation :
      (random_token uuid : String) → IssueInvitationInput → IssuedInvitation
  unfolding hash_invitation_token
  issue_invitation random_token uuid input =
      let token = get_or input.token random_token in
      record {
        invitation = record {
          id = get_or input.id uuid;
          organization_id = input.organization_id;
          invited_email = input.invited_email;
          role = input.role;
          status = pending;
          token_hash = hash_invitation_token token;
          created_by_user_id = input.created_by_user_id;
          created_at = host.to_iso_string input.now;
          expires_at =
              host.to_iso_string (input.now + get_or input.ttl_ms default_invitation_ttl_ms);
          revoked_at = none;
          revoked_by_user_id = none;
        };
        token = token;
      }

  -- the spread `{ ...invitation, status: "REVOKED", ... }`
  abbrev pub mark_revoked : Invitation → RevokeInvitationArgs → Invitation
  mark_revoked invitation args = record invitation {
    status = revoked;
    revoked_at = some (host.to_iso_string args.now);
    revoked_by_user_id = some args.actor.actor_user_id;
  }

  unfoldable pub revoke_invitation :
      Invitation → RevokeInvitationArgs → Result RevokeError Invitation
  unfolding assert_ops_surface_authorized
  revoke_invitation invitation args = do
    throw_if (not (invitation.id == args.invitation_id))
        (id_mismatch invitation.id args.invitation_id)
    assert_ops_surface_authorized args.actor
    if is_revoked invitation.status then ok invitation else ok (mark_revoked invitation args)

  unfoldable pub effective_invitation_status : Invitation → ℕ → InvitationStatus
  effective_invitation_status invitation now =
      if is_pending invitation.status && has_passed host invitation.expires_at now
      then expired
      else invitation.status

  unfoldable pub is_invitation_usable : Invitation → ℕ → Bool
  unfolding effective_invitation_status
  is_invitation_usable invitation now = is_pending (effective_invitation_status invitation now)
