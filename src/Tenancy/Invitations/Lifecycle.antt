-- ===== src/Tenancy/Invitations/Lifecycle.antt =====
-- From issue to expiry or revocation: what an invitation can be used for, and when.
use geoplane.Base.{
  Bool-cases, inl, inr, ◌==◌, err, if◌then◌else◌, ℕ, ◌+◌, String, true, false, ◌≡◌, ok, arith,
  eq_iff, get_or, ltb,
}
use geoplane.Base.Host.{Host, ReadsDates}
use geoplane.Tenancy.Entities.{Invitation, revoked}
use geoplane.Tenancy.Authorization.{is_platform_admin, denied, assert_is_platform_admin}
use geoplane.Tenancy.Invitations.{
  mark_revoked, is_revoked, not_authorized, id_mismatch, IssueInvitationInput, RevokeInvitationArgs,
  default_invitation_ttl_ms, issue_invitation, revoke_invitation, effective_invitation_status,
  is_invitation_usable,
}

module _ (host : Host) where
  -- On a host that reads back the times it writes, a new invitation is usable up to the millisecond
  -- before its lifetime ends, and no longer.
  pub issued_usable_until :
      (random_token uuid : String) (input : IssueInvitationInput) (later : ℕ)
      → ReadsDates host
      → is_invitation_usable host (issue_invitation host random_token uuid input).invitation later
        ≡ ltb later (input.now + get_or input.ttl_ms default_invitation_ttl_ms)
  unfolding is_invitation_usable issue_invitation
  issued_usable_until random_token uuid input later reads =
      ground (arith, reads (input.now + get_or input.ttl_ms default_invitation_ttl_ms))

  -- Whoever revokes an invitation is a platform administrator who names its own id; it keeps its
  -- id and organization, and is revoked and not usable at any time, past its expiry too.
  pub revoked_unusable :
      (invitation : Invitation) (args : RevokeInvitationArgs) {result : Invitation} (later : ℕ)
      → revoke_invitation host invitation args ≡ ok result
      → (invitation.id ≡ args.invitation_id)
        × (is_platform_admin args.actor ≡ true)
        × (result.id ≡ invitation.id)
        × (result.organization_id ≡ invitation.organization_id)
        × (effective_invitation_status host result later ≡ revoked)
        × (is_invitation_usable host result later ≡ false)
  unfolding revoke_invitation is_invitation_usable assert_is_platform_admin
  revoked_unusable invitation args later h = ground (arith, eq_iff invitation.id args.invitation_id)

  -- An actor who is no platform administrator revokes no invitation: with the right id the call is
  -- refused for lack of rights, with another id for the id.
  pub revoke_refused :
      (invitation : Invitation) (args : RevokeInvitationArgs)
      → is_platform_admin args.actor ≡ false
      → revoke_invitation host invitation args
        ≡ err (
            if invitation.id == args.invitation_id
            then not_authorized (denied args.actor "<platform-scope>")
            else id_mismatch invitation.id args.invitation_id)
  unfolding revoke_invitation assert_is_platform_admin
  revoke_refused invitation args h = ground arith

  -- With its own id and a platform administrator's rights a revocation does not fail.
  pub revoke_total :
      (invitation : Invitation) (args : RevokeInvitationArgs)
      → invitation.id ≡ args.invitation_id
      → is_platform_admin args.actor ≡ true
      → (result : Invitation) × (revoke_invitation host invitation args ≡ ok result)
  unfolding revoke_invitation assert_is_platform_admin
  revoke_total invitation args own admin = elim (Bool-cases (is_revoked invitation.status)) [
    | inl already ↦ (invitation, ground (arith, eq_iff invitation.id args.invitation_id))
    | inr still ↦
        (mark_revoked host invitation args, ground (arith, eq_iff invitation.id args.invitation_id))
  ]
