-- ===== src/Tenancy/Sessions/Validity.antt =====
-- How long a session stands, and what ends it.
use geoplane.Base.{ℕ, ◌+◌, String, ◌&&◌, ◌≡◌, none, ok, arith, eq_iff, get_or, ltb, leb}
use geoplane.Base.Host.{Host, ReadsDates}
use geoplane.Tenancy.Entities.{Membership, Session, AuthorizationContext}
use geoplane.Tenancy.Sessions.{
  IssueSessionInput, CurrentMembershipSessionVersion, default_session_ttl_ms, issue_session,
  is_session_valid,
}

module _ (host : Host) where
  -- On a host that reads back the times it writes, a session that was issued stands, for its own
  -- membership, exactly while its lifetime runs and the live version of the membership has not
  -- passed the version at issue.
  pub issued_session_valid :
      (uuid : String) (membership : Membership) (issued : CurrentMembershipSessionVersion)
      (ctx : AuthorizationContext) (input : IssueSessionInput) {session : Session}
      (live : CurrentMembershipSessionVersion) (later : ℕ)
      → ReadsDates host
      → issue_session host uuid membership issued ctx input ≡ ok session
      → live.membership_id ≡ membership.id
      → is_session_valid host session live later
        ≡ ok (
            ltb later (input.now + get_or input.ttl_ms default_session_ttl_ms)
            && leb live.session_version issued.session_version)
  unfolding issue_session is_session_valid
  issued_session_valid uuid membership issued ctx input live later reads h same = ground (
    arith,
    reads (input.now + get_or input.ttl_ms default_session_ttl_ms),
    eq_iff membership.id live.membership_id,
  )

  -- A session is issued only to the user whose context asks for it, with the role and the pinned
  -- organization of that context and the user and organization of the membership.
  pub issue_session_identity :
      (uuid : String) (membership : Membership) (issued : CurrentMembershipSessionVersion)
      (ctx : AuthorizationContext) (input : IssueSessionInput) {session : Session}
      → issue_session host uuid membership issued ctx input ≡ ok session
      → (session.user_id ≡ ctx.actor_user_id)
        × (session.role ≡ ctx.actor_role)
        × (session.membership_id ≡ issued.membership_id)
        × (session.organization_id ≡ membership.organization_id)
        × (session.active_client_organization_id ≡ ctx.active_client_organization_id)
        × (session.revoked_at ≡ none)
  unfolding issue_session
  issue_session_identity uuid membership issued ctx input h = ground (
    arith,
    eq_iff membership.id issued.membership_id,
    eq_iff membership.user_id ctx.actor_user_id,
  )
