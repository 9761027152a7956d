-- ===== src/Commands/Access/Agreement.antt =====
-- The route's check against the services' check.
use geoplane.Base.{String, Bool, true, false, ◌≡◌, arith}
use geoplane.Tenancy.Entities.{PlatformRole, client_owner}
use geoplane.Tenancy.Authorization.{can_access_client_organization, role_can_access}
use geoplane.Auth.Accounts.{AuthenticatedSession, is_agency_role}
use geoplane.Commands.Access.{
  is_client_type, client_org_of, build_geo_authorization_context,
  session_can_access_client_organization,
}

abbrev pub is_client_owner : PlatformRole → Bool
is_client_owner client_owner = true
is_client_owner _ = false

-- For a principal whose organization is a client's exactly if it is a client owner, the route's
-- check of a client organization is the check that the services make on the context built from
-- the same principal.
pub session_can_access-can_access :
    (session : AuthenticatedSession) (target : String)
    → is_client_type session.organization_type ≡ is_client_owner session.role
    → session_can_access_client_organization session target
      ≡ can_access_client_organization (build_geo_authorization_context session) target
unfolding session_can_access_client_organization build_geo_authorization_context
    can_access_client_organization role_can_access client_org_of is_agency_role
session_can_access-can_access session target same = ground arith
