-- ===== src/Examples/Access.antt =====
-- Reading projects and selecting a client at concrete inputs.
use geoplane.Base.{String, Option, none, some, List, [], ◌∷◌, ok, ◌≡◌, ◌↔◌, ◌⊎◌, refl}
use geoplane.Tenancy.Entities.{OrganizationType, PlatformRole, agency_operator, client_owner}
use geoplane.Tenancy.Authorization.{can_access_client_organization}
use geoplane.Auth.Responses.{api_err, forbidden}
use geoplane.Auth.Ports.{Readers}
use geoplane.Auth.Accounts.{
  AuthenticatedSession, AgencyActingContext, agency_surface, is_agency_role,
}
use geoplane.Auth.Service.{project_view, project_denied, get_project, set_agency_context}
use geoplane.Auth.Service.Access.{MayRead, get_project_lem, set_agency_context-get_project}
use geoplane.Auth.Runtime.{build_auth_service_deps}
use geoplane.Commands.Access.{
  build_geo_authorization_context, session_can_access_client_organization,
}
use geoplane.Commands.Access.Agreement.{session_can_access-can_access}
use geoplane.Examples.Auth.{repositories, acme, project}

abbrev session :
    PlatformRole → OrganizationType → Option String → List String → AuthenticatedSession
session role type pinned assigned = record {
  session_id = "s1";
  user_id = "u1";
  email = "ann@acme";
  display_name = none;
  role = role;
  organization_id = "home";
  organization_type = type;
  active_client_organization_id = pinned;
  assigned_client_organization_ids = assigned;
  acting_client_organization_id = none;
}

abbrev operator : AuthenticatedSession
operator = session agency_operator OrganizationType.agency none ("acme" ∷ "other" ∷ [])

abbrev stranger : AuthenticatedSession
stranger = session client_owner OrganizationType.client (some "other") []

abbrev readers : Readers
readers = build_auth_service_deps repositories

found : readers.find_project "p1" ≡ some project
unfolding build_auth_service_deps
found = refl

home : readers.find_organization "acme" ≡ some acme
unfolding build_auth_service_deps
home = refl

get_project_lem_example :
    (MayRead stranger "acme"
      × (get_project readers stranger "p1"
          ≡ record { response = ok (project_view project acme); audit_intents = [] }))
    ⊎ ((¬ MayRead stranger "acme")
        × (get_project readers stranger "p1" ≡ record {
          response = api_err forbidden "Not authorized to access this project.";
          audit_intents = project_denied stranger project ∷ [];
        }))
get_project_lem_example = get_project_lem readers stranger "p1" project acme found home

abbrev acting : AgencyActingContext
acting = record {
  agency_organization_id = "acme";
  agency_organization_name = "Acme";
  acting_client_organization_id = "acme";
  acting_client_organization_name = "Acme";
  surface = agency_surface;
}

selects : (set_agency_context readers operator "acme").response ≡ ok acting
unfolding set_agency_context build_auth_service_deps is_agency_role
selects = refl

set_agency_context-get_project_example :
    let switched = (set_agency_context readers operator "acme").session in
    ((get_project readers switched "p1").response ≡ ok (project_view project acme)) ↔ (
      ((get_project readers operator "p1").response ≡ ok (project_view project acme))
      × (project.client_organization_id ≡ "acme"))
set_agency_context-get_project_example =
    set_agency_context-get_project readers operator "acme" "p1" {context = acting} project acme
      found home refl selects

session_can_access-can_access_example :
    session_can_access_client_organization operator "other"
    ≡ can_access_client_organization (build_geo_authorization_context operator) "other"
session_can_access-can_access_example = session_can_access-can_access operator "other" refl
