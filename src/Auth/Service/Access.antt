-- ===== src/Auth/Service/Access.antt =====
-- Whose projects a principal reads, and what selecting a client changes.
use geoplane.Base.{
  String, true, false, none, some, [], ◌∷◌, ok, ◌≡◌, refl, ap, sym, ◌↔◌, ◌⊎◌, inl, inr, arith,
  eq_refl, includes_iff, is_text-eq_some, Bool-cases, Option-cases, Memᴰ,
}
use geoplane.Tenancy.Entities.{
  PlatformRole, platform_super_admin, agency_owner, agency_operator, client_owner, Organization,
  Project,
}
use geoplane.Tenancy.Authorization.{can_access_client_organization, role_can_access}
use geoplane.Auth.Responses.{forbidden, api_err}
use geoplane.Auth.Ports.{Readers}
use geoplane.Auth.Accounts.{
  AuthenticatedSession, AgencyActingContext, is_agency_role, context_from_session,
}
use geoplane.Auth.Service.{
  acting_blocks, may_read, project_denied, project_view, set_agency_context, read_project,
  get_project,
}

-- Whose projects: an administrator any, a client owner the pinned organization's, an agency
-- member those of an assigned client, and of no other client than the selected one.
pub data MayRead (session : AuthenticatedSession) (target : String) : Type 0 where
  as_admin : session.role ≡ platform_super_admin → MayRead session target
  as_client_owner :
      session.role ≡ client_owner
      → session.active_client_organization_id ≡ some target
      → MayRead session target
  as_agency_with_all_clients :
      is_agency_role session.role ≡ true
      → Memᴰ target session.assigned_client_organization_ids
      → session.acting_client_organization_id ≡ none
      → MayRead session target
  as_agency_for_client :
      is_agency_role session.role ≡ true
      → Memᴰ target session.assigned_client_organization_ids
      → session.acting_client_organization_id ≡ some target
      → MayRead session target

agency_sound :
    (session : AuthenticatedSession) (target : String)
    → is_agency_role session.role ≡ true
    → Memᴰ target session.assigned_client_organization_ids
    → acting_blocks session target ≡ false
    → MayRead session target
unfolding acting_blocks
agency_sound session target a m b = elim (Option-cases session.acting_client_organization_id) [
  | inl e ↦ as_agency_with_all_clients a m e
  | inr (client, e) ↦ as_agency_for_client a m (is_text-eq_some _ target (ground arith))
]

role_sound :
    (session : AuthenticatedSession) (target : String) (role : PlatformRole)
    → session.role ≡ role
    → may_read session target ≡ true
    → MayRead session target
unfolding may_read acting_blocks can_access_client_organization role_can_access context_from_session
    is_agency_role
role_sound session target platform_super_admin e h = as_admin e
role_sound session target client_owner e h =
    as_client_owner e (is_text-eq_some _ target (ground arith))
role_sound session target agency_owner e h =
    agency_sound session target (ground arith) ((includes_iff _ target).0 (ground arith))
      (ground arith)
role_sound session target agency_operator e h =
    agency_sound session target (ground arith) ((includes_iff _ target).0 (ground arith))
      (ground arith)

agency_complete :
    (session : AuthenticatedSession) (target : String)
    → is_agency_role session.role ≡ true
    → Memᴰ target session.assigned_client_organization_ids
    → acting_blocks session target ≡ false
    → may_read session target ≡ true
unfolding may_read can_access_client_organization role_can_access context_from_session
    is_agency_role
agency_complete session target a m b =
    ground (arith, (includes_iff session.assigned_client_organization_ids target).1 m)

may_read_sound :
    (session : AuthenticatedSession) (target : String)
    → may_read session target ≡ true
    → MayRead session target
may_read_sound session target h = role_sound session target session.role refl h

may_read_complete :
    (session : AuthenticatedSession) (target : String)
    → MayRead session target
    → may_read session target ≡ true
unfolding may_read acting_blocks can_access_client_organization role_can_access context_from_session
    is_agency_role
may_read_complete session target (as_admin e) = ground arith
may_read_complete session target (as_client_owner e p) = ground (arith, eq_refl target)
may_read_complete session target (as_agency_with_all_clients a m n) =
    agency_complete session target a m (ground arith)
may_read_complete session target (as_agency_for_client a m s) =
    agency_complete session target a m (ground (arith, eq_refl target))

may_read_refused :
    (session : AuthenticatedSession) (target : String)
    → may_read session target ≡ false
    → ¬ MayRead session target
may_read_refused session target barred may = cc (may_read_complete session target may, barred)

abbrev acting_for : AuthenticatedSession → String → AuthenticatedSession
acting_for session client = record session { acting_client_organization_id = some client }

narrow :
    (session : AuthenticatedSession) (client target : String)
    → is_agency_role session.role ≡ true
    → session.acting_client_organization_id ≡ none
    → MayRead (acting_for session client) target
    → MayRead session target × (target ≡ client)
unfolding is_agency_role
narrow session client target a fresh (as_admin e) = absurd (ground arith)
narrow session client target a fresh (as_client_owner e p) = absurd (ground arith)
narrow session client target a fresh (as_agency_with_all_clients b m n) = absurd (ground arith)
narrow session client target a fresh (as_agency_for_client b m s) =
    (as_agency_with_all_clients a m fresh, ground arith)

keep :
    (session : AuthenticatedSession) (client target : String)
    → is_agency_role session.role ≡ true
    → session.acting_client_organization_id ≡ none
    → MayRead session target
    → target ≡ client
    → MayRead (acting_for session client) target
unfolding is_agency_role
keep session client target a fresh (as_admin e) same = absurd (ground arith)
keep session client target a fresh (as_client_owner e p) same = absurd (ground arith)
keep session client target a fresh (as_agency_with_all_clients b m n) same =
    as_agency_for_client a m (ap some (sym same))
keep session client target a fresh (as_agency_for_client b m s) same = absurd (ground arith)

narrowed :
    (session : AuthenticatedSession) (client target : String)
    → is_agency_role session.role ≡ true
    → session.acting_client_organization_id ≡ none
    → MayRead (acting_for session client) target ↔ (MayRead session target × (target ≡ client))
narrowed session client target a fresh =
    (narrow session client target a fresh, λ h. keep session client target a fresh h.0 h.1)

module _ (readers : Readers) (session : AuthenticatedSession) where
  -- Of a project that is found with its client organization, either the principal may read it by
  -- the rule, gets the view and leaves no audit intent, or may not, is forbidden it and leaves the
  -- one intent that records the denial.
  pub get_project_lem :
      (project_id : String) (project : Project) (org : Organization)
      → readers.find_project project_id ≡ some project
      → readers.find_organization project.client_organization_id ≡ some org
      → (MayRead session project.client_organization_id
          × (get_project readers session project_id
              ≡ record { response = ok (project_view project org); audit_intents = [] }))
        ⊎ ((¬ MayRead session project.client_organization_id)
            × (get_project readers session project_id ≡ record {
              response = api_err forbidden "Not authorized to access this project.";
              audit_intents = project_denied session project ∷ [];
            }))
  unfolding get_project read_project
  get_project_lem project_id project org found home =
      let target = project.client_organization_id in
      elim (Bool-cases (may_read session target)) [
        | inl may ↦
            inl (may_read_sound session target may, rw (found, get_project) (rw (may, home) refl))
        | inr barred ↦
            inr (may_read_refused session target barred, rw (found, get_project) (rw barred refl))
      ]

  opened_iff :
      (project_id : String) (project : Project) (org : Organization)
      → readers.find_project project_id ≡ some project
      → readers.find_organization project.client_organization_id ≡ some org
      → ((get_project readers session project_id).response ≡ ok (project_view project org))
        ↔ MayRead session project.client_organization_id
  opened_iff project_id project org found home =
      elim (get_project_lem project_id project org found home) [
        | inl (may, e) ↦ ((λ h. may), λ h. rw (e) refl)
        | inr (barred, e) ↦ ((λ h. absurd (ground (arith, h, e))), λ may. absurd (barred may))
      ]

module _ (readers : Readers) (session : AuthenticatedSession) where
  -- When a principal that had no client selected has selected one, a project that is found with its
  -- client organization is opened to it exactly if it was opened before and is that client's.
  pub set_agency_context-get_project :
      (client_id project_id : String) {context : AgencyActingContext} (project : Project)
      (org : Organization)
      → readers.find_project project_id ≡ some project
      → readers.find_organization project.client_organization_id ≡ some org
      → session.acting_client_organization_id ≡ none
      → (set_agency_context readers session client_id).response ≡ ok context
      → let switched = (set_agency_context readers session client_id).session in
        let view = ok (project_view project org) in
        ((get_project readers switched project_id).response ≡ view) ↔ (
          ((get_project readers session project_id).response ≡ view)
          × (project.client_organization_id ≡ client_id))
  unfolding set_agency_context
  set_agency_context-get_project client_id project_id project org found home fresh h =
      let target = project.client_organization_id in
      let agency : is_agency_role session.role ≡ true = ground arith in
      let switched : (set_agency_context readers session client_id).session
          ≡ acting_for session client_id =
        ground arith in
      let (from, to) = narrowed session client_id target agency fresh in
      let (was, opens) = opened_iff readers session project_id project org found home in
      let (now, reopens) =
        opened_iff readers (acting_for session client_id) project_id project org found home in
      rw (switched) (
        (λ e. let (may, same) = from (now e) in (opens may, same)),
        λ e. reopens (to (was e.0, e.1)),
      )
