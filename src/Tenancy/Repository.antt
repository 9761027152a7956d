-- ===== src/Tenancy/Repository.antt =====
-- contracts/tenancy/in-memory-repository.ts: `InMemoryTenancyRepository`. A method returns its
-- result or error and the new state. Random UUIDs and tokens are arguments.
pub mod Steps
pub mod Organizations
pub mod Invariant
pub mod Memberships
pub mod Trail
pub mod Listing
use geoplane.Base.{
  ℕ, String, Bool, true, false, not, ◌&&◌, ◌==◌, Option, none, some, List, [], ◌∷◌, ◌++◌, Result,
  ok, err, filter, get_or, if◌then◌else◌,
}
use geoplane.Base.Dict.{Dict, get, set, values}
use geoplane.Base.Host.{Host}
use geoplane.Tenancy.Entities.{
  role_text, OrganizationType, OrganizationStatus, PlatformRole, platform_super_admin, agency_owner,
  agency_operator, client_owner, MembershipStatus, Organization, Membership, Invitation,
  AuthorizationContext, AuditEvent,
}
use geoplane.Tenancy.Authorization.{can_access_client_organization, is_platform_admin}
use geoplane.Tenancy.Invitations.{
  RevokeInvitationArgs, RevokeError, IssuedInvitation, issue_invitation, revoke_invitation,
}
use geoplane.Tenancy.Audit.{RecordAuditEventInput, record_audit_event}

pub data TenancyError : Type 0 where
  membership_conflict : (user_id existing_id attempted_id : String) → TenancyError
  organization_not_found : String → TenancyError
  invitation_not_found : String → TenancyError
  index_broken : (idempotency_key organization_id : String) → TenancyError
  revoke_failed : RevokeError → TenancyError

pub record CreateOrganizationInput : Type 0 where
  pub id : Option String
  pub type : OrganizationType
  pub display_name : String
  pub status : Option OrganizationStatus
  pub idempotency_key : String
  pub source_namespace : Option String
  pub external_reference : Option String
  pub created_by_user_id : String
  pub now : ℕ

pub record CreateMembershipInput : Type 0 where
  pub id : Option String
  pub user_id : String
  pub organization_id : String
  pub role : PlatformRole
  pub status : Option MembershipStatus
  pub now : ℕ

pub record IssueAndRecordInvitationInput : Type 0 where
  pub id : Option String
  pub organization_id : String
  pub invited_email : String
  pub role : PlatformRole
  pub actor : AuthorizationContext
  pub now : ℕ
  pub ttl_ms : Option ℕ
  pub token : Option String

pub record Repository : Type 0 where
  pub organizations_by_id : Dict Organization
  pub organization_id_by_idempotency_key : Dict String
  pub memberships_by_id : Dict Membership
  pub active_client_membership_by_user : Dict String
  pub invitations_by_id : Dict Invitation
  pub audit_events : List AuditEvent

abbrev pub Method : Type 0 → Type 0
Method A = Repository → Result TenancyError A × Repository

unfoldable pub empty : Repository
empty = record {
  organizations_by_id = [];
  organization_id_by_idempotency_key = [];
  memberships_by_id = [];
  active_client_membership_by_user = [];
  invitations_by_id = [];
  audit_events = [];
}

abbrev pub is_client : OrganizationType → Bool
is_client OrganizationType.client = true
is_client _ = false

abbrev pub is_platform : OrganizationType → Bool
is_platform OrganizationType.platform = true
is_platform _ = false

abbrev pub is_active : MembershipStatus → Bool
is_active MembershipStatus.active = true
is_active _ = false

unfoldable pub visible : AuthorizationContext → Organization → Bool
visible ctx organization =
    if is_platform organization.type
    then false
    else can_access_client_organization ctx organization.id

unfoldable pub list_organizations : AuthorizationContext → Repository → List Organization
list_organizations ctx r =
    let all_organizations = values r.organizations_by_id in
    if is_platform_admin ctx then all_organizations else filter (visible ctx) all_organizations

-- the stable sort of `listAudit`, an insertion sort
unfoldable pub insert_event :
    (AuditEvent → AuditEvent → Bool) → AuditEvent → List AuditEvent → List AuditEvent
insert_event before e [] = e ∷ []
insert_event before e (f ∷ es) =
    let rest = insert_event before e es in if before e f then e ∷ f ∷ es else f ∷ rest

unfoldable pub sort_events : (AuditEvent → AuditEvent → Bool) → List AuditEvent → List AuditEvent
unfolding insert_event
sort_events before [] = []
sort_events before (e ∷ es) = insert_event before e (sort_events before es)

-- the membership that a new one would conflict with, if it is of another organization
abbrev pub conflicting : Option Membership → String → Option Membership
conflicting none organization_id = none
conflicting (some m) organization_id = if m.organization_id == organization_id then none else some m

unfoldable pub conflict : (user_id organization_id : String) → Repository → Option Membership
conflict user_id organization_id r = elim (get user_id r.active_client_membership_by_user) [
  | none ↦ none
  | some existing_id ↦ conflicting (get existing_id r.memberships_by_id) organization_id
]

-- the writes of `createMembership`, `exclusive` for an ACTIVE membership in a CLIENT organization
unfoldable pub store_membership : Membership → (exclusive : Bool) → Repository → Repository
store_membership m exclusive r = record r {
  memberships_by_id = set m.id m r.memberships_by_id;
  active_client_membership_by_user =
      if exclusive
      then set m.user_id m.id r.active_client_membership_by_user
      else r.active_client_membership_by_user;
}

-- the end of `createMembership`, given the membership that it found to conflict
unfoldable pub admit_membership :
    Membership → (exclusive : Bool) → Option Membership → Method Membership
admit_membership m exclusive (some other) r =
    (err (membership_conflict m.user_id other.organization_id m.organization_id), r)
admit_membership m exclusive none r = (ok m, store_membership m exclusive r)

module _ (host : Host) where
  unfoldable pub new_organization : (uuid : String) → CreateOrganizationInput → Organization
  new_organization uuid input = record {
    id = get_or input.id uuid;
    type = input.type;
    display_name = input.display_name;
    status = get_or input.status OrganizationStatus.active;
    idempotency_key = input.idempotency_key;
    source_namespace = input.source_namespace;
    external_reference = input.external_reference;
    created_at = host.to_iso_string input.now;
    created_by_user_id = input.created_by_user_id;
  }

  unfoldable pub create_organization :
      (uuid : String) → CreateOrganizationInput → Method Organization
  unfolding new_organization
  create_organization uuid input r =
      elim (get input.idempotency_key r.organization_id_by_idempotency_key) [
        | some existing_id ↦ elim (get existing_id r.organizations_by_id) [
          | none ↦ (err (index_broken input.idempotency_key existing_id), r)
          | some existing ↦ (ok existing, r)
        ]
        | none ↦
            let organization = new_organization uuid input in
            (
              ok organization,
              record r {
                organizations_by_id = set organization.id organization r.organizations_by_id;
                organization_id_by_idempotency_key =
                    set input.idempotency_key organization.id r.organization_id_by_idempotency_key;
              },
            )
      ]

  unfoldable pub new_membership : (uuid : String) → CreateMembershipInput → Membership
  new_membership uuid input = record {
    id = get_or input.id uuid;
    user_id = input.user_id;
    organization_id = input.organization_id;
    role = input.role;
    status = get_or input.status MembershipStatus.active;
    created_at = host.to_iso_string input.now;
  }

  unfoldable pub create_membership : (uuid : String) → CreateMembershipInput → Method Membership
  unfolding conflict new_membership store_membership admit_membership
  create_membership uuid input r = elim (get input.organization_id r.organizations_by_id) [
    | none ↦ (err (organization_not_found input.organization_id), r)
    | some organization ↦
        let m = new_membership uuid input in
        let exclusive = is_active m.status && is_client organization.type in
        let other = if exclusive then conflict input.user_id input.organization_id r else none in
        admit_membership m exclusive other r
  ]

  unfoldable pub issue_and_record_invitation :
      (random_token uuid audit_uuid : String)
      → IssueAndRecordInvitationInput
      → Repository
      → IssuedInvitation × Repository
  issue_and_record_invitation random_token uuid audit_uuid input r =
      let issued = issue_invitation host random_token uuid (record {
        id = input.id;
        organization_id = input.organization_id;
        invited_email = input.invited_email;
        role = input.role;
        created_by_user_id = input.actor.actor_user_id;
        now = input.now;
        ttl_ms = input.ttl_ms;
        token = input.token;
      }) in
      let event = record_audit_event host audit_uuid (record {
        id = none;
        organization_id = issued.invitation.organization_id;
        actor_user_id = input.actor.actor_user_id;
        actor_organization_id = input.actor.organization_id;
        client_organization_id = none;
        project_id = none;
        action = "invitation.issue";
        target_type = some "Invitation";
        target_id = some issued.invitation.id;
        metadata = some (
            ("invitedEmail", issued.invitation.invited_email)
            ∷ ("role", role_text issued.invitation.role)
            ∷ []);
        now = input.now;
      }) in
      (
        issued,
        record r {
          invitations_by_id = set issued.invitation.id issued.invitation r.invitations_by_id;
          audit_events = r.audit_events ++ event ∷ [];
        },
      )

  unfoldable pub revoke_and_record_invitation :
      (audit_uuid : String) → RevokeInvitationArgs → Method Invitation
  revoke_and_record_invitation audit_uuid args r =
      elim (get args.invitation_id r.invitations_by_id) [
        | none ↦ (err (invitation_not_found args.invitation_id), r)
        | some existing ↦ elim (revoke_invitation host existing args) [
          | err e ↦ (err (revoke_failed e), r)
          | ok revoked ↦
              let event = record_audit_event host audit_uuid (record {
                id = none;
                organization_id = revoked.organization_id;
                actor_user_id = args.actor.actor_user_id;
                actor_organization_id = args.actor.organization_id;
                client_organization_id = none;
                project_id = none;
                action = "invitation.revoke";
                target_type = some "Invitation";
                target_id = some revoked.id;
                metadata = none;
                now = args.now;
              }) in
              (
                ok revoked,
                record r {
                  invitations_by_id = set revoked.id revoked r.invitations_by_id;
                  audit_events = r.audit_events ++ event ∷ [];
                },
              )
        ]
      ]

  unfoldable pub list_audit : String → Repository → List AuditEvent
  unfolding sort_events
  list_audit organization_id r =
      sort_events (λ a b. host.locale_leb a.created_at b.created_at)
        (filter (λ e. e.organization_id == organization_id) r.audit_events)

  unfoldable pub record_audit :
      (uuid : String) → RecordAuditEventInput → Repository → AuditEvent × Repository
  record_audit uuid input r =
      let event = record_audit_event host uuid input in
      (event, record r { audit_events = r.audit_events ++ event ∷ [] })
