-- ===== src/Examples/Tenancy.antt =====
-- The theorems on contracts/tenancy at concrete inputs.
use geoplane.Base.{
  filter, ◌==◌, ℕ, ◌+◌, arith, eq_iff, String, true, false, ◌≡◌, ◌≢◌, refl, ◌↔◌, ◌⊎◌, ◌&&◌, none,
  some, [], ◌∷◌, ◌++◌, ok, err, Memᴰ, ltb, leb,
}
use mathlib.Core.List.{Permᴰ}
use geoplane.Tenancy.Repository.Listing.{IsCollation, OrdersDates, InOrder, list_audit-InOrder}
use geoplane.Base.Dict.{get, set, values}
use geoplane.Tenancy.Entities.{
  Organization, Membership, Invitation, Session, OrganizationType, MembershipStatus, client_owner,
  InvitationStatus, AuditEvent,
}
use geoplane.Tenancy.Authorization.{
  can_access_client_organization, is_platform_admin, assert_is_platform_admin,
}
use geoplane.Tenancy.Authorization.Isolation.{MayAccess, can_access_iff}
use geoplane.Tenancy.Invitations.{
  IssueInvitationInput, RevokeInvitationArgs, issue_invitation, revoke_invitation, mark_revoked,
  is_invitation_usable, effective_invitation_status,
}
use geoplane.Tenancy.Invitations.Lifecycle.{issued_usable_until, revoked_unusable}
use geoplane.Tenancy.Sessions.{
  CurrentMembershipSessionVersion, IssueSessionInput, issue_session, is_session_valid,
}
use geoplane.Tenancy.Sessions.Validity.{issued_session_valid}
use geoplane.Tenancy.Repository.{
  IssueAndRecordInvitationInput, issue_and_record_invitation, TenancyError, list_audit, Repository,
  CreateOrganizationInput, CreateMembershipInput, empty, create_organization, create_membership,
  store_membership, new_organization, new_membership, list_organizations, membership_conflict,
  revoke_and_record_invitation,
}
use geoplane.Tenancy.Repository.Steps
use geoplane.Tenancy.Repository.Steps.{Reach}
use geoplane.Tenancy.Repository.Invariant.{IsClientSeat}
use geoplane.Tenancy.Repository.Memberships.{one_client_organization, create_membership_conflict}
use geoplane.Tenancy.Repository.Organizations.{
  create_organization_idempotent, mem-list_organizations_iff,
}
use geoplane.Tenancy.Repository.Trail.{Extends, Reach-Extends, revoke_iff, revoke_recorded}
use geoplane.Examples.Data.{tally, count-tally, marks, marks-ReadsDates, owner, admin}

can_access_iff_example :
    (can_access_client_organization owner "other" ≡ true) ↔ MayAccess owner "other"
can_access_iff_example = can_access_iff owner "other"

abbrev organization_input : String → CreateOrganizationInput
organization_input name = record {
  id = some name;
  type = OrganizationType.client;
  display_name = name;
  status = none;
  idempotency_key = name;
  source_namespace = none;
  external_reference = none;
  created_by_user_id = "u1";
  now = 1;
}

abbrev membership_input : String → String → CreateMembershipInput
membership_input id organization = record {
  id = some id;
  user_id = "u2";
  organization_id = organization;
  role = client_owner;
  status = none;
  now = 2;
}

-- Two organizations, and two memberships of one user in the first.
abbrev one : Repository
one = (create_organization marks "x" (organization_input "acme") empty).1

abbrev two : Repository
two = (create_organization marks "x" (organization_input "beta") one).1

abbrev three : Repository
three = (create_membership marks "x" (membership_input "m1" "acme") two).1

abbrev four : Repository
four = (create_membership marks "x" (membership_input "m2" "acme") three).1

reached_two : Reach marks empty two
unfolding create_organization get set empty
reached_two =
    Steps.next (Steps.next Steps.here (Steps.organization "x" (organization_input "acme") refl))
      (Steps.organization "x" (organization_input "beta") refl)

reached : Reach marks empty four
unfolding create_organization create_membership store_membership new_organization new_membership get
    set empty
reached =
    Steps.next (Steps.next reached_two (Steps.membership "x" (membership_input "m1" "acme") refl))
      (Steps.membership "x" (membership_input "m2" "acme") refl)

abbrev seat : String → Membership
seat id = new_membership marks "x" (membership_input id "acme")

abbrev acme : Organization
acme = new_organization marks "x" (organization_input "acme")

first_seat : IsClientSeat four "m1" (seat "m1")
unfolding create_organization create_membership store_membership new_organization new_membership get
    set empty
first_seat = record {
  stored = refl;
  live = refl;
  organization = acme;
  known = refl;
  of_client = refl;
}

second_seat : IsClientSeat four "m2" (seat "m2")
unfolding create_organization create_membership store_membership new_organization new_membership get
    set empty
second_seat = record {
  stored = refl;
  live = refl;
  organization = acme;
  known = refl;
  of_client = refl;
}

one_client_organization_example : (seat "m1").organization_id ≡ (seat "m2").organization_id
unfolding new_membership
one_client_organization_example =
    one_client_organization marks "m1" "m2" (seat "m1") (seat "m2") reached first_seat second_seat
      refl

other_organization : (seat "m1").organization_id ≢ "beta"
unfolding new_membership
other_organization e = ground (arith, (eq_iff "acme" "beta").1 e)

create_membership_conflict_example :
    create_membership marks "x" (membership_input "m3" "beta") four
    ≡ (err (membership_conflict "u2" (seat "m1").organization_id "beta"), four)
unfolding create_organization create_membership store_membership new_organization new_membership get
    set empty
create_membership_conflict_example =
    create_membership_conflict marks "x" (membership_input "m3" "beta") "m1" (seat "m1")
      (new_organization marks "x" (organization_input "beta")) reached first_seat refl
      other_organization refl refl refl

made_acme : (create_organization marks "x" (organization_input "acme") empty).0 ≡ ok acme
unfolding create_organization empty get
made_acme = refl

-- The second organization and the two memberships come between the two requests.
later_calls : Reach marks one four
unfolding create_organization create_membership store_membership new_organization new_membership get
    set empty
later_calls =
    Steps.next
      (Steps.next (Steps.next Steps.here (Steps.organization "x" (organization_input "beta") refl))
        (Steps.membership "x" (membership_input "m1" "acme") refl))
      (Steps.membership "x" (membership_input "m2" "acme") refl)

create_organization_idempotent_example :
    create_organization marks "y"
      (record (organization_input "other") { idempotency_key = "acme" })
      four
    ≡ (ok acme, four)
create_organization_idempotent_example =
    create_organization_idempotent marks "x" "y" (organization_input "acme")
      (record (organization_input "other") { idempotency_key = "acme" }) empty {organization = acme}
      made_acme later_calls refl

mem-list_organizations_iff_example : Memᴰ acme (list_organizations owner two) ↔ (
    Memᴰ acme (values two.organizations_by_id)
    × ((is_platform_admin owner ≡ true)
        ⊎ ((acme.type ≢ OrganizationType.platform) × MayAccess owner acme.id)))
mem-list_organizations_iff_example = mem-list_organizations_iff owner two acme

abbrev invitation_input : IssueInvitationInput
invitation_input = record {
  id = some "i1";
  organization_id = "acme";
  invited_email = "a@b.c";
  role = client_owner;
  created_by_user_id = "u1";
  now = 3;
  ttl_ms = some 4;
  token = some "secret";
}

abbrev invitation : Invitation
invitation = (issue_invitation marks "token" "x" invitation_input).invitation

issued_usable_until_example : is_invitation_usable marks invitation 6 ≡ ltb 6 (3 + 4)
issued_usable_until_example =
    issued_usable_until marks "token" "x" invitation_input 6 marks-ReadsDates

-- an invitation in the second repository, by a method that leaves an audit event, and its
-- revocation
abbrev issuing : IssueAndRecordInvitationInput
issuing = record {
  id = some "i1";
  organization_id = "acme";
  invited_email = "a@b.c";
  role = client_owner;
  actor = admin;
  now = 3;
  ttl_ms = some 4;
  token = some "secret";
}

abbrev invited : Repository
invited = (issue_and_record_invitation marks "token" "x" "e1" issuing two).1

abbrev withdrawn : Repository
withdrawn =
    (revoke_and_record_invitation marks "e2"
      (record { invitation_id = "i1"; actor = admin; now = 5 }) invited).1

reached_withdrawn : Reach marks invited withdrawn
reached_withdrawn =
    Steps.next Steps.here
      (Steps.revoke "e2" (record { invitation_id = "i1"; actor = admin; now = 5 }))

Reach-Extends_example : Extends invited withdrawn
Reach-Extends_example = Reach-Extends marks reached_withdrawn

abbrev revocation : RevokeInvitationArgs
revocation = record { invitation_id = "i1"; actor = admin; now = 5 }

revoked_unusable_example :
    (invitation.id ≡ "i1")
    × (is_platform_admin admin ≡ true)
    × ((mark_revoked marks invitation revocation).id ≡ invitation.id)
    × ((mark_revoked marks invitation revocation).organization_id ≡ invitation.organization_id)
    × (effective_invitation_status marks (mark_revoked marks invitation revocation) 100
        ≡ InvitationStatus.revoked)
    × (is_invitation_usable marks (mark_revoked marks invitation revocation) 100 ≡ false)
unfolding revoke_invitation issue_invitation assert_is_platform_admin is_platform_admin
revoked_unusable_example =
    revoked_unusable marks invitation revocation {result = mark_revoked marks invitation revocation}
      100 refl

abbrev with_invitation : Repository
with_invitation = record two { invitations_by_id = ("i1", invitation) ∷ [] }

revoke_iff_example :
    let (result, s) =
      revoke_and_record_invitation marks "e"
        (record revocation { actor = owner })
        with_invitation in
    (((revoked : Invitation) × (result ≡ ok revoked)) ↔ (
      (is_platform_admin owner ≡ true)
      × ((stored : Invitation) × (get "i1" with_invitation.invitations_by_id ≡ some stored)
          × (stored.id ≡ "i1"))))
    × ((error : TenancyError) → result ≡ err error → s ≡ with_invitation)
revoke_iff_example = revoke_iff marks "e" (record revocation { actor = owner }) with_invitation

revoke_recorded_example :
    let (result, s) = revoke_and_record_invitation marks "e" revocation with_invitation in
    (revoked : Invitation) × (event : AuditEvent) × (result ≡ ok revoked)
    × (get "i1" s.invitations_by_id ≡ some revoked)
    × ((later : ℕ) → is_invitation_usable marks revoked later ≡ false)
    × ((id : String)
        → id ≢ "i1"
        → get id s.invitations_by_id ≡ get id with_invitation.invitations_by_id)
    × (s.audit_events ≡ with_invitation.audit_events ++ event ∷ [])
    × (event.actor_user_id ≡ "u1")
    × (event.target_id ≡ some "i1")
    × (event.organization_id ≡ invitation.organization_id)
unfolding issue_invitation get is_platform_admin
revoke_recorded_example =
    revoke_recorded marks "e" revocation with_invitation invitation refl refl refl

abbrev member : Membership
member = record {
  id = "m1";
  user_id = "u1";
  organization_id = "acme";
  role = client_owner;
  status = MembershipStatus.active;
  created_at = "t";
}

abbrev version : ℕ → CurrentMembershipSessionVersion
version n = record { membership_id = "m1"; session_version = n }

abbrev session_input : IssueSessionInput
session_input = record { id = some "s1"; now = 3; ttl_ms = some 4 }

abbrev session : Session
session = record {
  id = "s1";
  user_id = "u1";
  membership_id = "m1";
  organization_id = "acme";
  role = client_owner;
  active_client_organization_id = some "acme";
  active_project_id = none;
  session_version = 1;
  created_at = tally 3;
  expires_at = tally (3 + 4);
  revoked_at = none;
}

issued_session_valid_example :
    is_session_valid marks session (version 2) 5 ≡ ok (ltb 5 (3 + 4) && leb 2 1)
unfolding issue_session
issued_session_valid_example =
    issued_session_valid marks "x" member (version 1) owner session_input {session = session}
      (version 2) 5 marks-ReadsDates refl refl

by_count : IsCollation marks.locale_leb
by_count = record { total = λ a b e. ground arith; transitive = λ a b c e f. ground arith }

marks-OrdersDates : OrdersDates marks
marks-OrdersDates m n old new = rw (count-tally m, count-tally n) refl

abbrev event : String → ℕ → AuditEvent
event organization ms = record {
  id = "e1";
  organization_id = organization;
  actor_user_id = "u1";
  actor_organization_id = "home";
  client_organization_id = none;
  project_id = none;
  action = "a";
  target_type = none;
  target_id = none;
  metadata = none;
  event_hash = "h";
  created_at = tally ms;
}

abbrev audited : Repository
audited = record two { audit_events = event "acme" 3 ∷ event "beta" 2 ∷ event "acme" 1 ∷ [] }

list_audit-InOrder_example :
    InOrder marks (list_audit marks "acme" audited)
    × Permᴰ
        (list_audit marks "acme" audited)
        (filter (λ e. e.organization_id == "acme") audited.audit_events)
list_audit-InOrder_example = list_audit-InOrder marks "acme" audited by_count marks-OrdersDates
