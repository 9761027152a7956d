-- ===== src/Tenancy/Repository/Steps.antt =====
-- Sequences of calls on one repository. A caller may choose the id of an organization or of a
-- membership; a step takes one that is not in use, as a random UUID is.
use geoplane.Base.{String, ◌≡◌, none, get_or}
use geoplane.Base.Dict.{get}
use geoplane.Base.Host.{Host}
use geoplane.Tenancy.Invitations.{RevokeInvitationArgs}
use geoplane.Tenancy.Audit.{RecordAuditEventInput}
use geoplane.Tenancy.Repository.{
  Repository, CreateOrganizationInput, CreateMembershipInput, IssueAndRecordInvitationInput,
  create_organization, create_membership, issue_and_record_invitation, revoke_and_record_invitation,
  record_audit,
}

pub data Step (host : Host) (r : Repository) : Repository → Type 0 where
  organization :
      (uuid : String) (input : CreateOrganizationInput)
      → get (get_or input.id uuid) r.organizations_by_id ≡ none
      → Step host r (create_organization host uuid input r).1
  membership :
      (uuid : String) (input : CreateMembershipInput)
      → get (get_or input.id uuid) r.memberships_by_id ≡ none
      → Step host r (create_membership host uuid input r).1
  invite :
      (random_token uuid audit_uuid : String) (input : IssueAndRecordInvitationInput)
      → Step host r (issue_and_record_invitation host random_token uuid audit_uuid input r).1
  revoke :
      (audit_uuid : String) (args : RevokeInvitationArgs)
      → Step host r (revoke_and_record_invitation host audit_uuid args r).1
  audit :
      (uuid : String) (input : RecordAuditEventInput)
      → Step host r (record_audit host uuid input r).1

pub data Reach (host : Host) (r : Repository) : Repository → Type 0 where
  here : Reach host r r
  next : {s t : Repository} → Reach host r s → Step host s t → Reach host r t
