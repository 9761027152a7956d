-- ===== src/Tenancy/Repository/Trail.antt =====
-- The audit trail, and the methods that write to it.
use geoplane.Base.{
  ℕ, String, true, false, ◌↔◌, ◌≡◌, refl, sym, ◌∙◌, ap, ◌≢◌, inl, inr, some, List, [], ◌∷◌, ◌++◌,
  ok, err, arith, eq_iff, eq_refl, Option-cases, Result-cases,
}
use mathlib.Core.List.{append_assoc, append-nil}
use geoplane.Base.Dict.{get, get-set}
use geoplane.Base.Host.{Host}
use geoplane.Tenancy.Entities.{Invitation, AuditEvent}
use geoplane.Tenancy.Authorization.{is_platform_admin}
use geoplane.Tenancy.Invitations.{
  RevokeError, RevokeInvitationArgs, revoke_invitation, is_invitation_usable,
}
use geoplane.Tenancy.Invitations.Lifecycle.{revoke_total, revoked_unusable}
use geoplane.Tenancy.Audit.{record_audit_event}
use geoplane.Tenancy.Repository.{
  Repository, TenancyError, create_organization, create_membership, admit_membership,
  issue_and_record_invitation, revoke_and_record_invitation, record_audit,
}
use geoplane.Tenancy.Repository.Steps.{Step, Reach, here, next}

-- The audit trail of `s` is that of `r` with events added at the end.
abbrev pub Extends : Repository → Repository → Type 0
Extends r s = (events : List AuditEvent) × (s.audit_events ≡ r.audit_events ++ events)

module _ (host : Host) where
  revoke-Extends :
      (audit_uuid : String) (args : RevokeInvitationArgs) (r : Repository)
      → Extends r (revoke_and_record_invitation host audit_uuid args r).1
  unfolding revoke_and_record_invitation
  revoke-Extends audit_uuid args r =
      elim (Option-cases (get args.invitation_id r.invitations_by_id)) [
        | inl missing ↦ rw (missing, revoke_and_record_invitation) ([], sym (append-nil _))
        | inr (stored, found) ↦ elim (Result-cases (revoke_invitation host stored args)) [
          | inl (revoked, e) ↦ rw (found, e, revoke_and_record_invitation) (_, refl)
          | inr (failure, e) ↦ rw (found, e, revoke_and_record_invitation) ([], sym (append-nil _))
        ]
      ]

  Step-Extends : {r s : Repository} → Step host r s → Extends r s
  unfolding create_organization create_membership admit_membership issue_and_record_invitation
      record_audit
  Step-Extends {r} (Step.organization uuid input fresh) =
      ([], ground (arith, append-nil r.audit_events))
  Step-Extends {r} (Step.membership uuid input fresh) =
      ([], ground (arith, append-nil r.audit_events))
  Step-Extends {r} (Step.invite token uuid audit_uuid input) = (_, refl)
  Step-Extends {r} (Step.revoke audit_uuid args) = revoke-Extends audit_uuid args r
  Step-Extends {r} (Step.audit uuid input) = (_, refl)

  -- No sequence of calls that take ids not in use removes, changes or reorders an audit event.
  pub Reach-Extends : {r s : Repository} → Reach host r s → Extends r s
  Reach-Extends here = ([], sym (append-nil _))
  Reach-Extends {r} (next before step) =
      let (es, e) = Reach-Extends before in
      let (fs, f) = Step-Extends step in
      (es ++ fs, f ∙ ap (λ (l : List AuditEvent). l ++ fs) e ∙ append_assoc r.audit_events es fs)

  unfailing :
      (audit_uuid : String) (args : RevokeInvitationArgs) (r : Repository) (stored : Invitation)
      (failure : RevokeError)
      → get args.invitation_id r.invitations_by_id ≡ some stored
      → revoke_invitation host stored args ≡ err failure
      → is_platform_admin args.actor ≡ true
      → ¬ (
          (other : Invitation) × (get args.invitation_id r.invitations_by_id ≡ some other)
          × (other.id ≡ args.invitation_id))
  unfailing audit_uuid args r stored failure known e admin (other, found, own) =
      let same : other ≡ stored = ground arith in
      let (revoked, fine) = revoke_total host other args own admin in cc (fine, same, e)

  -- For a platform administrator an invitation that is stored under its own id is revoked: from
  -- then on it is found under its id and usable at no time, every other invitation is as before,
  -- and exactly one event is added, by the actor, on the invitation.
  pub revoke_recorded :
      (audit_uuid : String) (args : RevokeInvitationArgs) (r : Repository) (stored : Invitation)
      → get args.invitation_id r.invitations_by_id ≡ some stored
      → stored.id ≡ args.invitation_id
      → is_platform_admin args.actor ≡ true
      → let (result, s) = revoke_and_record_invitation host audit_uuid args r in
        (revoked : Invitation) × (event : AuditEvent) × (result ≡ ok revoked)
        × (get args.invitation_id s.invitations_by_id ≡ some revoked)
        × ((later : ℕ) → is_invitation_usable host revoked later ≡ false)
        × ((id : String)
            → id ≢ args.invitation_id
            → get id s.invitations_by_id ≡ get id r.invitations_by_id)
        × (s.audit_events ≡ r.audit_events ++ event ∷ [])
        × (event.actor_user_id ≡ args.actor.actor_user_id)
        × (event.target_id ≡ some args.invitation_id)
        × (event.organization_id ≡ stored.organization_id)
  unfolding revoke_and_record_invitation record_audit_event
  revoke_recorded audit_uuid args r stored found own admin =
      let (revoked, e) = revoke_total host stored args own admin in
      let facts = λ (later : ℕ). revoked_unusable host stored args later e in
      let key : revoked.id ≡ args.invitation_id = (facts 0).2 ∙ own in
      rw (found, e, revoke_and_record_invitation)
        (
          revoked,
          _,
          refl,
          rw (key, get-set, eq_refl),
          λ later. (facts later).5,
          λ id other.
              ground (
                arith,
                get-set revoked.id id revoked r.invitations_by_id,
                eq_iff revoked.id id,
                key,
              ),
          refl,
          refl,
          ap some key,
          (facts 0).3,
        )

  -- Whatever the repository holds, a revocation succeeds exactly for a platform administrator and
  -- an invitation that is stored under its own id; one that fails leaves the repository, its audit
  -- trail included, as it was.
  pub revoke_iff :
      (audit_uuid : String) (args : RevokeInvitationArgs) (r : Repository)
      → let (result, s) = revoke_and_record_invitation host audit_uuid args r in
        (((revoked : Invitation) × (result ≡ ok revoked)) ↔ (
          (is_platform_admin args.actor ≡ true)
          × ((stored : Invitation) × (get args.invitation_id r.invitations_by_id ≡ some stored)
              × (stored.id ≡ args.invitation_id))))
        × ((error : TenancyError) → result ≡ err error → s ≡ r)
  unfolding revoke_and_record_invitation
  revoke_iff audit_uuid args r =
      let found = get args.invitation_id r.invitations_by_id in
      elim (Option-cases found) [
        | inl missing ↦ (
          ((λ h. absurd (ground (arith, h.1))), λ h. absurd (ground (arith, h.1.1))),
          λ error e. ground arith,
        )
        | inr (stored, known) ↦ elim (Result-cases (revoke_invitation host stored args)) [
          | inl (revoked, e) ↦
              let facts = revoked_unusable host stored args 0 e in
              (
                ((λ h. (facts.1, (stored, known, facts.0))), λ h. (revoked, ground arith)),
                λ error bad. absurd (ground arith),
              )
          | inr (failure, e) ↦ (
            (
              (λ h. absurd (ground (arith, h.1))),
              λ h. absurd (unfailing audit_uuid args r stored failure known e h.0 h.1),
            ),
            λ error bad. ground arith,
          )
        ]
      ]
