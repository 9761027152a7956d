-- ===== src/Tenancy/Repository/Invariant.antt =====
-- What holds of the repository between two calls, when no caller reuses the id of an organization
-- or of a membership.
use geoplane.Base.{
  String, Bool, true, false, ◌&&◌, ◌≡◌, refl, sym, ◌∙◌, ap, ◌≢◌, ◌⊎◌, inl, inr, none, some, ◌==◌,
  arith, eq_iff, eq_refl, Bool-cases,
}
use geoplane.Base.Dict.{Dict, get, set, get-set}
use geoplane.Tenancy.Entities.{OrganizationType, MembershipStatus, Organization, Membership}
use geoplane.Tenancy.Repository.{
  Repository, empty, is_client, is_active, conflict, store_membership,
}

-- An ACTIVE membership in a CLIENT organization.
pub record IsClientSeat (r : Repository) (id : String) (m : Membership) : Type 0 where
  pub stored : get id r.memberships_by_id ≡ some m
  pub live : m.status ≡ MembershipStatus.active
  pub organization : Organization
  pub known : get m.organization_id r.organizations_by_id ≡ some organization
  pub of_client : organization.type ≡ OrganizationType.client

-- The index has an entry for the user, and it leads to a membership in the same organization.
pub record IsIndexed (r : Repository) (m : Membership) : Type 0 where
  pub entry_id : String
  pub entry : Membership
  pub at : get m.user_id r.active_client_membership_by_user ≡ some entry_id
  pub found : get entry_id r.memberships_by_id ≡ some entry
  pub same : entry.organization_id ≡ m.organization_id

pub record IsConsistent (r : Repository) : Type 0 where
  pub homed :
      (id : String) (m : Membership)
      → get id r.memberships_by_id ≡ some m
      → get m.organization_id r.organizations_by_id ≢ none
  pub indexed : (id : String) (m : Membership) → IsClientSeat r id m → IsIndexed r m

pub empty-IsConsistent : IsConsistent empty
unfolding empty get
empty-IsConsistent = record {
  homed = λ id m h. absurd (ground arith);
  indexed = λ id m seat. absurd (ground (arith, seat.stored));
}

module _ (o : Organization) (r : Repository) (fresh : get o.id r.organizations_by_id ≡ none) where
  abbrev pub with_organization : Dict String → Repository
  with_organization keys = record r {
    organizations_by_id = set o.id o r.organizations_by_id;
    organization_id_by_idempotency_key = keys;
  }

  -- An organization that is known stays the same when one with a fresh id is added.
  known_before :
      (id : String)
      → get id r.organizations_by_id ≢ none
      → get id (set o.id o r.organizations_by_id) ≡ get id r.organizations_by_id
  known_before id h = ground (arith, get-set o.id id o r.organizations_by_id, eq_iff o.id id)

  pub with_organization-IsConsistent :
      (keys : Dict String) → IsConsistent r → IsConsistent (with_organization keys)
  with_organization-IsConsistent keys c = record {
    homed = λ id m h. rw (known_before m.organization_id (c.homed id m h)) (c.homed id m h);
    indexed = λ id m seat.
        let old = c.indexed id m (record {
          stored = seat.stored;
          live = seat.live;
          organization = seat.organization;
          known = sym (known_before m.organization_id (c.homed id m seat.stored)) ∙ seat.known;
          of_client = seat.of_client;
        }) in
        record {
          entry_id = old.entry_id;
          entry = old.entry;
          at = old.at;
          found = old.found;
          same = old.same;
        };
  }

module _ (m : Membership) (o : Organization) (r : Repository)
    (fresh : get m.id r.memberships_by_id ≡ none)
    (home : get m.organization_id r.organizations_by_id ≡ some o) where
  -- A stored membership is the new one or an old one under another id.
  old_or_new :
      (id : String) (n : Membership)
      → get id (set m.id m r.memberships_by_id) ≡ some n
      → ((id ≡ m.id) × (n ≡ m)) ⊎ (get id r.memberships_by_id ≡ some n)
  old_or_new id n h = ground (arith, get-set m.id id m r.memberships_by_id, eq_iff m.id id)

  still_stored :
      (id : String) (n : Membership)
      → get id r.memberships_by_id ≡ some n
      → get id (set m.id m r.memberships_by_id) ≡ some n
  still_stored id n h = ground (arith, get-set m.id id m r.memberships_by_id, eq_iff m.id id)

  store_membership-homed :
      (exclusive : Bool)
      → IsConsistent r
      → (id : String) (n : Membership)
      → get id (store_membership m exclusive r).memberships_by_id ≡ some n
      → get n.organization_id r.organizations_by_id ≢ none
  unfolding store_membership
  store_membership-homed exclusive c id n h = elim (old_or_new id n h) [
    | inl new ↦ ground arith
    | inr old ↦ c.homed id n old
  ]

  -- A user's seats are all in the organization of the new one, if nothing conflicts.
  seat_agrees :
      (n : Membership)
      → IsIndexed r n
      → n.user_id ≡ m.user_id
      → conflict m.user_id m.organization_id r ≡ none
      → m.organization_id ≡ n.organization_id
  unfolding conflict
  seat_agrees n x same free = ground (arith, eq_iff x.entry.organization_id m.organization_id)

  new_seat-IsIndexed :
      (n : Membership)
      → m.user_id ≡ n.user_id
      → m.organization_id ≡ n.organization_id
      → IsIndexed (store_membership m true r) n
  unfolding store_membership
  new_seat-IsIndexed n user home' = record {
    entry_id = m.id;
    entry = m;
    at = rw (← user, get-set, eq_refl);
    found = rw (get-set, eq_refl);
    same = home';
  }

  old_seat-IsIndexed :
      (n : Membership) (exclusive : Bool)
      → IsIndexed r n
      → (exclusive ≡ true → conflict m.user_id m.organization_id r ≡ none)
      → IsIndexed (store_membership m exclusive r) n
  unfolding store_membership
  old_seat-IsIndexed n false x free = record {
    entry_id = x.entry_id;
    entry = x.entry;
    at = x.at;
    found = still_stored x.entry_id x.entry x.found;
    same = x.same;
  }
  old_seat-IsIndexed n true x free = elim (Bool-cases (m.user_id == n.user_id)) [
    | inl mine ↦
        let user = (eq_iff m.user_id n.user_id).0 mine in
        new_seat-IsIndexed n user (seat_agrees n x (sym user) (free refl))
    | inr other ↦ record {
      entry_id = x.entry_id;
      entry = x.entry;
      at = rw (get-set, other) x.at;
      found = still_stored x.entry_id x.entry x.found;
      same = x.same;
    }
  ]

  -- The new membership takes a seat only if it was checked for a conflict.
  new_membership-IsIndexed :
      (exclusive : Bool) (id : String) (n : Membership)
      → (exclusive ≡ false → is_active m.status && is_client o.type ≡ false)
      → n ≡ m
      → IsClientSeat (store_membership m exclusive r) id n
      → IsIndexed (store_membership m exclusive r) n
  unfolding store_membership
  new_membership-IsIndexed true id n closed e seat =
      new_seat-IsIndexed n (ap (λ (k : Membership). k.user_id) (sym e))
        (ap (λ (k : Membership). k.organization_id) (sym e))
  new_membership-IsIndexed false id n closed e seat =
      absurd (ground (arith, closed refl, seat.known, seat.of_client, seat.live))

  pub store_membership-IsConsistent :
      (exclusive : Bool)
      → (exclusive ≡ true → conflict m.user_id m.organization_id r ≡ none)
      → (exclusive ≡ false → is_active m.status && is_client o.type ≡ false)
      → IsConsistent r
      → IsConsistent (store_membership m exclusive r)
  unfolding store_membership
  store_membership-IsConsistent exclusive free closed c = record {
    homed = store_membership-homed exclusive c;
    indexed = λ id n seat. elim (old_or_new id n seat.stored) [
      | inl new ↦ new_membership-IsIndexed exclusive id n closed new.1 seat
      | inr old ↦
          old_seat-IsIndexed n exclusive
            (c.indexed id n (record {
              stored = old;
              live = seat.live;
              organization = seat.organization;
              known = seat.known;
              of_client = seat.of_client;
            }))
            free
    ];
  }
