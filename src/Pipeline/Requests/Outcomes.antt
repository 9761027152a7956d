-- ===== src/Pipeline/Requests/Outcomes.antt =====
-- What a method may leave behind: an error leaves the stores as they were; a success has appended
-- one audit intent, of the actor and for the client organization.
use geoplane.Base.{
  String, true, false, ◌≡◌, refl, ◌∙◌, [], ◌∷◌, ◌++◌, Result, ok, err, Option, none, some, Bool,
}
use geoplane.Base.Dict.{get}
use geoplane.Tenancy.Entities.{AuthorizationContext}
use geoplane.Pipeline.Kinds.{Grows, IsLawful}
use geoplane.Pipeline.Stores.{AuditIntent, Stores}
use geoplane.Pipeline.Tables.{Table}
use geoplane.Pipeline.Action.Add.{add-new, add-taken}
use geoplane.Pipeline.Action.{
  Failure, Runtime, World, Action, resume, ◌>>=◌, ◌>>◌, assert_access, lift, pure, throw_when,
  reads, now, next_id, persist, emit_audit,
}

-- One audit intent was appended, and no record of any repository was lost or changed.
pub record IsRecorded (actor : AuthorizationContext) (target : String) (s s' : Stores)
    : Type 0 where
  pub intent : AuditIntent
  pub appended : s'.audit ≡ s.audit ++ intent ∷ []
  pub by_user : intent.actor_user_id ≡ actor.actor_user_id
  pub by_organization : intent.actor_organization_id ≡ actor.organization_id
  pub for_client : intent.client_organization_id ≡ target
  pub grows : Grows s s'

-- How a method that started on the stores `s` has ended.
unfoldable pub Outcome :
    {A : Type 0} → AuthorizationContext → String → (s : Stores) → Result Failure A × World → Type 0
Outcome actor target s (err e, w) = w.stores ≡ s
Outcome actor target s (ok a, w) = IsRecorded actor target s w.stores

pub record Accounted {A : Type 0} (actor : AuthorizationContext) (target : String) (m : Action A)
    : Type 0 where
  pub outcome : (w : World) → Outcome actor target w.stores (m w)

-- The action writes nothing.
pub record Quiet {A : Type 0} (m : Action A) : Type 0 where
  pub silent : (w : World) → (m w).1.stores ≡ w.stores

module _ {A B : Type 0} (actor : AuthorizationContext) (target : String) where
  resume-Outcome :
      (k : A → Action B) (s : Stores) (r : Result Failure A × World)
      → r.1.stores ≡ s
      → ((a : A) → Accounted actor target (k a))
      → Outcome actor target s (resume k r)
  unfolding Outcome resume
  resume-Outcome k s (ok a, w) h hk = rw (← h) ((hk a).outcome w)
  resume-Outcome k s (err e, w) h hk = h

  pub after-Quiet :
      {m : Action A} {k : A → Action B}
      → Quiet m
      → ((a : A) → Accounted actor target (k a))
      → Accounted actor target (m >>= k)
  unfolding ◌>>=◌
  after-Quiet {m} {k} hm hk = record {
    outcome = λ w. resume-Outcome k w.stores (m w) (hm.silent w) hk;
  }

  pub after_lift :
      {E : Type 0} (f : E → Failure) (r : Result E A) {k : A → Action B}
      → ((a : A) → r ≡ ok a → Accounted actor target (k a))
      → Accounted actor target (lift f r >>= k)
  unfolding ◌>>=◌ lift Outcome resume
  after_lift f (ok a) hk = record { outcome = λ w. (hk a refl).outcome w }
  after_lift f (err e) hk = record { outcome = λ w. refl }

  drop-Outcome :
      (b : B) (s : Stores) (r : Result Failure A × World)
      → Outcome actor target s r
      → Outcome actor target s (resume (λ _. pure b) r)
  unfolding Outcome resume pure
  drop-Outcome b s (ok a, w) h = h
  drop-Outcome b s (err e, w) h = h

  -- a method whose result is dropped
  pub finished :
      {m : Action A} (b : B) → Accounted actor target m → Accounted actor target (m >> pure b)
  unfolding ◌>>◌ ◌>>=◌
  finished {m} b hm = record { outcome = λ w. drop-Outcome b w.stores (m w) (hm.outcome w) }

persist-Outcome :
    {A : Type 0} (t : Table A) (actor : AuthorizationContext)
    (target project action target_type id at : String) (x : A) (w : World)
    → IsLawful t
    → (found : Option A) → get id (t.read w.stores) ≡ found
    → Outcome actor target w.stores (persist t actor target project action target_type id at x w)
unfolding Outcome persist emit_audit ◌>>=◌ ◌>>◌ pure resume
persist-Outcome t actor target project action target_type id at x w law none new =
    rw (add-new t id x w new) (record {
      intent = record {
        actor_user_id = actor.actor_user_id;
        actor_organization_id = actor.organization_id;
        client_organization_id = target;
        project_id = project;
        action = action;
        target_type = target_type;
        target_id = id;
        occurred_at = at;
      };
      appended = rw (law.keeps (t.read w.stores ++ (id, x) ∷ []) w.stores) refl;
      by_user = refl;
      by_organization = refl;
      for_client = refl;
      grows = law.grows x id w.stores _;
    })
persist-Outcome t actor target project action target_type id at x w law (some old) taken =
    rw (add-taken t id x old w taken) refl

pub persist-Accounted :
    {A : Type 0} (t : Table A) (actor : AuthorizationContext)
    (target project action target_type id at : String) (x : A)
    → IsLawful t
    → Accounted actor target (persist t actor target project action target_type id at x)
persist-Accounted t actor target project action target_type id at x law = record {
  outcome = λ w.
      persist-Outcome t actor target project action target_type id at x w law
        (get id (t.read w.stores)) refl;
}

pub now-Quiet : (rt : Runtime) → Quiet (now rt)
unfolding now
now-Quiet rt = record { silent = λ w. refl }

pub next_id-Quiet : (rt : Runtime) → Quiet (next_id rt)
unfolding next_id
next_id-Quiet rt = record { silent = λ w. refl }

pub reads-Quiet : {A : Type 0} (f : Stores → A) → Quiet (reads f)
unfolding reads
reads-Quiet f = record { silent = λ w. refl }

pub pure-Quiet : {A : Type 0} (a : A) → Quiet (pure a)
unfolding pure
pure-Quiet a = record { silent = λ w. refl }

pub throw_when-Quiet : (b : Bool) (e : Failure) → Quiet (throw_when b e)
unfolding throw_when
throw_when-Quiet true e = record { silent = λ w. refl }
throw_when-Quiet false e = record { silent = λ w. refl }

lift-Quiet : {E A : Type 0} (f : E → Failure) (r : Result E A) → Quiet (lift f r)
unfolding lift
lift-Quiet f (ok a) = record { silent = λ w. refl }
lift-Quiet f (err e) = record { silent = λ w. refl }

pub assert_access-Quiet :
    (actor : AuthorizationContext) (target : String) → Quiet (assert_access actor target)
unfolding assert_access
assert_access-Quiet actor target = lift-Quiet _ _

module _ {A B : Type 0} where
  resume-silent :
      (k : A → Action B) (s : Stores) (r : Result Failure A × World)
      → r.1.stores ≡ s
      → ((a : A) → Quiet (k a))
      → (resume k r).1.stores ≡ s
  unfolding resume
  resume-silent k s (ok a, w) h hk = (hk a).silent w ∙ h
  resume-silent k s (err e, w) h hk = h

  pub bind-Quiet :
      {m : Action A} {k : A → Action B} → Quiet m → ((a : A) → Quiet (k a)) → Quiet (m >>= k)
  unfolding ◌>>=◌
  bind-Quiet {m} {k} hm hk = record {
    silent = λ w. resume-silent k w.stores (m w) (hm.silent w) hk;
  }
