-- ===== src/Pipeline/Action.antt =====
-- runtime/geo/services/support.ts and the repository adapters: a service call reads the clock and
-- the id factory, throws or writes. What was written stays written.
pub mod Add
use geoplane.Base.{
  ℕ, suc, String, Bool, true, false, not, Option, none, some, List, [], ◌∷◌, ◌++◌, Result, ok, err,
  if◌then◌else◌,
}
use geoplane.Base.Dict.{Dict, get}
use geoplane.Base.Host.{Host}
use geoplane.Tenancy.Entities.{AuthorizationContext}
use geoplane.Tenancy.Authorization.{AuthorizationDenied, assert_can_access_client_organization}
use geoplane.Content.Opportunities.{HumanReviewStatus}
use geoplane.Content.Drafts.{CompileError}
use geoplane.Content.Publication.{PublicationError}
use geoplane.Pipeline.Stores.{AuditIntent, Stores}
use geoplane.Pipeline.Tables.{Table}

-- The errors that the services throw.
pub data Failure : Type 0 where
  access_denied : AuthorizationDenied → Failure
  id_exists : String → Failure
  keyword_not_in_map : (keyword map_id : String) → Failure
  family_without_members no_service_principal : Failure
  keyword_without_questions profile_exists : String → Failure
  different_tenants blank_reviewer blank_selector blank_approver : Failure
  decision_missing decision_of_other_tenant : String → Failure
  decision_not_approved : String → HumanReviewStatus → Failure
  decision_for_other_opportunity : (decision_id decided_id member_id : String) → Failure
  gate_of_other_draft : (gate_id gate_draft_id draft_id : String) → Failure
  compile_failed : CompileError → Failure
  publication_failed : PublicationError → Failure

-- The injected infrastructure: the n-th reading of the clock, in milliseconds, and the n-th id; and
-- `KnowledgePackageBridgeOptions.createdByUserId`, which the bridge of the packages is made with.
pub record Runtime : Type 0 where
  pub host : Host
  pub time_at : ℕ → ℕ
  pub id_at : ℕ → String
  pub created_by_user_id : Option String

pub record World : Type 0 where
  pub ticks : ℕ
  pub issued : ℕ
  pub stores : Stores

abbrev pub Action : Type 0 → Type 0
Action A = World → Result Failure A × World

-- The second half of a bind, on what the first half has left.
unfoldable pub resume :
    {A B : Type 0} → (A → Action B) → Result Failure A × World → Result Failure B × World
resume k (ok a, w) = k a w
resume k (err e, w) = (err e, w)

infixl 5 ◌>>=◌ ◌>>◌
unfoldable pub ◌>>=◌ : {A B : Type 0} → Action A → (A → Action B) → Action B
◌>>=◌ m f w = resume f (m w)

unfoldable pub ◌>>◌ : {A B : Type 0} → Action A → Action B → Action B
m >> k = m >>= λ _. k

unfoldable pub pure : {A : Type 0} → A → Action A
pure a w = (ok a, w)

unfoldable pub throw_when : Bool → Failure → Action (Unit {0})
throw_when true e w = (err e, w)
throw_when false e w = (ok tt, w)

-- a pure call that may throw, with its error told as a failure of the service
unfoldable pub lift : {E A : Type 0} → (E → Failure) → Result E A → Action A
lift f (ok a) w = (ok a, w)
lift f (err e) w = (err (f e), w)

unfoldable pub reads : {A : Type 0} → (Stores → A) → Action A
reads f w = (ok (f w.stores), w)

unfoldable pub assert_access : AuthorizationContext → String → Action (Unit {0})
assert_access actor target = lift access_denied (assert_can_access_client_organization actor target)

-- `add` refuses to overwrite an id. What else the adapters of three repositories and the bridge of
-- the knowledge packages refuse is tested before it, by `refuse_family`, `refuse_entries`,
-- `refuse_profile` and `refuse_package`.
unfoldable pub add : {A : Type 0} → Table A → String → A → Action (Unit {0})
add t id x w = elim (get id (t.read w.stores)) [
  | some old ↦ (err (id_exists id), w)
  | none ↦ (ok tt, record w { stores = t.write (t.read w.stores ++ (id, x) ∷ []) w.stores })
]

-- `await infra.audit.record(...)`, of a port that does not throw
unfoldable pub emit_audit :
    AuthorizationContext
    → (client_organization_id project_id action target_type target_id occurred_at : String)
    → Action (Unit {0})
emit_audit actor client_organization_id project_id action target_type target_id occurred_at w =
    let intent : AuditIntent = record {
      actor_user_id = actor.actor_user_id;
      actor_organization_id = actor.organization_id;
      client_organization_id = client_organization_id;
      project_id = project_id;
      action = action;
      target_type = target_type;
      target_id = target_id;
      occurred_at = occurred_at;
    } in
    (ok tt, record w { stores = record w.stores { audit = w.stores.audit ++ intent ∷ [] } })

module _ (rt : Runtime) where
  -- `this.infra.clock.now().toISOString()`
  unfoldable pub now : Action String
  now w = (ok (rt.host.to_iso_string (rt.time_at w.ticks)), record w { ticks = suc w.ticks })

  -- `this.infra.ids.next()`
  unfoldable pub next_id : Action String
  next_id w = (ok (rt.id_at w.issued), record w { issued = suc w.issued })

-- How every method ends: `add`, then `emitAudit`, then the record is returned.
unfoldable pub persist :
    {A : Type 0}
    → Table A
    → AuthorizationContext
    → (client_organization_id project_id action target_type id occurred_at : String) → A
    → Action A
unfolding add emit_audit
persist t actor client_organization_id project_id action target_type id occurred_at x = do
  add t id x
  emit_audit actor client_organization_id project_id action target_type id occurred_at
  pure x
