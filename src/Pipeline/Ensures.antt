-- ===== src/Pipeline/Ensures.antt =====
-- When a method returns a record: the checks that have passed, one after the other.
use mathlib.Core.Path.{subst}
use geoplane.Base.{
  String, Bool, true, false, ◌≡◌, refl, sym, ap, [], ◌∷◌, ◌++◌, Result, ok, err, Option, none, some,
}
use geoplane.Base.Dict.{get}
use geoplane.Tenancy.Entities.{AuthorizationContext}
use geoplane.Tenancy.Authorization.{assert_can_access_client_organization}
use geoplane.Pipeline.Stores.{Stores}
use geoplane.Pipeline.Tables.{Table}
use geoplane.Pipeline.Action.Add.{add-new, add-taken}
use geoplane.Pipeline.Action.{
  Failure, access_denied, Runtime, World, Action, resume, ◌>>=◌, ◌>>◌, assert_access, lift, pure,
  throw_when, reads, now, next_id, persist, emit_audit,
}

-- What holds of a result, if there is one, and of the stores it comes with.
pub Post : {A : Type 0} → (A → Stores → Type 0) → Result Failure A × World → Type 0
Post P (ok a, w) = P a w.stores
Post P (err e, w) = Unit

pub record Ensures {A : Type 0} (s : Stores) (P : A → Stores → Type 0) (m : Action A) : Type 0 where
  pub holds : (w : World) → w.stores ≡ s → Post P (m w)

-- An action that only checks or reads: the stores stay, and its result is as `Q` says.
pub record Checks {A : Type 0} (s : Stores) (Q : A → Type 0) (m : Action A) : Type 0 where
  pub checks : (w : World) → w.stores ≡ s → Post (λ a s'. (s' ≡ s) × Q a) (m w)

module _ {A B : Type 0} {s : Stores} {P : B → Stores → Type 0} {Q : A → Type 0} where
  resume-Post :
      (k : A → Action B) (r : Result Failure A × World)
      → Post (λ a s'. (s' ≡ s) × Q a) r
      → ((a : A) → Q a → Ensures s P (k a))
      → Post P (resume k r)
  unfolding Post resume
  resume-Post k (ok a, w) h hk = (hk a h.1).holds w h.0
  resume-Post k (err e, w) h hk = tt

  pub check_then :
      {m : Action A} {k : A → Action B}
      → Checks s Q m
      → ((a : A) → Q a → Ensures s P (k a))
      → Ensures s P (m >>= k)
  unfolding ◌>>=◌
  check_then {m} {k} hm hk = record { holds = λ w e. resume-Post k (m w) (hm.checks w e) hk }

pub Ensures-ok :
    {A : Type 0} {s : Stores} {P : A → Stores → Type 0} {m : Action A} {w w' : World} {a : A}
    → Ensures s P m
    → w.stores ≡ s
    → m w ≡ (ok a, w')
    → P a w'.stores
unfolding Post
Ensures-ok {P = P} h e r = subst (λ x. Post P x) r (h.holds _ e)

pub Checks-now : (rt : Runtime) (s : Stores) → Checks s (λ _. Unit {0}) (now rt)
unfolding now Post
Checks-now rt s = record { checks = λ w e. (e, tt) }

pub Checks-next_id : (rt : Runtime) (s : Stores) → Checks s (λ _. Unit {0}) (next_id rt)
unfolding next_id Post
Checks-next_id rt s = record { checks = λ w e. (e, tt) }

pub Checks-reads : {A : Type 0} (s : Stores) (f : Stores → A) → Checks s (λ a. a ≡ f s) (reads f)
unfolding reads Post
Checks-reads s f = record { checks = λ w e. (e, ap f e) }

pub Checks-throw_when :
    (s : Stores) (b : Bool) (e : Failure) → Checks s (λ _. b ≡ false) (throw_when b e)
unfolding throw_when Post
Checks-throw_when s true e = record { checks = λ w h. tt }
Checks-throw_when s false e = record { checks = λ w h. (h, refl) }

pub Checks-lift :
    {E A : Type 0} (s : Stores) (f : E → Failure) (r : Result E A)
    → Checks s (λ a. r ≡ ok a) (lift f r)
unfolding lift Post
Checks-lift s f (ok a) = record { checks = λ w e. (e, refl) }
Checks-lift s f (err e) = record { checks = λ w h. tt }

pub Checks-assert_access :
    (s : Stores) (actor : AuthorizationContext) (target : String)
    → Checks s
        (λ a. assert_can_access_client_organization actor target ≡ ok a)
        (assert_access actor target)
unfolding assert_access
Checks-assert_access s actor target =
    Checks-lift s access_denied (assert_can_access_client_organization actor target)

-- The stores after `persist`.
unfoldable pub persisted :
    {A : Type 0}
    → Table A
    → AuthorizationContext
    → (client_organization_id project_id action target_type id occurred_at : String) → A
    → Stores
    → Stores
persisted t actor target project action target_type id at x s =
    let s' = t.write (t.read s ++ (id, x) ∷ []) s in
    record s' {
      audit =
          s'.audit
          ++ record {
            actor_user_id = actor.actor_user_id;
            actor_organization_id = actor.organization_id;
            client_organization_id = target;
            project_id = project;
            action = action;
            target_type = target_type;
            target_id = id;
            occurred_at = at;
          }
            ∷ [];
    }

module _ {A : Type 0} (t : Table A) (actor : AuthorizationContext)
    (target project action target_type id at : String) (x : A) where
  persist-Post :
      (P : A → Stores → Type 0) (w : World) (found : Option A)
      → get id (t.read w.stores) ≡ found
      → (get id (t.read w.stores) ≡ none
          → P x (persisted t actor target project action target_type id at x w.stores))
      → Post P (persist t actor target project action target_type id at x w)
  unfolding persist emit_audit ◌>>=◌ ◌>>◌ pure resume Post persisted
  persist-Post P w none new h = rw (add-new t id x w new) (h new)
  persist-Post P w (some old) taken h = rw (add-taken t id x old w taken) tt

  pub persist-Ensures :
      {s : Stores} {P : A → Stores → Type 0}
      → (get id (t.read s) ≡ none
          → P x (persisted t actor target project action target_type id at x s))
      → Ensures s P (persist t actor target project action target_type id at x)
  persist-Ensures {s} {P} h = record {
    holds = λ w e. persist-Post P w (get id (t.read w.stores)) refl (
        subst
          (λ s.
            get id (t.read s) ≡ none
            → P x (persisted t actor target project action target_type id at x s))
          (sym e) h);
  }
