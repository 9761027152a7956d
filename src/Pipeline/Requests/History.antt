-- ===== src/Pipeline/Requests/History.antt =====
-- Sequences of requests, each by its own actor and served or refused.
use geoplane.Base.{String, ◌≡◌, sym, ◌∙◌, ap, List, [], ◌∷◌, ◌++◌, Result, ok, err}
use mathlib.Core.List.{append_assoc, append-nil}
use geoplane.Tenancy.Entities.{AuthorizationContext}
use geoplane.Pipeline.Kinds.{Grows}
use geoplane.Pipeline.Stores.{AuditIntent, Stores}
use geoplane.Pipeline.Action.{Failure, Runtime, World}
use geoplane.Pipeline.Requests.{Request, tenant, run}
use geoplane.Pipeline.Requests.Outcomes.{Outcome}
use geoplane.Pipeline.Requests.Accounted.{run-Outcome}

unfoldable pub serve : Runtime → List (AuthorizationContext × Request) → World → World
serve rt [] w = w
serve rt ((actor, request) ∷ requests) w = serve rt requests (run rt actor request w).1

-- What the stores may become: the audit trail gets longer at its end, and each record stays.
pub record IsLater (s s' : Stores) : Type 0 where
  pub more : List AuditIntent
  pub trail : s'.audit ≡ s.audit ++ more
  pub grows : Grows s s'

IsLater-refl : (s : Stores) → IsLater s s
IsLater-refl s = record {
  more = [];
  trail = sym (append-nil s.audit);
  grows = record { kept = λ k id x h. h };
}

IsLater-trans : (s s' s'' : Stores) → IsLater s s' → IsLater s' s'' → IsLater s s''
IsLater-trans s s' s'' a b = record {
  more = a.more ++ b.more;
  trail =
      b.trail
      ∙ ap (λ (l : List AuditIntent). l ++ b.more) a.trail
      ∙ append_assoc s.audit a.more b.more;
  grows = record { kept = λ k id x h. b.grows.kept k id x (a.grows.kept k id x h) };
}

outcome-IsLater :
    {A : Type 0} (actor : AuthorizationContext) (target : String) (s : Stores)
    (r : Result Failure A × World)
    → Outcome actor target s r
    → IsLater s r.1.stores
unfolding Outcome
outcome-IsLater actor target s (ok a, w) h = record {
  more = h.intent ∷ [];
  trail = h.appended;
  grows = h.grows;
}
outcome-IsLater actor target s (err e, w) h = rw (h) (IsLater-refl s)

-- No sequence of requests loses or changes a record of any of the eighteen repositories, or an
-- audit intent: what is stored under an id stays stored under it, and the trail only gets longer at
-- its end.
pub serve-IsLater :
    (rt : Runtime) (requests : List (AuthorizationContext × Request)) (w : World)
    → IsLater w.stores (serve rt requests w).stores
unfolding serve
serve-IsLater rt [] w = IsLater-refl w.stores
serve-IsLater rt ((actor, request) ∷ requests) w =
    let w' = (run rt actor request w).1 in
    IsLater-trans w.stores w'.stores (serve rt requests w').stores
      (outcome-IsLater actor (tenant request) w.stores (run rt actor request w)
        (run-Outcome rt actor request w))
      (serve-IsLater rt requests w')
