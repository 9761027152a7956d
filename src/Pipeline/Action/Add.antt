-- ===== src/Pipeline/Action/Add.antt =====
-- The two cases of a repository's `add`, and what came before a result.
use geoplane.Base.{String, ◌≡◌, [], ◌∷◌, ◌++◌, none, some, true, Result, ok, err, arith, refl}
use geoplane.Base.Dict.{get}
use geoplane.Tenancy.Entities.{AuthorizationContext}
use geoplane.Tenancy.Authorization.{
  can_access_client_organization, assert_can_access_client_organization,
}
use geoplane.Pipeline.Tables.{Table}
use geoplane.Pipeline.Action.{Failure, Action, resume, lift, assert_access, World, add, id_exists}

pub add-new :
    {A : Type 0} (t : Table A) (id : String) (x : A) (w : World)
    → get id (t.read w.stores) ≡ none
    → add t id x w
      ≡ (ok tt, record w { stores = t.write (t.read w.stores ++ (id, x) ∷ []) w.stores })
unfolding add
add-new t id x w new = ground arith

pub add-taken :
    {A : Type 0} (t : Table A) (id : String) (x old : A) (w : World)
    → get id (t.read w.stores) ≡ some old
    → add t id x w ≡ (err (id_exists id), w)
unfolding add
add-taken t id x old w taken = ground arith

pub resume-ok :
    {A B : Type 0} (k : A → Action B) (r : Result Failure A × World) (b : B) (w : World)
    → resume k r ≡ (ok b, w)
    → (a : A) × (w' : World) × (r ≡ (ok a, w')) × (k a w' ≡ (ok b, w))
unfolding resume
resume-ok k (ok a, w') b w h = (a, w', refl, h)
resume-ok k (err e, w') b w h = ground arith

-- `m` returns, with something.
abbrev pub Returns : {A : Type 0} → Result Failure A × World → Type 0
Returns {A} r = (a : A) × (w : World) × (r ≡ (ok a, w))

pub resume-Returns :
    {A B : Type 0} (k : A → Action B) (r : Result Failure A × World) (a : A) (w : World)
    → r ≡ (ok a, w)
    → Returns (k a w)
    → Returns (resume k r)
unfolding resume
resume-Returns k r a w e h = (h.0, h.1, rw (e) (h.2))

pub access_sound :
    (actor : AuthorizationContext) (target : String) (w w' : World)
    → assert_access actor target w ≡ (ok tt, w')
    → (can_access_client_organization actor target ≡ true) × (w' ≡ w)
unfolding assert_access lift assert_can_access_client_organization
access_sound actor target w w' h = (ground arith, ground arith)

pub access_complete :
    (actor : AuthorizationContext) (target : String) (w : World)
    → can_access_client_organization actor target ≡ true
    → assert_access actor target w ≡ (ok tt, w)
unfolding assert_access lift assert_can_access_client_organization
access_complete actor target w h = ground arith

pub add_sound :
    {A : Type 0} (t : Table A) (id : String) (x : A) (w w' : World)
    → add t id x w ≡ (ok tt, w')
    → get id (t.read w.stores) ≡ none
unfolding add
add_sound t id x w w' h = ground arith
