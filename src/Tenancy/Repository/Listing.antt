-- ===== src/Tenancy/Repository/Listing.antt =====
-- The order in which listAudit gives the events of an organization.
use geoplane.Base.{
  ℕ, ◌≤◌, ◌<◌, leb, arith, String, Bool, true, false, ◌≡◌, inl, inr, List, [], ◌∷◌, filter, All,
  All-mono, Bool-cases, ◌==◌, refl,
}
use mathlib.Core.List.Permᴰ
use mathlib.Core.List.{Permᴰ}
use geoplane.Base.Host.{Host}
use geoplane.Tenancy.Entities.{AuditEvent}
use geoplane.Tenancy.Repository.{Repository, insert_event, sort_events, list_audit}

-- The collation of the host is a total preorder.
pub record IsCollation (leb : String → String → Bool) : Type 0 where
  pub total : (a b : String) → leb a b ≡ false → leb b a ≡ true
  pub transitive : (a b c : String) → leb a b ≡ true → leb b c ≡ true → leb a c ≡ true

-- No event stands before one with a text that is smaller in the collation.
Sorted : (String → String → Bool) → List AuditEvent → Type 0
Sorted leb [] = Unit
Sorted leb (e ∷ es) = All (λ f. leb e.created_at f.created_at ≡ true) es × Sorted leb es

module _ (leb : String → String → Bool) (collation : IsCollation leb) where
  abbrev before : AuditEvent → AuditEvent → Bool
  before a b = leb a.created_at b.created_at

  insert-All :
      (P : AuditEvent → Type 0) (e : AuditEvent) (es : List AuditEvent)
      → P e
      → All P es
      → All P (insert_event before e es)
  unfolding insert_event
  insert-All P e [] p h = (p, tt)
  insert-All P e (f ∷ es) p h = elim (Bool-cases (before e f)) [
    | inl first ↦ rw first (p, h)
    | inr later ↦ rw later (h.0, insert-All P e es p h.1)
  ]

  insert-Sorted :
      (e : AuditEvent) (es : List AuditEvent)
      → Sorted leb es
      → Sorted leb (insert_event before e es)
  unfolding insert_event Sorted
  insert-Sorted e [] h = (tt, tt)
  insert-Sorted e (f ∷ es) h = elim (Bool-cases (before e f)) [
    | inl first ↦ rw first (
      (
        first,
        All-mono (λ g k. collation.transitive e.created_at f.created_at g.created_at first k) es
            h.0,
      ),
      h,
    )
    | inr later ↦ rw later (
      insert-All (λ g. leb f.created_at g.created_at ≡ true) e es
          (collation.total e.created_at f.created_at later) h.0,
      insert-Sorted e es h.1,
    )
  ]

  sort-Sorted : (es : List AuditEvent) → Sorted leb (sort_events before es)
  unfolding sort_events Sorted
  sort-Sorted [] = tt
  sort-Sorted (e ∷ es) = insert-Sorted e (sort_events before es) (sort-Sorted es)

  insert_permutes :
      (e : AuditEvent) (es : List AuditEvent) → Permᴰ (insert_event before e es) (e ∷ es)
  unfolding insert_event
  insert_permutes e [] = Permᴰ.refl (e ∷ [])
  insert_permutes e (f ∷ es) = elim (Bool-cases (before e f)) [
    | inl first ↦ rw first (Permᴰ.refl (e ∷ f ∷ es))
    | inr later ↦
        rw later (Permᴰ.trans (Permᴰ.cons refl (insert_permutes e es)) (Permᴰ.swap refl refl))
  ]

  sort_permutes : (es : List AuditEvent) → Permᴰ (sort_events before es) es
  unfolding sort_events
  sort_permutes [] = Permᴰ.nil
  sort_permutes (e ∷ es) =
      Permᴰ.trans (insert_permutes e (sort_events before es)) (Permᴰ.cons refl (sort_permutes es))

-- The first millisecond of the year 10000, from which on a text of toISOString has another form.
abbrev pub year_10000 : ℕ
year_10000 = 253402300800000

module _ (host : Host) where
  -- The event has the text of this time, of a year of four digits.
  pub IsRecordedAt : AuditEvent → ℕ → Type 0
  IsRecordedAt e ms = (ms < year_10000) × (e.created_at ≡ host.to_iso_string ms)

  -- The texts of times of years of four digits are ordered as the times.
  abbrev pub OrdersDates : Type 0
  OrdersDates =
      (m n : ℕ)
      → m < year_10000
      → n < year_10000
      → host.locale_leb (host.to_iso_string m) (host.to_iso_string n) ≡ leb m n

  -- An event stands before another only if it was not recorded at a later time.
  pub InOrder : List AuditEvent → Type 0
  InOrder [] = Unit
  InOrder (e ∷ es) =
      All (λ f. (m n : ℕ) → IsRecordedAt e m → IsRecordedAt f n → m ≤ n) es × InOrder es

  not_later :
      OrdersDates
      → (e f : AuditEvent) → host.locale_leb e.created_at f.created_at ≡ true
      → (m n : ℕ) → IsRecordedAt e m
      → IsRecordedAt f n
      → m ≤ n
  unfolding IsRecordedAt
  not_later dates e f h m n (old, at) (new, then) =
      let first : host.locale_leb (host.to_iso_string m) (host.to_iso_string n) ≡ true =
        rw (← at, ← then) h in
      ground (arith, dates m n old new, first)

  Sorted-InOrder : OrdersDates → (es : List AuditEvent) → Sorted host.locale_leb es → InOrder es
  unfolding Sorted InOrder
  Sorted-InOrder dates [] h = tt
  Sorted-InOrder dates (e ∷ es) h =
      (All-mono (λ f k. not_later dates e f k) es h.0, Sorted-InOrder dates es h.1)

  -- With a collation that is a total preorder and orders the texts of times of four-digit years as
  -- the times, the listed events of an organization are those of the trail that were recorded for
  -- it, each as often as it was recorded, and of two events that were recorded at such times none
  -- stands before one with an earlier time.
  pub list_audit-InOrder :
      (organization_id : String) (r : Repository)
      → IsCollation host.locale_leb
      → OrdersDates
      → InOrder (list_audit host organization_id r)
        × Permᴰ
            (list_audit host organization_id r)
            (filter (λ e. e.organization_id == organization_id) r.audit_events)
  unfolding list_audit
  list_audit-InOrder organization_id r collation dates =
      let own = filter (λ e. e.organization_id == organization_id) r.audit_events in
      (
        Sorted-InOrder dates _ (sort-Sorted host.locale_leb collation own),
        sort_permutes host.locale_leb collation own,
      )
