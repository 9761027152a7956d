-- ===== src/Auth/Table/Latest.antt =====
-- What the two queries of the session table return.
use mathlib.Core.Option.{some-injective}
use geoplane.Base.{
  ℕ, ◌≤◌, ◌<◌, String, Bool, true, none, some, List, [], ◌∷◌, ◌≡◌, refl, sym, arith, eq_iff,
  eq_refl, filter, mem-filter_iff, ◌⊎◌, Memᴰ, Option, Option-cases, Bool-cases, inl, inr,
}
use geoplane.Auth.Table.{
  SessionRow, is_of, comes_first, first_of, first_row, load_latest_row, current_membership_version,
}

module _ (id_leb : String → String → Bool) where
  first_of_bounds :
      (row found : SessionRow) (o : Option SessionRow)
      → first_of id_leb row o ≡ some found
      → (row.created_at ≤ found.created_at)
        × ((r : SessionRow) → o ≡ some r → r.created_at ≤ found.created_at)
  first_of_bounds row found none h = (ground arith, λ r e. absurd (ground arith))
  first_of_bounds row found (some other) h = (ground arith, λ r e. ground arith)

  first_of_either :
      (row found : SessionRow) (o : Option SessionRow)
      → first_of id_leb row o ≡ some found
      → (found ≡ row) ⊎ (o ≡ some found)
  first_of_either row found none h = inl (sym (some-injective row found h))
  first_of_either row found (some other) h = elim (Bool-cases (comes_first id_leb row other)) [
    | inl e ↦ inl (sym (some-injective row found (rw e at h)))
    | inr e ↦ inr (rw e at h)
  ]

  first_none : (rows : List SessionRow) → first_row id_leb rows ≡ none → rows ≡ []
  unfolding first_row
  first_none [] h = refl
  first_none (row ∷ rows) h = elim (Option-cases (first_row id_leb rows)) [
    | inl e ↦ absurd (ground arith)
    | inr (r, e) ↦ absurd (ground arith)
  ]

  first_bounds :
      (rows : List SessionRow) (found other : SessionRow)
      → first_row id_leb rows ≡ some found
      → Memᴰ other rows
      → other.created_at ≤ found.created_at
  unfolding first_row
  first_bounds (row ∷ rows) found other h (Memᴰ.head e) =
      rw e (first_of_bounds row found (first_row id_leb rows) h).0
  first_bounds (row ∷ rows) found other h (Memᴰ.tail m) =
      elim (Option-cases (first_row id_leb rows)) [
        | inl e ↦ elim (rw (first_none rows e) at m) [ ]
        | inr (r, e) ↦
            let below : other.created_at ≤ r.created_at = first_bounds rows r other e m in
            let above : r.created_at ≤ found.created_at =
              (first_of_bounds row found (first_row id_leb rows) h).1 r e in
            omega arith
      ]
  first_bounds [] found other h m = elim m [ ]

  first_mem :
      (rows : List SessionRow) (found : SessionRow)
      → first_row id_leb rows ≡ some found
      → Memᴰ found rows
  unfolding first_row
  first_mem [] found h = absurd (ground arith)
  first_mem (row ∷ rows) found h = elim (first_of_either row found (first_row id_leb rows) h) [
    | inl e ↦ Memᴰ.head e
    | inr e ↦ Memᴰ.tail (first_mem rows found e)
  ]

pub version_bounds :
    (membership_id : String) (rows : List SessionRow) (other : SessionRow)
    → Memᴰ other rows
    → other.membership_id ≡ membership_id
    → other.session_version ≤ current_membership_version membership_id rows
unfolding current_membership_version
version_bounds membership_id [] other m e = elim m [ ]
version_bounds membership_id (row ∷ rows) other (Memᴰ.head h) e =
    ground (arith, h, eq_iff row.membership_id membership_id)
version_bounds membership_id (row ∷ rows) other (Memᴰ.tail m) e =
    ground (arith, version_bounds membership_id rows other m e)

-- The row that the first query returns is the user's in that organization, and no such row is
-- younger.
pub load_latest_row_lem :
    (id_leb : String → String → Bool) (user_id organization_id : String) (rows : List SessionRow)
    (row : SessionRow)
    → load_latest_row id_leb user_id organization_id rows ≡ some row
    → (Memᴰ row rows)
      × (row.user_id ≡ user_id)
      × (row.organization_id ≡ organization_id)
      × ((other : SessionRow)
          → Memᴰ other rows
          → other.user_id ≡ user_id
          → other.organization_id ≡ organization_id
          → other.created_at ≤ row.created_at)
unfolding load_latest_row
load_latest_row_lem id_leb user_id organization_id rows row h =
    let own = is_of user_id organization_id in
    let (old, passes) =
      (mem-filter_iff own rows row).0 (first_mem id_leb (filter own rows) row h) in
    (
      old,
      ground (arith, eq_iff row.user_id user_id),
      ground (arith, eq_iff row.organization_id organization_id),
      λ other m u o. first_bounds id_leb (filter own rows) row other h (
          (mem-filter_iff own rows other).1 (
            m,
            ground
                (arith, eq_iff other.user_id user_id, eq_iff other.organization_id organization_id),
          )),
    )

first_new :
    (id_leb : String → String → Bool) (row : SessionRow) (rows : List SessionRow)
    → ((other : SessionRow) → Memᴰ other rows → other.created_at < row.created_at)
    → first_row id_leb (row ∷ rows) ≡ some row
unfolding first_row
first_new id_leb row rows older = elim (Option-cases (first_row id_leb rows)) [
  | inl e ↦ rw e refl
  | inr (other, e) ↦ ground (arith, e, older other (first_mem id_leb rows other e))
]

-- A row that is younger than its user's others in its organization is the first query's.
pub load_latest_row-new :
    (id_leb : String → String → Bool) (row : SessionRow) (rows : List SessionRow)
    → ((other : SessionRow)
        → Memᴰ other rows
        → other.user_id ≡ row.user_id
        → other.organization_id ≡ row.organization_id
        → other.created_at < row.created_at)
    → load_latest_row id_leb row.user_id row.organization_id (row ∷ rows) ≡ some row
unfolding load_latest_row
load_latest_row-new id_leb row rows older =
    let own = is_of row.user_id row.organization_id in
    let mine : own row ≡ true = ground (arith, eq_refl row.user_id, eq_refl row.organization_id) in
    rw (mine) (
      first_new id_leb row (filter own rows) (λ other m.
        let (old, passes) = (mem-filter_iff own rows other).0 m in
        older other old (ground (arith, eq_iff other.user_id row.user_id))
          (ground (arith, eq_iff other.organization_id row.organization_id))))

pub current_membership_version_le :
    (membership_id : String) (rows : List SessionRow) (bound : ℕ)
    → ((other : SessionRow)
        → Memᴰ other rows
        → other.membership_id ≡ membership_id
        → other.session_version ≤ bound)
    → current_membership_version membership_id rows ≤ bound
unfolding current_membership_version
current_membership_version_le membership_id [] bound h = ground arith
current_membership_version_le membership_id (row ∷ rows) bound h = ground (
  arith,
  h row (Memᴰ.head refl),
  eq_iff row.membership_id membership_id,
  current_membership_version_le membership_id rows bound (λ other m. h other (Memᴰ.tail m)),
)
