-- ===== src/Base/Members.antt =====
-- Membership of a text in a list, and the test for it.
use Prim.Native.String.{String}
use mathlib.Core.Path.{◌≡◌, refl, sym, ap}
use mathlib.Core.Bool.{Bool, true}
use mathlib.Core.Option.{Option, none, some}
use mathlib.Core.List.{List, [], ◌∷◌, Memᴰ}
use mathlib.Core.Logic.{inl, inr, ◌↔◌}
use native.Mathlib.Omega.{arith}
use text.Mathlib.Text.{◌==◌}
use text.Mathlib.TextEquality.{eq_iff}
use geoplane.Base.Tests.{Bool-cases, is_text}
use geoplane.Base.Lists.{includes, filter}

mem_of_includes : (xs : List String) (s : String) → includes xs s ≡ true → Memᴰ s xs
mem_of_includes [] s h = absurd (ground arith)
mem_of_includes (x ∷ xs) s h = elim (Bool-cases (x == s)) [
  | inl same ↦ Memᴰ.head (sym ((eq_iff x s).0 same))
  | inr other ↦ Memᴰ.tail (mem_of_includes xs s (ground arith))
]

includes_of_mem : (xs : List String) (s : String) → Memᴰ s xs → includes xs s ≡ true
includes_of_mem [] s m = elim m [ ]
includes_of_mem (x ∷ xs) s (Memᴰ.head e) = ground (arith, eq_iff x s)
includes_of_mem (x ∷ xs) s (Memᴰ.tail m) = ground (arith, includes_of_mem xs s m)

pub includes_iff : (xs : List String) (s : String) → (includes xs s ≡ true) ↔ Memᴰ s xs
includes_iff xs s = (mem_of_includes xs s, includes_of_mem xs s)

pub is_text-eq_some : (o : Option String) (s : String) → is_text o s ≡ true → o ≡ some s
is_text-eq_some none s h = absurd (ground arith)
is_text-eq_some (some t) s h = ap some ((eq_iff t s).0 h)

module _ {ℓ} {A : Type ℓ} (p : A → Bool) where
  mem_of_kept :
      (x : A) (ys xs : List A) (a : A)
      → p x ≡ true
      → (Memᴰ a ys → Memᴰ a xs × (p a ≡ true))
      → Memᴰ a (x ∷ ys)
      → Memᴰ a (x ∷ xs) × (p a ≡ true)
  mem_of_kept x ys xs a kept rest (Memᴰ.head e) = (Memᴰ.head e, rw e kept)
  mem_of_kept x ys xs a kept rest (Memᴰ.tail m) = (Memᴰ.tail (rest m).0, (rest m).1)

  mem_of_filter : (xs : List A) (a : A) → Memᴰ a (filter p xs) → Memᴰ a xs × (p a ≡ true)
  mem_of_filter [] a m = elim m [ ]
  mem_of_filter (x ∷ xs) a m = elim (Bool-cases (p x)) [
    | inl kept ↦ mem_of_kept x (filter p xs) xs a kept (mem_of_filter xs a) (rw kept at m)
    | inr dropped ↦
        let (old, passes) = mem_of_filter xs a (rw dropped at m) in (Memᴰ.tail old, passes)
  ]

  filter_of_mem : (xs : List A) (a : A) → Memᴰ a xs → p a ≡ true → Memᴰ a (filter p xs)
  filter_of_mem (x ∷ xs) a (Memᴰ.head e) passes = rw (← e, passes) (Memᴰ.head refl)
  filter_of_mem (x ∷ xs) a (Memᴰ.tail m) passes = elim (Bool-cases (p x)) [
    | inl kept ↦ rw kept (Memᴰ.tail (filter_of_mem xs a m passes))
    | inr dropped ↦ rw dropped (filter_of_mem xs a m passes)
  ]
  filter_of_mem [] a m passes = elim m [ ]

  pub mem-filter_iff : (xs : List A) (a : A) → Memᴰ a (filter p xs) ↔ (Memᴰ a xs × (p a ≡ true))
  mem-filter_iff xs a = (mem_of_filter xs a, λ h. filter_of_mem xs a h.0 h.1)
