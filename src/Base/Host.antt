-- ===== src/Base/Host.antt =====
-- What the program takes from its runtime: the date format, the case table, the collation and
-- SHA-256. Nothing of these is in the repository, so they are parameters.
use Prim.Native.Nat.{ℕ}
use Prim.Native.String.{String}
use mathlib.Core.Path.{◌≡◌}
use mathlib.Core.Bool.{Bool}
use mathlib.Core.Option.{Option, some}

pub record Host : Type 0 where
  -- `new Date(ms).toISOString()`
  pub to_iso_string : ℕ → String
  -- `new Date(text).getTime()`, `none` for NaN
  pub get_time : String → Option ℕ
  -- `a.localeCompare(b) <= 0`
  pub locale_leb : String → String → Bool
  -- `text.toLowerCase()`
  pub to_lower_case : String → String
  -- `createHash("sha256").update(text).digest("hex")`
  pub sha256_hex : String → String

-- A time that is written by `toISOString` is read back by `new Date`.
abbrev pub ReadsDates : Host → Type 0
ReadsDates host = (ms : ℕ) → host.get_time (host.to_iso_string ms) ≡ some ms
