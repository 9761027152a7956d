-- ===== src/Base/Codec.antt =====
-- The encodings and the keyed hash that the program takes from its runtime. None of them is in the
-- repository, so they are parameters.
use Prim.Native.Nat.{ℕ}
use Prim.Native.String.{String}
use mathlib.Core.Option.{Option}
use geoplane.Base.Json.{Json}

pub record Codec : Type 0 where
  -- `JSON.stringify(value)`
  pub json_stringify : Json → String
  -- `JSON.parse(text)`, `none` where it throws
  pub json_parse : String → Option Json
  -- `Buffer.from(text, "utf8").toString("base64url")`
  pub base64url : String → String
  -- `Buffer.from(text, "base64url").toString("utf8")`
  pub from_base64url : String → String
  -- a number in a template literal
  pub number_text : ℕ → String
  -- `Number(text)` for a whole number, `none` where it is not finite
  pub number_of : String → Option ℕ
  -- `createHmac("sha256", key).update(input, "utf8").digest("base64url")`
  pub hmac_sha256 : (key input : String) → String
