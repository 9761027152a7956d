-- ===== src/Auth/Cookie.antt =====
-- lib/session-cookie.ts: the session cookie's payload, encoded into a signed token and read back.
pub mod RoundTrip
use geoplane.Base.{ℕ, String, Option, none, some, Result, ok, err, if◌then◌else◌}
use geoplane.Base.Text.{is_empty_text}
use geoplane.Base.Json.{Json, Fields, no_fields, field, null_value, property, as_text, text, object}
use geoplane.Base.Codec.{Codec}
use geoplane.Tenancy.Entities.{
  PlatformRole, platform_super_admin, agency_owner, agency_operator, client_owner,
}
use geoplane.Auth.Keys.{Environment, Keyed, and_then}
use geoplane.Auth.Signing.{
  SignOptions, VerifyOptions, VerifiedSessionToken, sign_session_cookie_value,
  verify_signed_session_token,
}

abbrev pub session_cookie_name : String
session_cookie_name = "geo_acceptance_session"

-- What a cookie holds is a text where the source casts it to a role or to an organization's type,
-- and any JSON value where nothing is tested.
pub record AcceptanceSessionCookiePayload : Type 0 where
  pub actor_user_id : String
  pub role : String
  pub organization_id : String
  pub organization_type : String
  pub active_client_organization_id : Json

pub record DecodedSessionCookie : Type 0 where
  pub payload : AcceptanceSessionCookiePayload
  pub issued_at : ℕ
  pub expires_at : ℕ

abbrev pub payload_json : AcceptanceSessionCookiePayload → Json
payload_json p = object (
    field "actorUserId" (text p.actor_user_id) (
      field "role" (text p.role) (
        field "organizationId" (text p.organization_id) (
          field "organizationType" (text p.organization_type)
            (field "activeClientOrganizationId" p.active_client_organization_id no_fields)))))

-- `value ?? null`
abbrev pub or_null : Option Json → Json
or_null none = null_value
or_null (some v) = v

infixl 5 ◌>>=◌
abbrev ◌>>=◌ : {A B : Type 0} → Option A → (A → Option B) → Option B
none >>= f = none
some a >>= f = f a

-- The four fields that must be texts; a value without properties (null) throws, which is caught.
unfoldable pub read_payload : Json → Option AcceptanceSessionCookiePayload
read_payload value = do
  actor_user_id ← as_text (property "actorUserId" value)
  role ← as_text (property "role" value)
  organization_id ← as_text (property "organizationId" value)
  organization_type ← as_text (property "organizationType" value)
  some (record {
    actor_user_id = actor_user_id;
    role = role;
    organization_id = organization_id;
    organization_type = organization_type;
    active_client_organization_id = or_null (property "activeClientOrganizationId" value);
  })

abbrev pub default_sign_options : SignOptions
default_sign_options = record { now = none; ttl_ms = none; expires_at = none; key = none }

abbrev pub default_verify_options : VerifyOptions
default_verify_options = record { now = none; key = none }

module _ (codec : Codec) where
  unfoldable pub payload_segment : AcceptanceSessionCookiePayload → String
  payload_segment payload = codec.base64url (codec.json_stringify (payload_json payload))

  unfoldable pub encode_session_cookie :
      Environment → (clock : ℕ) → AcceptanceSessionCookiePayload → Keyed String
  unfolding payload_segment
  encode_session_cookie env clock payload st =
      sign_session_cookie_value codec env clock (payload_segment payload) default_sign_options st

  unfoldable pub parse_payload_segment : String → Option AcceptanceSessionCookiePayload
  unfolding read_payload
  parse_payload_segment segment = elim (codec.json_parse (codec.from_base64url segment)) [
    | none ↦ none
    | some value ↦ read_payload value
  ]

  unfoldable pub parse_token : Option VerifiedSessionToken → Option AcceptanceSessionCookiePayload
  unfolding parse_payload_segment
  parse_token none = none
  parse_token (some token) = parse_payload_segment token.payload_b64_url

  unfoldable pub decode_session_cookie :
      Environment → (clock : ℕ) → (value : String) → Keyed (Option AcceptanceSessionCookiePayload)
  unfolding parse_token
  decode_session_cookie env clock value st =
      if is_empty_text value
      then (ok none, st)
      else and_then (verify_signed_session_token codec env clock value default_verify_options st)
          (λ token after. (ok (parse_token token), after))

  unfoldable pub decode_token : Option VerifiedSessionToken → Option DecodedSessionCookie
  unfolding parse_payload_segment
  decode_token none = none
  decode_token (some token) = elim (parse_payload_segment token.payload_b64_url) [
    | none ↦ none
    | some payload ↦
        some
          (record { payload = payload; issued_at = token.issued_at; expires_at = token.expires_at })
  ]

  unfoldable pub decode_session_cookie_with_meta :
      Environment → (clock : ℕ) → (value : String) → Keyed (Option DecodedSessionCookie)
  unfolding decode_token
  decode_session_cookie_with_meta env clock value st =
      if is_empty_text value
      then (ok none, st)
      else and_then (verify_signed_session_token codec env clock value default_verify_options st)
          (λ token after. (ok (decode_token token), after))

-- the prefix of the pages that a role is let into
pub data SurfacePrefix : Type 0 where
  app agency ops : SurfacePrefix

unfoldable pub allowed_surface_for_role : PlatformRole → SurfacePrefix
allowed_surface_for_role client_owner = app
allowed_surface_for_role agency_owner = agency
allowed_surface_for_role agency_operator = agency
allowed_surface_for_role platform_super_admin = ops
