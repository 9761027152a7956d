-- ===== src/Auth/Responses.antt =====
-- runtime/api-contracts/index.ts, the response envelope, and runtime/auth/http.ts, which turns it
-- into an HTTP status and writes the session cookie's header. `JSON.stringify` of the body and the
-- other headers are left out.
use Prim.Native.Nat.{◌/◌}
use Prim.Native.String.{◌++◌ as join}
use geoplane.Base.{
  ℕ, String, Option, none, some, Result, ok, err, ◌||◌, ◌==◌, get_or, if◌then◌else◌,
}
use geoplane.Base.Json.{Fields, no_fields, object}
use geoplane.Base.Text.{is_blank}
use geoplane.Base.Codec.{Codec}
use geoplane.Auth.Keys.{Environment}
use geoplane.Auth.Signing.{session_ttl_ms}

pub data ApiErrorCode : Type 0 where
  unauthenticated forbidden not_found validation_failed conflict internal_error : ApiErrorCode

-- `details` holds at most a `status` here.
pub record ApiError : Type 0 where
  pub code : ApiErrorCode
  pub message : String
  pub status : Option String

abbrev pub ApiResponse : Type 0 → Type 0
ApiResponse A = Result ApiError A

abbrev pub api_err : {A : Type 0} → ApiErrorCode → String → ApiResponse A
api_err code message = err (record { code = code; message = message; status = none })

unfoldable pub api_error_http_status : ApiErrorCode → ℕ
api_error_http_status unauthenticated = 401
api_error_http_status forbidden = 403
api_error_http_status not_found = 404
api_error_http_status validation_failed = 422
api_error_http_status conflict = 409
api_error_http_status internal_error = 500

-- the status of `toHttpResponse`
unfoldable pub http_status : {A : Type 0} → ApiResponse A → (ok_status : Option ℕ) → ℕ
unfolding api_error_http_status
http_status (ok a) ok_status = get_or ok_status 200
http_status (err e) ok_status = api_error_http_status e.code

abbrev pub session_cookie_max_age_seconds : ℕ
session_cookie_max_age_seconds = session_ttl_ms / 1000

unfoldable pub secure_attribute : Environment → String
secure_attribute env =
    let name = get_or (env.process_env "NODE_ENV") "" in
    if name == "production" || name == "staging" then "; Secure" else ""

module _ (codec : Codec) (env : Environment) where
  unfoldable pub session_set_cookie : (name value : String) → String
  unfolding secure_attribute
  session_set_cookie name value = join name (
      join "=" (
        join value (
          join "; Path=/; HttpOnly; SameSite=Lax; Max-Age="
            (join (codec.number_text session_cookie_max_age_seconds) (secure_attribute env)))))

unfoldable pub session_clear_cookie : Environment → (name : String) → String
unfolding secure_attribute
session_clear_cookie env name =
    join name (join "=; Path=/; HttpOnly; SameSite=Lax; Max-Age=0" (secure_attribute env))

-- `readJsonBody` of the text of a body. An array is an object without the named fields.
unfoldable pub read_json_body : Codec → (content : String) → Fields
read_json_body codec content =
    if is_blank content
    then no_fields
    else elim (codec.json_parse content) [ some (object fields) ↦ fields | _ ↦ no_fields ]
