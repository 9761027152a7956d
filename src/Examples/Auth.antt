-- ===== src/Examples/Auth.antt =====
-- The theorems on session cookies and the account service at concrete inputs.
use Prim.Native.String.{◌++◌ as join}
use geoplane.Base.{
  ◌+◌, String, true, Option, none, some, [], ◌∷◌, ok, ◌≡◌, ◌↔◌, refl, arith, Memᴰ, eqb, ◌==◌,
  if◌then◌else◌,
}
use geoplane.Base.Text.{is_blank}
use geoplane.Base.Split.{has_sep}
use geoplane.Base.Codec.{Codec}
use geoplane.Tenancy.Entities.{
  Organization, Membership, Project, OrganizationType, OrganizationStatus, MembershipStatus,
  client_owner,
}
use geoplane.Auth.Keys.{
  Environment, KeyState, initial_key_state, resolve_configured_key, current_signing_key,
  previous_signing_key, verification_keys, key_list,
}
use geoplane.Auth.Keys.Caching.{started, asked_current, configured_keys, verification_keys-Reached}
use geoplane.Auth.Signing.{
  VerifiedSessionToken, session_ttl_ms, compute_signature, verify_signed_session_token,
}
use geoplane.Auth.Signing.Acceptance.{Accepted, verify_iff}
use geoplane.Auth.Cookie.{
  AcceptanceSessionCookiePayload, default_verify_options, payload_json, payload_segment,
  encode_session_cookie, decode_session_cookie_with_meta,
}
use geoplane.Auth.Cookie.RoundTrip.{ReadsBack, decode-encode}
use geoplane.Auth.Accounts.{AuthenticatedUser}
use geoplane.Auth.Login.{LoginInput, unissued_session, cookie_payload}
use geoplane.Auth.Runtime.{Repositories, build_auth_service_deps}

abbrev environment : (current : String) → Option String → Environment
environment current previous = record {
  process_env = λ name.
      if name == "SESSION_SIGNING_KEY_CURRENT"
      then some current
      else if name == "SESSION_SIGNING_KEY_PREVIOUS"
      then previous
      else none;
  env_file = none;
}

-- the environment before and after the keys were rotated
abbrev pub writer : Environment
writer = environment "key-1" none

abbrev pub reader : Environment
reader = environment "key-2" (some " key-1 ")

abbrev pub member : Membership
member = record {
  id = "m1";
  user_id = "u1";
  organization_id = "acme";
  role = client_owner;
  status = MembershipStatus.active;
  created_at = "";
}

abbrev pub acme : Organization
acme = record {
  id = "acme";
  type = OrganizationType.client;
  display_name = "Acme";
  status = OrganizationStatus.active;
  idempotency_key = "k";
  source_namespace = none;
  external_reference = none;
  created_at = "";
  created_by_user_id = "u0";
}

abbrev pub project : Project
project = record {
  id = "p1";
  client_organization_id = "acme";
  name = "Site";
  created_at = "";
  created_by_user_id = "u0";
}

abbrev pub repositories : Repositories
repositories = record {
  find_invitation_by_token_hash = λ _. none;
  list_active_by_user = λ _. member ∷ [];
  find_organization = λ _. some acme;
  list_active_client_ids = λ _. "acme" ∷ [];
  is_authorized = λ _ _. true;
  find_project = λ _. some project;
  list_projects_for_client = λ _. project ∷ [];
  user_email = λ _. some "ann@acme";
}

abbrev pub ann : AuthenticatedUser
ann = record { id = "u1"; email = "ann@acme"; display_name = some "Ann" }

abbrev pub log_in : LoginInput
log_in = record { user = ann; now = 100; session_id = none; session_version = none; ttl_ms = none }

abbrev pub written : AcceptanceSessionCookiePayload
written = cookie_payload (unissued_session (build_auth_service_deps repositories) ann member acme)

-- A codec for this one payload and its two times.
abbrev pub toy : Codec
toy = record {
  json_stringify = λ _. "json";
  json_parse = λ _. some (payload_json written);
  base64url = λ _. "payload";
  from_base64url = λ _. "json";
  number_text = λ n. if eqb n 100 then "100" else "43200100";
  number_of = λ t. if t == "100" then some 100 else some 43200100;
  hmac_sha256 = λ key _. join "signed-by-" key;
}

pub written-ReadsBack : ReadsBack toy written 100 (100 + session_ttl_ms) "key-1"
unfolding payload_segment has_sep compute_signature build_auth_service_deps
written-ReadsBack = record {
  parsed = refl;
  unpacked = refl;
  segment_present = refl;
  segment_dotless = refl;
  issued = refl;
  issued_dotless = refl;
  expires = refl;
  expires_dotless = refl;
  signature_dotless = refl;
}

abbrev pub after_signing : KeyState
after_signing = (current_signing_key writer initial_key_state).1

abbrev pub after_reading : KeyState
after_reading = (verification_keys reader none initial_key_state).1

pub signs : current_signing_key writer initial_key_state ≡ (ok "key-1", after_signing)
unfolding current_signing_key resolve_configured_key is_blank
signs = refl

pub verifies :
    verification_keys reader none initial_key_state ≡ (ok ("key-2" ∷ "key-1" ∷ []), after_reading)
unfolding verification_keys current_signing_key previous_signing_key resolve_configured_key key_list
    is_blank
verifies = refl

pub second : Memᴰ {A = String} "key-1" ("key-2" ∷ "key-1" ∷ [])
second = Memᴰ.tail (Memᴰ.head refl)

verification_keys-Reached_example :
    (verification_keys reader none (current_signing_key reader initial_key_state).1).0
    ≡ configured_keys reader
verification_keys-Reached_example =
    verification_keys-Reached reader (current_signing_key reader initial_key_state).1
      (asked_current initial_key_state started)

abbrev token : VerifiedSessionToken
token = record { payload_b64_url = "payload"; issued_at = 100; expires_at = 100 + session_ttl_ms }

verify_iff_example :
    ((verify_signed_session_token toy reader 200 "payload.100.43200100.signed-by-key-1"
        default_verify_options initial_key_state).0
      ≡ ok (some token))
    ↔ Accepted toy ("key-2" ∷ "key-1" ∷ []) 200 "payload.100.43200100.signed-by-key-1" token
verify_iff_example =
    verify_iff toy reader 200 "payload.100.43200100.signed-by-key-1" default_verify_options
      initial_key_state after_reading ("key-2" ∷ "key-1" ∷ []) token verifies

decode-encode_example :
    (value : String) × (((encode_session_cookie toy writer 100 written initial_key_state).0
        ≡ ok value)
      × ((decode_session_cookie_with_meta toy reader 200 value initial_key_state).0
          ≡ ok (
              some (record {
                payload = written;
                issued_at = 100;
                expires_at = 100 + session_ttl_ms;
              }))))
decode-encode_example =
    decode-encode toy written writer reader 100 200 initial_key_state after_signing
      initial_key_state after_reading "key-1" ("key-2" ∷ "key-1" ∷ []) written-ReadsBack signs
      verifies second (omega arith)
