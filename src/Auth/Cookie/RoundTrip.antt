-- ===== src/Auth/Cookie/RoundTrip.antt =====
-- A cookie that one process writes and another, whose keys include the writer's, reads.
use Prim.Native.String.{◌++◌ as join}
use text.Mathlib.TextLemmas.{append_assoc}
use geoplane.Base.{ℕ, ◌+◌, ◌<◌, String, false, none, some, List, ok, ◌≡◌, refl, arith, Memᴰ}
use geoplane.Base.Text.{is_empty_text}
use geoplane.Base.Split.{empty-join}
use geoplane.Base.Json.{get_field}
use geoplane.Base.Codec.{Codec}
use geoplane.Auth.Keys.{Environment, KeyState, current_signing_key, verification_keys}
use geoplane.Auth.Signing.{
  session_ttl_ms, compute_signature, signing_input, sign_with, sign_session_cookie_value,
  VerifiedSessionToken,
}
use geoplane.Auth.Signing.Acceptance.{Dotless, Accepted, verify_iff}
use geoplane.Auth.Cookie.{
  AcceptanceSessionCookiePayload, payload_json, default_verify_options, payload_segment,
  read_payload, encode_session_cookie, parse_payload_segment, decode_token,
  decode_session_cookie_with_meta,
}

-- What the encodings do with the texts of one cookie: each is read back as it was written, and
-- none holds a dot.
pub record ReadsBack (codec : Codec) (payload : AcceptanceSessionCookiePayload)
    (issued_at expires_at : ℕ) (key : String) : Type 0 where
  pub parsed :
      codec.json_parse (codec.json_stringify (payload_json payload)) ≡ some (payload_json payload)
  pub unpacked :
      codec.from_base64url (payload_segment codec payload)
      ≡ codec.json_stringify (payload_json payload)
  pub segment_present : is_empty_text (payload_segment codec payload) ≡ false
  pub segment_dotless : Dotless (payload_segment codec payload)
  pub issued : codec.number_of (codec.number_text issued_at) ≡ some issued_at
  pub issued_dotless : Dotless (codec.number_text issued_at)
  pub expires : codec.number_of (codec.number_text expires_at) ≡ some expires_at
  pub expires_dotless : Dotless (codec.number_text expires_at)
  pub signature_dotless : Dotless (
      compute_signature codec
        (signing_input
          (payload_segment codec payload)
          (codec.number_text issued_at)
          (codec.number_text expires_at))
        key)

written_parts :
    (a b c d : String)
    → join (join a (join "." (join b (join "." c)))) (join "." d)
      ≡ join a (join "." (join b (join "." (join c (join "." d)))))
written_parts a b c d = rw (append_assoc, append_assoc, append_assoc, append_assoc) refl

payload_read :
    (payload : AcceptanceSessionCookiePayload) → read_payload (payload_json payload) ≡ some payload
unfolding read_payload get_field
payload_read payload = refl

module _ (codec : Codec) where
  written-Accepted :
      (payload : AcceptanceSessionCookiePayload) (issued_at expires_at now : ℕ) (key : String)
      (keys : List String)
      → ReadsBack codec payload issued_at expires_at key
      → Memᴰ key keys
      → now < expires_at
      → Accepted codec keys now
          (sign_with codec (payload_segment codec payload) issued_at expires_at key)
          (record {
            payload_b64_url = payload_segment codec payload;
            issued_at = issued_at;
            expires_at = expires_at;
          })
  unfolding sign_with compute_signature
  written-Accepted payload issued_at expires_at now key keys r m u = record {
    issued_raw = codec.number_text issued_at;
    expires_raw = codec.number_text expires_at;
    signature =
        compute_signature codec
          (signing_input (payload_segment codec payload) (codec.number_text issued_at)
            (codec.number_text expires_at))
          key;
    parts =
        written_parts (payload_segment codec payload) (codec.number_text issued_at)
          (codec.number_text expires_at) _;
    payload_dotless = r.segment_dotless;
    payload_present = r.segment_present;
    issued_dotless = r.issued_dotless;
    expires_dotless = r.expires_dotless;
    signature_dotless = r.signature_dotless;
    key = key;
    of_keys = m;
    signed = refl;
    issued = r.issued;
    expires = r.expires;
    unexpired = u;
  }

  value_present :
      (payload : AcceptanceSessionCookiePayload) (issued_at expires_at : ℕ) (key : String)
      → ReadsBack codec payload issued_at expires_at key
      → is_empty_text (sign_with codec (payload_segment codec payload) issued_at expires_at key)
        ≡ false
  unfolding sign_with
  value_present payload issued_at expires_at key r =
      empty-join _ _ (empty-join (payload_segment codec payload) _ r.segment_present)

  parse_written :
      (payload : AcceptanceSessionCookiePayload) {issued_at expires_at : ℕ} {key : String}
      → ReadsBack codec payload issued_at expires_at key
      → parse_payload_segment codec (payload_segment codec payload) ≡ some payload
  unfolding parse_payload_segment
  parse_written payload r = ground (arith, r.unpacked, r.parsed, payload_read payload)

  pub encode_lem :
      (payload : AcceptanceSessionCookiePayload) (env : Environment) (clock : ℕ)
      (st after : KeyState) (key : String)
      → current_signing_key env st ≡ (ok key, after)
      → encode_session_cookie codec env clock payload st ≡ (
        ok (sign_with codec (payload_segment codec payload) clock (clock + session_ttl_ms) key),
        after,
      )
  unfolding encode_session_cookie sign_session_cookie_value
  encode_lem payload env clock st after key signs = ground (arith, signs)

  pub decode_lem :
      (payload : AcceptanceSessionCookiePayload) (env : Environment) (clock later : ℕ)
      (st after : KeyState) (key : String) (keys : List String)
      → ReadsBack codec payload clock (clock + session_ttl_ms) key
      → verification_keys env none st ≡ (ok keys, after)
      → Memᴰ key keys
      → later < clock + session_ttl_ms
      → (decode_session_cookie_with_meta codec env later
          (sign_with codec (payload_segment codec payload) clock (clock + session_ttl_ms) key)
          st).0
        ≡ ok (
            some (record {
              payload = payload;
              issued_at = clock;
              expires_at = clock + session_ttl_ms;
            }))
  unfolding decode_session_cookie_with_meta decode_token
  decode_lem payload env clock later st after key keys r verifies m u =
      let expires_at = clock + session_ttl_ms in
      let token : VerifiedSessionToken = record {
        payload_b64_url = payload_segment codec payload;
        issued_at = clock;
        expires_at = expires_at;
      } in
      let value = sign_with codec (payload_segment codec payload) clock expires_at key in
      let verified =
        (verify_iff codec env later value default_verify_options st after keys token verifies).1
          (written-Accepted payload clock expires_at later key keys r m u) in
      ground
        (arith, verified, parse_written payload r, value_present payload clock expires_at key r)

  -- With encodings that read back the texts of this cookie and put no dot into them, what one
  -- process writes at the time `clock` with its signing key, another whose keys include that key
  -- reads back at every time before twelve hours from then, the payload unchanged and with the two
  -- times.
  pub decode-encode :
      (payload : AcceptanceSessionCookiePayload) (writer reader : Environment) (clock later : ℕ)
      (st st_after : KeyState) (other other_after : KeyState) (key : String) (keys : List String)
      → ReadsBack codec payload clock (clock + session_ttl_ms) key
      → current_signing_key writer st ≡ (ok key, st_after)
      → verification_keys reader none other ≡ (ok keys, other_after)
      → Memᴰ key keys
      → later < clock + session_ttl_ms
      → (value : String) × (((encode_session_cookie codec writer clock payload st).0 ≡ ok value)
          × ((decode_session_cookie_with_meta codec reader later value other).0
              ≡ ok (
                  some (record {
                    payload = payload;
                    issued_at = clock;
                    expires_at = clock + session_ttl_ms;
                  }))))
  decode-encode payload writer reader clock later st st_after other other_after key keys r signs
        verifies m u =
      (
        sign_with codec (payload_segment codec payload) clock (clock + session_ttl_ms) key,
        (
          ground (arith, encode_lem payload writer clock st st_after key signs),
          decode_lem payload reader clock later other other_after key keys r verifies m u,
        ),
      )
