-- ===== src/Auth/Signing.antt =====
-- lib/session-signing.ts: the signed token of a session cookie, four parts with dots between.
pub mod Acceptance
use Prim.Native.String.{◌++◌ as join}
use mathlib.Core.Option
use geoplane.Base.{
  ℕ, ◌+◌, ◌*◌, String, Bool, true, false, not, ◌||◌, ◌==◌, Option, none, some, List, [], ◌∷◌,
  Result, ok, err, any, get_or, leb, if◌then◌else◌,
}
use geoplane.Base.Text.{is_empty_text}
use geoplane.Base.Split.{split_on}
use geoplane.Base.Codec.{Codec}
use geoplane.Auth.Keys.{Environment, Keyed, and_then, current_signing_key, verification_keys}

abbrev pub session_ttl_ms : ℕ
session_ttl_ms = 12 * 60 * 60 * 1000

pub record SignOptions : Type 0 where
  pub now : Option ℕ
  pub ttl_ms : Option ℕ
  pub expires_at : Option ℕ
  pub key : Option String

pub record VerifyOptions : Type 0 where
  pub now : Option ℕ
  pub key : Option String

pub record VerifiedSessionToken : Type 0 where
  pub payload_b64_url : String
  pub issued_at : ℕ
  pub expires_at : ℕ

-- `${payload}.${issuedAt}.${expiresAt}`
abbrev pub signing_input : (payload issued_at expires_at : String) → String
signing_input payload issued_at expires_at =
    join payload (join "." (join issued_at (join "." expires_at)))

-- The comparison takes the same time wherever the texts differ; its answer is equality.
unfoldable pub constant_time_equals : String → String → Bool
constant_time_equals a b = a == b

module _ (codec : Codec) where
  unfoldable pub compute_signature : (input key : String) → String
  compute_signature input key = codec.hmac_sha256 key input

  unfoldable pub sign_with : (payload : String) (issued_at expires_at : ℕ) (key : String) → String
  unfolding compute_signature
  sign_with payload issued_at expires_at key =
      let input =
        signing_input payload (codec.number_text issued_at) (codec.number_text expires_at) in
      join input (join "." (compute_signature input key))

  abbrev pub expiry : (issued_at : ℕ) → SignOptions → ℕ
  expiry issued_at opts = get_or opts.expires_at (issued_at + get_or opts.ttl_ms session_ttl_ms)

  -- `clock` is `Date.now()`
  unfoldable pub sign_session_cookie_value :
      Environment → (clock : ℕ) → (payload : String) → SignOptions → Keyed String
  sign_session_cookie_value env clock payload opts st =
      let issued_at = get_or opts.now clock in
      let sign = λ (key : String). sign_with payload issued_at (expiry issued_at opts) key in
      elim opts.key [
        | some key ↦ (ok (sign key), st)
        | none ↦ and_then (current_signing_key env st) (λ key after. (ok (sign key), after))
      ]

  -- what is done once the keys are known
  unfoldable pub check_times :
      (payload issued_raw expires_raw : String) (now : ℕ) → Option VerifiedSessionToken
  check_times payload issued_raw expires_raw now = elim (codec.number_of issued_raw) [
    | none ↦ none
    | some issued_at ↦ elim (codec.number_of expires_raw) [
      | none ↦ none
      | some expires_at ↦
          if leb expires_at now
          then none
          else some
              (record { payload_b64_url = payload; issued_at = issued_at; expires_at = expires_at })
    ]
  ]

  unfoldable pub signature_ok : (input signature : String) → List String → Bool
  unfolding compute_signature constant_time_equals
  signature_ok input signature keys =
      any (λ key. constant_time_equals signature (compute_signature input key)) keys

  unfoldable pub check_parts :
      (payload issued_raw expires_raw signature : String) (now : ℕ)
      → List String
      → Option VerifiedSessionToken
  unfolding signature_ok check_times
  check_parts payload issued_raw expires_raw signature now keys =
      if not (signature_ok (signing_input payload issued_raw expires_raw) signature keys)
      then none
      else check_times payload issued_raw expires_raw now

  unfoldable pub verify_parts :
      Environment → (now : ℕ) → Option String → List String → Keyed (Option VerifiedSessionToken)
  unfolding check_parts
  verify_parts env now key (payload ∷ issued_raw ∷ expires_raw ∷ signature ∷ []) st =
      if is_empty_text payload
      then (ok none, st)
      else and_then (verification_keys env key st) (λ keys after.
        (ok (check_parts payload issued_raw expires_raw signature now keys), after))
  verify_parts env now key _ st = (ok none, st)

  -- A missing cookie is the empty text.
  unfoldable pub verify_signed_session_token :
      Environment
      → (clock : ℕ) → (value : String) → VerifyOptions
      → Keyed (Option VerifiedSessionToken)
  unfolding verify_parts
  verify_signed_session_token env clock value opts st =
      if is_empty_text value
      then (ok none, st)
      else verify_parts env (get_or opts.now clock) opts.key (split_on "." value) st

  unfoldable pub verify_session_cookie_value :
      Environment → (clock : ℕ) → (value : String) → VerifyOptions → Keyed (Option String)
  unfolding verify_signed_session_token
  verify_session_cookie_value env clock value opts st =
      and_then (verify_signed_session_token env clock value opts st)
        (λ token after. (ok (Option.map (λ t. t.payload_b64_url) token), after))
