-- ===== src/Auth/Signing/Acceptance.antt =====
-- Which cookie values verify.
use Prim.Native.String.{◌++◌ as join}
use geoplane.Base.{
  ℕ, ◌<◌, String, true, false, Option, some, List, [], ◌∷◌, ok, ◌≡◌, ◌↔◌, refl, sym, ap, ◌∙◌, arith,
  get_or, Bool-cases, inl, inr, ◌==◌, eq_iff, eq_refl, Memᴰ, All,
}
use geoplane.Base.Text.{is_empty_text}
use geoplane.Base.Split.{
  split_on, join_with, has_sep, split_on-join, split_on-whole, split_on-All, join_with-split_on,
  empty-join,
}
use geoplane.Base.Codec.{Codec}
use geoplane.Auth.Keys.{Environment, KeyState, verification_keys}
use geoplane.Auth.Signing.{
  VerifyOptions, VerifiedSessionToken, signing_input, compute_signature, constant_time_equals,
  check_times, signature_ok, check_parts, verify_parts, verify_signed_session_token,
}

-- a text that may stand between two dots
abbrev pub Dotless : String → Type 0
Dotless s = has_sep "." s ≡ false

-- What an accepted value is: its four parts, the key that signed it, and the two times that it
-- carries, the second one later than the reading.
pub record Accepted (codec : Codec) (keys : List String) (now : ℕ) (value : String)
    (token : VerifiedSessionToken) : Type 0 where
  pub issued_raw : String
  pub expires_raw : String
  pub signature : String
  pub parts :
      value
      ≡ join token.payload_b64_url
          (join "." (join issued_raw (join "." (join expires_raw (join "." signature)))))
  pub payload_dotless : Dotless token.payload_b64_url
  pub payload_present : is_empty_text token.payload_b64_url ≡ false
  pub issued_dotless : Dotless issued_raw
  pub expires_dotless : Dotless expires_raw
  pub signature_dotless : Dotless signature
  pub key : String
  pub of_keys : Memᴰ key keys
  pub signed :
      signature
      ≡ codec.hmac_sha256 key
          (join token.payload_b64_url (join "." (join issued_raw (join "." expires_raw))))
  pub issued : codec.number_of issued_raw ≡ some token.issued_at
  pub expires : codec.number_of expires_raw ≡ some token.expires_at
  pub unexpired : now < token.expires_at

-- The test of a signature passes exactly for one by a key of the list.
module _ (codec : Codec) where
  signature_sound :
      (input signature : String) (keys : List String)
      → signature_ok codec input signature keys ≡ true
      → (key : String) × Memᴰ key keys × (signature ≡ codec.hmac_sha256 key input)
  unfolding signature_ok compute_signature constant_time_equals
  signature_sound input signature [] h = absurd (ground arith)
  signature_sound input signature (key ∷ keys) h =
      elim (Bool-cases (signature == codec.hmac_sha256 key input)) [
        | inl same ↦ (key, Memᴰ.head refl, (eq_iff signature (codec.hmac_sha256 key input)).0 same)
        | inr other ↦
            let (found, member, by) = signature_sound input signature keys (ground arith) in
            (found, Memᴰ.tail member, by)
      ]

  signature_complete :
      (input key : String) (keys : List String)
      → Memᴰ key keys
      → signature_ok codec input (codec.hmac_sha256 key input) keys ≡ true
  unfolding signature_ok compute_signature constant_time_equals
  signature_complete input key _ (Memᴰ.head {x} e) =
      rw (← e) (ground (arith, eq_refl (codec.hmac_sha256 key input)))
  signature_complete input key _ (Memᴰ.tail m) = ground (arith, signature_complete input key _ m)

-- four parts without dots, joined, are split into themselves
four_parts :
    (a b c d : String)
    → Dotless a
    → Dotless b
    → Dotless c
    → Dotless d
    → split_on "." (join a (join "." (join b (join "." (join c (join "." d))))))
      ≡ a ∷ b ∷ c ∷ d ∷ []
four_parts a b c d ha hb hc hd =
    rw
      (
        split_on-join "." a _ "." refl ha,
        split_on-join "." b _ "." refl hb,
        split_on-join "." c d "." refl hc,
        split_on-whole "." d hd,
      )
      refl

check_sound :
    (codec : Codec) (p i e s : String) (now : ℕ) (keys : List String) (token : VerifiedSessionToken)
    → check_parts codec p i e s now keys ≡ some token
    → (signature_ok codec (signing_input p i e) s keys ≡ true)
      × (codec.number_of i ≡ some token.issued_at)
      × (codec.number_of e ≡ some token.expires_at)
      × (now < token.expires_at)
      × (p ≡ token.payload_b64_url)
unfolding check_parts check_times
check_sound codec p i e s now keys token h = ground arith

module _ (codec : Codec) (env : Environment) (now : ℕ) (key : Option String) (st after : KeyState)
    (keys : List String) (token : VerifiedSessionToken) where
  parts_sound :
      (value : String) (parts : List String)
      → verification_keys env key st ≡ (ok keys, after)
      → join_with "." parts ≡ value
      → All Dotless parts
      → (verify_parts codec env now key parts st).0 ≡ ok (some token)
      → Accepted codec keys now value token
  unfolding verify_parts join_with
  parts_sound value [] ks j d h = absurd (ground arith)
  parts_sound value (p ∷ []) ks j d h = absurd (ground arith)
  parts_sound value (p ∷ i ∷ []) ks j d h = absurd (ground arith)
  parts_sound value (p ∷ i ∷ e ∷ []) ks j d h = absurd (ground arith)
  parts_sound value (p ∷ i ∷ e ∷ s ∷ []) ks j d h =
      let present : is_empty_text p ≡ false = ground arith in
      let checked : check_parts codec p i e s now keys ≡ some token = ground arith in
      let (signed, issued, expires, unexpired, same) =
        check_sound codec p i e s now keys token checked in
      let (key, of_keys, by) = signature_sound codec (signing_input p i e) s keys signed in
      record {
        issued_raw = i;
        expires_raw = e;
        signature = s;
        parts = rw (← same) (sym j);
        payload_dotless = rw (← same) d.0;
        payload_present = rw (← same) present;
        issued_dotless = d.1.0;
        expires_dotless = d.1.1.0;
        signature_dotless = d.1.1.1.0;
        key = key;
        of_keys = of_keys;
        signed = by ∙ ap (λ (q : String). codec.hmac_sha256 key (signing_input q i e)) same;
        issued = issued;
        expires = expires;
        unexpired = unexpired;
      }
  parts_sound value (p ∷ i ∷ e ∷ s ∷ x ∷ xs) ks j d h = absurd (ground arith)

  parts_complete :
      (value : String)
      → verification_keys env key st ≡ (ok keys, after)
      → (a : Accepted codec keys now value token)
      → (verify_parts codec env now key
          (token.payload_b64_url ∷ a.issued_raw ∷ a.expires_raw ∷ a.signature ∷ [])
          st).0
        ≡ ok (some token)
  unfolding verify_parts check_parts check_times
  parts_complete value ks a =
      let input = signing_input token.payload_b64_url a.issued_raw a.expires_raw in
      let signed : signature_ok codec input a.signature keys ≡ true =
        rw (a.signed) (signature_complete codec input a.key keys a.of_keys) in
      ground (arith, ks, signed, a.issued, a.expires, a.unexpired, a.payload_present)

  not_empty : (value : String) → Accepted codec keys now value token → is_empty_text value ≡ false
  not_empty value a = rw (a.parts) (empty-join token.payload_b64_url _ a.payload_present)

module _ (codec : Codec) (env : Environment) (clock : ℕ) (value : String) (opts : VerifyOptions)
    (st after : KeyState) (keys : List String) (token : VerifiedSessionToken) where
  -- Where the keys are had, a cookie value verifies with a token exactly if it is the token's
  -- payload, two times and a signature with dots between and none inside, the payload is not empty,
  -- the signature is the HMAC of the three parts before it by one of the keys, the times are the
  -- token's and the second one is still to come.
  pub verify_iff :
      verification_keys env opts.key st ≡ (ok keys, after)
      → ((verify_signed_session_token codec env clock value opts st).0 ≡ ok (some token))
        ↔ Accepted codec keys (get_or opts.now clock) value token
  unfolding verify_signed_session_token
  verify_iff ks =
      let now = get_or opts.now clock in
      (
        λ h.
            parts_sound codec env now opts.key st after keys token value (split_on "." value) ks
              (join_with-split_on "." value) (split_on-All "." value) (ground arith),
        λ a.
            rw
              (
                not_empty codec env now opts.key st after keys token value a,
                verify_signed_session_token,
              )
              (rw
                (
                  a.parts,
                  four_parts token.payload_b64_url a.issued_raw a.expires_raw a.signature
                      a.payload_dotless a.issued_dotless a.expires_dotless a.signature_dotless,
                )
                (parts_complete codec env now opts.key st after keys token value ks a)),
      )
