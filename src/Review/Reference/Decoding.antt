-- ===== src/Review/Reference/Decoding.antt =====
-- Which codes stand for which validation id.
use Prim.Native.String.{◌++◌ as join}
use geoplane.Base.{
  String, false, some, List, [], ◌∷◌, ok, ◌≡◌, ◌↔◌, refl, sym, arith, eq_iff, eq_refl, All,
}
use geoplane.Base.Text.{is_empty_text}
use geoplane.Base.Split.{
  split_on, join_with, split_on-join, split_on-whole, split_on-All, join_with-split_on, empty-join,
}
use geoplane.Base.Codec.{Codec}
use geoplane.Auth.Keys.{Environment}
use geoplane.Auth.Signing.{constant_time_equals}
use geoplane.Auth.Signing.Acceptance.{Dotless}
use geoplane.Review.Reference.{
  ReviewKeyState, load_key, review_signature, check_code, decode_parts,
  decode_review_reference_code,
}

-- A code of an id: a payload that reads as the id, and the payload's HMAC by the key.
pub record CodeOf (codec : Codec) (key code validation_id : String) : Type 0 where
  pub payload : String
  pub parts : code ≡ join payload (join "." (codec.hmac_sha256 key payload))
  pub payload_present : is_empty_text payload ≡ false
  pub payload_dotless : Dotless payload
  pub signature_dotless : Dotless (codec.hmac_sha256 key payload)
  pub reads : codec.from_base64url payload ≡ validation_id
  pub id_present : is_empty_text validation_id ≡ false

module _ (codec : Codec) (env : Environment) (key : String) (st after : ReviewKeyState)
    (validation_id : String) where
  parts_sound :
      (code : String) (parts : List String)
      → load_key env st ≡ (ok key, after)
      → join_with "." parts ≡ code
      → All Dotless parts
      → (decode_parts codec env parts st).0 ≡ ok (some validation_id)
      → CodeOf codec key code validation_id
  unfolding decode_parts join_with check_code review_signature constant_time_equals
  parts_sound code [] k j d h = absurd (ground arith)
  parts_sound code (p ∷ []) k j d h = absurd (ground arith)
  parts_sound code (p ∷ s ∷ []) k j d h =
      let same : s ≡ codec.hmac_sha256 key p = ground (arith, eq_iff s (codec.hmac_sha256 key p)) in
      record {
        payload = p;
        parts = rw (← same) (sym j);
        payload_present = ground arith;
        payload_dotless = d.0;
        signature_dotless = rw (← same) d.1.0;
        reads = ground arith;
        id_present = ground arith;
      }
  parts_sound code (p ∷ s ∷ x ∷ xs) k j d h = absurd (ground arith)

  parts_complete :
      (code : String)
      → load_key env st ≡ (ok key, after)
      → (c : CodeOf codec key code validation_id)
      → (decode_parts codec env (split_on "." code) st).0 ≡ ok (some validation_id)
  unfolding decode_parts check_code review_signature constant_time_equals
  parts_complete code k c =
      let signature = codec.hmac_sha256 key c.payload in
      let split : split_on "." code ≡ c.payload ∷ signature ∷ [] =
        rw
          (
            c.parts,
            split_on-join "." c.payload signature "." refl c.payload_dotless,
            split_on-whole "." signature c.signature_dotless,
          )
          refl in
      rw split (ground (arith, k, c.payload_present, c.reads, c.id_present, eq_refl signature))

  -- A code is decoded to a validation id exactly if it is a payload that reads as this id, which
  -- is not empty, and the payload's HMAC by the loaded key, with one dot between and none
  -- inside.
  pub decode_review_reference_code_iff :
      (code : String)
      → load_key env st ≡ (ok key, after)
      → ((decode_review_reference_code codec env code st).0 ≡ ok (some validation_id))
        ↔ CodeOf codec key code validation_id
  unfolding decode_review_reference_code
  decode_review_reference_code_iff code k = (
    λ h.
        parts_sound code (split_on "." code) k (join_with-split_on "." code) (split_on-All "." code)
          (ground arith),
    λ c.
        let present : is_empty_text code ≡ false =
          rw (c.parts) (empty-join c.payload _ c.payload_present) in
        rw (present, decode_review_reference_code) (parts_complete code k c),
  )
