-- ===== src/Nas/Encode.antt =====
-- nas_security.Encode: a downlink message is coded, and ciphered and authenticated under the UE's
-- security context if there is one.
pub mod Layout
mod Examples
pub mod Keystream
use amf_cdac.Base.{
  ℕ, ◌≡◌, List, [], ◌∷◌, ◌++◌, Option, none, some, Bool, true, false, if◌then◌else◌,
}
use amf_cdac.Types.{Bytes}
use amf_cdac.Ue.{AmfUe}
use amf_cdac.Nas.Message.{
  HeaderType, plain_nas, integrity_protected, integrity_protected_and_ciphered,
  integrity_protected_with_new_context, integrity_protected_and_ciphered_with_new_context,
  other_header, Message, Library, Direction, uplink, downlink,
}

pub data EncodeError : Type 0 where
  ue_is_nil message_is_empty wrong_header_type plain_encode_failed encrypt_failed mac_failed :
      EncodeError

pub data Encoded : Type 0 where
  ok : Bytes → Encoded
  err : EncodeError → Encoded

module _ (lib : Library) where
  open lib use {
    header_octet, plain_nas_encode, nas_mac_calculate, nas_encrypt, count_get, count_sqn, count_set,
    count_add_one,
  }

  -- From the sequence number on: the MAC, the header, and the step of the downlink count.
  pub authenticate : AmfUe → Message → Bytes → Encoded × AmfUe
  authenticate ue msg payload =
      let numbered = count_sqn ue.dl_count ∷ payload in
      elim (nas_mac_calculate ue.integrity_alg ue.knas_int (count_get ue.dl_count) downlink
        numbered) [
          | none ↦ (err mac_failed, ue)
          | some mac32 ↦ (
            ok (
                msg.protocol_discriminator
                ∷ header_octet msg.security_header_type
                ∷ (mac32 ++ numbered)),
            record ue { dl_count = count_add_one ue.dl_count },
          )
        ]

  -- The ciphering, if the header type asks for it.
  pub cipher : Bool → AmfUe → Message → Bytes → Encoded × AmfUe
  unfolding authenticate
  cipher false ue msg payload = authenticate ue msg payload
  cipher true ue msg payload =
      elim (nas_encrypt ue.ciphering_alg ue.knas_enc (count_get ue.dl_count) downlink payload) [
        | none ↦ (err encrypt_failed, ue)
        | some ciphered ↦ authenticate ue msg ciphered
      ]

  pub protect : Bool → AmfUe → Message → Encoded × AmfUe
  unfolding cipher
  protect need_ciphering ue msg = elim (plain_nas_encode msg) [
    | none ↦ (err plain_encode_failed, ue)
    | some payload ↦ cipher need_ciphering ue msg payload
  ]

  pub plain : AmfUe → Message → Encoded × AmfUe
  plain ue msg = elim (plain_nas_encode msg) [
    | none ↦ (err plain_encode_failed, ue)
    | some payload ↦ (ok payload, ue)
  ]

  -- The switch on the security header type; the last clause is its default.
  pub encode_by : HeaderType → AmfUe → Message → Encoded × AmfUe
  unfolding protect
  encode_by integrity_protected ue msg = protect false ue msg
  encode_by integrity_protected_and_ciphered ue msg = protect true ue msg
  encode_by integrity_protected_with_new_context ue msg =
      protect false (record ue { ul_count = count_set 0 0; dl_count = count_set 0 0 }) msg
  encode_by _ ue msg = (err wrong_header_type, ue)

  pub encode_for : AmfUe → Message → Encoded × AmfUe
  unfolding encode_by plain
  encode_for ue msg =
      if ue.security_context_available
      then encode_by msg.security_header_type ue msg
      else plain ue msg

  -- Encode(ue, msg), with the UE as it is left behind.
  unfoldable pub encode : Option AmfUe → Option Message → Encoded × Option AmfUe
  unfolding encode_for
  encode none msg = (err ue_is_nil, none)
  encode (some ue) none = (err message_is_empty, some ue)
  encode (some ue) (some msg) = let (out, ue') = encode_for ue msg in (out, some ue')
