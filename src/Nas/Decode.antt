-- ===== src/Nas/Decode.antt =====
-- nas_security.Decode: an uplink message is verified and deciphered under the UE's security context,
-- and handed on or refused by its type.
pub mod Integrity
pub mod Counting
mod Examples
pub mod RoundTrip
use amf_cdac.Base.{
  ℕ, ◌+◌, ◌%◌, ◌≡◌, List, [], ◌∷◌, ◌++◌, Option, none, some, Bool, true, false, not, ◌&&◌, String,
  if◌then◌else◌, ltb, ◌==◌, nat_eq, list_eq, string_eq, length, take, drop, load, Map,
}
use amf_cdac.Types.{Bytes, AccessType, access_type_eq}
use amf_cdac.Ue.{AmfUe}
use amf_cdac.Nas.Message.{
  HeaderType, plain_nas, integrity_protected, integrity_protected_and_ciphered,
  integrity_protected_and_ciphered_with_new_context, MessageType, registration_request,
  deregistration_request_ue_originating, deregistration_accept_ue_terminated, service_request,
  identity_response, authentication_response, authentication_failure, security_mode_reject,
  GmmMessage, Message, Library, uplink,
}

pub data DecodeError : Type 0 where
  ue_is_nil payload_is_empty plain_decode_failed gmm_message_is_nil plain_not_allowed : DecodeError
  payload_too_short wrong_header_type mac_failed encrypt_failed mac_verification_failed :
      DecodeError

-- `panics`: a nil pointer is dereferenced. An error that is returned with a message is `err`.
pub data Decoded : Type 0 where
  ok : Message → Decoded
  err : DecodeError → Decoded
  panics : Decoded

-- The messages that are processed without a secure exchange, as the first list of Decode has them.
abbrev pub plain_exempt : MessageType → Bool
plain_exempt registration_request = true
plain_exempt identity_response = true
plain_exempt authentication_response = true
plain_exempt authentication_failure = true
plain_exempt security_mode_reject = true
plain_exempt deregistration_request_ue_originating = true
plain_exempt deregistration_accept_ue_terminated = true
plain_exempt _ = false

-- The second list, for messages whose MAC was wrong.
abbrev pub mac_exempt : MessageType → Bool
mac_exempt registration_request = true
mac_exempt identity_response = true
mac_exempt authentication_response = true
mac_exempt authentication_failure = true
mac_exempt security_mode_reject = true
mac_exempt service_request = true
mac_exempt deregistration_request_ue_originating = true
mac_exempt deregistration_accept_ue_terminated = true
mac_exempt _ = false

-- The first switch on the type of the message, after the test for nil.
pub admit_plain : Message → Option GmmMessage → Decoded
admit_plain msg none = err gmm_message_is_nil
admit_plain msg (some gmm) = if plain_exempt gmm.message_type then ok msg else err plain_not_allowed

pub admit_decoded : Option Message → Decoded
unfolding admit_plain
admit_decoded none = err plain_decode_failed
admit_decoded (some msg) = admit_plain msg msg.gmm_message

-- The second one: it reads the header of the GMM message without that test.
pub admit_unverified : Message → Option GmmMessage → Decoded
admit_unverified msg none = panics
admit_unverified msg (some gmm) =
    if mac_exempt gmm.message_type then ok msg else err mac_verification_failed

pub of_plain : Option Message → Decoded
of_plain none = err plain_decode_failed
of_plain (some msg) = ok msg

-- The header types that a protected message may have: whether it is ciphered, and whether the
-- uplink count starts again. `none` is the default of the switch.
abbrev pub protection : HeaderType → Option (Bool × Bool)
protection integrity_protected = some (false, false)
protection integrity_protected_and_ciphered = some (true, false)
protection integrity_protected_and_ciphered_with_new_context = some (true, true)
protection _ = none

module _ (lib : Library) where
  open lib use {
    get_security_header_type, plain_nas_decode, nas_mac_calculate, nas_encrypt, count_get,
    count_sqn, count_overflow, count_set, count_set_sqn, count_set_overflow,
  }

  -- The uplink count that a received sequence number is taken to stand for.
  pub estimate : ℕ → ℕ → ℕ
  estimate count sqn =
      count_set_sqn
        (if ltb sqn (count_sqn count)
          then count_set_overflow count ((count_overflow count + 1) % 65536)
          else count)
        sqn

  -- The end of Decode: the coded message without its sequence number.
  pub admit : AmfUe → Option Message → Decoded
  unfolding admit_unverified of_plain
  admit ue (some msg) = if ue.mac_failed then admit_unverified msg msg.gmm_message else ok msg
  admit ue none = err plain_decode_failed

  pub decipher : Bool → AmfUe → Message → Bytes → Decoded × AmfUe
  unfolding admit
  decipher false ue msg body = (admit ue (plain_nas_decode msg body), ue)
  decipher true ue msg body =
      elim (nas_encrypt ue.ciphering_alg ue.knas_enc (count_get ue.ul_count) uplink body) [
        | none ↦ (err encrypt_failed, ue)
        | some deciphered ↦ (admit ue (plain_nas_decode msg deciphered), ue)
      ]

  -- The MAC is calculated over the sequence number and the body, and compared.
  pub verify : Bool → AmfUe → Message → Bytes → ℕ → Bytes → Decoded × AmfUe
  unfolding decipher
  verify ciphered ue msg received_mac32 sqn body =
      elim (nas_mac_calculate ue.integrity_alg ue.knas_int (count_get ue.ul_count) uplink
        (sqn ∷ body)) [
          | none ↦ (err mac_failed, ue)
          | some mac32 ↦
              decipher ciphered (record ue { mac_failed = not (mac32 == received_mac32) }) msg body
        ]

  pub receive : Option (Bool × Bool) → AmfUe → Message → Bytes → ℕ → Bytes → Decoded × AmfUe
  unfolding estimate verify
  receive none ue msg received_mac32 sqn body = (err wrong_header_type, ue)
  receive (some (ciphered, renewed)) ue msg received_mac32 sqn body =
      let count = if renewed then count_set 0 0 else ue.ul_count in
      verify ciphered (record ue { ul_count = estimate count sqn }) msg received_mac32 sqn body

  -- The branch of the security protected message. The payload has its sixth octet: it was measured.
  pub decode_protected : AmfUe → Message → Bytes → Decoded × AmfUe
  unfolding receive
  decode_protected ue msg payload = elim (drop 6 payload) [
    | [] ↦ (err payload_too_short, ue)
    | sqn ∷ body ↦
        receive (protection msg.security_header_type) ue msg (drop 2 (take 6 payload)) sqn body
  ]

  -- The branch of the plain message. `cause` is the establishment cause of the UE's RanUe of this
  -- access type, which is read only when there is a security context.
  pub decode_plain : AmfUe → Option String → Message → Bytes → Decoded × AmfUe
  unfolding admit_decoded of_plain
  decode_plain ue cause msg payload =
      let decoded = plain_nas_decode msg payload in
      if ue.security_context_available
      then elim cause [
        | none ↦ (panics, ue)
        | some c ↦ if c == "0" then (of_plain decoded, record ue { mac_failed = false }) else (
          admit_decoded decoded,
          record ue { mac_failed = false; security_context_available = false },
        )
      ]
      else (of_plain decoded, record ue { mac_failed = false })

  pub decode_by : HeaderType → AmfUe → Option String → Message → Bytes → Decoded × AmfUe
  unfolding decode_plain decode_protected
  decode_by plain_nas ue cause msg payload = decode_plain ue cause msg payload
  decode_by _ ue cause msg payload = decode_protected ue msg payload

  -- `new(nas.Message)`, with its security header type set from the payload.
  abbrev pub new_message : Bytes → Message
  new_message payload = record {
    security_header_type = get_security_header_type payload;
    protocol_discriminator = 0;
    gmm_message = none;
    gsm_message = none;
  }

  -- ue.RanUe[accessType].RRCEstablishmentCause; `causes` reads the heap at the address of a RanUe.
  abbrev pub cause_of : (ℕ → String) → AmfUe → AccessType → Option String
  cause_of causes ue access_type = elim (load ue.ran_ue access_type) [
    | none ↦ none
    | some p ↦ some (causes p)
  ]

  pub decode_payload : (ℕ → String) → AmfUe → AccessType → Bytes → Decoded × AmfUe
  unfolding decode_by
  decode_payload causes ue access_type payload =
      decode_by (get_security_header_type payload) ue (cause_of causes ue access_type)
        (new_message payload) payload

  -- Decode(ue, accessType, payload), with the UE as it is left behind.
  unfoldable pub decode :
      (ℕ → String) → Option AmfUe → AccessType → Option Bytes → Decoded × Option AmfUe
  unfolding decode_payload
  decode causes none access_type payload = (err ue_is_nil, none)
  decode causes (some ue) access_type none = (err payload_is_empty, some ue)
  decode causes (some ue) access_type (some payload) =
      let (out, ue') = decode_payload causes ue access_type payload in (out, some ue')
