-- ===== src/Nas/Message.antt =====
-- The messages of nas-cdac as far as nas/nas_security/security.go reads them, and the functions of
-- that library which it calls.
use amf_cdac.Base.{ℕ, ◌+◌, ◌*◌, ◌%◌, ◌^◌, ◌<◌, ◌≡◌, Option}
use amf_cdac.Types.{Bytes, IntegrityAlg, CipheringAlg}

-- The nas.SecurityHeaderType constants that the code names, and any other value.
pub data HeaderType : Type 0 where
  plain_nas : HeaderType
  integrity_protected : HeaderType
  integrity_protected_and_ciphered : HeaderType
  integrity_protected_with_new_context : HeaderType
  integrity_protected_and_ciphered_with_new_context : HeaderType
  other_header : ℕ → HeaderType

-- The nas.MsgType constants that the code names, and any other value.
pub data MessageType : Type 0 where
  registration_request registration_complete : MessageType
  deregistration_request_ue_originating deregistration_accept_ue_terminated : MessageType
  service_request : MessageType
  identity_response : MessageType
  authentication_response authentication_failure : MessageType
  security_mode_complete security_mode_reject : MessageType
  configuration_update_complete notification_response ul_nas_transport status_5gmm : MessageType
  other_message : ℕ → MessageType

-- nas.GmmMessage: its type, the octets of the mobile identity, and all else.
pub record GmmMessage : Type 0 where
  pub message_type : MessageType
  pub mobile_identity : Bytes
  pub body : Bytes

-- nas.Message; the two embedded messages are pointers.
pub record Message : Type 0 where
  pub security_header_type : HeaderType
  pub protocol_discriminator : ℕ
  pub gmm_message : Option GmmMessage
  pub gsm_message : Option Bytes

pub data Direction : Type 0 where
  uplink downlink : Direction

-- `none` is a returned error. The bearer is security.Bearer3GPP in every call. A security.Count is
-- the number that it holds.
pub record Library : Type 0 where
  pub get_security_header_type : Bytes → HeaderType
  pub header_octet : HeaderType → ℕ
  pub plain_nas_encode : Message → Option Bytes
  pub plain_nas_decode : Message → Bytes → Option Message
  pub nas_mac_calculate : IntegrityAlg → Bytes → ℕ → Direction → Bytes → Option Bytes
  pub nas_encrypt : CipheringAlg → Bytes → ℕ → Direction → Bytes → Option Bytes
  pub count_get : ℕ → ℕ
  pub count_sqn : ℕ → ℕ
  pub count_overflow : ℕ → ℕ
  pub count_set : ℕ → ℕ → ℕ
  pub count_set_sqn : ℕ → ℕ → ℕ
  pub count_set_overflow : ℕ → ℕ → ℕ
  pub count_add_one : ℕ → ℕ

-- The NAS COUNT of TS 24.501 4.4.3.1: a 16-bit overflow counter above an 8-bit sequence number.
pub record IsNasCount (lib : Library) : Type 0 where
  pub get-parts : (c : ℕ) → lib.count_get c ≡ lib.count_overflow c * 256 + lib.count_sqn c
  pub sqn-lt : (c : ℕ) → lib.count_sqn c < 256
  pub overflow-lt : (c : ℕ) → lib.count_overflow c < 65536
  pub sqn-set_sqn : (c s : ℕ) → s < 256 → lib.count_sqn (lib.count_set_sqn c s) ≡ s
  pub overflow-set_sqn :
      (c s : ℕ) → s < 256 → lib.count_overflow (lib.count_set_sqn c s) ≡ lib.count_overflow c
  pub overflow-set_overflow :
      (c o : ℕ) → o < 65536 → lib.count_overflow (lib.count_set_overflow c o) ≡ o
  pub set_sqn_self : (c : ℕ) → lib.count_set_sqn c (lib.count_sqn c) ≡ c
  pub get-add_one : (c : ℕ) → lib.count_get (lib.count_add_one c) ≡ (lib.count_get c + 1) % 2 ^ 24
