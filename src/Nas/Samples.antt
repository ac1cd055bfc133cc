-- ===== src/Nas/Samples.antt =====
-- A concrete library for the examples: NAS counts as TS 24.501 has them, the null ciphering, and a
-- MAC of four octets that depends on the count and on the length of what it covers.
use amf_cdac.Base.{
  ℕ, ◌+◌, ◌*◌, ◌/◌, ◌%◌, ◌^◌, [], ◌∷◌, Option, none, some, arith, length, true, ◌==◌, nat_eq,
  if◌then◌else◌,
}
use amf_cdac.Types.{Bytes}
use amf_cdac.Ue.{AmfUe, zero_ue}
use amf_cdac.Nas.Message.{
  HeaderType, plain_nas, integrity_protected, integrity_protected_and_ciphered,
  integrity_protected_with_new_context, integrity_protected_and_ciphered_with_new_context,
  other_header, MessageType, registration_request, ul_nas_transport, GmmMessage, Message, Library,
  IsNasCount,
}

abbrev header_of_octet : ℕ → HeaderType
header_of_octet n =
    if n == 0
    then plain_nas
    else if n == 1
    then integrity_protected
    else if n == 2
    then integrity_protected_and_ciphered
    else if n == 3
    then integrity_protected_with_new_context
    else if n == 4
    then integrity_protected_and_ciphered_with_new_context
    else other_header n

abbrev octet_of_header : HeaderType → ℕ
octet_of_header plain_nas = 0
octet_of_header integrity_protected = 1
octet_of_header integrity_protected_and_ciphered = 2
octet_of_header integrity_protected_with_new_context = 3
octet_of_header integrity_protected_and_ciphered_with_new_context = 4
octet_of_header (other_header n) = n

-- The header type of a payload is its second octet.
abbrev header_of : Bytes → HeaderType
header_of (d ∷ h ∷ rest) = header_of_octet h
header_of _ = plain_nas

abbrev gmm_of : MessageType → Bytes → Option GmmMessage
gmm_of t body = some (record { message_type = t; mobile_identity = []; body = body })

-- The first octet 46 is that of a session management message, which has no GMM message; the third
-- one of another message is 65 in a registration request.
abbrev type_of : Bytes → MessageType
type_of (h ∷ t ∷ rest) = if t == 65 then registration_request else ul_nas_transport
type_of _ = ul_nas_transport

abbrev pub coded : Message → Bytes → Message
coded msg [] = msg
coded msg (d ∷ rest) =
    if d == 46
    then record msg { protocol_discriminator = d; gsm_message = some rest }
    else record msg { protocol_discriminator = d; gmm_message = gmm_of (type_of rest) rest }

abbrev pub toy : Library
toy = record {
  get_security_header_type = header_of;
  header_octet = octet_of_header;
  plain_nas_encode = λ msg. some (126 ∷ 0 ∷ 65 ∷ []);
  plain_nas_decode = λ msg payload. some (coded msg payload);
  nas_mac_calculate = λ alg key n direction xs. some (n % 256 ∷ length xs ∷ 7 ∷ 7 ∷ []);
  nas_encrypt = λ alg key n direction xs. some xs;
  count_get = λ c. c % 2 ^ 24;
  count_sqn = λ c. c % 256;
  count_overflow = λ c. c / 256 % 65536;
  count_set = λ o s. o * 256 + s;
  count_set_sqn = λ c s. c / 256 * 256 + s;
  count_set_overflow = λ c o. o * 256 + c % 256;
  count_add_one = λ c. (c + 1) % 2 ^ 24;
}

pub toy-IsNasCount : IsNasCount toy
toy-IsNasCount = record {
  get-parts = λ c. omega arith;
  sqn-lt = λ c. omega arith;
  overflow-lt = λ c. omega arith;
  sqn-set_sqn = λ c s h. omega arith;
  overflow-set_sqn = λ c s h. omega arith;
  overflow-set_overflow = λ c o h. omega arith;
  set_sqn_self = λ c. omega arith;
  get-add_one = λ c. omega arith;
}

-- A UE with a security context and the counts 5 and 9.
abbrev pub secured : AmfUe
secured = record zero_ue { security_context_available = true; ul_count = 5; dl_count = 9 }

-- A message to be sent under a header type.
abbrev pub outgoing : HeaderType → Message
outgoing t = record {
  security_header_type = t;
  protocol_discriminator = 126;
  gmm_message = gmm_of registration_request [];
  gsm_message = none;
}
