-- ===== src/Nas/Identity.antt =====
-- The UE context that a message without a context names (nas/nas_security/security.go,
-- StmsiToGuti and FetchUeContextWithMobileIdentity).
mod Examples
pub mod Samples
pub mod Stmsi
pub mod Fetching
use amf_cdac.Base.{
  ℕ, ◌≡◌, ltb, List, [], ◌∷◌, ◌++◌, Option, none, some, Bool, true, false, ◌&&◌, String,
  if◌then◌else◌, ◌==◌, list_eq, nat_eq, length, take, drop,
}
use amf_cdac.Types.{Bytes}
use amf_cdac.Ue.{AmfUe}
use amf_cdac.Context.State.{World, Guami, update}
use amf_cdac.Context.Guti.{hex_digits}
use amf_cdac.Context.Ues.{Database, amf_ue_find_by_suci, amf_ue_find_by_guti}
use amf_cdac.Nas.Message.{
  HeaderType, plain_nas, integrity_protected, MessageType, registration_request, service_request,
  deregistration_request_ue_originating, GmmMessage, Message, Library,
}
use amf_cdac.Nas.Decode.{new_message}

-- The types of identity that the code names, and any other.
pub data IdentityType : Type 0 where
  guti_5g suci s_tmsi_5g other_identity : IdentityType

-- The functions of nas-cdac on mobile identities.
pub record Identities : Type 0 where
  pub get_type_of_identity : ℕ → IdentityType
  pub guti_to_string : Bytes → Guami × Bytes
  pub suci_to_string : Bytes → String

-- hex.EncodeToString
unfoldable pub encode_to_string : Bytes → Bytes
unfolding hex_digits
encode_to_string [] = []
encode_to_string (b ∷ bs) = hex_digits 2 b ++ encode_to_string bs

-- StmsiToGuti(buf) for the served GUAMI; `none` is a slice or an index out of range.
unfoldable pub stmsi_to_guti : List Guami → Bytes → Option Bytes
unfolding encode_to_string
stmsi_to_guti [] buf = none
stmsi_to_guti (g ∷ gs) buf =
    if ltb (length g.amf_id) 2
    then none
    else some (
        g.mcc
        ++ (g.mnc
            ++ (take 2 g.amf_id
                ++ (encode_to_string (take 2 (drop 1 buf)) ++ encode_to_string (drop 3 buf)))))

-- reflect.DeepEqual of two GUAMIs
abbrev pub guami_beq : Guami → Guami → Bool
guami_beq a b = a.mcc == b.mcc && a.mnc == b.mnc && a.amf_id == b.amf_id

-- The UE, or nil, with the world; or a nil pointer or an index out of range.
pub data Fetched : Type 0 where
  found : Option ℕ → World → Fetched
  panics : Fetched

module _ (lib : Library) (ids : Identities) (db : Database) where
  -- A UE that was found by its GUTI is not given to a plain message.
  unfoldable pub give : HeaderType → Option ℕ × World → Fetched
  give h (none, w) = found none w
  give plain_nas (some u, w) = found none w
  give _ (some u, w) = found (some u) w

  -- The lookup at the end; an empty GUTI names no UE.
  unfoldable pub by_guti : HeaderType → World → Bytes → Fetched
  unfolding give
  by_guti h w guti = if guti == [] then found none w else give h (amf_ue_find_by_guti db w guti)

  -- A UE that was found by its SUCI loses its security context.
  unfoldable pub by_suci : World → Option ℕ → Fetched
  by_suci w none = found none w
  by_suci w (some u) =
      found (some u) (record w {
        ues = update w.ues u (record (w.ues u) { security_context_available = false });
      })

  unfoldable pub of_registration : HeaderType → IdentityType → World → Bytes → Fetched
  unfolding by_guti by_suci
  of_registration h guti_5g w contents = elim w.served_guami_list [
    | [] ↦ panics
    | served ∷ others ↦
        let (guami, guti) = ids.guti_to_string contents in
        by_guti h w (if guami_beq guami served then guti else [])
  ]
  of_registration h suci w contents =
      by_suci w (amf_ue_find_by_suci w (ids.suci_to_string contents))
  of_registration h _ w contents = found none w

  unfoldable pub of_service : HeaderType → IdentityType → World → Bytes → Fetched
  unfolding by_guti
  of_service h s_tmsi_5g w contents = elim (stmsi_to_guti w.served_guami_list contents) [
    | none ↦ panics
    | some guti ↦ by_guti h w guti
  ]
  of_service h _ w contents = found none w

  unfoldable pub of_deregistration : HeaderType → IdentityType → World → Bytes → Fetched
  unfolding by_guti
  of_deregistration h guti_5g w contents = by_guti h w (ids.guti_to_string contents).1
  of_deregistration h _ w contents = found none w

  -- contents[0] is the octet of the type.
  abbrev pub with_type : Bytes → (IdentityType → Fetched) → Fetched
  with_type [] k = panics
  with_type (b ∷ bs) k = k (ids.get_type_of_identity b)

  unfoldable pub of_message : HeaderType → MessageType → World → Bytes → Fetched
  unfolding of_registration of_service of_deregistration
  of_message h registration_request w contents =
      with_type contents (λ t. of_registration h t w contents)
  of_message h service_request w contents = with_type contents (λ t. of_service h t w contents)
  of_message h deregistration_request_ue_originating w contents =
      with_type contents (λ t. of_deregistration h t w contents)
  of_message h _ w contents = found none w

  -- The message once it is decoded; the header of a nil GmmMessage is read.
  unfoldable pub of_decoded : HeaderType → World → Option Message → Fetched
  unfolding of_message
  of_decoded h w none = found none w
  of_decoded h w (some msg) = elim msg.gmm_message [
    | none ↦ panics
    | some gmm ↦ of_message h gmm.message_type w gmm.mobile_identity
  ]

  -- The switch on the security header type.
  unfoldable pub of_header : HeaderType → World → Bytes → Fetched
  unfolding of_decoded
  of_header integrity_protected w payload =
      if ltb (length payload) 7
      then panics
      else of_decoded integrity_protected w
          (lib.plain_nas_decode (new_message lib payload) (drop 7 payload))
  of_header plain_nas w payload =
      of_decoded plain_nas w (lib.plain_nas_decode (new_message lib payload) payload)
  of_header _ w payload = found none w

  -- FetchUeContextWithMobileIdentity(payload)
  unfoldable pub fetch_ue_context_with_mobile_identity : World → Option Bytes → Fetched
  unfolding of_header
  fetch_ue_context_with_mobile_identity w none = found none w
  fetch_ue_context_with_mobile_identity w (some payload) =
      of_header (lib.get_security_header_type payload) w payload
