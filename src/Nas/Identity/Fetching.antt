-- ===== src/Nas/Identity/Fetching.antt =====
-- To which messages a UE context is given (nas/nas_security/security.go).
use amf_cdac.Base.{
  ℕ, ◌≡◌, ◌≢◌, refl, inl, inr, [], ◌∷◌, Option, none, some, false, arith, Option-cases, Bool-cases,
  ltb, length, drop, List-cases, ◌==◌, list_eq, nat_eq, nat_beq_iff,
}
use amf_cdac.Types.{Bytes}
use amf_cdac.Context.State.{World}
use amf_cdac.Context.Ues.{Database, amf_ue_find_by_suci, amf_ue_find_by_guti}
use amf_cdac.Nas.Message.{
  HeaderType, plain_nas, integrity_protected, MessageType, registration_request, service_request,
  deregistration_request_ue_originating, Message, Library,
}
use amf_cdac.Nas.Decode.{new_message}
use amf_cdac.Nas.Identity.{
  IdentityType, guti_5g, suci, s_tmsi_5g, Identities, stmsi_to_guti, Fetched, found, panics, give,
  by_guti, by_suci, of_registration, of_service, of_deregistration, with_type, of_message,
  of_decoded, of_header, fetch_ue_context_with_mobile_identity,
}

module _ (lib : Library) (ids : Identities) (db : Database) (P : Fetched → Type 0) (w : World)
    (p_panics : P panics) (p_none : P (found none w))
    (p_suci : (contents : Bytes)
      → P (by_suci lib ids db w (amf_ue_find_by_suci w (ids.suci_to_string contents)))) where
  module _ (h : HeaderType)
      (p_guti : (guti : Bytes) → P (give lib ids db h (amf_ue_find_by_guti db w guti))) where
    by_guti-Each : (guti : Bytes) → P (by_guti lib ids db h w guti)
    unfolding by_guti
    by_guti-Each guti = elim (Bool-cases (guti == [])) [
      | inl e ↦ rw e p_none
      | inr e ↦ rw e (p_guti guti)
    ]

    registration-Each :
        (t : IdentityType) (contents : Bytes) → P (of_registration lib ids db h t w contents)
    unfolding of_registration
    registration-Each guti_5g contents = elim (List-cases w.served_guami_list) [
      | inl e ↦ rw (e, of_registration) p_panics
      | inr (g, gs, e) ↦ rw (e, of_registration) (by_guti-Each _)
    ]
    registration-Each suci contents = p_suci contents
    registration-Each _ contents = p_none

    service-Each : (t : IdentityType) (contents : Bytes) → P (of_service lib ids db h t w contents)
    unfolding of_service
    service-Each s_tmsi_5g contents =
        elim (Option-cases (stmsi_to_guti w.served_guami_list contents)) [
          | inl e ↦ rw (e, of_service) p_panics
          | inr (guti, e) ↦ rw (e, of_service) (by_guti-Each guti)
        ]
    service-Each _ contents = p_none

    deregistration-Each :
        (t : IdentityType) (contents : Bytes) → P (of_deregistration lib ids db h t w contents)
    unfolding of_deregistration
    deregistration-Each guti_5g contents = by_guti-Each (ids.guti_to_string contents).1
    deregistration-Each _ contents = p_none

    typed-Each :
        (contents : Bytes) (k : IdentityType → Fetched)
        → ((t : IdentityType) → P (k t))
        → P (with_type lib ids db contents k)
    typed-Each [] k f = p_panics
    typed-Each (b ∷ bs) k f = f (ids.get_type_of_identity b)

    message-Each : (t : MessageType) (contents : Bytes) → P (of_message lib ids db h t w contents)
    unfolding of_message
    message-Each registration_request contents =
        typed-Each contents _ (λ t. registration-Each t contents)
    message-Each service_request contents = typed-Each contents _ (λ t. service-Each t contents)
    message-Each deregistration_request_ue_originating contents =
        typed-Each contents _ (λ t. deregistration-Each t contents)
    message-Each _ contents = p_none

    decoded-Each : (o : Option Message) → P (of_decoded lib ids db h w o)
    unfolding of_decoded
    decoded-Each none = p_none
    decoded-Each (some msg) = elim (Option-cases msg.gmm_message) [
      | inl e ↦ rw (e, of_decoded) p_panics
      | inr (gmm, e) ↦ rw (e, of_decoded) (message-Each gmm.message_type gmm.mobile_identity)
    ]

  -- What holds of every UE that a lookup gives holds of what the header leads to.
  pub header-Each :
      (payload : Bytes) (h : HeaderType)
      → ((guti : Bytes) → P (give lib ids db plain_nas (amf_ue_find_by_guti db w guti)))
      → (h ≡ integrity_protected
          → (guti : Bytes)
          → P (give lib ids db integrity_protected (amf_ue_find_by_guti db w guti)))
      → P (of_header lib ids db h w payload)
  unfolding of_header
  header-Each payload plain_nas f g =
      decoded-Each plain_nas f (lib.plain_nas_decode (new_message lib payload) payload)
  header-Each payload integrity_protected f g = elim (Bool-cases (ltb (length payload) 7)) [
    | inl e ↦ rw e p_panics
    | inr e ↦ rw e (
        decoded-Each integrity_protected (g refl)
          (lib.plain_nas_decode (new_message lib payload) (drop 7 payload)))
  ]
  header-Each payload _ f g = p_none

-- A UE that is given was found by a SUCI in the world `w`, and has no security context after.
abbrev pub Insecure : Identities → World → Fetched → Type 0
Insecure ids w (found (some u) w') =
    ((contents : Bytes) × (amf_ue_find_by_suci w (ids.suci_to_string contents) ≡ some u))
    × ((w'.ues u).security_context_available ≡ false)
Insecure ids w (found none w') = Unit
Insecure ids w panics = Unit

module _ (lib : Library) (ids : Identities) (db : Database) where
  give-Insecure : (w : World) (r : Option ℕ × World) → Insecure ids w (give lib ids db plain_nas r)
  unfolding give
  give-Insecure w (none, v) = tt
  give-Insecure w (some u, v) = tt

  by_suci-Insecure :
      (w : World) (contents : Bytes) (o : Option ℕ)
      → amf_ue_find_by_suci w (ids.suci_to_string contents) ≡ o
      → Insecure ids w (by_suci lib ids db w o)
  unfolding by_suci
  by_suci-Insecure w contents none e = tt
  by_suci-Insecure w contents (some u) e = ((contents, e), ground (arith, nat_beq_iff u u))

-- Whatever identity it names, a message that is not integrity protected is given no UE context but
-- one that the AMF finds by a SUCI; so it is given none that was found by a GUTI only, and the one
-- that it is given has lost its security context.
pub fetch-Insecure :
    (lib : Library) (ids : Identities) (db : Database) (w : World) (payload : Bytes)
    → lib.get_security_header_type payload ≢ integrity_protected
    → Insecure ids w (fetch_ue_context_with_mobile_identity lib ids db w (some payload))
unfolding fetch_ue_context_with_mobile_identity
fetch-Insecure lib ids db w payload n =
    header-Each lib ids db (Insecure ids w) w tt tt
      (λ contents.
        by_suci-Insecure lib ids db w contents (amf_ue_find_by_suci w (ids.suci_to_string contents))
          refl)
      payload (lib.get_security_header_type payload)
      (λ guti. give-Insecure lib ids db w (amf_ue_find_by_guti db w guti)) (λ e. absurd (n e))
