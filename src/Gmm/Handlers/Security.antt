-- ===== src/Gmm/Handlers/Security.antt =====
-- The handlers of the remaining answers of a UE: to an identity request, a notification, a
-- configuration update, a security mode command and a registration accept, and the status message
-- (gmm/handler.go).
use amf_cdac.Base.{
  ℕ, zero, suc, ℤ, String, Bool, true, false, Option, none, some, List, [], ◌∷◌, if◌then◌else◌,
  drop, length, ltb, load, nat_eq, parse_int,
}
use amf_cdac.Types.{Bytes, AccessType, PlmnId, n2_normal_release, release_ue_context}
use amf_cdac.Nas.Identity.{encode_to_string}
use amf_cdac.Ue.Algorithms.{security_context_is_valid}
use amf_cdac.Context.State.{World}
use amf_cdac.Gmm.Transitions.{security_mode_success, context_setup_success}
use amf_cdac.Gmm.Questions.{
  pdu_session_status_mismatch, releases_sm_context, updates_security_context,
  ue_context_release_command, normal_release,
}
use amf_cdac.Gmm.Proc.{registration_pointer, Proc, panics, asks}
use amf_cdac.Gmm.Callbacks.{put, of_ue}
use amf_cdac.Gmm.Handlers.{
  Env, succeed, fail, finish, clear_t3560, clear_t3550, clear_t3565, ran_ue_of,
}

-- What the library reads from the contents of a mobile identity.
pub data Identity : Type 0 where
  -- the SUCI and its PLMN, as util.PlmnIdStringToModels reads it
  suci_identity : String → PlmnId → Identity
  guti_identity : Bytes → Identity
  -- the octets of the contents
  s_tmsi_identity : Bytes → Identity
  imei_identity : String → Identity
  imeisv_identity : String → Identity
  no_identity : Identity
  -- contents without an octet
  empty_contents : Identity

-- An int64 that is int32(...): the parser allows 32 bits.
abbrev pub set_tmsi : World → ℕ → Option ℤ → Proc Bool
set_tmsi w u none = fail w
set_tmsi w u (some n) = succeed (put w u (record (w.ues u) { tmsi = n }))

-- The handler's guard: a UE whose last message failed its integrity check is turned away.
abbrev pub guarded : World → ℕ → Proc Bool → Proc Bool
guarded w u p = if (w.ues u).mac_failed then fail w else p

-- strconv.ParseInt(sTmsi[4:], 10, 32) of the octets after the first; a slice may be out of range.
abbrev pub read_tmsi : World → ℕ → Bytes → Proc Bool
read_tmsi w u octets =
    let text = encode_to_string (drop 1 octets) in
    if ltb (length text) 4 then panics else set_tmsi w u (parse_int 32 (drop 4 text))

-- HandleIdentityResponse
unfoldable pub handle_identity_response : ℕ → Identity → World → Proc Bool
handle_identity_response u (suci_identity suci plmn) w =
    succeed (put w u (record (w.ues u) { suci = suci; plmn_id = plmn }))
handle_identity_response u (guti_identity guti) w =
    guarded w u (succeed (put w u (record (w.ues u) { guti = guti })))
handle_identity_response u (s_tmsi_identity octets) w = guarded w u (read_tmsi w u octets)
handle_identity_response u (imei_identity imei) w =
    guarded w u (succeed (put w u (record (w.ues u) { pei = imei })))
handle_identity_response u (imeisv_identity imeisv) w =
    guarded w u (succeed (put w u (record (w.ues u) { pei = imeisv })))
handle_identity_response u no_identity w = succeed w
handle_identity_response u empty_contents w = panics

-- The loop over the PDU sessions from `psi` on, of which `left` are left: a session that the UE has
-- not, by the flags from `psi` on, is released. A flag that is not there is an index out of range.
unfoldable pub release_inactive : ℕ → ℕ → ℕ → List Bool → World → Proc Bool
release_inactive zero u psi flags w = succeed w
release_inactive (suc left) u psi flags w = elim (load (w.ues u).sm_context_list psi) [
  | none ↦ release_inactive left u (suc psi) (drop 1 flags) w
  | some sm ↦ elim flags [
    | [] ↦ panics
    | active ∷ rest ↦ elim active [
      | true ↦ release_inactive left u (suc psi) rest w
      | false ↦
          asks (releases_sm_context u psi (some pdu_session_status_mismatch)) w
            (λ r w'. release_inactive left u (suc psi) rest w')
    ]
  ]
]

abbrev pub compare_status : Option (List Bool) → ℕ → World → Proc Bool
compare_status none u w = succeed w
compare_status (some flags) u w = release_inactive 15 u 1 (drop 1 flags) w

-- HandleNotificationResponse, of a message with or without a PDU session status
unfoldable pub handle_notification_response : ℕ → Option (List Bool) → World → Proc Bool
unfolding clear_t3565 release_inactive
handle_notification_response u status w = guarded w u (clear_t3565 w u (compare_status status u))

-- HandleConfigurationUpdateComplete
unfoldable pub handle_configuration_update_complete : ℕ → World → Proc Bool
handle_configuration_update_complete u w = guarded w u (succeed w)

-- HandleStatus5GMM
unfoldable pub handle_status_5gmm : ℕ → World → Proc Bool
handle_status_5gmm u w = guarded w u (succeed w)

-- HandleRegistrationComplete, of a UE whose registration request has an uplink data status or not,
-- and a pending follow-on request or not. A nil request is dereferenced.
unfoldable pub handle_registration_complete : (ℕ → Bool × Bool) → ℕ → AccessType → World → Proc Bool
unfolding clear_t3550
handle_registration_complete request_flags u a w = clear_t3550 w u (λ w1.
    elim (w1.ues u).registration_request [
      | none ↦ panics
      | some request ↦
          let (data_status, follow_on) = request_flags request in
          let finished = finish context_setup_success (of_ue u a) in
          if data_status
          then finished w1
          else if follow_on
          then finished w1
          else asks (ue_context_release_command (ran_ue_of w1 u a) n2_normal_release normal_release)
              w1 (λ sent w2. finished w2)
    ])

-- The message in the container of a SecurityModeComplete: it does not decode, it is of another
-- type, or it is a registration or service request; the pointer is to the registration request.
pub data Container : Type 0 where
  undecodable other_type : Container
  request : Option ℕ → Container

unfoldable pub complete_security_mode : ℕ → AccessType → ℤ → Option Container → World → Proc Bool
complete_security_mode u a code none w =
    finish security_mode_success
      (record (of_ue u a) {
        procedure_code = some code;
        nas_message = some (registration_pointer (w.ues u).registration_request);
      })
      w
complete_security_mode u a code (some undecodable) w = fail w
complete_security_mode u a code (some other_type) w = fail w
complete_security_mode u a code (some (request p)) w =
    finish security_mode_success
      (record (of_ue u a) {
        procedure_code = some code;
        nas_message = some (registration_pointer p);
      })
      w

abbrev pub note_imeisv : ℕ → Option String → World → World
note_imeisv u none w = w
note_imeisv u (some pei) w = put w u (record (w.ues u) { pei = pei })

-- HandleSecurityModeComplete, of a message with or without an IMEISV and a container
unfoldable pub handle_security_mode_complete :
    Env → ℕ → AccessType → ℤ → Option String → Option Container → World → Proc Bool
unfolding clear_t3560 complete_security_mode
handle_security_mode_complete env u a code imeisv container w = guarded w u (
    clear_t3560 w u (λ w1.
      let finished =
        λ (w2 : World). complete_security_mode u a code container (note_imeisv u imeisv w2) in
      if security_context_is_valid env.no_key_is_available (w1.ues u)
      then asks (updates_security_context u a) w1 (λ updated w2. finished w2)
      else finished w1))

-- HandleSecurityModeReject
unfoldable pub handle_security_mode_reject : ℕ → AccessType → World → Proc Bool
unfolding clear_t3560
handle_security_mode_reject u a w = clear_t3560 w u (λ w1.
    let w2 = put w1 u (record (w1.ues u) { security_context_available = false }) in
    asks (ue_context_release_command (ran_ue_of w2 u a) release_ue_context normal_release) w2
      (λ sent w3. succeed w3))
