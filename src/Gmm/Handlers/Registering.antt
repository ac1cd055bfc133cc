-- ===== src/Gmm/Handlers/Registering.antt =====
-- The registration request (gmm/handler.go, HandleRegistrationRequest).
use amf_cdac.Base.{
  ℕ, String, Bool, true, false, not, ◌&&◌, Option, none, some, [], ◌∷◌, map, if◌then◌else◌, nat_beq,
  load, store,
}
use amf_cdac.Types.{Bytes, AccessType, access_type_eq, PlmnId, Tai}
use amf_cdac.Ue.{AmfUe, SecurityCapability, registration_procedure}
use amf_cdac.Ue.Slices.{in_tai_list}
use amf_cdac.Nas.Identity.{guami_beq}
use amf_cdac.Context.State.{World, Guami}
use amf_cdac.Context.Ids.{Generators}
use amf_cdac.Context.Guti.{reallocate_guti_to_ue}
use amf_cdac.Gmm.Questions.{
  Answer, granted, problem, failed, searches_amf, transfers_ue_context, copies_ue_context,
}
use amf_cdac.Gmm.Proc.{Proc, panics, asks}
use amf_cdac.Gmm.Callbacks.{put}
use amf_cdac.Gmm.Senders.{send_registration_reject}
use amf_cdac.Gmm.Handlers.{Env, succeed, fail, after, clear_t3513, clear_t3565, ran_ue_of}

-- The registration types; the reserved one and any other stand for the initial registration.
pub data RegistrationType : Type 0 where
  initial mobility_updating periodic_updating emergency reserved : RegistrationType
  other_registration : ℕ → RegistrationType

-- The identity of the request, as the library reads it, and the number of its type.
pub data RequestIdentity : Type 0 where
  no_identity : RequestIdentity
  suci_identity : String → PlmnId → RequestIdentity
  guti_identity : Guami → Bytes → RequestIdentity
  pei_identity : String → RequestIdentity
  other_identity : RequestIdentity
  empty_contents : RequestIdentity

-- The flag for the type of the security context: native, mapped, or neither.
pub data Tsc : Type 0 where
  native mapped unknown_tsc : Tsc

-- nasMessage.RegistrationRequest at its address, with what the handler reads of it.
pub record RegistrationRequest : Type 0 where
  pub address : ℕ
  pub registration_type : RegistrationType
  pub identity_type : ℕ
  pub identity : RequestIdentity
  pub tsc : Tsc
  pub key_set : ℕ
  pub ue_security_capability : Option SecurityCapability

-- The NAS message container: its deciphering fails, its decoding fails, it holds another message,
-- or a registration request.
pub data Container : Type 0 where
  undeciphered undecodable other_message : Container
  inner : RegistrationRequest → Container

-- What the handler takes from elsewhere beside `Env`: the generators of identifiers, the numbers of
-- the registration types, and util.TACConfigToModels.
pub record Registry : Type 0 where
  pub generators : Generators
  pub initial_registration : ℕ
  pub mobility_registration_updating : ℕ
  pub periodic_registration_updating : ℕ
  pub emergency_registration : ℕ
  pub tac_config_to_models : String → String

module _ (env : Env) (reg : Registry) (u : ℕ) (a : AccessType) where
  -- A failed integrity check: a new GUTI, and no security context.
  unfoldable pub distrust : World → Option World
  distrust w =
      if (w.ues u).mac_failed
      then elim (reallocate_guti_to_ue reg.generators w u) [
        | none ↦ none
        | some w' ↦ some (put w' u (record (w'.ues u) { security_context_available = false }))
      ]
      else some w

  -- ue.SetOnGoing(anType, registration); the old entry is dereferenced.
  unfoldable pub set_registering : World → (World → Proc Bool) → Proc Bool
  set_registering w k = elim (load (w.ues u).on_going a) [
    | none ↦ panics
    | some old ↦ k (
        put w u (record (w.ues u) {
          on_going =
              store (w.ues u).on_going a (record { procedure = registration_procedure; ppi = 0 });
        }))
  ]

  -- The NAS message container, and the request that counts.
  abbrev pub note_retransmission : World → World
  note_retransmission w =
      put w u (record (w.ues u) { retransmission_of_initial_nas_msg = (w.ues u).mac_failed })

  unfoldable pub open_container :
      Option Container
      → RegistrationRequest
      → World
      → (RegistrationRequest → World → Proc Bool)
      → Proc Bool
  open_container none r w k = k r w
  open_container (some undeciphered) r w k =
      k r (note_retransmission (put w u (record (w.ues u) { security_context_available = false })))
  open_container (some undecodable) r w k = fail w
  open_container (some other_message) r w k = fail w
  open_container (some (inner r')) r w k = k r' (note_retransmission w)

  -- The registration type; an emergency registration is an error.
  abbrev pub type_number : RegistrationType → Option ℕ
  type_number initial = some reg.initial_registration
  type_number mobility_updating = some reg.mobility_registration_updating
  type_number periodic_updating = some reg.periodic_registration_updating
  type_number emergency = none
  type_number reserved = some reg.initial_registration
  type_number (other_registration n) = some reg.initial_registration

  unfoldable pub take_identity : RequestIdentity → World → (World → Proc Bool) → Proc Bool
  take_identity no_identity w k = k w
  take_identity (suci_identity suci plmn) w k =
      k (put w u (record (w.ues u) { suci = suci; plmn_id = plmn }))
  take_identity (guti_identity guami guti) w k = elim w.served_guami_list [
    | [] ↦ panics
    | served ∷ rest ↦
        if guami_beq guami served
        then k (put w u (record (w.ues u) { guti = guti; serving_amf_changed = false }))
        else k (put w u (record (w.ues u) { serving_amf_changed = false }))
  ]
  take_identity (pei_identity pei) w k = k (put w u (record (w.ues u) { pei = pei }))
  take_identity other_identity w k = k w
  take_identity empty_contents w k = panics

  -- ue.NgKsi.Tsc by the flag, and the key set identifier; a context that is not native, and the
  -- value 7 for no key, become the native key set 0.
  abbrev pub is_native : Tsc → Bool → Bool
  is_native native old = true
  is_native mapped old = false
  is_native unknown_tsc old = old

  unfoldable pub take_key_set : Tsc → ℕ → AmfUe → AmfUe
  take_key_set tsc ksi ue =
      if is_native tsc ue.ng_ksi_native && not (nat_beq ksi 7)
      then record ue { ng_ksi_native = true; ng_ksi = ksi }
      else record ue { ng_ksi_native = true; ng_ksi = 0 }

  abbrev pub of_models : Tai → Tai
  of_models tai = record tai { tac = reg.tac_config_to_models tai.tac }

  abbrev pub reject_request : ℕ → World → Proc Bool
  reject_request cause w = after (send_registration_reject (ran_ue_of w u a) cause "" w) fail

  -- The transfer of the UE's context from the old AMF.
  unfoldable pub transferred : Answer Unit → World → Proc Bool
  transferred (granted r) w = asks (copies_ue_context u) w (λ copied w'. succeed w')
  transferred problem w =
      succeed (put w u (record (w.ues u) { security_context_available = false }))
  transferred failed w = succeed w

  unfoldable pub transfer : World → Proc Bool
  unfolding transferred
  transfer w =
      if (w.ues u).serving_amf_changed
      then asks (searches_amf u) w (λ missing w1.
        if missing then fail w1 else asks (transfers_ue_context u a) w1 transferred)
      else succeed w

  -- The check of the tracking area and the security capability.
  unfoldable pub check_area : Option SecurityCapability → World → Proc Bool
  unfolding transfer
  check_area capability w =
      if in_tai_list (w.ues u).tai (map of_models w.support_tai_lists)
      then elim capability [
        | none ↦ reject_request env.cause_protocol_error w
        | some c ↦ transfer (put w u (record (w.ues u) { ue_security_capability = c }))
      ]
      else reject_request env.cause_tracking_area_not_allowed w

  -- The tracking area comes from the RanUe; a nil pointer is dereferenced.
  unfoldable pub take_location : World → (World → Proc Bool) → Proc Bool
  take_location w k = elim (ran_ue_of w u a) [
    | none ↦ panics
    | some p ↦ k (put w u (record (w.ues u) { tai = (w.ran_ues p).tai }))
  ]

  -- From the registration type on, with the request that counts.
  unfoldable pub read_request : RegistrationRequest → World → Proc Bool
  unfolding take_identity take_key_set take_location check_area
  read_request r w =
      let w1 = put w u (record (w.ues u) { registration_request = some r.address }) in
      elim (type_number r.registration_type) [
        | none ↦
            fail
              (put w1 u (record (w1.ues u) { registration_type_5gs = reg.emergency_registration }))
        | some t ↦
            let ue = record (w1.ues u) {
              registration_type_5gs = t;
              identity_type_used_for_registration = r.identity_type;
            } in
            take_identity r.identity (put w1 u ue) (λ w2.
              take_location (put w2 u (take_key_set r.tsc r.key_set (w2.ues u)))
                (check_area r.ue_security_capability))
      ]

  -- HandleRegistrationRequest
  unfoldable pub handle_registration_request :
      Option Container → RegistrationRequest → World → Proc Bool
  unfolding distrust set_registering open_container read_request clear_t3513 clear_t3565
  handle_registration_request container r w = elim (ran_ue_of w u a) [
    | none ↦ fail w
    | some p ↦ elim (distrust w) [
      | none ↦ panics
      | some w1 ↦ set_registering w1 (λ w2.
          clear_t3513 w2 u
            (λ w3. clear_t3565 w3 u (λ w4. open_container container r w4 read_request)))
    ]
  ]
