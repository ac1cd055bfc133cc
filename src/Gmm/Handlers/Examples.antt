-- ===== src/Gmm/Handlers/Examples.antt =====
-- The theorems on the handlers at a world with one UE (gmm/handler.go).
use amf_cdac.Base.{◌≡◌, refl, inl, Bool, true, false, none, some, [], ◌∷◌, arith}
use amf_cdac.Types.{access_3gpp, Snssai}
use amf_cdac.Ue.{
  AmfUe, zero_ue, AuthenticationCtx, av_5g_aka, undecodable, auth_5g_aka, eap_aka_prime, SmContext,
  nas_3gpp,
}
use amf_cdac.Context.State.{World}
use amf_cdac.Context.Samples.{world}
use amf_cdac.Gmm.Questions.{releases_sm_context}
use amf_cdac.Gmm.Proc.{Proc, returns}
use amf_cdac.Base.{load, store, delete}
use amf_cdac.Ue.{nothing}
use amf_cdac.Ue.Slices.{in_tai_list}
use amf_cdac.Context.Samples.{generators}
use amf_cdac.Gmm.Handlers.{Env, clear_t3513, clear_t3565}
use amf_cdac.Gmm.Handlers.Registering.{
  RegistrationRequest, initial, no_identity, native, Registry, distrust, set_registering,
  open_container, take_identity, take_key_set, transfer, check_area, take_location, read_request,
  handle_registration_request,
}
use amf_cdac.Gmm.Handlers.Registered.{IsPrepared, registration_request-Prepared}
use amf_cdac.Gmm.Handlers.Ensuring.{Ensures}
use amf_cdac.Gmm.Handlers.Authentication.{
  authentication_procedure, handle_authentication_failure, ng_ksi_already_in_use,
}
use amf_cdac.Gmm.Handlers.Authenticating.{handle_authentication_response}
use amf_cdac.Gmm.Handlers.Leaving.{handle_deregistration_request}
use amf_cdac.Gmm.Handlers.Keeping.{Keeps}
use amf_cdac.Gmm.Handlers.KeySet.{KeySets, authentication-KeySets}
use amf_cdac.Gmm.Handlers.Checking.{Checked}
use amf_cdac.Gmm.Handlers.Confirming.{Matching, response-Checked}
use amf_cdac.Gmm.Handlers.Releasing.{Always, deregistration-Always}

abbrev pub env : Env
env = record {
  sha256 = λ b. b;
  type_suci = 1;
  type_guti = 2;
  cause_identity_not_derived = 9;
  cause_tracking_area_not_allowed = 12;
  cause_protocol_error = 111;
  cause_5gs_services_not_allowed = 7;
  no_key_is_available = 7;
  timers = record { t3560_cfg = some 4; t3522_cfg = none; t3550_cfg = some 4; t3565_cfg = none };
}

-- The world whose UEs are all this one.
abbrev pub with_ue : AmfUe → World
with_ue ue = record (world []) { ues = λ u. ue }

authentication-KeySets_example :
    Keeps KeySets (authentication_procedure env 0 access_3gpp (with_ue zero_ue))
    × Keeps KeySets
        (handle_authentication_failure env 0 access_3gpp ng_ksi_already_in_use [] (with_ue zero_ue))
authentication-KeySets_example =
    authentication-KeySets env 0 access_3gpp (with_ue zero_ue) ng_ksi_already_in_use []
      (λ u. omega arith)

abbrev aka : AuthenticationCtx
aka = record { auth_type = auth_5g_aka; var_5g_auth_data = av_5g_aka [] (48 ∷ []); links = [] }

abbrev eap_context : AuthenticationCtx
eap_context = record { auth_type = eap_aka_prime; var_5g_auth_data = undecodable; links = [] }

abbrev asked_by : AuthenticationCtx → World
asked_by ctx = with_ue (record zero_ue { authentication_ctx = some ctx })

response-Checked_example :
    Checked
      (Matching env aka.var_5g_auth_data (1 ∷ []))
      false
      (handle_authentication_response env 0 access_3gpp (1 ∷ []) none (asked_by aka))
response-Checked_example = response-Checked env 0 access_3gpp (1 ∷ []) aka none (asked_by aka) refl

abbrev unverified : World
unverified = with_ue (record zero_ue { mac_failed = true })

abbrev pub slice_1 : Snssai
slice_1 = record { sst = 1; sd = "010203" }

abbrev pub slice_2 : Snssai
slice_2 = record { sst = 1; sd = "112233" }

abbrev session : SmContext
session = record {
  access_type = access_3gpp;
  snssai = slice_1;
  dnn = "internet";
  pdu_session_inactive_val = false;
}

abbrev with_session : World
with_session = with_ue (record zero_ue { sm_context_list = (5, session) ∷ [] })

deregistration-Always_example :
    Always
      (releases_sm_context 0 5 none)
      (handle_deregistration_request 0 access_3gpp nas_3gpp false with_session)
deregistration-Always_example =
    deregistration-Always 0 access_3gpp nas_3gpp false with_session 5 session (inl refl) (inl refl)

abbrev registry : Registry
registry = record {
  generators = generators;
  initial_registration = 1;
  mobility_registration_updating = 2;
  periodic_registration_updating = 3;
  emergency_registration = 4;
  tac_config_to_models = λ tac. tac;
}

-- A request for an initial registration by a UE that has no key.
abbrev first_request : RegistrationRequest
first_request = record {
  address = 0;
  registration_type = initial;
  identity_type = 1;
  identity = no_identity;
  tsc = native;
  key_set = 7;
  ue_security_capability = some zero_ue.ue_security_capability;
}

-- A UE with a connection at a station in the only tracking area, which is supported.
abbrev connected : World
connected = record (world []) {
  ues = λ u. record zero_ue {
    ran_ue = (access_3gpp, 0) ∷ [];
    on_going = (access_3gpp, record { procedure = nothing; ppi = 0 }) ∷ [];
  };
  support_tai_lists = record { plmn_id = none; tac = "" } ∷ [];
}

registration_request-Prepared_example :
    Ensures
      (IsPrepared env registry 0 access_3gpp)
      (handle_registration_request env registry 0 access_3gpp none first_request connected)
registration_request-Prepared_example =
    registration_request-Prepared env registry 0 access_3gpp none first_request connected
      (omega arith)

-- The handler accepts this request.
abbrev is_accepted : Proc Bool → Bool
is_accepted (returns false w) = true
is_accepted _ = false

first_request-accepted :
    is_accepted
      (handle_registration_request env registry 0 access_3gpp none first_request connected)
    ≡ true
unfolding handle_registration_request distrust set_registering open_container read_request
    take_identity take_key_set take_location check_area transfer clear_t3513 clear_t3565 load store
    in_tai_list delete
first_request-accepted = refl
