-- ===== src/Gmm/Handlers/Authenticating.antt =====
-- The response to an authentication request (gmm/handler.go).
use amf_cdac.Base.{
  ℕ, ◌+◌, ◌-◌, ◌*◌, String, Bool, true, false, ◌&&◌, Option, none, some, [], ◌∷◌, ◌++◌, ◌==◌,
  string_eq, list_eq, nat_eq, if◌then◌else◌, leb, nat_beq, drop, load,
}
use amf_cdac.Types.{Bytes, AccessType}
use amf_cdac.Nas.Identity.{encode_to_string}
use amf_cdac.Ue.{
  AuthenticationCtx, AuthData, av_5g_aka, eap_payload, AuthType, auth_5g_aka, eap_aka_prime,
  auth_other,
}
use amf_cdac.Context.State.{World}
use amf_cdac.Gmm.Transitions.{auth_success, security_mode_success}
use amf_cdac.Gmm.Questions.{
  Answer, granted, problem, failed, AuthResult, auth_success as result_success, auth_failure,
  auth_ongoing, auth_unknown, Confirmation, confirms_5g_aka, confirms_eap, derives_kamf,
}
use amf_cdac.Gmm.Proc.{Args, Proc, panics, asks}
use amf_cdac.Gmm.Callbacks.{put, of_ue}
use amf_cdac.Gmm.Senders.{send_identity_request, send_authentication_result}
use amf_cdac.Gmm.Handlers.{Env, succeed, fail, finish, after, clear_t3560, ran_ue_of}
use amf_cdac.Gmm.Handlers.Authentication.{reject, ask_again}

-- hex.DecodeString: digits of both cases, and an even number of them.
abbrev pub hex_value : ℕ → Option ℕ
hex_value c =
    if leb 48 c && leb c 57
    then some (c - 48)
    else if leb 97 c && leb c 102
    then some (c - 87)
    else if leb 65 c && leb c 70
    then some (c - 55)
    else none

abbrev pub octet : Option ℕ → Option ℕ → Option Bytes → Option Bytes
octet (some h) (some l) (some rest) = some ((h * 16 + l) ∷ rest)
octet _ _ _ = none

unfoldable pub decode_string : Bytes → Option Bytes
decode_string [] = some []
decode_string (h ∷ []) = none
decode_string (h ∷ l ∷ rest) = octet (hex_value h) (hex_value l) (decode_string rest)

-- _, exists := response.Links["link"]
abbrev pub has_link : Confirmation → Bool
has_link c = elim (load c.links "link") [ none ↦ false | some link ↦ true ]

-- The arguments of the event of a success.
abbrev pub success_args : ℕ → AccessType → Bool → String → Args
success_args u a eap message = record (of_ue u a) {
  eap_success = some eap;
  eap_message = some message;
}

-- The context of an EAP authentication that goes on; the links are kept if there are none new.
abbrev pub continued : AuthenticationCtx → Confirmation → AuthenticationCtx
continued ctx c =
    let ctx1 = record ctx { var_5g_auth_data = eap_payload c.eap_payload } in
    if has_link c then record ctx1 { links = c.links } else ctx1

module _ (env : Env) where
  -- HRES*: the second half of the SHA-256 of RAND and RES*, as text.
  unfoldable pub hres_star : Bytes → Bytes → Bytes
  hres_star rand res = encode_to_string (drop 16 (env.sha256 (rand ++ res)))

  -- A failure: a UE that registered with its GUTI is asked for its SUCI, another one rejected.
  unfoldable pub refuse : ℕ → AccessType → World → Proc Bool
  unfolding reject
  refuse u a w =
      if nat_beq (w.ues u).identity_type_used_for_registration env.type_guti
      then after (send_identity_request (ran_ue_of w u a) env.type_suci w) succeed
      else reject env u a "" w

  -- What a success leaves in the UE, before and after the derivation of Kamf.
  unfoldable pub adopt : ℕ → Confirmation → World → (World → Proc Bool) → Proc Bool
  adopt u c w k =
      asks (derives_kamf u)
        (put w u
          (record (w.ues u) { unauthenticated_supi = false; kseaf = c.kseaf; supi = c.supi }))
        (λ derived w'. k w')

  unfoldable pub confirmed_5g_aka : ℕ → AccessType → Confirmation → AuthResult → World → Proc Bool
  unfolding adopt refuse
  confirmed_5g_aka u a c result_success w =
      adopt u c w (finish auth_success (success_args u a false ""))
  confirmed_5g_aka u a c auth_failure w = refuse u a w
  confirmed_5g_aka u a c _ w = succeed w

  unfoldable pub answer_5g_aka : ℕ → AccessType → Answer Confirmation → World → Proc Bool
  unfolding confirmed_5g_aka
  answer_5g_aka u a (granted c) w = confirmed_5g_aka u a c c.auth_result w
  answer_5g_aka u a problem w = succeed w
  answer_5g_aka u a failed w = fail w

  unfoldable pub compare_5g_aka : ℕ → AccessType → Bytes → Bytes → Bytes → World → Proc Bool
  unfolding hres_star refuse answer_5g_aka
  compare_5g_aka u a rand hxres_star res w =
      if hres_star rand res == hxres_star
      then asks (confirms_5g_aka u (encode_to_string res)) w (answer_5g_aka u a)
      else refuse u a w

  unfoldable pub respond_5g_aka : AuthData → ℕ → AccessType → Bytes → World → Proc Bool
  unfolding compare_5g_aka
  respond_5g_aka (av_5g_aka rand hxres_star) u a res w = elim (decode_string rand) [
    | none ↦ fail w
    | some p0 ↦ compare_5g_aka u a p0 hxres_star res w
  ]
  respond_5g_aka _ u a res w = fail w

  -- The failure of EAP: the payload goes to the UE in either case.
  unfoldable pub refuse_eap : ℕ → AccessType → String → World → Proc Bool
  unfolding reject
  refuse_eap u a payload w =
      if nat_beq (w.ues u).identity_type_used_for_registration env.type_guti
      then after (send_authentication_result (ran_ue_of w u a) false payload w)
          (λ w1. after (send_identity_request (ran_ue_of w1 u a) env.type_suci w1) succeed)
      else reject env u a payload w

  -- An EAP authentication goes on with the new context.
  unfoldable pub continue_eap : ℕ → AccessType → Confirmation → World → Proc Bool
  unfolding ask_again
  continue_eap u a c w = elim (w.ues u).authentication_ctx [
    | none ↦ panics
    | some ctx ↦
        ask_again env u a
          (put w u (record (w.ues u) { authentication_ctx = some (continued ctx c) }))
  ]

  unfoldable pub confirmed_eap : ℕ → AccessType → Confirmation → AuthResult → World → Proc Bool
  unfolding adopt refuse_eap continue_eap
  confirmed_eap u a c result_success w =
      adopt u c w (finish security_mode_success (success_args u a true c.eap_payload))
  confirmed_eap u a c auth_failure w = refuse_eap u a c.eap_payload w
  confirmed_eap u a c auth_ongoing w = continue_eap u a c w
  confirmed_eap u a c auth_unknown w = succeed w

  unfoldable pub answer_eap : ℕ → AccessType → Answer Confirmation → World → Proc Bool
  unfolding confirmed_eap
  answer_eap u a (granted c) w = confirmed_eap u a c c.auth_result w
  answer_eap u a problem w = succeed w
  answer_eap u a failed w = fail w

  unfoldable pub respond_by :
      AuthType → AuthData → ℕ → AccessType → Bytes → Option String → World → Proc Bool
  unfolding respond_5g_aka answer_eap
  respond_by auth_5g_aka av u a res eap w = respond_5g_aka av u a res w
  respond_by eap_aka_prime av u a res none w = panics
  respond_by eap_aka_prime av u a res (some message) w =
      asks (confirms_eap u message) w (answer_eap u a)
  respond_by auth_other av u a res eap w = succeed w

  unfoldable pub respond :
      Option AuthenticationCtx → ℕ → AccessType → Bytes → Option String → World → Proc Bool
  unfolding respond_by
  respond none u a res eap w = fail w
  respond (some ctx) u a res eap w = respond_by ctx.auth_type ctx.var_5g_auth_data u a res eap w

  -- HandleAuthenticationResponse, of a message with RES* and an EAP message or none
  unfoldable pub handle_authentication_response :
      ℕ → AccessType → Bytes → Option String → World → Proc Bool
  unfolding respond clear_t3560
  handle_authentication_response u a res eap w =
      clear_t3560 w u (λ w1. respond (w1.ues u).authentication_ctx u a res eap w1)
