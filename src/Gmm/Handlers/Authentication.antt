-- ===== src/Gmm/Handlers/Authentication.antt =====
-- The authentication procedure, and the failures of authentication (gmm/handler.go).
use amf_cdac.Base.{
  ℕ, ◌+◌, ◌%◌, String, Bool, true, false, not, ◌||◌, Option, none, some, List, [], ◌∷◌, ◌==◌,
  string_eq, if◌then◌else◌, ltb, leb,
}
use amf_cdac.Types.{Bytes, AccessType}
use amf_cdac.Ue.{AmfUe, AuthenticationCtx, AuthType, auth_5g_aka, eap_aka_prime, auth_other}
use amf_cdac.Nas.Identity.{encode_to_string}
use amf_cdac.Ue.Algorithms.{security_context_is_valid}
use amf_cdac.Context.State.{World}
use amf_cdac.Gmm.Transitions.{auth_fail}
use amf_cdac.Gmm.Questions.{Answer, granted, problem, failed, searches_ausf, authenticates}
use amf_cdac.Gmm.Proc.{Proc, returns, asks, bind}
use amf_cdac.Gmm.Callbacks.{put, of_ue}
use amf_cdac.Gmm.Senders.{
  send_identity_request, send_authentication_request, send_authentication_reject,
  send_registration_reject,
}
use amf_cdac.Gmm.Handlers.{Env, succeed, fail, finish, after, clear_t3560, ran_ue_of}

-- IdentityVerification
unfoldable pub identity_verification : AmfUe → Bool
identity_verification ue = not (ue.supi == "") || not (ue.suci == "")

-- The loop over the AUSFs: the identifier of each is noted, up to the first with the service.
unfoldable pub select_ausf : List (String × String) → String → String × String
select_ausf [] id = (id, "")
select_ausf ((id, uri) ∷ rest) old =
    let later = select_ausf rest id in if uri == "" then later else (id, uri)

-- The update of a native ngKSI: the next of 0 to 6.
unfoldable pub next_native_ksi : AmfUe → AmfUe
next_native_ksi ue = if ue.ng_ksi_native then record ue { ng_ksi = (ue.ng_ksi + 1) % 7 } else ue

-- nasMessage.Cause5GMM, as far as the handler tells them apart.
pub data Cause : Type 0 where
  mac_failure non_5g_unacceptable ng_ksi_already_in_use synch_failure : Cause
  other_cause : ℕ → Cause

-- A new ngKSI, from 0 to 6.
unfoldable pub select_new_ksi : AmfUe → AmfUe
select_new_ksi ue =
    if ltb ue.ng_ksi 6 then record ue { ng_ksi = ue.ng_ksi + 1 } else record ue { ng_ksi = 0 }

abbrev pub pending : World → Proc (Bool × Bool)
pending w = returns (false, false) w

abbrev pub erring : World → Proc (Bool × Bool)
erring w = returns (false, true) w

module _ (env : Env) where
  -- The answer of the AUSF to the request for an authentication vector.
  unfoldable pub challenged : ℕ → AccessType → Answer AuthenticationCtx → World → Proc (Bool × Bool)
  unfolding next_native_ksi
  challenged u a (granted ctx) w =
      let ue =
        next_native_ksi (record (w.ues u) { authentication_ctx = some ctx; abba = 0 ∷ 0 ∷ [] }) in
      let w' = put w u ue in
      bind (send_authentication_request env.timers (ran_ue_of w' u a) w') (λ sent w2. pending w2)
  challenged u a problem w = erring w
  challenged u a failed w = erring w

  -- The AUSF is chosen and asked.
  unfoldable pub with_ausf :
      ℕ → AccessType → Option (List (String × String)) → World → Proc (Bool × Bool)
  unfolding select_ausf challenged
  with_ausf u a none w = erring w
  with_ausf u a (some profiles) w =
      let (id, uri) = select_ausf profiles (w.ues u).ausf_id in
      let w1 = put w u (record (w.ues u) { ausf_id = id }) in
      if uri == ""
      then erring w1
      else asks (authenticates u none) (put w1 u (record (w1.ues u) { ausf_uri = uri }))
          (challenged u a)

  -- AuthenticationProcedure: whether the UE passes without one, and the error.
  unfoldable pub authentication_procedure : ℕ → AccessType → World → Proc (Bool × Bool)
  unfolding identity_verification with_ausf
  authentication_procedure u a w =
      if identity_verification (w.ues u)
      then if security_context_is_valid env.no_key_is_available (w.ues u)
        then returns (true, false) w
        else asks searches_ausf w (with_ausf u a)
      else bind (send_identity_request (ran_ue_of w u a) env.type_suci w) (λ sent w1. pending w1)

  -- The end of a failed authentication: a reject, and the event.
  unfoldable pub reject : ℕ → AccessType → String → World → Proc Bool
  reject u a eap w =
      after (send_authentication_reject (ran_ue_of w u a) eap w) (finish auth_fail (of_ue u a))

  unfoldable pub ask_again : ℕ → AccessType → World → Proc Bool
  ask_again u a w = after (send_authentication_request env.timers (ran_ue_of w u a) w) succeed

  -- The answer of the AUSF to a resynchronisation.
  unfoldable pub resynchronized : ℕ → AccessType → Answer AuthenticationCtx → World → Proc Bool
  unfolding ask_again
  resynchronized u a (granted ctx) w =
      ask_again u a
        (put w u (record (w.ues u) { authentication_ctx = some ctx; abba = 0 ∷ 0 ∷ [] }))
  resynchronized u a problem w = succeed w
  resynchronized u a failed w = fail w

  unfoldable pub failed_5g_aka : ℕ → AccessType → Cause → Bytes → World → Proc Bool
  unfolding reject select_new_ksi ask_again resynchronized
  failed_5g_aka u a mac_failure auts w = reject u a "" w
  failed_5g_aka u a non_5g_unacceptable auts w = reject u a "" w
  failed_5g_aka u a ng_ksi_already_in_use auts w =
      let ue = record (w.ues u) { auth_failure_cause_synch_failure_times = 0 } in
      ask_again u a (put w u (select_new_ksi ue))
  failed_5g_aka u a synch_failure auts w =
      let n = (w.ues u).auth_failure_cause_synch_failure_times + 1 in
      let w' = put w u (record (w.ues u) { auth_failure_cause_synch_failure_times = n }) in
      if leb 2 n
      then reject u a "" w'
      else asks (authenticates u (some (encode_to_string auts))) w' (resynchronized u a)
  failed_5g_aka u a (other_cause n) auts w = succeed w

  unfoldable pub failed_eap : ℕ → AccessType → Cause → World → Proc Bool
  unfolding select_new_ksi ask_again
  failed_eap u a ng_ksi_already_in_use w = ask_again u a (put w u (select_new_ksi (w.ues u)))
  failed_eap u a _ w = succeed w

  unfoldable pub failed_by : AuthType → ℕ → AccessType → Cause → Bytes → World → Proc Bool
  unfolding failed_5g_aka failed_eap
  failed_by auth_5g_aka u a cause auts w = failed_5g_aka u a cause auts w
  failed_by eap_aka_prime u a cause auts w = failed_eap u a cause w
  failed_by auth_other u a cause auts w = succeed w

  -- HandleAuthenticationFailure, of a message with this cause and failure parameter
  unfoldable pub handle_authentication_failure : ℕ → AccessType → Cause → Bytes → World → Proc Bool
  unfolding failed_by clear_t3560
  handle_authentication_failure u a cause auts w = clear_t3560 w u (λ w1.
      elim (w1.ues u).authentication_ctx [
        | none ↦ fail w1
        | some ctx ↦ failed_by ctx.auth_type u a cause auts w1
      ])

  -- HandleAuthenticationError
  unfoldable pub handle_authentication_error : ℕ → AccessType → World → Proc Bool
  handle_authentication_error u a w = elim (w.ues u).registration_request [
    | none ↦ succeed w
    | some request ↦
        after (send_registration_reject (ran_ue_of w u a) env.cause_identity_not_derived "" w)
          succeed
  ]
