-- ===== src/Gmm/Handlers/Confirming.antt =====
-- When a UE is authenticated (gmm/handler.go): what the response to an authentication request sends.
use amf_cdac.Base.{
  ℕ, ◌≡◌, refl, inl, inr, ◌||◌, String, Bool, true, false, Option, none, some, ◌==◌, list_eq,
  nat_eq, list_beq_iff, ==_refl, Bool-cases, Option-cases, nat_beq, arith,
}
use amf_cdac.Types.{Bytes, AccessType}
use amf_cdac.Ue.{
  AuthenticationCtx, AuthData, av_5g_aka, eap_payload, undecodable, AuthType, auth_5g_aka,
  eap_aka_prime, auth_other,
}
use amf_cdac.Context.State.{World}
use amf_cdac.Gmm.Transitions.{auth_fail, auth_success, security_mode_success}
use amf_cdac.Gmm.Questions.{
  Answer, granted, problem, failed, AuthResult, auth_success as result_success, auth_failure,
  auth_ongoing, auth_unknown, Confirmation,
}
use amf_cdac.Gmm.Proc.{Proc}
use amf_cdac.Gmm.Callbacks.{put, of_ue}
use amf_cdac.Nas.Identity.{encode_to_string}
use amf_cdac.Gmm.Senders.{send_identity_request, send_authentication_reject}
use amf_cdac.Gmm.Handlers.{Env, succeed, finish, after, clear_t3560, ran_ue_of, stop_if_set}
use amf_cdac.Gmm.Handlers.Authentication.{reject, ask_again}
use amf_cdac.Gmm.Handlers.Authenticating.{
  handle_authentication_response, respond_by, respond, answer_eap, confirmed_eap, continue_eap,
  refuse_eap, respond_5g_aka, compare_5g_aka, answer_5g_aka, confirmed_5g_aka, adopt, refuse,
  hres_star, decode_string,
}
use amf_cdac.Gmm.Handlers.Checking.{
  Checked, is_success, is_confirmed, after-Checked, plainly-Checked, result-Checked,
  request-Checked, finish-Checked, when_stopped-Checked,
}
use amf_cdac.Gmm.Handlers.Authenticating.{continued, success_args}

module _ (S : Bytes → Type 0) where
  module _ (env : Env) (u : ℕ) (a : AccessType) where
    reject-Checked :
        (seen : Bool) (eap : String) (w : World) → Checked S seen (reject env u a eap w)
    unfolding reject send_authentication_reject
    reject-Checked seen eap w =
        after-Checked S seen _ _ (plainly-Checked S seen _ _ w)
          (λ s w2. finish-Checked S s auth_fail (of_ue u a) w2 (λ pass. ground arith))

    identity-Checked :
        (seen : Bool) (w : World)
        → Checked S seen (after (send_identity_request (ran_ue_of w u a) env.type_suci w) succeed)
    unfolding send_identity_request Checked
    identity-Checked seen w =
        after-Checked S seen _ succeed (plainly-Checked S seen _ _ w) (λ s w2. tt)

    ask_again-Checked : (seen : Bool) (w : World) → Checked S seen (ask_again env u a w)
    unfolding ask_again Checked
    ask_again-Checked seen w =
        after-Checked S seen _ succeed (request-Checked S seen env.timers _ w) (λ s w2. tt)

    refuse-Checked : (seen : Bool) (w : World) → Checked S seen (refuse env u a w)
    unfolding refuse
    refuse-Checked seen w =
        let guti = nat_beq (w.ues u).identity_type_used_for_registration env.type_guti in
        elim (Bool-cases guti) [
          | inl e ↦ rw (refuse, e) (identity-Checked seen w)
          | inr e ↦ rw (refuse, e) (reject-Checked seen "" w)
        ]

    refuse_eap-Checked :
        (seen : Bool) (payload : String) (w : World) → Checked S seen (refuse_eap env u a payload w)
    unfolding refuse_eap
    refuse_eap-Checked seen payload w =
        let guti = nat_beq (w.ues u).identity_type_used_for_registration env.type_guti in
        elim (Bool-cases guti) [
          | inl e ↦
              rw (refuse_eap, e)
                (after-Checked S seen _ _ (result-Checked S seen _ false payload w)
                  identity-Checked)
          | inr e ↦ rw (refuse_eap, e) (reject-Checked seen payload w)
        ]

    adopt-Checked :
        (c : Confirmation) (w : World) (k : World → Proc Bool)
        → ((w' : World) → Checked S true (k w'))
        → Checked S true (adopt env u c w k)
    unfolding adopt Checked
    adopt-Checked c w k h = (refl, λ derived w'. h w')

    continue-Checked :
        (seen : Bool) (c : Confirmation) (w : World) → Checked S seen (continue_eap env u a c w)
    unfolding continue_eap Checked
    continue-Checked seen c w = elim (Option-cases (w.ues u).authentication_ctx) [
      | inl e ↦ rw (Checked, e) tt
      | inr (ctx, e) ↦
          rw (Checked, e)
            (ask_again-Checked seen
              (put w u (record (w.ues u) { authentication_ctx = some (continued ctx c) })))
    ]

    -- `seen` is what the answer of the AUSF tells.
    confirmed_5g_aka-Checked :
        (c : Confirmation) (r : AuthResult) (w : World)
        → Checked S (is_success r || false) (confirmed_5g_aka env u a c r w)
    unfolding confirmed_5g_aka Checked
    confirmed_5g_aka-Checked c result_success w =
        adopt-Checked c w (finish auth_success (success_args u a false ""))
          (λ w'. finish-Checked S true auth_success (success_args u a false "") w' (λ pass. refl))
    confirmed_5g_aka-Checked c auth_failure w = refuse-Checked false w
    confirmed_5g_aka-Checked c auth_ongoing w = tt
    confirmed_5g_aka-Checked c auth_unknown w = tt

    answer_5g_aka-Checked :
        (r : Answer Confirmation) (w : World)
        → Checked S (is_confirmed r || false) (answer_5g_aka env u a r w)
    unfolding answer_5g_aka Checked
    answer_5g_aka-Checked (granted c) w = confirmed_5g_aka-Checked c c.auth_result w
    answer_5g_aka-Checked problem w = tt
    answer_5g_aka-Checked failed w = tt

    confirmed_eap-Checked :
        (c : Confirmation) (r : AuthResult) (w : World)
        → Checked S (is_success r || false) (confirmed_eap env u a c r w)
    unfolding confirmed_eap Checked
    confirmed_eap-Checked c result_success w =
        let args = success_args u a true c.eap_payload in
        adopt-Checked c w (finish security_mode_success args)
          (λ w'. finish-Checked S true security_mode_success args w' (λ pass. refl))
    confirmed_eap-Checked c auth_failure w = refuse_eap-Checked false c.eap_payload w
    confirmed_eap-Checked c auth_ongoing w = continue-Checked false c w
    confirmed_eap-Checked c auth_unknown w = tt

    answer_eap-Checked :
        (r : Answer Confirmation) (w : World)
        → Checked S (is_confirmed r || false) (answer_eap env u a r w)
    unfolding answer_eap Checked
    answer_eap-Checked (granted c) w = confirmed_eap-Checked c c.auth_result w
    answer_eap-Checked problem w = tt
    answer_eap-Checked failed w = tt

-- The RES* that may go to the AUSF: the one received, when its HRES* is that of the vector.
abbrev pub Matching : Env → AuthData → Bytes → Bytes → Type 0
Matching env (av_5g_aka rand hxres_star) res text =
    (p0 : Bytes) × (decode_string rand ≡ some p0)
    × (hres_star env p0 res ≡ hxres_star)
    × (text ≡ encode_to_string res)
Matching env _ res text = false ≡ true

module _ (env : Env) (u : ℕ) (a : AccessType) (res : Bytes) where
  compare-Checked :
      (rand p0 hxres_star : Bytes) (w : World)
      → decode_string rand ≡ some p0
      → Checked
          (Matching env (av_5g_aka rand hxres_star) res)
          false
          (compare_5g_aka env u a p0 hxres_star res w)
  unfolding compare_5g_aka Checked
  compare-Checked rand p0 hxres_star w d =
      let S = Matching env (av_5g_aka rand hxres_star) res in
      elim (Bool-cases (hres_star env p0 res == hxres_star)) [
        | inl e ↦
            let same = (list_beq_iff (hres_star env p0 res) hxres_star).0 e in
            rw (Checked, e) ((p0, d, same, refl), λ r w'. answer_5g_aka-Checked S env u a r w')
        | inr e ↦ rw (Checked, e) (refuse-Checked S env u a false w)
      ]

  respond_5g_aka-Checked :
      (vector : AuthData) (w : World)
      → Checked (Matching env vector res) false (respond_5g_aka env vector u a res w)
  unfolding respond_5g_aka Checked
  respond_5g_aka-Checked (av_5g_aka rand hxres_star) w = elim (Option-cases (decode_string rand)) [
    | inl e ↦ rw (Checked, e) tt
    | inr (p0, e) ↦ rw (Checked, e) (compare-Checked rand p0 hxres_star w e)
  ]
  respond_5g_aka-Checked (eap_payload s) w = tt
  respond_5g_aka-Checked undecodable w = tt

  respond_by-Checked :
      (t : AuthType) (vector : AuthData) (eap : Option String) (w : World)
      → Checked (Matching env vector res) false (respond_by env t vector u a res eap w)
  unfolding respond_by Checked
  respond_by-Checked auth_5g_aka vector eap w = respond_5g_aka-Checked vector w
  respond_by-Checked eap_aka_prime vector none w = tt
  respond_by-Checked eap_aka_prime vector (some m) w =
      (tt, λ r w'. answer_eap-Checked (Matching env vector res) env u a r w')
  respond_by-Checked auth_other vector eap w = tt

  pub same_context :
      (w : World) (o : Option AuthenticationCtx)
      → (w.ues u).authentication_ctx ≡ o
      → ((put w u (record (w.ues u) { t3560 = none })).ues u).authentication_ctx ≡ o
  same_context w o e = rw (==_refl u) e

  -- A UE with an authentication context passes only if the AUSF has confirmed it: along every path
  -- of HandleAuthenticationResponse, AuthSuccessEvent or SecurityModeSuccessEvent is sent, and Kamf
  -- is derived, only after a confirmation whose result is success; and for 5G-AKA the AUSF is asked
  -- only about the RES* of the message, and only when its HRES* is the HXRES* of the vector.
  pub response-Checked :
      (ctx : AuthenticationCtx) (eap : Option String) (w : World)
      → (w.ues u).authentication_ctx ≡ some ctx
      → Checked
          (Matching env ctx.var_5g_auth_data res)
          false
          (handle_authentication_response env u a res eap w)
  unfolding handle_authentication_response clear_t3560 respond
  response-Checked ctx eap w e =
      let w1 = put w u (record (w.ues u) { t3560 = none }) in
      let S = Matching env ctx.var_5g_auth_data res in
      when_stopped-Checked S false (stop_if_set (w.ues u).t3560) _ (
        rw (same_context w (some ctx) e)
          (respond_by-Checked ctx.auth_type ctx.var_5g_auth_data eap w1))
