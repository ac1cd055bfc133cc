-- ===== src/Gmm/Handlers/KeySet.antt =====
-- The range of the key set identifier (gmm/handler.go).
use amf_cdac.Base.{
  ℕ, ◌+◌, ◌<◌, ◌≤◌, inl, inr, String, Option, none, some, List, [], ◌∷◌, ◌==◌, string_eq, arith,
  ltb, leb, Bool-cases, Option-cases,
}
use amf_cdac.Types.{Bytes, AccessType}
use amf_cdac.Gmm.Handlers.Authentication.{identity_verification}
use amf_cdac.Ue.{AmfUe, AuthType, auth_5g_aka, eap_aka_prime, auth_other, AuthenticationCtx}
use amf_cdac.Ue.Algorithms.{security_context_is_valid}
use amf_cdac.Timer.{new_timer}
use amf_cdac.Context.State.{World}
use amf_cdac.Gmm.Transitions.{auth_fail}
use amf_cdac.Gmm.Questions.{Answer, granted, problem, failed, authentication_request}
use amf_cdac.Gmm.Callbacks.{put, of_ue}
use amf_cdac.Gmm.Senders.{
  Timers, send_identity_request, send_authentication_request, send_authentication_reject,
  start_t3560,
}
use amf_cdac.Gmm.Handlers.{Env, clear_t3560, stop_if_set, succeed, ran_ue_of}
use amf_cdac.Gmm.Handlers.Authentication.{
  authentication_procedure, with_ausf, challenged, next_native_ksi, select_ausf, pending, reject,
  ask_again, resynchronized, select_new_ksi, failed_5g_aka, failed_eap, failed_by, Cause,
  mac_failure, non_5g_unacceptable, ng_ksi_already_in_use, synch_failure, other_cause,
  handle_authentication_failure,
}
use amf_cdac.Gmm.Handlers.Keeping.{
  Keeps, Keeps-bind, EveryUe, put-EveryUe, build_and_send-Keeps, checked_amf_ue-Keeps,
  send_plainly-Keeps, after-Keeps, when_stopped-Keeps, finish-Keeps,
}

-- The key set identifier names a key: it is one of 0 to 6, and not 7, which stands for no key.
abbrev pub IsKeySet : AmfUe → Type 0
IsKeySet ue = ue.ng_ksi ≤ 6

abbrev pub KeySets : World → Type 0
KeySets = EveryUe IsKeySet

start_t3560-Keeps :
    (cfg : Timers) (u : ℕ) (w : World) → KeySets w → Keeps KeySets (start_t3560 cfg u w)
unfolding Keeps
start_t3560-Keeps cfg u w h = elim (Option-cases cfg.t3560_cfg) [
  | inl e ↦ rw (Keeps, e) h
  | inr (n, e) ↦
      rw (Keeps, e)
        (put-EveryUe IsKeySet w u (record (w.ues u) { t3560 = some (new_timer n) }) h (h u))
]

request-Keeps :
    (cfg : Timers) (r : Option ℕ) (w : World)
    → KeySets w
    → Keeps KeySets (send_authentication_request cfg r w)
unfolding send_authentication_request Keeps
request-Keeps cfg r w h = checked_amf_ue-Keeps KeySets w r _ h (λ p u.
    elim (Option-cases (w.ues u).authentication_ctx) [
      | inl e ↦ rw (Keeps, e) h
      | inr (ctx, e) ↦
          rw (Keeps, e)
            (build_and_send-Keeps KeySets authentication_request p u w (start_t3560 cfg u) h
              (start_t3560-Keeps cfg u))
    ])

next_native-IsKeySet : (ue : AmfUe) → IsKeySet ue → IsKeySet (next_native_ksi ue)
unfolding next_native_ksi
next_native-IsKeySet ue h = elim (Bool-cases ue.ng_ksi_native) [
  | inl e ↦ rw (next_native_ksi, e) (omega arith)
  | inr e ↦ rw (next_native_ksi, e) h
]

select_new-bound : (ue : AmfUe) → (select_new_ksi ue).ng_ksi < 7
unfolding select_new_ksi
select_new-bound ue = elim (Bool-cases (ltb ue.ng_ksi 6)) [
  | inl e ↦ rw (select_new_ksi, e) (ground arith)
  | inr e ↦ rw (select_new_ksi, e) (ground arith)
]

module _ (env : Env) (u : ℕ) (a : AccessType) where
  challenged-Keeps :
      (answer : Answer AuthenticationCtx) (w : World)
      → KeySets w
      → Keeps KeySets (challenged env u a answer w)
  unfolding challenged Keeps
  challenged-Keeps (granted ctx) w h =
      let ue = record (w.ues u) { authentication_ctx = some ctx; abba = 0 ∷ 0 ∷ [] } in
      Keeps-bind KeySets _ (λ sent w2. pending w2)
        (request-Keeps env.timers _ _
          (put-EveryUe IsKeySet w u (next_native_ksi ue) h (next_native-IsKeySet ue (h u))))
        (λ sent w2 h2. h2)
  challenged-Keeps problem w h = h
  challenged-Keeps failed w h = h

  with_ausf-Keeps :
      (profiles : Option (List (String × String))) (w : World)
      → KeySets w
      → Keeps KeySets (with_ausf env u a profiles w)
  unfolding with_ausf Keeps
  with_ausf-Keeps none w h = h
  with_ausf-Keeps (some profiles) w h =
      let (id, uri) = select_ausf profiles (w.ues u).ausf_id in
      let ue = record (w.ues u) { ausf_id = id } in
      let h1 = put-EveryUe IsKeySet w u ue h (h u) in
      let w1 = put w u ue in
      elim (Bool-cases (uri == "")) [
        | inl e ↦ rw (Keeps, e) h1
        | inr e ↦
            rw (Keeps, e)
              (
                put-EveryUe IsKeySet w1 u (record (w1.ues u) { ausf_uri = uri }) h1 (h1 u),
                challenged-Keeps,
              )
      ]

  procedure-Keeps : (w : World) → KeySets w → Keeps KeySets (authentication_procedure env u a w)
  unfolding authentication_procedure Keeps send_identity_request
  procedure-Keeps w h = elim (Bool-cases (identity_verification (w.ues u))) [
    | inl e ↦ elim (Bool-cases (security_context_is_valid env.no_key_is_available (w.ues u))) [
      | inl f ↦ rw (Keeps, e, f) h
      | inr f ↦ rw (Keeps, e, f) (h, with_ausf-Keeps)
    ]
    | inr e ↦
        rw (Keeps, e)
          (Keeps-bind KeySets _ (λ sent w2. pending w2)
            (send_plainly-Keeps KeySets _ (ran_ue_of w u a) w h) (λ sent w2 h2. h2))
  ]

  ask_again-Keeps : (w : World) → KeySets w → Keeps KeySets (ask_again env u a w)
  unfolding ask_again Keeps
  ask_again-Keeps w h = after-Keeps KeySets _ succeed (request-Keeps env.timers _ w h) (λ w2 h2. h2)

  reject-Keeps : (eap : String) (w : World) → KeySets w → Keeps KeySets (reject env u a eap w)
  unfolding reject send_authentication_reject
  reject-Keeps eap w h =
      after-Keeps KeySets _ _ (send_plainly-Keeps KeySets _ _ w h)
        (λ w2 h2. finish-Keeps KeySets auth_fail (of_ue u a) w2 h2)

  select_new-Keeps :
      (w : World) (ue : AmfUe)
      → KeySets w
      → Keeps KeySets (ask_again env u a (put w u (select_new_ksi ue)))
  select_new-Keeps w ue h = ask_again-Keeps (put w u (select_new_ksi ue)) (
      put-EveryUe IsKeySet w u (select_new_ksi ue) h
        (let b = select_new-bound ue in omega (arith, b)))

  resynchronized-Keeps :
      (answer : Answer AuthenticationCtx) (w : World)
      → KeySets w
      → Keeps KeySets (resynchronized env u a answer w)
  unfolding resynchronized Keeps
  resynchronized-Keeps (granted ctx) w h =
      let ue = record (w.ues u) { authentication_ctx = some ctx; abba = 0 ∷ 0 ∷ [] } in
      ask_again-Keeps (put w u ue) (put-EveryUe IsKeySet w u ue h (h u))
  resynchronized-Keeps problem w h = h
  resynchronized-Keeps failed w h = h

  failed_5g_aka-Keeps :
      (cause : Cause) (auts : Bytes) (w : World)
      → KeySets w
      → Keeps KeySets (failed_5g_aka env u a cause auts w)
  unfolding failed_5g_aka Keeps
  failed_5g_aka-Keeps mac_failure auts w h = reject-Keeps "" w h
  failed_5g_aka-Keeps non_5g_unacceptable auts w h = reject-Keeps "" w h
  failed_5g_aka-Keeps ng_ksi_already_in_use auts w h =
      select_new-Keeps w (record (w.ues u) { auth_failure_cause_synch_failure_times = 0 }) h
  failed_5g_aka-Keeps synch_failure auts w h =
      let n = (w.ues u).auth_failure_cause_synch_failure_times + 1 in
      let ue = record (w.ues u) { auth_failure_cause_synch_failure_times = n } in
      let h1 = put-EveryUe IsKeySet w u ue h (h u) in
      elim (Bool-cases (leb 2 n)) [
        | inl e ↦ rw (Keeps, e) (reject-Keeps "" (put w u ue) h1)
        | inr e ↦ rw (Keeps, e) (h1, resynchronized-Keeps)
      ]
  failed_5g_aka-Keeps (other_cause n) auts w h = h

  failed_by-Keeps :
      (t : AuthType) (cause : Cause) (auts : Bytes) (w : World)
      → KeySets w
      → Keeps KeySets (failed_by env t u a cause auts w)
  unfolding failed_by failed_eap Keeps
  failed_by-Keeps auth_5g_aka cause auts w h = failed_5g_aka-Keeps cause auts w h
  failed_by-Keeps eap_aka_prime ng_ksi_already_in_use auts w h = select_new-Keeps w (w.ues u) h
  failed_by-Keeps eap_aka_prime _ auts w h = h
  failed_by-Keeps auth_other cause auts w h = h

  failure-Keeps :
      (cause : Cause) (auts : Bytes) (w : World)
      → KeySets w
      → Keeps KeySets (handle_authentication_failure env u a cause auts w)
  unfolding handle_authentication_failure clear_t3560 Keeps
  failure-Keeps cause auts w h =
      let w1 = put w u (record (w.ues u) { t3560 = none }) in
      let h1 = put-EveryUe IsKeySet w u (record (w.ues u) { t3560 = none }) h (h u) in
      when_stopped-Keeps KeySets (stop_if_set (w.ues u).t3560) _
        (elim (Option-cases (w1.ues u).authentication_ctx) [
          | inl e ↦ rw (Keeps, e) h1
          | inr (ctx, e) ↦ rw (Keeps, e) (failed_by-Keeps ctx.auth_type cause auts w1 h1)
        ])

  -- If the key set identifier of every UE names a key, that is, if it is at most 6, it is so whenever
  -- AuthenticationProcedure and HandleAuthenticationFailure send something, ask another part or
  -- return, provided that the other parts keep it so: the identifier 7, which means no key, is
  -- never counted up to.
  pub authentication-KeySets :
      (w : World) (cause : Cause) (auts : Bytes)
      → KeySets w
      → Keeps KeySets (authentication_procedure env u a w)
        × Keeps KeySets (handle_authentication_failure env u a cause auts w)
  authentication-KeySets w cause auts h = (procedure-Keeps w h, failure-Keeps cause auts w h)
