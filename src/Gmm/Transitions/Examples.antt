-- ===== src/Gmm/Transitions/Examples.antt =====
-- The theorems on the table of transitions at the registration of a UE.
use amf_cdac.Base.{refl, ◌⊎◌, [], ◌∷◌}
use amf_cdac.Types.{authentication, security_mode, registered}
use amf_cdac.Gmm.Transitions.{
  start_auth, auth_success, security_mode_success, context_setup_success, target,
}
use amf_cdac.Gmm.Transitions.Paths.{by, is_promoted, Sub, Trail, begin, next, Passed, Trail-Passed}

registration :
    Trail
      (by context_setup_success ∷ by security_mode_success ∷ by auth_success ∷ by start_auth ∷ [])
      registered
unfolding target
registration =
    next context_setup_success
      (next security_mode_success
        (next {t = security_mode} auth_success (next {t = authentication} start_auth begin refl)
          refl)
        refl)
      refl

Trail-Passed_example :
    Passed registered
      (by context_setup_success ∷ by security_mode_success ∷ by auth_success ∷ by start_auth ∷ [])
    ⊎ Sub
        (is_promoted ∷ [])
        (by context_setup_success ∷ by security_mode_success ∷ by auth_success ∷ by start_auth ∷ [])
Trail-Passed_example = Trail-Passed _ registered registration
