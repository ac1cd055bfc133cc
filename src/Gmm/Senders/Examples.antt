-- ===== src/Gmm/Senders/Examples.antt =====
-- The senders for a UE with a RanUe (gmm/message/send.go).
use amf_cdac.Base.{ℕ, String, ◌≡◌, refl, Bool, true, false, Option, some, List, []}
use amf_cdac.Types.{Bytes, access_3gpp, access_type_eq}
use amf_cdac.Ue.{NasAccess}
use amf_cdac.Context.Samples.{world}
use amf_cdac.Gmm.Proc.{Proc, returns}
use amf_cdac.Gmm.Senders.{
  Timers, send_authentication_request, send_security_mode_command, send_deregistration_request,
}
use amf_cdac.Gmm.Senders.Accepting.{send_notification, send_registration_accept}
use amf_cdac.Gmm.Senders.Handing.{HandsFirst, senders-HandsFirst}

abbrev timers : Timers
timers = record { t3560_cfg = some 4; t3522_cfg = some 4; t3550_cfg = some 4; t3565_cfg = some 4 }

senders-HandsFirst_example :
    HandsFirst
      (λ ue. ue.t3560)
      0
      (world [])
      (send_authentication_request timers (some 0) (world []))
    × ((success : Bool) (eap : String)
        → HandsFirst
            (λ ue. ue.t3560)
            0
            (world [])
            (send_security_mode_command timers (some 0) success eap (world [])))
    × ((access : NasAccess) (again : Bool) (cause : ℕ)
        → HandsFirst
            (λ ue. ue.t3522)
            0
            (world [])
            (send_deregistration_request timers (some 0) access again cause (world [])))
    × ((u : ℕ) (status result : Option (List Bool)) (sessions causes : Bytes)
        → HandsFirst
            (λ ue. ue.t3550)
            0
            (world [])
            (send_registration_accept timers u access_3gpp status result sessions causes
              (world [])))
senders-HandsFirst_example = senders-HandsFirst timers 0 (world []) (some 0)

-- A notification is not sent here: the sender asks nothing, and only its timer is set.
abbrev is_silent : Proc Unit → Bool
is_silent (returns r w) = true
is_silent _ = false

notification-silent : is_silent (send_notification timers (some 0) (world [])) ≡ true
unfolding send_notification
notification-silent = refl
