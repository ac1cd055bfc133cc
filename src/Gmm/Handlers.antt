-- ===== src/Gmm/Handlers.antt =====
-- What the handlers of GMM messages share (gmm/handler.go). Each is a tree of the events it sends and
-- of what it asks of other parts; it returns whether there was an error. Messages come decoded: a
-- handler takes the values that it reads from them.
pub mod Authentication
pub mod Authenticating
pub mod Security
pub mod Leaving
pub mod NetworkLeaving
pub mod Slices
pub mod Keeping
pub mod KeySet
pub mod Checking
pub mod Confirming
pub mod Releasing
pub mod Registering
pub mod Ensuring
pub mod Registered
pub mod Requesting
pub mod Sorting
pub mod Requested
mod Examples
use amf_cdac.Base.{ℕ, Bool, true, false, Option, none, some, load}
use amf_cdac.Timer.{Timer, stop, stopped, hangs as stop_hangs, panics as stop_panics}
use amf_cdac.Types.{AccessType, access_type_eq, access_3gpp, access_non_3gpp, access_empty}
use amf_cdac.Ue.{AmfUe, NasAccess, nas_3gpp, nas_non_3gpp, nas_both}
use amf_cdac.Context.State.{World}
use amf_cdac.Gmm.Transitions.{Event}
use amf_cdac.Gmm.Proc.{Args, Proc, returns, panics, hangs, sends, bind}
use amf_cdac.Gmm.Callbacks.{put, of_ue}
use amf_cdac.Gmm.Senders.{Timers}
use amf_cdac.Types.{Bytes}

-- return nil, and return of an error
abbrev pub succeed : World → Proc Bool
succeed w = returns false w

abbrev pub fail : World → Proc Bool
fail w = returns true w

-- return GmmFSM.SendEvent(...)
abbrev pub finish : Event → Args → World → Proc Bool
finish e args w = sends e args w (λ failed w'. returns failed w')

-- A sender, and what follows it.
abbrev pub after : Proc Unit → (World → Proc Bool) → Proc Bool
after p k = bind p (λ sent w. k w)

-- What the handlers take from elsewhere: SHA-256, the numbers of nas-cdac for the two types of
-- identity and for causes, and the configured timers.
pub record Env : Type 0 where
  pub sha256 : Bytes → Bytes
  pub type_suci : ℕ
  pub type_guti : ℕ
  pub cause_identity_not_derived : ℕ
  pub cause_tracking_area_not_allowed : ℕ
  pub cause_protocol_error : ℕ
  pub cause_5gs_services_not_allowed : ℕ
  pub no_key_is_available : ℕ
  pub timers : Timers

-- A timer that may be nil is stopped: what it is then, or what the caller meets.
pub data Stopping : Type 0 where
  is_off : Stopping
  stopping_hangs stopping_panics : Stopping

abbrev pub stop_if_set : Option Timer → Stopping
stop_if_set none = is_off
stop_if_set (some t) = elim (stop (some t)) [
  | stopped t' ↦ is_off
  | stop_hangs ↦ stopping_hangs
  | stop_panics ↦ stopping_panics
]

abbrev pub when_stopped : Stopping → Proc Bool → Proc Bool
when_stopped is_off p = p
when_stopped stopping_hangs p = hangs
when_stopped stopping_panics p = panics

-- if ue.T3560 != nil { ue.T3560.Stop(); ue.T3560 = nil }, and the same of the other timers
unfoldable pub clear_t3560 : World → ℕ → (World → Proc Bool) → Proc Bool
clear_t3560 w u k =
    when_stopped (stop_if_set (w.ues u).t3560) (k (put w u (record (w.ues u) { t3560 = none })))

unfoldable pub clear_t3550 : World → ℕ → (World → Proc Bool) → Proc Bool
clear_t3550 w u k =
    when_stopped (stop_if_set (w.ues u).t3550) (k (put w u (record (w.ues u) { t3550 = none })))

unfoldable pub clear_t3522 : World → ℕ → (World → Proc Bool) → Proc Bool
clear_t3522 w u k =
    when_stopped (stop_if_set (w.ues u).t3522) (k (put w u (record (w.ues u) { t3522 = none })))

unfoldable pub clear_t3513 : World → ℕ → (World → Proc Bool) → Proc Bool
clear_t3513 w u k =
    when_stopped (stop_if_set (w.ues u).t3513) (k (put w u (record (w.ues u) { t3513 = none })))

unfoldable pub clear_t3565 : World → ℕ → (World → Proc Bool) → Proc Bool
clear_t3565 w u k =
    when_stopped (stop_if_set (w.ues u).t3565) (k (put w u (record (w.ues u) { t3565 = none })))

abbrev pub ran_ue_of : World → ℕ → AccessType → Option ℕ
ran_ue_of w u a = load (w.ues u).ran_ue a

-- util.AnTypeToNas
unfoldable pub an_type_to_nas : AccessType → NasAccess
an_type_to_nas access_3gpp = nas_3gpp
an_type_to_nas access_non_3gpp = nas_non_3gpp
an_type_to_nas access_empty = nas_both
