-- ===== src/Gmm/Callbacks/Listed/Every.antt =====
-- The events sent in every state (gmm/init.go, gmm/sm.go).
use amf_cdac.Types.{
  access_type_eq, GmmState, deregistered, deregistration_initiated, authentication, security_mode,
  context_setup, registered,
}
use amf_cdac.Gmm.Proc.{Sends}
use amf_cdac.Gmm.Transitions.{Event}
use amf_cdac.Gmm.Proc.{Args, Services}
use amf_cdac.Gmm.Callbacks.Listed.{callback, Listed, Quiet}
use amf_cdac.Gmm.Callbacks.Listed.Early.{
  deregistered-Listed, authentication-Listed, security_mode-Listed,
}
use amf_cdac.Gmm.Callbacks.Listed.Late.{
  context_setup-Listed, registered-Listed, deregistration-Listed,
}
use amf_cdac.Context.State.{World}

-- In every state a callback of the state machine keeps to the table: with functions that send none
-- but some given events in this state, each event that the callback sends, whatever the answers to
-- the earlier ones, either has a transition from the state of the callback or is one of those
-- given; so the callback also calls only the functions that may run in the state.
pub callback-Listed :
    (sv : Services) (Others : Event → Type 0) (s : GmmState) (w : World) (args : Args) (e : Event)
    → Quiet sv Others s
    → Sends (Listed s Others) (callback sv s w args e)
unfolding callback
callback-Listed sv Others deregistered w args e q = deregistered-Listed sv Others w args e q
callback-Listed sv Others authentication w args e q = authentication-Listed sv Others w args e q
callback-Listed sv Others security_mode w args e q = security_mode-Listed sv Others w args e q
callback-Listed sv Others context_setup w args e q = context_setup-Listed sv Others w args e q
callback-Listed sv Others registered w args e q = registered-Listed sv Others w args e q
callback-Listed sv Others deregistration_initiated w args e q =
    deregistration-Listed sv Others w args e q
