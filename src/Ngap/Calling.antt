-- ===== src/Ngap/Calling.antt =====
-- The call of HandleNAS in the handlers of NGAP (ngap/handler.go, nas/handler.go).
use amf_cdac.Base.{ℕ, ℤ, Option, none, some}
use amf_cdac.Types.{Bytes}
use amf_cdac.Nas.Handler.{
  Handled, dropped, redirected, queued, refused, sends_event, panics, handle_nas,
}
use amf_cdac.Ngap.{queues_nas, redirects, Peers, Turn, emit, in_world, ◌>>=◌}

-- What HandleNAS leaves: the message is in the UE's event channel, or the state machine has taken the
-- event that Dispatch sends, or nothing more is done in this instance.
unfoldable pub after_nas : Peers → ℕ → Turn → Handled → Option Turn
after_nas peers r t (dropped w) = some (in_world t w)
after_nas peers r t (redirected w) = some (emit (in_world t w) (redirects r))
after_nas peers r t (queued w u an_type pdu code) =
    some (emit (in_world t w) (queues_nas u an_type pdu code))
after_nas peers r t (refused w) = some (in_world t w)
after_nas peers r t (sends_event w u an_type gmm code) =
    peers.machine w u an_type gmm code >>= λ w'. some (in_world t w')
after_nas peers r t panics = none

-- nas.HandleNAS(ranUe, procedureCode, pdu) for a RanUe of the station
unfoldable pub call_nas : Peers → ℕ → ℕ → ℤ → Bytes → Turn → Option Turn
unfolding after_nas
call_nas peers r p code pdu t = after_nas peers r t (
    handle_nas peers.nas peers.identities peers.database peers.generators peers.elsewhere t.world
      (some p) code (some pdu))
