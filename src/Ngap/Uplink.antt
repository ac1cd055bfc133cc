-- ===== src/Ngap/Uplink.antt =====
-- The links between stations, RanUes and the pool under the uplink messages of NAS, with the call of
-- HandleNAS (ngap/handler.go, nas/handler.go).
mod Examples
use amf_cdac.Base.{Option-cases, inl, inr}
use amf_cdac.Nas.Handler.{handle_nas}
use amf_cdac.Ngap.{Initiating, uplink_nas_transport, nas_non_delivery_indication}
use amf_cdac.Ngap.Alike.{Alike}

-- The procedures whose handlers call HandleNAS for a RanUe of the station.
pub data CallsNas : Initiating → Type 0 where
  uplink : CallsNas uplink_nas_transport
  not_delivered : CallsNas nas_non_delivery_indication
