-- ===== src/Context.antt =====
-- Package context: the RAN contexts, the UE contexts of the two sides and the AMF context that holds
-- them (context/context.go, amf_ran.go, ran_ue.go, amf_ue.go). Pointers are addresses of a heap, so
-- the aliasing of the Go objects is that of the model. Locks, logs and metrics are left out.
mod Examples
pub mod Samples
pub mod State
pub mod Ids
pub mod Ran
pub mod Guti
pub mod Handover
pub mod Registration
pub mod Stations
pub mod Ues
