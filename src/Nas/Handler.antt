-- ===== src/Nas/Handler.antt =====
-- The way of a NAS message from a RanUe to the state machine (nas/handler.go, nas/dispatch.go).
pub mod Admission
mod Examples
use amf_cdac.Base.{ℕ, ℤ, String, Bool, true, false, ◌&&◌, Option, none, some, load, if◌then◌else◌}
use amf_cdac.Types.{Bytes, AccessType, access_3gpp, access_type_eq}
use amf_cdac.Ue.{AmfUe}
use amf_cdac.Context.State.{World, update, Outcome, done, error, panics as attach_panics}
use amf_cdac.Context.Ids.{Generators}
use amf_cdac.Context.Ran.{attach_ran_ue}
use amf_cdac.Context.Ues.{Database, new_amf_ue, remove_amf_ue}
use amf_cdac.Nas.Message.{GmmMessage, Message, Library}
use amf_cdac.Nas.Decode.{Decoded, ok, err, panics as decode_panics, decode}
use amf_cdac.Nas.Identity.{
  Identities, Fetched, found, panics as fetch_panics, fetch_ue_context_with_mobile_identity,
}

-- What becomes of a message: it is dropped, or its sender is redirected to another AMF, or it is put
-- in the UE's event channel, or it is an error that is logged, or a GmmMessageEvent is sent for it.
pub data Handled : Type 0 where
  dropped redirected : World → Handled
  queued : World → ℕ → AccessType → Bytes → ℤ → Handled
  refused : World → Handled
  sends_event : World → ℕ → AccessType → GmmMessage → ℤ → Handled
  panics : Handled

module _ (lib : Library) where
  abbrev pub put_ue : World → ℕ → AmfUe → World
  put_ue w u ue = record w { ues = update w.ues u ue }

  -- Dispatch(ue, accessType, procedureCode, msg)
  unfoldable pub dispatch : World → ℕ → AccessType → ℤ → Message → Handled
  dispatch w u access_type code msg = elim msg.gmm_message [
    | none ↦ refused w
    | some gmm ↦ elim msg.gsm_message [
      | some gsm ↦ refused w
      | none ↦ elim (load (w.ues u).state access_type) [
        | none ↦ refused w
        | some s ↦ sends_event w u access_type gmm code
      ]
    ]
  ]

  -- What is done with the result of Decode.
  unfoldable pub after_decode : World → ℕ → AccessType → ℤ → Decoded × Option AmfUe → Handled
  unfolding dispatch
  after_decode w u access_type code (ok msg, some ue) =
      dispatch (put_ue w u ue) u access_type code msg
  after_decode w u access_type code (err e, some ue) = refused (put_ue w u ue)
  after_decode w u access_type code _ = panics

  -- DispatchMsg(amfUe, transInfo), which is also the end of HandleNAS.
  unfoldable pub dispatch_msg : World → ℕ → AccessType → ℤ → Bytes → Handled
  unfolding after_decode
  dispatch_msg w u access_type code pdu = after_decode w u access_type code (
      decode lib (λ p. (w.ran_ues p).rrc_establishment_cause) (some (w.ues u)) access_type
        (some pdu))

module _ (lib : Library) (ids : Identities) (db : Database) (gen : Generators) where
  -- The station of the RanUe, whose access type is set behind an SCTP load balancer.
  abbrev pub set_an_type : World → ℕ → World
  set_an_type w r =
      if w.enable_sctp_lb
      then record w { rans = update w.rans r (record (w.rans r) { an_type = access_3gpp }) }
      else w

  -- The RanUe is attached to the UE, which gets an event channel if it has none.
  unfoldable pub enqueue : World → ℕ → ℕ → Bytes → ℤ → Handled
  enqueue w p u pdu code = elim (w.ran_ues p).ran [
    | none ↦ panics
    | some r ↦ elim (attach_ran_ue (set_an_type w r) u p) [
      | done w' ↦
          queued (put_ue lib w' u (record (w'.ues u) { event_channel = true })) u
            (w'.rans r).an_type pdu code
      | error ↦ panics
      | attach_panics ↦ panics
    ]
  ]

  abbrev pub own_by : World → ℕ → ℕ → World
  own_by w p u = record w {
    ran_ues = update w.ran_ues p (record (w.ran_ues p) { amf_ue = some u });
  }

  -- The UE context that was found, or a new one; `elsewhere` tells of a UE that drsm gives it to
  -- another instance.
  unfoldable pub adopt : (AmfUe → Bool) → ℕ → Bytes → ℤ → Fetched → Handled
  unfolding enqueue
  adopt elsewhere p pdu code fetch_panics = panics
  adopt elsewhere p pdu code (found none w) = elim (new_amf_ue gen w "") [
    | none ↦ panics
    | some w' ↦ enqueue (own_by w' p w.next_ue) p w.next_ue pdu code
  ]
  adopt elsewhere p pdu code (found (some u) w) =
      let w' = own_by w p u in
      if w.enable_sctp_lb && w.enable_db_store && elsewhere (w.ues u)
      then elim (w'.ran_ues p).ran [ none ↦ panics | some r ↦ redirected (remove_amf_ue w' u) ]
      else enqueue w' p u pdu code

  unfoldable pub of_ran_ue : (AmfUe → Bool) → World → ℕ → Bytes → ℤ → Handled
  unfolding adopt
  of_ran_ue elsewhere w p pdu code = elim (w.ran_ues p).amf_ue [
    | none ↦
        adopt elsewhere p pdu code (fetch_ue_context_with_mobile_identity lib ids db w (some pdu))
    | some u ↦ elim (w.ran_ues p).ran [
      | none ↦ panics
      | some r ↦ let w' = set_an_type w r in dispatch_msg lib w' u (w'.rans r).an_type code pdu
    ]
  ]

  -- HandleNAS(ue, procedureCode, nasPdu)
  unfoldable pub handle_nas : (AmfUe → Bool) → World → Option ℕ → ℤ → Option Bytes → Handled
  unfolding of_ran_ue
  handle_nas elsewhere w none code pdu = dropped w
  handle_nas elsewhere w (some p) code none = dropped w
  handle_nas elsewhere w (some p) code (some pdu) = of_ran_ue elsewhere w p pdu code
