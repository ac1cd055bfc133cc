-- ===== src/Nas/Handler/Admission.antt =====
-- Which messages reach the state machine (nas/handler.go).
use amf_cdac.Base.{
  ℕ, ℤ, ◌≡◌, ◌≢◌, refl, sym, subst, ◌⊎◌, inl, inr, Bool, true, Option, none, some, arith,
  Option-cases, Bool-cases, ◌&&◌, nat_beq_iff, load,
}
use amf_cdac.Types.{Bytes, AccessType, access_type_eq}
use amf_cdac.Ue.{AmfUe}
use amf_cdac.Context.State.{World, Outcome, done, error, panics as attach_panics}
use amf_cdac.Nas.Message.{plain_nas, Message, Library}
use amf_cdac.Nas.Decode.{Decoded, ok, err, panics as decode_panics, mac_exempt, decode}
use amf_cdac.Nas.Decode.Integrity.{Carries, Authentic, decode-Authentic}
use amf_cdac.Nas.Handler.{
  Handled, queued, sends_event, panics, put_ue, dispatch, after_decode, dispatch_msg, set_an_type,
  enqueue, own_by, adopt, of_ran_ue, handle_nas,
}
use amf_cdac.Context.Ids.{Generators}
use amf_cdac.Context.Ran.{attach_ran_ue}
use amf_cdac.Context.Ues.{Database, new_amf_ue}
use amf_cdac.Nas.Identity.{
  Identities, Fetched, found, panics as fetch_panics, fetch_ue_context_with_mobile_identity,
}

-- The event is sent for a message that came with the right MAC, or for one of the exempt types.
abbrev pub Admitted : Library → Bytes → Handled → Type 0
Admitted lib pdu (sends_event w u access_type gmm code) =
    Authentic lib (w.ues u) pdu ⊎ (mac_exempt gmm.message_type ≡ true)
Admitted lib pdu _ = Unit

module _ (lib : Library) (pdu : Bytes) where
  dispatch-Admitted :
      (w : World) (u : ℕ) (a : AccessType) (code : ℤ) (msg : Message)
      → Authentic lib (w.ues u) pdu ⊎ Carries mac_exempt msg
      → Admitted lib pdu (dispatch lib w u a code msg)
  unfolding dispatch
  dispatch-Admitted w u a code msg h = elim (Option-cases msg.gmm_message) [
    | inl e ↦ rw (e, dispatch) tt
    | inr (gmm, e) ↦ elim (Option-cases msg.gsm_message) [
      | inr (gsm, f) ↦ rw (e, f, dispatch) tt
      | inl f ↦ elim (Option-cases (load (w.ues u).state a)) [
        | inl g ↦ rw (e, f, g, dispatch) tt
        | inr (s, g) ↦
            rw (e, f, g, dispatch)
              (elim h [
                | inl authentic ↦ inl authentic
                | inr (other, carried, exempt) ↦
                    let same : other ≡ gmm = cc in
                    inr (subst (λ x. mac_exempt x.message_type ≡ true) same exempt)
              ])
      ]
    ]
  ]

  after-Admitted :
      (w : World) (u : ℕ) (a : AccessType) (code : ℤ) (r : Decoded × Option AmfUe)
      → ((msg : Message) (ue : AmfUe)
          → r ≡ (ok msg, some ue)
          → Authentic lib ue pdu ⊎ Carries mac_exempt msg)
      → Admitted lib pdu (after_decode lib w u a code r)
  unfolding after_decode
  after-Admitted w u a code (ok msg, some ue) h =
      let w' = put_ue lib w u ue in
      let there : w'.ues u ≡ ue = ground (arith, nat_beq_iff u u) in
      dispatch-Admitted w' u a code msg
        (subst (λ x. Authentic lib x pdu ⊎ Carries mac_exempt msg) (sym there) (h msg ue refl))
  after-Admitted w u a code (ok msg, none) h = tt
  after-Admitted w u a code (err e, some ue) h = tt
  after-Admitted w u a code (err e, none) h = tt
  after-Admitted w u a code (decode_panics, o) h = tt

  msg-Admitted :
      (w : World) (u : ℕ) (a : AccessType) (code : ℤ)
      → lib.get_security_header_type pdu ≢ plain_nas
      → Admitted lib pdu (dispatch_msg lib w u a code pdu)
  unfolding dispatch_msg
  msg-Admitted w u a code n =
      let causes = λ (p : ℕ). (w.ran_ues p).rrc_establishment_cause in
      after-Admitted w u a code (decode lib causes (some (w.ues u)) a (some pdu))
        (λ msg ue e. decode-Authentic lib causes (w.ues u) a pdu msg ue n e)

  module _ (ids : Identities) (db : Database) (gen : Generators) where
    enqueue-Admitted :
        (w : World) (p u : ℕ) (code : ℤ) → Admitted lib pdu (enqueue lib ids db gen w p u pdu code)
    unfolding enqueue
    enqueue-Admitted w p u code = elim (Option-cases (w.ran_ues p).ran) [
      | inl e ↦ rw (e, enqueue) tt
      | inr (r, e) ↦ rw (e, enqueue) (attached r (attach_ran_ue _ u p))
    ]
      where
        attached :
            (r : ℕ) (o : Outcome)
            → Admitted lib pdu (elim o [
              | done w' ↦
                  queued
                    (put_ue lib w' u (record (w'.ues u) { event_channel = true }))
                    u
                    (w'.rans r).an_type
                    pdu
                    code
              | error ↦ panics
              | attach_panics ↦ panics
            ])
        attached r (done w') = tt
        attached r error = tt
        attached r attach_panics = tt

    adopt-Admitted :
        (elsewhere : AmfUe → Bool) (p : ℕ) (code : ℤ) (f : Fetched)
        → Admitted lib pdu (adopt lib ids db gen elsewhere p pdu code f)
    unfolding adopt
    adopt-Admitted elsewhere p code fetch_panics = tt
    adopt-Admitted elsewhere p code (found none w) = elim (Option-cases (new_amf_ue gen w "")) [
      | inl e ↦ rw (e, adopt) tt
      | inr (w', e) ↦
          rw (e, adopt) (enqueue-Admitted (own_by lib ids db gen w' p w.next_ue) p w.next_ue code)
    ]
    adopt-Admitted elsewhere p code (found (some u) w) =
        let w' = own_by lib ids db gen w p u in
        elim (Bool-cases (w.enable_sctp_lb && w.enable_db_store && elsewhere (w.ues u))) [
          | inr e ↦ rw e (enqueue-Admitted w' p u code)
          | inl e ↦ elim (Option-cases (w'.ran_ues p).ran) [
            | inl f ↦ rw (e, f) tt
            | inr (r, f) ↦ rw (e, f) tt
          ]
        ]

-- HandleNAS sends a GmmMessageEvent for a message that was not sent plain only if the message came
-- with the MAC that its UE's integrity key and uplink count give, or is of one of the eight types
-- that are processed whatever their MAC.
pub handle_nas-Admitted :
    (lib : Library) (ids : Identities) (db : Database) (gen : Generators) (elsewhere : AmfUe → Bool)
    (w : World) (p : ℕ) (code : ℤ) (pdu : Bytes)
    → lib.get_security_header_type pdu ≢ plain_nas
    → Admitted lib pdu (handle_nas lib ids db gen elsewhere w (some p) code (some pdu))
unfolding handle_nas of_ran_ue
handle_nas-Admitted lib ids db gen elsewhere w p code pdu n =
    elim (Option-cases (w.ran_ues p).amf_ue) [
      | inl e ↦
          rw (e, of_ran_ue)
            (adopt-Admitted lib pdu ids db gen elsewhere p code
              (fetch_ue_context_with_mobile_identity lib ids db w (some pdu)))
      | inr (u, e) ↦ elim (Option-cases (w.ran_ues p).ran) [
        | inl f ↦ rw (e, f, of_ran_ue) tt
        | inr (r, f) ↦
            let w' = set_an_type lib ids db gen w r in
            rw (e, f, of_ran_ue) (msg-Admitted lib pdu w' u (w'.rans r).an_type code n)
      ]
    ]
