-- ===== src/Gmm/Callbacks.antt =====
-- What the callbacks of the six states share (gmm/sm.go). Logs and published metrics are left out.
pub mod Early
pub mod Late
pub mod Sending
pub mod Listed
mod Examples
use amf_cdac.Base.{ℕ, ℤ, Bool, true, false, Option, none, some, nat_eq, load, store}
use amf_cdac.Types.{
  AccessType, access_3gpp, access_non_3gpp, access_empty, access_type_eq, GmmState, deregistered,
  IntegrityAlg, nia0, CipheringAlg, nea0,
}
use amf_cdac.Timer.{Timer, stop, stopped, hangs as stop_hangs, panics as stop_panics}
use amf_cdac.Ue.{AmfUe}
use amf_cdac.Nas.Message.{GmmMessage}
use amf_cdac.Context.State.{World, update}
use amf_cdac.Context.Registration.{clear_registration_request_data}
use amf_cdac.Gmm.Transitions.{Event}
use amf_cdac.Gmm.Proc.{NasArg, gmm_pointer, Args, Proc, returns, panics, hangs, sends}

-- The arguments with which the callbacks send events.
abbrev pub of_ue : ℕ → AccessType → Args
of_ue u a = record {
  amf_ue = some u;
  access_type = some a;
  procedure_code = none;
  nas_message = none;
  eap_success = none;
  eap_message = none;
}

abbrev pub done : World → Proc Unit
done w = returns tt w

-- SendEvent as the last step; its error is logged only.
abbrev pub tell : Event → Args → World → Proc Unit
tell e args w = sends e args w (λ failed w'. returns tt w')

-- The type assertions on the arguments: of the UE and the access type, of the message, which a nil
-- pointer fails when its type is read, and of the procedure code.
abbrev pub with_ue : Args → (ℕ → Proc Unit) → Proc Unit
with_ue args k = elim args.amf_ue [ none ↦ panics | some u ↦ k u ]

abbrev pub with_access : Args → (ℕ → AccessType → Proc Unit) → Proc Unit
with_access args k = with_ue args (λ u. elim args.access_type [ none ↦ panics | some a ↦ k u a ])

abbrev pub message_of : Option NasArg → (GmmMessage → Proc Unit) → Proc Unit
message_of (some (gmm_pointer (some g))) k = k g
message_of _ k = panics

abbrev pub with_message : Args → (ℕ → AccessType → GmmMessage → Proc Unit) → Proc Unit
with_message args k = with_access args (λ u a. message_of args.nas_message (k u a))

abbrev pub with_code : Args → (ℕ → AccessType → ℤ → GmmMessage → Proc Unit) → Proc Unit
with_code args k =
    with_message args (λ u a g. elim args.procedure_code [ none ↦ panics | some c ↦ k u a c g ])

-- Entry: the data of the registration request is cleared.
unfoldable pub clearing : World → ℕ → AccessType → (World → Proc Unit) → Proc Unit
clearing w u a k = elim (clear_registration_request_data w u a) [ none ↦ panics | some w' ↦ k w' ]

abbrev pub put : World → ℕ → AmfUe → World
put w u ue = record w { ues = update w.ues u ue }

-- ue.T3560.Stop(); ue.T3560 = nil, and the same of T3550.
unfoldable pub stop_t3560 : World → ℕ → (World → Proc Unit) → Proc Unit
stop_t3560 w u k = elim (stop (w.ues u).t3560) [
  | stopped t ↦ k (put w u (record (w.ues u) { t3560 = none }))
  | stop_hangs ↦ hangs
  | stop_panics ↦ panics
]

unfoldable pub stop_t3550 : World → ℕ → (World → Proc Unit) → Proc Unit
stop_t3550 w u k = elim (stop (w.ues u).t3550) [
  | stopped t ↦ k (put w u (record (w.ues u) { t3550 = none }))
  | stop_hangs ↦ hangs
  | stop_panics ↦ panics
]

-- ue.State[accessType].Set(state); a nil entry is dereferenced.
unfoldable pub set_state : World → ℕ → AccessType → GmmState → (World → Proc Unit) → Proc Unit
set_state w u a s k = elim (load (w.ues u).state a) [
  | none ↦ panics
  | some old ↦ k (put w u (record (w.ues u) { state = store (w.ues u).state a s }))
]

-- SetDeregisteredState(amfUe, util.AnTypeToNas(accessType)), whose default sets both.
unfoldable pub set_deregistered_state : World → ℕ → AccessType → Proc Unit
unfolding set_state
set_deregistered_state w u a =
    let w' = put w u (record (w.ues u) { subscription_data_valid = false }) in
    elim a [
      | access_3gpp ↦ set_state w' u access_3gpp deregistered done
      | access_non_3gpp ↦ set_state w' u access_non_3gpp deregistered done
      | access_empty ↦
          set_state w' u access_3gpp deregistered
            (λ w2. set_state w2 u access_non_3gpp deregistered done)
    ]

abbrev pub is_nia0 : IntegrityAlg → Bool
is_nia0 nia0 = true
is_nia0 _ = false

abbrev pub is_nea0 : CipheringAlg → Bool
is_nea0 nea0 = true
is_nea0 _ = false
