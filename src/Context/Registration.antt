-- ===== src/Context/Registration.antt =====
-- The transient data of a registration (context/amf_ue.go, ClearRegistrationRequestData and
-- SetOnGoing).
use amf_cdac.Base.{ℕ, false, Option, none, some, load, store}
use amf_cdac.Types.{AccessType, access_type_eq}
use amf_cdac.Ue.{AmfUe, OnGoing, nothing}
use amf_cdac.Context.State.{World, update}

-- The UE without the data; its OnGoing entry of the access type is there.
pub clear_request : AmfUe → AccessType → OnGoing → AmfUe
clear_request ue access_type on_going = record ue {
  registration_request = none;
  registration_type_5gs = 0;
  identity_type_used_for_registration = 0;
  auth_failure_cause_synch_failure_times = 0;
  serving_amf_changed = false;
  registration_accept_for_non_3gpp_access = none;
  retransmission_of_initial_nas_msg = false;
  on_going = store ue.on_going access_type (record on_going { procedure = nothing });
}

-- The flags of the RanUe, if there is one.
pub clear_ran_ue : World → Option ℕ → World
clear_ran_ue w none = w
clear_ran_ue w (some p) = record w {
  ran_ues = update w.ran_ues p (record (w.ran_ues p) {
    ue_context_request = false;
    recvd_initial_context_setup_response = false;
  });
}

-- ue.ClearRegistrationRequestData(accessType); `none` is a nil entry of OnGoing dereferenced.
unfoldable pub clear_registration_request_data : World → ℕ → AccessType → Option World
unfolding clear_request clear_ran_ue
clear_registration_request_data w u access_type = elim (load (w.ues u).on_going access_type) [
  | none ↦ none
  | some on_going ↦
      let w' = clear_ran_ue w (load (w.ues u).ran_ue access_type) in
      some (record w' { ues = update w'.ues u (clear_request (w.ues u) access_type on_going) })
]
