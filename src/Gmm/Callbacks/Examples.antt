-- ===== src/Gmm/Callbacks/Examples.antt =====
-- The theorems on the callbacks at services that send nothing and a world without UEs.
use amf_cdac.Base.{◌≡◌, false, true, some, [], pos}
use amf_cdac.Types.{registered, access_3gpp}
use amf_cdac.Nas.Message.{GmmMessage, deregistration_request_ue_originating}
use amf_cdac.Context.Samples.{world}
use amf_cdac.Gmm.Transitions.{gmm_message}
use amf_cdac.Gmm.Proc.{Services, Args, gmm_pointer, returns, Sends}
use amf_cdac.Gmm.Callbacks.{of_ue}
use amf_cdac.Gmm.Callbacks.Listed.{Listed, callback}
use amf_cdac.Gmm.Callbacks.Listed.Every.{callback-Listed}

abbrev services : Services
services = record {
  call = λ c w. returns false w;
  authentication_procedure = λ u a w. returns (true, false) w;
  no_key_is_available = 7;
  initial_registration = 1;
  mobility_registration_updating = 2;
  periodic_registration_updating = 3;
  integrity_order = [];
  ciphering_order = [];
}

abbrev leaving : GmmMessage
leaving = record {
  message_type = deregistration_request_ue_originating;
  mobile_identity = [];
  body = [];
}

abbrev message_args : Args
message_args = record (of_ue 0 access_3gpp) {
  nas_message = some (gmm_pointer (some leaving));
  procedure_code = some (pos 0);
}

callback-Listed_example :
    Sends
      (Listed registered (λ e. e ≡ gmm_message))
      (callback services registered (world []) message_args gmm_message)
unfolding Sends
callback-Listed_example =
    callback-Listed services (λ e. e ≡ gmm_message) registered (world []) message_args gmm_message
      (λ c w ok. tt, λ u a w e. tt)
