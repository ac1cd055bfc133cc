-- ===== src/Gmm/Handlers/Requested/Examples.antt =====
-- Two slices are requested of which one is subscribed (gmm/handler.go).
use amf_cdac.Base.{◌≡◌, refl, Bool, true, false, some, List, [], ◌∷◌, load, store, delete}
use amf_cdac.Types.{access_3gpp, Snssai}
use amf_cdac.Ue.{zero_ue}
use amf_cdac.Ue.Slices.{in_subscribed_nssai}
use amf_cdac.Context.State.{World}
use amf_cdac.Gmm.Proc.{Proc, returns}
use amf_cdac.Gmm.Handlers.Slices.{allowed}
use amf_cdac.Gmm.Handlers.Requesting.{
  requested, sort_one, sort_requested, rejected, take_defaults, take_requested, take_request,
  handle_requested_nssai,
}
use amf_cdac.Gmm.Handlers.Requested.{HasSorted, requested_nssai-HasSorted}
use amf_cdac.Gmm.Handlers.Ensuring.{Ensures}
use amf_cdac.Gmm.Handlers.Examples.{env, with_ue, slice_1, slice_2}

abbrev registering : World
registering = with_ue (record zero_ue {
  registration_request = some 0;
  subscribed_nssai = record { subscribed_snssai = slice_1; default_indication = true } ∷ [];
})

abbrev pair : List Snssai
pair = slice_1 ∷ slice_2 ∷ []

requested_nssai-HasSorted_example :
    Ensures
      (HasSorted env 0 access_3gpp
        (allowed registering 0 access_3gpp)
        (registering.ues 0).subscribed_nssai
        pair)
      (handle_requested_nssai env 0 access_3gpp (requested pair) registering)
requested_nssai-HasSorted_example =
    requested_nssai-HasSorted env 0 access_3gpp (requested pair) registering

-- The lists of the UE after the handler has accepted.
abbrev lists_after : Proc Bool → List Snssai × List Snssai
lists_after (returns false w) = (allowed w 0 access_3gpp, rejected w 0 access_3gpp)
lists_after _ = ([], [])

pair-lists :
    lists_after (handle_requested_nssai env 0 access_3gpp (requested pair) registering)
    ≡ (slice_1 ∷ [], slice_2 ∷ [])
unfolding handle_requested_nssai take_request take_requested take_defaults sort_requested sort_one
    in_subscribed_nssai load store delete
pair-lists = refl
