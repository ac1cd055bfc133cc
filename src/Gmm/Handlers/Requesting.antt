-- ===== src/Gmm/Handlers/Requesting.antt =====
-- The slices of a registration request (gmm/handler.go, handleRequestedNssai). The loop that looks
-- for an NSSF, and what follows it, are never reached: needSliceSelection stays false.
use amf_cdac.Base.{
  ℕ, Bool, true, false, not, ◌&&◌, none, some, List, [], ◌∷◌, ◌++◌, map, if◌then◌else◌, load, store,
}
use amf_cdac.Types.{AccessType, access_type_eq, Snssai, SubscribedSnssai}
use amf_cdac.Ue.Slices.{in_subscribed_nssai, in_plmn_support_list}
use amf_cdac.Context.State.{World}
use amf_cdac.Gmm.Proc.{Proc, panics}
use amf_cdac.Gmm.Callbacks.{put}
use amf_cdac.Gmm.Senders.{send_registration_reject}
use amf_cdac.Gmm.Handlers.{Env, succeed, fail, after, ran_ue_of}
use amf_cdac.Gmm.Handlers.Slices.{allowed, set_allowed}

-- RequestedNSSAI of the request: nil, undecodable, or the slices to serve.
pub data RequestedNssai : Type 0 where
  not_requested undecodable : RequestedNssai
  requested : List Snssai → RequestedNssai

-- ue.AllowedNssai[anType], ue.RejectedNssai[anType] and disableSliceSelection in the loop; an
-- allowed slice without the home slice that goes with it, which is only handed on.
pub record Sorting : Type 0 where
  pub allowed : List Snssai
  pub rejected : List Snssai
  pub disabled : Bool

abbrev pub slices_of : List SubscribedSnssai → List Snssai
slices_of = map (λ (s : SubscribedSnssai). s.subscribed_snssai)

-- One turn of the loop, with the outcome of InSubscribedNssai and the slice that it leaves.
unfoldable pub sort_one : Bool → Snssai → Sorting → Sorting
sort_one true s st = record st { allowed = st.allowed ++ s ∷ []; disabled = true }
sort_one false s st = record st { rejected = st.rejected ++ s ∷ [] }

unfoldable pub sort_requested : List Snssai → List Snssai → Sorting → Sorting
unfolding sort_one
sort_requested subscribed [] st = st
sort_requested subscribed (t ∷ ts) st =
    let found = in_subscribed_nssai subscribed t in
    sort_requested subscribed ts (sort_one found.0 found.1 st)

-- The default slices of the subscription that a PLMN of the AMF supports are appended.
unfoldable pub add_defaults : List (List Snssai) → List SubscribedSnssai → List Snssai → List Snssai
add_defaults support [] ss = ss
add_defaults support (s ∷ subscribed) ss = add_defaults support subscribed (
    if s.default_indication && in_plmn_support_list support s.subscribed_snssai
    then ss ++ s.subscribed_snssai ∷ []
    else ss)

-- ue.RejectedNssai[anType], and the assignment to it
abbrev pub rejected : World → ℕ → AccessType → List Snssai
rejected w u a = elim (load (w.ues u).rejected_nssai a) [ none ↦ [] | some ss ↦ ss ]

abbrev pub set_rejected : World → ℕ → AccessType → List Snssai → World
set_rejected w u a ss =
    put w u (record (w.ues u) { rejected_nssai = store (w.ues u).rejected_nssai a ss })

module _ (env : Env) (u : ℕ) (a : AccessType) where
  -- len(ue.AllowedNssai[anType]) == 0: the defaults are taken.
  unfoldable pub take_defaults : World → Proc Bool
  unfolding add_defaults
  take_defaults w = elim (allowed w u a) [
    | [] ↦
        succeed (set_allowed w u a (add_defaults w.plmn_support_list (w.ues u).subscribed_nssai []))
    | s ∷ ss ↦ succeed w
  ]

  -- The loop over the requested slices, and the rejection when no slice is subscribed.
  unfoldable pub take_requested : List Snssai → World → Proc Bool
  unfolding sort_requested take_defaults
  take_requested ts w =
      let subscribed = slices_of (w.ues u).subscribed_nssai in
      let start : Sorting = record {
        allowed = allowed w u a;
        rejected = rejected w u a;
        disabled = false;
      } in
      let st = sort_requested subscribed ts start in
      let w' = set_rejected (set_allowed w u a st.allowed) u a st.rejected in
      if not st.disabled
      then after
          (send_registration_reject (ran_ue_of w' u a) env.cause_5gs_services_not_allowed "" w')
          fail
      else take_defaults w'

  unfoldable pub take_request : RequestedNssai → World → Proc Bool
  unfolding take_requested take_defaults
  take_request not_requested w = take_defaults w
  take_request undecodable w = fail w
  take_request (requested ts) w = take_requested ts w

  -- handleRequestedNssai; ue.RegistrationRequest is dereferenced.
  unfoldable pub handle_requested_nssai : RequestedNssai → World → Proc Bool
  unfolding take_request
  handle_requested_nssai r w = elim (w.ues u).registration_request [
    | none ↦ panics
    | some q ↦ take_request r (set_rejected w u a [])
  ]
