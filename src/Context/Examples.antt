-- ===== src/Context/Examples.antt =====
-- The theorems on the RAN side at concrete worlds.
use amf_cdac.Base.{
  ℕ, ◌≡◌, ◌≢◌, refl, true, false, none, some, List, [], ◌∷◌, elem, load, arith, nat_eq,
}
use amf_cdac.Types.{access_type_eq}
use amf_cdac.Context.State.{World}
use amf_cdac.Context.Samples.{world, world-Linked, generators, next_above-IsFresh}
use amf_cdac.Context.Ids.{ngap_id_in_use}
use amf_cdac.Context.Ran.{new_ran_ue, remove_ran_ue, remove_all_ue_in_ran}
use amf_cdac.Context.Ran.Links.{Linked}
use amf_cdac.Context.Ran.Removal.{remove-detaches}
use amf_cdac.Context.Ran.Sweep.{sweep_spares_second}
use amf_cdac.Context.Ran.History.{here, next, creates, removes, Reach-Linked, new-fresh}
use amf_cdac.Context.Handover.{IsMirrored}

sweep_spares_second_example :
    (left : List ℕ) × (((remove_all_ue_in_ran (world (0 ∷ 1 ∷ 2 ∷ [])) 0).rans 0).ran_ue_list
      ≡ 1 ∷ left)
sweep_spares_second_example =
    sweep_spares_second (world (0 ∷ 1 ∷ 2 ∷ [])) 0 0 1 2 [] refl (refl, (refl, (refl, tt)))
      (omega arith) (omega arith, tt)

-- The world with one RanUe.
abbrev settled : World
settled = (new_ran_ue generators (world []) 0 7).1

settled-Linked : Linked settled
settled-Linked =
    Reach-Linked generators (world []) settled world-Linked (next here (creates (world []) 0 7))

Reach-Linked_example : Linked (remove_ran_ue settled 3).1
Reach-Linked_example =
    Reach-Linked generators (world []) (remove_ran_ue settled 3).1 world-Linked
      (next (next here (creates (world []) 0 7)) (removes settled 3))

new-fresh_example :
    let w' = settled in
    let i = (w'.ran_ues 3).amf_ue_ngap_id in
    (load (world []).ran_ue_pool i ≡ none)
    × (load w'.ran_ue_pool i ≡ some 3)
    × (elem 3 (w'.rans 0).ran_ue_list ≡ true)
    × ((w'.ran_ues 3).ran_ue_ngap_id ≡ 7)
unfolding new_ran_ue
new-fresh_example =
    new-fresh generators (world []) settled 0 7 3 next_above-IsFresh next_above-IsFresh world-Linked
      refl

remove-detaches_example :
    let (ok, w') = remove_ran_ue settled 3 in
    let id = (settled.ran_ues 3).amf_ue_ngap_id in
    (ok ≡ true)
    × ((w'.ran_ues 3).amf_ue ≡ none)
    × ((s : ℕ) → elem 3 (w'.rans s).ran_ue_list ≡ false)
    × (load w'.ran_ue_pool id ≡ none)
    × (ngap_id_in_use id w' ≡ false)
    × ((u : ℕ)
        → (settled.ran_ues 3).amf_ue ≡ some u
        → load (w'.ues u).ran_ue (settled.rans 0).an_type ≢ some 3)
    × ((q : ℕ) → q ≢ 3 → w'.ran_ues q ≡ settled.ran_ues q)
remove-detaches_example = remove-detaches settled 3 0 settled-Linked (unfold new_ran_ue in refl)

world-IsMirrored : IsMirrored (world [])
world-IsMirrored = record {
  target_to_source = λ p q e. absurd (cc);
  source_to_target = λ p q e. absurd (cc);
}
