-- ===== src/Context/Ran/Removal.antt =====
-- What Remove does to a RanUe (context/ran_ue.go).
use amf_cdac.Base.{
  ℕ, ◌≡◌, ◌≢◌, true, false, none, some, arith, nat_beq_iff, nat_eq, elem, elem-remove_first, load,
  load-delete,
}
use amf_cdac.Types.{AccessType_beq_iff, access_type_eq}
use amf_cdac.Context.State.{World}
use amf_cdac.Context.Ids.{ngap_id_in_use}
use amf_cdac.Context.Ran.{remove_ran_ue}
use amf_cdac.Context.Ran.Links.{Linked}

-- Removing a RanUe takes it out of everything that leads to it: for a linked world, the call
-- succeeds, the RanUe has no AmfUe, no station that listed it lists it still, its identifier is free
-- and leads nowhere, and its AmfUe does not hold it under the station's access type. Every other
-- RanUe keeps its fields.
pub remove-detaches :
    (w : World) (p r : ℕ)
    → Linked w
    → (w.ran_ues p).ran ≡ some r
    → let (ok, w') = remove_ran_ue w p in
      let id = (w.ran_ues p).amf_ue_ngap_id in
      (ok ≡ true)
      × ((w'.ran_ues p).amf_ue ≡ none)
      × ((s : ℕ) → elem p (w'.rans s).ran_ue_list ≡ false)
      × (load w'.ran_ue_pool id ≡ none)
      × (ngap_id_in_use id w' ≡ false)
      × ((u : ℕ)
          → (w.ran_ues p).amf_ue ≡ some u
          → load (w'.ues u).ran_ue (w.rans r).an_type ≢ some p)
      × ((q : ℕ) → q ≢ p → w'.ran_ues q ≡ w.ran_ues q)
unfolding remove_ran_ue
remove-detaches w p r h at = (
  ground arith,
  ground arith,
  λ s. ground (arith, h.listed s p, elem-remove_first p p (w.rans s).ran_ue_list (h.listed_once s)),
  ground (
    arith,
    load-delete w.ran_ue_pool (w.ran_ues p).amf_ue_ngap_id (w.ran_ues p).amf_ue_ngap_id,
    nat_beq_iff (w.ran_ues p).amf_ue_ngap_id (w.ran_ues p).amf_ue_ngap_id,
  ),
  ground (arith, nat_beq_iff (w.ran_ues p).amf_ue_ngap_id (w.ran_ues p).amf_ue_ngap_id),
  λ u k e. ground (
    arith,
    load-delete (w.ues u).ran_ue (w.rans r).an_type (w.rans r).an_type,
    AccessType_beq_iff (w.rans r).an_type (w.rans r).an_type,
  ),
  λ q n. ground arith,
)
