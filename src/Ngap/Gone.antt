-- ===== src/Ngap/Gone.antt =====
-- What takes a RanUe out of the pool, and what leaves it out (context/ran_ue.go, amf_ue.go).
use amf_cdac.Base.{
  ℕ, ◌≡◌, refl, ap, ◌∙◌, Option, none, some, [], ◌∷◌, Map, load, load-delete, arith, nat_eq,
  nat_beq_iff,
}
use amf_cdac.Types.{access_type_eq, AccessType}
use amf_cdac.Context.State.{World}
use amf_cdac.Context.Ran.{remove_ran_ue}
use amf_cdac.Context.Ues.{remove_present, remove_ran_ues, remove_amf_ue}
use amf_cdac.Context.Guti.{free_tmsi}
use amf_cdac.Context.Handover.{detach_source_target}

-- No RanUe is found under the identifier.
abbrev pub IsGone : ℕ → World → Type 0
IsGone id w = load w.ran_ue_pool id ≡ none

pub remove-IsGone :
    (w : World) (p r : ℕ)
    → (w.ran_ues p).ran ≡ some r
    → IsGone (w.ran_ues p).amf_ue_ngap_id (remove_ran_ue w p).1
unfolding remove_ran_ue
remove-IsGone w p r own = ground (
  arith,
  load-delete w.ran_ue_pool (w.ran_ues p).amf_ue_ngap_id (w.ran_ues p).amf_ue_ngap_id,
  nat_beq_iff (w.ran_ues p).amf_ue_ngap_id (w.ran_ues p).amf_ue_ngap_id,
)

stays-IsGone : (w : World) (q id : ℕ) → IsGone id w → IsGone id (remove_ran_ue w q).1
unfolding remove_ran_ue
stays-IsGone w q id h = ground (arith, load-delete w.ran_ue_pool (w.ran_ues q).amf_ue_ngap_id id)

remove_ran_ues-IsGone :
    (m : Map AccessType ℕ) (w : World) (u id : ℕ) → IsGone id w → IsGone id (remove_ran_ues m w u)
unfolding remove_ran_ues remove_present
remove_ran_ues-IsGone [] w u id h = h
remove_ran_ues-IsGone ((a, q) ∷ entries) w u id h =
    let present = load (w.ues u).ran_ue a in
    remove_ran_ues-IsGone entries (remove_present w present) u id (one w present h)
  where
    one : (w : World) (o : Option ℕ) → IsGone id w → IsGone id (remove_present w o)
    one w none h = h
    one w (some p) h = stays-IsGone w p id h

remove_amf_ue-pool :
    (w : World) (u : ℕ)
    → (remove_amf_ue w u).ran_ue_pool ≡ (remove_ran_ues (w.ues u).ran_ue w u).ran_ue_pool
unfolding remove_amf_ue free_tmsi
remove_amf_ue-pool w u = ground (arith)

pub remove_amf_ue-IsGone : (w : World) (u id : ℕ) → IsGone id w → IsGone id (remove_amf_ue w u)
remove_amf_ue-IsGone w u id h =
    ap (λ (m : Map ℕ ℕ). load m id) (remove_amf_ue-pool w u)
    ∙ remove_ran_ues-IsGone (w.ues u).ran_ue w u id h

detach-pool : (w : World) (o : Option ℕ) → (detach_source_target w o).ran_ue_pool ≡ w.ran_ue_pool
unfolding detach_source_target
detach-pool w none = refl
detach-pool w (some p) = ground (arith)

pub detach-same :
    (w : World) (o : Option ℕ) (p : ℕ)
    → ((detach_source_target w o).ran_ues p).ran ≡ (w.ran_ues p).ran
unfolding detach_source_target
detach-same w none p = refl
detach-same w (some q) p = ground (arith)

pub detach-id :
    (w : World) (o : Option ℕ) (p : ℕ)
    → ((detach_source_target w o).ran_ues p).amf_ue_ngap_id ≡ (w.ran_ues p).amf_ue_ngap_id
unfolding detach_source_target
detach-id w none p = refl
detach-id w (some q) p = ground (arith)
