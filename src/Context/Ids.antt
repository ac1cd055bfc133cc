-- ===== src/Context/Ids.antt =====
-- The identifiers of UEs: NGAP identifiers and TMSIs (context/context.go, db.go). The generators are
-- the idgenerator and drsm packages, which are not part of the repository: what they answer is a
-- function of the calls that they have had.
use amf_cdac.Base.{
  ℕ, ◌≡◌, Bool, false, not, ◌&&◌, ◌||◌, Option, none, some, List, [], ◌∷◌, nat_beq, if◌then◌else◌,
}
use amf_cdac.Context.State.{IdCall, allocated, freed, freed_below, World}

-- Whether an identifier is allocated after these calls.
abbrev pub in_use : ℕ → List IdCall → Bool
in_use i [] = false
in_use i (allocated j ∷ calls) = nat_beq i j || in_use i calls
in_use i (freed j ∷ calls) = not (nat_beq i j) && in_use i calls
in_use i (freed_below n ∷ calls) = in_use i calls

-- Allocate of each generator; `none` is its error.
pub record Generators : Type 0 where
  pub allocate_ngap : List IdCall → Option ℕ
  pub allocate_tmsi : List IdCall → Option ℕ
  pub allocate_drsm : List IdCall → Option ℕ

-- A generator hands out no identifier that is in use.
abbrev pub IsFresh : (List IdCall → Option ℕ) → Type 0
IsFresh allocate = (calls : List IdCall) (i : ℕ) → allocate calls ≡ some i → in_use i calls ≡ false

module _ (gen : Generators) where
  -- AllocateAmfUeNgapID: through AllocateUniqueID, or from drsm when the store is enabled.
  unfoldable pub allocate_amf_ue_ngap_id : World → Option ℕ × World
  allocate_amf_ue_ngap_id w =
      if w.enable_db_store
      then elim (gen.allocate_drsm w.drsm_ids) [
        | none ↦ (none, w)
        | some i ↦ (some i, record w { drsm_ids = allocated i ∷ w.drsm_ids })
      ]
      else elim (gen.allocate_ngap w.ngap_ids) [
        | none ↦ (none, w)
        | some i ↦ (some i, record w { ngap_ids = allocated i ∷ w.ngap_ids })
      ]

-- The release in RanUe.Remove; the error of drsm is logged only.
unfoldable pub free_amf_ue_ngap_id : World → ℕ → World
free_amf_ue_ngap_id w i =
    if w.enable_db_store
    then record w { drsm_ids = freed i ∷ w.drsm_ids }
    else record w { ngap_ids = freed i ∷ w.ngap_ids }

-- Whether an NGAP identifier is allocated.
abbrev pub ngap_id_in_use : ℕ → World → Bool
ngap_id_in_use i w = if w.enable_db_store then in_use i w.drsm_ids else in_use i w.ngap_ids
