-- ===== src/Gmm/Handlers/Slices.antt =====
-- The handlers of a slice that is deleted or added (gmm/handler.go).
use amf_cdac.Base.{
  ℕ, Bool, true, false, not, ◌&&◌, none, some, List, [], ◌∷◌, ◌++◌, ◌==◌, string_eq, nat_eq,
  if◌then◌else◌, Map, load, store,
}
use amf_cdac.Types.{Snssai, AccessType, access_type_eq}
use amf_cdac.Ue.{SmContext}
use amf_cdac.Context.State.{World}
use amf_cdac.Gmm.Questions.{Answer, failed, releases_sm_context}
use amf_cdac.Gmm.Proc.{Proc, returns, asks}
use amf_cdac.Gmm.Callbacks.{put}

-- The filter of both handlers.
unfoldable pub other_slices : Snssai → List Snssai → List Snssai
other_slices n [] = []
other_slices n (s ∷ ss) =
    let rest = other_slices n ss in
    if not (s.sst == n.sst) && not (s.sd == n.sd) then s ∷ rest else rest

-- ue.AllowedNssai[accessType]
abbrev pub allowed : World → ℕ → AccessType → List Snssai
allowed w u a = elim (load (w.ues u).allowed_nssai a) [ none ↦ [] | some ss ↦ ss ]

abbrev pub set_allowed : World → ℕ → AccessType → List Snssai → World
set_allowed w u a ss =
    put w u (record (w.ues u) { allowed_nssai = store (w.ues u).allowed_nssai a ss })

-- The error that a release leaves.
abbrev pub is_failed : {A : Type 0} → Answer A → Bool
is_failed failed = true
is_failed _ = false

-- The sessions of the slice are released; the error of the last release stays.
unfoldable pub release_slice :
    ℕ → Snssai → Map ℕ SmContext → Bool → World → (Bool → World → Proc Bool) → Proc Bool
release_slice u n [] err w k = k err w
release_slice u n ((psi, sm) ∷ rest) err w k =
    if sm.snssai.sst == n.sst && sm.snssai.sd == n.sd
    then asks (releases_sm_context u psi none) w (λ r w'. release_slice u n rest (is_failed r) w' k)
    else release_slice u n rest err w k

-- HandleUeSliceInfoDelete
unfoldable pub handle_ue_slice_info_delete : ℕ → AccessType → Snssai → World → Proc Bool
unfolding release_slice other_slices
handle_ue_slice_info_delete u a n w =
    release_slice u n (w.ues u).sm_context_list false w
      (λ err w'. returns err (set_allowed w' u a (other_slices n (allowed w' u a))))

-- HandleUeSliceInfoAdd
unfoldable pub handle_ue_slice_info_add : ℕ → AccessType → Snssai → World → Proc Bool
unfolding other_slices
handle_ue_slice_info_add u a n w =
    returns false (set_allowed w u a (other_slices n (allowed w u a) ++ n ∷ []))
