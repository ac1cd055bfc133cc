-- ===== src/Context/Ues/Examples.antt =====
-- The theorems on the pool of UEs at a world with one new UE.
use amf_cdac.Base.{
  String, ◌≡◌, refl, true, false, none, [], ◌∷◌, load, elem, pos, arith, ◌==◌, string_eq,
  if◌then◌else◌,
}
use text.Mathlib.TextEquality.{eq_iff}
use amf_cdac.Context.State.{World, Guami}
use amf_cdac.Context.Samples.{world, generators}
use amf_cdac.Context.Guti.{set_guti, tmsi_allocate, allocate_guti_to_ue}
use amf_cdac.Context.Guti.Tmsi.{tmsi_in_use}
use amf_cdac.Context.Ues.{insert_ue, new_amf_ue, remove_amf_ue}
use amf_cdac.Context.Ues.Keyed.{IsKeyed, new_amf_ue-IsKeyed}
use amf_cdac.Context.Ues.Removal.{remove_amf_ue-IsKeyed}

abbrev guami : Guami
guami = record { mcc = []; mnc = []; amf_id = [] }

abbrev serving : World
serving = record (world []) { served_guami_list = guami ∷ [] }

-- The world after NewAmfUe.
abbrev joined : World
joined = set_guti (tmsi_allocate generators (insert_ue serving "imsi-1")).1 1 guami (pos 1)

joined-IsKeyed : IsKeyed joined
joined-IsKeyed =
    new_amf_ue-IsKeyed generators serving joined "imsi-1" tt
      (unfold new_amf_ue allocate_guti_to_ue tmsi_allocate insert_ue in refl)

remove_amf_ue-IsKeyed_example :
    let w' = remove_amf_ue joined 1 in
    IsKeyed w'
    × ((supi : String)
        → load w'.ue_pool supi
          ≡ (if (joined.ues 1).supi == supi then none else load joined.ue_pool supi))
    × (tmsi_in_use 1 w' ≡ false)
    × ((joined.ues 1).event_channel ≡ true → elem 1 w'.quits ≡ true)
remove_amf_ue-IsKeyed_example =
    remove_amf_ue-IsKeyed joined 1 1 joined-IsKeyed (unfold set_guti in refl)
      (unfold set_guti insert_ue tmsi_allocate in λ e. ground (arith, eq_iff "imsi-1" ""))
