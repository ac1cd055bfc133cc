-- ===== src/Ue/Examples.antt =====
-- The theorems on a UE's algorithms, slices and tracking areas at a concrete UE.
use amf_cdac.Base.{[], ◌∷◌, some}
use amf_cdac.Types.{Tai, Snssai, access_3gpp, access_type_eq}
use amf_cdac.Ue.{AmfUe, zero_ue}

abbrev here : Tai
here = record { plmn_id = some (record { mcc = "208"; mnc = "93" }); tac = "000001" }

abbrev there : Tai
there = record here { tac = "000002" }

-- The UE supports 128-NIA2 and the null ciphering, and is registered in one tracking area.
abbrev capable : AmfUe
capable = record zero_ue {
  ue_security_capability = record (zero_ue.ue_security_capability) { ia2_128 = 1; ea0 = 1 };
  registration_area = (access_3gpp, here ∷ []) ∷ [];
}

abbrev slice_1 : Snssai
slice_1 = record { sst = 1; sd = "010203" }
