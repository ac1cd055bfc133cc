-- ===== src/Nas/Identity/Examples.antt =====
-- The theorems on identities at a served GUAMI and a plain registration request.
use amf_cdac.Base.{◌≡◌, refl, [], ◌∷◌, some, arith, pos}
use amf_cdac.Context.Samples.{world}
use amf_cdac.Context.Guti.{guti_text, hex_digits}
use amf_cdac.Context.Ues.{insert_ue}
use amf_cdac.Nas.Samples.{toy}
use amf_cdac.Nas.Identity.Samples.{guami, identities, database}
use amf_cdac.Nas.Identity.{stmsi_to_guti, encode_to_string, fetch_ue_context_with_mobile_identity}
use amf_cdac.Nas.Identity.Stmsi.{word, stmsi_to_guti-guti_text}
use amf_cdac.Nas.Identity.Fetching.{Insecure, fetch-Insecure}

stmsi_to_guti-guti_text_example :
    stmsi_to_guti (guami ∷ []) (244 ∷ 254 ∷ 0 ∷ 0 ∷ 0 ∷ 190 ∷ 239 ∷ [])
    ≡ some (guti_text guami (pos (word 0 0 190 239)))
stmsi_to_guti-guti_text_example =
    stmsi_to_guti-guti_text guami [] (99 ∷ 97 ∷ []) 244 254 0 0 0 190 239
      (refl, (unfold encode_to_string hex_digits in refl)) (omega arith) (omega arith) (omega arith)
      (omega arith)

fetch-Insecure_example : Insecure identities (insert_ue (world []) "imsi-1") (
    fetch_ue_context_with_mobile_identity toy identities database
      (insert_ue (world []) "imsi-1")
      (some (126 ∷ 0 ∷ 65 ∷ [])))
fetch-Insecure_example =
    fetch-Insecure toy identities database (insert_ue (world []) "imsi-1") (126 ∷ 0 ∷ 65 ∷ [])
      (λ e. ground arith)
