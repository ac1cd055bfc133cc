-- ===== src/Nas/Encode/Examples.antt =====
-- The theorems on Encode at a concrete UE and library.
use amf_cdac.Base.{refl, [], ◌∷◌, true, arith, Distinct}
use amf_cdac.Nas.Message.{integrity_protected_and_ciphered, integrity_protected}
use amf_cdac.Nas.Samples.{toy, toy-IsNasCount, secured, outgoing}
use amf_cdac.Nas.Encode.{ok, encode}
use amf_cdac.Nas.Encode.Layout.{Outcome, encode-Outcome}
use amf_cdac.Nas.Encode.Keystream.{sent_counts, sent_counts-Distinct}

encode-Outcome_example :
    Outcome toy true secured
      (outgoing integrity_protected_and_ciphered)
      (ok (126 ∷ 2 ∷ 9 ∷ 4 ∷ 7 ∷ 7 ∷ 9 ∷ 126 ∷ 0 ∷ 65 ∷ []), record secured { dl_count = 10 })
unfolding encode
encode-Outcome_example =
    encode-Outcome toy secured (outgoing integrity_protected_and_ciphered) _ _ refl refl

sent_counts-Distinct_example : Distinct (
    sent_counts toy secured
      (outgoing integrity_protected ∷ outgoing integrity_protected_and_ciphered ∷ []))
sent_counts-Distinct_example =
    sent_counts-Distinct toy secured _ toy-IsNasCount refl (refl, (refl, tt)) (omega arith)
