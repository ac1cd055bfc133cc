-- ===== src/Nas/Handler/Examples.antt =====
-- The theorem on HandleNAS at a protected message of a RanUe with a UE.
use amf_cdac.Base.{[], ◌∷◌, some, pos, false, arith}
use amf_cdac.Types.{Bytes}
use amf_cdac.Context.State.{World}
use amf_cdac.Context.Samples.{world, generators}
use amf_cdac.Context.Ues.{init_ue}
use amf_cdac.Nas.Samples.{toy}
use amf_cdac.Nas.Identity.Samples.{identities, database}
use amf_cdac.Nas.Handler.{handle_nas}
use amf_cdac.Nas.Handler.Admission.{Admitted, handle_nas-Admitted}

-- A ciphered message with the sequence number 6, with its MAC.
abbrev pdu : Bytes
pdu = 126 ∷ 2 ∷ 6 ∷ 3 ∷ 7 ∷ 7 ∷ 6 ∷ 126 ∷ 0 ∷ []

abbrev served : World
served = record (world (0 ∷ [])) { ues = λ u. init_ue }

handle_nas-Admitted_example : Admitted toy pdu (
    handle_nas toy identities database generators (λ ue. false) served (some 0) (pos 15) (some pdu))
handle_nas-Admitted_example =
    handle_nas-Admitted toy identities database generators (λ ue. false) served 0 (pos 15) pdu
      (λ e. ground arith)
