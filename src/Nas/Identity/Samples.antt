-- ===== src/Nas/Identity/Samples.antt =====
-- A served GUAMI, identities and a database for the examples.
use amf_cdac.Base.{[], ◌∷◌, none}
use amf_cdac.Context.State.{Guami}
use amf_cdac.Context.Ues.{Database}
use amf_cdac.Nas.Identity.{Identities, suci}

-- The PLMN 208 93 and the AMF identifier cafe00.
abbrev pub guami : Guami
guami = record {
  mcc = 50 ∷ 48 ∷ 56 ∷ [];
  mnc = 57 ∷ 51 ∷ [];
  amf_id = 99 ∷ 97 ∷ 102 ∷ 101 ∷ 48 ∷ 48 ∷ [];
}

abbrev pub identities : Identities
identities = record {
  get_type_of_identity = λ b. suci;
  guti_to_string = λ contents. (guami, []);
  suci_to_string = λ contents. "";
}

abbrev pub database : Database
database = record {
  db_fetch_ue_by_supi = λ w supi. (none, w);
  db_fetch_ue_by_guti = λ w guti. (none, w);
}
