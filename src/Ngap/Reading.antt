-- ===== src/Ngap/Reading.antt =====
-- The loops over the IEs of a message (ngap/handler.go): each keeps the last pointer of every IE
-- that it reads, and returns at a nil pointer of an IE that it checks.
use amf_cdac.Base.{ℕ, Bool, true, false, Option, none, some, List, [], ◌∷◌}
use amf_cdac.Types.{Bytes}
use amf_cdac.Ngap.{
  Cause, ResetType, UserLocation, FiveGstmsi, Ie, amf_ue_ngap_id, ran_ue_ngap_id,
  source_amf_ue_ngap_id, five_g_s_tmsi, cause, reset_type, user_location, nas_pdu, pdu_sessions,
  admitted_sessions, failed_sessions, target_to_source, other_ie,
}

-- The variables of the loops.
pub record Ies : Type 0 where
  pub amf_id : Option ℕ
  pub ran_id : Option ℕ
  pub tmsi : Option FiveGstmsi
  pub reason : Option Cause
  pub reset : Option ResetType
  pub location : Option UserLocation
  pub pdu : Option Bytes
  pub sessions : Option (List ℕ)
  pub admitted : Option (List ℕ)
  pub failed : Option (List ℕ)
  pub container : Option Bytes

abbrev pub no_ies : Ies
no_ies = record {
  amf_id = none;
  ran_id = none;
  tmsi = none;
  reason = none;
  reset = none;
  location = none;
  pdu = none;
  sessions = none;
  admitted = none;
  failed = none;
  container = none;
}

abbrev pub keep : Ie → Ies → Ies
keep (amf_ue_ngap_id v) ies = record ies { amf_id = v }
keep (ran_ue_ngap_id v) ies = record ies { ran_id = v }
keep (source_amf_ue_ngap_id v) ies = record ies { amf_id = v }
keep (five_g_s_tmsi v) ies = record ies { tmsi = v }
keep (cause v) ies = record ies { reason = v }
keep (reset_type v) ies = record ies { reset = v }
keep (user_location v) ies = record ies { location = v }
keep (nas_pdu v) ies = record ies { pdu = v }
keep (pdu_sessions v) ies = record ies { sessions = v }
keep (admitted_sessions v) ies = record ies { admitted = v }
keep (failed_sessions v) ies = record ies { failed = v }
keep (target_to_source v) ies = record ies { container = v }
keep other_ie ies = ies

abbrev pub is_none : {A : Type 0} → Option A → Bool
is_none none = true
is_none (some a) = false

abbrev pub is_nil : Ie → Bool
is_nil (amf_ue_ngap_id v) = is_none v
is_nil (ran_ue_ngap_id v) = is_none v
is_nil (source_amf_ue_ngap_id v) = is_none v
is_nil (five_g_s_tmsi v) = is_none v
is_nil (cause v) = is_none v
is_nil (reset_type v) = is_none v
is_nil (user_location v) = is_none v
is_nil (nas_pdu v) = is_none v
is_nil (pdu_sessions v) = is_none v
is_nil (admitted_sessions v) = is_none v
is_nil (failed_sessions v) = is_none v
is_nil (target_to_source v) = is_none v
is_nil other_ie = false

-- What a loop does with an IE.
pub data Reading : Type 0 where
  ignores keeps checks : Reading

-- The loop; `none` is the return at a nil pointer.
unfoldable pub read_ies : (Ie → Reading) → List Ie → Ies → Option Ies
read_ies reads [] ies = some ies
read_ies reads (ie ∷ rest) ies = elim (reads ie) [
  | ignores ↦ read_ies reads rest ies
  | keeps ↦ read_ies reads rest (keep ie ies)
  | checks ↦ elim (is_nil ie) [ true ↦ none | false ↦ read_ies reads rest (keep ie ies) ]
]
