-- ===== src/Context/Samples.antt =====
-- Worlds and identifier generators for the examples.
use amf_cdac.Base.{
  ℕ, suc, load, nat_eq, ◌<◌, ◌≡◌, inl, inr, true, false, Option, none, some, List, [], ◌∷◌, ltb,
  nat_beq, if◌then◌else◌, arith, Bool-cases,
}
use amf_cdac.Types.{access_3gpp, n2_normal_release}
use amf_cdac.Ue.{zero_ue}
use amf_cdac.Context.State.{RanUe, AmfRan, World, IdCall, allocated, freed, freed_below}
use amf_cdac.Context.Ran.Links.{Linked}
use amf_cdac.Context.Ids.{Generators, IsFresh, in_use}

-- A RanUe of the station 0 in the hands of the AmfUe 0.
abbrev pub blank_ran_ue : RanUe
blank_ran_ue = record {
  ran_ue_ngap_id = 0;
  amf_ue_ngap_id = 0;
  source_ue = none;
  target_ue = none;
  amf_ue = some 0;
  ran = some 0;
  rrc_establishment_cause = "";
  tai = record { plmn_id = none; tac = "" };
  ue_context_request = false;
  recvd_initial_context_setup_response = false;
  sent_initial_context_setup_request = false;
  release_action = n2_normal_release;
  success_pdu_session_id = [];
}

abbrev pub station : List ℕ → AmfRan
station ran_ue_list = record {
  ran_present = 1;
  an_type = access_3gpp;
  gnb_ip = "";
  gnb_id = "";
  conn = none;
  ran_ue_list = ran_ue_list;
}

-- The station 0 lists some RanUes; the pools are empty.
abbrev pub world : List ℕ → World
world listed = record {
  ran_ues = λ p. blank_ran_ue;
  rans = λ r. station (if nat_beq r 0 then listed else []);
  ues = λ u. zero_ue;
  next_ran_ue = 3;
  next_ran = 1;
  next_ue = 1;
  ran_ue_pool = [];
  ue_pool = [];
  amf_ran_pool = [];
  ngap_ids = [];
  tmsi_ids = [];
  drsm_ids = [];
  quits = [];
  enable_db_store = false;
  enable_sctp_lb = false;
  served_guami_list = [];
  support_tai_lists = [];
  plmn_support_list = [];
}

pub world-Linked : Linked (world [])
unfolding load
world-Linked = record {
  listed = λ r p e. ground arith;
  listed_once = λ r. ground arith;
  listed_old = λ r p e. ground arith;
  pooled = λ i p e. absurd (cc);
  pooled_old = λ i p e. absurd (cc);
  pooled_in_use = λ i p e. absurd (cc);
}

-- A generator that hands out one more than the largest identifier it ever handed out.
abbrev pub above : List IdCall → ℕ
above [] = 1
above (allocated i ∷ calls) = if ltb (above calls) (suc i) then suc i else above calls
above (freed i ∷ calls) = above calls
above (freed_below i ∷ calls) = above calls

in_use-lt : (i : ℕ) (calls : List IdCall) → in_use i calls ≡ true → i < above calls
in_use-lt i [] h = absurd (cc)
in_use-lt i (allocated j ∷ calls) h = ground (arith, in_use-lt i calls)
in_use-lt i (freed j ∷ calls) h = ground (arith, in_use-lt i calls)
in_use-lt i (freed_below j ∷ calls) h = in_use-lt i calls h

abbrev pub next_above : List IdCall → Option ℕ
next_above calls = some (above calls)

pub next_above-IsFresh : IsFresh next_above
next_above-IsFresh calls i e = elim (Bool-cases (in_use i calls)) [
  | inl used ↦ absurd (let below = in_use-lt i calls used in ground arith)
  | inr free ↦ free
]

abbrev pub generators : Generators
generators = record {
  allocate_ngap = next_above;
  allocate_tmsi = next_above;
  allocate_drsm = next_above;
}
