-- ===== src/Context/Ran.antt =====
-- A base station and its UEs (context/amf_ran.go, ran_ue.go, amf_ue.go): the operations that attach,
-- move and remove a RanUe.
pub mod History
pub mod Links
pub mod Removal
pub mod Sweep
use amf_cdac.Base.{
  zero, ℕ, suc, ◌+◌, ◌≡◌, Bool, true, false, ◌&&◌, Option, none, some, List, [], ◌∷◌, ◌++◌, Map,
  load, store, delete, nat_beq, nat_eq, string_eq, if◌then◌else◌, elem, remove_first, length, drop,
  String, ◌==◌,
}
use amf_cdac.Types.{
  AccessType, access_3gpp, access_non_3gpp, access_empty, access_type_eq, n2_normal_release,
}
use amf_cdac.Ue.{AmfUe}
use amf_cdac.Context.State.{
  RanUe, AmfRan, RanKey, by_conn, by_id, ran_key_eq, World, update, Outcome, done, error, panics,
}
use amf_cdac.Context.Ids.{Generators, allocate_amf_ue_ngap_id, free_amf_ue_ngap_id}

-- ue.DetachRanUe(anType)
unfoldable pub detach_ran_ue : World → ℕ → AccessType → World
detach_ran_ue w u an_type = record w {
  ues = update w.ues u (record (w.ues u) { ran_ue = delete (w.ues u).ran_ue an_type });
}

-- ranUe.DetachAmfUe()
unfoldable pub detach_amf_ue : World → ℕ → World
detach_amf_ue w p = record w {
  ran_ues = update w.ran_ues p (record (w.ran_ues p) { amf_ue = none });
}

-- ue.AttachRanUe(ranUe), up to the start of its goroutine; whose RAN is read at once.
unfoldable pub attach_ran_ue : World → ℕ → ℕ → Outcome
attach_ran_ue w u p = elim (w.ran_ues p).ran [
  | none ↦ panics
  | some r ↦ done (record w {
    ues =
        update w.ues u (record (w.ues u) { ran_ue = store (w.ues u).ran_ue (w.rans r).an_type p });
    ran_ues = update w.ran_ues p (record (w.ran_ues p) { amf_ue = some u });
  })
]

-- The goroutine of AttachRanUe, which runs two seconds later: `old` is the RanUe that the map held.
unfoldable pub detach_old_ran_ue : World → Option ℕ → ℕ → World
unfolding detach_amf_ue
detach_old_ran_ue w none p = w
detach_old_ran_ue w (some old) p = if nat_beq old p then w else detach_amf_ue w old

-- The new RanUe of a station, under an identifier that was allocated for it.
pub insert_ran_ue : World → ℕ → ℕ → ℕ → World
insert_ran_ue w r ran_ue_ngap_id i = record w {
  ran_ues = update w.ran_ues w.next_ran_ue (record {
    ran_ue_ngap_id = ran_ue_ngap_id;
    amf_ue_ngap_id = i;
    source_ue = none;
    target_ue = none;
    amf_ue = none;
    ran = some r;
    rrc_establishment_cause = "";
    tai = record { plmn_id = none; tac = "" };
    ue_context_request = false;
    recvd_initial_context_setup_response = false;
    sent_initial_context_setup_request = false;
    release_action = n2_normal_release;
    success_pdu_session_id = [];
  });
  next_ran_ue = suc w.next_ran_ue;
  rans =
      update w.rans r
        (record (w.rans r) { ran_ue_list = (w.rans r).ran_ue_list ++ w.next_ran_ue ∷ [] });
  ran_ue_pool = store w.ran_ue_pool i w.next_ran_ue;
}

-- ran.NewRanUe(ranUeNgapID): the new RanUe, or its error when no identifier is left.
unfoldable pub new_ran_ue : Generators → World → ℕ → ℕ → Option ℕ × World
unfolding allocate_amf_ue_ngap_id insert_ran_ue
new_ran_ue gen w r ran_ue_ngap_id =
    let (id, w') = allocate_amf_ue_ngap_id gen w in
    elim id [
      | none ↦ (none, w')
      | some i ↦ (some w'.next_ran_ue, insert_ran_ue w' r ran_ue_ngap_id i)
    ]

-- The list of the RAN loses the first entry that is this RanUe.
pub unlist : World → ℕ → ℕ → World
unlist w r p = record w {
  rans =
      update w.rans r (record (w.rans r) { ran_ue_list = remove_first p (w.rans r).ran_ue_list });
}

-- The map entry of the AmfUe is deleted only if it is this RanUe; its back pointer always goes.
pub forget_amf_ue : World → ℕ → AccessType → World
unfolding detach_ran_ue detach_amf_ue
forget_amf_ue w p an_type = elim (w.ran_ues p).amf_ue [
  | none ↦ w
  | some u ↦ elim (load (w.ues u).ran_ue an_type) [
    | none ↦ detach_amf_ue w p
    | some q ↦
        if nat_beq q p then detach_amf_ue (detach_ran_ue w u an_type) p else detach_amf_ue w p
  ]
]

-- ranUe.Remove() of a RanUe that is not nil; false is the error that it has no RAN.
unfoldable pub remove_ran_ue : World → ℕ → Bool × World
unfolding unlist forget_amf_ue free_amf_ue_ngap_id
remove_ran_ue w p = elim (w.ran_ues p).ran [
  | none ↦ (false, w)
  | some r ↦
      let w' = unlist (forget_amf_ue w p (w.rans r).an_type) r p in
      let id = (w.ran_ues p).amf_ue_ngap_id in
      (true, free_amf_ue_ngap_id (record w' { ran_ue_pool = delete w'.ran_ue_pool id }) id)
]

-- ranUe.SwitchToRan(newRan, ranUeNgapId), an error for a nil argument.
unfoldable pub switch_to_ran : World → Option ℕ → Option ℕ → ℕ → Outcome
unfolding unlist
switch_to_ran w none new_ran ran_ue_ngap_id = error
switch_to_ran w (some p) none ran_ue_ngap_id = error
switch_to_ran w (some p) (some new_ran) ran_ue_ngap_id = elim (w.ran_ues p).ran [
  | none ↦ panics
  | some old ↦
      let w' = unlist w old p in
      done (record w' {
        rans =
            update w'.rans new_ran
              (record (w'.rans new_ran) { ran_ue_list = (w'.rans new_ran).ran_ue_list ++ p ∷ [] });
        ran_ues =
            update w'.ran_ues p
              (record (w'.ran_ues p) { ran = some new_ran; ran_ue_ngap_id = ran_ue_ngap_id });
      })
]

-- ran.RanUeFindByRanUeNgapIDLocal(id). The list holds no nil.
unfoldable pub find_by_ran_ue_ngap_id : World → List ℕ → ℕ → Option ℕ
find_by_ran_ue_ngap_id w [] id = none
find_by_ran_ue_ngap_id w (p ∷ ps) id =
    if nat_beq (w.ran_ues p).ran_ue_ngap_id id then some p else find_by_ran_ue_ngap_id w ps id

-- ran.RemoveAllUeInRan(). The range loop reads the array that RanUeList had at its start, into which
-- every removal moves the later entries of the list one place down: after a removal the array is
-- the list, followed by the entries of the array from its length on. `visit` is the loop from the
-- index `i` on, for `n` rounds.
pub shifted : List ℕ → List ℕ → List ℕ
shifted live array = live ++ drop (length live) array

pub nth : List ℕ → ℕ → Option ℕ
nth xs i = elim (drop i xs) [ [] ↦ none | x ∷ _ ↦ some x ]

unfoldable pub remove_entry : World → Option ℕ → World
unfolding remove_ran_ue
remove_entry w none = w
remove_entry w (some p) = (remove_ran_ue w p).1

unfoldable pub visit : ℕ → ℕ → List ℕ → World → ℕ → World
visit zero i array w r = w
visit (suc n) i array w r =
    let w' = remove_entry w (nth array i) in
    visit n (suc i) (shifted (w'.rans r).ran_ue_list array) w' r

unfoldable pub remove_all_ue_in_ran : World → ℕ → World
unfolding visit remove_entry shifted nth
remove_all_ue_in_ran w r = let array = (w.rans r).ran_ue_list in visit (length array) 0 array w r
