-- ===== src/Ngap/Doomed.antt =====
-- The target of a handover that has failed or is cancelled (ngap/handler.go): its release can not be
-- completed.
use amf_cdac.Base.{
  ℕ, ◌≡◌, refl, inl, inr, sym, subst, ap, ◌∙◌, true, Option, none, some, [], ◌∷◌, load,
  Option-cases, nat_eq, nat_beq_iff, Map,
}
use amf_cdac.Types.{RelAction, release_handover}
use amf_cdac.Context.State.{RanUe, World}
use amf_cdac.Ngap.{
  Turn, Peers, start, Cause, ho_failure_in_target, amf_ue_ngap_id, cause, in_world, ◌>>=◌, Effect,
  ue_context_release_command,
}
use amf_cdac.Ngap.Reading.{Ies, no_ies, read_ies}
use amf_cdac.Ngap.Finding.{
  ran_ue_find_by_amf_ue_ngap_id, send_ue_context_release_command, send_handover_preparation_failure,
  note_release,
}
use amf_cdac.Ngap.Releasing.{set_ran}
use amf_cdac.Ngap.Completing.{
  forget_cause, settle, by_action, release_of, complete_id, release_found, complete_by,
  handle_ue_context_release_complete,
}
use amf_cdac.Context.Handover.{with_ran_ue}
use amf_cdac.Ngap.Handing.{or_else, cancel_of, fail_target, fail_by, handle_handover_failure}
use amf_cdac.Ngap.Untouched.{
  Ends, bind-Ends, Untouched, Leaves, note-Untouched, settle-Leaves, cancel_of-world,
  preparation_failure-Leaves,
}

-- A RanUe in the pool that is released for a handover but has no target of its own.
pub record IsDoomed (w : World) (id p u : ℕ) : Type 0 where
  pub pooled : load w.ran_ue_pool id ≡ some p
  pub owned : (w.ran_ues p).amf_ue ≡ some u
  pub action : (w.ran_ues p).release_action ≡ release_handover
  pub no_target : (w.ran_ues p).target_ue ≡ none

pub set_ran-at :
    (w : World) (p r : ℕ) → (set_ran w p r).ran_ues p ≡ record (w.ran_ues p) { ran = some r }
set_ran-at w p r = rw ((nat_beq_iff p p).1 refl) refl

module _ (peers : Peers) (r : ℕ) where
  by_action-panics :
      (p u : ℕ) (a : RelAction) (t : Turn)
      → a ≡ release_handover
      → (t.world.ran_ues p).target_ue ≡ none
      → by_action peers r a p u t ≡ none
  unfolding by_action
  by_action-panics p u a t e f = rw (e, f, by_action) refl

  bind-panics :
      (m : Option Turn) (k : Turn → Option Turn) (P : Turn → Type 0)
      → Ends P m
      → ((t : Turn) → P t → k t ≡ none)
      → (m >>= k) ≡ none
  bind-panics none k P h g = refl
  bind-panics (some t) k P h g = g t h

  found-panics :
      (w : World) (id p u : ℕ) (ies : Ies)
      → IsDoomed w id p u
      → release_found peers r p ies (start w) ≡ none
  unfolding release_found release_of
  found-panics w id p u ies d =
      let t1 = in_world (start w) (set_ran w p r) in
      let same = set_ran-at w p r in
      let owned : (t1.world.ran_ues p).amf_ue ≡ some u =
        ap (λ (x : RanUe). x.amf_ue) same ∙ d.owned in
      rw (release_found, owned)
        (bind-panics (settle peers r u ies t1)
          (λ t2.
            by_action peers r (t2.world.ran_ues p).release_action p u (forget_cause peers r u t2))
          (Leaves t1) (settle-Leaves peers r u ies t1)
          (λ t2 h.
            let kept = ap (λ (f : ℕ → RanUe). f p) h.same_ran_ues ∙ same in
            by_action-panics p u (t2.world.ran_ues p).release_action (forget_cause peers r u t2)
              (ap (λ (x : RanUe). x.release_action) kept ∙ d.action)
              (ap (λ (x : RanUe). x.target_ue) kept ∙ d.no_target)))

  pub find-pooled :
      (w : World) (id p : ℕ)
      → load w.ran_ue_pool id ≡ some p
      → ran_ue_find_by_amf_ue_ngap_id peers w id ≡ (some p, w)
  unfolding ran_ue_find_by_amf_ue_ngap_id
  find-pooled w id p e = rw (ran_ue_find_by_amf_ue_ngap_id, e) refl

  doomed-panics :
      (w : World) (id p u : ℕ)
      → IsDoomed w id p u
      → handle_ue_context_release_complete peers r (amf_ue_ngap_id (some id) ∷ []) (start w) ≡ none
  unfolding handle_ue_context_release_complete read_ies complete_id complete_by
  doomed-panics w id p u d =
      let ies = record no_ies { amf_id = some id } in
      ap (λ (x : Option ℕ × World). complete_by peers r x ies (start w))
        (find-pooled w id p d.pooled)
      ∙ found-panics w id p u ies d

-- Before the release is ordered.
pub record IsWaiting (w : World) (id p u : ℕ) : Type 0 where
  pub found : load w.ran_ue_pool id ≡ some p
  pub held : (w.ran_ues p).amf_ue ≡ some u
  pub targetless : (w.ran_ues p).target_ue ≡ none

module _ (peers : Peers) (r id p u : ℕ) (all : (e : Effect) → peers.encodes e ≡ true) where
  set_ran-IsWaiting : (w : World) → IsWaiting w id p u → IsWaiting (set_ran w p r) id p u
  set_ran-IsWaiting w h = record {
    found = h.found;
    held = ap (λ (x : RanUe). x.amf_ue) (set_ran-at w p r) ∙ h.held;
    targetless = ap (λ (x : RanUe). x.target_ue) (set_ran-at w p r) ∙ h.targetless;
  }

  Untouched-IsWaiting : (w v : World) → IsWaiting w id p u → Untouched w v → IsWaiting v id p u
  Untouched-IsWaiting w v h k =
      let same = ap (λ (f : ℕ → RanUe). f p) k.same_ran_ues in
      record {
        found = ap (λ (m : Map ℕ ℕ). load m id) k.same_pool ∙ h.found;
        held = ap (λ (x : RanUe). x.amf_ue) same ∙ h.held;
        targetless = ap (λ (x : RanUe). x.target_ue) same ∙ h.targetless;
      }

  -- The world after the command.
  release-world :
      (t : Turn) (c : Cause)
      → (send_ue_context_release_command peers t p release_handover c).world
        ≡ note_release t.world p release_handover c
  unfolding send_ue_context_release_command
  release-world t c = rw (all (ue_context_release_command p release_handover c)) refl

  ordered-IsDoomed :
      (w : World) (c : Cause)
      → IsWaiting w id p u
      → IsDoomed (note_release w p release_handover c) id p u
  ordered-IsDoomed w c h =
      let noted = note-Untouched w p release_handover c in
      let at_p : (with_ran_ue w p
              (record (w.ran_ues p) { release_action = release_handover })).ran_ues
            p
          ≡ record (w.ran_ues p) { release_action = release_handover } =
        rw ((nat_beq_iff p p).1 refl) refl in
      let same = ap (λ (f : ℕ → RanUe). f p) noted.same_ran_ues ∙ at_p in
      record {
        pooled = ap (λ (m : Map ℕ ℕ). load m id) noted.same_pool ∙ h.found;
        owned = ap (λ (x : RanUe). x.amf_ue) same ∙ h.held;
        action = ap (λ (x : RanUe). x.release_action) same;
        no_target = ap (λ (x : RanUe). x.target_ue) same ∙ h.targetless;
      }

  release-IsDoomed :
      (t : Turn) (c : Cause)
      → IsWaiting t.world id p u
      → IsDoomed (send_ue_context_release_command peers t p release_handover c).world id p u
  release-IsDoomed t c h =
      subst (λ w. IsDoomed w id p u) (sym (release-world t c)) (ordered-IsDoomed t.world c h)

  cancel_of-IsWaiting :
      (o : Option ℕ) (t : Turn) → IsWaiting t.world id p u → IsWaiting (cancel_of o t).world id p u
  cancel_of-IsWaiting o t h = subst (λ w. IsWaiting w id p u) (sym (cancel_of-world o t)) h

  fail_target-IsDoomed :
      (ies : Ies) (t : Turn)
      → IsWaiting t.world id p u
      → Ends (λ t'. IsDoomed t'.world id p u) (fail_target peers r p ies t)
  unfolding fail_target
  fail_target-IsDoomed ies t h =
      let t1 : Turn = in_world t (set_ran t.world p r) in
      let waiting : IsWaiting t1.world id p u = set_ran-IsWaiting t.world h in
      elim (Option-cases (t1.world.ran_ues p).source_ue) [
        | inl e ↦
            rw (Ends, e) (release-IsDoomed t1 (or_else ies.reason ho_failure_in_target) waiting)
        | inr (s, e) ↦ elim (Option-cases ies.reason) [
          | inl f ↦ rw (Ends, e, f) tt
          | inr (c, f) ↦
              let t2 = cancel_of (t1.world.ran_ues p).amf_ue t1 in
              rw (Ends, e, f)
                (bind-Ends (Leaves t2) (λ t'. IsDoomed t'.world id p u)
                  (send_handover_preparation_failure peers t2 s c)
                  (λ t'. some (send_ue_context_release_command peers t' p release_handover c))
                  (preparation_failure-Leaves peers t2 s c)
                  (λ t' k. release-IsDoomed t' c (
                    Untouched-IsWaiting t2.world t'.world
                      (cancel_of-IsWaiting (t1.world.ran_ues p).amf_ue t1 waiting) k)))
        ]
      ]

-- What a handover failure that returns leaves can not be released.
failure-IsDoomed :
    (peers : Peers) (r id p u : ℕ) (c : Cause) (w : World)
    → ((e : Effect) → peers.encodes e ≡ true)
    → IsWaiting w id p u
    → Ends
        (λ t'. IsDoomed t'.world id p u)
        (handle_handover_failure peers r (amf_ue_ngap_id (some id) ∷ cause (some c) ∷ []) (start w))
unfolding handle_handover_failure read_ies
failure-IsDoomed peers r id p u c w all h =
    let ies = record no_ies { amf_id = some id; reason = some c } in
    subst
      (λ (x : Option ℕ × World).
        Ends (λ t'. IsDoomed t'.world id p u) (fail_by peers r x ies (start w)))
      (sym (find-pooled peers r w id p h.found))
      (fail_target-IsDoomed peers r id p u all ies (start w) h)

-- A release for a handover that has failed can not be completed: when HandleHandoverFailure returns
-- for a message with a cause about a pooled RanUe that has an AmfUe and no target of its own, the
-- release complete that answers the command it sent dereferences a nil pointer, at any station. The
-- command could be encoded.
pub failure-panics :
    (peers : Peers) (r s id p u : ℕ) (c : Cause) (w : World) (t' : Turn)
    → ((e : Effect) → peers.encodes e ≡ true)
    → IsWaiting w id p u
    → handle_handover_failure peers r (amf_ue_ngap_id (some id) ∷ cause (some c) ∷ []) (start w)
      ≡ some t'
    → handle_ue_context_release_complete peers s (amf_ue_ngap_id (some id) ∷ []) (start t'.world)
      ≡ none
failure-panics peers r s id p u c w t' all h e = doomed-panics peers s t'.world id p u (
    subst (Ends (λ (x : Turn). IsDoomed x.world id p u)) e
      (failure-IsDoomed peers r id p u c w all h))
