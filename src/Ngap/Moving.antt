-- ===== src/Ngap/Moving.antt =====
-- The steps of a handover notify and a handover cancel leave every RanUe at its station
-- (ngap/handler.go).
use amf_cdac.Base.{
  ℕ, ◌≡◌, refl, inl, inr, sym, subst, true, some, List, [], ◌∷◌, load, Option-cases, nat_eq,
}
use amf_cdac.Types.{release_handover}
use amf_cdac.Context.State.{World}
use amf_cdac.Context.Ran.{attach_ran_ue}
use amf_cdac.Ngap.{
  completes_handover, stores_context, successful_handover, ho_failure_in_target,
  handover_cancel_acknowledge, Peers, Turn, emit, in_world, ◌>>=◌,
}
use amf_cdac.Ngap.Reading.{Ies}
use amf_cdac.Ngap.Finding.{send_ue_context_release_command}
use amf_cdac.Ngap.Handing.{
  complete_each, or_else, attach_or_panic, mark_set_up, notify_source, notify_target, cancel_of,
  cancel_source,
}
use amf_cdac.Ngap.Untouched.{Ends, bind-Ends, cancel_of-world, send-world}
use amf_cdac.Ngap.Alike.{Alike, Alike-refl, Alike-trans, change-Alike, attach-Alike, release-Alike}

module _ (peers : Peers) (r : ℕ) where
  complete-world :
      (u : ℕ) (sessions : List ℕ) (t : Turn)
      → Ends (λ t'. t'.world ≡ t.world) (complete_each u sessions t)
  unfolding complete_each
  complete-world u [] t = refl
  complete-world u (psi ∷ sessions) t =
      elim (Option-cases (load (t.world.ues u).sm_context_list psi)) [
        | inl e ↦ rw (Ends, e) tt
        | inr (sm, e) ↦ rw (Ends, e) (complete-world u sessions (emit t (completes_handover u psi)))
      ]

  marked-Alike : (p : ℕ) (t : Turn) → Alike t.world (mark_set_up peers r p t).world
  marked-Alike p t =
      change-Alike t.world p
        (record (t.world.ran_ues p) { sent_initial_context_setup_request = true }) refl refl

  source-Alike :
      (p u s : ℕ) (t : Turn) → Ends (λ t'. Alike t.world t'.world) (notify_source peers r p u s t)
  unfolding notify_source
  source-Alike p u s t =
      bind-Ends (λ (t1 : Turn). t1.world ≡ t.world) (λ t'. Alike t.world t'.world)
        (complete_each u (t.world.ran_ues p).success_pdu_session_id t)
        (λ t1. attach_or_panic (attach_ran_ue t1.world u p) >>= λ w. some (left t1 w))
        (complete-world u (t.world.ran_ues p).success_pdu_session_id t)
        (λ t1 e.
          bind-Ends (Alike t1.world) (λ t'. Alike t.world t'.world)
            (attach_or_panic (attach_ran_ue t1.world u p)) (λ w. some (left t1 w))
            (attach-Alike t1.world u p)
            (λ w a. Alike-trans t.world w (left t1 w).world (subst (λ v. Alike v w) e a) (
              release-Alike peers (emit (in_world t1 w) (stores_context u)) s release_handover
                successful_handover)))
    where
      left : Turn → World → Turn
      left t1 w =
          send_ue_context_release_command peers (emit (in_world t1 w) (stores_context u)) s
            release_handover successful_handover

  pub notify-Alike :
      (p : ℕ) (t : Turn) → Ends (λ t'. Alike t.world t'.world) (notify_target peers r p t)
  unfolding notify_target
  notify-Alike p t = elim (Option-cases (t.world.ran_ues p).amf_ue) [
    | inl e ↦ rw (Ends, e) (Alike-refl t.world)
    | inr (u, e) ↦ elim (Option-cases (t.world.ran_ues p).source_ue) [
      | inl f ↦ rw (Ends, e, f) (marked-Alike p t)
      | inr (s, f) ↦
          rw (Ends, e, f)
            (bind-Ends (λ t'. Alike t.world t'.world) (λ t'. Alike t.world t'.world)
              (notify_source peers r p u s t) (λ t'. some (mark_set_up peers r p t'))
              (source-Alike p u s t)
              (λ t' a.
                Alike-trans t.world t'.world (mark_set_up peers r p t').world a
                  (marked-Alike p t')))
    ]
  ]

  pub cancel-Alike :
      (p : ℕ) (ies : Ies) (t : Turn) → Alike t.world (cancel_source peers r p ies t).world
  unfolding cancel_source
  cancel-Alike p ies t = elim (Option-cases (t.world.ran_ues p).target_ue) [
    | inl e ↦ rw (cancel_source, e) (Alike-refl t.world)
    | inr (q, e) ↦
        let t1 = cancel_of (t.world.ran_ues p).amf_ue t in
        let c = or_else ies.reason ho_failure_in_target in
        let t2 = send_ue_context_release_command peers t1 q release_handover c in
        rw (cancel_source, e)
          (subst (Alike t.world) (sym (send-world peers t2 (handover_cancel_acknowledge p))) (
            subst (λ w. Alike w t2.world) (cancel_of-world (t.world.ran_ues p).amf_ue t)
              (release-Alike peers t1 q release_handover c)))
  ]
