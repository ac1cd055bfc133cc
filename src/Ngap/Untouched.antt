-- ===== src/Ngap/Untouched.antt =====
-- What the calls to the SMF and the locations leave as it is: the stations, the RanUes but for their
-- own fields, and the identifiers (ngap/handler.go, context/ran_ue.go).
use amf_cdac.Base.{
  ℕ, ◌≡◌, refl, inl, inr, sym, subst, ◌∙◌, Option, none, some, List, [], ◌∷◌, Map, load, Bool-cases,
  Option-cases, nat_eq,
}
use amf_cdac.Types.{RelAction, AccessType, access_type_eq}
use amf_cdac.Ue.{
  SmContext, OnGoingProcedure, nothing, paging, n2_handover, registration_procedure,
  abort_procedure,
}
use amf_cdac.Context.State.{World}
use amf_cdac.Context.Ues.{get_an_type}
use amf_cdac.Ngap.Handing.{cancel_each, cancel_of}
use amf_cdac.Ngap.{
  Turn, Peers, Cause, Effect, send, handover_preparation_failure, emit, in_world, deactivates,
  cancels_handover, ◌>>=◌,
}
use amf_cdac.Ngap.Reading.{Ies}
use amf_cdac.Context.Handover.{with_ran_ue}
use amf_cdac.Ngap.Finding.{
  note_cause, note_release, end_on_going, send_handover_preparation_failure,
}
use amf_cdac.Ngap.Releasing.{deactivate, deactivate_listed, deactivate_each, is_registered}
use amf_cdac.Ngap.Completing.{settle_sessions, settle_by, settle}

-- The property holds of what a step ends in, if it does not panic.
abbrev pub Ends {ℓ} : {A : Type 0} → (A → Type ℓ) → Option A → Type ℓ
Ends P none = Unit
Ends P (some a) = P a

pub bind-Ends {ℓ} :
    {A B : Type 0} (Q : A → Type ℓ) (P : B → Type ℓ) (m : Option A) (f : A → Option B)
    → Ends Q m
    → ((a : A) → Q a → Ends P (f a))
    → Ends P (m >>= f)
bind-Ends Q P none f h k = tt
bind-Ends Q P (some a) f h k = k a h

-- The stations, the RanUes and what identifiers lead to are the same.
pub record Untouched (w w' : World) : Type 0 where
  pub same_ran_ues : w'.ran_ues ≡ w.ran_ues
  pub same_rans : w'.rans ≡ w.rans
  pub same_pool : w'.ran_ue_pool ≡ w.ran_ue_pool
  pub same_flag : w'.enable_db_store ≡ w.enable_db_store

pub Untouched-refl : (w : World) → Untouched w w
Untouched-refl w = record {
  same_ran_ues = refl;
  same_rans = refl;
  same_pool = refl;
  same_flag = refl;
}

pub Untouched-trans : (w v x : World) → Untouched w v → Untouched v x → Untouched w x
Untouched-trans w v x a b = record {
  same_ran_ues = b.same_ran_ues ∙ a.same_ran_ues;
  same_rans = b.same_rans ∙ a.same_rans;
  same_pool = b.same_pool ∙ a.same_pool;
  same_flag = b.same_flag ∙ a.same_flag;
}

abbrev pub Leaves : Turn → Turn → Type 0
Leaves t t' = Untouched t.world t'.world

deactivate-Leaves :
    (u psi : ℕ) (a : AccessType) (t : Turn) → Ends (λ t'. t'.world ≡ t.world) (deactivate u psi a t)
deactivate-Leaves u psi a t = elim (Option-cases (load (t.world.ues u).ran_ue a)) [
  | inl e ↦ rw (Ends, e) tt
  | inr (p, e) ↦ rw (Ends, e) refl
]

pub deactivate_listed-Ends :
    (u : ℕ) (a : AccessType) (sessions : List ℕ) (t : Turn)
    → Ends (λ t'. t'.world ≡ t.world) (deactivate_listed u a sessions t)
unfolding deactivate_listed
deactivate_listed-Ends u a [] t = refl
deactivate_listed-Ends u a (psi ∷ sessions) t =
    elim (Option-cases (load (t.world.ues u).sm_context_list psi)) [
      | inl e ↦ rw (Ends, e) (deactivate_listed-Ends u a sessions t)
      | inr (sm, e) ↦
          rw (Ends, e)
            (bind-Ends (λ t'. t'.world ≡ t.world) (λ t'. t'.world ≡ t.world) (deactivate u psi a t)
              (deactivate_listed u a sessions) (deactivate-Leaves u psi a t)
              (λ t1 h.
                later t1 h (deactivate_listed u a sessions t1)
                  (deactivate_listed-Ends u a sessions t1)))
    ]
  where
    later :
        (t1 : Turn)
        → t1.world ≡ t.world
        → (m : Option Turn) → Ends (λ t'. t'.world ≡ t1.world) m
        → Ends (λ t'. t'.world ≡ t.world) m
    later t1 h none k = tt
    later t1 h (some t') k = k ∙ h

pub deactivate_each-world :
    (u : ℕ) (m : Map ℕ SmContext) (t : Turn) → (deactivate_each u m t).world ≡ t.world
unfolding deactivate_each
deactivate_each-world u [] t = refl
deactivate_each-world u ((psi, sm) ∷ rest) t =
    deactivate_each-world u rest (emit t (deactivates u psi))

pub world-Untouched : (w : World) (t' : Turn) → t'.world ≡ w → Untouched w t'.world
world-Untouched w t' e = subst (Untouched w) (sym e) (Untouched-refl w)

pub world-Leaves :
    (t : Turn) (m : Option Turn) → Ends (λ t'. t'.world ≡ t.world) m → Ends (Leaves t) m
world-Leaves t none h = tt
world-Leaves t (some t') h = world-Untouched t.world t' h

pub end_on_going-Untouched :
    (w : World) (u : ℕ) (a : AccessType) → Ends (Untouched w) (end_on_going w u a)
unfolding end_on_going
end_on_going-Untouched w u a = elim (Option-cases (load (w.ues u).on_going a)) [
  | inl e ↦ rw (Ends, e) tt
  | inr (old, e) ↦
      rw (Ends, e)
        (record { same_ran_ues = refl; same_rans = refl; same_pool = refl; same_flag = refl })
]

module _ (peers : Peers) (r : ℕ) where
  settle_sessions-Leaves :
      (u : ℕ) (ies : Ies) (t : Turn) → Ends (Leaves t) (settle_sessions peers r u ies t)
  unfolding settle_sessions
  settle_sessions-Leaves u ies t = elim (Option-cases ies.sessions) [
    | inr (sessions, e) ↦
        rw (Ends, e)
          (world-Leaves t (deactivate_listed u (t.world.rans r).an_type sessions t)
            (deactivate_listed-Ends u (t.world.rans r).an_type sessions t))
    | inl e ↦ elim (Option-cases (load (t.world.ues u).ran_ue (t.world.rans r).an_type)) [
      | inl f ↦ rw (Ends, e, f) tt
      | inr (q, f) ↦
          let t' = deactivate_each u (t.world.ues u).sm_context_list t in
          rw (Ends, e, f)
            (world-Untouched t.world t' (deactivate_each-world u (t.world.ues u).sm_context_list t))
    ]
  ]

  by_state : (u : ℕ) (ies : Ies) (t : Turn) → Ends (Leaves t) (settle_by peers r nothing u ies t)
  unfolding settle_by
  by_state u ies t = elim (Option-cases (load (t.world.ues u).state (t.world.rans r).an_type)) [
    | inl e ↦ rw (Ends, e) (Untouched-refl t.world)
    | inr (s, e) ↦ elim (Bool-cases (is_registered s)) [
      | inl f ↦ rw (Ends, e, f) (settle_sessions-Leaves u ies t)
      | inr f ↦ rw (Ends, e, f) (Untouched-refl t.world)
    ]
  ]

  settle_by-Leaves :
      (o : OnGoingProcedure) (u : ℕ) (ies : Ies) (t : Turn)
      → Ends (Leaves t) (settle_by peers r o u ies t)
  unfolding settle_by
  settle_by-Leaves n2_handover u ies t =
      bind-Ends (Untouched t.world) (Leaves t)
        (end_on_going t.world u (get_an_type (t.world.ues u))) (λ w. some (in_world t w))
        (end_on_going-Untouched t.world u (get_an_type (t.world.ues u))) (λ w h. h)
  settle_by-Leaves nothing u ies t = by_state u ies t
  settle_by-Leaves paging u ies t = by_state u ies t
  settle_by-Leaves registration_procedure u ies t = by_state u ies t
  settle_by-Leaves abort_procedure u ies t = by_state u ies t

  pub settle-Leaves : (u : ℕ) (ies : Ies) (t : Turn) → Ends (Leaves t) (settle peers r u ies t)
  unfolding settle
  settle-Leaves u ies t =
      elim (Option-cases (load (t.world.ues u).on_going (get_an_type (t.world.ues u)))) [
        | inl e ↦ rw (Ends, e) tt
        | inr (og, e) ↦ rw (Ends, e) (settle_by-Leaves og.procedure u ies t)
      ]

-- What a release command notes is the action at the RanUe, and a cause at a UE.
cause-Untouched : (w : World) (u r : Option ℕ) (c : Cause) → Untouched w (note_cause w u r c)
cause-Untouched w (some u) (some r) c = record {
  same_ran_ues = refl;
  same_rans = refl;
  same_pool = refl;
  same_flag = refl;
}
cause-Untouched w (some u) none c = Untouched-refl w
cause-Untouched w none r c = Untouched-refl w

pub note-Untouched :
    (w : World) (p : ℕ) (a : RelAction) (c : Cause)
    → Untouched
        (with_ran_ue w p (record (w.ran_ues p) { release_action = a }))
        (note_release w p a c)
unfolding note_release
note-Untouched w p a c =
    cause-Untouched (with_ran_ue w p (record (w.ran_ues p) { release_action = a }))
      (w.ran_ues p).amf_ue (w.ran_ues p).ran c

cancel_each-world : (u : ℕ) (m : Map ℕ SmContext) (t : Turn) → (cancel_each u m t).world ≡ t.world
unfolding cancel_each
cancel_each-world u [] t = refl
cancel_each-world u ((psi, sm) ∷ rest) t =
    cancel_each-world u rest (emit t (cancels_handover u psi))

pub cancel_of-world : (o : Option ℕ) (t : Turn) → (cancel_of o t).world ≡ t.world
cancel_of-world none t = refl
cancel_of-world (some u) t = cancel_each-world u (t.world.ues u).sm_context_list t

module _ (peers : Peers) where
  pub send-world : (t : Turn) (e : Effect) → (send peers t e).world ≡ t.world
  send-world t e = elim (Bool-cases (peers.encodes e)) [ inl b ↦ rw b refl | inr b ↦ rw b refl ]

  pub preparation_failure-Leaves :
      (t : Turn) (s : ℕ) (c : Cause)
      → Ends (Leaves t) (send_handover_preparation_failure peers t s c)
  unfolding send_handover_preparation_failure
  preparation_failure-Leaves t s c = elim (Option-cases (t.world.ran_ues s).amf_ue) [
    | inl e ↦ rw (Ends, e) (Untouched-refl t.world)
    | inr (u, e) ↦ elim (Option-cases (t.world.ran_ues s).ran) [
      | inl f ↦ rw (Ends, e, f) tt
      | inr (r, f) ↦
          rw (Ends, e, f)
            (bind-Ends (Untouched t.world) (Leaves t)
              (end_on_going t.world u (t.world.rans r).an_type)
              (λ w. some (send peers (in_world t w) (handover_preparation_failure s c)))
              (end_on_going-Untouched t.world u (t.world.rans r).an_type)
              (λ w h.
                subst (Untouched t.world)
                  (sym (send-world (in_world t w) (handover_preparation_failure s c))) h))
    ]
  ]
