-- ===== src/Ngap/Deactivating.antt =====
-- The SMF is told of the sessions of a UE to the end (ngap/handler.go,
-- HandleUEContextReleaseRequest).
use amf_cdac.Base.{
  ℕ, ◌≡◌, ◌≢◌, refl, inl, inr, sym, subst, Option, none, some, List, [], ◌∷◌, Map, load, Bool-cases,
  Option-cases, nat_eq, string_eq,
}
use amf_cdac.Types.{AccessType, access_type_eq}
use amf_cdac.Ue.{SmContext}
use amf_cdac.Context.State.{World}
use amf_cdac.Ngap.{Turn, ◌>>=◌}
use amf_cdac.Ngap.Releasing.{deactivate, deactivate_listed, deactivate_active}

-- The step comes to an end, in a state that has the property.
abbrev pub Comes : (Turn → Type 0) → Option Turn → Type 0
Comes P none = ⊥
Comes P (some t) = P t

pub bind-Comes :
    (Q P : Turn → Type 0) (m : Option Turn) (f : Turn → Option Turn)
    → Comes Q m
    → ((t : Turn) → Q t → Comes P (f t))
    → Comes P (m >>= f)
bind-Comes Q P none f h k = absurd h
bind-Comes Q P (some t) f h k = k t h

-- The UE has a RanUe at the station's access type.
abbrev pub HasRanUe : World → ℕ → AccessType → Type 0
HasRanUe w u a = load (w.ues u).ran_ue a ≢ none

deactivate-Comes :
    (u psi : ℕ) (a : AccessType) (t : Turn)
    → HasRanUe t.world u a
    → Comes (λ t'. t'.world ≡ t.world) (deactivate u psi a t)
deactivate-Comes u psi a t has = elim (Option-cases (load (t.world.ues u).ran_ue a)) [
  | inl e ↦ absurd (has e)
  | inr (p, e) ↦ rw (Comes, e) refl
]

listed-Comes :
    (u : ℕ) (a : AccessType) (sessions : List ℕ) (t : Turn)
    → HasRanUe t.world u a
    → Comes (λ t'. Unit) (deactivate_listed u a sessions t)
unfolding deactivate_listed
listed-Comes u a [] t has = tt
listed-Comes u a (psi ∷ sessions) t has =
    elim (Option-cases (load (t.world.ues u).sm_context_list psi)) [
      | inl e ↦ rw (Comes, e) (listed-Comes u a sessions t has)
      | inr (sm, e) ↦
          rw (Comes, e)
            (bind-Comes (λ t'. t'.world ≡ t.world) (λ t'. Unit) (deactivate u psi a t)
              (deactivate_listed u a sessions) (deactivate-Comes u psi a t has)
              (λ t' k. listed-Comes u a sessions t' (subst (λ w. HasRanUe w u a) (sym k) has)))
    ]

active-Comes :
    (u : ℕ) (a : AccessType) (m : Map ℕ SmContext) (t : Turn)
    → HasRanUe t.world u a
    → Comes (λ t'. Unit) (deactivate_active u a m t)
unfolding deactivate_active
active-Comes u a [] t has = tt
active-Comes u a ((psi, sm) ∷ rest) t has = elim (Bool-cases sm.pdu_session_inactive_val) [
  | inl e ↦ rw (Comes, e) tt
  | inr e ↦
      rw (Comes, e)
        (bind-Comes (λ t'. t'.world ≡ t.world) (λ t'. Unit) (deactivate u psi a t)
          (deactivate_active u a rest) (deactivate-Comes u psi a t has)
          (λ t' k. active-Comes u a rest t' (subst (λ w. HasRanUe w u a) (sym k) has)))
]

abbrev pub told : Option (List ℕ) → ℕ → AccessType → Turn → Option Turn
told o u a t = elim o [
  | some sessions ↦ deactivate_listed u a sessions t
  | none ↦ deactivate_active u a (t.world.ues u).sm_context_list t
]

pub told-Comes :
    (o : Option (List ℕ)) (u : ℕ) (a : AccessType) (t : Turn)
    → HasRanUe t.world u a
    → Comes (λ t'. Unit) (told o u a t)
told-Comes none u a t has = active-Comes u a (t.world.ues u).sm_context_list t has
told-Comes (some sessions) u a t has = listed-Comes u a sessions t has
