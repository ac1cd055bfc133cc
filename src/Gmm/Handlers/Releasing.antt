-- ===== src/Gmm/Handlers/Releasing.antt =====
-- The sessions that the handlers release, and the slices that stay allowed (gmm/handler.go).
use amf_cdac.Base.{
  ℕ, ◌≡◌, ◌⊎◌, inl, inr, sym, subst, ap, ◌∙◌, Bool, true, false, none, [], ◌∷◌, ◌==◌, string_eq,
  nat_eq, Map, Among, arith, Bool-cases,
}
use amf_cdac.Types.{
  AccessType, access_type_eq, AccessType_beq_iff, Snssai, Snssai_beq_iff, snssai_eq,
}
use amf_cdac.Ue.{SmContext, NasAccess}
use amf_cdac.Context.State.{World}
use amf_cdac.Gmm.Questions.{Question, Reply, releases_sm_context}
use amf_cdac.Gmm.Proc.{Proc, returns, panics, hangs, sends, sends_to, asks}
use amf_cdac.Gmm.Handlers.Leaving.{release_sessions, handle_deregistration_request, is_both}
use amf_cdac.Gmm.Handlers.Slices.{release_slice, is_failed, handle_ue_slice_info_delete}

-- The question is asked along every path that returns.
unfoldable pub Always : Question → {A : Type 0} → Proc A → Type 0
Always q (returns a w) = false ≡ true
Always q panics = Unit
Always q hangs = Unit
Always q (sends e args w next) = (failed : Bool) (w' : World) → Always q (next failed w')
Always q (sends_to a e args w next) = (failed : Bool) (w' : World) → Always q (next failed w')
Always q (asks asked w next) = (asked ≡ q) ⊎ ((r : Reply asked) (w' : World) → Always q (next r w'))

release_sessions-Always :
    (test : SmContext → Bool) (u psi : ℕ) (sm : SmContext) (m : Map ℕ SmContext) (w : World)
    (k : World → Proc Bool)
    → Among (psi, sm) m
    → test sm ≡ true
    → Always (releases_sm_context u psi none) (release_sessions test u m w k)
unfolding release_sessions Always
release_sessions-Always test u psi sm [] w k h t = absurd (ground arith)
release_sessions-Always test u psi sm ((i, s) ∷ rest) w k (inl e) t =
    let f : test s ≡ true = subst (λ (x : ℕ × SmContext). test x.1 ≡ true) e t in
    let same = ap (λ (x : ℕ × SmContext). releases_sm_context u x.0 none) (sym e) in
    rw (Always, f) (inl same)
release_sessions-Always test u psi sm ((i, s) ∷ rest) w k (inr h) t = elim (Bool-cases (test s)) [
  | inl f ↦ rw (Always, f) (inr (λ r w'. release_sessions-Always test u psi sm rest w' k h t))
  | inr f ↦ rw (Always, f) (release_sessions-Always test u psi sm rest w k h t)
]

release_slice-Always :
    (u psi : ℕ) (n : Snssai) (sm : SmContext) (m : Map ℕ SmContext) (err : Bool) (w : World)
    (k : Bool → World → Proc Bool)
    → Among (psi, sm) m
    → sm.snssai ≡ n
    → Always (releases_sm_context u psi none) (release_slice u n m err w k)
unfolding release_slice Always
release_slice-Always u psi n sm [] err w k h t = absurd (ground arith)
release_slice-Always u psi n sm ((i, s) ∷ rest) err w k (inl e) t =
    let same : s.snssai ≡ n = sym (ap (λ (x : ℕ × SmContext). x.1.snssai) e) ∙ t in
    let f = (Snssai_beq_iff s.snssai n).1 same in
    let asked = ap (λ (x : ℕ × SmContext). releases_sm_context u x.0 none) (sym e) in
    rw (Always, f) (inl asked)
release_slice-Always u psi n sm ((i, s) ∷ rest) err w k (inr h) t =
    elim (Bool-cases (s.snssai == n)) [
      | inl f ↦
          rw (Always, f) (inr (λ r w'. release_slice-Always u psi n sm rest (is_failed r) w' k h t))
      | inr f ↦ rw (Always, f) (release_slice-Always u psi n sm rest err w k h t)
    ]

-- A request to deregister has every session released that is over the access of the message, or
-- every session at all when the request is for both accesses: for each such session of the UE, the
-- release is asked for on every path on which the handler returns.
pub deregistration-Always :
    (u : ℕ) (a : AccessType) (target : NasAccess) (switch_off : Bool) (w : World) (psi : ℕ)
    (sm : SmContext)
    → Among (psi, sm) (w.ues u).sm_context_list
    → (sm.access_type ≡ a) ⊎ (is_both target ≡ true)
    → Always
        (releases_sm_context u psi none)
        (handle_deregistration_request u a target switch_off w)
unfolding handle_deregistration_request
deregistration-Always u a target switch_off w psi sm h t =
    release_sessions-Always _ u psi sm (w.ues u).sm_context_list w _ h
      (ground (arith, AccessType_beq_iff sm.access_type a))

-- When a slice is deleted, every session of the slice that the UE has is released: the release is
-- asked for on every path on which the handler returns.
pub slice_delete-Always :
    (u : ℕ) (a : AccessType) (n : Snssai) (w : World) (psi : ℕ) (sm : SmContext)
    → Among (psi, sm) (w.ues u).sm_context_list
    → sm.snssai ≡ n
    → Always (releases_sm_context u psi none) (handle_ue_slice_info_delete u a n w)
unfolding handle_ue_slice_info_delete
slice_delete-Always u a n w psi sm h t =
    release_slice-Always u psi n sm (w.ues u).sm_context_list false w _ h t
