-- ===== src/Gmm/Handlers/Requested.antt =====
-- The slices that are allowed and rejected after a registration request (gmm/handler.go).
mod Examples
use amf_cdac.Base.{
  ℕ, ◌≡◌, ◌⊎◌, refl, inl, inr, sym, subst, ◌∙◌, Bool, true, false, not, ◌&&◌, none, some, List, [],
  ◌∷◌, ◌++◌, Map, All, All-append, Among, Among-append, map, nat_beq, load, store, load-store,
  arith, Bool-cases, Option-cases, List-cases, if◌then◌else◌,
}
use amf_cdac.Types.{AccessType, access_type_eq, AccessType_beq_iff, Snssai, SubscribedSnssai}
use amf_cdac.Ue.Slices.{in_subscribed_nssai, in_plmn_support_list}
use amf_cdac.Ue.Slices.Membership.{Matches, Selected, in_subscribed-Selected}
use amf_cdac.Context.State.{World}
use amf_cdac.Gmm.Proc.{Proc}
use amf_cdac.Gmm.Callbacks.{put}
use amf_cdac.Gmm.Senders.{send_registration_reject}
use amf_cdac.Gmm.Handlers.{Env, ran_ue_of}
use amf_cdac.Gmm.Handlers.Slices.{allowed, set_allowed}
use amf_cdac.Gmm.Handlers.Requesting.{
  RequestedNssai, not_requested, undecodable, requested, Sorting, slices_of, sort_one,
  sort_requested, add_defaults, rejected, set_rejected, take_defaults, take_requested, take_request,
  handle_requested_nssai,
}
use amf_cdac.Gmm.Handlers.Ensuring.{Ensures, fails-Ensures, put-At}
use amf_cdac.Gmm.Handlers.Sorting.{
  IsGranted, IsAnswered, IsSorted, All-Among, sort_requested-IsSorted, add_defaults-IsGranted,
  IsAnswered-more,
}

abbrev pub requested_slices : RequestedNssai → List Snssai
requested_slices (requested ts) = ts
requested_slices _ = []

abbrev entry : Map AccessType (List Snssai) → AccessType → List Snssai
entry m a = elim (load m a) [ none ↦ [] | some ss ↦ ss ]

entry-store :
    (m : Map AccessType (List Snssai)) (a : AccessType) (ss : List Snssai)
    → entry (store m a ss) a ≡ ss
entry-store m a ss = ground (arith, load-store m a a ss, AccessType_beq_iff a a)

module _ (u : ℕ) (a : AccessType) where
  allowed-set_allowed : (w : World) (ss : List Snssai) → allowed (set_allowed w u a ss) u a ≡ ss
  allowed-set_allowed w ss =
      put-At (λ ue. entry ue.allowed_nssai a ≡ ss) w u
        (record (w.ues u) { allowed_nssai = store (w.ues u).allowed_nssai a ss })
        (entry-store (w.ues u).allowed_nssai a ss)

  rejected-set_allowed :
      (w : World) (ss : List Snssai) → rejected (set_allowed w u a ss) u a ≡ rejected w u a
  rejected-set_allowed w ss =
      put-At (λ ue. entry ue.rejected_nssai a ≡ rejected w u a) w u
        (record (w.ues u) { allowed_nssai = store (w.ues u).allowed_nssai a ss }) refl

  rejected-set_rejected : (w : World) (ss : List Snssai) → rejected (set_rejected w u a ss) u a ≡ ss
  rejected-set_rejected w ss =
      put-At (λ ue. entry ue.rejected_nssai a ≡ ss) w u
        (record (w.ues u) { rejected_nssai = store (w.ues u).rejected_nssai a ss })
        (entry-store (w.ues u).rejected_nssai a ss)

  allowed-set_rejected :
      (w : World) (ss : List Snssai) → allowed (set_rejected w u a ss) u a ≡ allowed w u a
  allowed-set_rejected w ss =
      put-At (λ ue. entry ue.allowed_nssai a ≡ allowed w u a) w u
        (record (w.ues u) { rejected_nssai = store (w.ues u).rejected_nssai a ss }) refl

  subscribed-set_allowed :
      (w : World) (ss : List Snssai)
      → ((set_allowed w u a ss).ues u).subscribed_nssai ≡ (w.ues u).subscribed_nssai
  subscribed-set_allowed w ss =
      put-At (λ ue. ue.subscribed_nssai ≡ (w.ues u).subscribed_nssai) w u
        (record (w.ues u) { allowed_nssai = store (w.ues u).allowed_nssai a ss }) refl

  subscribed-set_rejected :
      (w : World) (ss : List Snssai)
      → ((set_rejected w u a ss).ues u).subscribed_nssai ≡ (w.ues u).subscribed_nssai
  subscribed-set_rejected w ss =
      put-At (λ ue. ue.subscribed_nssai ≡ (w.ues u).subscribed_nssai) w u
        (record (w.ues u) { rejected_nssai = store (w.ues u).rejected_nssai a ss }) refl

module _ (env : Env) (u : ℕ) (a : AccessType) (old : List Snssai)
    (sub : List SubscribedSnssai) where
  abbrev pub HasSorted : List Snssai → World → Type 0
  HasSorted ts w = IsSorted old (slices_of sub) ts (allowed w u a) (rejected w u a)

  HasSorted-lists :
      (ts : List Snssai) (w : World) (al re : List Snssai)
      → allowed w u a ≡ al
      → rejected w u a ≡ re
      → IsSorted old (slices_of sub) ts al re
      → HasSorted ts w
  HasSorted-lists ts w al re e f h =
      subst (λ x. IsSorted old (slices_of sub) ts x (rejected w u a)) (sym e)
        (subst (IsSorted old (slices_of sub) ts al) (sym f) h)

  take_defaults-Ensures :
      (ts : List Snssai) (w : World)
      → (w.ues u).subscribed_nssai ≡ sub
      → HasSorted ts w
      → Ensures (HasSorted ts) (take_defaults env u a w)
  unfolding take_defaults Ensures
  take_defaults-Ensures ts w e h = elim (List-cases (allowed w u a)) [
    | inl none_yet ↦
        let support = w.plmn_support_list in
        let ss = add_defaults support (w.ues u).subscribed_nssai [] in
        let granted : All (IsGranted old (slices_of sub)) ss =
          rw e (add_defaults-IsGranted support old (slices_of sub) sub [] (λ s i. i) tt) in
        let answered = subst (λ al. All (IsAnswered al (rejected w u a)) ts) none_yet h.2 in
        let sorted : IsSorted old (slices_of sub) ts ss (rejected w u a) =
          (granted, h.1, IsAnswered-more ss (rejected w u a) ts answered) in
        rw (Ensures, none_yet)
          (HasSorted-lists ts (set_allowed w u a ss) ss (rejected w u a)
            (allowed-set_allowed u a w ss) (rejected-set_allowed u a w ss) sorted)
    | inr (s, ss, some_yet) ↦ rw (Ensures, some_yet) h
  ]

  take_requested-Ensures :
      (ts : List Snssai) (w : World)
      → (w.ues u).subscribed_nssai ≡ sub
      → allowed w u a ≡ old
      → rejected w u a ≡ []
      → Ensures (HasSorted ts) (take_requested env u a ts w)
  unfolding take_requested Ensures
  take_requested-Ensures ts w e f g =
      let start : Sorting = record {
        allowed = allowed w u a;
        rejected = rejected w u a;
        disabled = false;
      } in
      let st = sort_requested (slices_of (w.ues u).subscribed_nssai) ts start in
      let w1 = set_allowed w u a st.allowed in
      let w2 = set_rejected w1 u a st.rejected in
      elim (Bool-cases st.disabled) [
        | inl on ↦ rw on (
            take_defaults-Ensures ts w2
              (subscribed-set_rejected u a w1 st.rejected
                ∙ subscribed-set_allowed u a w st.allowed
                ∙ e)
              (HasSorted-lists ts w2 st.allowed st.rejected
                (allowed-set_rejected u a w1 st.rejected ∙ allowed-set_allowed u a w st.allowed)
                (rejected-set_rejected u a w1 st.rejected)
                (subst (λ x. IsSorted old (slices_of x) ts st.allowed st.rejected) e
                  (sort_requested-IsSorted old (slices_of (w.ues u).subscribed_nssai) ts start f
                    g))))
        | inr off ↦ rw off (
            fails-Ensures (HasSorted ts) (
              send_registration_reject (ran_ue_of w2 u a) env.cause_5gs_services_not_allowed "" w2))
      ]

  take_request-Ensures :
      (r : RequestedNssai) (w : World)
      → (w.ues u).subscribed_nssai ≡ sub
      → allowed w u a ≡ old
      → rejected w u a ≡ []
      → Ensures (HasSorted (requested_slices r)) (take_request env u a r w)
  unfolding take_request Ensures
  take_request-Ensures not_requested w e f g =
      let granted = All-Among (IsGranted old (slices_of sub)) old (λ s i. inl i) in
      take_defaults-Ensures [] w e (HasSorted-lists [] w old [] f g (granted, tt, tt))
  take_request-Ensures undecodable w e f g = tt
  take_request-Ensures (requested ts) w e f g = take_requested-Ensures ts w e f g

-- When the slices of a registration request are accepted, every allowed slice is subscribed or was
-- allowed before, every rejected one was requested and is matched by no subscribed slice, and of
-- the requested slices each is rejected or matched by an allowed one. A request without slices, by
-- which nothing is rejected, counts as one with an empty list.
pub requested_nssai-HasSorted :
    (env : Env) (u : ℕ) (a : AccessType) (r : RequestedNssai) (w : World)
    → Ensures
        (HasSorted env u a (allowed w u a) (w.ues u).subscribed_nssai (requested_slices r))
        (handle_requested_nssai env u a r w)
unfolding handle_requested_nssai Ensures
requested_nssai-HasSorted env u a r w = elim (Option-cases (w.ues u).registration_request) [
  | inl e ↦ rw (Ensures, e) tt
  | inr (q, e) ↦
      rw (Ensures, e)
        (take_request-Ensures env u a (allowed w u a) (w.ues u).subscribed_nssai r
          (set_rejected w u a []) (subscribed-set_rejected u a w []) (allowed-set_rejected u a w [])
          (rejected-set_rejected u a w []))
]
