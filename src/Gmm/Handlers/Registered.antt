-- ===== src/Gmm/Handlers/Registered.antt =====
-- What a registration request that is accepted leaves in the UE (gmm/handler.go).
use amf_cdac.Base.{
  ℕ, ◌≤◌, ◌≡◌, ◌⊎◌, refl, inl, inr, Bool, true, false, not, ◌&&◌, Option, none, some, map, nat_beq,
  load, store, arith, Bool-cases, Option-cases, List-cases,
}
use amf_cdac.Types.{AccessType, access_type_eq}
use amf_cdac.Ue.{AmfUe, SecurityCapability, registration_procedure}
use amf_cdac.Ue.Slices.{in_tai_list}
use amf_cdac.Nas.Identity.{guami_beq}
use amf_cdac.Context.State.{World}
use amf_cdac.Context.Guti.{reallocate_guti_to_ue}
use amf_cdac.Gmm.Questions.{Answer, granted, problem, failed}
use amf_cdac.Gmm.Proc.{Proc}
use amf_cdac.Gmm.Callbacks.{put}
use amf_cdac.Gmm.Senders.{send_registration_reject}
use amf_cdac.Gmm.Handlers.{Env, clear_t3513, clear_t3565, ran_ue_of, stop_if_set}
use amf_cdac.Gmm.Handlers.Registering.{
  RegistrationType, initial, mobility_updating, periodic_updating, emergency, reserved,
  other_registration, RequestIdentity, no_identity, suci_identity, guti_identity, pei_identity,
  other_identity, empty_contents, Tsc, RegistrationRequest, Container, undeciphered, undecodable,
  other_message, inner, Registry, distrust, set_registering, open_container, type_number,
  take_identity, is_native, take_key_set, of_models, reject_request, transferred, transfer,
  check_area, take_location, read_request, handle_registration_request,
}
use amf_cdac.Gmm.Handlers.Ensuring.{Ensures, fails-Ensures, stopped-Ensures, IsDistrusted, put-At}

module _ (env : Env) (reg : Registry) (u : ℕ) (a : AccessType) where
  abbrev pub IsListed : ℕ → Type 0
  IsListed t =
      (t ≡ reg.initial_registration)
      ⊎ (t ≡ reg.mobility_registration_updating)
      ⊎ (t ≡ reg.periodic_registration_updating)

  -- The UE as a request leaves it before its location is checked, and after.
  abbrev pub IsRead : AmfUe → Type 0
  IsRead ue =
      IsDistrusted ue
      × (ue.ng_ksi ≤ 6)
      × (ue.ng_ksi_native ≡ true)
      × IsListed ue.registration_type_5gs

  abbrev pub IsPrepared : World → Type 0
  IsPrepared w =
      IsRead (w.ues u)
      × (in_tai_list (w.ues u).tai (map (of_models env reg u a) w.support_tai_lists) ≡ true)

  key_set-bound :
      (tsc : Tsc) (ksi : ℕ) (ue : AmfUe)
      → ksi ≤ 7
      → (take_key_set env reg u a tsc ksi ue).ng_ksi ≤ 6
  unfolding take_key_set
  key_set-bound tsc ksi ue h =
      elim (Bool-cases (is_native env reg u a tsc ue.ng_ksi_native && not (nat_beq ksi 7))) [
        | inl e ↦ rw (take_key_set, e) (ground arith)
        | inr e ↦ rw (take_key_set, e) (omega arith)
      ]

  -- The key set is read last: the UE is distrusted and of a listed type before.
  abbrev IsTyped : AmfUe → Type 0
  IsTyped ue = IsDistrusted ue × IsListed ue.registration_type_5gs

  key_set-IsRead :
      (tsc : Tsc) (ksi : ℕ) (ue : AmfUe)
      → ksi ≤ 7
      → IsTyped ue
      → IsRead (take_key_set env reg u a tsc ksi ue)
  unfolding take_key_set
  key_set-IsRead tsc ksi ue h t =
      let bound = key_set-bound tsc ksi ue h in
      elim (Bool-cases (is_native env reg u a tsc ue.ng_ksi_native && not (nat_beq ksi 7))) [
        | inl e ↦ let b = rw (take_key_set, e) at bound in rw (take_key_set, e) (t.0, b, refl, t.1)
        | inr e ↦ rw (take_key_set, e) (t.0, omega arith, refl, t.1)
      ]

  -- A property of the UE and its tracking area is kept by an update of the UE.
  put-IsPrepared :
      (w : World) (ue : AmfUe)
      → IsRead ue
      → in_tai_list ue.tai (map (of_models env reg u a) w.support_tai_lists) ≡ true
      → IsPrepared (put w u ue)
  put-IsPrepared w ue r t =
      put-At
        (λ x.
          IsRead x × (in_tai_list x.tai (map (of_models env reg u a) w.support_tai_lists) ≡ true))
        w u ue (r, t)

  transferred-Ensures :
      (r : Answer Unit) (w : World)
      → IsPrepared w
      → Ensures IsPrepared (transferred env reg u a r w)
  unfolding transferred Ensures
  transferred-Ensures (granted r) w h = λ s w' never. absurd (cc)
  transferred-Ensures problem w h =
      put-IsPrepared w (record (w.ues u) { security_context_available = false })
        (λ failed_mac. refl, h.0.1, h.0.2, h.0.3) h.1
  transferred-Ensures failed w h = h

  transfer-Ensures : (w : World) → IsPrepared w → Ensures IsPrepared (transfer env reg u a w)
  unfolding transfer Ensures
  transfer-Ensures w h = elim (Bool-cases (w.ues u).serving_amf_changed) [
    | inl e ↦
        rw (Ensures, e)
          (λ missing w1 rely. elim (Bool-cases missing) [
            | inl f ↦ rw (Ensures, f) tt
            | inr f ↦ rw (Ensures, f) (λ r w2 rely2. transferred-Ensures r w2 (rely2 (rely h)))
          ])
    | inr e ↦ rw (Ensures, e) h
  ]

  reject-Ensures : (cause : ℕ) (w : World) → Ensures IsPrepared (reject_request env reg u a cause w)
  reject-Ensures cause w =
      fails-Ensures IsPrepared (send_registration_reject (ran_ue_of w u a) cause "" w)

  check-Ensures :
      (c : Option SecurityCapability) (w : World)
      → IsRead (w.ues u)
      → Ensures IsPrepared (check_area env reg u a c w)
  unfolding check_area
  check-Ensures c w h =
      let tais = map (of_models env reg u a) w.support_tai_lists in
      elim (Bool-cases (in_tai_list (w.ues u).tai tais)) [
        | inl e ↦ rw (check_area, e) (capable c e)
        | inr e ↦ rw (check_area, e) (reject-Ensures env.cause_tracking_area_not_allowed w)
      ]
    where
      capable :
          (c : Option SecurityCapability)
          → in_tai_list (w.ues u).tai (map (of_models env reg u a) w.support_tai_lists) ≡ true
          → Ensures IsPrepared (elim c [
            | none ↦ reject_request env reg u a env.cause_protocol_error w
            | some c ↦
                transfer env reg u a (put w u (record (w.ues u) { ue_security_capability = c }))
          ])
      capable none e = reject-Ensures env.cause_protocol_error w
      capable (some c) e =
          transfer-Ensures (put w u (record (w.ues u) { ue_security_capability = c }))
            (put-IsPrepared w (record (w.ues u) { ue_security_capability = c }) h e)

  location-Ensures :
      (c : Option SecurityCapability) (w : World)
      → IsRead (w.ues u)
      → Ensures IsPrepared (take_location env reg u a w (check_area env reg u a c))
  unfolding take_location Ensures
  location-Ensures c w h = elim (Option-cases (ran_ue_of w u a)) [
    | inl e ↦ rw (take_location, e) tt
    | inr (p, e) ↦
        rw (take_location, e)
          (check-Ensures c (put w u (record (w.ues u) { tai = (w.ran_ues p).tai }))
            (put-At IsRead w u (record (w.ues u) { tai = (w.ran_ues p).tai }) h))
  ]

  identity-Ensures :
      (i : RequestIdentity) (w : World) (k : World → Proc Bool)
      → IsTyped (w.ues u)
      → ((w' : World) → IsTyped (w'.ues u) → Ensures IsPrepared (k w'))
      → Ensures IsPrepared (take_identity env reg u a i w k)
  unfolding take_identity Ensures
  identity-Ensures no_identity w k t h = h w t
  identity-Ensures (suci_identity suci plmn) w k t h =
      h (put w u (record (w.ues u) { suci = suci; plmn_id = plmn }))
        (put-At IsTyped w u (record (w.ues u) { suci = suci; plmn_id = plmn }) t)
  identity-Ensures (guti_identity guami guti) w k t h = elim (List-cases w.served_guami_list) [
    | inl e ↦ rw (Ensures, e) tt
    | inr (served, rest, e) ↦ elim (Bool-cases (guami_beq guami served)) [
      | inl f ↦
          let ue = record (w.ues u) { guti = guti; serving_amf_changed = false } in
          rw (Ensures, e, f) (h (put w u ue) (put-At IsTyped w u ue t))
      | inr f ↦
          let ue = record (w.ues u) { serving_amf_changed = false } in
          rw (Ensures, e, f) (h (put w u ue) (put-At IsTyped w u ue t))
    ]
  ]
  identity-Ensures (pei_identity pei) w k t h =
      h (put w u (record (w.ues u) { pei = pei }))
        (put-At IsTyped w u (record (w.ues u) { pei = pei }) t)
  identity-Ensures other_identity w k t h = h w t
  identity-Ensures empty_contents w k t h = tt

  type-IsListed :
      (t : RegistrationType)
      → (type_number env reg u a t ≡ none)
        ⊎ ((n : ℕ) × (type_number env reg u a t ≡ some n) × IsListed n)
  type-IsListed initial = inr (reg.initial_registration, refl, inl refl)
  type-IsListed mobility_updating = inr (reg.mobility_registration_updating, refl, inr (inl refl))
  type-IsListed periodic_updating = inr (reg.periodic_registration_updating, refl, inr (inr refl))
  type-IsListed emergency = inl refl
  type-IsListed reserved = inr (reg.initial_registration, refl, inl refl)
  type-IsListed (other_registration n) = inr (reg.initial_registration, refl, inl refl)

  read-Ensures :
      (r : RegistrationRequest) (w : World)
      → r.key_set ≤ 7
      → IsDistrusted (w.ues u)
      → Ensures IsPrepared (read_request env reg u a r w)
  unfolding read_request Ensures
  read-Ensures r w bound d =
      let ue1 = record (w.ues u) { registration_request = some r.address } in
      let w1 = put w u ue1 in
      let d1 = put-At IsDistrusted w u ue1 d in
      elim (type-IsListed r.registration_type) [
        | inl e ↦ rw (Ensures, e) tt
        | inr (n, e, listed) ↦
            let ue2 = record (w1.ues u) {
              registration_type_5gs = n;
              identity_type_used_for_registration = r.identity_type;
            } in
            rw (Ensures, e)
              (identity-Ensures r.identity (put w1 u ue2) _ (put-At IsTyped w1 u ue2 (d1, listed))
                (λ w2 t2.
                  let ue3 = take_key_set env reg u a r.tsc r.key_set (w2.ues u) in
                  location-Ensures r.ue_security_capability (put w2 u ue3)
                    (put-At IsRead w2 u ue3 (key_set-IsRead r.tsc r.key_set (w2.ues u) bound t2))))
      ]

  -- The key sets that a request may have in it are three bits.
  abbrev pub IsThreeBits : Option Container → RegistrationRequest → Type 0
  IsThreeBits (some (inner r')) r = (r.key_set ≤ 7) × (r'.key_set ≤ 7)
  IsThreeBits _ r = r.key_set ≤ 7

  container-Ensures :
      (c : Option Container) (r : RegistrationRequest) (w : World)
      → IsThreeBits c r
      → IsDistrusted (w.ues u)
      → Ensures IsPrepared (open_container env reg u a c r w (read_request env reg u a))
  unfolding open_container Ensures
  container-Ensures none r w b d = read-Ensures r w b d
  container-Ensures (some undeciphered) r w b d =
      let ue1 = record (w.ues u) { security_context_available = false } in
      let w1 = put w u ue1 in
      let d1 = put-At IsDistrusted w u ue1 (λ m. refl) in
      let ue2 = record (w1.ues u) { retransmission_of_initial_nas_msg = (w1.ues u).mac_failed } in
      read-Ensures r (put w1 u ue2) b (put-At IsDistrusted w1 u ue2 d1)
  container-Ensures (some undecodable) r w b d = tt
  container-Ensures (some other_message) r w b d = tt
  container-Ensures (some (inner r')) r w b d =
      let ue1 = record (w.ues u) { retransmission_of_initial_nas_msg = (w.ues u).mac_failed } in
      read-Ensures r' (put w u ue1) b.1 (put-At IsDistrusted w u ue1 d)

  registering-Ensures :
      (w : World) (k : World → Proc Bool)
      → IsDistrusted (w.ues u)
      → ((w' : World) → IsDistrusted (w'.ues u) → Ensures IsPrepared (k w'))
      → Ensures IsPrepared (set_registering env reg u a w k)
  unfolding set_registering Ensures
  registering-Ensures w k d h = elim (Option-cases (load (w.ues u).on_going a)) [
    | inl e ↦ rw (Ensures, e) tt
    | inr (old, e) ↦
        let ue = record (w.ues u) {
          on_going =
              store (w.ues u).on_going a (record { procedure = registration_procedure; ppi = 0 });
        } in
        rw (Ensures, e) (h (put w u ue) (put-At IsDistrusted w u ue d))
  ]

  distrust-cases :
      (w : World)
      → (distrust env reg u a w ≡ none)
        ⊎ ((w' : World) × (distrust env reg u a w ≡ some w') × IsDistrusted (w'.ues u))
  unfolding distrust
  distrust-cases w = elim (Bool-cases (w.ues u).mac_failed) [
    | inl e ↦ elim (Option-cases (reallocate_guti_to_ue reg.generators w u)) [
      | inl f ↦ inl (rw (e, f) refl)
      | inr (w', f) ↦
          let ue = record (w'.ues u) { security_context_available = false } in
          inr (put w' u ue, rw (e, f) refl, put-At IsDistrusted w' u ue (λ m. refl))
    ]
    | inr e ↦ inr (w, rw e refl, λ m. absurd (ground arith))
  ]

  -- HandleRegistrationRequest, when it returns without an error, has prepared the UE: its key set
  -- identifier is native and at most 6, its registration type is the initial one or one of the two
  -- updates, its tracking area is a supported one, and a UE whose message failed its integrity check
  -- has no security context. It takes key sets of three bits in the message and in its container,
  -- other parts that keep these, and no context copied from another AMF.
  pub registration_request-Prepared :
      (c : Option Container) (r : RegistrationRequest) (w : World)
      → IsThreeBits c r
      → Ensures IsPrepared (handle_registration_request env reg u a c r w)
  unfolding handle_registration_request clear_t3513 clear_t3565 Ensures
  registration_request-Prepared c r w b = elim (Option-cases (ran_ue_of w u a)) [
    | inl e ↦ rw (Ensures, e) tt
    | inr (p, e) ↦ elim (distrust-cases w) [
      | inl f ↦ rw (Ensures, e, f) tt
      | inr (w1, f, d) ↦
          rw (Ensures, e, f)
            (registering-Ensures w1 _ d (λ w2 d2.
              let ue3 = record (w2.ues u) { t3513 = none } in
              let w3 = put w2 u ue3 in
              let ue4 = record (w3.ues u) { t3565 = none } in
              let d4 = put-At IsDistrusted w3 u ue4 (put-At IsDistrusted w2 u ue3 d2) in
              stopped-Ensures IsPrepared (stop_if_set (w2.ues u).t3513) _ (
                stopped-Ensures IsPrepared (stop_if_set (w3.ues u).t3565) _
                  (container-Ensures c r (put w3 u ue4) b d4))))
    ]
  ]
