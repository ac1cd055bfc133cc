-- ===== src/Ngap/Straying.antt =====
-- A release complete from another station than the one that lists the RanUe (ngap/handler.go,
-- HandleUEContextReleaseComplete).
use amf_cdac.Base.{
  ℕ, ◌≡◌, ◌≢◌, refl, sym, subst, ap, ◌∙◌, true, Option, none, some, [], ◌∷◌, load, arith, nat_eq,
  nat_beq_iff, elem,
}
use amf_cdac.Types.{RelAction, n2_normal_release}
use amf_cdac.Context.State.{RanUe, AmfRan, World}
use amf_cdac.Context.Ran.{remove_ran_ue}
use amf_cdac.Context.Ran.Links.{Linked}
use amf_cdac.Ngap.{amf_ue_ngap_id, Peers, Turn, start, in_world}
use amf_cdac.Ngap.Reading.{Ies, no_ies, read_ies}
use amf_cdac.Ngap.Releasing.{set_ran}
use amf_cdac.Ngap.Completing.{
  settle, forget_cause, by_action, release_of, release_found, complete_by,
  handle_ue_context_release_complete,
}
use amf_cdac.Ngap.Untouched.{Ends, bind-Ends, Leaves, settle-Leaves}
use amf_cdac.Ngap.Doomed.{set_ran-at}
use amf_cdac.Ngap.Released.{complete-read, complete-id}

-- The RanUe is listed at one station, and refers to another.
pub record IsStray (w : World) (p s r : ℕ) : Type 0 where
  kept : elem p (w.rans s).ran_ue_list ≡ true
  elsewhere : (w.ran_ues p).ran ≡ some r

stray-breaks : (w : World) (p s r : ℕ) → r ≢ s → IsStray w p s r → ¬ Linked w
stray-breaks w p s r apart h l =
    let own = l.listed s p h.kept in let away = h.elsewhere in ground (arith)

removed-IsStray :
    (w : World) (p s r : ℕ) → r ≢ s → IsStray w p s r → IsStray (remove_ran_ue w p).1 p s r
unfolding remove_ran_ue
removed-IsStray w p s r apart h = record {
  kept = ground (arith, h.kept, h.elsewhere, nat_beq_iff r s);
  elsewhere = ground (arith, h.elsewhere);
}

module _ (peers : Peers) (r s p : ℕ) (ies : Ies) (apart : r ≢ s) where
  release_of-IsStray :
      (o : Option ℕ) (t : Turn)
      → (t.world.ran_ues p).release_action ≡ n2_normal_release
      → IsStray t.world p s r
      → Ends (λ t'. IsStray t'.world p s r) (release_of peers r o p ies t)
  unfolding release_of
  release_of-IsStray none t e h = removed-IsStray t.world p s r apart h
  release_of-IsStray (some u) t e h =
      bind-Ends (Leaves t) (λ t'. IsStray t'.world p s r) (settle peers r u ies t)
        (λ t1.
          let t2 = forget_cause peers r u t1 in
          by_action peers r (t2.world.ran_ues p).release_action p u t2)
        (settle-Leaves peers r u ies t)
        (λ t1 k.
          let t2 = forget_cause peers r u t1 in
          let same = ap (λ (f : ℕ → RanUe). f p) k.same_ran_ues in
          let still : IsStray t2.world p s r = record {
            kept = ap (λ (f : ℕ → AmfRan). elem p (f s).ran_ue_list) k.same_rans ∙ h.kept;
            elsewhere = ap (λ (x : RanUe). x.ran) same ∙ h.elsewhere;
          } in
          by_normal u t2 (t2.world.ran_ues p).release_action
            (ap (λ (x : RanUe). x.release_action) same ∙ e) still)
    where
      by_normal :
          (u : ℕ) (t : Turn) (a : RelAction)
          → a ≡ n2_normal_release
          → IsStray t.world p s r
          → Ends (λ t'. IsStray t'.world p s r) (by_action peers r a p u t)
      by_normal u t a e h =
          subst (λ a. Ends (λ t'. IsStray t'.world p s r) (by_action peers r a p u t)) (sym e)
            (unfold by_action in removed-IsStray t.world p s r apart h)

  found-IsStray :
      (t : Turn)
      → (t.world.ran_ues p).release_action ≡ n2_normal_release
      → elem p (t.world.rans s).ran_ue_list ≡ true
      → Ends (λ t'. IsStray t'.world p s r) (release_found peers r p ies t)
  unfolding release_found
  found-IsStray t e listed =
      let t1 = in_world t (set_ran t.world p r) in
      let at_p = set_ran-at t.world p r in
      release_of-IsStray (t1.world.ran_ues p).amf_ue t1
        (ap (λ (x : RanUe). x.release_action) at_p ∙ e)
        (record { kept = listed; elsewhere = ap (λ (x : RanUe). x.ran) at_p })

-- A release complete from another station than one that lists the RanUe breaks the links between
-- stations and RanUes when it is handled to its end. It gives only the AMF's identifier, under which
-- the pool holds the RanUe, and the release is a normal one.
pub release-strays :
    (peers : Peers) (r s id p : ℕ) (w : World) (t' : Turn)
    → r ≢ s
    → load w.ran_ue_pool id ≡ some p
    → elem p (w.rans s).ran_ue_list ≡ true
    → (w.ran_ues p).release_action ≡ n2_normal_release
    → handle_ue_context_release_complete peers r (amf_ue_ngap_id (some id) ∷ []) (start w) ≡ some t'
    → ¬ Linked t'.world
release-strays peers r s id p w t' apart found listed normal e =
    let ies = record no_ies { amf_id = some id } in
    let same =
      complete-read peers r (amf_ue_ngap_id (some id) ∷ []) ies (start w) (unfold read_ies in refl)
      ∙ complete-id peers r id p ies w found in
    let by : Ends (λ t'. IsStray t'.world p s r) (complete_by peers r (some p, w) ies (start w)) =
      unfold complete_by in found-IsStray peers r s p ies apart (start w) normal listed in
    stray-breaks t'.world p s r apart
      (subst (Ends (λ (x : Turn). IsStray x.world p s r)) (sym same ∙ e) by)
