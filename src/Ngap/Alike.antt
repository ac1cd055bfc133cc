-- ===== src/Ngap/Alike.antt =====
-- Steps of the handlers that leave every RanUe at its station and under its identifier
-- (ngap/handler.go, ngap/message/send.go, context/ran_ue.go).
use amf_cdac.Base.{
  ℕ, ◌≡◌, refl, inl, inr, sym, ◌∙◌, Bool, true, false, Option, none, some, List, [], ◌∷◌, store,
  if◌then◌else◌, arith, Bool-cases, nat_eq, nat_beq_iff,
}
use amf_cdac.Types.{RelAction, Tai, access_type_eq}
use amf_cdac.Ue.{AmfUe}
use amf_cdac.Context.State.{RanUe, World, Outcome, done, error, panics}
use amf_cdac.Context.Ids.{ngap_id_in_use}
use amf_cdac.Context.Ran.{attach_ran_ue}
use amf_cdac.Context.Ran.Links.{Linked}
use amf_cdac.Context.Handover.{with_ran_ue}
use amf_cdac.Ngap.{
  ue_context_release_command, Cause, UserLocation, eutra, nr, n3iwf, no_location, Peers, Turn,
}
use amf_cdac.Ngap.Finding.{
  with_ue, set_ue_tai, set_tai, update_location, update_location_if, note_cause, note_release,
  send_ue_context_release_command,
}
use amf_cdac.Ngap.Handing.{attach_or_panic}
use amf_cdac.Ngap.Untouched.{Ends}

-- The stations, the pool and the identifiers are the same, and each RanUe has its station and its
-- identifier.
pub record Alike (w w' : World) : Type 0 where
  pub same_ran : (p : ℕ) → (w'.ran_ues p).ran ≡ (w.ran_ues p).ran
  pub same_id : (p : ℕ) → (w'.ran_ues p).amf_ue_ngap_id ≡ (w.ran_ues p).amf_ue_ngap_id
  pub same_rans : w'.rans ≡ w.rans
  pub same_pool : w'.ran_ue_pool ≡ w.ran_ue_pool
  pub same_flag : w'.enable_db_store ≡ w.enable_db_store
  pub same_next : w'.next_ran_ue ≡ w.next_ran_ue
  pub same_used : (i : ℕ) → ngap_id_in_use i w' ≡ ngap_id_in_use i w

pub Alike-refl : (w : World) → Alike w w
Alike-refl w = record {
  same_ran = λ p. refl;
  same_id = λ p. refl;
  same_rans = refl;
  same_pool = refl;
  same_flag = refl;
  same_next = refl;
  same_used = λ i. refl;
}

pub Alike-trans : (w v x : World) → Alike w v → Alike v x → Alike w x
Alike-trans w v x a b = record {
  same_ran = λ p. b.same_ran p ∙ a.same_ran p;
  same_id = λ p. b.same_id p ∙ a.same_id p;
  same_rans = b.same_rans ∙ a.same_rans;
  same_pool = b.same_pool ∙ a.same_pool;
  same_flag = b.same_flag ∙ a.same_flag;
  same_next = b.same_next ∙ a.same_next;
  same_used = λ i. b.same_used i ∙ a.same_used i;
}

pub Alike-Linked : (w w' : World) → Alike w w' → Linked w → Linked w'
Alike-Linked w w' a h = record {
  listed = λ r p e. a.same_ran p ∙ h.listed r p (rw (sym a.same_rans) e);
  listed_once = λ r. rw a.same_rans (h.listed_once r);
  listed_old = λ r p e. rw a.same_next (h.listed_old r p (rw (sym a.same_rans) e));
  pooled = λ i p e. a.same_id p ∙ h.pooled i p (rw (sym a.same_pool) e);
  pooled_old = λ i p e. rw a.same_next (h.pooled_old i p (rw (sym a.same_pool) e));
  pooled_in_use = λ i p e. a.same_used i ∙ h.pooled_in_use i p (rw (sym a.same_pool) e);
}

pub change-Alike :
    (w : World) (p : ℕ) (x : RanUe)
    → x.ran ≡ (w.ran_ues p).ran
    → x.amf_ue_ngap_id ≡ (w.ran_ues p).amf_ue_ngap_id
    → Alike w (with_ran_ue w p x)
change-Alike w p x e f = record {
  same_ran = λ q. ground (arith, nat_beq_iff p q);
  same_id = λ q. ground (arith, nat_beq_iff p q);
  same_rans = refl;
  same_pool = refl;
  same_flag = refl;
  same_next = refl;
  same_used = λ i. refl;
}

-- The UEs are no part of it.
pub with_ue-Alike : (w : World) (u : ℕ) (ue : AmfUe) → Alike w (with_ue w u ue)
with_ue-Alike w u ue = record {
  same_ran = λ p. refl;
  same_id = λ p. refl;
  same_rans = refl;
  same_pool = refl;
  same_flag = refl;
  same_next = refl;
  same_used = λ i. refl;
}

pub attached-Alike : (w w' : World) (u p : ℕ) → attach_ran_ue w u p ≡ done w' → Alike w w'
unfolding attach_ran_ue
attached-Alike w w' u p e = record {
  same_ran = λ q. ground (arith, nat_beq_iff p q);
  same_id = λ q. ground (arith, nat_beq_iff p q);
  same_rans = ground (arith);
  same_pool = ground (arith);
  same_flag = ground (arith);
  same_next = ground (arith);
  same_used = λ i. ground (arith);
}

attach_or_panic-Alike :
    (w : World) (o : Outcome)
    → ((w' : World) → o ≡ done w' → Alike w w')
    → Ends (Alike w) (attach_or_panic o)
attach_or_panic-Alike w (done w') h = h w' refl
attach_or_panic-Alike w error h = tt
attach_or_panic-Alike w panics h = tt

pub attach-Alike : (w : World) (u p : ℕ) → Ends (Alike w) (attach_or_panic (attach_ran_ue w u p))
attach-Alike w u p =
    attach_or_panic-Alike w (attach_ran_ue w u p) (λ w' e. attached-Alike w w' u p e)

set_ue_tai-Alike :
    (w : World) (o : Option ℕ) (tai : Tai) (b : Bool) → Alike w (set_ue_tai w o tai b)
set_ue_tai-Alike w none tai b = Alike-refl w
set_ue_tai-Alike w (some u) tai b = with_ue-Alike w u (record (w.ues u) {
  tai = tai;
  location_changed = if b then true else (w.ues u).location_changed;
})

set_tai-Alike : (w : World) (p : ℕ) (tai : Tai) (b : Bool) → Alike w (set_tai w p tai b)
set_tai-Alike w p tai b =
    let x = record (w.ran_ues p) { tai = tai } in
    let w' = with_ran_ue w p x in
    Alike-trans w w' (set_tai w p tai b) (change-Alike w p x refl refl)
      (set_ue_tai-Alike w' (w.ran_ues p).amf_ue tai b)

pub location-Alike :
    (peers : Peers) (w : World) (p : ℕ) (o : Option UserLocation)
    → Ends (Alike w) (update_location_if peers w p o)
unfolding update_location
location-Alike peers w p none = Alike-refl w
location-Alike peers w p (some (eutra tai)) = set_tai-Alike w p tai true
location-Alike peers w p (some (nr tai)) = set_tai-Alike w p tai true
location-Alike peers w p (some n3iwf) = first w.support_tai_lists
  where
    first :
        (tais : List Tai)
        → Ends (Alike w) (elim tais [
          | [] ↦ none
          | tai ∷ rest ↦ some (set_tai w p (record tai { tac = peers.hex_tac tai.tac }) false)
        ])
    first [] = tt
    first (tai ∷ rest) = set_tai-Alike w p (record tai { tac = peers.hex_tac tai.tac }) false
location-Alike peers w p (some no_location) = Alike-refl w

cause-Alike : (w : World) (u r : Option ℕ) (c : Cause) → Alike w (note_cause w u r c)
cause-Alike w (some u) (some r) c =
    with_ue-Alike w u (record (w.ues u) {
      release_cause = store (w.ues u).release_cause (w.rans r).an_type (some c);
    })
cause-Alike w (some u) none c = Alike-refl w
cause-Alike w none r c = Alike-refl w

pub release-Alike :
    (peers : Peers) (t : Turn) (p : ℕ) (a : RelAction) (c : Cause)
    → Alike t.world (send_ue_context_release_command peers t p a c).world
unfolding send_ue_context_release_command note_release
release-Alike peers t p a c =
    let x = record (t.world.ran_ues p) { release_action = a } in
    let w' = with_ran_ue t.world p x in
    elim (Bool-cases (peers.encodes (ue_context_release_command p a c))) [
      | inr e ↦ rw e (Alike-refl t.world)
      | inl e ↦ rw e (
          Alike-trans t.world w' (note_release t.world p a c) (change-Alike t.world p x refl refl)
            (cause-Alike w' (t.world.ran_ues p).amf_ue (t.world.ran_ues p).ran c))
    ]
