-- ===== src/Ngap/Called.antt =====
-- The links between stations, RanUes and the pool under HandleNAS (nas/handler.go,
-- nas/nas_security/security.go).
use amf_cdac.Base.{
  ℕ, ℤ, ◌≡◌, refl, inl, inr, ◌∙◌, Bool, true, false, ◌&&◌, Option, none, some, arith, Option-cases,
  nat_eq, nat_beq_iff, load, if◌then◌else◌,
}
use amf_cdac.Types.{Bytes, AccessType, access_type_eq}
use amf_cdac.Ue.{AmfUe}
use amf_cdac.Context.State.{World, Outcome, done, error, panics as attach_panics}
use amf_cdac.Context.Ids.{Generators}
use amf_cdac.Context.Ran.{attach_ran_ue}
use amf_cdac.Context.Ran.Links.{Linked}
use amf_cdac.Context.Ues.{Database, new_amf_ue}
use amf_cdac.Nas.Message.{Message, Library}
use amf_cdac.Nas.Decode.{Decoded, ok, err}
use amf_cdac.Nas.Identity.{
  Identities, Fetched, found, panics as fetch_panics, fetch_ue_context_with_mobile_identity,
}
use amf_cdac.Nas.Handler.{
  Handled, dropped, redirected, queued, refused, sends_event, panics, put_ue, dispatch,
  after_decode, dispatch_msg, set_an_type, enqueue, own_by, adopt, of_ran_ue, handle_nas,
}
use amf_cdac.Ngap.Alike.{Alike-Linked, change-Alike, with_ue-Alike, attached-Alike}
use amf_cdac.Ngap.Lookups.{Kept, fetch-Kept, new_amf_ue-Alike}

-- The links hold in the world that HandleNAS leaves.
abbrev pub LeavesLinked : Handled → Type 0
LeavesLinked (dropped w) = Linked w
LeavesLinked (redirected w) = Linked w
LeavesLinked (queued w u an_type pdu code) = Linked w
LeavesLinked (refused w) = Linked w
LeavesLinked (sends_event w u an_type gmm code) = Linked w
LeavesLinked panics = Unit

module _ (lib : Library) where
  dispatch-Linked :
      (w : World) (u : ℕ) (a : AccessType) (code : ℤ) (msg : Message)
      → Linked w
      → LeavesLinked (dispatch lib w u a code msg)
  unfolding dispatch
  dispatch-Linked w u a code msg h = elim (Option-cases msg.gmm_message) [
    | inl e ↦ rw (LeavesLinked, e, dispatch) h
    | inr (gmm, e) ↦ elim (Option-cases msg.gsm_message) [
      | inr (gsm, f) ↦ rw (LeavesLinked, e, f, dispatch) h
      | inl f ↦ elim (Option-cases (load (w.ues u).state a)) [
        | inl g ↦ rw (LeavesLinked, e, f, g, dispatch) h
        | inr (s, g) ↦ rw (LeavesLinked, e, f, g, dispatch) h
      ]
    ]
  ]

  put_ue-Linked : (w : World) (u : ℕ) (ue : AmfUe) → Linked w → Linked (put_ue lib w u ue)
  put_ue-Linked w u ue h = Alike-Linked w (put_ue lib w u ue) (with_ue-Alike w u ue) h

  after_decode-Linked :
      (w : World) (u : ℕ) (a : AccessType) (code : ℤ) (d : Decoded × Option AmfUe)
      → Linked w
      → LeavesLinked (after_decode lib w u a code d)
  unfolding after_decode
  after_decode-Linked w u a code (ok msg, some ue) h =
      dispatch-Linked (put_ue lib w u ue) u a code msg (put_ue-Linked w u ue h)
  after_decode-Linked w u a code (err e, some ue) h = put_ue-Linked w u ue h
  after_decode-Linked w u a code _ h = tt

  dispatch_msg-Linked :
      (w : World) (u : ℕ) (a : AccessType) (code : ℤ) (pdu : Bytes)
      → Linked w
      → LeavesLinked (dispatch_msg lib w u a code pdu)
  unfolding dispatch_msg
  dispatch_msg-Linked w u a code pdu h = after_decode-Linked w u a code _ h

given-Linked :
    (o : Option ℕ) (k : ℕ → Handled)
    → ((r : ℕ) → LeavesLinked (k r))
    → LeavesLinked (elim o [ none ↦ panics | some r ↦ k r ])
given-Linked none k f = tt
given-Linked (some r) k f = f r

made-Linked :
    (o : Option World) (k : World → Handled)
    → ((w : World) → o ≡ some w → LeavesLinked (k w))
    → LeavesLinked (elim o [ none ↦ panics | some w ↦ k w ])
made-Linked none k f = tt
made-Linked (some w) k f = f w refl

done-Linked :
    (o : Outcome) (k : World → Handled)
    → ((w : World) → o ≡ done w → LeavesLinked (k w))
    → LeavesLinked (elim o [ done w ↦ k w | error ↦ panics | attach_panics ↦ panics ])
done-Linked (done w) k f = f w refl
done-Linked error k f = tt
done-Linked attach_panics k f = tt

-- A branch that needs the database is not taken without it.
local-Linked :
    (b c d : Bool) (x y : Handled)
    → c ≡ false
    → LeavesLinked y
    → LeavesLinked (if b && c && d then x else y)
local-Linked false c d x y e h = h
local-Linked true false d x y e h = h
local-Linked true true d x y e h = absurd (cc)

module _ (lib : Library) (ids : Identities) (db : Database) (gen : Generators) where
  -- The list of a station does not change with its access type.
  set_an_type-Linked : (w : World) (r : ℕ) → Linked w → Linked (set_an_type lib ids db gen w r)
  set_an_type-Linked w r h = record {
    listed = λ s q e. ground (arith, h.listed s q, nat_beq_iff r s);
    listed_once = λ s. ground (arith, h.listed_once s, nat_beq_iff r s);
    listed_old = λ s q e. ground (arith, h.listed_old s q, nat_beq_iff r s);
    pooled = λ i q e. ground (arith, h.pooled i q);
    pooled_old = λ i q e. ground (arith, h.pooled_old i q);
    pooled_in_use = λ i q e. ground (arith, h.pooled_in_use i q);
  }

  enqueue-Linked :
      (w : World) (p u : ℕ) (pdu : Bytes) (code : ℤ)
      → Linked w
      → LeavesLinked (enqueue lib ids db gen w p u pdu code)
  unfolding enqueue
  enqueue-Linked w p u pdu code h = given-Linked (w.ran_ues p).ran _ (λ r.
      done-Linked (attach_ran_ue (set_an_type lib ids db gen w r) u p) _ (λ w' e.
        put_ue-Linked lib w' u (record (w'.ues u) { event_channel = true })
          (Alike-Linked (set_an_type lib ids db gen w r) w'
            (attached-Alike (set_an_type lib ids db gen w r) w' u p e) (set_an_type-Linked w r h))))

  own_by-Linked : (w : World) (p u : ℕ) → Linked w → Linked (own_by lib ids db gen w p u)
  own_by-Linked w p u h =
      Alike-Linked w (own_by lib ids db gen w p u)
        (change-Alike w p (record (w.ran_ues p) { amf_ue = some u }) refl refl) h

  adopt-Linked :
      (elsewhere : AmfUe → Bool) (w : World) (p : ℕ) (pdu : Bytes) (code : ℤ) (f : Fetched)
      → w.enable_db_store ≡ false
      → Linked w
      → Kept w f
      → LeavesLinked (adopt lib ids db gen elsewhere p pdu code f)
  unfolding adopt
  adopt-Linked elsewhere w p pdu code fetch_panics off h k = tt
  adopt-Linked elsewhere w p pdu code (found none v) off h k =
      made-Linked (new_amf_ue gen v "") _ (λ v' e.
        enqueue-Linked (own_by lib ids db gen v' p v.next_ue) p v.next_ue pdu code (
          own_by-Linked v' p v.next_ue (
            Alike-Linked v v' (new_amf_ue-Alike gen v v' (k.same_flag ∙ off) e)
              (Alike-Linked w v k h))))
  adopt-Linked elsewhere w p pdu code (found (some u) v) off h k =
      local-Linked v.enable_sctp_lb v.enable_db_store (elsewhere (v.ues u)) _ _ (k.same_flag ∙ off)
        (enqueue-Linked (own_by lib ids db gen v p u) p u pdu code
          (own_by-Linked v p u (Alike-Linked w v k h)))

  -- HandleNAS for a RanUe, without the database.
  pub handle_nas-Linked :
      (elsewhere : AmfUe → Bool) (w : World) (p : ℕ) (code : ℤ) (pdu : Bytes)
      → w.enable_db_store ≡ false
      → Linked w
      → LeavesLinked (handle_nas lib ids db gen elsewhere w (some p) code (some pdu))
  unfolding handle_nas of_ran_ue
  handle_nas-Linked elsewhere w p code pdu off h = by_cases (w.ran_ues p).amf_ue
    where
      by_cases :
          (o : Option ℕ)
          → LeavesLinked (elim o [
            | none ↦
                adopt lib ids db gen elsewhere p pdu code
                  (fetch_ue_context_with_mobile_identity lib ids db w (some pdu))
            | some u ↦ elim (w.ran_ues p).ran [
              | none ↦ panics
              | some r ↦
                  let w' = set_an_type lib ids db gen w r in
                  dispatch_msg lib w' u (w'.rans r).an_type code pdu
            ]
          ])
      by_cases none =
          adopt-Linked elsewhere w p pdu code
            (fetch_ue_context_with_mobile_identity lib ids db w (some pdu)) off h
            (fetch-Kept lib ids db w pdu off)
      by_cases (some u) = given-Linked (w.ran_ues p).ran _ (λ r.
          dispatch_msg-Linked lib (set_an_type lib ids db gen w r) u _ code pdu
            (set_an_type-Linked w r h))
