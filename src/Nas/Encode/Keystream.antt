-- ===== src/Nas/Encode/Keystream.antt =====
-- The downlink counts of a sequence of messages (nas/nas_security/security.go): the input that keeps
-- the key streams and the MACs of a UE apart.
use amf_cdac.Base.{
  ℕ, suc, ◌+◌, ◌%◌, ◌^◌, ◌≤◌, ◌<◌, ◌≡◌, ◌≢◌, refl, subst, ◌⊎◌, inl, inr, List, [], ◌∷◌, true, false,
  arith, if◌then◌else◌, length, All, Distinct,
}
use amf_cdac.Ue.{AmfUe}
use amf_cdac.Nas.Message.{Message, Library, IsNasCount}
use amf_cdac.Nas.Encode.{EncodeError, Encoded, ok, err, encode_for}
use amf_cdac.Nas.Encode.Layout.{Outcome, ciphers, renews, encode_for-Outcome}

module _ (lib : Library) where
  -- The counts under which the messages of the list are sent that Encode sends, in turn.
  pub sent_counts : AmfUe → List Message → List ℕ
  sent_counts ue [] = []
  sent_counts ue (msg ∷ msgs) =
      let rest = sent_counts (encode_for lib ue msg).1 msgs in
      elim (encode_for lib ue msg).0 [ ok out ↦ lib.count_get ue.dl_count ∷ rest | err e ↦ rest ]

  -- A count of the next `k` from `g` on.
  abbrev Within : ℕ → ℕ → ℕ → Type 0
  Within g k c = (i : ℕ) × (i < k) × (c ≡ (g + i) % 2 ^ 24)

  Within-later :
      (g g' k : ℕ) (cs : List ℕ)
      → g' ≡ (g + 1) % 2 ^ 24
      → All (Within g' k) cs
      → All (Within g (suc k)) cs
  Within-later g g' k [] e h = tt
  Within-later g g' k (c ∷ cs) e ((i, below, at), rest) =
      ((i + 1, omega arith, omega arith), Within-later g g' k cs e rest)

  Within-fresh :
      (g g' k : ℕ) (cs : List ℕ)
      → g < 2 ^ 24
      → k < 2 ^ 24
      → g' ≡ (g + 1) % 2 ^ 24
      → All (Within g' k) cs
      → All (λ c. g ≢ c) cs
  Within-fresh g g' k [] b s e h = tt
  Within-fresh g g' k (c ∷ cs) b s e ((i, below, at), rest) =
      ((λ q. omega arith), Within-fresh g g' k cs b s e rest)

  -- The header type is not the one that sets the counts to 0.
  abbrev pub Continues : Message → Type 0
  Continues msg = renews msg.security_header_type ≡ false

  Encoded-cases : (r : Encoded) → ((out : _) × (r ≡ ok out)) ⊎ ((e : EncodeError) × (r ≡ err e))
  Encoded-cases (ok out) = inl (out, refl)
  Encoded-cases (err e) = inr (e, refl)

  outcome :
      (ue : AmfUe) (msg : Message) (out : Encoded)
      → ue.security_context_available ≡ true
      → Continues msg
      → (encode_for lib ue msg).0 ≡ out
      → Outcome lib (ciphers msg.security_header_type) ue msg (out, (encode_for lib ue msg).1)
  outcome ue msg out a k h =
      let t = msg.security_header_type in
      subst (λ o. Outcome lib (ciphers t) ue msg (o, (encode_for lib ue msg).1)) h
        (subst
          (λ b.
            Outcome lib (ciphers t)
              (if b
                then record ue { ul_count = lib.count_set 0 0; dl_count = lib.count_set 0 0 }
                else ue)
              msg (encode_for lib ue msg))
          k (encode_for-Outcome lib ue msg a))

  count-bound : IsNasCount lib → (c : ℕ) → lib.count_get c < 2 ^ 24
  count-bound laws c =
      let parts = laws.get-parts c in
      let o = laws.overflow-lt c in let s = laws.sqn-lt c in omega arith

  Within-wider : (g k : ℕ) (cs : List ℕ) → All (Within g k) cs → All (Within g (suc k)) cs
  Within-wider g k [] h = tt
  Within-wider g k (c ∷ cs) ((i, below, at), rest) =
      ((i, omega arith, at), Within-wider g k cs rest)

  abbrev Spread : AmfUe → List Message → Type 0
  Spread ue msgs =
      All (Within (lib.count_get ue.dl_count) (length msgs)) (sent_counts ue msgs)
      × Distinct (sent_counts ue msgs)

  sent_counts-Spread :
      IsNasCount lib
      → (ue : AmfUe) (msgs : List Message) → ue.security_context_available ≡ true
      → All Continues msgs
      → length msgs ≤ 2 ^ 24
      → Spread ue msgs
  unfolding sent_counts
  sent_counts-Spread laws ue [] a k s = (tt, tt)
  sent_counts-Spread laws ue (msg ∷ msgs) a (k, ks) s =
      elim (Encoded-cases (encode_for lib ue msg).0) [
        | inl (out, e) ↦
            let next = (outcome ue msg (ok out) a k e).1 in
            let ue' = record ue { dl_count = lib.count_add_one ue.dl_count } in
            let (near, apart) = sent_counts-Spread laws ue' msgs a ks (omega arith) in
            let bound = count-bound laws ue.dl_count in
            rw (e, next, sent_counts)
              (
                (
                  (0, omega arith, omega arith),
                  Within-later (lib.count_get ue.dl_count) _ (length msgs) (sent_counts ue' msgs)
                      (laws.get-add_one ue.dl_count) near,
                ),
                (
                  Within-fresh (lib.count_get ue.dl_count) _ (length msgs) (sent_counts ue' msgs)
                      bound (omega arith) (laws.get-add_one ue.dl_count) near,
                  apart,
                ),
              )
        | inr (x, e) ↦
            let same = outcome ue msg (err x) a k e in
            let (near, apart) = sent_counts-Spread laws ue msgs a ks (omega arith) in
            rw (e, same, sent_counts)
              (
                Within-wider (lib.count_get ue.dl_count) (length msgs) (sent_counts ue msgs) near,
                apart,
              )
      ]

-- No downlink count is used for two messages: over a library with NAS counts, of at most 2^24
-- messages that a UE with a security context is sent in turn, none of them with the header type of
-- a new context, the ones that Encode does not refuse are sent under counts that all differ.
pub sent_counts-Distinct :
    (lib : Library) (ue : AmfUe) (msgs : List Message)
    → IsNasCount lib
    → ue.security_context_available ≡ true
    → All (Continues lib) msgs
    → length msgs ≤ 2 ^ 24
    → Distinct (sent_counts lib ue msgs)
sent_counts-Distinct lib ue msgs laws a k s = (sent_counts-Spread lib laws ue msgs a k s).1
