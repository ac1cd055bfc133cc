-- ===== src/Nas/Decode/Integrity.antt =====
-- What Decode lets through (nas/nas_security/security.go).
use amf_cdac.Base.{
  ℕ, ◌≡◌, ◌≢◌, refl, ◌⊎◌, inl, inr, ◌∷◌, Option, none, some, Bool, true, false, String, arith, take,
  drop, list_beq_iff, Bool-cases, List-cases, not, Option-cases, ap, ◌==◌, string_eq, list_eq,
  nat_eq,
}
use amf_cdac.Types.{Bytes, AccessType, access_type_eq}
use text.Mathlib.TextEquality.{eq_iff}
use amf_cdac.Ue.{AmfUe}
use amf_cdac.Nas.Message.{HeaderType, plain_nas, Message, GmmMessage, MessageType, Library, uplink}
use amf_cdac.Nas.Decode.{
  Decoded, ok, mac_exempt, plain_exempt, protection, admit, decipher, verify, receive,
  decode_protected, decode_plain, decode_by, decode, admit_decoded, cause_of, new_message,
  admit_plain, admit_unverified,
}

-- The message holds a GMM message whose type passes the test.
abbrev pub Carries : (MessageType → Bool) → Message → Type 0
Carries test msg =
    (gmm : GmmMessage) × (msg.gmm_message ≡ some gmm) × (test gmm.message_type ≡ true)

admit_unverified-ok :
    (msg m : Message) (g : Option GmmMessage)
    → msg.gmm_message ≡ g
    → admit_unverified msg g ≡ ok m
    → Carries mac_exempt m
unfolding admit_unverified
admit_unverified-ok msg m none e h = cc
admit_unverified-ok msg m (some gmm) e h = (gmm, ground arith, ground arith)

module _ (lib : Library) where
  admit-ok :
      (ue : AmfUe) (decoded : Option Message) (m : Message)
      → admit lib ue decoded ≡ ok m
      → (ue.mac_failed ≡ false) ⊎ Carries mac_exempt m
  unfolding admit
  admit-ok ue none m h = cc
  admit-ok ue (some msg) m h = elim (Bool-cases ue.mac_failed) [
    | inl failed ↦ inr (admit_unverified-ok msg m msg.gmm_message refl (rw failed at h))
    | inr verified ↦ inl verified
  ]

  decipher-ok :
      (ciphered : Bool) (ue : AmfUe) (msg m : Message) (body : Bytes) (ue' : AmfUe)
      → decipher lib ciphered ue msg body ≡ (ok m, ue')
      → (ue' ≡ ue) × ((ue.mac_failed ≡ false) ⊎ Carries mac_exempt m)
  unfolding decipher
  decipher-ok false ue msg m body ue' h =
      (ground arith, admit-ok ue (lib.plain_nas_decode msg body) m (ground arith))
  decipher-ok true ue msg m body ue' h =
      elim (Option-cases
        (lib.nas_encrypt ue.ciphering_alg ue.knas_enc (lib.count_get ue.ul_count) uplink body)) [
          | inl e ↦ absurd (let opened = rw (e, decipher) at h in cc)
          | inr (deciphered, e) ↦
              let opened = rw (e, decipher) at h in
              (
                ground arith,
                admit-ok ue (lib.plain_nas_decode msg deciphered) m
                    (ap (λ (r : Decoded × AmfUe). r.0) opened),
              )
        ]

  -- Either the MAC that the message carries is the calculated one, or its type is exempt.
  verify-ok :
      (ciphered : Bool) (ue : AmfUe) (msg m : Message) (mac32 : Bytes) (sqn : ℕ) (body : Bytes)
      (ue' : AmfUe)
      → verify lib ciphered ue msg mac32 sqn body ≡ (ok m, ue')
      → (ue' ≡ record ue { mac_failed = ue'.mac_failed })
        × ((lib.nas_mac_calculate ue.integrity_alg ue.knas_int
                (lib.count_get ue.ul_count)
                uplink
                (sqn ∷ body)
              ≡ some mac32)
            ⊎ Carries mac_exempt m)
  unfolding verify
  verify-ok ciphered ue msg m mac32 sqn body ue' h =
      elim (Option-cases (
        lib.nas_mac_calculate ue.integrity_alg ue.knas_int (lib.count_get ue.ul_count) uplink
          (sqn ∷ body))) [
            | inl e ↦ absurd (let opened = rw (e, verify) at h in cc)
            | inr (mac, e) ↦
                let opened = rw (e, verify) at h in
                let (same, safe) =
                  decipher-ok ciphered (record ue { mac_failed = not (mac == mac32) }) msg m body
                    ue' opened in
                (
                  rw same,
                  elim safe [
                    | inl matched ↦ inl (rw e (ap some ((list_beq_iff mac mac32).0 (ground arith))))
                    | inr exempt ↦ inr exempt
                  ],
                )
          ]

  -- The received octets of the MAC, and what the MAC is calculated over.
  abbrev pub Authentic : AmfUe → Bytes → Type 0
  Authentic ue payload =
      lib.nas_mac_calculate ue.integrity_alg ue.knas_int (lib.count_get ue.ul_count) uplink
        (drop 6 payload)
      ≡ some (drop 2 (take 6 payload))

  receive-ok :
      (p : Option (Bool × Bool)) (ue : AmfUe) (msg m : Message) (mac32 : Bytes) (sqn : ℕ)
      (body : Bytes) (ue' : AmfUe)
      → receive lib p ue msg mac32 sqn body ≡ (ok m, ue')
      → (lib.nas_mac_calculate ue'.integrity_alg ue'.knas_int
            (lib.count_get ue'.ul_count)
            uplink
            (sqn ∷ body)
          ≡ some mac32)
        ⊎ Carries mac_exempt m
  unfolding receive
  receive-ok none ue msg m mac32 sqn body ue' h = absurd (cc)
  receive-ok (some (ciphered, renewed)) ue msg m mac32 sqn body ue' h =
      let (same, safe) = verify-ok ciphered _ msg m mac32 sqn body ue' h in rw same safe

  decode_protected-ok :
      (ue : AmfUe) (msg m : Message) (payload : Bytes) (ue' : AmfUe)
      → decode_protected lib ue msg payload ≡ (ok m, ue')
      → Authentic ue' payload ⊎ Carries mac_exempt m
  unfolding decode_protected
  decode_protected-ok ue msg m payload ue' h = elim (List-cases (drop 6 payload)) [
    | inl e ↦ absurd (let opened = rw (e, decode_protected) at h in cc)
    | inr (sqn, body, e) ↦
        let opened = rw (e, decode_protected) at h in
        rw e (
          receive-ok (protection msg.security_header_type) ue msg m (drop 2 (take 6 payload)) sqn
            body ue' opened)
  ]

  decode_by-ok :
      (t : HeaderType) (ue : AmfUe) (cause : Option String) (msg m : Message) (payload : Bytes)
      (ue' : AmfUe)
      → t ≢ plain_nas
      → decode_by lib t ue cause msg payload ≡ (ok m, ue')
      → Authentic ue' payload ⊎ Carries mac_exempt m
  unfolding decode_by
  decode_by-ok plain_nas ue cause msg m payload ue' n h = absurd (n refl)
  decode_by-ok _ ue cause msg m payload ue' n h = decode_protected-ok ue msg m payload ue' h

-- A message that was not sent plain is handed on only if its MAC is the one calculated over its
-- sequence number and body with the UE's integrity key, at the uplink count that Decode then keeps,
-- or if it is a GMM message of one of the eight types that are processed whatever their MAC.
pub decode-Authentic :
    (lib : Library) (causes : ℕ → String) (ue : AmfUe) (access_type : AccessType) (payload : Bytes)
    (m : Message) (ue' : AmfUe)
    → lib.get_security_header_type payload ≢ plain_nas
    → decode lib causes (some ue) access_type (some payload) ≡ (ok m, some ue')
    → Authentic lib ue' payload ⊎ Carries mac_exempt m
unfolding decode
decode-Authentic lib causes ue access_type payload m ue' n h =
    decode_by-ok lib (lib.get_security_header_type payload) ue (cause_of lib causes ue access_type)
      (new_message lib payload) m payload ue' n (ground arith)

admit_plain-ok :
    (msg m : Message) (g : Option GmmMessage)
    → msg.gmm_message ≡ g
    → admit_plain msg g ≡ ok m
    → Carries plain_exempt m
unfolding admit_plain
admit_plain-ok msg m none e h = cc
admit_plain-ok msg m (some gmm) e h = (gmm, ground arith, ground arith)

admit_decoded-ok :
    (d : Option Message) (m : Message) → admit_decoded d ≡ ok m → Carries plain_exempt m
unfolding admit_decoded
admit_decoded-ok none m h = cc
admit_decoded-ok (some msg) m h = admit_plain-ok msg m msg.gmm_message refl h

decode_plain-ok :
    (lib : Library) (ue : AmfUe) (cause : Option String) (msg m : Message) (payload : Bytes)
    (ue' : AmfUe)
    → ue.security_context_available ≡ true
    → cause ≢ some "0"
    → decode_plain lib ue cause msg payload ≡ (ok m, ue')
    → Carries plain_exempt m × (ue'.security_context_available ≡ false) × (ue'.mac_failed ≡ false)
unfolding decode_plain
decode_plain-ok lib ue none msg m payload ue' a n h = absurd (ground arith)
decode_plain-ok lib ue (some c) msg m payload ue' a n h = elim (Bool-cases (c == "0")) [
  | inl e ↦ absurd (n (ap some ((eq_iff c "0").0 e)))
  | inr e ↦
      let opened = rw (a, e, decode_plain) at h in
      (
        admit_decoded-ok (lib.plain_nas_decode msg payload) m (ground arith),
        ground arith,
        ground arith,
      )
]

-- A plain message for a UE that has a security context, outside an emergency (establishment cause
-- "0"), is handed on only if it is a GMM message of one of the seven listed types, and then the UE
-- has lost its security context.
pub decode-plain_restricted :
    (lib : Library) (causes : ℕ → String) (ue : AmfUe) (access_type : AccessType) (payload : Bytes)
    (m : Message) (ue' : AmfUe)
    → lib.get_security_header_type payload ≡ plain_nas
    → ue.security_context_available ≡ true
    → cause_of lib causes ue access_type ≢ some "0"
    → decode lib causes (some ue) access_type (some payload) ≡ (ok m, some ue')
    → Carries plain_exempt m × (ue'.security_context_available ≡ false)
unfolding decode
decode-plain_restricted lib causes ue access_type payload m ue' t a n h =
    let (carried, lost, _) =
      decode_plain-ok lib ue (cause_of lib causes ue access_type) (new_message lib payload) m
        payload ue' a n (ground arith) in
    (carried, lost)
