-- ===== src/Nas/Decode/Counting.antt =====
-- The uplink count that Decode keeps (nas/nas_security/security.go).
use amf_cdac.Base.{
  ℕ, ◌+◌, ◌%◌, ◌≤◌, ◌<◌, ◌≡◌, refl, subst, ◌↔◌, inl, inr, sym, ◌∙◌, ◌∷◌, Option, some, Bool, true,
  false, not, String, arith, take, drop, Option-cases, ap, ◌==◌, list_eq, nat_eq, ltb,
  if◌then◌else◌,
}
use amf_cdac.Types.{Bytes, AccessType}
use amf_cdac.Ue.{AmfUe}
use amf_cdac.Nas.Message.{HeaderType, plain_nas, Message, Library, IsNasCount, uplink}
use amf_cdac.Nas.Decode.{
  Decoded, protection, estimate, decipher, verify, receive, decode_protected, decode_by, decode,
  cause_of, new_message,
}

module _ (lib : Library) where
  decipher-keeps :
      (ciphered : Bool) (ue : AmfUe) (msg : Message) (body : Bytes)
      → (decipher lib ciphered ue msg body).1 ≡ ue
  unfolding decipher
  decipher-keeps false ue msg body = refl
  decipher-keeps true ue msg body =
      elim (Option-cases
        (lib.nas_encrypt ue.ciphering_alg ue.knas_enc (lib.count_get ue.ul_count) uplink body)) [
          | inl e ↦ rw (e, decipher)
          | inr (d, e) ↦ rw (e, decipher)
        ]

  -- After the count only `mac_failed` is written, and the same message writes it the same again.
  verify-again :
      (ciphered : Bool) (ue : AmfUe) (msg : Message) (mac32 : Bytes) (sqn : ℕ) (body : Bytes)
      (out : Decoded) (ue' : AmfUe)
      → verify lib ciphered ue msg mac32 sqn body ≡ (out, ue')
      → (ue' ≡ record ue { mac_failed = ue'.mac_failed })
        × (verify lib ciphered ue' msg mac32 sqn body ≡ (out, ue'))
  unfolding verify
  verify-again ciphered ue msg mac32 sqn body out ue' h =
      elim (Option-cases (
        lib.nas_mac_calculate ue.integrity_alg ue.knas_int (lib.count_get ue.ul_count) uplink
          (sqn ∷ body))) [
            | inl e ↦
                let p : ue ≡ ue' = ap (λ (r : Decoded × AmfUe). r.1) (rw (e, verify) at h) in
                (
                  subst (λ u. u ≡ record ue { mac_failed = u.mac_failed }) p refl,
                  subst (λ u. verify lib ciphered u msg mac32 sqn body ≡ (out, u)) p
                      (subst (λ u. verify lib ciphered ue msg mac32 sqn body ≡ (out, u)) (sym p) h),
                )
            | inr (mac, e) ↦
                let opened = rw (e, verify) at h in
                let ue1 = record ue { mac_failed = not (mac == mac32) } in
                let p : ue1 ≡ ue' =
                  sym (decipher-keeps ciphered ue1 msg body)
                  ∙ ap (λ (r : Decoded × AmfUe). r.1) opened in
                (
                  subst (λ u. u ≡ record ue { mac_failed = u.mac_failed }) p refl,
                  subst (λ u. verify lib ciphered u msg mac32 sqn body ≡ (out, u)) p
                      (rw (e, verify)
                        (subst (λ u. decipher lib ciphered ue1 msg body ≡ (out, u)) (sym p)
                          opened)),
                )
          ]

  sqn-estimate : IsNasCount lib → (c s : ℕ) → s < 256 → lib.count_sqn (estimate lib c s) ≡ s
  unfolding estimate
  sqn-estimate laws c s h = laws.sqn-set_sqn _ s h

  overflow-estimate :
      IsNasCount lib
      → (c s : ℕ) → s < 256
      → lib.count_overflow (estimate lib c s) ≡ (
          if ltb s (lib.count_sqn c)
          then (lib.count_overflow c + 1) % 65536
          else lib.count_overflow c)
  unfolding estimate
  overflow-estimate laws c s h = ground (
    arith,
    laws.overflow-set_sqn (lib.count_set_overflow c ((lib.count_overflow c + 1) % 65536)) s h,
    laws.overflow-set_sqn c s h,
    laws.overflow-set_overflow c ((lib.count_overflow c + 1) % 65536),
  )

  estimate_self : IsNasCount lib → (e s : ℕ) → lib.count_sqn e ≡ s → estimate lib e s ≡ e
  unfolding estimate
  estimate_self laws e s p = ground (arith, laws.set_sqn_self e)

  estimate-again :
      IsNasCount lib → (c s : ℕ) → s < 256 → estimate lib (estimate lib c s) s ≡ estimate lib c s
  estimate-again laws c s h = again (estimate lib c s) (sqn-estimate laws c s h)
    where
      again : (e : ℕ) → lib.count_sqn e ≡ s → estimate lib e s ≡ e
      again e p = estimate_self laws e s p

  -- The estimate has the received sequence number, and it is the least count with it that is not
  -- below the last one. The library has NAS counts, the sequence number is below 256, and the
  -- overflow counter of the last count is below 65535: at 65535 it wraps around.
  pub estimate_least :
      IsNasCount lib
      → (c s n : ℕ) → s < 256
      → lib.count_overflow c < 65535
      → lib.count_get c ≤ n
      → n % 256 ≡ s
      → (lib.count_get (estimate lib c s) % 256 ≡ s)
        × (lib.count_get c ≤ lib.count_get (estimate lib c s))
        × (lib.count_get (estimate lib c s) ≤ n)
  estimate_least laws c s n h o le m =
      let sqn = sqn-estimate laws c s h in
      let overflow = overflow-estimate laws c s h in
      let parts = laws.get-parts (estimate lib c s) in
      let last = laws.get-parts c in let bound = laws.sqn-lt c in ground arith

  receive-again :
      IsNasCount lib
      → (ciphered : Bool) (ue : AmfUe) (msg : Message) (mac32 : Bytes) (sqn : ℕ) (body : Bytes)
        (out : Decoded) (ue' : AmfUe)
      → sqn < 256
      → receive lib (some (ciphered, false)) ue msg mac32 sqn body ≡ (out, ue')
      → (ue' ≡ record ue { mac_failed = ue'.mac_failed; ul_count = estimate lib ue.ul_count sqn })
        × (receive lib (some (ciphered, false)) ue' msg mac32 sqn body ≡ (out, ue'))
  unfolding receive
  receive-again laws ciphered ue msg mac32 sqn body out ue' small h =
      let counted = record ue { ul_count = estimate lib ue.ul_count sqn } in
      let (frame, again) = verify-again ciphered counted msg mac32 sqn body out ue' h in
      let count : estimate lib ue'.ul_count sqn ≡ ue'.ul_count =
        rw frame (estimate-again laws ue.ul_count sqn small) in
      (frame, rw count again)

  receive-frame :
      (ciphered renewed : Bool) (ue : AmfUe) (msg : Message) (mac32 : Bytes) (sqn : ℕ)
      (body : Bytes) (out : Decoded) (ue' : AmfUe)
      → receive lib (some (ciphered, renewed)) ue msg mac32 sqn body ≡ (out, ue')
      → ue' ≡ record ue {
        mac_failed = ue'.mac_failed;
        ul_count = estimate lib (if renewed then lib.count_set 0 0 else ue.ul_count) sqn;
      }
  unfolding receive
  receive-frame ciphered renewed ue msg mac32 sqn body out ue' h =
      (verify-again ciphered _ msg mac32 sqn body out ue' h).0

  protected-receive :
      (ue : AmfUe) (msg : Message) (payload : Bytes) (sqn : ℕ) (body : Bytes)
      → drop 6 payload ≡ sqn ∷ body
      → decode_protected lib ue msg payload
        ≡ receive lib
            (protection msg.security_header_type)
            ue
            msg
            (drop 2 (take 6 payload))
            sqn
            body
  unfolding decode_protected
  protected-receive ue msg payload sqn body e = rw (e, decode_protected)

  -- A payload of at least seven octets with a known protected header type goes to `receive`.
  decode_by-receive :
      (t : HeaderType) (ue : AmfUe) (cause : Option String) (msg : Message) (payload : Bytes)
      (sqn : ℕ) (body : Bytes) (p : Bool × Bool)
      → protection t ≡ some p
      → msg.security_header_type ≡ t
      → drop 6 payload ≡ sqn ∷ body
      → decode_by lib t ue cause msg payload
        ≡ receive lib (some p) ue msg (drop 2 (take 6 payload)) sqn body
  unfolding decode_by
  decode_by-receive plain_nas ue cause msg payload sqn body p k t e = absurd (cc)
  decode_by-receive _ ue cause msg payload sqn body p k t e =
      protected-receive ue msg payload sqn body e
      ∙ ap (λ q. receive lib q ue msg (drop 2 (take 6 payload)) sqn body) (ap protection t ∙ k)

  -- The same, from Decode.
  pub decode-receive :
      (causes : ℕ → String) (ue : AmfUe) (access_type : AccessType) (payload : Bytes) (sqn : ℕ)
      (body : Bytes) (p : Bool × Bool) (out : Decoded) (ue' : AmfUe)
      → protection (lib.get_security_header_type payload) ≡ some p
      → drop 6 payload ≡ sqn ∷ body
      → (decode lib causes (some ue) access_type (some payload) ≡ (out, some ue')) ↔ (
          receive lib (some p) ue (new_message lib payload) (drop 2 (take 6 payload)) sqn body
          ≡ (out, ue'))
  unfolding decode
  decode-receive causes ue access_type payload sqn body p out ue' k e =
      let same =
        decode_by-receive (lib.get_security_header_type payload) ue
          (cause_of lib causes ue access_type) (new_message lib payload) payload sqn body p k refl
          e in
      ((λ h. ground arith), (λ h. ground arith))

-- Decode of a protected message of at least seven octets and a known header type keeps the count
-- that it took the sequence number to stand for, whatever comes of the message: the count moves
-- also when the MAC turns out wrong, the deciphering fails or the type is refused. Only the count
-- and the flag `MacFailed` change.
pub decode-keeps_estimate :
    (lib : Library) (causes : ℕ → String) (ue : AmfUe) (access_type : AccessType) (payload : Bytes)
    (sqn : ℕ) (body : Bytes) (ciphered renewed : Bool) (out : Decoded) (ue' : AmfUe)
    → protection (lib.get_security_header_type payload) ≡ some (ciphered, renewed)
    → drop 6 payload ≡ sqn ∷ body
    → decode lib causes (some ue) access_type (some payload) ≡ (out, some ue')
    → ue' ≡ record ue {
      mac_failed = ue'.mac_failed;
      ul_count = estimate lib (if renewed then lib.count_set 0 0 else ue.ul_count) sqn;
    }
decode-keeps_estimate lib causes ue access_type payload sqn body ciphered renewed out ue' k e h =
    receive-frame lib ciphered renewed ue (new_message lib payload) (drop 2 (take 6 payload)) sqn
      body out ue' ((decode-receive lib causes ue access_type payload sqn body _ out ue' k e).0 h)

-- The message that was received last is received again with the same outcome: over a library with
-- NAS counts, the copy of a message protected under the current context (sequence number below 256)
-- has the count and the MAC that it had, and Decode hands it on a second time if it did the first.
pub decode-replays :
    (lib : Library) (causes : ℕ → String) (ue : AmfUe) (access_type : AccessType) (payload : Bytes)
    (sqn : ℕ) (body : Bytes) (ciphered : Bool) (out : Decoded) (ue' : AmfUe)
    → IsNasCount lib
    → protection (lib.get_security_header_type payload) ≡ some (ciphered, false)
    → drop 6 payload ≡ sqn ∷ body
    → sqn < 256
    → decode lib causes (some ue) access_type (some payload) ≡ (out, some ue')
    → decode lib causes (some ue') access_type (some payload) ≡ (out, some ue')
decode-replays lib causes ue access_type payload sqn body ciphered out ue' laws k e small h =
    let first = (decode-receive lib causes ue access_type payload sqn body _ out ue' k e).0 h in
    let (_, again) =
      receive-again lib laws ciphered ue (new_message lib payload) (drop 2 (take 6 payload)) sqn
        body out ue' small first in
    (decode-receive lib causes ue' access_type payload sqn body _ out ue' k e).1 again
