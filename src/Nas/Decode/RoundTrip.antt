-- ===== src/Nas/Decode/RoundTrip.antt =====
-- A genuine uplink message gets through Decode (nas/nas_security/security.go).
use amf_cdac.Base.{
  ℕ, ◌+◌, ◌%◌, ◌≤◌, ◌<◌, ◌≡◌, refl, ◌∙◌, ◌∷◌, ◌++◌, some, Bool, true, false, String, arith, take,
  drop, length, take-append_length, drop-append_length, ap, list_eq, nat_eq, list_beq_iff,
  if◌then◌else◌, subst,
}
use amf_cdac.Types.{Bytes, AccessType}
use amf_cdac.Ue.{AmfUe}
use amf_cdac.Nas.Message.{Message, Library, IsNasCount, uplink}
use amf_cdac.Nas.Decode.{
  ok, protection, estimate, admit, decipher, verify, receive, decode, new_message,
}
use amf_cdac.Nas.Decode.Counting.{decode-receive, estimate_least}

-- A ciphering that is its own inverse, as the stream ciphers of TS 33.501 are.
abbrev pub IsInvolutive : Library → Type 0
IsInvolutive lib =
    (ue : AmfUe) (n : ℕ) (x y : Bytes)
    → lib.nas_encrypt ue.ciphering_alg ue.knas_enc n uplink x ≡ some y
    → lib.nas_encrypt ue.ciphering_alg ue.knas_enc n uplink y ≡ some x

-- What a UE sends that shares the context of `ue`, has the uplink count `n` and codes its message
-- as `plain` (TS 24.501 9.1.1): two octets of header, four of MAC, the sequence number, the body.
pub record Sent (lib : Library) (ue : AmfUe) (ciphered : Bool) (n : ℕ) (plain payload : Bytes)
    : Type 0 where
  pub discriminator : ℕ
  pub header : ℕ
  pub mac32 : Bytes
  pub body : Bytes
  pub layout : payload ≡ discriminator ∷ header ∷ (mac32 ++ (n % 256 ∷ body))
  pub mac-length : length mac32 ≡ 4
  pub ciphering :
      (if ciphered then lib.nas_encrypt ue.ciphering_alg ue.knas_enc n uplink plain else some plain)
      ≡ some body
  pub authentic :
      lib.nas_mac_calculate ue.integrity_alg ue.knas_int n uplink (n % 256 ∷ body) ≡ some mac32

cut_header :
    (d h : ℕ) (mac rest : Bytes)
    → length mac ≡ 4
    → (drop 6 (d ∷ h ∷ (mac ++ rest)) ≡ rest) × (drop 2 (take 6 (d ∷ h ∷ (mac ++ rest))) ≡ mac)
cut_header d h mac rest e = (
  subst (λ k. drop k (mac ++ rest) ≡ rest) e (drop-append_length mac rest),
  subst (λ k. take k (mac ++ rest) ≡ mac) e (take-append_length mac rest),
)

module _ (lib : Library) (fresh msg : Message) (n : ℕ) (plain : Bytes) where
  admit-verified : (ue : AmfUe) → ue.mac_failed ≡ false → admit lib ue (some msg) ≡ ok msg
  unfolding admit
  admit-verified ue h = ground arith

  decipher-plain :
      (ue : AmfUe) (ciphered : Bool) (body : Bytes)
      → IsInvolutive lib
      → ue.mac_failed ≡ false
      → lib.count_get ue.ul_count ≡ n
      → (if ciphered
          then lib.nas_encrypt ue.ciphering_alg ue.knas_enc n uplink plain
          else some plain)
        ≡ some body
      → lib.plain_nas_decode fresh plain ≡ some msg
      → decipher lib ciphered ue fresh body ≡ (ok msg, ue)
  unfolding decipher
  decipher-plain ue false body inv ver c e d =
      let same : plain ≡ body = cc in rw (← same, d, admit-verified ue ver)
  decipher-plain ue true body inv ver c e d =
      rw (c, inv ue n plain body e, decipher) (rw (d, admit-verified ue ver))

  verify-sent :
      (ue : AmfUe) (ciphered : Bool) (mac32 body : Bytes)
      → IsInvolutive lib
      → lib.count_get ue.ul_count ≡ n
      → (if ciphered
          then lib.nas_encrypt ue.ciphering_alg ue.knas_enc n uplink plain
          else some plain)
        ≡ some body
      → lib.nas_mac_calculate ue.integrity_alg ue.knas_int n uplink (n % 256 ∷ body) ≡ some mac32
      → lib.plain_nas_decode fresh plain ≡ some msg
      → verify lib ciphered ue fresh mac32 (n % 256) body
        ≡ (ok msg, record ue { mac_failed = false })
  unfolding verify
  verify-sent ue ciphered mac32 body inv c e m d =
      rw (c, m, verify)
        (rw ((list_beq_iff mac32 mac32).1 refl)
          (decipher-plain (record ue { mac_failed = false }) ciphered body inv refl c e d))

estimate-exact :
    (lib : Library)
    → IsNasCount lib
    → (c n : ℕ) → lib.count_overflow c < 65535
    → lib.count_get c ≤ n
    → n < lib.count_get c + 256
    → lib.count_get (estimate lib c (n % 256)) ≡ n
estimate-exact lib laws c n o low high =
    let (m, above, below) = estimate_least lib laws c (n % 256) n (omega arith) o low refl in
    omega arith

-- A message that the UE sent protected under the current context is handed on: with counts and a
-- ciphering that is its own inverse, if its count `n` is not below the AMF's and less than 256 above
-- it, and the overflow counter is not at its end, Decode returns the message that the UE coded,
-- keeps the count `n`, and changes nothing else but clearing `MacFailed`.
pub decode-Sent :
    (lib : Library) (causes : ℕ → String) (ue : AmfUe) (access_type : AccessType) (ciphered : Bool)
    (n : ℕ) (plain payload : Bytes) (msg : Message)
    → IsNasCount lib
    → IsInvolutive lib
    → Sent lib ue ciphered n plain payload
    → protection (lib.get_security_header_type payload) ≡ some (ciphered, false)
    → lib.plain_nas_decode (new_message lib payload) plain ≡ some msg
    → lib.count_overflow ue.ul_count < 65535
    → lib.count_get ue.ul_count ≤ n
    → n < lib.count_get ue.ul_count + 256
    → let count = estimate lib ue.ul_count (n % 256) in
      (decode lib causes (some ue) access_type (some payload)
        ≡ (ok msg, some (record ue { mac_failed = false; ul_count = count })))
      × (lib.count_get count ≡ n)
decode-Sent lib causes ue access_type ciphered n plain payload msg laws inv s k d o low high =
    let count = estimate lib ue.ul_count (n % 256) in
    let exact = estimate-exact lib laws ue.ul_count n o low high in
    let cut = cut_header s.discriminator s.header s.mac32 (n % 256 ∷ s.body) s.mac-length in
    let seventh : drop 6 payload ≡ n % 256 ∷ s.body = ap (drop 6) s.layout ∙ cut.0 in
    let carried : drop 2 (take 6 payload) ≡ s.mac32 =
      ap (λ (p : Bytes). drop 2 (take 6 p)) s.layout ∙ cut.1 in
    let checked =
      verify-sent lib (new_message lib payload) msg n plain (record ue { ul_count = count })
        ciphered s.mac32 s.body inv exact s.ciphering s.authentic d in
    (
      (decode-receive lib causes ue access_type payload (n % 256) s.body (ciphered, false) (ok msg)
            _ k seventh).1
          (unfold receive in rw carried checked),
      exact,
    )
