-- ===== src/Nas/Encode/Layout.antt =====
-- What Encode sends, and the counts that it leaves (nas/nas_security/security.go).
use amf_cdac.Base.{
  ◌≡◌, refl, subst, sym, inl, inr, ◌∷◌, ◌++◌, some, Bool, true, false, arith, Option-cases,
  if◌then◌else◌,
}
use amf_cdac.Types.{Bytes}
use amf_cdac.Ue.{AmfUe}
use amf_cdac.Nas.Message.{
  HeaderType, integrity_protected, integrity_protected_and_ciphered,
  integrity_protected_with_new_context, Message, Library, downlink,
}
use amf_cdac.Nas.Encode.{
  Encoded, ok, err, authenticate, cipher, protect, encode_by, encode_for, encode, plain,
}

-- The bits of a header type that Encode acts on.
abbrev pub ciphers : HeaderType → Bool
ciphers integrity_protected_and_ciphered = true
ciphers _ = false

abbrev pub renews : HeaderType → Bool
renews integrity_protected_with_new_context = true
renews _ = false

module _ (lib : Library) where
  -- The UE with the counts under which a message of this header type is sent.
  abbrev pub before : HeaderType → AmfUe → AmfUe
  before t ue =
      if renews t
      then record ue { ul_count = lib.count_set 0 0; dl_count = lib.count_set 0 0 }
      else ue

  -- The octets of a protected message under the downlink count of `ue` (TS 24.501 9.1.1).
  pub record Protected (ciphered : Bool) (ue : AmfUe) (msg : Message) (out : Bytes) : Type 0 where
    pub text : Bytes
    pub body : Bytes
    pub mac32 : Bytes
    pub coded : lib.plain_nas_encode msg ≡ some text
    pub ciphering :
        (if ciphered
          then lib.nas_encrypt ue.ciphering_alg ue.knas_enc
              (lib.count_get ue.dl_count)
              downlink
              text
          else some text)
        ≡ some body
    pub authentic :
        lib.nas_mac_calculate ue.integrity_alg ue.knas_int
          (lib.count_get ue.dl_count)
          downlink
          (lib.count_sqn ue.dl_count ∷ body)
        ≡ some mac32
    pub layout :
        out
        ≡ msg.protocol_discriminator
          ∷ lib.header_octet msg.security_header_type
          ∷ (mac32 ++ (lib.count_sqn ue.dl_count ∷ body))

  -- A successful step sends the layout and steps the downlink count; a failed one changes nothing.
  abbrev pub Outcome : Bool → AmfUe → Message → Encoded × AmfUe → Type 0
  Outcome ciphered ue msg (ok out, ue') =
      Protected ciphered ue msg out × (ue' ≡ record ue { dl_count = lib.count_add_one ue.dl_count })
  Outcome ciphered ue msg (err e, ue') = ue' ≡ ue

  authenticate-Outcome :
      (ciphered : Bool) (ue : AmfUe) (msg : Message) (text body : Bytes)
      → lib.plain_nas_encode msg ≡ some text
      → (if ciphered
          then lib.nas_encrypt ue.ciphering_alg ue.knas_enc
              (lib.count_get ue.dl_count)
              downlink
              text
          else some text)
        ≡ some body
      → Outcome ciphered ue msg (authenticate lib ue msg body)
  unfolding authenticate
  authenticate-Outcome ciphered ue msg text body p c =
      elim (Option-cases (
        lib.nas_mac_calculate ue.integrity_alg ue.knas_int (lib.count_get ue.dl_count) downlink
          (lib.count_sqn ue.dl_count ∷ body))) [
            | inl e ↦ rw (e, authenticate) refl
            | inr (mac, e) ↦
                rw (e, authenticate)
                  (
                    record {
                      text = text;
                      body = body;
                      mac32 = mac;
                      coded = p;
                      ciphering = c;
                      authentic = e;
                      layout = refl;
                    },
                    refl,
                  )
          ]

  cipher-Outcome :
      (ciphered : Bool) (ue : AmfUe) (msg : Message) (text : Bytes)
      → lib.plain_nas_encode msg ≡ some text
      → Outcome ciphered ue msg (cipher lib ciphered ue msg text)
  unfolding cipher
  cipher-Outcome false ue msg text p = authenticate-Outcome false ue msg text text p refl
  cipher-Outcome true ue msg text p =
      elim (Option-cases
        (lib.nas_encrypt ue.ciphering_alg ue.knas_enc (lib.count_get ue.dl_count) downlink text)) [
          | inl e ↦ rw (e, cipher) refl
          | inr (body, e) ↦ rw (e, cipher) (authenticate-Outcome true ue msg text body p e)
        ]

  protect-Outcome :
      (ciphered : Bool) (ue : AmfUe) (msg : Message)
      → Outcome ciphered ue msg (protect lib ciphered ue msg)
  unfolding protect
  protect-Outcome ciphered ue msg = elim (Option-cases (lib.plain_nas_encode msg)) [
    | inl e ↦ rw (e, protect) refl
    | inr (text, e) ↦ rw (e, protect) (cipher-Outcome ciphered ue msg text e)
  ]

  encode_by-Outcome :
      (t : HeaderType) (ue : AmfUe) (msg : Message)
      → Outcome (ciphers t) (before t ue) msg (encode_by lib t ue msg)
  unfolding encode_by
  encode_by-Outcome integrity_protected ue msg = protect-Outcome false ue msg
  encode_by-Outcome integrity_protected_and_ciphered ue msg = protect-Outcome true ue msg
  encode_by-Outcome integrity_protected_with_new_context ue msg =
      protect-Outcome false (before integrity_protected_with_new_context ue) msg
  encode_by-Outcome _ ue msg = refl

  pub encode_for-Outcome :
      (ue : AmfUe) (msg : Message)
      → ue.security_context_available ≡ true
      → let t = msg.security_header_type in
        Outcome (ciphers t) (before t ue) msg (encode_for lib ue msg)
  unfolding encode_for
  encode_for-Outcome ue msg a =
      let t = msg.security_header_type in
      subst
        (λ b.
          Outcome (ciphers t) (before t ue) msg
            (if b then encode_by lib t ue msg else plain lib ue msg))
        (sym a) (encode_by-Outcome t ue msg)

-- For a UE with a security context, Encode either sends the protocol discriminator, the security
-- header octet, the MAC, the sequence number and the coded and, if the header type asks for it,
-- ciphered message, all under the UE's downlink count, and steps that count by one; or it returns
-- an error and the UE is as it was. With the header type of a new context both happen after the two
-- counts were set to 0, so there an error leaves them reset.
pub encode-Outcome :
    (lib : Library) (ue : AmfUe) (msg : Message) (out : Encoded) (ue' : AmfUe)
    → ue.security_context_available ≡ true
    → encode lib (some ue) (some msg) ≡ (out, some ue')
    → let t = msg.security_header_type in Outcome lib (ciphers t) (before lib t ue) msg (out, ue')
unfolding encode
encode-Outcome lib ue msg out ue' a h =
    let t = msg.security_header_type in
    let step : encode_for lib ue msg ≡ (out, ue') = ground arith in
    subst (λ r. Outcome lib (ciphers t) (before lib t ue) msg r) step
      (encode_for-Outcome lib ue msg a)
