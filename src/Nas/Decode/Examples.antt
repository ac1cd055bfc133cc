-- ===== src/Nas/Decode/Examples.antt =====
-- The theorems on Decode at concrete payloads, a UE with a security context, and a library.
use amf_cdac.Base.{ℕ, ◌≡◌, refl, ◌⊎◌, [], ◌∷◌, some, true, false, arith, load, String, ◌≤◌, ◌%◌}
use text.Mathlib.TextEquality.{eq_iff}
use amf_cdac.Types.{Bytes, access_3gpp, access_type_eq}
use amf_cdac.Ue.{AmfUe}
use amf_cdac.Nas.Message.{Message}
use amf_cdac.Nas.Samples.{toy, coded, toy-IsNasCount, secured}
use amf_cdac.Nas.Decode.{
  ok, err, mac_verification_failed, plain_exempt, mac_exempt, decode, estimate, new_message,
}
use amf_cdac.Nas.Decode.Integrity.{Carries, Authentic, decode-Authentic, decode-plain_restricted}
use amf_cdac.Nas.Decode.Counting.{estimate_least, decode-keeps_estimate, decode-replays}
use amf_cdac.Nas.Decode.RoundTrip.{Sent, decode-Sent}

-- Every RanUe was established for a reason that is no emergency.
abbrev causes : ℕ → String
causes p = "3"

abbrev held : AmfUe
held = record secured { ran_ue = (access_3gpp, 0) ∷ [] }

-- A ciphered message under the count 6, with its MAC, and the same with another MAC.
abbrev genuine : Bytes
genuine = 126 ∷ 2 ∷ 6 ∷ 3 ∷ 7 ∷ 7 ∷ 6 ∷ 126 ∷ 0 ∷ []

abbrev forged : Bytes
forged = 126 ∷ 2 ∷ 6 ∷ 3 ∷ 7 ∷ 8 ∷ 6 ∷ 126 ∷ 0 ∷ []

abbrev accepted : Message
accepted = coded (new_message toy genuine) (126 ∷ 0 ∷ [])

-- A registration request that is sent plain.
abbrev plain_request : Bytes
plain_request = 126 ∷ 0 ∷ 65 ∷ []

-- A session management message with a wrong MAC.
abbrev session_message : Bytes
session_message = 126 ∷ 1 ∷ 0 ∷ 0 ∷ 0 ∷ 0 ∷ 6 ∷ 46 ∷ []

decode-Authentic_example :
    Authentic toy (record held { ul_count = 6 }) genuine ⊎ Carries mac_exempt accepted
unfolding decode
decode-Authentic_example =
    decode-Authentic toy causes held access_3gpp genuine accepted _ (λ e. ground arith) refl

decode-plain_restricted_example :
    Carries plain_exempt (coded (new_message toy plain_request) plain_request) × (false ≡ false)
unfolding decode load
decode-plain_restricted_example =
    decode-plain_restricted toy causes held access_3gpp plain_request
      (coded (new_message toy plain_request) plain_request)
      (record held { mac_failed = false; security_context_available = false }) refl refl
      (λ e. ground (arith, eq_iff "3" "0")) refl

estimate_least_example :
    (toy.count_get (estimate toy 250 3) % 256 ≡ 3)
    × (250 ≤ toy.count_get (estimate toy 250 3))
    × (toy.count_get (estimate toy 250 3) ≤ 259)
estimate_least_example =
    estimate_least toy toy-IsNasCount 250 3 259 (omega arith) (omega arith) (omega arith) refl

decode-keeps_estimate_example :
    record held { mac_failed = true; ul_count = 6 }
    ≡ record held { mac_failed = true; ul_count = estimate toy 5 6 }
unfolding decode
decode-keeps_estimate_example =
    decode-keeps_estimate toy causes held access_3gpp forged 6 (126 ∷ 0 ∷ []) true false
      (err mac_verification_failed) (record held { mac_failed = true; ul_count = 6 }) refl refl refl

decode-replays_example :
    decode toy causes (some (record held { ul_count = 6 })) access_3gpp (some genuine)
    ≡ (ok accepted, some (record held { ul_count = 6 }))
unfolding decode
decode-replays_example =
    decode-replays toy causes held access_3gpp genuine 6 (126 ∷ 0 ∷ []) true (ok accepted)
      (record held { ul_count = 6 }) toy-IsNasCount refl refl (omega arith) refl

genuine-Sent : Sent toy held true 6 (126 ∷ 0 ∷ []) genuine
genuine-Sent = record {
  discriminator = 126;
  header = 2;
  mac32 = 6 ∷ 3 ∷ 7 ∷ 7 ∷ [];
  body = 126 ∷ 0 ∷ [];
  layout = refl;
  mac-length = refl;
  ciphering = refl;
  authentic = refl;
}

decode-Sent_example :
    let count = estimate toy 5 6 in
    (decode toy causes (some held) access_3gpp (some genuine)
      ≡ (ok accepted, some (record held { mac_failed = false; ul_count = count })))
    × (toy.count_get count ≡ 6)
decode-Sent_example =
    decode-Sent toy causes held access_3gpp true 6 (126 ∷ 0 ∷ []) genuine accepted toy-IsNasCount
      (λ ue n x y e. cc) genuine-Sent refl refl (omega arith) (omega arith) (omega arith)
