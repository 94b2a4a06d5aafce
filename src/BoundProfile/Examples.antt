-- ===== src/BoundProfile/Examples.antt =====
-- Packages of pysim/pySim/esim/es8p.py with the toy functions: a profile under its own keys, as
-- pysim/osmo-smdpp.py binds it, and one under the session keys.
use virtual_rsp.Common.{
  ℕ, ◌^◌, ◌<◌, ◌≡◌, ◌⊎◌, inr, refl, List, [], ◌∷◌, ◌++◌, none, some, ok, err, Error, length,
  replicate, arith,
}
use virtual_rsp.Bsp.Padding.{Bytes, pad_to_multiple}
use virtual_rsp.Bsp.Algo.{Bsp, encrypt_and_mac_one, mac_only_one, encrypt, auth, max_payload_size}
use virtual_rsp.Bsp.Keys.{from_kdf, bsp_key_derivation}
use virtual_rsp.Bsp.Stream.{encrypt_and_mac, mac_only, over_segments}
use virtual_rsp.Smdp.Eid.{Text}
use virtual_rsp.Smdp.Session.{ProfileMetadata, Session, gen_store_metadata_request}
use virtual_rsp.BoundProfile.Tools.{
  SecureChannel, wrap_as_der_tlv, UnprotectedProfilePackage, ProtectedProfilePackage,
  BoundProfilePackage,
}
use virtual_rsp.BoundProfile.Channel.{
  session_instance, secure_channel, gen_initialise_secure_channel, package_metadata, encode_inputs,
}
use virtual_rsp.BoundProfile.Encode.{
  keys_of, protected_as, protect, encode, join, encode_seq, last_sequences, bpp_sequence,
}
use virtual_rsp.BoundProfile.Decode.{Decoded, split_bertlv_sequence, decode}
use virtual_rsp.BoundProfile.Splitting.{split_bertlv_sequence_lem}
use virtual_rsp.BoundProfile.RoundTrip.{decode-encode}
use virtual_rsp.BoundProfile.Wrapping.{decode-encode_fails}
use virtual_rsp.BoundProfile.Toy.{toy_tools, toy_tools-IsTools, field}

abbrev metadata : ProfileMetadata
metadata = record {
  iccid_bin = 0x98 ∷ 0x10 ∷ [];
  spn = "provider";
  profile_name = "profile";
  icon = none;
  notifications = [];
}

abbrev upp : UnprotectedProfilePackage
upp = record { metadata = some metadata; der = 1 ∷ 2 ∷ 3 ∷ [] }

-- `BspInstance(b'\x00'*16, b'\x11'*16, b'\x22'*16)`
abbrev fixed : Bsp
fixed = record {
  s_enc = replicate 16 0x00;
  block_nr = 1;
  s_mac = replicate 16 0x11;
  mac_chain = replicate 16 0x22;
}

abbrev eid_text : Text
eid_text = 8 ∷ 9 ∷ []

abbrev session : Session
session = record {
  transaction_id = "T";
  server_challenge = [];
  ci_cert_id = [];
  euicc_cert = none;
  eum_cert = none;
  eid = some eid_text;
  profile_metadata = some metadata;
  smdp_signature2 = none;
  euicc_otpk = some (7 ∷ []);
  smdp_ot = none;
  smdp_otpk = some (4 ∷ 5 ∷ []);
  host_id = some (109 ∷ []);
  shared_secret = some (4 ∷ 5 ∷ []);
  matching_id = none;
}

abbrev segment : Bytes
segment = 0x86 ∷ 24 ∷ 1 ∷ 2 ∷ 3 ∷ 0x80 ∷ replicate 12 0 ++ 836 ∷ replicate 7 0

abbrev ppp : ProtectedProfilePackage
ppp = record { metadata = some metadata; upp = upp; keys = keys_of fixed; encoded = segment ∷ [] }

abbrev after : Bsp
after = record fixed { block_nr = 2; mac_chain = 836 ∷ replicate 15 0 }

fixed_protects : protect toy_tools upp fixed ≡ (ok ppp, after)
unfolding protect encrypt_and_mac over_segments encrypt_and_mac_one encrypt auth pad_to_multiple
    max_payload_size keys_of protected_as
fixed_protects = refl

abbrev bound : BoundProfilePackage
bound = record { upp = none; ppp = some ppp }

abbrev instance_1 : Bsp
instance_1 = record {
  s_enc = replicate 16 1;
  block_nr = 1;
  s_mac = replicate 16 1;
  mac_chain = replicate 16 1;
}

abbrev channel : SecureChannel
channel = record {
  remote_op_id = 1;
  transaction_id = 9 ∷ [];
  key_type = 0x88 ∷ [];
  key_len = 16 ∷ [];
  host_id = 109 ∷ [];
  smdp_otpk = 4 ∷ 5 ∷ [];
}

abbrev isc : Bytes
isc = toy_tools.encode_channel channel []

inputs : encode_inputs toy_tools session (λ _. []) bound ≡ ok (instance_1, isc, 0x98 ∷ 0x10 ∷ [])
unfolding encode_inputs session_instance from_kdf bsp_key_derivation secure_channel
    gen_initialise_secure_channel package_metadata gen_store_metadata_request
inputs = refl

few : length (toy_tools.encode_keys (keys_of fixed)) < 2 ^ 20
unfolding keys_of field
few = omega arith

small_isc : length isc < 2 ^ 20
unfolding field
small_isc = omega arith

decode-encode_example :
    (bpp_seq : Bytes) × (b' : BoundProfilePackage) × (d : Decoded) × (encode toy_tools session
        (λ _. [])
        bound
      ≡ ok (wrap_as_der_tlv toy_tools 0xBF36 bpp_seq, b'))
    × (decode toy_tools (0, "curve") eid_text bpp_seq ≡ ok d)
    × (d.upp ≡ 1 ∷ 2 ∷ 3 ∷ [])
    × (d.shared_secret ≡ 4 ∷ 5 ∷ [])
    × (d.encoded_store_metadata ≡ 0x98 ∷ 0x10 ∷ [])
    × (toy_tools.decode_metadata (0x98 ∷ 0x10 ∷ []) ≡ ok d.store_metadata)
decode-encode_example =
    decode-encode toy_tools toy_tools-IsTools (λ _. []) session bound upp (0, "curve") eid_text
      (4 ∷ 5 ∷ []) (4 ∷ 5 ∷ []) isc (0x98 ∷ 0x10 ∷ []) instance_1 inputs
      (inr (fixed, after, ppp, refl, fixed_protects, refl, few)) refl refl refl refl small_isc
      (omega arith) (omega arith) (omega arith)

abbrev two_tlvs : Bytes
two_tlvs = 0x86 ∷ 1 ∷ 7 ∷ 0x87 ∷ 0 ∷ []

split_bertlv_sequence_lem_example :
    ((tlvs : List Bytes) × (split_bertlv_sequence toy_tools two_tlvs ≡ ok tlvs)
      × (join tlvs ≡ two_tlvs))
    ⊎ ((rest : Bytes) × (e : Error) × (toy_tools.return_rawtlv rest ≡ err e)
        × (split_bertlv_sequence toy_tools two_tlvs ≡ err e))
split_bertlv_sequence_lem_example = split_bertlv_sequence_lem toy_tools toy_tools-IsTools two_tlvs

two_segments :
    split_bertlv_sequence toy_tools two_tlvs ≡ ok ((0x86 ∷ 1 ∷ 7 ∷ []) ∷ (0x87 ∷ 0 ∷ []) ∷ [])
unfolding split_bertlv_sequence
two_segments = refl

abbrev zeros : ℕ → Bytes
zeros n = replicate n 0

abbrev sequence_a0 : Bytes
sequence_a0 = 0xA0 ∷ 26 ∷ 0x87 ∷ 24 ∷ 0xBF ∷ 0x24 ∷ 0 ∷ 0x80 ∷ zeros 12 ++ 530 ∷ zeros 7

abbrev sequence_a1 : Bytes
sequence_a1 = 0xA1 ∷ 12 ∷ 0x88 ∷ 10 ∷ 0x98 ∷ 0x10 ∷ 844 ∷ zeros 7

abbrev keys_bytes : Bytes
keys_bytes = 16 ∷ zeros 16 ++ 16 ∷ replicate 16 0x11 ++ 16 ∷ replicate 16 0x22

abbrev sequence_a2 : Bytes
sequence_a2 = (0xA2 ∷ 74 ∷ 0x87 ∷ 72 ∷ keys_bytes) ++ 0x80 ∷ zeros 12 ++ 2043 ∷ zeros 7

-- The whole package: request, configuration, metadata, keys and profile.
abbrev encoded : Bytes
encoded =
    0xBF
    ∷ 0x36
    ∷ 0x81
    ∷ 162
    ∷ (isc ++ sequence_a0 ++ sequence_a1 ++ sequence_a2 ++ (0xA3 ∷ 26 ∷ segment))

bound_encoded : encode toy_tools session (λ _. []) bound ≡ ok (encoded, bound)
unfolding encode encode_inputs session_instance from_kdf bsp_key_derivation secure_channel
    gen_initialise_secure_channel package_metadata gen_store_metadata_request field protect
    encrypt_and_mac over_segments encrypt_and_mac_one encrypt auth pad_to_multiple max_payload_size
    keys_of protected_as mac_only mac_only_one wrap_as_der_tlv join encode_seq last_sequences
    bpp_sequence
bound_encoded = refl

small_encoded : length encoded < 2 ^ 32
unfolding field
small_encoded = omega arith

decode-encode_fails_example : (e : Error) × (decode toy_tools (0, "curve") eid_text encoded ≡ err e)
decode-encode_fails_example =
    decode-encode_fails toy_tools toy_tools-IsTools (λ _. []) session bound bound (0, "curve")
      eid_text encoded bound_encoded small_encoded
