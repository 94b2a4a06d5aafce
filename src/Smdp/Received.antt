-- ===== src/Smdp/Received.antt =====
-- A run of `getBoundProfilePackage` of pysim/osmo-smdpp.py whose package the eUICC decodes.
use virtual_rsp.Common.{
  ℕ, ◌≡◌, refl, sym, ap, ◌∙◌, [], ◌∷◌, ◌++◌, Option, none, some, String, ok, ok-injective, ◌==◌,
  Bool-cases, inl, inr, length, replicate, arith,
}
use virtual_rsp.Bsp.Padding.{Bytes}
use virtual_rsp.Bsp.Algo.{Bsp, encrypt_and_mac_one, mac_only_one, max_payload_size, encrypt, auth}
use virtual_rsp.Bsp.Keys.{from_kdf, bsp_key_derivation}
use virtual_rsp.Bsp.Stream.{encrypt_and_mac, mac_only, over_segments}
use virtual_rsp.BoundProfile.Tools.{ProtectedProfilePackage, SecureChannel, wrap_as_der_tlv}
use virtual_rsp.BoundProfile.Channel.{
  from_ppp, encode_inputs, session_instance, gen_initialise_secure_channel, secure_channel,
  package_metadata, gen_init_sec_chan_signed_part,
}
use virtual_rsp.BoundProfile.Encode.{keys_of}
use virtual_rsp.BoundProfile.Contents.{IsSmall}
use virtual_rsp.BoundProfile.Toy.{toy_tools, toy_tools-IsTools, field}
use virtual_rsp.Common.Dict.{find}
use virtual_rsp.Smdp.Session.{ProfileMetadata, Session, gen_store_metadata_request}
use virtual_rsp.Smdp.Server.{Server, extract_euicc_signed2}
use virtual_rsp.Smdp.Authenticate.{profile_path}
use virtual_rsp.Smdp.Download.{
  with_keys, host_id, DownloadInput, DrawnKeys, fixed_instance, download_input, download_steps,
  deliver, store_bound, get_bound_profile_package,
}
use virtual_rsp.Smdp.Sent.{keyed_session}
use virtual_rsp.Smdp.Receiving.{IsReceived, get_bound_profile_package-IsReceived}
use virtual_rsp.Smdp.Setup.{ext, config, request, session}

abbrev metadata : ProfileMetadata
metadata = record {
  iccid_bin = 0x98 ∷ 0x10 ∷ [];
  spn = "provider";
  profile_name = "profile";
  icon = none;
  notifications = [];
}

-- a session of an authenticated client
abbrev ready : Session
ready = record session {
  eid = some (8 ∷ 9 ∷ []);
  profile_metadata = some metadata;
  smdp_signature2 = some [];
  matching_id = some "M";
}

abbrev server : Server
server = record { rss = ("T", ready) ∷ []; history = []; files = ("/upp/M.der", 5 ∷ 6 ∷ []) ∷ [] }

abbrev drawn : DrawnKeys
drawn = record { ot = (5, "secp256r1"); nonce = [] }

abbrev input : DownloadInput
input = record {
  tid = "T";
  ss = ready;
  response_bin = 0xBF ∷ 0x21 ∷ 4 ∷ 0xA0 ∷ 2 ∷ 0x30 ∷ 0 ∷ [];
  signed_tid = 9 ∷ [];
  otpk = [];
  signature = replicate 64 0;
  signed2 = 0x30 ∷ 0 ∷ [];
}

read_input : download_input ext config request server ≡ ok input
unfolding download_input find extract_euicc_signed2
read_input = refl

replied :
    (get_bound_profile_package ext config drawn "now" request server).0
    ≡ ok (("transactionId", "T") ∷ ("boundProfilePackage", "64") ∷ [])
unfolding get_bound_profile_package download_steps deliver store_bound download_input find
    extract_euicc_signed2 encrypt_and_mac over_segments encrypt_and_mac_one max_payload_size encrypt
    auth from_kdf mac_only mac_only_one field gen_store_metadata_request profile_path
replied = refl

abbrev size : Option Bytes → ℕ
size none = 0
size (some c) = length c

file-IsSmall :
    (path : String) (content : Bytes) → find path server.files ≡ some content → IsSmall content
unfolding find
file-IsSmall path content h = elim (Bool-cases ("/upp/M.der" == path)) [
  | inl e ↦
      let c : some (5 ∷ 6 ∷ []) ≡ some content = rw e at h in
      omega (arith, ap (λ (o : Option Bytes). size o) c)
  | inr e ↦ let c : none ≡ some content = rw e at h in absurd (cc)
]

abbrev instance_1 : Bsp
instance_1 = record {
  s_enc = replicate 16 1;
  block_nr = 1;
  s_mac = replicate 16 1;
  mac_chain = replicate 16 1;
}

abbrev channel : SecureChannel
channel = record {
  remote_op_id = 1;
  transaction_id = 9 ∷ [];
  key_type = 0x88 ∷ [];
  key_len = 16 ∷ [];
  host_id = host_id;
  smdp_otpk = [];
}

abbrev to_sign : Bytes
to_sign = gen_init_sec_chan_signed_part toy_tools channel ++ wrap_as_der_tlv toy_tools 0x5f49 []

abbrev isc : Bytes
isc = toy_tools.encode_channel channel to_sign

inputs_run :
    (secret : Bytes) (ppp : ProtectedProfilePackage)
    → ppp.metadata ≡ some metadata
    → encode_inputs toy_tools (keyed_session ext config drawn input secret) (λ m. m) (from_ppp ppp)
      ≡ ok (instance_1, isc, 0x98 ∷ 0x10 ∷ [])
unfolding encode_inputs session_instance from_kdf bsp_key_derivation secure_channel
    gen_initialise_secure_channel package_metadata gen_store_metadata_request from_ppp with_keys
inputs_run secret ppp m = rw m refl

inputs-IsSmall :
    (secret : Bytes) (ppp : ProtectedProfilePackage) (bsp : Bsp) (isc smr : Bytes)
    → ppp.metadata ≡ some metadata
    → encode_inputs toy_tools (keyed_session ext config drawn input secret) (λ m. m) (from_ppp ppp)
      ≡ ok (bsp, isc, smr)
    → IsSmall isc × IsSmall smr
unfolding field gen_init_sec_chan_signed_part wrap_as_der_tlv
inputs-IsSmall secret ppp bsp isc smr m h =
    let e = ok-injective (sym (inputs_run secret ppp m) ∙ h) in
    (
      omega (arith, ap (λ (p : Bsp × Bytes × Bytes). length p.1) e),
      omega (arith, ap (λ (p : Bsp × Bytes × Bytes). length p.2) e),
    )

keys-IsSmall : IsSmall (toy_tools.encode_keys (keys_of fixed_instance))
unfolding keys_of field
keys-IsSmall = omega arith

get_bound_profile_package-IsReceived_example :
    IsReceived ext config
      (7, "secp256r1")
      (8 ∷ 9 ∷ [])
      server
      input
      (("transactionId", "T") ∷ ("boundProfilePackage", "64") ∷ [])
get_bound_profile_package-IsReceived_example =
    get_bound_profile_package-IsReceived ext config drawn "now" request server input
      (7, "secp256r1") (8 ∷ 9 ∷ []) (("transactionId", "T") ∷ ("boundProfilePackage", "64") ∷ [])
      toy_tools-IsTools (λ a b. refl) read_input refl refl
      (record {
        small_files = file-IsSmall;
        small_configuration = omega arith;
        small_keys = keys-IsSmall;
        small_inputs = inputs-IsSmall;
      })
      replied
