-- ===== src/BoundProfile/Channel.antt =====
-- The packages of pysim/pySim/esim/es8p.py, and what `BoundProfilePackage.encode` computes before it
-- encrypts: the session keys, the signed secure channel request and the metadata.
use virtual_rsp.Common.{
  [], ◌∷◌, ◌++◌, Option, none, some, String, Result, ok, err, ◌>>=◌, required, attribute_error,
  exception,
}
use virtual_rsp.Bsp.Padding.{Bytes}
use virtual_rsp.Bsp.Algo.{Bsp}
use virtual_rsp.Bsp.Keys.{from_kdf}
use virtual_rsp.Smdp.Session.{ProfileMetadata, Session, gen_store_metadata_request}
use virtual_rsp.BoundProfile.Tools.{
  Tools, SecureChannel, SessionKeys, wrap_as_der_tlv, UnprotectedProfilePackage,
  ProtectedProfilePackage, BoundProfilePackage,
}

-- `UnprotectedProfilePackage.from_der`
unfoldable pub from_der : Bytes → Option ProfileMetadata → UnprotectedProfilePackage
from_der der metadata = record { metadata = metadata; der = der }

-- `UnprotectedProfilePackage.to_der`
unfoldable pub to_der : UnprotectedProfilePackage → Bytes
to_der upp = upp.der

-- `BoundProfilePackage.from_ppp`
unfoldable pub from_ppp : ProtectedProfilePackage → BoundProfilePackage
from_ppp p = record { upp = none; ppp = some p }

-- `BoundProfilePackage.from_upp`
unfoldable pub from_upp : UnprotectedProfilePackage → BoundProfilePackage
from_upp u = record { upp = some u; ppp = none }

-- A part of `gen_initialiseSecureChannel`: the object that is not yet signed.
unfoldable pub secure_channel : Bytes → Bytes → Bytes → SecureChannel
secure_channel tid host_id smdp_otpk = record {
  remote_op_id = 1;
  transaction_id = tid;
  key_type = 0x88 ∷ [];
  key_len = 16 ∷ [];
  host_id = host_id;
  smdp_otpk = smdp_otpk;
}

module _ (t : Tools) where
  -- `gen_init_sec_chan_signed_part`
  unfoldable pub gen_init_sec_chan_signed_part : SecureChannel → Bytes
  unfolding wrap_as_der_tlv
  gen_init_sec_chan_signed_part i =
      let wrap = wrap_as_der_tlv t in
      let crt = wrap 0x80 i.key_type ++ wrap 0x81 i.key_len ++ wrap 0x84 i.host_id in
      wrap 0x82 (i.remote_op_id ∷ [])
      ++ wrap 0x80 i.transaction_id
      ++ wrap 0xA6 crt
      ++ wrap 0x5F49 i.smdp_otpk

  -- `gen_initialiseSecureChannel`; `sign` is `dp_pb.ecdsa_sign`
  unfoldable pub gen_initialise_secure_channel :
      (Bytes → Bytes)
      → String
      → Bytes
      → Option Bytes
      → Option Bytes
      → Result (SecureChannel × Bytes)
  unfolding secure_channel gen_init_sec_chan_signed_part
  gen_initialise_secure_channel sign tid host_id smdp_otpk euicc_otpk = do
    tid_bin ← t.h2b tid
    otpk ← required (exception "TypeError") smdp_otpk
    let init_scr = secure_channel tid_bin host_id otpk
    peer ← required (exception "TypeError") euicc_otpk
    let to_sign = gen_init_sec_chan_signed_part init_scr ++ wrap_as_der_tlv t 0x5f49 peer
    ok (init_scr, sign to_sign)

  -- `gen_replace_session_keys`
  unfoldable pub gen_replace_session_keys : SessionKeys → Bytes
  gen_replace_session_keys = t.encode_keys

  -- `(self.upp or self.ppp).metadata`, an attribute of `None` where there is neither
  unfoldable pub package_metadata : BoundProfilePackage → Result ProfileMetadata
  package_metadata b = elim b.upp [
    | some u ↦ required attribute_error u.metadata
    | none ↦ elim b.ppp [
      | some p ↦ required attribute_error p.metadata
      | none ↦ err attribute_error
    ]
  ]

  -- The instance with the session keys.
  unfoldable pub session_instance : Session → Result Bsp
  session_instance ss = do
    eid_text ← required (exception "TypeError") ss.eid
    eid ← t.eid_bytes eid_text
    host_id ← required (exception "TypeError") ss.host_id
    secret ← required (exception "TypeError") ss.shared_secret
    from_kdf t.kdf t.crypto.encode_len secret 0x88 16 host_id eid

  -- The instance, the encoded secure channel request and the encoded metadata.
  unfoldable pub encode_inputs :
      Session → (Bytes → Bytes) → BoundProfilePackage → Result (Bsp × Bytes × Bytes)
  unfolding session_instance gen_initialise_secure_channel package_metadata
  encode_inputs ss sign b = do
    bsp ← session_instance ss
    host_id ← required (exception "TypeError") ss.host_id
    (iscr, signature) ←
        gen_initialise_secure_channel sign ss.transaction_id host_id ss.smdp_otpk ss.euicc_otpk
    metadata ← package_metadata b
    smr_bin ← gen_store_metadata_request t.encode_metadata metadata
    ok (bsp, t.encode_channel iscr signature, smr_bin)
