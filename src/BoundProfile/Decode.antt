-- ===== src/BoundProfile/Decode.antt =====
-- `BoundProfilePackage.decode` of pysim/pySim/esim/es8p.py: what happens inside an eUICC. What
-- `decode` leaves in the object is its result.
use virtual_rsp.Common.{
  ℕ, zero, suc, [], ◌∷◌, Option, none, some, List, Result, ok, err, ◌>>=◌, ◌>>◌, not, raise_if,
  value_error, nat_beq, length, String, if◌then◌else◌,
}
use virtual_rsp.Bsp.Padding.{Bytes}
use virtual_rsp.Bsp.Algo.{Bsp}
use virtual_rsp.Bsp.Keys.{from_kdf}
use virtual_rsp.Bsp.Stream.{demac_and_decrypt, demac_only}
use virtual_rsp.Smdp.Eid.{Text}
use virtual_rsp.Smdp.Session.{StoreMetadata}
use virtual_rsp.BoundProfile.Tools.{Tools, SecureChannel, SessionKeys, from_bytes}

-- The TLVs of a package before anything is decrypted; `second` is `secondSeqOf87`.
pub record Sequences : Type 0 where
  pub iscr : SecureChannel
  pub first : List Bytes
  pub metadata : List Bytes
  pub second : Option (List Bytes)
  pub profile : List Bytes

pub record Decoded : Type 0 where
  pub shared_secret : Bytes
  pub encoded_configure : Bytes
  pub encoded_store_metadata : Bytes
  pub store_metadata : StoreMetadata
  pub replace_session_keys : Option SessionKeys
  pub upp : Bytes

-- `BspInstance(s_enc, s_mac, initial_mcv)`
unfoldable pub bsp_instance : SessionKeys → Bsp
bsp_instance k = record {
  s_enc = k.ppk_enc;
  block_nr = 1;
  s_mac = k.ppk_cmac;
  mac_chain = k.initial_mcv;
}

module _ (t : Tools) where
  -- The loop of `split_bertlv_sequence`, on fuel. A TLV has at least one byte, so the number of
  -- bytes is enough.
  unfoldable pub split_from : ℕ → Bytes → Result (List Bytes)
  split_from fuel [] = ok []
  split_from zero (b ∷ bs) = err (value_error "fuel")
  split_from (suc fuel) (b ∷ bs) = do
    (_, tlv, remainder) ← t.return_rawtlv (b ∷ bs)
    tlvs ← split_from fuel remainder
    ok (tlv ∷ tlvs)

  -- `split_bertlv_sequence`
  unfoldable pub split_bertlv_sequence : Bytes → Result (List Bytes)
  unfolding split_from
  split_bertlv_sequence m = split_from (length m) m

  -- The next TLV, which must have this tag: the TLVs in it, and the remainder.
  unfoldable pub expect_seq : ℕ → Bytes → Result (List Bytes × Bytes)
  unfolding split_bertlv_sequence
  expect_seq expected m = do
    (tag, v, remainder) ← t.parse_rawtag m
    raise_if (not (nat_beq tag expected)) (value_error "Unexpected tag")
    tlvs ← split_bertlv_sequence v
    ok (tlvs, remainder)

  -- `secondSequenceOf87`, if it is there, and `sequenceOf86`
  unfoldable pub last_seqs : Bytes → Result (Option (List Bytes) × List Bytes)
  unfolding expect_seq
  last_seqs m = do
    (tag, tlv, remainder) ← t.parse_rawtag m
    if nat_beq tag 0xa2
        then (do
          second ← split_bertlv_sequence tlv
          (profile, _) ← expect_seq 0xa3 remainder
          ok (some second, profile))
        else if nat_beq tag 0xa3
        then (do profile ← split_bertlv_sequence tlv; ok (none, profile))
        else err (value_error "Unexpected 'secondSequenceOf87' tag")

  unfoldable pub sequences : Bytes → Result Sequences
  unfolding expect_seq last_seqs
  sequences bpp_bin = do
    (_, iscr_bin, remainder) ← t.return_rawtlv bpp_bin
    (iscr, _) ← t.decode_channel iscr_bin
    (first, remainder1) ← expect_seq 0xa0 remainder
    (metadata, remainder2) ← expect_seq 0xa1 remainder1
    (second, profile) ← last_seqs remainder2
    ok (record {
      iscr = iscr;
      first = first;
      metadata = metadata;
      second = second;
      profile = profile;
    })

  -- The session keys, from the one-time key pair of the eUICC.
  unfoldable pub channel_instance : ℕ × String → Text → SecureChannel → Result (Bytes × Bsp)
  unfolding from_bytes
  channel_instance euicc_ot eid iscr = do
    secret ← t.exchange euicc_ot iscr.smdp_otpk
    eid_bin ← t.eid_bytes eid
    bsp ←
        from_kdf t.kdf t.crypto.encode_len secret (from_bytes 0 iscr.key_type)
          (from_bytes 0 iscr.key_len) iscr.host_id eid_bin
    ok (secret, bsp)

  -- The keys of the profile: those of `ReplaceSessionKeysRequest`, or the session keys.
  unfoldable pub profile_instance : Option (List Bytes) → Bsp → Result (Option SessionKeys × Bsp)
  unfolding bsp_instance
  profile_instance none bsp = ok (none, bsp)
  profile_instance (some tlvs) bsp = do
    rsk_bin ← (demac_and_decrypt t.crypto tlvs bsp).0
    rsk ← t.decode_keys rsk_bin
    ok (some rsk, bsp_instance rsk)

  unfoldable pub decode_sequences : Bytes → Sequences → Bsp → Result Decoded
  unfolding profile_instance
  decode_sequences secret q bsp = do
    let (conf, bsp1) = demac_and_decrypt t.crypto q.first bsp
    let (smr, bsp2) = demac_only t.crypto q.metadata bsp1
    conf_bin ← conf
    t.decode_configure conf_bin
    smr_bin ← smr
    store_metadata ← t.decode_metadata smr_bin
    (keys, bsp3) ← profile_instance q.second bsp2
    upp ← (demac_and_decrypt t.crypto q.profile bsp3).0
    ok (record {
      shared_secret = secret;
      encoded_configure = conf_bin;
      encoded_store_metadata = smr_bin;
      store_metadata = store_metadata;
      replace_session_keys = keys;
      upp = upp;
    })

  -- `BoundProfilePackage.decode`
  unfoldable pub decode : ℕ × String → Text → Bytes → Result Decoded
  unfolding sequences channel_instance decode_sequences
  decode euicc_ot eid bpp_bin = do
    q ← sequences bpp_bin
    (secret, bsp) ← channel_instance euicc_ot eid q.iscr
    decode_sequences secret q bsp
