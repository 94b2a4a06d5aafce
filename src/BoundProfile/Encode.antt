-- ===== src/BoundProfile/Encode.antt =====
-- `ProtectedProfilePackage.from_upp` and `BoundProfilePackage.encode` of pysim/pySim/esim/es8p.py.
use virtual_rsp.Common.{ℕ, [], ◌∷◌, ◌++◌, none, some, List, Result, ok, err, attribute_error}
use virtual_rsp.Common.Exec.{Exec, pure, lift, gets, ◌>>=◌}
use virtual_rsp.Bsp.Padding.{Bytes}
use virtual_rsp.Bsp.Algo.{Bsp}
use virtual_rsp.Bsp.Stream.{encrypt_and_mac, mac_only}
use virtual_rsp.Smdp.Session.{Session}
use virtual_rsp.BoundProfile.Tools.{
  Tools, SessionKeys, wrap_as_der_tlv, UnprotectedProfilePackage, ProtectedProfilePackage,
  BoundProfilePackage,
}
use virtual_rsp.BoundProfile.Channel.{to_der, gen_replace_session_keys, encode_inputs}

-- `b''.join(sequence)`
unfoldable pub join : List Bytes → Bytes
join [] = []
join (x ∷ xs) = x ++ join xs

-- The keys of an instance: `s_enc`, `s_mac` and the chaining value.
unfoldable pub keys_of : Bsp → SessionKeys
keys_of b = record { ppk_enc = b.s_enc; ppk_cmac = b.s_mac; initial_mcv = b.mac_chain }

unfoldable pub protected_as :
    UnprotectedProfilePackage → SessionKeys → List Bytes → ProtectedProfilePackage
protected_as upp keys encoded = record {
  metadata = upp.metadata;
  upp = upp;
  keys = keys;
  encoded = encoded;
}

module _ (t : Tools) where
  -- `ProtectedProfilePackage.from_upp`, which keeps the keys that the instance has on entry
  unfoldable pub protect : UnprotectedProfilePackage → Exec Bsp ProtectedProfilePackage
  unfolding to_der keys_of protected_as
  protect upp = do
    keys ← gets keys_of
    encoded ← encrypt_and_mac t.crypto 0x86 (to_der upp)
    pure (protected_as upp keys encoded)

  -- `encode_seq`
  unfoldable pub encode_seq : ℕ → List Bytes → Bytes
  unfolding wrap_as_der_tlv join
  encode_seq tag sequence = wrap_as_der_tlv t tag (join sequence)

  -- The last sequences, of a package that is protected already or that is protected now.
  unfoldable pub last_sequences : BoundProfilePackage → Exec Bsp (Bytes × ProtectedProfilePackage)
  unfolding encode_seq protect gen_replace_session_keys
  last_sequences b = elim b.ppp [
    | some p ↦ do
      tlvs ← encrypt_and_mac t.crypto 0x87 (gen_replace_session_keys t p.keys)
      pure (encode_seq 0xa2 tlvs ++ encode_seq 0xa3 p.encoded, p)
    | none ↦ elim b.upp [
      | some u ↦ do p ← protect u; pure (encode_seq 0xa3 p.encoded, p)
      | none ↦ lift (err attribute_error)
    ]
  ]

  -- What stands in the package, and the protected package, which is kept in `self.ppp`.
  unfoldable pub bpp_sequence :
      Bytes → Bytes → BoundProfilePackage → Exec Bsp (Bytes × ProtectedProfilePackage)
  unfolding last_sequences
  bpp_sequence iscr_bin smr_bin b = do
    first ← encrypt_and_mac t.crypto 0x87 t.configure_isdp
    second ← mac_only t.crypto 0x88 smr_bin
    (rest, p) ← last_sequences b
    pure (iscr_bin ++ (encode_seq 0xa0 first ++ (encode_seq 0xa1 second ++ rest)), p)

  -- the sequence wrapped in BF36, and the package with its `ppp`
  unfoldable pub finished :
      BoundProfilePackage
      → Result (Bytes × ProtectedProfilePackage)
      → Result (Bytes × BoundProfilePackage)
  finished b (err e) = err e
  finished b (ok (bpp_seq, p)) = ok (wrap_as_der_tlv t 0xBF36 bpp_seq, record b { ppp = some p })

  unfoldable pub encode_from :
      BoundProfilePackage → Result (Bsp × Bytes × Bytes) → Result (Bytes × BoundProfilePackage)
  unfolding bpp_sequence finished
  encode_from b (err e) = err e
  encode_from b (ok (bsp, iscr_bin, smr_bin)) = finished b (bpp_sequence iscr_bin smr_bin b bsp).0

  -- `BoundProfilePackage.encode`, with the object as it leaves it
  unfoldable pub encode :
      Session → (Bytes → Bytes) → BoundProfilePackage → Result (Bytes × BoundProfilePackage)
  unfolding encode_inputs encode_from
  encode ss sign b = encode_from b (encode_inputs t ss sign b)
