-- ===== src/Bsp/Algo.antt =====
-- The algorithms of pysim/pySim/esim/bsp.py and the protection of one segment. The block cipher,
-- the MAC and the BER-TLV functions are parameters.
use virtual_rsp.Common.{
  ℕ, zero, suc, ◌+◌, ◌-◌, ◌%◌, ◌/◌, ◌^◌, ◌≤◌, ◌<◌, ◌≡◌, ◌≢◌, [], ◌∷◌, ◌++◌, Option, none, some,
  Result, ok, err, raise_if, not, assertion_error, value_error, ltb, leb, nat_beq, if◌then◌else◌,
  length, take, drop, replicate, bytes_beq,
}
use virtual_rsp.Common.Exec.{Exec, pure, lift, gets, modify, ◌>>=◌, ◌>>◌}
use virtual_rsp.Bsp.Padding.{Bytes, pad_to_multiple, unpad}

-- AES in CBC mode, CMAC, and the BER-TLV functions of pyosmocom.
pub record Crypto : Type 0 where
  pub cbc_encrypt : Bytes → Bytes → Bytes → Bytes
  pub cbc_decrypt : Bytes → Bytes → Bytes → Bytes
  pub cmac : Bytes → Bytes → Bytes
  pub encode_len : ℕ → Bytes
  pub parse_one : Bytes → Option (Bytes × Bytes)

-- What the code relies on: CBC decrypts what it encrypted and keeps the length of whole blocks; a
-- CMAC has 16 bytes; a length is one byte below 128, two below 256 and else three; the parser
-- returns the value after a tag of one byte and a length, the whole rest where the length promises
-- more.
pub record IsCrypto (c : Crypto) : Type 0 where
  pub cbc_inverse :
      (k iv m : Bytes) → length m % 16 ≡ 0 → c.cbc_decrypt k iv (c.cbc_encrypt k iv m) ≡ m
  pub cbc_length : (k iv m : Bytes) → length m % 16 ≡ 0 → length (c.cbc_encrypt k iv m) ≡ length m
  pub cmac_length : (k m : Bytes) → length (c.cmac k m) ≡ 16
  pub encode_len_size :
      (n : ℕ)
      → n < 65536
      → length (c.encode_len n) ≡ (if ltb n 128 then 1 else if ltb n 256 then 2 else 3)
  pub parse_value :
      (tag n : ℕ) (v : Bytes)
      → tag < 256
      → tag % 32 ≢ 31
      → length v ≤ n
      → c.parse_one (tag ∷ c.encode_len n ++ v) ≡ some (v, [])

-- `BspInstance`: the state of its `c_algo` and of its `m_algo`.
pub record Bsp : Type 0 where
  pub s_enc : Bytes
  pub block_nr : ℕ
  pub s_mac : Bytes
  pub mac_chain : Bytes

abbrev pub blocksize : ℕ
blocksize = 16

abbrev pub l_mac : ℕ
l_mac = 8

abbrev pub max_segment_size : ℕ
max_segment_size = 1020

-- `n.to_bytes(w, "big")` without its range check
unfoldable pub to_bytes : ℕ → ℕ → Bytes
to_bytes zero n = []
to_bytes (suc w) n = (n / 256 ^ w) % 256 ∷ to_bytes w n

module _ (c : Crypto) where
  -- `TAG_LEN` is 1
  unfoldable pub max_payload_size : ℕ
  max_payload_size = max_segment_size - 1 - length (c.encode_len max_segment_size) - l_mac

  -- `_get_icv`, which steps the block counter; `to_bytes` raises past 128 bits
  unfoldable pub get_icv : Exec Bsp Bytes
  unfolding to_bytes
  get_icv s =
      if ltb s.block_nr (2 ^ 128)
      then (
        ok (c.cbc_encrypt s.s_enc (replicate blocksize 0) (to_bytes blocksize s.block_nr)),
        record s { block_nr = s.block_nr + 1 },
      )
      else (err (value_error "OverflowError"), s)

  -- `BspAlgoCrypt.encrypt`
  unfoldable pub encrypt : Bytes → Exec Bsp Bytes
  unfolding get_icv
  encrypt m = do
    let padded = pad_to_multiple m blocksize
    icv ← get_icv
    k ← gets (λ s. s.s_enc)
    pure (c.cbc_encrypt k icv padded)

  -- `BspAlgoCrypt.decrypt`
  unfoldable pub decrypt : Bytes → Exec Bsp Bytes
  unfolding get_icv
  decrypt m = do
    icv ← get_icv
    k ← gets (λ s. s.s_enc)
    lift (raise_if (not (nat_beq (length m % blocksize) 0)) (value_error "CBC mode"))
    lift (unpad (c.cbc_decrypt k icv m))

  -- `BspAlgoMacAES128._auth`: the whole MAC is the next chaining value
  unfoldable pub auth_data : Bytes → Exec Bsp Bytes
  auth_data m s =
      let full = c.cmac s.s_mac m in (ok (take l_mac full), record s { mac_chain = full })

  -- `BspAlgoMac.auth`
  unfoldable pub auth : ℕ → Bytes → Exec Bsp Bytes
  unfolding auth_data
  auth tag m = do
    lift (raise_if (not (ltb tag 256)) assertion_error)
    let tag_and_length = tag ∷ c.encode_len (length m + l_mac)
    chain ← gets (λ s. s.mac_chain)
    c_mac ← auth_data (chain ++ tag_and_length ++ m)
    pure (tag_and_length ++ m ++ c_mac)

  -- `BspAlgoMac.verify`
  unfoldable pub verify : Bytes → Exec Bsp Bytes
  unfolding auth_data
  verify m = do
    let stripped = take (length m - l_mac) m
    let received = drop (length m - l_mac) m
    chain ← gets (λ s. s.mac_chain)
    computed ← auth_data (chain ++ stripped)
    lift (raise_if (not (bytes_beq received computed)) (value_error "MAC value not matching"))
    pure stripped

  -- `BspInstance.encrypt_and_mac_one`
  unfoldable pub encrypt_and_mac_one : ℕ → Bytes → Exec Bsp Bytes
  encrypt_and_mac_one tag m = do
    lift (raise_if (not (leb tag 255)) assertion_error)
    lift (raise_if (not (leb (length m) max_payload_size)) assertion_error)
    ciphered ← encrypt m
    auth tag ciphered

  -- `BspInstance.mac_only_one`
  unfoldable pub mac_only_one : ℕ → Bytes → Exec Bsp Bytes
  mac_only_one tag m = do
    lift (raise_if (not (leb tag 255)) assertion_error)
    lift (raise_if (not (leb (length m) max_payload_size)) assertion_error)
    maced ← auth tag m
    modify (λ s. record s { block_nr = s.block_nr + 1 })
    pure maced

  -- `val` of `bertlv_parse_one`
  unfoldable pub parsed_value : Bytes → Result Bytes
  parsed_value m = elim (c.parse_one m) [
    | none ↦ err (value_error "bertlv_parse_one")
    | some (v, _) ↦ ok v
  ]

  -- `BspInstance.demac_and_decrypt_one`
  unfoldable pub demac_and_decrypt_one : Bytes → Exec Bsp Bytes
  unfolding parsed_value
  demac_and_decrypt_one m = do payload ← verify m; v ← lift (parsed_value payload); decrypt v

  -- `BspInstance.demac_only_one`
  unfoldable pub demac_only_one : Bytes → Exec Bsp Bytes
  unfolding parsed_value
  demac_only_one m = do
    payload ← verify m
    v ← lift (parsed_value payload)
    modify (λ s. record s { block_nr = s.block_nr + 1 })
    pure v
