-- ===== src/Bsp/Peer.antt =====
-- The receiver of pysim/pySim/esim/bsp.py undoes what the sender does, segment by segment.
use virtual_rsp.Common.{
  ℕ, ◌+◌, ◌-◌, ◌*◌, ◌%◌, ◌/◌, ◌^◌, ◌≤◌, ◌<◌, ◌≡◌, ◌≢◌, refl, ◌∙◌, ◌∷◌, ◌++◌, ok, length, replicate,
  take, drop, lt→ltb, le→leb, bytes_beq_refl, arith, append_assoc, length-append, length-take,
  take-append_length, drop-append_length,
}
use virtual_rsp.Bsp.Padding.{Bytes, pad_to_multiple, length-pad_to_multiple, unpad-pad_to_multiple}
use virtual_rsp.Bsp.Algo.{
  Crypto, IsCrypto, Bsp, max_payload_size, encrypt, decrypt, to_bytes, auth, verify,
  encrypt_and_mac_one, mac_only_one, parsed_value, demac_and_decrypt_one, demac_only_one,
}

-- a cut eight bytes before the end
module _ (m t : Bytes) (eight : length t ≡ 8) where
  cut_length : length (m ++ t) - 8 ≡ length m
  cut_length = omega (arith, length-append {0} m t)

  take_cut : take (length (m ++ t) - 8) (m ++ t) ≡ m
  take_cut = rw cut_length (take-append_length m t)

  drop_cut : drop (length (m ++ t) - 8) (m ++ t) ≡ t
  drop_cut = rw cut_length (drop-append_length m t)

module _ (c : Crypto) (laws : IsCrypto c) where
  -- the bytes under the MAC, without the chaining value
  abbrev pub body : ℕ → Bytes → Bytes
  body tag m = tag ∷ c.encode_len (length m + 8) ++ m

  abbrev pub mac_of : ℕ → Bytes → Bsp → Bytes
  mac_of tag m s = c.cmac s.s_mac (s.mac_chain ++ body tag m)

  pub mac_eight : (tag : ℕ) (m : Bytes) (s : Bsp) → length (take 8 (mac_of tag m s)) ≡ 8
  mac_eight tag m s = omega (
    arith,
    length-take {0} 8 (mac_of tag m s),
    laws.cmac_length s.s_mac (s.mac_chain ++ body tag m),
  )

  auth_lem :
      (tag : ℕ) (m : Bytes) (s : Bsp)
      → tag < 256
      → auth c tag m s
        ≡ (ok (body tag m ++ take 8 (mac_of tag m s)), record s { mac_chain = mac_of tag m s })
  unfolding auth
  auth_lem tag m s h =
      rw (lt→ltb tag 256 h)
        (rw (append_assoc s.mac_chain (tag ∷ c.encode_len (length m + 8)) m) refl)

  verify_cut :
      (p t : Bytes) (s : Bsp)
      → length t ≡ 8
      → t ≡ take 8 (c.cmac s.s_mac (s.mac_chain ++ p))
      → verify c (p ++ t) s ≡ (ok p, record s { mac_chain = c.cmac s.s_mac (s.mac_chain ++ p) })
  unfolding verify
  verify_cut p t s e q =
      rw (take_cut p t e) (rw (drop_cut p t e) (rw (← q) (rw (bytes_beq_refl t) refl)))

  verify_lem :
      (tag : ℕ) (m : Bytes) (s : Bsp)
      → verify c (body tag m ++ take 8 (mac_of tag m s)) s
        ≡ (ok (body tag m), record s { mac_chain = mac_of tag m s })
  verify_lem tag m s = verify_cut (body tag m) (take 8 (mac_of tag m s)) s (mac_eight tag m s) refl

  abbrev pub icv_of : Bsp → Bytes
  icv_of s = c.cbc_encrypt s.s_enc (replicate 16 0) (to_bytes 16 s.block_nr)

  abbrev pub ciphered : Bytes → Bsp → Bytes
  ciphered m s = c.cbc_encrypt s.s_enc (icv_of s) (pad_to_multiple m 16)

  abbrev pub counted : Bsp → Bsp
  counted s = record s { block_nr = s.block_nr + 1 }

  padded_blocks : (m : Bytes) → length (pad_to_multiple m 16) % 16 ≡ 0
  padded_blocks m = omega (arith, length-pad_to_multiple m)

  pub length-ciphered : (m : Bytes) (s : Bsp) → length (ciphered m s) ≡ (length m / 16 + 1) * 16
  length-ciphered m s =
      laws.cbc_length s.s_enc (icv_of s) (pad_to_multiple m 16) (padded_blocks m)
      ∙ length-pad_to_multiple m

  ciphered_blocks : (m : Bytes) (s : Bsp) → length (ciphered m s) % 16 ≡ 0
  ciphered_blocks m s =
      rw (laws.cbc_length s.s_enc (icv_of s) (pad_to_multiple m 16) (padded_blocks m))
        (padded_blocks m)

  encrypt_lem :
      (m : Bytes) (s : Bsp) → s.block_nr < 2 ^ 128 → encrypt c m s ≡ (ok (ciphered m s), counted s)
  unfolding encrypt
  encrypt_lem m s h = rw (lt→ltb s.block_nr (2 ^ 128) h) refl

  decrypt_lem :
      (m : Bytes) (s t : Bsp)
      → t.s_enc ≡ s.s_enc
      → t.block_nr ≡ s.block_nr
      → s.block_nr < 2 ^ 128
      → decrypt c (ciphered m s) t ≡ (ok m, counted t)
  unfolding decrypt
  decrypt_lem m s t k n h = rw n (
      rw k (
        rw (lt→ltb s.block_nr (2 ^ 128) h) (
          rw (ciphered_blocks m s) (
            rw (laws.cbc_inverse s.s_enc (icv_of s) (pad_to_multiple m 16) (padded_blocks m))
              (rw (unpad-pad_to_multiple m) refl)))))

  -- a protected segment, and the state of both sides after it
  abbrev pub sealed : ℕ → Bytes → Bsp → Bytes
  sealed tag m s = body tag (ciphered m s) ++ take 8 (mac_of tag (ciphered m s) (counted s))

  abbrev pub sealed_state : ℕ → Bytes → Bsp → Bsp
  sealed_state tag m s = record s {
    block_nr = s.block_nr + 1;
    mac_chain = mac_of tag (ciphered m s) (counted s);
  }

  pub encrypt_and_mac_one_lem :
      (tag : ℕ) (m : Bytes) (s : Bsp)
      → tag < 256
      → length m ≤ max_payload_size c
      → s.block_nr < 2 ^ 128
      → encrypt_and_mac_one c tag m s ≡ (ok (sealed tag m s), sealed_state tag m s)
  unfolding encrypt_and_mac_one
  encrypt_and_mac_one_lem tag m s h f n = rw (le→leb tag 255 (omega arith)) (
      rw (le→leb (length m) (max_payload_size c) f)
        (rw (encrypt_lem m s n) (rw (auth_lem tag (ciphered m s) (counted s) h) refl)))

  parsed_body :
      (tag : ℕ) (m : Bytes) → tag < 256 → tag % 32 ≢ 31 → parsed_value c (body tag m) ≡ ok m
  unfolding parsed_value
  parsed_body tag m h k =
      rw (laws.parse_value tag (length m + 8) m h k (omega arith), parsed_value) refl

  pub demac_and_decrypt_one_lem :
      (tag : ℕ) (m : Bytes) (s : Bsp)
      → tag < 256
      → tag % 32 ≢ 31
      → s.block_nr < 2 ^ 128
      → demac_and_decrypt_one c (sealed tag m s) s ≡ (ok m, sealed_state tag m s)
  unfolding demac_and_decrypt_one
  demac_and_decrypt_one_lem tag m s h k n = rw (verify_lem tag (ciphered m s) s) (
      rw (parsed_body tag (ciphered m s) h k) (
        rw (decrypt_lem m s (record s { mac_chain = mac_of tag (ciphered m s) s }) refl refl n)
          refl))

  abbrev pub maced_state : ℕ → Bytes → Bsp → Bsp
  maced_state tag m s = record s { block_nr = s.block_nr + 1; mac_chain = mac_of tag m s }

  pub mac_only_one_lem :
      (tag : ℕ) (m : Bytes) (s : Bsp)
      → tag < 256
      → length m ≤ max_payload_size c
      → mac_only_one c tag m s ≡ (ok (body tag m ++ take 8 (mac_of tag m s)), maced_state tag m s)
  unfolding mac_only_one
  mac_only_one_lem tag m s h f =
      rw (le→leb tag 255 (omega arith))
        (rw (le→leb (length m) (max_payload_size c) f) (rw (auth_lem tag m s h) refl))

  pub demac_only_one_lem :
      (tag : ℕ) (m : Bytes) (s : Bsp)
      → tag < 256
      → tag % 32 ≢ 31
      → demac_only_one c (body tag m ++ take 8 (mac_of tag m s)) s ≡ (ok m, maced_state tag m s)
  unfolding demac_only_one
  demac_only_one_lem tag m s h k = rw (verify_lem tag m s) (rw (parsed_body tag m h k) refl)
