-- ===== src/Bsp/Examples.antt =====
-- Runs of pysim/pySim/esim/bsp.py with a cipher that changes nothing, a MAC that sums the bytes,
-- and the lengths of BER.
use virtual_rsp.Common.{◌≤◌, ◌<◌, ◌≡◌, ◌↔◌, refl, List, [], ◌∷◌, ◌++◌, ok, length, replicate, arith}
use virtual_rsp.Bsp.Padding.{Bytes, pad_to_multiple}
use virtual_rsp.Bsp.Algo.{
  Bsp, max_segment_size, max_payload_size, encrypt_and_mac_one, encrypt, auth,
}
use virtual_rsp.Bsp.Stream.{over_segments, encrypt_and_mac, demac_and_decrypt}
use virtual_rsp.Bsp.RoundTrip.{demac_and_decrypt-encrypt_and_mac, max_payload_size_lem}
use virtual_rsp.Bsp.Sizes.{encrypt_and_mac_one_fits_iff}
use virtual_rsp.Bsp.Toy.{toy, toy-IsCrypto}

abbrev start : Bsp
start = record {
  s_enc = replicate 16 1;
  block_nr = 1;
  s_mac = replicate 16 2;
  mac_chain = replicate 16 3;
}

abbrev plaintext : Bytes
plaintext = 1 ∷ 2 ∷ 0x80 ∷ 0 ∷ 0 ∷ []

-- One segment: the tag, the length 24, a padded block and eight bytes of the MAC.
abbrev segment : Bytes
segment = 0x86 ∷ 24 ∷ 1 ∷ 2 ∷ 0x80 ∷ 0 ∷ 0 ∷ 0x80 ∷ replicate 10 0 ++ 465 ∷ replicate 7 0

abbrev after : Bsp
after = record start { block_nr = 2; mac_chain = 465 ∷ replicate 15 0 }

encrypted_one : encrypt_and_mac_one toy 0x86 plaintext start ≡ (ok segment, after)
unfolding encrypt_and_mac_one encrypt auth pad_to_multiple max_payload_size
encrypted_one = refl

encrypted_segment : encrypt_and_mac toy 0x86 plaintext start ≡ (ok (segment ∷ []), after)
unfolding encrypt_and_mac over_segments encrypt_and_mac_one encrypt auth pad_to_multiple
    max_payload_size
encrypted_segment = refl

encrypt_and_mac_one_fits_iff_example :
    ((length segment ≤ max_segment_size) ↔ (length plaintext < max_payload_size toy))
    × (length plaintext ≡ max_payload_size toy → length segment ≡ 1036)
encrypt_and_mac_one_fits_iff_example =
    encrypt_and_mac_one_fits_iff toy toy-IsCrypto 0x86 plaintext segment start after (omega arith)
      (omega (arith, max_payload_size_lem toy toy-IsCrypto)) (omega arith) encrypted_one

demac_and_decrypt-encrypt_and_mac_example :
    (outs : List Bytes) × (s' : Bsp) × (encrypt_and_mac toy 0x86 plaintext start ≡ (ok outs, s'))
    × (demac_and_decrypt toy outs start ≡ (ok plaintext, s'))
demac_and_decrypt-encrypt_and_mac_example =
    demac_and_decrypt-encrypt_and_mac toy toy-IsCrypto 0x86 plaintext start (omega arith)
      (omega arith) (omega arith)
