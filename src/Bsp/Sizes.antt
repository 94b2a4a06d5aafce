-- ===== src/Bsp/Sizes.antt =====
-- The sizes of protected segments (pysim/pySim/esim/bsp.py), against the 1020 bytes that its header
-- quotes from SGP.22, section 2.5.3.
use virtual_rsp.Common.{
  ℕ, ◌+◌, ◌*◌, ◌/◌, ◌%◌, ◌^◌, ◌≤◌, ◌<◌, ◌≡◌, ◌≢◌, ◌↔◌, refl, ap, ◌∙◌, List, ◌∷◌, ◌++◌, Result, ok,
  All, length, arith, length-append, ok-injective, sym,
}
use virtual_rsp.Bsp.Padding.{Bytes}
use virtual_rsp.Bsp.Algo.{
  Crypto, IsCrypto, Bsp, max_segment_size, max_payload_size, encrypt_and_mac_one,
}
use virtual_rsp.Bsp.Stream.{mac_only}
use virtual_rsp.Bsp.Peer.{
  body, ciphered, sealed, mac_eight, encrypt_and_mac_one_lem, length-ciphered,
}
use virtual_rsp.Bsp.RoundTrip.{maced_undone, max_payload_size_lem}

module _ (c : Crypto) (laws : IsCrypto c) where
  pub length-body :
      (tag : ℕ) (m t : Bytes)
      → length t ≡ 8
      → length (body c laws tag m ++ t) ≡ 1 + length (c.encode_len (length m + 8)) + length m + 8
  length-body tag m t e = omega (
    arith,
    length-append {0} (body c laws tag m) t,
    length-append {0} (tag ∷ c.encode_len (length m + 8)) m,
  )

  -- A segment that is protected with its MAC only has at most 1020 bytes.
  maced_fits :
      (tag : ℕ) (m t : Bytes)
      → length m ≤ 1008
      → length t ≡ 8
      → length (body c laws tag m ++ t) ≤ 1020
  maced_fits tag m t f e = ground (arith, length-body tag m t, laws.encode_len_size (length m + 8))

  length-sealed :
      (tag : ℕ) (m : Bytes) (s : Bsp)
      → length (sealed c laws tag m s)
        ≡ 1 + length (c.encode_len ((length m / 16 + 1) * 16 + 8)) + (length m / 16 + 1) * 16 + 8
  length-sealed tag m s =
      let x = ciphered c laws m s in
      length-body tag x _ (mac_eight c laws tag x (record s { block_nr = s.block_nr + 1 }))
      ∙ rw (length-ciphered c laws m s) refl

  sealed_output :
      (tag : ℕ) (m out : Bytes) (s s' : Bsp)
      → tag < 256
      → length m ≤ max_payload_size c
      → s.block_nr < 2 ^ 128
      → encrypt_and_mac_one c tag m s ≡ (ok out, s')
      → out ≡ sealed c laws tag m s
  sealed_output tag m out s s' h f n e =
      ok-injective (
        ap (λ (r : Result Bytes × Bsp). r.0) (sym e ∙ encrypt_and_mac_one_lem c laws tag m s h f n))

  -- An encrypted segment has at most 1020 bytes exactly if its plaintext is shorter than the
  -- largest payload: the padding of a full payload makes it 1036 bytes long.
  pub encrypt_and_mac_one_fits_iff :
      (tag : ℕ) (m out : Bytes) (s s' : Bsp)
      → tag < 256
      → length m ≤ max_payload_size c
      → s.block_nr < 2 ^ 128
      → encrypt_and_mac_one c tag m s ≡ (ok out, s')
      → ((length out ≤ max_segment_size) ↔ (length m < max_payload_size c))
        × (length m ≡ max_payload_size c → length out ≡ 1036)
  encrypt_and_mac_one_fits_iff tag m out s s' h f n e =
      let o =
        ap (λ (b : Bytes). length b) (sealed_output tag m out s s' h f n e)
        ∙ length-sealed tag m s in
      let k =
        laws.encode_len_size ((length m / 16 + 1) * 16 + 8)
          (omega (arith, max_payload_size_lem c laws)) in
      let p = max_payload_size_lem c laws in
      (
        (λ a. ground (arith, o, k, p, a), λ a. ground (arith, o, k, p, a)),
        λ a. ground (arith, o, k, p, a),
      )

  -- Every segment of `mac_only` has at most 1020 bytes, and the call returns. The tag is one byte
  -- that BER reads as a whole tag, and the block counter has room for the segments.
  pub mac_only_fits :
      (tag : ℕ) (m : Bytes) (s : Bsp)
      → tag < 256
      → tag % 32 ≢ 31
      → s.block_nr + length m ≤ 2 ^ 128
      → (outs : List Bytes) × (s' : Bsp) × (mac_only c tag m s ≡ (ok outs, s'))
        × All (λ o. length o ≤ max_segment_size) outs
  mac_only_fits tag m s h k n =
      let (outs, s', e, _, fits, _, _) =
        maced_undone c laws (λ o. length o ≤ max_segment_size) tag m s
          (λ p t f. maced_fits tag p _ f (mac_eight c laws tag p t)) h k n in
      (outs, s', e, fits)
