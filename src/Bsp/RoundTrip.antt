-- ===== src/Bsp/RoundTrip.antt =====
-- A receiver of pysim/pySim/esim/bsp.py that starts in the sender's state gets the plaintext back
-- from the protected segments, and both end in one state.
use virtual_rsp.Common.{
  ℕ, zero, suc, ◌+◌, ◌%◌, ◌^◌, ◌≤◌, ◌<◌, ◌≡◌, ◌≢◌, refl, List, [], ◌∷◌, ◌++◌, ok, ltb, length,
  arith, take-append-drop, length-take, length-drop, take, append-nil, Bool-cases, inl, inr, All,
}
use virtual_rsp.Common.Exec.{Exec}
use virtual_rsp.Bsp.Padding.{Bytes}
use virtual_rsp.Bsp.Algo.{
  Crypto, IsCrypto, Bsp, max_payload_size, encrypt_and_mac_one, mac_only_one, demac_and_decrypt_one,
  demac_only_one,
}
use virtual_rsp.Bsp.Stream.{
  next_segment, over_segments, join_each, encrypt_and_mac, mac_only, demac_and_decrypt, demac_only,
}
use virtual_rsp.Bsp.Peer.{
  encrypt_and_mac_one_lem, demac_and_decrypt_one_lem, mac_only_one_lem, demac_only_one_lem, sealed,
  body, mac_of,
}

-- One round of the loop splits the remainder, and takes at most `most` and at least one byte.
pub record IsSplit (most : ℕ) (m : Bytes) (seg rest : Bytes) : Type 0 where
  pub joined : seg ++ rest ≡ m
  pub short : length seg ≤ most
  pub shrinks : length rest < length m

next_segment-IsSplit :
    (most b : ℕ) (bs : Bytes)
    → 0 < most
    → IsSplit most (b ∷ bs) (next_segment most (b ∷ bs)).0 (next_segment most (b ∷ bs)).1
unfolding next_segment
next_segment-IsSplit most b bs h = elim (Bool-cases (ltb (length (b ∷ bs)) most)) [
  | inl e ↦
      rw e (record { joined = append-nil (b ∷ bs); short = ground arith; shrinks = omega arith })
  | inr e ↦ rw e (record {
    joined = take-append-drop most (b ∷ bs);
    short = omega (arith, length-take {0} most (b ∷ bs));
    shrinks = omega (arith, length-drop {0} most (b ∷ bs));
  })
]

-- `peer` undoes `one` at this segment, both step to one state, and the output satisfies `P`.
abbrev pub Undone :
    (Bytes → Type 0) → (Bytes → Exec Bsp Bytes) → (Bytes → Exec Bsp Bytes) → Bytes → Bsp → Type 0
Undone P one peer m s =
    (out : Bytes) × (s' : Bsp) × (one m s ≡ (ok out, s'))
    × (peer out s ≡ (ok m, s'))
    × (s'.block_nr ≡ s.block_nr + 1)
    × P out

module _ (P : Bytes → Type 0) (most : ℕ) (positive : 0 < most) (one peer : Bytes → Exec Bsp Bytes)
    (undo : (m : Bytes) (s : Bsp)
      → length m ≤ most
      → s.block_nr < 2 ^ 128
      → Undone P one peer m s) where
  pub loop_undone :
      (fuel : ℕ) (m : Bytes) (s : Bsp)
      → length m ≤ fuel
      → s.block_nr + length m ≤ 2 ^ 128
      → (outs : List Bytes) × (s' : Bsp) × (over_segments most one fuel m s ≡ (ok outs, s'))
        × (join_each peer outs s ≡ (ok m, s'))
        × All P outs
        × (s'.block_nr ≡ s.block_nr + length outs)
        × (length outs ≤ length m)
  unfolding over_segments join_each
  loop_undone zero [] s f n = ([], s, refl, refl, tt, omega arith, omega arith)
  loop_undone zero (b ∷ bs) s f n = absurd (omega arith)
  loop_undone (suc fuel) [] s f n = ([], s, refl, refl, tt, omega arith, omega arith)
  loop_undone (suc fuel) (b ∷ bs) s f n =
      let split = next_segment-IsSplit most b bs positive in
      let seg = (next_segment most (b ∷ bs)).0 in
      let rest = (next_segment most (b ∷ bs)).1 in
      let (out, s1, e1, p1, k, q) = undo seg s split.short (omega arith) in
      let (outs, s2, e2, p2, qs, count, few) =
        loop_undone fuel rest s1 (omega (arith, split.shrinks)) (omega (arith, split.shrinks, k)) in
      (
        out ∷ outs,
        s2,
        rw e1 (rw e2 refl),
        rw p1 (rw p2 (rw split.joined refl)),
        (q, qs),
        omega (arith, k, count),
        omega (arith, split.shrinks, few),
      )

module _ (c : Crypto) (laws : IsCrypto c) where
  -- A segment has room for 1008 bytes of plaintext.
  pub max_payload_size_lem : max_payload_size c ≡ 1008
  unfolding max_payload_size
  max_payload_size_lem = omega (arith, laws.encode_len_size 1020 (omega arith))

  pub encrypted_undone :
      (P : Bytes → Type 0) (tag : ℕ) (m : Bytes) (s : Bsp)
      → ((p : Bytes) (b : Bsp) → length p ≤ 1008 → P (sealed c laws tag p b))
      → tag < 256
      → tag % 32 ≢ 31
      → s.block_nr + length m ≤ 2 ^ 128
      → (outs : List Bytes) × (s' : Bsp) × (encrypt_and_mac c tag m s ≡ (ok outs, s'))
        × (demac_and_decrypt c outs s ≡ (ok m, s'))
        × All P outs
        × (s'.block_nr ≡ s.block_nr + length outs)
        × (length outs ≤ length m)
  unfolding encrypt_and_mac demac_and_decrypt
  encrypted_undone P tag m s shape h k n =
      loop_undone P (max_payload_size c) (omega (arith, max_payload_size_lem))
        (encrypt_and_mac_one c tag) (demac_and_decrypt_one c)
        (λ p t f b. (
          _,
          _,
          encrypt_and_mac_one_lem c laws tag p t h f b,
          demac_and_decrypt_one_lem c laws tag p t h k b,
          refl,
          shape p t (omega (arith, max_payload_size_lem)),
        ))
        (length m) m s (omega arith) n

  pub maced_undone :
      (P : Bytes → Type 0) (tag : ℕ) (m : Bytes) (s : Bsp)
      → ((p : Bytes) (b : Bsp)
          → length p ≤ 1008
          → P (body c laws tag p ++ take 8 (mac_of c laws tag p b)))
      → tag < 256
      → tag % 32 ≢ 31
      → s.block_nr + length m ≤ 2 ^ 128
      → (outs : List Bytes) × (s' : Bsp) × (mac_only c tag m s ≡ (ok outs, s'))
        × (demac_only c outs s ≡ (ok m, s'))
        × All P outs
        × (s'.block_nr ≡ s.block_nr + length outs)
        × (length outs ≤ length m)
  unfolding mac_only demac_only
  maced_undone P tag m s shape h k n =
      loop_undone P (max_payload_size c) (omega (arith, max_payload_size_lem)) (mac_only_one c tag)
        (demac_only_one c)
        (λ p t f b. (
          _,
          _,
          mac_only_one_lem c laws tag p t h f,
          demac_only_one_lem c laws tag p t h k,
          refl,
          shape p t (omega (arith, max_payload_size_lem)),
        ))
        (length m) m s (omega arith) n

  -- `demac_and_decrypt` of a receiver in the sender's state returns the plaintext that
  -- `encrypt_and_mac` protected, and both end in the same state. The tag is one byte that BER reads
  -- as a whole tag, and the block counter has room for the segments, at most one for each byte.
  pub demac_and_decrypt-encrypt_and_mac :
      (tag : ℕ) (m : Bytes) (s : Bsp)
      → tag < 256
      → tag % 32 ≢ 31
      → s.block_nr + length m ≤ 2 ^ 128
      → (outs : List Bytes) × (s' : Bsp) × (encrypt_and_mac c tag m s ≡ (ok outs, s'))
        × (demac_and_decrypt c outs s ≡ (ok m, s'))
  demac_and_decrypt-encrypt_and_mac tag m s h k n =
      let (outs, s', e, p, _, _, _) = encrypted_undone (λ o. Unit) tag m s (λ _ _ _. tt) h k n in
      (outs, s', e, p)

  -- `demac_only` of a receiver in the sender's state returns the plaintext that `mac_only`
  -- protected, and both end in the same state, under the same conditions.
  pub demac_only-mac_only :
      (tag : ℕ) (m : Bytes) (s : Bsp)
      → tag < 256
      → tag % 32 ≢ 31
      → s.block_nr + length m ≤ 2 ^ 128
      → (outs : List Bytes) × (s' : Bsp) × (mac_only c tag m s ≡ (ok outs, s'))
        × (demac_only c outs s ≡ (ok m, s'))
  demac_only-mac_only tag m s h k n =
      let (outs, s', e, p, _, _, _) = maced_undone (λ o. Unit) tag m s (λ _ _ _. tt) h k n in
      (outs, s', e, p)
