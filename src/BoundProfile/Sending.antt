-- ===== src/BoundProfile/Sending.antt =====
-- The protected segments of pysim/pySim/esim/bsp.py as TLVs, which the receiver of
-- pysim/pySim/esim/es8p.py splits and decrypts.
use virtual_rsp.Common.{
  ℕ, ◌+◌, ◌^◌, ◌≤◌, ◌≡◌, ap, ◌∙◌, List, ◌∷◌, ◌++◌, append_assoc, ok, length, length-append, All,
  arith,
}
use virtual_rsp.Bsp.Padding.{Bytes}
use virtual_rsp.Bsp.Algo.{Bsp}
use virtual_rsp.Bsp.Stream.{encrypt_and_mac, mac_only, demac_and_decrypt, demac_only}
use virtual_rsp.Bsp.Peer.{body, mac_eight, ciphered, length-ciphered, counted, sealed}
use virtual_rsp.Bsp.Sizes.{length-body}
use virtual_rsp.Bsp.RoundTrip.{encrypted_undone, maced_undone}
use virtual_rsp.BoundProfile.Tools.{Tools, IsTools, IsByteTag}
use virtual_rsp.BoundProfile.Splitting.{IsSegment}

module _ (t : Tools) (laws : IsTools t) where
  body-IsSegment :
      (tag : ℕ) (m mac : Bytes)
      → length mac ≡ 8
      → length m ≤ 1024
      → IsSegment t laws tag (body t.crypto laws.cipher tag m ++ mac)
  body-IsSegment tag m mac e f =
      let count = length-append {0} m mac in
      let total = length-body t.crypto laws.cipher tag m mac e in
      let same : length m + 8 ≡ length (m ++ mac) = omega (arith, count, e) in
      (
        m ++ mac,
        append_assoc (tag ∷ t.crypto.encode_len (length m + 8)) m mac
            ∙ ap (λ n. tag ∷ t.crypto.encode_len n ++ (m ++ mac)) same,
        ground (arith, f, total, laws.cipher.encode_len_size (length m + 8)),
      )

  sealed-IsSegment :
      (tag : ℕ) (p : Bytes) (b : Bsp)
      → length p ≤ 1008
      → IsSegment t laws tag (sealed t.crypto laws.cipher tag p b)
  sealed-IsSegment tag p b f =
      let x = ciphered t.crypto laws.cipher p b in
      body-IsSegment tag x _ (mac_eight t.crypto laws.cipher tag x (counted t.crypto laws.cipher b))
        (omega (arith, f, length-ciphered t.crypto laws.cipher p b))

  -- What was sent as `outs` from state `s` to state `s'`: segments, no more than bytes.
  pub record IsSent (tag : ℕ) (m : Bytes) (s : Bsp) (outs : List Bytes) (s' : Bsp) : Type 0 where
    pub segments : All (IsSegment t laws tag) outs
    pub few : length outs ≤ length m
    pub counted_on : s'.block_nr ≤ s.block_nr + length m

  pub encrypt_and_mac-IsSent :
      (tag : ℕ) (m : Bytes) (s : Bsp)
      → IsByteTag tag
      → s.block_nr + length m ≤ 2 ^ 128
      → (outs : List Bytes) × (s' : Bsp) × (encrypt_and_mac t.crypto tag m s ≡ (ok outs, s'))
        × (demac_and_decrypt t.crypto outs s ≡ (ok m, s'))
        × IsSent tag m s outs s'
  encrypt_and_mac-IsSent tag m s a n =
      let (outs, s', e, p, all, count, few) =
        encrypted_undone t.crypto laws.cipher (IsSegment t laws tag) tag m s (sealed-IsSegment tag)
          (omega (arith, a)) a.2 n in
      (outs, s', e, p, record { segments = all; few = few; counted_on = omega (arith, count, few) })

  pub mac_only-IsSent :
      (tag : ℕ) (m : Bytes) (s : Bsp)
      → IsByteTag tag
      → s.block_nr + length m ≤ 2 ^ 128
      → (outs : List Bytes) × (s' : Bsp) × (mac_only t.crypto tag m s ≡ (ok outs, s'))
        × (demac_only t.crypto outs s ≡ (ok m, s'))
        × IsSent tag m s outs s'
  mac_only-IsSent tag m s a n =
      let (outs, s', e, p, all, count, few) =
        maced_undone t.crypto laws.cipher (IsSegment t laws tag) tag m s
          (λ p b f.
            body-IsSegment tag p _ (mac_eight t.crypto laws.cipher tag p b) (omega (arith, f)))
          (omega (arith, a)) a.2 n in
      (outs, s', e, p, record { segments = all; few = few; counted_on = omega (arith, count, few) })
