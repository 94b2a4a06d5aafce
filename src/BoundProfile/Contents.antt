-- ===== src/BoundProfile/Contents.antt =====
-- The profile in a package of pysim/pySim/esim/es8p.py, under the session keys or under keys that
-- are sent along, is the one that the receiver decrypts.
use virtual_rsp.Common.{
  ◌+◌, ◌^◌, ◌≤◌, ◌<◌, ◌≡◌, ◌⊎◌, inl, inr, refl, sym, ap, ◌∙◌, All, List, [], ◌++◌, append-nil,
  Option, none, some, Result, ok, ok-injective, length, arith,
}
use virtual_rsp.Bsp.Padding.{Bytes}
use virtual_rsp.Bsp.Algo.{Bsp}
use virtual_rsp.Bsp.Stream.{demac_and_decrypt, encrypt_and_mac}
use virtual_rsp.BoundProfile.Tools.{
  Tools, IsTools, SessionKeys, UnprotectedProfilePackage, ProtectedProfilePackage,
  BoundProfilePackage,
}
use virtual_rsp.BoundProfile.Channel.{to_der, gen_replace_session_keys}
use virtual_rsp.BoundProfile.Encode.{keys_of, protected_as, protect, encode_seq, last_sequences}
use virtual_rsp.BoundProfile.Decode.{last_seqs, bsp_instance, profile_instance}
use virtual_rsp.BoundProfile.Splitting.{
  IsSegment, parse-encode_seq, split_bertlv_sequence-join, expect_seq-encode_seq,
}
use virtual_rsp.BoundProfile.Sending.{IsSent, encrypt_and_mac-IsSent}

-- at most 1 MiB
abbrev pub IsSmall : Bytes → Type 0
IsSmall m = length m < 2 ^ 20

module _ (t : Tools) where
  -- The package holds this profile: as it is, or protected under keys of its own by a new instance.
  abbrev pub IsPackageOf : UnprotectedProfilePackage → BoundProfilePackage → Type 0
  IsPackageOf u b =
      ((b.ppp ≡ none) × (b.upp ≡ some u))
      ⊎ ((p0 : Bsp) × (p1 : Bsp) × (p : ProtectedProfilePackage) × (p0.block_nr ≡ 1)
          × (protect t u p0 ≡ (ok p, p1))
          × (b.ppp ≡ some p)
          × IsSmall (t.encode_keys (keys_of p0)))

  -- The receiver gets the profile from what the sender writes last.
  pub record IsProfile (s : Bsp) (der rest : Bytes) : Type 0 where
    pub second : Option (List Bytes)
    pub profile : List Bytes
    pub keys : Option SessionKeys
    pub instance_for : Bsp
    pub read : last_seqs t rest ≡ ok (second, profile)
    pub keyed : profile_instance t second s ≡ ok (keys, instance_for)
    pub decrypted : (demac_and_decrypt t.crypto profile instance_for).0 ≡ ok der

module _ (t : Tools) (laws : IsTools t) where
  protect_lem :
      (u : UnprotectedProfilePackage) (s : Bsp)
      → s.block_nr + length u.der ≤ 2 ^ 128
      → (outs : List Bytes) × (s' : Bsp) × (protect t u s
          ≡ (ok (protected_as u (keys_of s) outs), s'))
        × (demac_and_decrypt t.crypto outs s ≡ (ok u.der, s'))
        × IsSent t laws 0x86 u.der s outs s'
  unfolding protect to_der
  protect_lem u s n =
      let (outs, s', e, d, sent) = encrypt_and_mac-IsSent t laws 0x86 u.der s (omega arith) n in
      (outs, s', rw e refl, d, sent)

  last_seqs-one :
      (outs : List Bytes)
      → All (IsSegment t laws 0x86) outs
      → length outs < 2 ^ 20
      → last_seqs t (encode_seq t 0xa3 outs) ≡ ok (none, outs)
  unfolding last_seqs
  last_seqs-one outs h n = rw (← append-nil (encode_seq t 0xa3 outs)) (
      rw (parse-encode_seq t laws 0xa3 0x86 outs [] (omega arith) h n)
        (rw (split_bertlv_sequence-join t laws 0x86 outs (omega arith) h) refl))

  last_seqs-two :
      (keys outs : List Bytes)
      → All (IsSegment t laws 0x87) keys
      → All (IsSegment t laws 0x86) outs
      → length keys < 2 ^ 20
      → length outs < 2 ^ 20
      → last_seqs t (encode_seq t 0xa2 keys ++ encode_seq t 0xa3 outs) ≡ ok (some keys, outs)
  unfolding last_seqs
  last_seqs-two keys outs k h m n = rw (← append-nil (encode_seq t 0xa3 outs)) (
      rw (parse-encode_seq t laws 0xa2 0x87 keys (encode_seq t 0xa3 outs ++ []) (omega arith) k m) (
        rw (split_bertlv_sequence-join t laws 0x87 keys (omega arith) k) (
          rw (expect_seq-encode_seq t laws 0xa3 0x86 outs [] (omega arith) (omega arith) h n)
            refl)))

  -- A new instance has the state that its keys make.
  keys_of-bsp_instance : (p : Bsp) → p.block_nr ≡ 1 → bsp_instance (keys_of p) ≡ p
  unfolding bsp_instance keys_of
  keys_of-bsp_instance p h = rw (← h) refl

  last_sequences-keyed :
      (b : BoundProfilePackage) (p : ProtectedProfilePackage) (s s' : Bsp) (ks : List Bytes)
      → b.ppp ≡ some p
      → encrypt_and_mac t.crypto 0x87 (t.encode_keys p.keys) s ≡ (ok ks, s')
      → last_sequences t b s ≡ (ok (encode_seq t 0xa2 ks ++ encode_seq t 0xa3 p.encoded, p), s')
  unfolding last_sequences gen_replace_session_keys
  last_sequences-keyed b p s s' ks e q = rw e (rw q refl)

  pub last_sequences_lem :
      (u : UnprotectedProfilePackage) (b : BoundProfilePackage) (s : Bsp)
      → IsPackageOf t u b
      → IsSmall u.der
      → s.block_nr + 2 ^ 20 ≤ 2 ^ 128
      → (rest : Bytes) × (p : ProtectedProfilePackage) × (s' : Bsp) × (last_sequences t b s
          ≡ (ok (rest, p), s'))
        × IsProfile t s u.der rest
  unfolding last_sequences profile_instance
  last_sequences_lem u b s (inl (e, h)) small n =
      let (outs, s', p, d, sent) = protect_lem u s (omega arith) in
      (
        encode_seq t 0xa3 outs,
        protected_as u (keys_of s) outs,
        s',
        rw e (rw h (rw p refl)),
        record {
          second = none;
          profile = outs;
          keys = none;
          instance_for = s;
          read = last_seqs-one outs sent.segments (omega (arith, sent.few));
          keyed = refl;
          decrypted = ap (λ (r : Result Bytes × Bsp). r.0) d;
        },
      )
  last_sequences_lem u b s (inr (p0, p1, p, one, protected, e, small_keys)) small n =
      let (outs, s', q, d, sent) = protect_lem u p0 (omega (arith, one)) in
      let same : p ≡ protected_as u (keys_of p0) outs =
        ok-injective (ap (λ (r : Result ProtectedProfilePackage × Bsp). r.0) (sym protected ∙ q)) in
      let (ks, s2, q2, d2, sent2) =
        encrypt_and_mac-IsSent t laws 0x87 (t.encode_keys (keys_of p0)) s (omega arith)
          (omega arith) in
      (
        encode_seq t 0xa2 ks ++ encode_seq t 0xa3 outs,
        protected_as u (keys_of p0) outs,
        s2,
        last_sequences-keyed b (protected_as u (keys_of p0) outs) s s2 ks
            (e ∙ ap (λ x. some x) same) q2,
        record {
          second = some ks;
          profile = outs;
          keys = some (keys_of p0);
          instance_for = p0;
          read =
              last_seqs-two ks outs sent2.segments sent.segments (omega (arith, sent2.few))
                (omega (arith, sent.few));
          keyed =
              rw d2 (rw (laws.keys_inverse (keys_of p0)) (rw (keys_of-bsp_instance p0 one) refl));
          decrypted = ap (λ (r : Result Bytes × Bsp). r.0) d;
        },
      )
