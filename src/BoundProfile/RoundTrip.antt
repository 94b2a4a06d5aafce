-- ===== src/BoundProfile/RoundTrip.antt =====
-- `BoundProfilePackage.decode` of pysim/pySim/esim/es8p.py on what `encode` writes.
use virtual_rsp.Common.{ℕ, ◌^◌, ◌<◌, ◌≡◌, refl, List, ◌++◌, some, String, ok, length, arith, All}
use virtual_rsp.Bsp.Padding.{Bytes}
use virtual_rsp.Bsp.Algo.{Bsp}
use virtual_rsp.Bsp.Stream.{demac_and_decrypt, demac_only}
use virtual_rsp.Smdp.Eid.{Text}
use virtual_rsp.Smdp.Session.{Session, StoreMetadata}
use virtual_rsp.BoundProfile.Tools.{
  Tools, IsTools, SecureChannel, wrap_as_der_tlv, UnprotectedProfilePackage,
  ProtectedProfilePackage, BoundProfilePackage,
}
use virtual_rsp.BoundProfile.Channel.{encode_inputs}
use virtual_rsp.BoundProfile.Encode.{encode_seq, bpp_sequence, finished, encode_from, encode}
use virtual_rsp.BoundProfile.Decode.{Decoded, sequences, decode_sequences, decode}
use virtual_rsp.BoundProfile.Splitting.{IsSegment, expect_seq-encode_seq}
use virtual_rsp.BoundProfile.Sending.{encrypt_and_mac-IsSent, mac_only-IsSent}
use virtual_rsp.BoundProfile.Contents.{IsSmall, IsPackageOf, IsProfile, last_sequences_lem}
use virtual_rsp.BoundProfile.Agreement.{IsAgreed, encode_inputs-IsAgreed}

module _ (t : Tools) (laws : IsTools t) where
  -- What the eUICC reads, with an instance in the state `bsp`.
  record IsReadable (isc smr : Bytes) (u : UnprotectedProfilePackage) (b : BoundProfilePackage)
      (bsp : Bsp) (bpp_seq : Bytes) : Type 0 where
    first : List Bytes
    second : List Bytes
    rest : Bytes
    after_first : Bsp
    after_second : Bsp
    is_seq : bpp_seq ≡ isc ++ (encode_seq t 0xa0 first ++ (encode_seq t 0xa1 second ++ rest))
    first_segments : All (IsSegment t laws 0x87) first
    second_segments : All (IsSegment t laws 0x88) second
    few_first : length first < 2 ^ 20
    few_second : length second < 2 ^ 20
    configured : demac_and_decrypt t.crypto first bsp ≡ (ok t.configure_isdp, after_first)
    described : demac_only t.crypto second after_first ≡ (ok smr, after_second)
    holds : IsProfile t after_second u.der rest

  bpp_sequence-IsReadable :
      (isc smr : Bytes) (u : UnprotectedProfilePackage) (b : BoundProfilePackage) (bsp : Bsp)
      → IsPackageOf t u b
      → IsSmall t.configure_isdp
      → IsSmall smr
      → IsSmall u.der
      → bsp.block_nr ≡ 1
      → (bpp_seq : Bytes) × (p : ProtectedProfilePackage) × ((bpp_sequence t isc smr b bsp).0
          ≡ ok (bpp_seq, p))
        × IsReadable isc smr u b bsp bpp_seq
  unfolding bpp_sequence
  bpp_sequence-IsReadable isc smr u b bsp held s1 s2 s3 one =
      let (first, b1, e1, d1, sent1) =
        encrypt_and_mac-IsSent t laws 0x87 t.configure_isdp bsp (omega arith)
          (omega (arith, one, s1)) in
      let (second, b2, e2, d2, sent2) =
        mac_only-IsSent t laws 0x88 smr b1 (omega arith)
          (omega (arith, one, s1, s2, sent1.counted_on)) in
      let (rest, p, b3, e3, profile) =
        last_sequences_lem t laws u b b2 held s3
          (omega (arith, one, s1, s2, sent1.counted_on, sent2.counted_on)) in
      (
        isc ++ (encode_seq t 0xa0 first ++ (encode_seq t 0xa1 second ++ rest)),
        p,
        rw e1 (rw e2 (rw e3 refl)),
        record {
          first = first;
          second = second;
          rest = rest;
          after_first = b1;
          after_second = b2;
          is_seq = refl;
          first_segments = sent1.segments;
          second_segments = sent2.segments;
          few_first = omega (arith, s1, sent1.few);
          few_second = omega (arith, s2, sent2.few);
          configured = d1;
          described = d2;
          holds = profile;
        },
      )

  sequences_lem :
      (i : SecureChannel) (signature smr bpp_seq : Bytes) (u : UnprotectedProfilePackage)
      (b : BoundProfilePackage) (bsp : Bsp)
      (r : IsReadable (t.encode_channel i signature) smr u b bsp bpp_seq)
      → IsSmall (t.encode_channel i signature)
      → sequences t bpp_seq
        ≡ ok (record {
          iscr = i;
          first = r.first;
          metadata = r.second;
          second = r.holds.second;
          profile = r.holds.profile;
        })
  unfolding sequences
  sequences_lem i signature smr bpp_seq u b bsp r small =
      let rest1 = encode_seq t 0xa1 r.second ++ r.rest in
      rw r.is_seq (
        rw
          (laws.return_channel i signature (encode_seq t 0xa0 r.first ++ rest1)
            (omega (arith, small)))
          (rw (laws.channel_inverse i signature) (
            rw
              (expect_seq-encode_seq t laws 0xa0 0x87 r.first rest1 (omega arith) (omega arith)
                r.first_segments r.few_first)
              (rw
                (expect_seq-encode_seq t laws 0xa1 0x88 r.second r.rest (omega arith) (omega arith)
                  r.second_segments r.few_second)
                (rw r.holds.read refl)))))

  decode_sequences_lem :
      (i : SecureChannel) (secret isc bpp_seq : Bytes) (m : StoreMetadata)
      (u : UnprotectedProfilePackage) (b : BoundProfilePackage) (bsp : Bsp)
      (r : IsReadable isc (t.encode_metadata m) u b bsp bpp_seq)
      → decode_sequences t secret
          (record {
            iscr = i;
            first = r.first;
            metadata = r.second;
            second = r.holds.second;
            profile = r.holds.profile;
          })
          bsp
        ≡ ok (record {
          shared_secret = secret;
          encoded_configure = t.configure_isdp;
          encoded_store_metadata = t.encode_metadata m;
          store_metadata = (laws.metadata_decodes m).0;
          replace_session_keys = r.holds.keys;
          upp = u.der;
        })
  unfolding decode_sequences
  decode_sequences_lem i secret isc bpp_seq m u b bsp r = rw r.configured (
      rw r.described (
        rw laws.configure_inverse
          (rw (laws.metadata_decodes m).1 (rw r.holds.keyed (rw r.holds.decrypted refl)))))

  decode_lem :
      (ot : ℕ × String) (eid : Text) (secret isc smr bpp_seq : Bytes) (bsp : Bsp)
      (u : UnprotectedProfilePackage) (b : BoundProfilePackage)
      → IsAgreed t ot eid secret bsp isc smr
      → IsSmall isc
      → IsReadable isc smr u b bsp bpp_seq
      → (d : Decoded) × (decode t ot eid bpp_seq ≡ ok d)
        × (d.upp ≡ u.der)
        × (d.shared_secret ≡ secret)
        × (d.encoded_store_metadata ≡ smr)
        × (t.decode_metadata smr ≡ ok d.store_metadata)
  unfolding decode
  decode_lem ot eid secret isc smr bpp_seq bsp u b a small r =
      let r' : IsReadable (t.encode_channel a.channel a.signature) (t.encode_metadata a.metadata) u
          b bsp bpp_seq =
        rw a.is_channel (rw a.is_metadata r) in
      (
        record {
          shared_secret = secret;
          encoded_configure = t.configure_isdp;
          encoded_store_metadata = t.encode_metadata a.metadata;
          store_metadata = (laws.metadata_decodes a.metadata).0;
          replace_session_keys = r'.holds.keys;
          upp = u.der;
        },
        rw
            (sequences_lem a.channel a.signature (t.encode_metadata a.metadata) bpp_seq u b bsp r'
              (rw a.is_channel small))
            (rw a.agreed (
              decode_sequences_lem a.channel secret (t.encode_channel a.channel a.signature) bpp_seq
                a.metadata u b bsp r')),
        refl,
        refl,
        a.is_metadata,
        rw (← a.is_metadata) (laws.metadata_decodes a.metadata).1,
      )

  -- A package that holds a profile is encoded whenever its inputs are there, and the eUICC that has
  -- agreed on the shared secret decodes the sequence in it to that profile and that metadata,
  -- whether it is protected under the session keys or under keys of its own. The sequence is what
  -- stands in the outer TLV; each of its plaintexts has less than 1 MiB.
  pub decode-encode :
      (sign : Bytes → Bytes) (ss : Session) (b : BoundProfilePackage)
      (u : UnprotectedProfilePackage) (ot : ℕ × String) (eid : Text) (otpk secret isc smr : Bytes)
      (bsp : Bsp)
      → encode_inputs t ss sign b ≡ ok (bsp, isc, smr)
      → IsPackageOf t u b
      → ss.eid ≡ some eid
      → ss.smdp_otpk ≡ some otpk
      → ss.shared_secret ≡ some secret
      → t.exchange ot otpk ≡ ok secret
      → IsSmall isc
      → IsSmall t.configure_isdp
      → IsSmall smr
      → IsSmall u.der
      → (bpp_seq : Bytes) × (b' : BoundProfilePackage) × (d : Decoded) × (encode t ss sign b
          ≡ ok (wrap_as_der_tlv t 0xBF36 bpp_seq, b'))
        × (decode t ot eid bpp_seq ≡ ok d)
        × (d.upp ≡ u.der)
        × (d.shared_secret ≡ secret)
        × (d.encoded_store_metadata ≡ smr)
        × (t.decode_metadata smr ≡ ok d.store_metadata)
  unfolding encode encode_from finished
  decode-encode sign ss b u ot eid otpk secret isc smr bsp h held e o s x s0 s1 s2 s3 =
      let a = encode_inputs-IsAgreed t sign ss b ot eid otpk secret bsp isc smr h e o s x in
      let (bpp_seq, p, q, r) = bpp_sequence-IsReadable isc smr u b bsp held s1 s2 s3 a.starts in
      let (d, k, same, shared, described, read) =
        decode_lem ot eid secret isc smr bpp_seq bsp u b a s0 r in
      (bpp_seq, record b { ppp = some p }, d, rw h (rw q refl), k, same, shared, described, read)
