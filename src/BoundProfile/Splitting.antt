-- ===== src/BoundProfile/Splitting.antt =====
-- `split_bertlv_sequence` and `encode_seq` of pysim/pySim/esim/es8p.py.
use virtual_rsp.Common.{
  ℕ, zero, suc, ◌*◌, ◌^◌, ◌≤◌, ◌<◌, ◌≡◌, ◌⊎◌, inl, inr, refl, sym, ap, ◌∙◌, subst, List, [], ◌∷◌,
  ◌++◌, Result, ok, err, Error, ◌>>=◌, length, length-append, All, nat_beq_refl, Result-cases,
  arith,
}
use virtual_rsp.Bsp.Padding.{Bytes}
use virtual_rsp.BoundProfile.Tools.{Tools, IsTools, IsByteTag, wrap_as_der_tlv}
use virtual_rsp.BoundProfile.Encode.{join, encode_seq}
use virtual_rsp.BoundProfile.Decode.{split_from, split_bertlv_sequence, expect_seq}

module _ (t : Tools) (laws : IsTools t) where
  -- a TLV of a segment: its tag is one byte
  abbrev pub IsSegment : ℕ → Bytes → Type 0
  IsSegment tag out =
      (v : Bytes) × (out ≡ tag ∷ t.crypto.encode_len (length v) ++ v) × (length out ≤ 1040)

  segment_wrapped :
      (tag : ℕ) (v : Bytes)
      → IsByteTag tag
      → wrap_as_der_tlv t tag v ≡ tag ∷ t.crypto.encode_len (length v) ++ v
  unfolding wrap_as_der_tlv
  segment_wrapped tag v a = rw (laws.encode_tag_one tag a) refl

  segment_returned :
      (tag : ℕ) (out rest : Bytes)
      → IsByteTag tag
      → IsSegment tag out
      → t.return_rawtlv (out ++ rest) ≡ ok (tag, out, rest)
  segment_returned tag out rest a (v, e, l) =
      let small : length v < 2 ^ 32 = omega (
        arith,
        l,
        ap (λ (o : Bytes). length o) e,
        length-append {0} (tag ∷ t.crypto.encode_len (length v)) v,
      ) in
      subst (λ (o : Bytes). t.return_rawtlv (o ++ rest) ≡ ok (tag, o, rest))
        (segment_wrapped tag v a ∙ sym e) (laws.return_wrapped tag v rest (inl a) small)

  -- One round of the loop.
  split_round :
      (fuel : ℕ) (m tlv rest : Bytes) (tag : ℕ)
      → 0 < length m
      → t.return_rawtlv m ≡ ok (tag, tlv, rest)
      → split_from t (suc fuel) m ≡ (split_from t fuel rest >>= λ tlvs. ok (tlv ∷ tlvs))
  unfolding split_from
  split_round fuel [] tlv rest tag h e = absurd (omega arith)
  split_round fuel (b ∷ bs) tlv rest tag h e = rw e refl

  split_nil : (fuel : ℕ) → split_from t fuel [] ≡ ok []
  unfolding split_from
  split_nil fuel = refl

  -- Enough fuel splits the segments where they were joined.
  split_from-join :
      (fuel tag : ℕ) (outs : List Bytes)
      → IsByteTag tag
      → All (IsSegment tag) outs
      → length (join outs) ≤ fuel
      → split_from t fuel (join outs) ≡ ok outs
  unfolding join
  split_from-join fuel tag [] a h f = split_nil fuel
  split_from-join zero tag (x ∷ xs) a h f =
      let long : 0 < length x = omega (arith, ap (λ (o : Bytes). length o) h.0.1) in
      absurd (omega (arith, f, long, length-append {0} x (join xs)))
  split_from-join (suc fuel) tag (x ∷ xs) a h f =
      let long : 0 < length x = omega (arith, ap (λ (o : Bytes). length o) h.0.1) in
      let total = length-append {0} x (join xs) in
      rw
        (split_round fuel (x ++ join xs) x (join xs) tag (omega (arith, long, total))
          (segment_returned tag x (join xs) a h.0))
        (rw (split_from-join fuel tag xs a h.1 (omega (arith, f, long, total))) refl)

  length-join :
      (tag : ℕ) (outs : List Bytes)
      → All (IsSegment tag) outs
      → length (join outs) ≤ 1040 * length outs
  unfolding join
  length-join tag [] h = omega arith
  length-join tag (x ∷ xs) h =
      omega (arith, h.0.2, length-append {0} x (join xs), length-join tag xs h.1)

  pub split_bertlv_sequence-join :
      (tag : ℕ) (outs : List Bytes)
      → IsByteTag tag
      → All (IsSegment tag) outs
      → split_bertlv_sequence t (join outs) ≡ ok outs
  unfolding split_bertlv_sequence
  split_bertlv_sequence-join tag outs a h =
      split_from-join (length (join outs)) tag outs a h (omega arith)

  pub parse-encode_seq :
      (expected tag : ℕ) (outs : List Bytes) (rest : Bytes)
      → IsByteTag expected
      → All (IsSegment tag) outs
      → length outs < 2 ^ 20
      → t.parse_rawtag (encode_seq t expected outs ++ rest) ≡ ok (expected, join outs, rest)
  unfolding encode_seq
  parse-encode_seq expected tag outs rest e h n =
      laws.parse_wrapped expected (join outs) rest (inl e)
        (omega (arith, n, length-join tag outs h))

  -- The segments are read back from a sequence of them, whatever stands after it.
  pub expect_seq-encode_seq :
      (expected tag : ℕ) (outs : List Bytes) (rest : Bytes)
      → IsByteTag expected
      → IsByteTag tag
      → All (IsSegment tag) outs
      → length outs < 2 ^ 20
      → expect_seq t expected (encode_seq t expected outs ++ rest) ≡ ok (outs, rest)
  unfolding expect_seq
  expect_seq-encode_seq expected tag outs rest e a h n =
      rw (parse-encode_seq expected tag outs rest e h n)
        (rw (nat_beq_refl expected) (rw (split_bertlv_sequence-join tag outs a h) refl))

  -- The bytes were split into TLVs that join to them, or the parser has raised.
  abbrev Ends : Bytes → Result (List Bytes) → Type 0
  Ends m r =
      ((tlvs : List Bytes) × (r ≡ ok tlvs) × (join tlvs ≡ m))
      ⊎ ((rest : Bytes) × (e : Error) × (t.return_rawtlv rest ≡ err e) × (r ≡ err e))

  Ends-round :
      (m tlv rest : Bytes) (r : Result (List Bytes))
      → tlv ++ rest ≡ m
      → Ends rest r
      → Ends m (r >>= λ tlvs. ok (tlv ∷ tlvs))
  unfolding join
  Ends-round m tlv rest r j (inl (tlvs, e, h)) = rw e (inl (tlv ∷ tlvs, refl, rw h j))
  Ends-round m tlv rest r j (inr (bad, e, h, k)) = rw k (inr (bad, e, h, refl))

  Ends-split_from : (fuel : ℕ) (m : Bytes) → length m ≤ fuel → Ends m (split_from t fuel m)
  unfolding split_from join
  Ends-split_from fuel [] h = inl ([], refl, refl)
  Ends-split_from zero (b ∷ bs) h = absurd (omega arith)
  Ends-split_from (suc fuel) (b ∷ bs) h = elim (Result-cases (t.return_rawtlv (b ∷ bs))) [
    | inl ((tag, tlv, rest), e) ↦
        let (long, joined) = laws.return_splits (b ∷ bs) tlv rest tag e in
        let count = length-append {0} tlv rest in
        let same = ap (λ (o : Bytes). length o) joined in
        rw e (
          Ends-round (b ∷ bs) tlv rest (split_from t fuel rest) joined
            (Ends-split_from fuel rest (omega (arith, h, long, count, same))))
    | inr (e, k) ↦ rw k (inr (b ∷ bs, e, k, refl))
  ]

  -- The loop that splits a sequence ends: after one round for each byte at most, it has returned
  -- TLVs that join to the sequence, or the TLV parser has raised and its error is the result.
  pub split_bertlv_sequence_lem :
      (m : Bytes)
      → ((tlvs : List Bytes) × (split_bertlv_sequence t m ≡ ok tlvs) × (join tlvs ≡ m))
        ⊎ ((rest : Bytes) × (e : Error) × (t.return_rawtlv rest ≡ err e)
            × (split_bertlv_sequence t m ≡ err e))
  unfolding split_bertlv_sequence
  split_bertlv_sequence_lem m = Ends-split_from (length m) m (omega arith)
