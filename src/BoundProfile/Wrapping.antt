-- ===== src/BoundProfile/Wrapping.antt =====
-- `encode` of pysim/pySim/esim/es8p.py wraps the package in a TLV that `decode` does not unwrap.
use virtual_rsp.Common.{
  ℕ, ◌^◌, ◌≤◌, ◌<◌, ◌≡◌, inl, inr, refl, sym, ap, [], ◌++◌, append-nil, String, Result, ok, err,
  Error, Result-cases, ok-injective, length, length-append, arith,
}
use virtual_rsp.Bsp.Padding.{Bytes}
use virtual_rsp.Bsp.Algo.{Bsp}
use virtual_rsp.Smdp.Eid.{Text}
use virtual_rsp.Smdp.Session.{Session}
use virtual_rsp.BoundProfile.Tools.{
  Tools, IsTools, wrap_as_der_tlv, ProtectedProfilePackage, BoundProfilePackage,
}
use virtual_rsp.BoundProfile.Channel.{encode_inputs}
use virtual_rsp.BoundProfile.Encode.{bpp_sequence, finished, encode_from, encode}
use virtual_rsp.BoundProfile.Decode.{expect_seq, sequences, decode}

module _ (t : Tools) (laws : IsTools t) where
  -- What is wrapped cannot be decoded: the first TLV is all there is.
  decode_wrapped :
      (ot : ℕ × String) (eid : Text) (v : Bytes)
      → length v < 2 ^ 32
      → (e : Error) × (decode t ot eid (wrap_as_der_tlv t 0xBF36 v) ≡ err e)
  unfolding decode sequences expect_seq
  decode_wrapped ot eid v n =
      let whole = wrap_as_der_tlv t 0xBF36 v in
      let (e, nothing) = laws.parse_nothing in
      rw (← append-nil whole) (
        rw (laws.return_wrapped 0xBF36 v [] (inr refl) n)
          (elim (Result-cases (t.decode_channel whole)) [
            | inl (i, k) ↦ rw k (rw nothing (e, refl))
            | inr (x, k) ↦ rw k (x, refl)
          ]))

  finished-wraps :
      (b b' : BoundProfilePackage) (r : Result (Bytes × ProtectedProfilePackage)) (out : Bytes)
      → finished t b r ≡ ok (out, b')
      → (v : Bytes) × (out ≡ wrap_as_der_tlv t 0xBF36 v)
  unfolding finished
  finished-wraps b b' (err e) out h = absurd (cc)
  finished-wraps b b' (ok (v, p)) out h =
      (v, sym (ap (λ (q : Bytes × BoundProfilePackage). q.0) (ok-injective h)))

  encode_from-wraps :
      (b b' : BoundProfilePackage) (r : Result (Bsp × Bytes × Bytes)) (out : Bytes)
      → encode_from t b r ≡ ok (out, b')
      → (v : Bytes) × (out ≡ wrap_as_der_tlv t 0xBF36 v)
  unfolding encode_from
  encode_from-wraps b b' (err e) out h = absurd (cc)
  encode_from-wraps b b' (ok (bsp, isc, smr)) out h =
      finished-wraps b b' (bpp_sequence t isc smr b bsp).0 out h

  length-wrapped : (v : Bytes) → length v ≤ length (wrap_as_der_tlv t 0xBF36 v)
  unfolding wrap_as_der_tlv
  length-wrapped v =
      omega (arith, length-append {0} (t.encode_tag 0xBF36 ++ t.crypto.encode_len (length v)) v)

  -- What `encode` returns is never accepted by `decode`, if it has less than 4 GiB: `encode` wraps
  -- the sequence, and `decode` does not unwrap it.
  pub decode-encode_fails :
      (sign : Bytes → Bytes) (ss : Session) (b b' : BoundProfilePackage) (ot : ℕ × String)
      (eid : Text) (out : Bytes)
      → encode t ss sign b ≡ ok (out, b')
      → length out < 2 ^ 32
      → (e : Error) × (decode t ot eid out ≡ err e)
  unfolding encode
  decode-encode_fails sign ss b b' ot eid out h n =
      let (v, e) = encode_from-wraps b b' (encode_inputs t ss sign b) out h in
      let small : length v < 2 ^ 32 =
        omega (arith, n, length-wrapped v, ap (λ (o : Bytes). length o) e) in
      rw e (decode_wrapped ot eid v small)
