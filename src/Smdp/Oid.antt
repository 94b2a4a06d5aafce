-- ===== src/Smdp/Oid.antt =====
-- The decoder of object identifiers that pysim/osmo-smdpp.py puts in place of the one of its ASN.1
-- package, on the bytes from the offset on; the arcs are the numbers that the dotted text joins.
pub mod RoundTrip
use virtual_rsp.Common.{
  ℕ, zero, suc, ◌+◌, ◌-◌, ◌*◌, ◌/◌, ◌%◌, ◌≤◌, ◌<◌, ◌≡◌, refl, sym, ap, ◌∙◌, ◌⊎◌, inl, inr, arith,
  [], ◌∷◌, List, ◌++◌, append_assoc, Bool, true, false, Bool-cases, Result, ok, err, ◌>>=◌, ◌>>◌,
  index_error, ltb, nat_beq, length, length-append, lt→ltb, if◌then◌else◌,
}
use virtual_rsp.Bsp.Padding.{Bytes}

-- `read_subidentifier`: the value, the bytes behind it, and the new offset
unfoldable pub read_subidentifier : ℕ → Bytes → ℕ → Result (ℕ × Bytes × ℕ)
read_subidentifier value [] offset = err index_error
read_subidentifier value (b ∷ bs) offset =
    let rest = read_subidentifier (value * 128 + b % 128) bs (offset + 1) in
    if ltb b 128 then ok (value * 128 + b % 128, bs, offset + 1) else rest

-- `while offset < end_offset`. A round takes a byte at least, so the number of bytes is enough fuel.
unfoldable pub read_arcs : ℕ → Bytes → ℕ → ℕ → Result (List ℕ)
read_arcs zero data_left offset end = if ltb offset end then err index_error else ok []
read_arcs (suc fuel) data_left offset end =
    if ltb offset end
    then (do
      (subid, behind, next) ← read_subidentifier 0 data_left offset
      arcs ← read_arcs fuel behind next end
      ok (subid ∷ arcs))
    else ok []

unfoldable pub first_arcs : ℕ → List ℕ
first_arcs subid =
    if ltb subid 40
    then 0 ∷ subid ∷ []
    else if ltb subid 80
    then 1 ∷ (subid - 40) ∷ []
    else 2 ∷ (subid - 80) ∷ []

-- `fixed_decode_object_identifier`
unfoldable pub decode_object_identifier : Bytes → ℕ → ℕ → Result (List ℕ)
unfolding read_subidentifier read_arcs first_arcs
decode_object_identifier bytes offset end = do
  (subid, behind, next) ← read_subidentifier 0 bytes offset
  arcs ← read_arcs (length behind) behind next end
  ok (first_arcs subid ++ arcs)
