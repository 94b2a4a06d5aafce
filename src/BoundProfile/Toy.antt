-- ===== src/BoundProfile/Toy.antt =====
-- Packages that satisfy what pysim/pySim/esim/es8p.py relies on, for runs: the BER-TLV of tags of
-- one and two bytes, requests of fields with a length in front, and a shared secret that is the
-- peer's public key.
use virtual_rsp.Common.{
  ℕ, zero, suc, ◌+◌, ◌-◌, ◌*◌, ◌/◌, ◌%◌, ◌≤◌, ◌<◌, ◌≡◌, ◌≢◌, refl, sym, ap, ◌∙◌, [], ◌∷◌, ◌++◌,
  append_assoc, append-nil, Option, none, some, Result, ok, err, ◌>>=◌, required, value_error, ltb,
  nat_beq, if◌then◌else◌, length, length-append, take, drop, replicate, arith, take-append_length,
  drop-append_length, take-append-drop, ok-injective,
}
use virtual_rsp.Bsp.Padding.{Bytes}
use virtual_rsp.Bsp.Toy.{toy, toy-IsCrypto, ber_len, ber_value, value_of}
use virtual_rsp.BoundProfile.Tools.{
  Tools, IsTools, IsTag, SecureChannel, SessionKeys, wrap_as_der_tlv,
}

value_of_lem : (n : ℕ) (v rest : Bytes) → n ≡ length v → value_of n (v ++ rest) ≡ some (v, rest)
value_of_lem n v rest e =
    rw e (rw (take-append_length v rest) (rw (drop-append_length v rest) refl))

ber_value_lem : (v rest : Bytes) → ber_value (ber_len (length v) ++ (v ++ rest)) ≡ some (v, rest)
ber_value_lem v rest = ground (
  arith,
  value_of_lem (length v) v rest refl,
  value_of_lem (length v / 256 * 256 + length v % 256) v rest (omega arith),
)

abbrev second_byte : ℕ → Bytes → Option (ℕ × Bytes)
second_byte b [] = none
second_byte b (c ∷ bs) = some (b * 256 + c, bs)

abbrev tag_of : Bytes → Option (ℕ × Bytes)
tag_of [] = none
tag_of (b ∷ bs) = if nat_beq (b % 32) 31 then second_byte b bs else some (b, bs)

abbrev tag_bytes : ℕ → Bytes
tag_bytes tag = if ltb tag 256 then tag ∷ [] else tag / 256 ∷ tag % 256 ∷ []

abbrev with_value : ℕ → Option (Bytes × Bytes) → Result (ℕ × Bytes × Bytes)
with_value tag none = err (value_error "length")
with_value tag (some (v, rest)) = ok (tag, v, rest)

abbrev after_tag : Option (ℕ × Bytes) → Result (ℕ × Bytes × Bytes)
after_tag none = err (value_error "tag")
after_tag (some (tag, m)) = with_value tag (ber_value m)

abbrev pub parse_tlv : Bytes → Result (ℕ × Bytes × Bytes)
parse_tlv m = after_tag (tag_of m)

abbrev cut : ℕ → ℕ → Bytes → Result (ℕ × Bytes × Bytes)
cut tag (suc k) (b ∷ bs) = ok (tag, b ∷ take k bs, drop k bs)
cut tag _ _ = err (value_error "tlv")

abbrev whole_tlv : Bytes → Result (ℕ × Bytes × Bytes) → Result (ℕ × Bytes × Bytes)
whole_tlv m (err e) = err e
whole_tlv m (ok (tag, v, rest)) = cut tag (length m - length rest) m

abbrev pub return_tlv : Bytes → Result (ℕ × Bytes × Bytes)
return_tlv m = whole_tlv m (parse_tlv m)

-- a tag of one byte, or of two
abbrev Known : ℕ → Type 0
Known tag = (tag < 256 → tag % 32 ≢ 31) × (256 ≤ tag → (tag / 256) % 32 ≡ 31)

abbrev tlv : ℕ → Bytes → Bytes
tlv tag v = tag_bytes tag ++ ber_len (length v) ++ v

tag_of-tag_bytes : (tag : ℕ) (m : Bytes) → Known tag → tag_of (tag_bytes tag ++ m) ≡ some (tag, m)
tag_of-tag_bytes tag m k = ground arith

parse-tlv :
    (tag : ℕ) (v rest : Bytes) → Known tag → parse_tlv (tlv tag v ++ rest) ≡ ok (tag, v, rest)
parse-tlv tag v rest k = rw (append_assoc (tag_bytes tag ++ ber_len (length v)) v rest) (
    rw (append_assoc (tag_bytes tag) (ber_len (length v)) (v ++ rest)) (
      rw (tag_of-tag_bytes tag (ber_len (length v) ++ (v ++ rest)) k)
        (rw (ber_value_lem v rest) refl)))

cut_lem :
    (tag : ℕ) (m rest : Bytes) → 0 < length m → cut tag (length m) (m ++ rest) ≡ ok (tag, m, rest)
cut_lem tag [] rest h = absurd (omega arith)
cut_lem tag (b ∷ bs) rest h = rw (take-append_length bs rest) (rw (drop-append_length bs rest) refl)

return-tlv :
    (tag : ℕ) (v rest : Bytes)
    → Known tag
    → return_tlv (tlv tag v ++ rest) ≡ ok (tag, tlv tag v, rest)
return-tlv tag v rest k =
    let t1 = length-append {0} (tlv tag v) rest in
    let t2 = length-append {0} (tag_bytes tag ++ ber_len (length v)) v in
    let t3 = length-append {0} (tag_bytes tag) (ber_len (length v)) in
    let long : 0 < length (tag_bytes tag) = ground arith in
    let same : length (tlv tag v ++ rest) - length rest ≡ length (tlv tag v) = omega (arith, t1) in
    rw (parse-tlv tag v rest k)
      (rw same (cut_lem tag (tlv tag v) rest (omega (arith, long, t2, t3))))

-- A whole TLV and its remainder are the bytes they were cut from.
cut_splits :
    (tag tag' n : ℕ) (m x rest : Bytes)
    → cut tag n m ≡ ok (tag', x, rest)
    → (0 < length x) × (x ++ rest ≡ m)
cut_splits tag tag' zero m x rest h = absurd (cc)
cut_splits tag tag' (suc k) [] x rest h = absurd (cc)
cut_splits tag tag' (suc k) (b ∷ bs) x rest h =
    let e = ok-injective h in
    let e1 : b ∷ take k bs ≡ x = ap (λ (p : ℕ × Bytes × Bytes). p.1) e in
    let e2 : drop k bs ≡ rest = ap (λ (p : ℕ × Bytes × Bytes). p.2) e in
    (
      omega (arith, ap (λ (o : Bytes). length o) e1),
      rw (← e1) (rw (← e2) (ap (◌∷◌ b) (take-append-drop k bs))),
    )

return_splits_lem :
    (m : Bytes) (r : Result (ℕ × Bytes × Bytes)) (tag : ℕ) (x rest : Bytes)
    → whole_tlv m r ≡ ok (tag, x, rest)
    → (0 < length x) × (x ++ rest ≡ m)
return_splits_lem m (err e) tag x rest h = absurd (cc)
return_splits_lem m (ok (t, v, r)) tag x rest h = cut_splits t tag (length m - length r) m x rest h

-- fields with a length in front
unfoldable pub field : Bytes → Bytes → Bytes
field v rest = length v ∷ (v ++ rest)

unfoldable pub get : Bytes → Result (Bytes × Bytes)
get [] = err (value_error "field")
get (n ∷ m) = required (value_error "field") (value_of n m)

get-field : (v rest : Bytes) → get (field v rest) ≡ ok (v, rest)
unfolding get field
get-field v rest = rw (take-append_length v rest) (rw (drop-append_length v rest) refl)

abbrev pub write_keys : SessionKeys → Bytes
write_keys k = field k.ppk_enc (field k.ppk_cmac (field k.initial_mcv []))

abbrev pub read_keys : Bytes → Result SessionKeys
read_keys m = do
  (enc, m1) ← get m
  (cmac, m2) ← get m1
  (mcv, _) ← get m2
  ok (record { ppk_enc = enc; ppk_cmac = cmac; initial_mcv = mcv })

read_keys-write_keys : (k : SessionKeys) → read_keys (write_keys k) ≡ ok k
read_keys-write_keys k =
    rw (get-field k.ppk_enc (field k.ppk_cmac (field k.initial_mcv [])))
      (rw (get-field k.ppk_cmac (field k.initial_mcv [])) (rw (get-field k.initial_mcv []) refl))

abbrev pub channel_fields : SecureChannel → Bytes → Bytes
channel_fields i signature =
    i.remote_op_id
    ∷ field i.transaction_id (
        field i.key_type
          (field i.key_len (field i.host_id (field i.smdp_otpk (field signature [])))))

abbrev pub read_fields : ℕ → Bytes → Result (SecureChannel × Bytes)
read_fields op m = do
  (tid, m1) ← get m
  (key_type, m2) ← get m1
  (key_len, m3) ← get m2
  (host, m4) ← get m3
  (otpk, m5) ← get m4
  (signature, _) ← get m5
  ok (
    record {
      remote_op_id = op;
      transaction_id = tid;
      key_type = key_type;
      key_len = key_len;
      host_id = host;
      smdp_otpk = otpk;
    },
    signature,
  )

abbrev fields_of : Bytes → Result (SecureChannel × Bytes)
fields_of [] = err (value_error "channel")
fields_of (op ∷ m) = read_fields op m

abbrev parsed_fields : Result (ℕ × Bytes × Bytes) → Result (SecureChannel × Bytes)
parsed_fields (err e) = err e
parsed_fields (ok (_, v, _)) = fields_of v

abbrev pub read_channel : Bytes → Result (SecureChannel × Bytes)
read_channel m = parsed_fields (parse_tlv m)

read_fields_lem :
    (i : SecureChannel) (signature : Bytes)
    → fields_of (channel_fields i signature) ≡ ok (i, signature)
read_fields_lem i signature =
    let m5 = field signature [] in
    let m4 = field i.smdp_otpk m5 in
    let m3 = field i.host_id m4 in
    let m2 = field i.key_len m3 in
    let m1 = field i.key_type m2 in
    rw (get-field i.transaction_id m1) (
      rw (get-field i.key_type m2) (
        rw (get-field i.key_len m3) (
          rw (get-field i.host_id m4)
            (rw (get-field i.smdp_otpk m5) (rw (get-field signature []) refl)))))

read_channel_lem :
    (i : SecureChannel) (signature : Bytes)
    → read_channel (tlv 0xBF23 (channel_fields i signature)) ≡ ok (i, signature)
read_channel_lem i signature =
    let v = channel_fields i signature in
    ap read_channel (sym (append-nil (tlv 0xBF23 v)))
    ∙ ap parsed_fields (parse-tlv 0xBF23 v [] (omega arith, omega arith))
    ∙ read_fields_lem i signature

known : (tag : ℕ) → IsTag tag → Known tag
known tag h = ground arith

abbrev pub toy_tools : Tools
toy_tools = record {
  crypto = toy;
  kdf = λ n info secret. replicate n 1;
  encode_tag = tag_bytes;
  parse_rawtag = parse_tlv;
  return_rawtlv = return_tlv;
  h2b = λ _. ok (9 ∷ []);
  eid_bytes = λ e. ok e;
  encode_channel = λ i signature. tlv 0xBF23 (channel_fields i signature);
  decode_channel = read_channel;
  configure_isdp = 0xBF ∷ 0x24 ∷ 0 ∷ [];
  decode_configure = λ _. ok tt;
  encode_metadata = λ m. m.iccid;
  decode_metadata =
      λ m. ok (record { iccid = m; provider = ""; name = ""; icon = none; notifications = none });
  encode_keys = write_keys;
  decode_keys = read_keys;
  exchange = λ _ otpk. ok otpk;
}

pub toy_tools-IsTools : IsTools toy_tools
unfolding wrap_as_der_tlv
toy_tools-IsTools = record {
  cipher = toy-IsCrypto;
  encode_tag_one = λ tag h. ground arith;
  parse_wrapped = λ tag v rest h n. parse-tlv tag v rest (known tag h);
  return_wrapped = λ tag v rest h n. return-tlv tag v rest (known tag h);
  return_splits = λ m x rest tag h. return_splits_lem m (parse_tlv m) tag x rest h;
  parse_nothing = (_, refl);
  return_channel = λ i signature rest n.
      return-tlv 0xBF23 (channel_fields i signature) rest (omega arith, omega arith);
  channel_inverse = read_channel_lem;
  configure_inverse = refl;
  metadata_decodes = λ m. (_, refl);
  keys_inverse = read_keys-write_keys;
}
