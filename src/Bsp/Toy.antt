-- ===== src/Bsp/Toy.antt =====
-- A cipher that changes nothing, a MAC that sums the bytes, and the lengths of BER, for runs of
-- pysim/pySim/esim/bsp.py.
use virtual_rsp.Common.{
  ℕ, zero, suc, ◌+◌, ◌*◌, ◌/◌, ◌%◌, ◌≤◌, ◌≡◌, refl, [], ◌∷◌, ◌++◌, Option, none, some, length, take,
  drop, replicate, arith, ltb, nat_beq, if◌then◌else◌,
}
use virtual_rsp.Bsp.Padding.{Bytes}
use virtual_rsp.Bsp.Algo.{Crypto, IsCrypto}

abbrev sum_bytes : Bytes → ℕ
sum_bytes [] = 0
sum_bytes (b ∷ bs) = b + sum_bytes bs

abbrev pub ber_len : ℕ → Bytes
ber_len n =
    if ltb n 128 then n ∷ [] else if ltb n 256 then 0x81 ∷ n ∷ [] else 0x82 ∷ n / 256 ∷ n % 256 ∷ []

abbrev pub value_of : ℕ → Bytes → Option (Bytes × Bytes)
value_of n rest = some (take n rest, drop n rest)

abbrev long_form : Bytes → Option (Bytes × Bytes)
long_form (a ∷ b ∷ rest) = value_of (a * 256 + b) rest
long_form _ = none

abbrev short_form : Bytes → Option (Bytes × Bytes)
short_form (a ∷ rest) = value_of a rest
short_form [] = none

abbrev pub ber_value : Bytes → Option (Bytes × Bytes)
ber_value (l ∷ rest) =
    if ltb l 128
    then value_of l rest
    else if nat_beq l 0x81
    then short_form rest
    else long_form rest
ber_value [] = none

abbrev ber_parse : Bytes → Option (Bytes × Bytes)
ber_parse (tag ∷ rest) = ber_value rest
ber_parse [] = none

abbrev pub toy : Crypto
toy = record {
  cbc_encrypt = λ k iv m. m;
  cbc_decrypt = λ k iv m. m;
  cmac = λ k m. sum_bytes m ∷ replicate 15 0;
  encode_len = ber_len;
  parse_one = ber_parse;
}

take_all : (n : ℕ) (v : Bytes) → length v ≤ n → value_of n v ≡ some (v, [])
take_all zero [] h = refl
take_all zero (b ∷ v) h = absurd (omega arith)
take_all (suc n) [] h = refl
take_all (suc n) (b ∷ v) h = ground (arith, take_all n v (omega arith))

toy_parses :
    (tag n : ℕ) (v : Bytes) → length v ≤ n → ber_parse (tag ∷ ber_len n ++ v) ≡ some (v, [])
toy_parses tag n v h = ground (arith, take_all n v h, take_all (n / 256 * 256 + n % 256) v)

pub toy-IsCrypto : IsCrypto toy
toy-IsCrypto = record {
  cbc_inverse = λ k iv m h. refl;
  cbc_length = λ k iv m h. refl;
  cmac_length = λ k m. refl;
  encode_len_size = λ n h. ground arith;
  parse_value = λ tag n v h k f. toy_parses tag n v f;
}
