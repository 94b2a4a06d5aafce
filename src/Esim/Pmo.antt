-- ===== src/Esim/Pmo.antt =====
-- `PMO` of pysim/pySim/esim/__init__.py, the profile management operation as a bit string.
use Prim.Native.String.{◌++◌ as concat}
use virtual_rsp.Common.{
  ℕ, zero, suc, ◌-◌, ◌/◌, ◌%◌, ◌^◌, [], ◌∷◌, String, Option, none, some, Result, ok, err, ◌>>=◌,
  required, value_error, key_error, index_error, nat_beq, ◌≡◌, refl, if◌then◌else◌,
}
use virtual_rsp.Common.Dict.{Dict, find}
use virtual_rsp.Bsp.Padding.{Bytes}

abbrev pub pmo4operation : Dict ℕ
pmo4operation = ("install", 0x80) ∷ ("enable", 0x40) ∷ ("disable", 0x20) ∷ ("delete", 0x10) ∷ []

pub record Pmo : Type 0 where
  pub op : String

unfoldable pub new_pmo : String → Result Pmo
unfolding find
new_pmo op = do
  _ ←
      required (value_error (concat "Unknown operation \"" (concat op "\"")))
        (find op pmo4operation)
  ok (record { op = op })

unfoldable pub to_int : Pmo → Result ℕ
unfolding find
to_int p = required (key_error p.op) (find p.op pmo4operation)

-- the rounds of `for i in range(0, 8)` that are left; `data & (1 << i)`
unfoldable pub num_bits_from : ℕ → ℕ → ℕ → ℕ
num_bits_from zero i n = 0
num_bits_from (suc rounds) i n =
    let rest = num_bits_from rounds (suc i) n in if nat_beq (n / 2 ^ i % 2) 1 then 8 - i else rest

unfoldable pub num_bits : ℕ → ℕ
unfolding num_bits_from
num_bits = num_bits_from 8 0

-- the byte and the number of bits
unfoldable pub to_bitstring : Pmo → Result (Bytes × ℕ)
unfolding to_int num_bits
to_bitstring p = do val ← to_int p; ok (val ∷ [], num_bits val)

unfoldable pub operation_of : ℕ → Dict ℕ → Option String
operation_of i [] = none
operation_of i ((k, v) ∷ d) = let rest = operation_of i d in if nat_beq v i then some k else rest

unfoldable pub from_int : ℕ → Result Pmo
unfolding operation_of new_pmo
from_int i = do op ← required (value_error "Unknown PMO") (operation_of i pmo4operation); new_pmo op

unfoldable pub from_bitstring : Bytes × ℕ → Result Pmo
unfolding from_int
from_bitstring ([], n) = err index_error
from_bitstring (b ∷ bs, n) = from_int b

disable_bits : to_bitstring (record { op = "disable" }) ≡ ok (0x20 ∷ [], 3)
unfolding to_bitstring num_bits to_int find num_bits_from
disable_bits = refl
