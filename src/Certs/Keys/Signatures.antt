-- ===== src/Certs/Keys/Signatures.antt =====
-- The signatures of pysim/pySim/esim/x509_cert.py and their reader in pysim/osmo-smdpp.py.
use native.Mathlib.Nat.{
  pow-suc, one-le-pow, div-add-mod', mul-add-mod_self_left, mod-eq_of_lt, mod-lt,
}
use virtual_rsp.Common.{
  ℕ, zero, suc, ◌+◌, ◌*◌, ◌/◌, ◌%◌, ◌^◌, ◌≤◌, ◌<◌, ◌≡◌, refl, sym, ap, ◌∙◌, arith, ◌++◌, ◌⊎◌, inl,
  inr, true, Bool-cases, ltb, ltb→lt, not-ltb→le, nat_beq, nat_beq_iff, length, take, drop,
  length-append, take-append_length, drop-append_length, Result, ok, err, value_error, ◌>>=◌,
}
use virtual_rsp.Certs.Keys.{to_bytes_32, ecdsa_dss_to_tr03111}
use virtual_rsp.Smdp.Server.{ecdsa_tr03111_to_dss}
use virtual_rsp.Bsp.Padding.{Bytes}
use virtual_rsp.Bsp.Algo.{to_bytes}
use virtual_rsp.BoundProfile.Tools.{from_bytes}

-- The last digit to the base 256 above a place.
below_place : (b r m : ℕ) → b < 256 → r < m → b * m + r < 256 * m
below_place b r m h k = grind arith

split_place : (n m : ℕ) → 256 * m * (n / m / 256) + (n / m % 256 * m + n % m) ≡ n
split_place n m = omega (
  arith,
  div-add-mod' n m,
  ap (λ (q : ℕ). q * m) (div-add-mod' (n / m) 256),
  mul-add-expand (n / m / 256) (n / m % 256) m,
)
  where
    mul-add-expand : (a b m : ℕ) → (a * 256 + b) * m ≡ 256 * m * a + b * m
    mul-add-expand a b m = grind arith

mod_place : (n m : ℕ) → 0 < m → n % (256 * m) ≡ n / m % 256 * m + n % m
mod_place n m h =
    ap (λ (k : ℕ). k % (256 * m)) (sym (split_place n m))
    ∙ mul-add-mod_self_left (256 * m) (n / m / 256) (n / m % 256 * m + n % m)
    ∙ mod-eq_of_lt (below_place (n / m % 256) (n % m) m (omega arith) (mod-lt n h))

positive : (w : ℕ) → 0 < 256 ^ w
positive w = one-le-pow w 256 (omega arith)

-- What is written big-endian is read again, up to the width.
from_bytes-to_bytes : (w acc n : ℕ) → from_bytes acc (to_bytes w n) ≡ acc * 256 ^ w + n % 256 ^ w
unfolding from_bytes to_bytes
from_bytes-to_bytes zero acc n = omega arith
from_bytes-to_bytes (suc w) acc n =
    let m = 256 ^ w in
    from_bytes-to_bytes w (acc * 256 + n / m % 256) n
    ∙ regroup acc (n / m % 256) m (n % m)
    ∙ ap (λ (k : ℕ). acc * (256 * m) + k) (sym (mod_place n m (positive w)))
    ∙ ap (λ (k : ℕ). acc * k + n % k) (omega (arith, pow-suc 256 w))
  where
    regroup : (a b m r : ℕ) → (a * 256 + b) * m + r ≡ a * (256 * m) + (b * m + r)
    regroup a b m r = grind arith

length-to_bytes : (w n : ℕ) → length (to_bytes w n) ≡ w
unfolding to_bytes
length-to_bytes zero n = refl
length-to_bytes (suc w) n = ap suc (length-to_bytes w n)

-- A number that fits into 32 bytes is read back, and another one is refused.
from_bytes-to_bytes_32 : (n : ℕ) → n < 256 ^ 32 → from_bytes 0 (to_bytes 32 n) ≡ n
from_bytes-to_bytes_32 n h = from_bytes-to_bytes 32 0 n ∙ omega (arith, mod-eq_of_lt h)

to_bytes_32-cases :
    (n : ℕ)
    → ((n < 256 ^ 32) × (to_bytes_32 n ≡ ok (to_bytes 32 n)))
      ⊎ ((256 ^ 32 ≤ n) × (to_bytes_32 n ≡ err (value_error "OverflowError")))
unfolding to_bytes_32
to_bytes_32-cases n = elim (Bool-cases (ltb n (256 ^ 32))) [
  | inl b ↦ inl (ltb→lt n (256 ^ 32) b, rw b refl)
  | inr b ↦ inr (not-ltb→le n (256 ^ 32) b, rw b refl)
]

read_halves :
    (a b : Bytes)
    → length a ≡ 32
    → length b ≡ 32
    → ecdsa_tr03111_to_dss (a ++ b) ≡ ok (from_bytes 0 a, from_bytes 0 b)
unfolding ecdsa_tr03111_to_dss
read_halves a b h k =
    let whole : nat_beq (length (a ++ b)) 64 ≡ true =
      (nat_beq_iff _ 64).1 (omega (arith, length-append {0} a b, h, k)) in
    let first : take 32 (a ++ b) ≡ a =
      ap (λ (w : ℕ). take w (a ++ b)) (sym h) ∙ take-append_length a b in
    let second : drop 32 (a ++ b) ≡ b =
      ap (λ (w : ℕ). drop w (a ++ b)) (sym h) ∙ drop-append_length a b in
    rw whole (rw (first, second) refl)

same_pair : {a b c d : ℕ} → a ≡ b → c ≡ d → ◌≡◌ {A = Result (ℕ × ℕ)} (ok (a, c)) (ok (b, d))
same_pair p q = cc

-- A signature of two numbers that fit into 32 bytes each is written so that the server reads the
-- same numbers; of two numbers one of which does not fit, none is written: an exception is raised.
pub ecdsa_tr03111_to_dss-ecdsa_dss_to_tr03111 :
    (r s : ℕ)
    → ((r < 256 ^ 32)
        × (s < 256 ^ 32)
        × ((ecdsa_dss_to_tr03111 (r, s) >>= ecdsa_tr03111_to_dss) ≡ ok (r, s)))
      ⊎ (((256 ^ 32 ≤ r) ⊎ (256 ^ 32 ≤ s))
          × (ecdsa_dss_to_tr03111 (r, s) ≡ err (value_error "OverflowError")))
unfolding ecdsa_dss_to_tr03111
ecdsa_tr03111_to_dss-ecdsa_dss_to_tr03111 r s = elim (to_bytes_32-cases r) [
  | inr (big, e) ↦ inr (inl big, rw e refl)
  | inl (h, e) ↦ elim (to_bytes_32-cases s) [
    | inr (big, f) ↦ inr (inr big, rw e (rw f refl))
    | inl (k, f) ↦ inl (
      h,
      k,
      rw e (
          rw f (
            read_halves (to_bytes 32 r) (to_bytes 32 s) (length-to_bytes 32 r)
              (length-to_bytes 32 s)
            ∙ same_pair (from_bytes-to_bytes_32 r h) (from_bytes-to_bytes_32 s k))),
    )
  ]
]
