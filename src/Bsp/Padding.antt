-- ===== src/Bsp/Padding.antt =====
-- The padding of `BspAlgo` and `BspAlgoCryptAES128` (pysim/pySim/esim/bsp.py), over byte strings.
use virtual_rsp.Common.{
  ℕ, zero, suc, ◌+◌, ◌-◌, ◌*◌, ◌%◌, ◌/◌, ◌≡◌, refl, ap, false, List, [], ◌∷◌, ◌++◌, Result, ok, err,
  ◌>>=◌, assertion_error, index_error, arith, nat_beq, if◌then◌else◌, length, length-append,
  length-replicate, replicate, inl, inr, Bool-cases,
}

abbrev pub Bytes : Type 0
Bytes = List ℕ

-- `BspAlgo._get_padding`
unfoldable pub zero_padding : ℕ → ℕ → ℕ → Bytes
zero_padding in_len multiple padding =
    if nat_beq (in_len % multiple) 0 then [] else replicate (multiple - in_len % multiple) padding

-- `BspAlgoCryptAES128._get_padding`
unfoldable pub aes_padding : ℕ → ℕ → ℕ → Bytes
unfolding zero_padding
aes_padding in_len multiple padding = 0x80 ∷ zero_padding (in_len + 1) multiple padding

-- `BspAlgo._pad_to_multiple`, with the padding of AES
unfoldable pub pad_to_multiple : Bytes → ℕ → Bytes
unfolding aes_padding
pad_to_multiple m multiple = m ++ aes_padding (length m) multiple 0

-- `padded.rstrip(b'\0')`: a byte stays if it is not zero or if something after it stays
strip_before : ℕ → Bytes → Bytes
strip_before b [] = if nat_beq b 0 then [] else b ∷ []
strip_before b (c ∷ cs) = b ∷ c ∷ cs

unfoldable pub rstrip_zeros : Bytes → Bytes
unfolding strip_before
rstrip_zeros [] = []
rstrip_zeros (b ∷ bs) = strip_before b (rstrip_zeros bs)

-- `s[-1]`, which raises on an empty string, and `s[:-1]`
abbrev pub last_byte : Bytes → Result ℕ
last_byte [] = err index_error
last_byte (b ∷ []) = ok b
last_byte (b ∷ c ∷ cs) = last_byte (c ∷ cs)

abbrev pub init_bytes : Bytes → Bytes
init_bytes [] = []
init_bytes (b ∷ []) = []
init_bytes (b ∷ c ∷ cs) = b ∷ init_bytes (c ∷ cs)

-- `BspAlgoCryptAES128._unpad`
unfoldable pub unpad : Bytes → Result Bytes
unfolding rstrip_zeros
unpad padded = do
  let stripped = rstrip_zeros padded
  b ← last_byte stripped
  if nat_beq b 0x80 then ok (init_bytes stripped) else err assertion_error

pad_four : pad_to_multiple (1 ∷ 2 ∷ 0 ∷ 0 ∷ []) 16 ≡ 1 ∷ 2 ∷ 0 ∷ 0 ∷ 0x80 ∷ replicate 11 0
unfolding pad_to_multiple
pad_four = refl

-- Padded data is a whole number of blocks.
pub length-pad_to_multiple : (m : Bytes) → length (pad_to_multiple m 16) ≡ (length m / 16 + 1) * 16
unfolding pad_to_multiple
length-pad_to_multiple m =
    rw (length-append {0} m _)
      (ground (arith, length-replicate {0} {A = ℕ} (16 - (length m + 1) % 16) 0))

rstrip_zeros-replicate : (n : ℕ) → rstrip_zeros (replicate n 0) ≡ []
unfolding rstrip_zeros
rstrip_zeros-replicate zero = refl
rstrip_zeros-replicate (suc n) = rw (rstrip_zeros-replicate n) refl

strip_before-append : (x : ℕ) (m : Bytes) (b : ℕ) → strip_before x (m ++ b ∷ []) ≡ x ∷ m ++ b ∷ []
unfolding strip_before
strip_before-append x [] b = refl
strip_before-append x (y ∷ m) b = refl

-- What stands before a byte that is not zero stays.
rstrip_zeros-append :
    (m : Bytes) (b n : ℕ)
    → nat_beq b 0 ≡ false
    → rstrip_zeros (m ++ b ∷ replicate n 0) ≡ m ++ b ∷ []
unfolding rstrip_zeros
rstrip_zeros-append [] b n h = rw (rstrip_zeros-replicate n) (rw h refl)
rstrip_zeros-append (x ∷ m) b n h = rw (rstrip_zeros-append m b n h) (strip_before-append x m b)

last_byte-append : (m : Bytes) (b : ℕ) → last_byte (m ++ b ∷ []) ≡ ok b
last_byte-append [] b = refl
last_byte-append (x ∷ []) b = refl
last_byte-append (x ∷ y ∷ m) b = last_byte-append (y ∷ m) b

init_bytes-append : (m : Bytes) (b : ℕ) → init_bytes (m ++ b ∷ []) ≡ m
init_bytes-append [] b = refl
init_bytes-append (x ∷ []) b = refl
init_bytes-append (x ∷ y ∷ m) b = ap (◌∷◌ x) (init_bytes-append (y ∷ m) b)

unpad-marked : (m : Bytes) (n : ℕ) → unpad (m ++ 0x80 ∷ replicate n 0) ≡ ok m
unfolding unpad
unpad-marked m n =
    rw (rstrip_zeros-append m 0x80 n refl)
      (rw (last_byte-append m 0x80) (ap ok (init_bytes-append m 0x80)))

-- Removing the padding of any byte string gives the string back, also if it ends in zeros or in
-- the byte 80.
pub unpad-pad_to_multiple : (m : Bytes) → unpad (pad_to_multiple m 16) ≡ ok m
unfolding pad_to_multiple
unpad-pad_to_multiple m = elim (Bool-cases (nat_beq ((length m + 1) % 16) 0)) [
  | inl e ↦ rw e (unpad-marked m 0)
  | inr e ↦ rw e (unpad-marked m (16 - (length m + 1) % 16))
]
