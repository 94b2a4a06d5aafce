-- ===== src/Smdp/Oid/RoundTrip.antt =====
-- The encoding of object identifiers of X.690, which the decoder of pysim/osmo-smdpp.py inverts.
use virtual_rsp.Common.{
  ℕ, zero, suc, ◌+◌, ◌-◌, ◌*◌, ◌/◌, ◌%◌, ◌≤◌, ◌<◌, ◌≡◌, refl, sym, ap, ◌∙◌, inl, inr, arith, [],
  ◌∷◌, List, ◌++◌, append_assoc, true, false, Bool-cases, Result, ok, ◌>>=◌, ltb, nat_beq, length,
  length-append, lt→ltb, if◌then◌else◌,
}
use virtual_rsp.Bsp.Padding.{Bytes}
use virtual_rsp.Smdp.Oid.{read_subidentifier, read_arcs, first_arcs, decode_object_identifier}

-- the digits of a number to the base 128 with the high bit set, none for 0
abbrev pub high_digits : ℕ → ℕ → Bytes
high_digits zero n = []
high_digits (suc fuel) n =
    let rest = high_digits fuel (n / 128) in
    if nat_beq n 0 then [] else rest ++ (128 + n % 128) ∷ []

-- one subidentifier
abbrev pub encode_arc : ℕ → Bytes
encode_arc n = high_digits n (n / 128) ++ n % 128 ∷ []

abbrev pub encode_arcs : List ℕ → Bytes
encode_arcs [] = []
encode_arcs (a ∷ arcs) = encode_arc a ++ encode_arcs arcs

-- the first two arcs are one subidentifier
abbrev pub encode_object_identifier : ℕ → ℕ → List ℕ → Bytes
encode_object_identifier first second arcs = encode_arcs ((40 * first + second) ∷ arcs)

not_low : (b : ℕ) → ltb (128 + b) 128 ≡ false
not_low b = ground arith

low : (b : ℕ) → b < 128 → ltb b 128 ≡ true
low b h = ground arith

read_same :
    {v w o p : ℕ} (rest : Bytes)
    → v ≡ w
    → o ≡ p
    → read_subidentifier v rest o ≡ read_subidentifier w rest p
read_same {w = w} {o = o} rest a b =
    ap (λ k. read_subidentifier k rest o) a ∙ ap (read_subidentifier w rest) b

digit :
    (b : ℕ) (v o : ℕ) (rest : Bytes)
    → b < 128
    → read_subidentifier v ((128 + b) ∷ rest) o ≡ read_subidentifier (v * 128 + b) rest (o + 1)
unfolding read_subidentifier
digit b v o rest h = rw (not_low b) (read_same rest (omega (arith, h)) refl)

read_none :
    (n o : ℕ) (rest : Bytes)
    → n ≡ 0
    → read_subidentifier 0 rest o ≡ read_subidentifier n rest (o + 0)
read_none n o rest e = read_same rest (sym e) (omega arith)

is_zero : (n : ℕ) → nat_beq n 0 ≡ true → n ≡ 0
is_zero n h = ground arith

is_positive : (n : ℕ) → nat_beq n 0 ≡ false → 1 ≤ n
is_positive n h = ground arith

read_high :
    (fuel n o : ℕ) (rest : Bytes)
    → n ≤ fuel
    → read_subidentifier 0 (high_digits fuel n ++ rest) o
      ≡ read_subidentifier n rest (o + length (high_digits fuel n))
read_high zero n o rest h = read_none n o rest (omega (arith, h))
read_high (suc fuel) n o rest h = elim (Bool-cases (nat_beq n 0)) [
  | inl t ↦ rw t (read_none n o rest (is_zero n t))
  | inr f ↦
      let high = high_digits fuel (n / 128) in
      let p = is_positive n f in
      rw f (
        ap (λ l. read_subidentifier 0 l o) (append_assoc high ((128 + n % 128) ∷ []) rest)
        ∙ read_high fuel (n / 128) o ((128 + n % 128) ∷ rest) (omega (arith, h, p))
        ∙ digit (n % 128) (n / 128) (o + length high) rest (omega arith)
        ∙ read_same rest (omega arith) (omega (arith, length-append high ((128 + n % 128) ∷ []))))
]

abbrev finished : ℕ → Bytes → ℕ → Result (ℕ × Bytes × ℕ)
finished v rest o = ok (v, rest, o)

ok_same : {v w o p : ℕ} (rest : Bytes) → v ≡ w → o ≡ p → finished v rest o ≡ finished w rest p
ok_same {w = w} {o = o} rest a b = ap (λ k. finished k rest o) a ∙ ap (finished w rest) b

last_digit :
    (b v o : ℕ) (rest : Bytes)
    → b < 128
    → read_subidentifier v (b ∷ rest) o ≡ ok (v * 128 + b, rest, o + 1)
unfolding read_subidentifier
last_digit b v o rest h = rw (low b h) (ok_same rest (omega (arith, h)) refl)

-- the bytes of one subidentifier are read as this subidentifier
read_arc :
    (n o : ℕ) (rest : Bytes)
    → read_subidentifier 0 (encode_arc n ++ rest) o ≡ ok (n, rest, o + length (encode_arc n))
read_arc n o rest =
    let high = high_digits n (n / 128) in
    ap (λ l. read_subidentifier 0 l o) (append_assoc high ((n % 128) ∷ []) rest)
    ∙ read_high n (n / 128) o ((n % 128) ∷ rest) (omega arith)
    ∙ last_digit (n % 128) (n / 128) (o + length high) rest (omega arith)
    ∙ ok_same rest (omega arith) (omega (arith, length-append high ((n % 128) ∷ [])))

encode_arc_positive : (n : ℕ) → 1 ≤ length (encode_arc n)
encode_arc_positive n = omega (arith, length-append (high_digits n (n / 128)) ((n % 128) ∷ []))

arc_step :
    (fuel o end a : ℕ) (tail : Bytes)
    → o < end
    → read_arcs (suc fuel) (encode_arc a ++ tail) o end
      ≡ (read_arcs fuel tail (o + length (encode_arc a)) end >>= λ arcs. ok (a ∷ arcs))
unfolding read_arcs
arc_step fuel o end a tail h = rw (lt→ltb o end h) (rw (read_arc a o tail) refl)

at_end : (o : ℕ) → ltb o (o + 0) ≡ false
at_end o = ground arith

read_all :
    (arcs : List ℕ) (fuel o : ℕ) (rest : Bytes)
    → length (encode_arcs arcs) ≤ fuel
    → read_arcs fuel (encode_arcs arcs ++ rest) o (o + length (encode_arcs arcs)) ≡ ok arcs
unfolding read_arcs
read_all [] zero o rest h = rw (at_end o) refl
read_all [] (suc fuel) o rest h = rw (at_end o) refl
read_all (a ∷ arcs) zero o rest h =
    absurd
      (omega (arith, h, encode_arc_positive a, length-append (encode_arc a) (encode_arcs arcs)))
read_all (a ∷ arcs) (suc fuel) o rest h =
    let l = length-append (encode_arc a) (encode_arcs arcs) in
    let p = encode_arc_positive a in
    let end = o + length (encode_arc a) + length (encode_arcs arcs) in
    ap (read_arcs (suc fuel) ((encode_arc a ++ encode_arcs arcs) ++ rest) o) (omega (arith, l))
    ∙ ap (λ m. read_arcs (suc fuel) m o end) (append_assoc (encode_arc a) (encode_arcs arcs) rest)
    ∙ arc_step fuel o end a (encode_arcs arcs ++ rest) (omega (arith, p))
    ∙ ap (λ r. r >>= λ more. ok (a ∷ more))
        (read_all arcs fuel (o + length (encode_arc a)) rest (omega (arith, h, l, p)))

first_step :
    (a o end : ℕ) (tail : Bytes)
    → decode_object_identifier (encode_arc a ++ tail) o end ≡ (
        read_arcs (length tail) tail (o + length (encode_arc a)) end >>= λ arcs.
        ok (first_arcs a ++ arcs))
unfolding decode_object_identifier
first_step a o end tail = rw (read_arc a o tail) refl

below : (a b : ℕ) → b ≤ a → ltb a b ≡ false
below a b h = ground arith

first_zero : (k : ℕ) → k < 40 → first_arcs k ≡ 0 ∷ k ∷ []
unfolding first_arcs
first_zero k h = rw (lt→ltb k 40 h) refl

first_one : (k : ℕ) → 40 ≤ k → k < 80 → first_arcs k ≡ 1 ∷ (k - 40) ∷ []
unfolding first_arcs
first_one k h l = rw (below k 40 h) (rw (lt→ltb k 80 l) refl)

first_two : (k : ℕ) → 80 ≤ k → first_arcs k ≡ 2 ∷ (k - 80) ∷ []
unfolding first_arcs
first_two k h = rw (below k 40 (omega (arith, h))) (rw (below k 80 h) refl)

first_arcs_lem :
    (first second : ℕ)
    → first ≤ 2
    → (first < 2 → second < 40)
    → first_arcs (40 * first + second) ≡ first ∷ second ∷ []
first_arcs_lem zero second a b =
    let c = b (omega arith) in first_zero _ (omega (arith, c)) ∙ ap (λ s. 0 ∷ s ∷ []) (omega arith)
first_arcs_lem (suc zero) second a b =
    let c = b (omega arith) in
    first_one _ (omega arith) (omega (arith, c)) ∙ ap (λ s. 1 ∷ s ∷ []) (omega arith)
first_arcs_lem (suc (suc zero)) second a b =
    first_two _ (omega arith) ∙ ap (λ s. 2 ∷ s ∷ []) (omega arith)
first_arcs_lem (suc (suc (suc n))) second a b = absurd (omega (arith, a))

-- The decoder gives back the arcs that were encoded, wherever they stand in the data and whatever
-- follows, if the first arc is at most 2 and the second below 40 where the first is 0 or 1.
pub decode-encode_object_identifier :
    (first second : ℕ) (arcs : List ℕ) (offset : ℕ) (rest : Bytes)
    → first ≤ 2
    → (first < 2 → second < 40)
    → decode_object_identifier
        (encode_object_identifier first second arcs ++ rest)
        offset
        (offset + length (encode_object_identifier first second arcs))
      ≡ ok (first ∷ second ∷ arcs)
decode-encode_object_identifier first second arcs offset rest a b =
    let k = 40 * first + second in
    let end = offset + length (encode_arc k) + length (encode_arcs arcs) in
    ap (decode_object_identifier ((encode_arc k ++ encode_arcs arcs) ++ rest) offset)
      (omega (arith, length-append (encode_arc k) (encode_arcs arcs)))
    ∙ ap (λ m. decode_object_identifier m offset end)
        (append_assoc (encode_arc k) (encode_arcs arcs) rest)
    ∙ first_step k offset end (encode_arcs arcs ++ rest)
    ∙ ap (λ r. r >>= λ more. ok (first_arcs k ++ more))
        (read_all arcs (length (encode_arcs arcs ++ rest)) (offset + length (encode_arc k)) rest
          (omega (arith, length-append (encode_arcs arcs) rest)))
    ∙ ap (λ l. ok (l ++ arcs)) (first_arcs_lem first second a b)
