-- ===== src/Smdp/Eid/Range.antt =====
-- Which EIDs `validate_eid_range` of pysim/osmo-smdpp.py accepts.
use virtual_rsp.Common.{
  ◌≡◌, refl, sym, ap, ◌∙◌, inl, inr, ◌↔◌, [], ◌∷◌, List, Bool, true, false, ◌&&◌, ◌||◌, Bool-cases,
  none, some, nat_beq, nat_beq_iff, bytes_beq, bytes_beq_refl, bytes_beq_eq, length, if◌then◌else◌,
}
use virtual_rsp.Certs.{Cert}
use virtual_rsp.Smdp.Eid.{
  Text, is_in, is_iin, keep_iins, unique, any_prefix, starts_with, upper, variant_o,
  subtree_candidates, gsma_candidates, parse_name_constraints_eins, parse_gsma_permitted_eins,
  parse_permitted_eins_from_cert, validate_eid_range,
}

-- what an EUM certificate lists: the serial numbers in its name constraints for the old variant,
-- else the strings of its permittedEins
pub listed : Cert → List Text
listed cert =
    if variant_o cert
    then (elim cert.name_constraints [ none ↦ [] | some trees ↦ subtree_candidates trees ])
    else gsma_candidates cert.permitted_eins

or_left : (a b : Bool) → a ≡ true → (a || b) ≡ true
or_left a b h = rw h refl

or_right : (a b : Bool) → b ≡ true → (a || b) ≡ true
or_right true b h = refl
or_right false b h = h

or_false : (a b : Bool) → a ≡ false → (a || b) ≡ true → b ≡ true
or_false true b e h = absurd (cc)
or_false false b e h = h

and_false : (a b : Bool) → b ≡ false → (a && b) ≡ false
and_false true b h = h
and_false false b h = refl

both : (a b : Bool) → (a && b) ≡ true → (a ≡ true) × (b ≡ true)
both true b h = (refl, h)
both false b h = absurd (cc)

is_in-keep_iins : (t : Text) (ts : List Text) → is_in t (keep_iins ts) ≡ (is_in t ts && is_iin t)
unfolding is_in keep_iins
is_in-keep_iins t [] = refl
is_in-keep_iins t (u ∷ us) = elim (Bool-cases (bytes_beq t u)) [
  | inl e ↦
      let same = ap is_iin (bytes_beq_eq t u e) in
      elim (Bool-cases (is_iin u)) [
        | inl c ↦ rw c (rw e (sym (same ∙ c)))
        | inr c ↦ rw c (
            rw e (
              is_in-keep_iins t us ∙ and_false (is_in t us) (is_iin t) (same ∙ c) ∙ sym (same ∙ c)))
      ]
  | inr e ↦ elim (Bool-cases (is_iin u)) [
    | inl c ↦ rw c (rw e (is_in-keep_iins t us))
    | inr c ↦ rw c (rw e (is_in-keep_iins t us))
  ]
]

is_in-unique : (t : Text) (ts : List Text) → is_in t (unique ts) ≡ is_in t ts
unfolding is_in unique
is_in-unique t [] = refl
is_in-unique t (u ∷ us) = elim (Bool-cases (is_in u (unique us))) [
  | inl c ↦ elim (Bool-cases (bytes_beq t u)) [
    | inl e ↦ rw c (rw e (ap (λ k. is_in k (unique us)) (bytes_beq_eq t u e) ∙ c))
    | inr e ↦ rw c (rw e (is_in-unique t us))
  ]
  | inr c ↦ rw c (ap (λ b. bytes_beq t u || b) (is_in-unique t us))
]

any_prefix_iff :
    (t : Text) (ps : List Text)
    → (any_prefix t ps ≡ true) ↔ ((p : Text) × (is_in p ps ≡ true) × (starts_with t p ≡ true))
unfolding any_prefix is_in
any_prefix_iff t [] = ((λ h. absurd (cc)), (λ (p, a, b). absurd (cc)))
any_prefix_iff t (q ∷ qs) = (
  (λ h. elim (Bool-cases (starts_with t q)) [
    | inl e ↦ (q, or_left (bytes_beq q q) (is_in q qs) (bytes_beq_refl q), e)
    | inr e ↦
        let (p, a, b) =
          (any_prefix_iff t qs).0 (or_false (starts_with t q) (any_prefix t qs) e h) in
        (p, or_right (bytes_beq p q) (is_in p qs) a, b)
  ]),
  (λ (p, a, b). elim (Bool-cases (bytes_beq p q)) [
    | inl e ↦
        or_left (starts_with t q) (any_prefix t qs)
          (ap (starts_with t) (sym (bytes_beq_eq p q e)) ∙ b)
    | inr e ↦
        or_right (starts_with t q) (any_prefix t qs)
          ((any_prefix_iff t qs).1 (p, or_false (bytes_beq p q) (is_in p qs) e a, b))
  ]),
)

permitted_lem :
    (cert : Cert) → parse_permitted_eins_from_cert cert ≡ unique (keep_iins (listed cert))
unfolding parse_permitted_eins_from_cert parse_name_constraints_eins parse_gsma_permitted_eins
    listed keep_iins
permitted_lem cert = elim (Bool-cases (variant_o cert)) [
  | inl v ↦
      rw v
        (elim cert.name_constraints
          as (λ o.
            unique (elim o [ none ↦ [] | some trees ↦ keep_iins (subtree_candidates trees) ])
            ≡ unique (keep_iins (elim o [ none ↦ [] | some trees ↦ subtree_candidates trees ]))) [
              | none ↦ refl
              | some trees ↦ refl
            ])
  | inr v ↦ rw v refl
]

is_in-permitted :
    (p : Text) (cert : Cert)
    → is_in p (parse_permitted_eins_from_cert cert) ≡ (is_in p (listed cert) && is_iin p)
is_in-permitted p cert =
    ap (is_in p) (permitted_lem cert)
    ∙ is_in-unique p (keep_iins (listed cert))
    ∙ is_in-keep_iins p (listed cert)

-- An EID is accepted exactly when it has 32 characters and, in upper case, starts with a text that
-- the EUM certificate lists and that is an identifier of eight hexadecimal digits.
pub validate_eid_range_iff :
    (eid : Text) (cert : Cert)
    → (validate_eid_range eid cert ≡ true) ↔ (
        (length eid ≡ 32)
        × ((p : Text) × (is_in p (listed cert) ≡ true)
            × (is_iin p ≡ true)
            × (starts_with (upper eid) p ≡ true)))
unfolding validate_eid_range
validate_eid_range_iff eid cert =
    let permitted = parse_permitted_eins_from_cert cert in
    (
      (λ h.
          let (l, a) = both (nat_beq (length eid) 32) (any_prefix (upper eid) permitted) h in
          let (p, i, s) = (any_prefix_iff (upper eid) permitted).0 a in
          let (m, d) = both (is_in p (listed cert)) (is_iin p) (sym (is_in-permitted p cert) ∙ i) in
          ((nat_beq_iff (length eid) 32).0 l, (p, m, d, s))),
      (λ (l, (p, m, d, s)). rw ((nat_beq_iff (length eid) 32).1 l) (
          (any_prefix_iff (upper eid) permitted).1
            (p, is_in-permitted p cert ∙ rw m (rw d refl), s))),
    )
