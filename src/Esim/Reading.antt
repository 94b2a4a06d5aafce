-- ===== src/Esim/Reading.antt =====
-- What the classes of pysim/pySim/esim/__init__.py read of what they wrote.
use Prim.Native.Char.{Char, code}
use Prim.Native.String.{◌++◌ as concat}
use text.Mathlib.TextLemmas.{nil-append, cons-append, append-nil, append_assoc}
use virtual_rsp.Common.{
  arith, ℕ, [], ◌∷◌, List, String, Bool, true, false, ◌||◌, ◌==◌, Option, none, some, ok, required,
  >>=-eq-ok, Bool-cases, nat_beq, truthy, ◌≡◌, ◌⊎◌, eq_iff, ok-injective, refl, sym, inl, inr,
  if◌then◌else◌,
}
use virtual_rsp.Bsp.Padding.{Bytes}
use virtual_rsp.Common.Dict.{find}
use virtual_rsp.Esim.Pmo.{
  Pmo, pmo4operation, new_pmo, to_int, num_bits, num_bits_from, to_bitstring, operation_of,
  from_int, from_bitstring,
}
use virtual_rsp.Esim.ActivationCode.{
  ActivationCode, has_dollar, new_code, push, split, oid_of, cc_required_of, decode_elements,
  decode_str, from_string, oid_part, to_string,
}

or_false : (a b : Bool) → a || b ≡ false → (a ≡ false) × (b ≡ false)
or_false true b h = absurd (cc)
or_false false b h = (refl, h)

split-plain : (w : String) → has_dollar w ≡ false → split w ≡ w ∷ []
unfolding split has_dollar push
split-plain String.[] h = refl
split-plain (String.◌∷◌ c w) h =
    let (other, plain) = or_false (nat_beq (code c) b'$') (has_dollar w) h in
    rw other (rw (split-plain w plain) refl)

split-concat : (w s : String) → has_dollar w ≡ false → split (concat w (concat "$" s)) ≡ w ∷ split s
unfolding split has_dollar push
split-concat String.[] s h =
    let dollar : Char = "$" in
    rw (nil-append (concat "$" s)) (rw (cons-append dollar "" s) (rw (nil-append s) refl))
split-concat (String.◌∷◌ c w) s h =
    let (other, plain) = or_false (nat_beq (code c) b'$') (has_dollar w) h in
    rw (cons-append c w (concat "$" s)) (rw other (rw (split-concat w s plain) refl))

written :
    (h t : String) (oid : Option String) (cc_required : Bool)
    → to_string false
        (record { hostname = h; token = t; oid = oid; cc_required = cc_required; format = 1 })
      ≡ concat "1" (
          concat "$" (
            concat h (
              concat "$"
                (concat t (concat (oid_part oid cc_required) (if cc_required then "$1" else ""))))))
unfolding to_string
written h t oid cc_required = rw (nil-append _) refl

-- An OID that is not empty and has no dollar sign, or none.
unfoldable pub IsOid : Option String → Type 0
IsOid none = Unit
IsOid (some oid) = (truthy oid ≡ true) × (has_dollar oid ≡ false)

-- the elements that `to_string` writes after the token
elements : Option String → Bool → List String
elements none false = []
elements none true = "" ∷ "1" ∷ []
elements (some oid) false = oid ∷ []
elements (some oid) true = oid ∷ "1" ∷ []

split-elements :
    (t : String) (oid : Option String) (cc_required : Bool)
    → IsOid oid
    → has_dollar t ≡ false
    → split (concat t (concat (oid_part oid cc_required) (if cc_required then "$1" else "")))
      ≡ t ∷ elements oid cc_required
unfolding IsOid elements oid_part split push
split-elements t none false o plain = rw (append-nil t) (split-plain t plain)
split-elements t none true o plain = rw (split-concat t "$1" plain) refl
split-elements t (some oid) false (there, o) plain =
    rw there (
      rw (append-nil (concat "$" oid))
        (rw (split-concat t oid plain) (rw (split-plain oid o) refl)))
split-elements t (some oid) true (there, o) plain = rw there (
    rw (append_assoc "$" oid "$1")
      (rw (split-concat t (concat oid "$1") plain) (rw (split-concat oid "1" o) refl)))

oid-elements :
    (oid : Option String) (cc_required : Bool)
    → IsOid oid
    → (oid_of (elements oid cc_required) ≡ oid)
      × (cc_required_of (elements oid cc_required) ≡ cc_required)
unfolding oid_of cc_required_of elements IsOid
oid-elements none false o = (refl, refl)
oid-elements none true o = (refl, refl)
oid-elements (some oid) false (there, _) = (rw there refl, refl)
oid-elements (some oid) true (there, _) = (rw there refl, refl)

decode_str-format :
    (s : String) → decode_str (concat "1" s) ≡ decode_elements (split (concat "1" s))
unfolding decode_str
decode_str-format s = let one : Char = "1" in rw (cons-append one "" s) refl

new_code-eq-ok :
    (h t : String) (oid : Option String) (cc_required : Bool) (a : ActivationCode)
    → new_code h t oid cc_required ≡ ok a
    → (has_dollar h ≡ false)
      × (has_dollar t ≡ false)
      × (a ≡ record { hostname = h; token = t; oid = oid; cc_required = cc_required; format = 1 })
unfolding new_code
new_code-eq-ok h t oid cc_required a made = ground (arith, made)

-- An activation code that the constructor accepts reads back from its text as the same code, with
-- its OID and with the flag for a confirmation code, if the OID is absent, or is not empty and has
-- no dollar sign.
pub from_string-to_string :
    (h t : String) (oid : Option String) (cc_required : Bool) (a : ActivationCode)
    → IsOid oid
    → new_code h t oid cc_required ≡ ok a
    → from_string (to_string false a) ≡ ok a
unfolding from_string decode_elements new_code has_dollar
from_string-to_string h t oid cc_required a o made =
    let (host, plain, e) = new_code-eq-ok h t oid cc_required a made in
    let (read_oid, read_ccr) = oid-elements oid cc_required o in
    rw (e, written h t oid cc_required, decode_str-format)
      (rw (split-concat "1" _ refl) (
        rw (split-concat h _ host) (
          rw (split-elements t oid cc_required o plain)
            (rw (read_oid, read_ccr) (rw (host, plain) refl)))))

Pmo-cases :
    (op : String) (p : Pmo)
    → new_pmo op ≡ ok p
    → (p ≡ record { op = op })
      × ((op ≡ "install") ⊎ ((op ≡ "enable") ⊎ ((op ≡ "disable") ⊎ (op ≡ "delete"))))
unfolding new_pmo find
Pmo-cases op p made =
    let (v, found, same) = >>=-eq-ok (required _ (find op pmo4operation)) _ made in
    (
      sym (ok-injective same),
      elim (Bool-cases ("install" == op)) [
        | inl a ↦ inl (sym ((eq_iff "install" op).0 a))
        | inr a ↦ inr (elim (Bool-cases ("enable" == op)) [
          | inl b ↦ inl (sym ((eq_iff "enable" op).0 b))
          | inr b ↦ inr (elim (Bool-cases ("disable" == op)) [
            | inl c ↦ inl (sym ((eq_iff "disable" op).0 c))
            | inr c ↦ inr (elim (Bool-cases ("delete" == op)) [
              | inl d ↦ sym ((eq_iff "delete" op).0 d)
              | inr d ↦ ground (arith, a, b, c, d, found)
            ])
          ])
        ])
      ],
    )

-- A PMO that the constructor accepts reads back from its bit string as the same operation, and
-- writing the bit string does not fail.
pub from_bitstring-to_bitstring :
    (op : String) (p : Pmo)
    → new_pmo op ≡ ok p
    → (bits : Bytes × ℕ) × (to_bitstring p ≡ ok bits) × (from_bitstring bits ≡ ok p)
unfolding new_pmo to_bitstring from_bitstring from_int operation_of num_bits num_bits_from to_int
    find
from_bitstring-to_bitstring op p made =
    let (e, cases) = Pmo-cases op p made in
    elim cases [
      | inl i ↦ rw e (rw i ((0x80 ∷ [], 1), refl, refl))
      | inr (inl i) ↦ rw e (rw i ((0x40 ∷ [], 2), refl, refl))
      | inr (inr (inl i)) ↦ rw e (rw i ((0x20 ∷ [], 3), refl, refl))
      | inr (inr (inr i)) ↦ rw e (rw i ((0x10 ∷ [], 4), refl, refl))
    ]
