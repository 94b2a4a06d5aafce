-- ===== src/LpaCommand/Iccid.antt =====
-- The ICCID that `download_profile` of mno/services/lpa_command.py makes from a matching ID.
use Prim.Native.Char.{code}
use Prim.Native.String.{◌++◌ as concat}
use text.Mathlib.TextLemmas.{nil-append, cons-append}
use virtual_rsp.Common.{
  ℕ, zero, suc, drop_chars, take_chars, chars, ◌+◌, ◌-◌, ◌≤◌, String, ◌≡◌, refl, ◌∙◌, arith,
  nat_beq, if◌then◌else◌,
}

-- `s.replace("-", "")`
pub without_dashes : String → String
without_dashes String.[] = String.[]
without_dashes (String.◌∷◌ c s) =
    let rest = without_dashes s in if nat_beq (code c) b'-' then rest else String.◌∷◌ c rest

zeros : ℕ → String
zeros zero = String.[]
zeros (suc n) = concat "0" (zeros n)

-- `s.ljust(n, '0')`
pub ljust : ℕ → String → String
unfolding zeros
ljust n s = concat s (zeros (n - chars s))

-- `"89" + matching_id[-17:].replace("-", "")[:17].ljust(17, '0')`
unfoldable pub generated_iccid : String → String
unfolding without_dashes ljust
generated_iccid m =
    concat "89" (ljust 17 (take_chars 17 (without_dashes (drop_chars (chars m - 17) m))))

generated : generated_iccid "TS48v1-A-UNIQUE" ≡ "89TS48v1AUNIQUE0000"
unfolding generated_iccid
generated = refl

chars-take_chars : (n : ℕ) (s : String) → chars (take_chars n s) ≤ n
chars-take_chars zero s = omega arith
chars-take_chars (suc n) String.[] = omega arith
chars-take_chars (suc n) (String.◌∷◌ c s) = omega (arith, chars-take_chars n s)

chars-concat : (s t : String) → chars (concat s t) ≡ chars s + chars t
chars-concat String.[] t = rw (nil-append t) (omega arith)
chars-concat (String.◌∷◌ c s) t = rw (cons-append c s t) (omega (arith, chars-concat s t))

chars-zeros : (n : ℕ) → chars (zeros n) ≡ n
unfolding zeros
chars-zeros zero = refl
chars-zeros (suc n) = chars-concat "0" (zeros n) ∙ omega (arith, chars-zeros n)

-- A generated ICCID has 19 characters, whatever the matching ID is.
pub chars-generated_iccid : (m : String) → chars (generated_iccid m) ≡ 19
unfolding generated_iccid
chars-generated_iccid m =
    let s = take_chars 17 (without_dashes (drop_chars (chars m - 17) m)) in
    omega (
      arith,
      chars-concat "89" (concat s (zeros (17 - chars s))),
      chars-concat s (zeros (17 - chars s)),
      chars-zeros (17 - chars s),
      chars-take_chars 17 (without_dashes (drop_chars (chars m - 17) m)),
    )
