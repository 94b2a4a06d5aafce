-- ===== src/Common/Texts.antt =====
-- Texts by characters: slices, length and prefixes of Python's `str`.
use Prim.Native.Char.{code}
use Prim.Native.Nat.{ℕ, zero, suc, ◌+◌, ◌-◌, ◌/◌, ◌%◌}
use Prim.Native.String.{String, ◌++◌ as concat}
use mathlib.Core.Bool.{Bool, true, false, ◌&&◌}
use virtual_rsp.Common.Tests.{nat_beq, if◌then◌else◌}

-- `s[n:]`, `s[:n]` and `len(s)` of a text
abbrev pub drop_chars : ℕ → String → String
drop_chars zero s = s
drop_chars (suc n) String.[] = String.[]
drop_chars (suc n) (String.◌∷◌ c s) = drop_chars n s

abbrev pub take_chars : ℕ → String → String
take_chars zero s = String.[]
take_chars (suc n) String.[] = String.[]
take_chars (suc n) (String.◌∷◌ c s) = String.◌∷◌ c (take_chars n s)

abbrev pub chars : String → ℕ
chars String.[] = 0
chars (String.◌∷◌ c s) = suc (chars s)

-- `s.startswith(p)`
abbrev pub text_starts_with : String → String → Bool
text_starts_with s String.[] = true
text_starts_with String.[] (String.◌∷◌ p ps) = false
text_starts_with (String.◌∷◌ c cs) (String.◌∷◌ p ps) =
    nat_beq (code c) (code p) && text_starts_with cs ps

-- `str(n)`
digit : ℕ → String
digit n = take_chars 1 (drop_chars (n % 10) "0123456789")

digits : ℕ → ℕ → String
unfolding digit
digits zero n = ""
digits (suc fuel) n =
    let rest = digits fuel (n / 10) in if nat_beq (n / 10) 0 then digit n else concat rest (digit n)

unfoldable pub str : ℕ → String
unfolding digits
str n = digits (n + 1) n

-- `f"{s:<n}"`: the text, filled up with spaces to a width of n
abbrev spaces : ℕ → String
spaces zero = ""
spaces (suc n) = concat " " (spaces n)

unfoldable pub left_in : ℕ → String → String
left_in n s = concat s (spaces (n - chars s))
