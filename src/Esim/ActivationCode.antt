-- ===== src/Esim/ActivationCode.antt =====
-- `ActivationCode` of pysim/pySim/esim/__init__.py, without the drawing of QR codes.
use Prim.Native.Char.{Char, code}
use Prim.Native.String.{◌++◌ as concat}
use virtual_rsp.Common.{
  ℕ, [], ◌∷◌, List, String, Bool, true, false, not, ◌||◌, ◌==◌, Option, none, some, Result, ok, err,
  ◌>>=◌, ◌>>◌, raise_if, value_error, index_error, nat_beq, truthy, str, ◌≡◌, refl, if◌then◌else◌,
}

pub record ActivationCode : Type 0 where
  pub hostname : String
  pub token : String
  pub oid : Option String
  pub cc_required : Bool
  pub format : ℕ

-- `'$' in s`
unfoldable pub has_dollar : String → Bool
has_dollar String.[] = false
has_dollar (String.◌∷◌ c s) = nat_beq (code c) b'$' || has_dollar s

unfoldable pub new_code : String → String → Option String → Bool → Result ActivationCode
unfolding has_dollar
new_code hostname token oid cc_required = do
  raise_if (has_dollar hostname) (value_error "$ sign not permitted in hostname")
  raise_if (has_dollar token) (value_error "$ sign not permitted in token")
  ok (record {
    hostname = hostname;
    token = token;
    oid = oid;
    cc_required = cc_required;
    format = 1;
  })

-- `ac.split('$')`
unfoldable pub push : Char → List String → List String
push c [] = String.◌∷◌ c "" ∷ []
push c (w ∷ ws) = String.◌∷◌ c w ∷ ws

unfoldable pub split : String → List String
unfolding push
split String.[] = "" ∷ []
split (String.◌∷◌ c s) =
    let rest = split s in if nat_beq (code c) b'$' then "" ∷ rest else push c rest

-- the dictionary that `decode_str` returns
pub record Decoded : Type 0 where
  pub format : String
  pub hostname : String
  pub token : String
  pub oid : Option String
  pub cc_required : Bool

-- the elements after the token
unfoldable pub oid_of : List String → Option String
oid_of [] = none
oid_of (oid ∷ _) = if not (oid == "") then some oid else none

unfoldable pub cc_required_of : List String → Bool
cc_required_of (_ ∷ ccr ∷ _) = ccr == "1"
cc_required_of _ = false

-- `pop(0)` of an empty list raises
unfoldable pub decode_elements : List String → Result Decoded
unfolding oid_of cc_required_of
decode_elements (format ∷ hostname ∷ token ∷ others) = ok (record {
  format = format;
  hostname = hostname;
  token = token;
  oid = oid_of others;
  cc_required = cc_required_of others;
})
decode_elements _ = err index_error

-- `ac[0] != '1'` and `decode_str`
unfoldable pub decode_str : String → Result Decoded
unfolding split decode_elements
decode_str String.[] = err index_error
decode_str (String.◌∷◌ c s) = do
  raise_if (not (nat_beq (code c) b'1')) (value_error "Unsupported AC_Format")
  decode_elements (split (String.◌∷◌ c s))

unfoldable pub from_string : String → Result ActivationCode
unfolding decode_str new_code
from_string ac = do d ← decode_str ac; new_code d.hostname d.token d.oid d.cc_required

-- what stands after the token
unfoldable pub oid_part : Option String → Bool → String
oid_part none cc_required = if cc_required then "$" else ""
oid_part (some oid) cc_required =
    if truthy oid then concat "$" oid else (if cc_required then "$" else "")

unfoldable pub to_string : Bool → ActivationCode → String
unfolding oid_part str
to_string for_qrcode a = concat (if for_qrcode then "LPA:" else "") (
    concat (str a.format) (
      concat "$" (
        concat a.hostname (
          concat "$" (
            concat a.token
              (concat (oid_part a.oid a.cc_required) (if a.cc_required then "$1" else "")))))))

-- an example of the source's tests
read :
    from_string "1$SMDP.GSMA.COM$04386$1.3.6$1"
    ≡ ok (record {
      hostname = "SMDP.GSMA.COM";
      token = "04386";
      oid = some "1.3.6";
      cc_required = true;
      format = 1;
    })
unfolding from_string decode_str split push decode_elements oid_of cc_required_of new_code
    has_dollar
read = refl
