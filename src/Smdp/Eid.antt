-- ===== src/Smdp/Eid.antt =====
-- The check of an EID against the EUM certificate: `validate_eid_range` of pysim/osmo-smdpp.py
-- and what it calls. Texts are lists of ASCII code points.
pub mod Range
use virtual_rsp.Common.{
  ℕ, ◌-◌, ◌%◌, [], ◌∷◌, ◌++◌, List, map, Bool, true, false, ◌&&◌, ◌||◌, ◌==◌, Option, none, some,
  String, leb, nat_beq, bytes_beq, if◌then◌else◌, length,
}
use virtual_rsp.Certs.{Cert}

abbrev pub Text : Type 0
Text = List ℕ

-- `str.upper` and `str.strip` on ASCII
unfoldable pub upper_char : ℕ → ℕ
upper_char c = if leb 97 c && leb c 122 then c - 32 else c

unfoldable pub upper : Text → Text
unfolding upper_char
upper t = map upper_char t

unfoldable pub is_space : ℕ → Bool
is_space c = nat_beq c 32 || (leb 9 c && leb c 13) || (leb 28 c && leb c 31)

unfoldable pub lstrip : Text → Text
unfolding is_space
lstrip [] = []
lstrip (c ∷ cs) = let rest = lstrip cs in if is_space c then rest else c ∷ cs

-- trailing blanks go: a blank stays only where something stays behind it
unfoldable pub rstrip_before : ℕ → Text → Text
unfolding is_space
rstrip_before c [] = if is_space c then [] else c ∷ []
rstrip_before c (d ∷ ds) = c ∷ d ∷ ds

unfoldable pub rstrip : Text → Text
unfolding rstrip_before
rstrip [] = []
rstrip (c ∷ cs) = rstrip_before c (rstrip cs)

unfoldable pub strip : Text → Text
unfolding lstrip rstrip
strip t = rstrip (lstrip t)

unfoldable pub starts_with : Text → Text → Bool
starts_with t [] = true
starts_with [] (p ∷ ps) = false
starts_with (c ∷ cs) (p ∷ ps) = nat_beq c p && starts_with cs ps

-- `c in '0123456789ABCDEF'`
unfoldable pub is_hex : ℕ → Bool
is_hex c = (leb 48 c && leb c 57) || (leb 65 c && leb c 70)

unfoldable pub all_hex : Text → Bool
unfolding is_hex
all_hex [] = true
all_hex (c ∷ cs) = is_hex c && all_hex cs

-- the test on a candidate in `_parse_gsma_permitted_eins` and `_parse_name_constraints_eins`
unfoldable pub is_iin : Text → Bool
unfolding all_hex
is_iin t = nat_beq (length t) 8 && all_hex t && nat_beq (length t % 2) 0

unfoldable pub keep_iins : List Text → List Text
unfolding is_iin
keep_iins [] = []
keep_iins (t ∷ ts) = let rest = keep_iins ts in if is_iin t then t ∷ rest else rest

-- `get_eum_certificate_variant`: whether it is `'O'`
unfoldable pub is_variant_o : List String → Bool
is_variant_o [] = false
is_variant_o (p ∷ ps) =
    let rest = is_variant_o ps in
    if p == "2.23.146.1.2.1.2" then true else if p == "2.23.146.1.2.1.0.0.0" then false else rest

-- The certificate policies are one extension; more of them are refused by the parser.
unfoldable pub variant_o : Cert → Bool
unfolding is_variant_o
variant_o cert = elim cert.policies [ [] ↦ false | ps ∷ _ ↦ is_variant_o ps ]

-- `_parse_gsma_permitted_eins`: an extension that cannot be decoded adds nothing
unfoldable pub gsma_candidates : List (Option (List Text)) → List Text
unfolding upper strip
gsma_candidates [] = []
gsma_candidates (none ∷ exts) = gsma_candidates exts
gsma_candidates (some ts ∷ exts) = map (λ t. upper (strip t)) ts ++ gsma_candidates exts

unfoldable pub parse_gsma_permitted_eins : Cert → List Text
unfolding gsma_candidates keep_iins
parse_gsma_permitted_eins cert = keep_iins (gsma_candidates cert.permitted_eins)

-- `_parse_name_constraints_eins`: the serial numbers of the directory names
unfoldable pub serial_numbers : List (String × Text) → List Text
unfolding upper
serial_numbers [] = []
serial_numbers ((oid, value) ∷ rest) =
    let others = serial_numbers rest in if oid == "2.5.4.5" then upper value ∷ others else others

unfoldable pub subtree_candidates : List (Option (List (String × Text))) → List Text
unfolding serial_numbers
subtree_candidates [] = []
subtree_candidates (none ∷ trees) = subtree_candidates trees
subtree_candidates (some attributes ∷ trees) = serial_numbers attributes ++ subtree_candidates trees

unfoldable pub parse_name_constraints_eins : Cert → List Text
unfolding subtree_candidates keep_iins
parse_name_constraints_eins cert = elim cert.name_constraints [
  | none ↦ []
  | some trees ↦ keep_iins (subtree_candidates trees)
]

-- `list(set(permitted_iins))`; the order that Python leaves open is the order of the certificate
unfoldable pub is_in : Text → List Text → Bool
is_in t [] = false
is_in t (u ∷ us) = bytes_beq t u || is_in t us

unfoldable pub unique : List Text → List Text
unfolding is_in
unique [] = []
unique (t ∷ ts) = let rest = unique ts in if is_in t rest then rest else t ∷ rest

unfoldable pub parse_permitted_eins_from_cert : Cert → List Text
unfolding variant_o parse_name_constraints_eins parse_gsma_permitted_eins unique
parse_permitted_eins_from_cert cert =
    unique
      (if variant_o cert then parse_name_constraints_eins cert else parse_gsma_permitted_eins cert)

unfoldable pub any_prefix : Text → List Text → Bool
unfolding starts_with
any_prefix t [] = false
any_prefix t (p ∷ ps) = starts_with t p || any_prefix t ps

unfoldable pub validate_eid_range : Text → Cert → Bool
unfolding parse_permitted_eins_from_cert any_prefix upper
validate_eid_range eid cert =
    nat_beq (length eid) 32 && any_prefix (upper eid) (parse_permitted_eins_from_cert cert)
