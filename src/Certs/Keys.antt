-- ===== src/Certs/Keys.antt =====
-- `CertAndPrivkey` and `ecdsa_dss_to_tr03111` of pysim/pySim/esim/x509_cert.py. Files, X.509, PEM
-- and ECDSA of the packages are parameters; a DER signature is the pair that is encoded in it.
pub mod Signatures
use virtual_rsp.Common.{
  ℕ, ◌^◌, [], ◌∷◌, ◌++◌, List, Bool, not, Option, none, some, String, Result, ok, err, ◌>>=◌, ◌>>◌,
  raise_if, required, ltb, value_error, assertion_error, attribute_error, index_error, truthy?,
  if◌then◌else◌,
}
use virtual_rsp.Common.Exec.{Exec, continue}
use virtual_rsp.Bsp.Padding.{Bytes}
use virtual_rsp.Bsp.Algo.{to_bytes}
use virtual_rsp.Certs.{Cert, cert_policy_has_oid}

-- `n.to_bytes(32, 'big')`
unfoldable pub to_bytes_32 : ℕ → Result Bytes
unfolding to_bytes
to_bytes_32 n = if ltb n (256 ^ 32) then ok (to_bytes 32 n) else err (value_error "OverflowError")

-- `ecdsa_dss_to_tr03111`, of the pair in the DER signature
unfoldable pub ecdsa_dss_to_tr03111 : ℕ × ℕ → Result Bytes
unfolding to_bytes_32
ecdsa_dss_to_tr03111 (r, s) = do first ← to_bytes_32 r; second ← to_bytes_32 s; ok (first ++ second)

-- The attributes of a `CertAndPrivkey`.
pub record KeyPair : Type 0 where
  pub required_policy_oid : Option String
  pub cert : Option Cert
  pub priv_key : Option Bytes

unfoldable pub new_pair : Option String → KeyPair
new_pair oid = record { required_policy_oid = oid; cert = none; priv_key = none }

-- `if self.required_policy_oid` with its `assert`
unfoldable pub check_policy : Option String → Cert → Result (Unit {0})
check_policy none cert = ok tt
check_policy (some oid) cert = raise_if (not (cert_policy_has_oid cert oid)) assertion_error

abbrev set_cert : Cert → Exec KeyPair (Unit {0})
set_cert cert k = (ok tt, record k { cert = some cert })

abbrev set_key : Bytes → Exec KeyPair (Unit {0})
set_key key k = (ok tt, record k { priv_key = some key })

-- `open(path, 'rb').read()`, the readers of the two formats, and signing with a key.
module _ (read : String → Result Bytes) (load_der : Bytes → Result Cert)
    (load_pem : Bytes → Result Bytes) (sign : Bytes → Bytes → ℕ × ℕ) where
  unfoldable pub read_cert : Option String → String → Result Cert
  unfolding check_policy
  read_cert oid path = do
    content ← read path
    cert ← load_der content
    check_policy oid cert
    ok cert

  unfoldable pub cert_from_der_file : String → Exec KeyPair (Unit {0})
  unfolding read_cert
  cert_from_der_file path k = continue (read_cert k.required_policy_oid path) set_cert k

  unfoldable pub privkey_from_pem_file : String → Exec KeyPair (Unit {0})
  privkey_from_pem_file path k = continue (read path >>= load_pem) set_key k

  -- an attribute of `None` where no key is loaded
  unfoldable pub ecdsa_sign : KeyPair → Bytes → Result Bytes
  unfolding ecdsa_dss_to_tr03111
  ecdsa_sign k plaintext = do
    key ← required attribute_error k.priv_key
    ecdsa_dss_to_tr03111 (sign key plaintext)

-- `list(filter(…))[0].value`
unfoldable pub get_authority_key_identifier : KeyPair → Result Bytes
get_authority_key_identifier k = do
  cert ← required attribute_error k.cert
  required index_error cert.auth_key_id

unfoldable pub get_cert_as_der : KeyPair → Result Bytes
get_cert_as_der k = do cert ← required attribute_error k.cert; ok cert.der

-- The attributes that `Cert` has not: the alternative name's extension and the curve of the key.
module _ {Name Curve : Type 0} (alt_name : Cert → Option Name)
    (curve_of : Cert → Result Curve) where
  unfoldable pub get_subject_alt_name : KeyPair → Result Name
  get_subject_alt_name k = do
    cert ← required attribute_error k.cert
    required index_error (alt_name cert)

  unfoldable pub get_curve : KeyPair → Result Curve
  get_curve k = do cert ← required attribute_error k.cert; curve_of cert
