-- ===== src/Certs.antt =====
-- Certificate checks of pysim/pySim/esim/x509_cert.py: the helpers on one certificate and
-- `CertificateSet`; `Crl` has its revocation list, `Keys` the key pairs. ECDSA of the cryptography
-- package is a parameter.
pub mod Chain
pub mod Issued
pub mod Keys
pub mod Crl
pub mod Examples
use virtual_rsp.Common.{
  ℕ, zero, suc, ◌-◌, [], ◌∷◌, List, Bool, true, false, not, ◌==◌, Option, none, some, Result, ok,
  err, raise_if, required, ◌>>=◌, ◌>>◌, Error, exception, value_error, invalid_signature,
  verify_error, bytes_beq, if◌then◌else◌, String,
}
use virtual_rsp.Bsp.Padding.{Bytes}

-- What the code reads of an `x509.Certificate`; an extension that is absent is `none`.
pub record Cert : Type 0 where
  pub der : Bytes
  pub public_key : Bytes
  pub signature : Bytes
  pub tbs : Bytes
  pub subject_key_id : Option Bytes
  pub auth_key_id : Option Bytes
  -- the identifiers of the certificate policies, extension by extension
  pub policies : List (List String)
  -- `key_cert_sign` and `crl_sign` of the key usage
  pub key_usage : Option (Bool × Bool)
  -- the serial number attribute of the subject, as code points
  pub serial_number : Option (List ℕ)
  -- the extensions with the identifier of permittedEins, decoded or not decodable
  pub permitted_eins : List (Option (List (List ℕ)))
  -- the permitted subtrees of the name constraints: for a directory name its attributes
  pub name_constraints : Option (List (Option (List (String × List ℕ))))

abbrev pub not_found : Error
not_found = exception "ExtensionNotFound"

unfoldable pub cert_get_subject_key_id : Cert → Result Bytes
cert_get_subject_key_id cert = required not_found cert.subject_key_id

unfoldable pub cert_get_auth_key_id : Cert → Result Bytes
cert_get_auth_key_id cert = required not_found cert.auth_key_id

unfoldable pub any_policy : String → List String → Bool
any_policy oid [] = false
any_policy oid (p ∷ ps) = if p == oid then true else any_policy oid ps

unfoldable pub policies_have : String → List (List String) → Bool
unfolding any_policy
policies_have oid [] = false
policies_have oid (ps ∷ rest) = if any_policy oid ps then true else policies_have oid rest

unfoldable pub cert_policy_has_oid : Cert → String → Bool
unfolding policies_have
cert_policy_has_oid cert oid = policies_have oid cert.policies

abbrev pub id_rsp_role_ci : String
id_rsp_role_ci = "2.23.146.1.2.1.0"

-- `CertificateSet`; `intermediate_certs` is a dictionary from subject key identifiers.
pub record CertificateSet : Type 0 where
  pub root_cert : Cert
  pub intermediate_certs : List (Bytes × Cert)

-- `self.intermediate_certs.get(aki, None)`
unfoldable pub find_cert : Bytes → List (Bytes × Cert) → Option Cert
find_cert aki [] = none
find_cert aki ((ski, cert) ∷ rest) = if bytes_beq ski aki then some cert else find_cert aki rest

-- `self.intermediate_certs[ski] = cert`
unfoldable pub put_cert : Bytes → Cert → List (Bytes × Cert) → List (Bytes × Cert)
put_cert ski cert [] = (ski, cert) ∷ []
put_cert ski cert ((k, c) ∷ rest) =
    if bytes_beq k ski then (k, cert) ∷ rest else (k, c) ∷ put_cert ski cert rest

unfoldable pub add_intermediate_cert : Cert → CertificateSet → Result CertificateSet
unfolding cert_get_auth_key_id cert_get_subject_key_id put_cert
add_intermediate_cert cert cs = do
  usage ← required not_found cert.key_usage
  raise_if (not usage.0) (
      value_error
        "Given intermediate certificate key usage does not permit signing of certificates")
  aki ← cert_get_auth_key_id cert
  ski ← cert_get_subject_key_id cert
  raise_if (bytes_beq aki ski) (value_error "Cannot add self-signed cert as intermediate cert")
  ok (record cs { intermediate_certs = put_cert ski cert cs.intermediate_certs })

-- `verify key signature data` is ECDSA verification.
module _ (verify : Bytes → Bytes → Bytes → Bool) where
  unfoldable pub check_signed : Cert → Cert → Result (Unit {0})
  check_signed signed signer =
      raise_if (not (verify signer.public_key signed.signature signed.tbs)) invalid_signature

  -- `CertificateSet.__init__`
  unfoldable pub new_set : Cert → Result CertificateSet
  unfolding check_signed cert_policy_has_oid
  new_set root = do
    check_signed root root
    raise_if (not (cert_policy_has_oid root id_rsp_role_ci))
        (value_error "Given root certificate doesn't have rspRole_ci OID")
    usage ← required not_found root.key_usage
    raise_if (not usage.0)
        (value_error "Given root certificate key usage does not permit signing of certificates")
    raise_if (not usage.1)
        (value_error "Given root certificate key usage does not permit signing of CRLs")
    ok (record { root_cert = root; intermediate_certs = [] })

  -- What a round checks against: the root (`none`), or the parent that it finds.
  unfoldable pub issuer : CertificateSet → Cert → Bytes → Bool → Result (Option Cert)
  unfolding find_cert check_signed
  issuer cs c aki true = do check_signed c cs.root_cert; ok none
  issuer cs c aki false = do
    parent ←
        required (verify_error "Could not find intermediate certificate")
          (find_cert aki cs.intermediate_certs)
    check_signed c parent
    ok (some parent)

  -- One round of `verify_cert_chain`: `none` where the root is reached, else the parent.
  unfoldable pub chain_round : CertificateSet → Cert → Result (Option Cert)
  unfolding cert_get_auth_key_id cert_get_subject_key_id issuer
  chain_round cs c = do
    aki ← cert_get_auth_key_id c
    root_id ← cert_get_subject_key_id cs.root_cert
    issuer cs c aki (bytes_beq aki root_id)

  -- The loop; the fuel is how often `depth` can still be raised without exceeding `max_depth`.
  unfoldable pub follow : CertificateSet → ℕ → Option Cert → Result (Unit {0})
  unfolding chain_round
  follow cs fuel none = ok tt
  follow cs zero (some c) =
      err (verify_error "Maximum depth exceeded while verifying certificate chain")
  follow cs (suc fuel) (some c) = do next ← chain_round cs c; follow cs fuel next

  -- `verify_cert_chain`: the first round runs whatever the depth, and `depth` starts at 1.
  unfoldable pub verify_cert_chain : CertificateSet → Cert → ℕ → Result (Unit {0})
  verify_cert_chain cs cert max_depth = do
    next ← chain_round cs cert
    follow cs (max_depth - 1) next
