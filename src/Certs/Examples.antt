-- ===== src/Certs/Examples.antt =====
-- Concrete certificates, and the theorems on chains applied to them.
use virtual_rsp.Common.{
  ℕ, ◌-◌, ◌^◌, ◌≤◌, ◌<◌, ◌≡◌, refl, ◌↔◌, ◌⊎◌, [], ◌∷◌, List, Bool, true, Option, none, some, String,
  Result, ok, err, length, ◌>>=◌, value_error, assertion_error, bytes_beq, ◌==◌, if◌then◌else◌,
}
use virtual_rsp.Bsp.Padding.{Bytes}
use virtual_rsp.Certs.{
  put_cert, chain_round, follow, find_cert, Cert, CertificateSet, add_intermediate_cert, new_set,
  verify_cert_chain, cert_policy_has_oid,
}
use virtual_rsp.Certs.Crl.{
  Fetched, responded, connection_error, GeneralName, RevocableSet, Urls, many_urls, urls_of,
  load_crl, Argument, content, response_object, type_error, Loading, load_crl-Loading,
}
use virtual_rsp.Certs.Keys.{new_pair, cert_from_der_file, ecdsa_dss_to_tr03111}
use virtual_rsp.Certs.Keys.Signatures.{ecdsa_tr03111_to_dss-ecdsa_dss_to_tr03111}
use virtual_rsp.Smdp.Server.{ecdsa_tr03111_to_dss}
use virtual_rsp.Certs.Chain.{Chain, IsSigned, verify_cert_chain_iff}
use virtual_rsp.Certs.Issued.{IsIssued, verify_cert_chain-IsIssued}

-- a signature is the key itself
abbrev by_key : Bytes → Bytes → Bytes → Bool
by_key key signature tbs = bytes_beq key signature

abbrev certificate : Bytes → Bytes → Bytes → Cert
certificate id signer issuer = record {
  der = id;
  public_key = id;
  signature = signer;
  tbs = [];
  subject_key_id = some id;
  auth_key_id = some issuer;
  policies = ("2.23.146.1.2.1.0" ∷ []) ∷ [];
  key_usage = some (true, true);
  serial_number = none;
  permitted_eins = [];
  name_constraints = none;
}

abbrev root : Cert
root = certificate (1 ∷ []) (1 ∷ []) (1 ∷ [])

abbrev eum : Cert
eum = certificate (2 ∷ []) (1 ∷ []) (1 ∷ [])

abbrev euicc : Cert
euicc = certificate (3 ∷ []) (2 ∷ []) (2 ∷ [])

abbrev root_set : CertificateSet
root_set = record { root_cert = root; intermediate_certs = [] }

abbrev eum_set : CertificateSet
eum_set = record { root_cert = root; intermediate_certs = (2 ∷ [], eum) ∷ [] }

root_accepted : new_set by_key root ≡ ok root_set
unfolding new_set
root_accepted = refl

eum_added : add_intermediate_cert eum root_set ≡ ok eum_set
unfolding add_intermediate_cert put_cert
eum_added = refl

chain_verified : verify_cert_chain by_key eum_set euicc 100 ≡ ok tt
unfolding verify_cert_chain chain_round follow find_cert
chain_verified = refl

verify_cert_chain_iff_example :
    (verify_cert_chain by_key eum_set euicc 100 ≡ ok tt)
    ↔ ((n : ℕ) × (n ≤ 100 - 1) × Chain by_key eum_set n euicc)
verify_cert_chain_iff_example = verify_cert_chain_iff by_key eum_set euicc 100

verify_cert_chain-IsIssued_example : IsSigned by_key root root × IsIssued by_key root eum euicc
verify_cert_chain-IsIssued_example =
    verify_cert_chain-IsIssued by_key root eum euicc root_set eum_set 100 root_accepted eum_added
      chain_verified

-- One URL that cannot be reached, and another one.
abbrev fetch : String → Fetched ℕ
fetch url = if url == "http://a" then connection_error else responded 5

abbrev read_list : Argument ℕ → Result ℕ
read_list (content bytes) = ok (length bytes)
read_list (response_object response) = err type_error

abbrev all_valid : ℕ → Bytes → Bool
all_valid crl key = true

abbrev no_points : Cert → Result (List (Option (List GeneralName)))
no_points cert = ok []

abbrev unlisted : RevocableSet ℕ
unlisted = record { certs = root_set; crl = none }

abbrev urls : Urls
urls = many_urls ("http://a" ∷ "http://b" ∷ [])

urls_known :
    urls_of fetch read_list all_valid no_points urls unlisted ≡ ok ("http://a" ∷ "http://b" ∷ [])
unfolding urls_of
urls_known = refl

-- the first URL that responds leads to the exception
not_loaded : load_crl fetch read_list all_valid no_points urls unlisted ≡ err type_error
unfolding load_crl
not_loaded = refl

load_crl-Loading_example :
    Loading fetch read_list all_valid no_points
      ("http://a" ∷ "http://b" ∷ [])
      unlisted
      (load_crl fetch read_list all_valid no_points urls unlisted)
load_crl-Loading_example =
    load_crl-Loading fetch read_list all_valid no_points (λ r. refl) urls
      ("http://a" ∷ "http://b" ∷ []) unlisted urls_known

ecdsa_tr03111_to_dss-ecdsa_dss_to_tr03111_example :
    ((7 < 256 ^ 32)
      × (9 < 256 ^ 32)
      × ((ecdsa_dss_to_tr03111 (7, 9) >>= ecdsa_tr03111_to_dss) ≡ ok (7, 9)))
    ⊎ (((256 ^ 32 ≤ 7) ⊎ (256 ^ 32 ≤ 9))
        × (ecdsa_dss_to_tr03111 (7, 9) ≡ err (value_error "OverflowError")))
ecdsa_tr03111_to_dss-ecdsa_dss_to_tr03111_example = ecdsa_tr03111_to_dss-ecdsa_dss_to_tr03111 7 9

-- a certificate for another role is refused, and the key pair stays as it was
other_role :
    cert_from_der_file
      (λ _. ok [])
      (λ _. ok root)
      (λ b. ok b)
      (λ _ _. (0, 0))
      "DPauth.der"
      (new_pair (some "2.23.146.1.2.1.4"))
    ≡ (err assertion_error, new_pair (some "2.23.146.1.2.1.4"))
unfolding cert_from_der_file new_pair cert_policy_has_oid
other_role = refl
