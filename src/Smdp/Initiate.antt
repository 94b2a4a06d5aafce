-- ===== src/Smdp/Initiate.antt =====
-- `initiateAutentication` of pysim/osmo-smdpp.py.
use Prim.Native.Char.{code}
use virtual_rsp.Common.{
  [], ◌∷◌, List, ◌++◌, Bool, true, false, not, ◌==◌, Option, none, some, String, Result, ok, err,
  ◌>>=◌, ◌>>◌, raise_if, required, get_or, value_error, key_error, verify_error, api_error,
  assertion_error, bytes_beq, nat_beq, length, if◌then◌else◌,
}
use virtual_rsp.Common.Exec.{Exec, continue}
use virtual_rsp.Bsp.Padding.{Bytes}
use virtual_rsp.Certs.{
  Cert, new_set, verify_cert_chain, cert_get_auth_key_id, cert_get_subject_key_id,
}
use virtual_rsp.Common.Dict.{find, put}
use virtual_rsp.Smdp.Session.{new_session}
use virtual_rsp.Smdp.Server.{Ext, Config, Server}
use virtual_rsp.Smdp.Authenticate.{Fields, ci_get_cert_for_pkid, signature_header}

-- `s.split(':')[0]`
unfoldable pub before_colon : String → String
before_colon String.[] = String.[]
before_colon (String.◌∷◌ c s) =
    let rest = before_colon s in if nat_beq (code c) 58 then String.[] else String.◌∷◌ c rest

pub record InitiateRequest : Type 0 where
  pub smdp_address : Option String
  pub euicc_challenge : Option String
  pub euicc_info1 : Option String

-- what is drawn: the UUID in upper case, the server challenge, the randomness of the signature
pub record Drawn : Type 0 where
  pub uuid : String
  pub challenge : Bytes
  pub nonce : Bytes

module _ (x : Ext) (g : Config) where
  -- `try … except VerifyError: continue`, with what the rest of the loop answers
  unfoldable pub or_next : Result (Unit {0}) → Result Bool → Result Bool
  or_next (ok _) rest = ok true
  or_next (err (verify_error m)) rest = rest
  or_next (err e) rest = err e

  unfoldable pub chains_to : Option Cert → Result Bool → Result Bool
  unfolding or_next
  chains_to none rest = rest
  chains_to (some ci) rest = do
    cs ← new_set x.verify ci
    or_next (verify_cert_chain x.verify cs g.dp_auth.cert 100) rest

  -- `validate_certificate_chain_for_verification`
  unfoldable pub validate_certificate_chain : List Bytes → Result Bool
  unfolding chains_to
  validate_certificate_chain [] = ok false
  validate_certificate_chain (id ∷ ids) =
      let rest = validate_certificate_chain ids in
      do ci ← ci_get_cert_for_pkid g.ci_certs id; chains_to ci rest

  -- whether a certificate has issued the server's own
  unfoldable pub is_own_issuer : Option Cert → Result Bool
  is_own_issuer none = ok false
  is_own_issuer (some ci) = do
    ski ← cert_get_subject_key_id ci
    aki ← cert_get_auth_key_id g.dp_auth.cert
    ok (bytes_beq ski aki)

  -- the loop over `pkid_list`
  unfoldable pub choose_ci : List Bytes → Result (Option Cert)
  unfolding is_own_issuer
  choose_ci [] = ok none
  choose_ci (id ∷ ids) =
      let rest = choose_ci ids in
      do
        ci ← ci_get_cert_for_pkid g.ci_certs id
        own ← is_own_issuer ci
        if own then ok ci else rest

  unfoldable pub is_empty : List Bytes → Bool
  is_empty [] = true
  is_empty (_ ∷ _) = false

  unfoldable pub check_verification : List Bytes → Result (Unit {0})
  unfolding is_empty validate_certificate_chain
  check_verification ids = if is_empty ids then ok tt else do
    valid ← validate_certificate_chain ids
    raise_if (not valid) (
        api_error "8.8.4" "3.7"
          "The SM-DP+ has no CERT.DPauth.SIG which chains to one of the eSIM CA Root CA Certificate")

  unfoldable pub initiate_steps : Drawn → InitiateRequest → Server → Result (Bytes × Fields)
  unfolding before_colon check_verification choose_ci
  initiate_steps r request s = do
    address ← required (key_error "smdpAddress") request.smdp_address
    raise_if (not (before_colon address == g.server_hostname))
        (api_error "8.8.1" "3.8" "Invalid SM-DP+ Address")
    challenge_b64 ← required (key_error "euiccChallenge") request.euicc_challenge
    challenge ← x.b64decode challenge_b64
    raise_if (not (nat_beq (length challenge) 16)) (value_error "")
    info_b64 ← required (key_error "euiccInfo1") request.euicc_info1
    info_bin ← x.b64decode info_b64
    info ← x.decode_info info_bin
    check_verification (get_or info.verification [])
    chosen ← choose_ci (info.signing ++ get_or info.signing_v3 [])
    ci ←
        required
          (api_error "8.8.2" "3.1"
            "None of the proposed Public Key Identifiers is supported by the SM-DP+")
          chosen
    raise_if (elim (find r.uuid s.rss) [ none ↦ false | some _ ↦ true ]) assertion_error
    tid_bin ← x.tools.h2b r.uuid
    let signed1 = x.encode_server_signed (record {
      transaction_id = tid_bin;
      euicc_challenge = challenge;
      server_address = g.server_hostname;
      server_challenge = r.challenge;
    })
    aki ← cert_get_auth_key_id g.dp_auth.cert
    ski ← cert_get_subject_key_id ci
    ok (
      ski,
      ("serverSigned1", x.b64encode signed1)
          ∷ (
            "serverSignature1",
            x.b64encode (signature_header ++ x.sign g.dp_auth.priv_key r.nonce signed1),
          )
          ∷ ("transactionId", r.uuid)
          ∷ ("euiccCiPKIdToBeUsed", x.b64encode (4 ∷ 20 ∷ aki))
          ∷ ("serverCertificate", x.b64encode g.dp_auth.cert.der)
          ∷ [],
    )

  -- the session is opened with the key identifier of the root
  unfoldable pub open_session : Drawn → Bytes × Fields → Exec Server Fields
  open_session r (ski, fields) s =
      (ok fields, record s { rss = put r.uuid (new_session r.uuid r.challenge ski) s.rss })

  -- `initiateAutentication`
  unfoldable pub initiate_authentication : Drawn → InitiateRequest → Exec Server Fields
  unfolding initiate_steps open_session
  initiate_authentication r request s = continue (initiate_steps r request s) (open_session r) s
