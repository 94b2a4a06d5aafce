-- ===== src/Smdp/Authenticate.antt =====
-- `initiateAutentication` and `authenticateClient` of pysim/osmo-smdpp.py.
use Prim.Native.String.{◌++◌ as concat}
use virtual_rsp.Common.{
  ◌||◌, ◌==◌, ◌-◌, chars, drop_chars, text_starts_with, [], ◌∷◌, List, ◌++◌, not, Option, none,
  some, String, Result, ok, err, Error, ◌>>=◌, ◌>>◌, raise_if, required, value_error, key_error,
  index_error, attribute_error, verify_error, api_error, bytes_beq, truthy, if◌then◌else◌,
}
use virtual_rsp.Common.Exec.{Exec, continue}
use virtual_rsp.Bsp.Padding.{Bytes}
use virtual_rsp.Certs.{
  Cert, cert_get_auth_key_id, add_intermediate_cert, new_set, verify_cert_chain,
}
use virtual_rsp.Common.Dict.{Dict, find, put}
use virtual_rsp.Smdp.Eid.{Text, validate_eid_range}
use virtual_rsp.Smdp.Session.{
  Session, ProfileMetadata, new_metadata, add_notification, gen_store_metadata_request,
}
use virtual_rsp.Smdp.Server.{
  Ext, Config, Server, CtxParams, common, other_params, AuthOk, AuthResponse, authenticate_error,
  authenticate_ok, ecdsa_verify, extract_euicc_signed1,
}

-- the JSON object of an answer
abbrev pub Fields : Type 0
Fields = List (String × String)

-- `os.path.join(directory, name)`: an absolute name stands alone, and no slash is added to a
-- directory that is empty or ends in one
abbrev pub with_slash : String → String
with_slash directory =
    if (directory == "") || (drop_chars (chars directory - 1) directory == "/")
    then directory
    else concat directory "/"

unfoldable pub join_path : String → String → String
join_path directory name =
    if text_starts_with name "/" then name else concat (with_slash directory) name

-- `ci_get_cert_for_pkid`
unfoldable pub ci_get_cert_for_pkid : List Cert → Bytes → Result (Option Cert)
ci_get_cert_for_pkid [] pkid = ok none
ci_get_cert_for_pkid (cert ∷ certs) pkid =
    let rest = ci_get_cert_for_pkid certs pkid in
    do
      id ← required index_error cert.subject_key_id
      if bytes_beq id pkid then ok (some cert) else rest

-- a certificate or the `AttributeError` that `None` leads to
unfoldable pub present {ℓ} : {A : Type ℓ} → Option A → Result A
present o = required attribute_error o

-- `except VerifyError` of `authenticateClient`
unfoldable pub as_refused : Error → Error
as_refused (verify_error m) = api_error "8.1.3" "6.1" "Verification failed (certificate chain)"
as_refused e = e

unfoldable pub refuse_chain : Result (Unit {0}) → Result (Unit {0})
unfolding as_refused
refuse_chain (err e) = err (as_refused e)
refuse_chain (ok u) = ok u

-- `except Exception` around the decoding
unfoldable pub refuse_decoding {ℓ} : {A : Type ℓ} → Result A → Result A
refuse_decoding (err e) = err (api_error "8.1" "6.1" "Failed to decode AuthenticateServerResponse")
refuse_decoding (ok a) = ok a

unfoldable pub expect_ok : AuthResponse → Result AuthOk
expect_ok authenticate_error = err (value_error "authenticateResponseError")
expect_ok (authenticate_ok r) = ok r

-- the matching ID of the context parameters
unfoldable pub selected : CtxParams → Result String
selected other_params =
    err (api_error "1.3.1" "2.2" "ctxParams1 missing mandatory ctxParamsForCommonAuthentication")
selected (common none) = err (api_error "8.2.6" "3.8" "Refused")
selected (common (some m)) = if truthy m then ok m else err (api_error "8.2.6" "3.8" "Refused")

-- the tag and length in front of a signature
abbrev pub signature_header : Bytes
signature_header = 95 ∷ 55 ∷ 64 ∷ []

pub record AuthRequest : Type 0 where
  pub transaction_id : Option String
  pub response : Option String

-- the transaction ID, the answer as bytes and decoded, what is signed in it, the certificates
pub record AuthInput : Type 0 where
  pub tid : String
  pub response_bin : Bytes
  pub answer : AuthOk
  pub signed1 : Bytes
  pub euicc : Cert
  pub eum : Cert

module _ (x : Ext) (g : Config) where
  -- the path of a profile
  unfoldable pub profile_path : String → String
  unfolding join_path
  profile_path matching_id = concat (join_path g.upp_dir matching_id) ".der"

  -- The content of the profile file, after the checks of its path. The common prefix of two paths
  -- is the directory exactly when the other path starts with it.
  unfoldable pub profile_file : String → Dict Bytes → Result Bytes
  unfolding profile_path
  profile_file matching_id files = do
    raise_if (not (text_starts_with (x.realpath (profile_path matching_id)) g.upp_dir))
        (api_error "8.2.6" "3.8" "Refused")
    required (api_error "8.2.6" "3.8" "Refused") (find (profile_path matching_id) files)

  -- The checks of the eUICC's certificates, its signature and its EID; the EID is the result.
  unfoldable pub check_euicc : Session → AuthOk → Bytes → Cert → Cert → Result Text
  unfolding refuse_chain present ecdsa_verify
  check_euicc ss r signed1 euicc eum = do
    aki ← cert_get_auth_key_id eum
    raise_if (not (bytes_beq aki ss.ci_cert_id)) (api_error "8.11.1" "3.9" "Unknown")
    found ← ci_get_cert_for_pkid g.ci_certs ss.ci_cert_id
    ci ← present found
    root ← new_set x.verify ci
    cs ← add_intermediate_cert eum root
    refuse_chain (verify_cert_chain x.verify cs euicc 100)
    valid ← ecdsa_verify x euicc r.signature1 signed1
    raise_if (not valid)
        (api_error "8.1" "6.1" "Verification failed (euiccSignature1 over euiccSigned1)")
    eid ← required index_error euicc.serial_number
    raise_if (not (validate_eid_range eid eum))
        (api_error "8.1.4" "6.1" "EID is not within the permitted range of the EUM certificate")
    raise_if (not (bytes_beq r.server_challenge ss.server_challenge))
        (api_error "8.1" "6.1" "Verification failed (serverChallenge)")
    ok eid

  -- The metadata of the profile, with a notification for each operation.
  unfoldable pub profile_metadata : String → Bytes → Result ProfileMetadata
  unfolding new_metadata add_notification
  profile_metadata matching_id content = do
    iccid ← x.profile_iccid content
    iccid_bin ← x.tools.h2b (x.swap_nibbles (x.b2h iccid))
    let m = new_metadata iccid_bin "OsmocomSPN" matching_id
    let with_enable = add_notification "enable" g.server_hostname m
    let with_disable = add_notification "disable" g.server_hostname with_enable
    ok (add_notification "delete" g.server_hostname with_disable)

  -- The session with what `authenticateClient` learnt; `nonce` is the randomness of ECDSA.
  unfoldable pub authenticated :
      Session → Cert → Cert → Text → String → ProfileMetadata → Bytes → Session
  authenticated ss euicc eum eid matching_id metadata signature2 = record ss {
    euicc_cert = some euicc;
    eum_cert = some eum;
    eid = some eid;
    matching_id = some matching_id;
    profile_metadata = some metadata;
    smdp_signature2 = some signature2;
  }

  -- What `authenticateClient` reads of its request before it looks for the session.
  unfoldable pub auth_input : AuthRequest → Result AuthInput
  unfolding refuse_decoding expect_ok
  auth_input request = do
    tid ← required (key_error "transactionId") request.transaction_id
    b64 ← required (key_error "authenticateServerResponse") request.response
    bin ← x.b64decode b64
    response ← refuse_decoding (x.decode_authenticate bin)
    r ← expect_ok response
    signed1 ← extract_euicc_signed1 x bin
    euicc_bin ← x.encode_certificate r.euicc_certificate
    eum_bin ← x.encode_certificate r.eum_certificate
    euicc ← x.load_der euicc_bin
    eum ← x.load_der eum_bin
    ok (record {
      tid = tid;
      response_bin = bin;
      answer = r;
      signed1 = signed1;
      euicc = euicc;
      eum = eum;
    })

  -- The profile that is selected, the session that is stored again, and the answer.
  unfoldable pub auth_answer :
      Bytes → AuthInput → Session → Text → Dict Bytes → Result (Session × Fields)
  unfolding selected authenticated profile_file profile_metadata
  auth_answer nonce i ss eid files = do
    matching_id ← selected i.answer.ctx_params
    content ← profile_file matching_id files
    metadata ← profile_metadata matching_id content
    metadata_bin ← gen_store_metadata_request x.tools.encode_metadata metadata
    tid_bin ← x.tools.h2b ss.transaction_id
    let signed2 = x.encode_signed2 tid_bin
    let signature2 =
        signature_header
        ++ x.sign g.dp_pb.priv_key nonce (signed2 ++ signature_header ++ i.answer.signature1)
    ok (
      authenticated ss i.euicc i.eum eid matching_id metadata signature2,
      ("transactionId", i.tid)
          ∷ ("profileMetadata", x.b64encode metadata_bin)
          ∷ ("smdpSigned2", x.b64encode signed2)
          ∷ ("smdpSignature2", x.b64encode signature2)
          ∷ ("smdpCertificate", x.b64encode g.dp_pb.cert.der)
          ∷ [],
    )

  -- All of `authenticateClient` before the session is stored again: its key, the session and the
  -- answer.
  unfoldable pub auth_steps : Bytes → AuthRequest → Server → Result (String × Session × Fields)
  unfolding auth_input check_euicc auth_answer
  auth_steps nonce request s = do
    i ← auth_input request
    ss ← required (api_error "8.10.1" "3.9" "Unknown") (find i.tid s.rss)
    eid ← check_euicc ss i.answer i.signed1 i.euicc i.eum
    (ss', fields) ← auth_answer nonce i ss eid s.files
    ok (i.tid, ss', fields)

  unfoldable pub keep_session : String × Session × Fields → Exec Server Fields
  keep_session (tid, ss, fields) s = (ok fields, record s { rss = put tid ss s.rss })

  -- `authenticateClient`
  unfoldable pub authenticate_client : Bytes → AuthRequest → Exec Server Fields
  unfolding auth_steps keep_session
  authenticate_client nonce request s = continue (auth_steps nonce request s) keep_session s
