-- ===== src/Smdp/Setup.antt =====
-- Simple packages, certificates, a configuration and requests, on which the server can be run.
use virtual_rsp.Common.{
  ℕ, zero, suc, [], ◌∷◌, List, true, none, some, String, Result, ok, ◌==◌, replicate, if◌then◌else◌,
}
use virtual_rsp.Bsp.Padding.{Bytes}
use virtual_rsp.BoundProfile.Toy.{toy_tools}
use virtual_rsp.Certs.{Cert}
use virtual_rsp.Smdp.Session.{Session, new_session}
use virtual_rsp.Smdp.History.{choice}
use virtual_rsp.Smdp.Server.{
  Ext, Config, CertAndPrivkey, Server, EuiccInfo, AuthOk, authenticate_ok, download_ok, common,
  cancel_ok, installation_result,
}
use virtual_rsp.Smdp.Authenticate.{AuthRequest}
use virtual_rsp.Smdp.Download.{DownloadRequest}
use virtual_rsp.Smdp.Closing.{CancelRequest}
use virtual_rsp.Smdp.Runs.{Call, initiate, authenticate}

abbrev pub certificate : ℕ → ℕ → Cert
certificate id issuer = record {
  der = id ∷ [];
  public_key = id ∷ [];
  signature = [];
  tbs = [];
  subject_key_id = some (id ∷ []);
  auth_key_id = some (issuer ∷ []);
  policies = ("2.23.146.1.2.1.0" ∷ []) ∷ [];
  key_usage = some (true, true);
  serial_number = some (replicate 32 56);
  permitted_eins = some (replicate 8 56 ∷ []) ∷ [];
  name_constraints = none;
}

abbrev pub ci : Cert
ci = certificate 1 1

abbrev pub eum : Cert
eum = certificate 2 1

abbrev pub euicc : Cert
euicc = certificate 3 2

abbrev pub info : EuiccInfo
info = record { signing = (1 ∷ []) ∷ []; signing_v3 = none; verification = some ((1 ∷ []) ∷ []) }

abbrev pub answer : AuthOk
answer = record {
  server_challenge = 7 ∷ [];
  ctx_params = common (some "M");
  signature1 = replicate 64 0;
  euicc_certificate = 3 ∷ [];
  eum_certificate = 2 ∷ [];
}

abbrev pub loaded : Bytes → Result Cert
loaded (suc (suc (suc zero)) ∷ _) = ok euicc
loaded _ = ok eum

abbrev pub decoded64 : String → Result Bytes
decoded64 s =
    if s == "challenge"
    then ok (replicate 16 0)
    else if s == "authenticate"
    then ok (0xBF ∷ 0x38 ∷ 4 ∷ 0xA0 ∷ 2 ∷ 0x30 ∷ 0 ∷ [])
    else ok (0xBF ∷ 0x21 ∷ 4 ∷ 0xA0 ∷ 2 ∷ 0x30 ∷ 0 ∷ [])

abbrev pub ext : Ext
ext = record {
  tools = toy_tools;
  b64decode = decoded64;
  b64encode = λ _. "64";
  b2h = λ _. "T";
  swap_nibbles = λ s. s;
  decode_authenticate = λ _. ok (authenticate_ok answer);
  decode_info = λ _. ok info;
  encode_server_signed = λ _. [];
  decode_prepare = λ _. ok (download_ok (9 ∷ []) [] (replicate 64 0));
  decode_notification =
      λ _. ok (installation_result [] (choice "successResult" []) (replicate 64 0) []);
  decode_cancel = λ _. ok (cancel_ok (9 ∷ []) "2.5.29.17" (replicate 64 0) []);
  encode_certificate = λ c. ok c;
  encode_signed2 = λ t. t;
  load_der = loaded;
  verify = λ _ _ _. true;
  verify_dss = λ _ _ _. true;
  sign = λ _ _ m. m;
  realpath = λ p. p;
  profile_iccid = λ _. ok [];
  public_key = λ _. [];
}

abbrev pub own : CertAndPrivkey
own = record { cert = certificate 4 1; priv_key = []; curve = "secp256r1"; has_alt_name = true }

abbrev pub config : Config
config = record {
  server_hostname = "smdp";
  upp_dir = "/upp";
  ci_certs = ci ∷ [];
  dp_auth = own;
  dp_pb = own;
}

abbrev pub empty : Server
empty = record { rss = []; history = []; files = ("/upp/M.der", 5 ∷ []) ∷ [] }

abbrev pub first : Call
first =
    initiate (record { uuid = "T"; challenge = 7 ∷ []; nonce = [] })
      (record {
        smdp_address = some "smdp:8443";
        euicc_challenge = some "challenge";
        euicc_info1 = some "info";
      })

abbrev pub auth_request : AuthRequest
auth_request = record { transaction_id = some "T"; response = some "authenticate" }

abbrev pub calls : List Call
calls = first ∷ authenticate [] auth_request ∷ []

abbrev pub request : DownloadRequest
request = record { transaction_id = some "T"; response = some "prepare" }

abbrev pub cancel_request : CancelRequest
cancel_request = record { transaction_id = some "T"; response = some "cancel" }

abbrev pub opened : Server
opened = record {
  rss = ("T", new_session "T" (7 ∷ []) (1 ∷ [])) ∷ [];
  history = [];
  files = ("/upp/M.der", 5 ∷ []) ∷ [];
}

abbrev pub session : Session
session = record {
  transaction_id = "T";
  server_challenge = [];
  ci_cert_id = 1 ∷ [];
  euicc_cert = some euicc;
  eum_cert = some eum;
  eid = none;
  profile_metadata = none;
  smdp_signature2 = none;
  euicc_otpk = none;
  smdp_ot = some (5, "secp256r1");
  smdp_otpk = none;
  host_id = none;
  shared_secret = none;
  matching_id = none;
}

abbrev pub running : Server
running = record { rss = ("T", session) ∷ []; history = []; files = [] }
