-- ===== src/Smdp/Startup/Examples.antt =====
-- A start of the server of pysim/osmo-smdpp.py with one CI certificate.
use virtual_rsp.Common.{
  [], ◌∷◌, String, true, false, some, Result, ok, err, os_error, bytes_beq, ◌==◌, ◌≡◌, refl,
  if◌then◌else◌,
}
use virtual_rsp.Bsp.Padding.{Bytes}
use virtual_rsp.Certs.{Cert, cert_policy_has_oid}
use virtual_rsp.Smdp.Setup.{certificate, ci}
use virtual_rsp.Smdp.Store.{open_shelf, new_store}
use virtual_rsp.Smdp.History.File.{missing, load}
use virtual_rsp.Smdp.Startup.{
  Disk, Arguments, Started, id_rsp_role_dp_auth_v2, id_rsp_role_dp_pb_v2, start_server,
  load_certs_from_path, load_files, format_of, has_ending, with_rest, load_file, checked_ci,
  load_pair, cert_path, key_path, object_after, open_store,
}
use virtual_rsp.Certs.Keys.{
  new_pair, cert_from_der_file, privkey_from_pem_file, read_cert, check_policy,
}
use virtual_rsp.Smdp.Authenticate.{join_path}
use virtual_rsp.Smdp.Startup.Running.{IsRunning, start_server-IsRunning}

abbrev dp_auth : Cert
dp_auth = record (certificate 5 1) { policies = (id_rsp_role_dp_auth_v2 ∷ []) ∷ [] }

abbrev dp_pb : Cert
dp_pb = record (certificate 6 1) { policies = (id_rsp_role_dp_pb_v2 ∷ []) ∷ [] }

abbrev certificates : Bytes → Result Cert
certificates b =
    if bytes_beq b (1 ∷ []) then ok ci else (if bytes_beq b (5 ∷ []) then ok dp_auth else ok dp_pb)

abbrev contents : String → Result Bytes
contents path =
    if path == "/ci/CERT_CI.der"
    then ok (1 ∷ [])
    else (if path == "/certs/DPauth/CERT_S_SM_DPauth_ECDSA_NIST.der"
        then ok (5 ∷ [])
        else (if path == "/certs/DPpb/CERT_S_SM_DPpb_ECDSA_NIST.der"
            then ok (6 ∷ [])
            else (if path == "/certs/DPauth/SK_S_SM_DPauth_ECDSA_NIST.pem"
                then ok (7 ∷ [])
                else (if path == "/certs/DPpb/SK_S_SM_DPpb_ECDSA_NIST.pem"
                    then ok (8 ∷ [])
                    else err os_error))))

abbrev disk : Disk
disk = record {
  data_dir = "data";
  realpath = λ path. path;
  walk = λ path. ("/ci", "README.txt") ∷ ("/ci", "CERT_CI.der") ∷ [];
  read = contents;
  load_der = certificates;
  load_pem = certificates;
  load_pem_key = ok;
  sign = λ _ _. (1, 1);
  sessions = λ _. ok [];
  history = λ _. missing;
}

abbrev arguments : Arguments
arguments = record {
  server_hostname = "testsmdpplus1.example.com";
  ci_certs_path = "/ci";
  common_cert_path = "/certs";
  use_brainpool = false;
  in_memory = true;
}

abbrev started : Started
started = record {
  server_hostname = "testsmdpplus1.example.com";
  upp_dir = "data/upp";
  ci_certs = ci ∷ [];
  dp_auth = record {
    required_policy_oid = some id_rsp_role_dp_auth_v2;
    cert = some dp_auth;
    priv_key = some (7 ∷ []);
  };
  dp_pb = record {
    required_policy_oid = some id_rsp_role_dp_pb_v2;
    cert = some dp_pb;
    priv_key = some (8 ∷ []);
  };
  rss = record { in_memory = true; shelf = open_shelf; entries = [] };
  download_history = record { history = []; file = missing };
}

starts : start_server disk arguments ≡ ok started
unfolding start_server load_certs_from_path load_files format_of has_ending with_rest load_file
    checked_ci join_path load_pair cert_path key_path object_after new_pair cert_from_der_file
    privkey_from_pem_file read_cert check_policy cert_policy_has_oid open_store new_store load
starts = refl

start_server-IsRunning_example : IsRunning disk arguments started
start_server-IsRunning_example = start_server-IsRunning disk arguments started starts
