-- ===== src/Smdp/Startup.antt =====
-- How the server of pysim/osmo-smdpp.py starts: `load_certs_from_path` and the constructor, which
-- reads its keys, its sessions and its history.
pub mod Checked
pub mod Running
mod Examples
use Prim.Native.String.{◌++◌ as concat}
use virtual_rsp.Common.{
  ℕ, [], ◌∷◌, List, Bool, true, false, not, ◌&&◌, ◌-◌, ◌==◌, Option, none, some, String, Result, ok,
  err, ◌>>=◌, ◌>>◌, raise_if, value_error, leb, chars, drop_chars, ◌≡◌, refl, if◌then◌else◌,
}
use virtual_rsp.Common.Dict.{Dict}
use virtual_rsp.Common.Exec.{Exec}
use virtual_rsp.Bsp.Padding.{Bytes}
use virtual_rsp.Certs.{Cert, cert_policy_has_oid, id_rsp_role_ci}
use virtual_rsp.Certs.Keys.{KeyPair, new_pair, cert_from_der_file, privkey_from_pem_file}
use virtual_rsp.Smdp.Session.{Pickled}
use virtual_rsp.Smdp.Store.{RspSessionStore, new_store}
use virtual_rsp.Smdp.History.File.{HistoryFile, HistoryStore, load}
use virtual_rsp.Smdp.Authenticate.{join_path}

-- `oid.id_rspRole_dp_auth_v2` and `oid.id_rspRole_dp_pb_v2`
abbrev pub id_rsp_role_dp_auth_v2 : String
id_rsp_role_dp_auth_v2 = "2.23.146.1.2.1.4"

abbrev pub id_rsp_role_dp_pb_v2 : String
id_rsp_role_dp_pb_v2 = "2.23.146.1.2.1.5"

-- The arguments of the constructor.
pub record Arguments : Type 0 where
  pub server_hostname : String
  pub ci_certs_path : String
  pub common_cert_path : String
  pub use_brainpool : Bool
  pub in_memory : Bool

-- The attributes of the server that has started.
pub record Started : Type 0 where
  pub server_hostname : String
  pub upp_dir : String
  pub ci_certs : List Cert
  pub dp_auth : KeyPair
  pub dp_pb : KeyPair
  pub rss : RspSessionStore
  pub download_history : HistoryStore

-- `filename.endswith(ending)` for an ending of four characters
unfoldable pub has_ending : String → String → Bool
has_ending ending name = leb 4 (chars name) && (drop_chars (chars name - 4) name == ending)

-- The formats that are loaded; other files are passed over.
pub data Format : Type 0 where
  der pem other : Format

unfoldable pub format_of : String → Format
unfolding has_ending
format_of name =
    if has_ending ".der" name then der else (if has_ending ".pem" name then pem else other)

-- a result that is put before the results of the other files
unfoldable pub with_rest : Result Cert → Result (List Cert) → Result (List Cert)
with_rest r rest = do cert ← r; certs ← rest; ok (cert ∷ certs)

-- The value returned by a method that leaves its object in a state.
unfoldable pub object_after : Result (Unit {0}) × KeyPair → Result KeyPair
object_after (ok _, k) = ok k
object_after (err e, _) = err e

-- `"BRP"` or `"NIST"`, and the files of the certificate and of the key of a role
abbrev pub suffix : Bool → String
suffix use_brainpool = if use_brainpool then "BRP" else "NIST"

unfoldable pub cert_path : String → String → Bool → String
unfolding join_path
cert_path cert_dir role use_brainpool =
    join_path (join_path cert_dir role)
      (concat "CERT_S_SM_" (concat role (concat "_ECDSA_" (concat (suffix use_brainpool) ".der"))))

unfoldable pub key_path : String → String → Bool → String
unfolding join_path
key_path cert_dir role use_brainpool =
    join_path (join_path cert_dir role)
      (concat "SK_S_SM_" (concat role (concat "_ECDSA_" (concat (suffix use_brainpool) ".pem"))))

-- The file system and the readers of the packages: `os.walk` as the files of every directory, each
-- with its directory and its name; the databases of sessions; the history file.
pub record Disk : Type 0 where
  pub data_dir : String
  pub realpath : String → String
  pub walk : String → List (String × String)
  pub read : String → Result Bytes
  pub load_der : Bytes → Result Cert
  pub load_pem : Bytes → Result Cert
  pub load_pem_key : Bytes → Result Bytes
  pub sign : Bytes → Bytes → ℕ × ℕ
  pub sessions : String → Result (Dict Pickled)
  pub history : String → HistoryFile

module _ (w : Disk) where
  -- a CI certificate, or `ValueError`
  unfoldable pub checked_ci : String → Result Cert → Result Cert
  checked_ci name loaded = do
    cert ← loaded
    raise_if (not (cert_policy_has_oid cert id_rsp_role_ci))
        (value_error (concat "alleged CI certificate " (concat name " doesn't have CI policy")))
    ok cert

  unfoldable pub load_file : (Bytes → Result Cert) → String × String → Result Cert
  unfolding join_path checked_ci
  load_file reader (directory, name) =
      checked_ci name (w.read (join_path directory name) >>= reader)

  -- the files of the walk
  unfoldable pub load_files : List (String × String) → Result (List Cert)
  unfolding format_of load_file with_rest
  load_files [] = ok []
  load_files ((directory, name) ∷ files) =
      let rest = load_files files in
      elim (format_of name) [
        | der ↦ with_rest (load_file w.load_der (directory, name)) rest
        | pem ↦ with_rest (load_file w.load_pem (directory, name)) rest
        | other ↦ rest
      ]

  -- `load_certs_from_path`
  unfoldable pub load_certs_from_path : String → Result (List Cert)
  unfolding load_files
  load_certs_from_path path = load_files (w.walk path)

  -- a pair whose certificate and key are in the directory of a role
  unfoldable pub load_pair : String → String → String → Result KeyPair
  unfolding new_pair cert_from_der_file privkey_from_pem_file object_after
  load_pair oid certificate key = do
    with_cert ← object_after (
        cert_from_der_file w.read w.load_der w.load_pem_key w.sign certificate
          (new_pair (some oid)))
    object_after (privkey_from_pem_file w.read w.load_der w.load_pem_key w.sign key with_cert)

  -- `rss`
  unfoldable pub open_store : Bool → Bool → Result RspSessionStore
  unfolding new_store join_path
  open_store use_brainpool true = new_store w.sessions none true
  open_store use_brainpool false =
      new_store w.sessions
        (some (join_path w.data_dir (concat "sm-dp-sessions-" (suffix use_brainpool)))) false

  -- `__init__`
  unfoldable pub start_server : Arguments → Result Started
  unfolding load_certs_from_path load_pair cert_path key_path open_store load join_path
  start_server a = do
    ci_certs ← load_certs_from_path a.ci_certs_path
    dp_auth ←
        load_pair id_rsp_role_dp_auth_v2 (cert_path a.common_cert_path "DPauth" a.use_brainpool)
          (key_path a.common_cert_path "DPauth" a.use_brainpool)
    dp_pb ←
        load_pair id_rsp_role_dp_pb_v2 (cert_path a.common_cert_path "DPpb" a.use_brainpool)
          (key_path a.common_cert_path "DPpb" a.use_brainpool)
    rss ← open_store a.use_brainpool a.in_memory
    ok (record {
      server_hostname = a.server_hostname;
      upp_dir = w.realpath (join_path w.data_dir "upp");
      ci_certs = ci_certs;
      dp_auth = dp_auth;
      dp_pb = dp_pb;
      rss = rss;
      download_history = load (w.history (join_path w.data_dir "download_history.json"));
    })
