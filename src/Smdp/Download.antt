-- ===== src/Smdp/Download.antt =====
-- `getBoundProfilePackage` of pysim/osmo-smdpp.py.
use virtual_rsp.Common.{
  ℕ, [], ◌∷◌, ◌++◌, not, Option, none, some, String, Result, ok, err, ◌>>=◌, ◌>>◌, raise_if,
  required, value_error, key_error, os_error, api_error, exception, bytes_beq, replicate,
}
use virtual_rsp.Common.Exec.{Exec, continue}
use virtual_rsp.Bsp.Padding.{Bytes}
use virtual_rsp.Bsp.Algo.{Bsp}
use virtual_rsp.BoundProfile.Tools.{UnprotectedProfilePackage, ProtectedProfilePackage}
use virtual_rsp.BoundProfile.Channel.{from_der, from_ppp}
use virtual_rsp.BoundProfile.Encode.{protect, encode}
use virtual_rsp.Common.Dict.{find, put}
use virtual_rsp.Smdp.Session.{Session, ProfileMetadata}
use virtual_rsp.Smdp.History.{record_download}
use virtual_rsp.Smdp.Server.{
  Ext, Config, Server, DownloadResponse, download_error, download_ok, ecdsa_verify,
  extract_euicc_signed2,
}
use virtual_rsp.Smdp.Authenticate.{Fields, present, profile_path}

pub record DownloadRequest : Type 0 where
  pub transaction_id : Option String
  pub response : Option String

unfoldable pub expect_prepared : DownloadResponse → Result (Bytes × Bytes × Bytes)
expect_prepared download_error = err (value_error "downloadResponseError")
expect_prepared (download_ok tid otpk signature) = ok (tid, otpk, signature)

-- The key of the session and the session, the answer as bytes, what is signed in it (as a whole,
-- and its transaction ID and one-time public key), and the signature.
pub record DownloadInput : Type 0 where
  pub tid : String
  pub ss : Session
  pub response_bin : Bytes
  pub signed_tid : Bytes
  pub otpk : Bytes
  pub signature : Bytes
  pub signed2 : Bytes

-- `b'mahlzeit'`
abbrev pub host_id : Bytes
host_id = 109 ∷ 97 ∷ 104 ∷ 108 ∷ 122 ∷ 101 ∷ 105 ∷ 116 ∷ []

unfoldable pub with_keys : Session → Bytes → ℕ × String → Bytes → Bytes → Session
with_keys ss otpk ot smdp_otpk secret = record ss {
  euicc_otpk = some otpk;
  smdp_ot = some ot;
  smdp_otpk = some smdp_otpk;
  host_id = some host_id;
  shared_secret = some secret;
}

abbrev pub set_session : String → Session → Server → Server
set_session tid ss s = record s { rss = put tid ss s.rss }

-- `BspInstance(b'\x00'*16, b'\x11'*16, b'\x22'*16)`
abbrev pub fixed_instance : Bsp
fixed_instance = record {
  s_enc = replicate 16 0x00;
  block_nr = 1;
  s_mac = replicate 16 0x11;
  mac_chain = replicate 16 0x22;
}

-- What is drawn at random for one download: a one-time key pair, and the nonce of a signature.
pub record DrawnKeys : Type 0 where
  pub ot : ℕ × String
  pub nonce : Bytes

module _ (x : Ext) (g : Config) where
  -- `iccid_for_log`
  unfoldable pub iccid_for_log : Option ProfileMetadata → String
  iccid_for_log none = "unknown"
  iccid_for_log (some m) = x.swap_nibbles (x.b2h m.iccid_bin)

  -- The session of the request and the answer of the eUICC.
  unfoldable pub download_input : DownloadRequest → Server → Result DownloadInput
  unfolding expect_prepared
  download_input request s = do
    tid ← required (key_error "transactionId") request.transaction_id
    ss ←
        required
          (api_error "8.10.1" "3.9" "The RSP session identified by the TransactionID is unknown")
          (find tid s.rss)
    b64 ← required (key_error "prepareDownloadResponse") request.response
    bin ← x.b64decode b64
    response ← x.decode_prepare bin
    (signed_tid, otpk, signature) ← expect_prepared response
    signed2 ← extract_euicc_signed2 x bin
    ok (record {
      tid = tid;
      ss = ss;
      response_bin = bin;
      signed_tid = signed_tid;
      otpk = otpk;
      signature = signature;
      signed2 = signed2;
    })

  -- The checks of what the eUICC signed.
  unfoldable pub check_prepared : DownloadInput → Result (Unit {0})
  unfolding present ecdsa_verify
  check_prepared i = do
    signature2 ← required (exception "TypeError") i.ss.smdp_signature2
    euicc ← present i.ss.euicc_cert
    valid ← ecdsa_verify x euicc i.signature (i.signed2 ++ signature2)
    raise_if (not valid) (api_error "8.1" "6.1" "eUICC signature is invalid")
    outer_tid ← x.tools.h2b i.tid
    raise_if (not (bytes_beq outer_tid i.signed_tid))
        (api_error "8.10.1" "3.9" "The signed transactionId != outer transactionId")

  -- Then the keys of the session and the profile; `ot` is the one-time key pair that is drawn.
  unfoldable pub download_steps :
      ℕ × String
      → DownloadRequest
      → Server
      → Result (String × Session × String × UnprotectedProfilePackage)
  unfolding download_input check_prepared with_keys present from_der
  download_steps ot request s = do
    i ← download_input request s
    check_prepared i
    secret ← x.tools.exchange ot i.otpk
    matching_id ← present i.ss.matching_id
    content ← required os_error (find (profile_path x g matching_id) s.files)
    ok (
      i.tid,
      with_keys i.ss i.otpk ot (x.public_key ot) secret,
      matching_id,
      from_der content i.ss.profile_metadata,
    )

  unfoldable pub bound_reply : String → Bytes → Exec Server Fields
  bound_reply tid bpp s =
      (ok (("transactionId", tid) ∷ ("boundProfilePackage", x.b64encode bpp) ∷ []), s)

  -- `bpp.encode(ss, self.dp_pb)`
  unfoldable pub bound_package : Bytes → Session → ProtectedProfilePackage → Result Bytes
  unfolding encode from_ppp
  bound_package nonce ss ppp = do
    (bpp, _) ← encode x.tools ss (x.sign g.dp_pb.priv_key nonce) (from_ppp ppp)
    ok bpp

  -- the session is stored before the package is encoded for it
  unfoldable pub store_bound :
      Bytes → String → Session → ProtectedProfilePackage → Exec Server Fields
  unfolding bound_package bound_reply
  store_bound nonce tid ss ppp s =
      continue (bound_package nonce ss ppp) (bound_reply tid) (set_session tid ss s)

  unfoldable pub recorded : String → String → Session → String → Server → Server
  unfolding iccid_for_log
  recorded now tid ss matching_id s = record s {
    history =
        record_download now tid ss.eid (iccid_for_log ss.profile_metadata) matching_id "bpp_sent"
          s.history;
  }

  -- What is changed: the download is recorded, the package is protected, the session is stored, and
  -- the package is encoded. What raises leaves the changes before it.
  unfoldable pub deliver :
      Bytes → String → String × Session × String × UnprotectedProfilePackage → Exec Server Fields
  unfolding recorded protect store_bound
  deliver nonce now (tid, ss, matching_id, upp) s =
      continue (protect x.tools upp fixed_instance).0 (store_bound nonce tid ss)
        (recorded now tid ss matching_id s)

  -- `getBoundProfilePackage`
  unfoldable pub get_bound_profile_package :
      DrawnKeys → String → DownloadRequest → Exec Server Fields
  unfolding download_steps deliver
  get_bound_profile_package drawn now request s =
      continue (download_steps drawn.ot request s) (λ found. deliver drawn.nonce now found) s
