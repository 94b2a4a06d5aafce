-- ===== src/Smdp/Server.antt =====
-- The state of the SM-DP+ server of pysim/osmo-smdpp.py, its configuration, what it takes from
-- other packages, and the ECDSA and TLV helpers that the handlers share.
use virtual_rsp.Common.{
  ℕ, List, Bool, not, Option, String, Result, ok, ◌>>=◌, ◌>>◌, raise_if, value_error,
  assertion_error, nat_beq, length, take, drop,
}
use virtual_rsp.Bsp.Padding.{Bytes}
use virtual_rsp.BoundProfile.Tools.{Tools, from_bytes}
use virtual_rsp.Certs.{Cert}
use virtual_rsp.Common.Dict.{Dict}
use virtual_rsp.Smdp.Session.{Session}
use virtual_rsp.Smdp.History.{Download, FinalResult}

-- `CtxParams1`: common authentication with the matching ID, or another choice
pub data CtxParams : Type 0 where
  common : Option String → CtxParams
  other_params : CtxParams

-- `AuthenticateServerResponse`; a decoded certificate is only encoded again and stays opaque
pub record AuthOk : Type 0 where
  pub server_challenge : Bytes
  pub ctx_params : CtxParams
  pub signature1 : Bytes
  pub euicc_certificate : Bytes
  pub eum_certificate : Bytes

pub data AuthResponse : Type 0 where
  authenticate_error : AuthResponse
  authenticate_ok : AuthOk → AuthResponse

-- `PrepareDownloadResponse`
pub data DownloadResponse : Type 0 where
  download_error : DownloadResponse
  -- the signed transaction ID, `euiccOtpk`, `euiccSignature2`
  download_ok : Bytes → Bytes → Bytes → DownloadResponse

-- `PendingNotification`
pub data Notification : Type 0 where
  -- transaction ID, final result, `euiccSignPIR`, and the data encoded again
  installation_result : Bytes → FinalResult → Bytes → Bytes → Notification
  -- eUICC and EUM certificates, the signature, the metadata encoded again, and its operation
  other_signed : Bytes → Bytes → Bytes → Bytes → Bytes × ℕ → Notification
  other_notification : Notification

-- `CancelSessionResponse`
pub data CancelResponse : Type 0 where
  cancel_error : CancelResponse
  -- signed transaction ID, `smdpOid`, signature, and the signed data encoded again
  cancel_ok : Bytes → String → Bytes → Bytes → CancelResponse

-- `EUICCInfo1`: the key identifiers for signing, in version 3, and for verification
pub record EuiccInfo : Type 0 where
  pub signing : List Bytes
  pub signing_v3 : Option (List Bytes)
  pub verification : Option (List Bytes)

-- `ServerSigned1`
pub record ServerSigned : Type 0 where
  pub transaction_id : Bytes
  pub euicc_challenge : Bytes
  pub server_address : String
  pub server_challenge : Bytes

-- Base64, hexadecimal, BER-TLV, ASN.1, X.509, ECDSA and ECDH of the packages that the server
-- calls; `realpath` of the file system; and the ICCID in a profile.
pub record Ext : Type 0 where
  -- what bound profile packages need
  pub tools : Tools
  pub b64decode : String → Result Bytes
  pub b64encode : Bytes → String
  pub b2h : Bytes → String
  pub swap_nibbles : String → String
  pub decode_authenticate : Bytes → Result AuthResponse
  pub decode_info : Bytes → Result EuiccInfo
  pub encode_server_signed : ServerSigned → Bytes
  pub decode_prepare : Bytes → Result DownloadResponse
  pub decode_notification : Bytes → Result Notification
  pub decode_cancel : Bytes → Result CancelResponse
  pub encode_certificate : Bytes → Result Bytes
  pub encode_signed2 : Bytes → Bytes
  pub load_der : Bytes → Result Cert
  pub verify : Bytes → Bytes → Bytes → Bool
  pub verify_dss : Bytes → ℕ × ℕ → Bytes → Bool
  pub sign : Bytes → Bytes → Bytes → Bytes
  pub realpath : String → String
  pub profile_iccid : Bytes → Result Bytes
  -- of a one-time key pair
  pub public_key : ℕ × String → Bytes

-- A key pair of the server, `CertAndPrivkey`.
pub record CertAndPrivkey : Type 0 where
  pub cert : Cert
  pub priv_key : Bytes
  pub curve : String
  -- whether the certificate has a subject alternative name
  pub has_alt_name : Bool

pub record Config : Type 0 where
  pub server_hostname : String
  pub upp_dir : String
  pub ci_certs : List Cert
  pub dp_auth : CertAndPrivkey
  pub dp_pb : CertAndPrivkey

-- `rss`, `download_history.history` and the files with their paths
pub record Server : Type 0 where
  pub rss : Dict Session
  pub history : List Download
  pub files : Dict Bytes

-- `ecdsa_tr03111_to_dss`, whose result is the pair that is encoded
unfoldable pub ecdsa_tr03111_to_dss : Bytes → Result (ℕ × ℕ)
unfolding from_bytes
ecdsa_tr03111_to_dss sig = do
  raise_if (not (nat_beq (length sig) 64)) assertion_error
  ok (from_bytes 0 (take 32 sig), from_bytes 0 (drop 32 sig))

module _ (x : Ext) where
  -- `_ecdsa_verify`
  unfoldable pub ecdsa_verify : Cert → Bytes → Bytes → Result Bool
  unfolding ecdsa_tr03111_to_dss
  ecdsa_verify cert signature m = do
    dss ← ecdsa_tr03111_to_dss signature
    ok (x.verify_dss cert.public_key dss m)

  -- `extract_euiccSigned1` and `extract_euiccSigned2`, which differ in the outer tag
  unfoldable pub extract_signed : ℕ → Bytes → Result Bytes
  extract_signed outer m = do
    (tag, v, remainder) ← x.tools.parse_rawtag m
    raise_if (not (nat_beq (length remainder) 0)) (value_error "Excess data at end of TLV")
    raise_if (not (nat_beq tag outer)) (value_error "Unexpected outer tag")
    (tag1, v1, _) ← x.tools.parse_rawtag v
    raise_if (not (nat_beq tag1 160)) (value_error "Unexpected tag where CHOICE was expected")
    (tag2, tlv, _) ← x.tools.return_rawtlv v1
    raise_if (not (nat_beq tag2 48)) (value_error "Unexpected tag where SEQUENCE was expected")
    ok tlv

  unfoldable pub extract_euicc_signed1 : Bytes → Result Bytes
  unfolding extract_signed
  extract_euicc_signed1 = extract_signed 48952

  unfoldable pub extract_euicc_signed2 : Bytes → Result Bytes
  unfolding extract_signed
  extract_euicc_signed2 = extract_signed 48929
