-- ===== src/Smdp/Closing.antt =====
-- `handleNotification`, `cancelSession` and `initiateAutentication` of pysim/osmo-smdpp.py.
use virtual_rsp.Common.{
  ℕ, [], ◌∷◌, Bool, true, false, not, ◌==◌, Option, none, some, String, Result, ok, err, ◌>>=◌,
  ◌>>◌, raise_if, required, value_error, key_error, api_error, exception, index_error, bytes_beq,
  if◌then◌else◌,
}
use virtual_rsp.Common.Exec.{Exec, continue}
use virtual_rsp.Bsp.Padding.{Bytes}
use virtual_rsp.Certs.{add_intermediate_cert, new_set, verify_cert_chain, cert_get_auth_key_id}
use virtual_rsp.Common.Dict.{find, remove}
use virtual_rsp.Smdp.Session.{Session}
use virtual_rsp.Smdp.History.{text, FinalResult, is_success, update_download}
use virtual_rsp.Esim.Pmo.{from_bitstring}
use virtual_rsp.Smdp.Server.{
  Ext, Config, Server, Notification, installation_result, other_signed, other_notification,
  CancelResponse, cancel_error, cancel_ok, ecdsa_verify,
}
use virtual_rsp.Smdp.Authenticate.{Fields, present, ci_get_cert_for_pkid}

-- `subj_alt_name.oid`: the class `SubjectAlternativeName` has the identifier of the extension itself
abbrev pub subject_alt_name_oid : String
subject_alt_name_oid = "2.5.29.17"

abbrev pub drop_session : String → Server → Server
drop_session tid s = record s { rss = remove tid s.rss }

abbrev pub note : String → String → FinalResult → Server → Server
note tid status result s = record s { history = update_download tid status (some result) s.history }

pub record CancelRequest : Type 0 where
  pub transaction_id : Option String
  pub response : Option String

module _ (x : Ext) (g : Config) where
  -- The eUICC's signature on an installation result: an invalid one is noted before the exception,
  -- a valid one ends the session.
  unfoldable pub conclude : String → FinalResult → Bool → Exec Server (Option Fields)
  unfolding is_success
  conclude tid result false s = (
    err (exception "ECDSA signature verification failed on notification"),
    note tid "failed" (text "Signature verification failed") s,
  )
  conclude tid result true s = (
    ok none,
    drop_session tid (note tid (if is_success result then "success" else "failed") result s),
  )

  unfoldable pub pir_valid : Session → Bytes → Bytes → Result Bool
  unfolding present ecdsa_verify
  pir_valid ss signature pird = do
    euicc ← present ss.euicc_cert
    ecdsa_verify x euicc signature pird

  unfoldable pub installed :
      String → FinalResult → Bytes → Bytes → Option Session → Exec Server (Option Fields)
  unfolding pir_valid conclude
  installed tid result signature pird none s = (ok none, s)
  installed tid result signature pird (some ss) s =
      continue (pir_valid ss signature pird) (conclude tid result) s

  -- `otherSignedNotification`: the certificates and the signature are checked, nothing is changed
  unfoldable pub check_other : Bytes → Bytes → Bytes → Bytes → Bytes × ℕ → Result (Option Fields)
  unfolding present ecdsa_verify from_bitstring
  check_other euicc_dec eum_dec signature tbs operation = do
    euicc_bin ← x.encode_certificate euicc_dec
    eum_bin ← x.encode_certificate eum_dec
    euicc ← x.load_der euicc_bin
    eum ← x.load_der eum_bin
    ci_id ← cert_get_auth_key_id eum
    found ← ci_get_cert_for_pkid g.ci_certs ci_id
    ci ← present found
    root ← new_set x.verify ci
    cs ← add_intermediate_cert eum root
    verify_cert_chain x.verify cs euicc 100
    valid ← ecdsa_verify x euicc signature tbs
    raise_if (not valid) (exception "ECDSA signature verification failed on notification")
    _ ← from_bitstring operation
    _ ← required index_error euicc.serial_number
    ok none

  unfoldable pub notified : Notification → Exec Server (Option Fields)
  unfolding installed check_other
  notified (installation_result tid_bin result signature pird) s =
      installed (x.b2h tid_bin) result signature pird (find (x.b2h tid_bin) s.rss) s
  notified (other_signed euicc eum signature tbs operation) s =
      (check_other euicc eum signature tbs operation, s)
  notified other_notification s = (err (value_error "pendingNotification"), s)

  unfoldable pub read_notification : Option String → Result Notification
  read_notification pending = do
    b64 ← required (key_error "pendingNotification") pending
    bin ← x.b64decode b64
    x.decode_notification bin

  -- `handleNotification`
  unfoldable pub handle_notification : Option String → Exec Server (Option Fields)
  unfolding read_notification notified
  handle_notification pending s = continue (read_notification pending) notified s

  -- what the eUICC answered to the cancelling, and whether the session is to be removed
  unfoldable pub check_cancel : String → Session → CancelResponse → Result Bool
  unfolding ecdsa_verify
  check_cancel tid ss cancel_error = ok false
  check_cancel tid ss (cancel_ok signed_tid smdp_oid signature signed) = do
    euicc ←
        required
          (api_error "8.10.1" "3.9" "Session not authenticated - cannot verify cancel signature")
          ss.euicc_cert
    valid ← ecdsa_verify x euicc signature signed
    raise_if (not valid) (api_error "8.1" "6.1" "eUICC signature is invalid")
    raise_if (not g.dp_auth.has_alt_name) index_error
    raise_if (not (smdp_oid == subject_alt_name_oid))
        (api_error "8.8" "3.10" "The provided SM-DP+ OID is invalid.")
    outer_tid ← x.tools.h2b tid
    raise_if (not (bytes_beq signed_tid outer_tid))
        (api_error "8.10.1" "3.9" "The signed transactionId != outer transactionId")
    ok true

  unfoldable pub cancel_checks : CancelRequest → Server → Result (String × Bool)
  unfolding check_cancel
  cancel_checks request s = do
    tid ← required (key_error "transactionId") request.transaction_id
    ss ←
        required
          (api_error "8.10.1" "3.9" "The RSP session identified by the transactionId is unknown")
          (find tid s.rss)
    b64 ← required (key_error "cancelSessionResponse") request.response
    bin ← x.b64decode b64
    response ← x.decode_cancel bin
    ends ← check_cancel tid ss response
    ok (tid, ends)

  unfoldable pub end_session : String × Bool → Exec Server (Option Fields)
  end_session (tid, false) s = (ok none, s)
  end_session (tid, true) s = (ok (some (("transactionId", tid) ∷ [])), drop_session tid s)

  -- `cancelSession`
  unfoldable pub cancel_session : CancelRequest → Exec Server (Option Fields)
  unfolding cancel_checks end_session
  cancel_session request s = continue (cancel_checks request s) end_session s
