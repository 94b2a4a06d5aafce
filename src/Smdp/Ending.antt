-- ===== src/Smdp/Ending.antt =====
-- How sessions of pysim/osmo-smdpp.py end: `cancelSession` and the installation result.
use virtual_rsp.Common.{
  ◌≡◌, ◌≢◌, refl, sym, ap, ◌∙◌, subst, ◌⊎◌, inl, inr, Bool, true, false, not, ◌==◌, eq_iff, Option,
  none, some, String, Result, ok, >>=-eq-ok, required-eq-ok, ok-injective, raise_if, required,
  key_error, api_error, bytes_beq, bytes_beq_eq,
}
use virtual_rsp.Common.Exec.{continue-eq-ok, continue-cases}
use virtual_rsp.Bsp.Padding.{Bytes}
use virtual_rsp.Certs.{Cert}
use virtual_rsp.Common.Dict.{find, find-remove, find-remove_other}
use virtual_rsp.Smdp.Session.{Session}
use virtual_rsp.Smdp.History.{FinalResult, choice, update_download}
use virtual_rsp.Smdp.Server.{
  Ext, Config, Server, installation_result, CancelResponse, cancel_error, cancel_ok, ecdsa_verify,
}
use virtual_rsp.Smdp.Authenticate.{Fields}
use virtual_rsp.Smdp.Closing.{
  CancelRequest, cancel_session, cancel_checks, check_cancel, end_session, handle_notification,
  read_notification, notified, installed, conclude, pir_valid, subject_alt_name_oid,
}
use virtual_rsp.Smdp.Trust.{not_raised}

module _ (x : Ext) (g : Config) where
  -- The eUICC of the session has signed the cancelling of this session, with the identifier of the
  -- extension in the place of the server's.
  pub record IsCancelled (tid : String) (ss : Session) (response : CancelResponse) : Type 0 where
    pub euicc : Cert
    pub signed_tid : Bytes
    pub signature : Bytes
    pub signed : Bytes
    pub is_response : response ≡ cancel_ok signed_tid subject_alt_name_oid signature signed
    pub session_euicc : ss.euicc_cert ≡ some euicc
    pub signature_valid : ecdsa_verify x euicc signature signed ≡ ok true
    pub alt_name_present : g.dp_auth.has_alt_name ≡ true
    pub same_tid : x.tools.h2b tid ≡ ok signed_tid

  check_cancel-IsCancelled :
      (tid : String) (ss : Session) (response : CancelResponse)
      → check_cancel x g tid ss response ≡ ok true
      → IsCancelled tid ss response
  unfolding check_cancel
  check_cancel-IsCancelled tid ss cancel_error h = absurd (cc)
  check_cancel-IsCancelled tid ss (cancel_ok signed_tid oid signature signed) h =
      let (euicc, a, h1) =
        >>=-eq-ok
          (required
            (api_error "8.10.1" "3.9" "Session not authenticated - cannot verify cancel signature")
            ss.euicc_cert)
          _ h in
      let (valid, b, h2) = >>=-eq-ok (ecdsa_verify x euicc signature signed) _ h1 in
      let (_, c, h3) = >>=-eq-ok (raise_if (not valid) _) _ h2 in
      let (_, n, h3') = >>=-eq-ok (raise_if (not g.dp_auth.has_alt_name) _) _ h3 in
      let (_, d, h4) = >>=-eq-ok (raise_if (not (oid == subject_alt_name_oid)) _) _ h3' in
      let (outer, e, h5) = >>=-eq-ok (x.tools.h2b tid) _ h4 in
      let (_, f, h6) = >>=-eq-ok (raise_if (not (bytes_beq signed_tid outer)) _) _ h5 in
      record {
        euicc = euicc;
        signed_tid = signed_tid;
        signature = signature;
        signed = signed;
        is_response =
            ap (λ o. cancel_ok signed_tid o signature signed)
              ((eq_iff oid subject_alt_name_oid).0 (not_raised _ _ d));
        session_euicc = required-eq-ok _ _ a;
        signature_valid = b ∙ ap ok (not_raised _ _ c);
        alt_name_present = not_raised _ _ n;
        same_tid = e ∙ ap ok (sym (bytes_beq_eq _ _ (not_raised _ _ f)));
      }

  pub record IsRequested (request : CancelRequest) (s : Server) (tid : String) (ends : Bool)
      : Type 0 where
    pub ss : Session
    pub response : CancelResponse
    pub request_names : request.transaction_id ≡ some tid
    pub was_known : find tid s.rss ≡ some ss
    pub checked : check_cancel x g tid ss response ≡ ok ends

  cancel_checks-IsRequested :
      (request : CancelRequest) (s : Server) (out : String × Bool)
      → cancel_checks x g request s ≡ ok out
      → IsRequested request s out.0 out.1
  unfolding cancel_checks
  cancel_checks-IsRequested request s out c =
      let (t, a, h1) =
        >>=-eq-ok (required (key_error "transactionId") request.transaction_id) _ c in
      let (ss, b, h2) =
        >>=-eq-ok
          (required
            (api_error "8.10.1" "3.9" "The RSP session identified by the transactionId is unknown")
            (find t s.rss))
          _ h1 in
      let (b64, _, h3) =
        >>=-eq-ok (required (key_error "cancelSessionResponse") request.response) _ h2 in
      let (bin, _, h4) = >>=-eq-ok (x.b64decode b64) _ h3 in
      let (response, _, h5) = >>=-eq-ok (x.decode_cancel bin) _ h4 in
      let (ends, d, h6) = >>=-eq-ok (check_cancel x g t ss response) _ h5 in
      subst (λ (r : String × Bool). IsRequested request s r.0 r.1) (ok-injective h6)
        (record {
          ss = ss;
          response = response;
          request_names = required-eq-ok _ _ a;
          was_known = required-eq-ok _ _ b;
          checked = d;
        })

  -- What a `cancelSession` that answers has done.
  pub record Ended (request : CancelRequest) (s after : Server) : Type 0 where
    pub tid : String
    pub ss : Session
    pub response : CancelResponse
    pub request_names : request.transaction_id ≡ some tid
    pub was_known : find tid s.rss ≡ some ss
    pub cancelled : IsCancelled tid ss response
    pub gone : find tid after.rss ≡ none
    pub others : (other : String) → other ≢ tid → find other after.rss ≡ find other s.rss
    pub same_history : after.history ≡ s.history

  ended :
      (request : CancelRequest) (s : Server) (tid : String) (ends : Bool) (fields : Fields)
      → IsRequested request s tid ends
      → (end_session x g (tid, ends) s).0 ≡ ok (some fields)
      → Ended request s (end_session x g (tid, ends) s).1
  unfolding end_session
  ended request s tid false fields r h = absurd (let e = ok-injective h in cc)
  ended request s tid true fields r h = record {
    tid = tid;
    ss = r.ss;
    response = r.response;
    request_names = r.request_names;
    was_known = r.was_known;
    cancelled = check_cancel-IsCancelled tid r.ss r.response r.checked;
    gone = find-remove tid s.rss;
    others = λ other n. find-remove_other tid other s.rss n;
    same_history = refl;
  }

  -- If `cancelSession` answers with a transaction ID, then the request named a known session; the
  -- eUICC of this session has signed the cancelling, with this transaction and with 2.5.29.17, the
  -- identifier of the extension, where the server's own is meant; the server's certificate has a
  -- subject alternative name; and this session is gone, every other session and the history being
  -- as before.
  pub cancel_session_lem :
      (request : CancelRequest) (s : Server) (fields : Fields)
      → (cancel_session x g request s).0 ≡ ok (some fields)
      → Ended request s (cancel_session x g request s).1
  unfolding cancel_session
  cancel_session_lem request s fields h =
      let (out, a, b, e) = continue-eq-ok (cancel_checks x g request s) (end_session x g) s h in
      subst (λ (m : Result (Option Fields) × Server). Ended request s m.1) (sym e)
        (ended request s out.0 out.1 fields (cancel_checks-IsRequested request s out a) b)

  abbrev pub IsNotedFailed : String → Server → Server → Type 0
  IsNotedFailed tid s after =
      (after.history ≡ s.history)
      ⊎ ((r : FinalResult) × (after.history ≡ update_download tid "failed" (some r) s.history))

  failed_notes :
      (tid c : String) (v signature pird : Bytes) (o : Option Session) (s : Server)
      → IsNotedFailed tid s (installed x g tid (choice c v) signature pird o s).1
  unfolding installed conclude
  failed_notes tid c v signature pird none s = inl refl
  failed_notes tid c v signature pird (some ss) s =
      elim (continue-cases (pir_valid x g ss signature pird) (conclude x g tid (choice c v)) s) [
        | inl (false, _, e) ↦ inr (_, ap (λ (m : Result (Option Fields) × Server). m.1.history) e)
        | inl (true, _, e) ↦ inr (_, ap (λ (m : Result (Option Fields) × Server). m.1.history) e)
        | inr (_, e) ↦ inl (ap (λ (m : Result (Option Fields) × Server). m.1.history) e)
      ]

  -- An installation result whose final result is decoded as a choice, as ASN.1 has it, is never
  -- noted as a success: the history stays as it is or notes the transaction as failed.
  pub handle_notification_fails :
      (pending : Option String) (s : Server) (tid : Bytes) (c : String) (v signature pird : Bytes)
      → read_notification x g pending ≡ ok (installation_result tid (choice c v) signature pird)
      → IsNotedFailed (x.b2h tid) s (handle_notification x g pending s).1
  unfolding handle_notification notified
  handle_notification_fails pending s tid c v signature pird h =
      rw h (failed_notes (x.b2h tid) c v signature pird (find (x.b2h tid) s.rss) s)
