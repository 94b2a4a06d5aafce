-- ===== src/Smdp/Delivery.antt =====
-- What `getBoundProfilePackage` of pysim/osmo-smdpp.py has checked when it changes the server.
use virtual_rsp.Common.{
  ℕ, ◌≡◌, refl, ap, ◌∙◌, subst, ◌++◌, true, not, some, String, ok, >>=-eq-ok, required-eq-ok,
  ok-injective, raise_if, required, key_error, api_error, exception, attribute_error, os_error,
  bytes_beq_eq,
}
use virtual_rsp.Bsp.Padding.{Bytes}
use virtual_rsp.BoundProfile.Tools.{UnprotectedProfilePackage}
use virtual_rsp.Certs.{Cert}
use virtual_rsp.Common.Dict.{find}
use virtual_rsp.Smdp.Session.{Session}
use virtual_rsp.Smdp.Server.{
  Ext, Config, Server, DownloadResponse, download_error, download_ok, ecdsa_verify,
  extract_euicc_signed2,
}
use virtual_rsp.Smdp.Authenticate.{present, profile_path}
use virtual_rsp.Smdp.Download.{
  DownloadRequest, expect_prepared, DownloadInput, download_input, check_prepared, download_steps,
  with_keys,
}
use virtual_rsp.Smdp.Trust.{not_raised}

expect_prepared_lem :
    (a : DownloadResponse) (tid otpk signature : Bytes)
    → expect_prepared a ≡ ok (tid, otpk, signature)
    → a ≡ download_ok tid otpk signature
unfolding expect_prepared
expect_prepared_lem download_error tid otpk signature h = absurd (cc)
expect_prepared_lem (download_ok t o s) tid otpk signature h = let e = ok-injective h in cc

module _ (x : Ext) (g : Config) where
  -- The request names a known session, and its answer is the one that was read.
  pub record IsRead (request : DownloadRequest) (s : Server) (i : DownloadInput) : Type 0 where
    pub request_names : request.transaction_id ≡ some i.tid
    pub was_known : find i.tid s.rss ≡ some i.ss
    pub decoded : x.decode_prepare i.response_bin ≡ ok (download_ok i.signed_tid i.otpk i.signature)
    pub extracted : extract_euicc_signed2 x i.response_bin ≡ ok i.signed2

  download_input-IsRead :
      (request : DownloadRequest) (s : Server) (i : DownloadInput)
      → download_input x g request s ≡ ok i
      → IsRead request s i
  unfolding download_input
  download_input-IsRead request s i h =
      let (t, a, h1) =
        >>=-eq-ok (required (key_error "transactionId") request.transaction_id) _ h in
      let (ss, b, h2) =
        >>=-eq-ok
          (required
            (api_error "8.10.1" "3.9" "The RSP session identified by the TransactionID is unknown")
            (find t s.rss))
          _ h1 in
      let (b64, _, h3) =
        >>=-eq-ok (required (key_error "prepareDownloadResponse") request.response) _ h2 in
      let (bin, _, h4) = >>=-eq-ok (x.b64decode b64) _ h3 in
      let (response, c, h5) = >>=-eq-ok (x.decode_prepare bin) _ h4 in
      let (parts, d, h6) = >>=-eq-ok (expect_prepared response) _ h5 in
      let (signed2, e, h7) = >>=-eq-ok (extract_euicc_signed2 x bin) _ h6 in
      subst (IsRead request s) (ok-injective h7) (record {
        request_names = required-eq-ok _ _ a;
        was_known = required-eq-ok _ _ b;
        decoded = c ∙ ap ok (expect_prepared_lem response parts.0 parts.1 parts.2 d);
        extracted = e;
      })

  -- The session's eUICC certificate carries a signature over what the eUICC signed and the
  -- signature that this session was given, and the signed transaction is the one of the request.
  pub record IsPrepared (i : DownloadInput) : Type 0 where
    pub smdp_signature : Bytes
    pub euicc : Cert
    pub session_signature : i.ss.smdp_signature2 ≡ some smdp_signature
    pub session_euicc : i.ss.euicc_cert ≡ some euicc
    pub signature_valid : ecdsa_verify x euicc i.signature (i.signed2 ++ smdp_signature) ≡ ok true
    pub same_tid : x.tools.h2b i.tid ≡ ok i.signed_tid

  check_prepared-IsPrepared : (i : DownloadInput) → check_prepared x g i ≡ ok tt → IsPrepared i
  unfolding check_prepared present
  check_prepared-IsPrepared i h =
      let (sig2, f, h1) = >>=-eq-ok (required (exception "TypeError") i.ss.smdp_signature2) _ h in
      let (euicc, k, h2) = >>=-eq-ok (required attribute_error i.ss.euicc_cert) _ h1 in
      let (valid, l, h3) = >>=-eq-ok (ecdsa_verify x euicc i.signature (i.signed2 ++ sig2)) _ h2 in
      let (_, m, h4) = >>=-eq-ok (raise_if (not valid) _) _ h3 in
      let (outer, n, h5) = >>=-eq-ok (x.tools.h2b i.tid) _ h4 in
      record {
        smdp_signature = sig2;
        euicc = euicc;
        session_signature = required-eq-ok _ _ f;
        session_euicc = required-eq-ok _ _ k;
        signature_valid = l ∙ ap ok (not_raised _ _ m);
        same_tid = n ∙ ap ok (bytes_beq_eq _ _ (not_raised _ _ h5));
      }

  -- The session that is stored has keys besides what the known session has.
  pub record IsKeyed (request : DownloadRequest) (s : Server) (tid : String) (new : Session)
      : Type 0 where
    pub input : DownloadInput
    pub ot : ℕ × String
    pub secret : Bytes
    pub is_read : IsRead request s input
    pub prepared : IsPrepared input
    pub same_tid : tid ≡ input.tid
    pub keyed : new ≡ with_keys input.ss input.otpk ot (x.public_key ot) secret

  pub download_steps-IsKeyed :
      (ot : ℕ × String) (request : DownloadRequest) (s : Server)
      (found : String × Session × String × UnprotectedProfilePackage)
      → download_steps x g ot request s ≡ ok found
      → IsKeyed request s found.0 found.1
  unfolding download_steps present
  download_steps-IsKeyed ot request s found h =
      let (i, a, h1) = >>=-eq-ok (download_input x g request s) _ h in
      let (_, b, h2) = >>=-eq-ok (check_prepared x g i) _ h1 in
      let (secret, _, h3) = >>=-eq-ok (x.tools.exchange ot i.otpk) _ h2 in
      let (m, _, h4) = >>=-eq-ok (required attribute_error i.ss.matching_id) _ h3 in
      let (content, _, h5) =
        >>=-eq-ok (required os_error (find (profile_path x g m) s.files)) _ h4 in
      subst
        (λ (r : String × Session × String × UnprotectedProfilePackage). IsKeyed request s r.0 r.1)
        (ok-injective h5)
        (record {
          input = i;
          ot = ot;
          secret = secret;
          is_read = download_input-IsRead request s i a;
          prepared = check_prepared-IsPrepared i b;
          same_tid = refl;
          keyed = refl;
        })
