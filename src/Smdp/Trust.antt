-- ===== src/Smdp/Trust.antt =====
-- What a client has shown that `authenticateClient` of pysim/osmo-smdpp.py accepts.
use virtual_rsp.Common.{
  ◌≡◌, refl, sym, ap, ◌∙◌, subst, Bool, true, false, not, some, Result, ok, err, >>=-eq-ok,
  required-eq-ok, ok-injective, raise_if, required, key_error, api_error, index_error,
  attribute_error, bytes_beq, bytes_beq_eq, Error,
}
use virtual_rsp.Common.Exec.{continue-eq-ok}
use virtual_rsp.Bsp.Padding.{Bytes}
use virtual_rsp.Certs.{
  not_found, Cert, cert_get_auth_key_id, add_intermediate_cert, new_set, verify_cert_chain,
}
use virtual_rsp.Certs.Chain.{IsSigned}
use virtual_rsp.Certs.Issued.{IsIssued, verify_cert_chain-IsIssued}
use virtual_rsp.Common.Dict.{Dict, find, put}
use virtual_rsp.Smdp.Eid.{Text, validate_eid_range}
use virtual_rsp.Smdp.Session.{Session, gen_store_metadata_request}
use virtual_rsp.Smdp.Server.{
  Ext, Config, Server, AuthOk, AuthResponse, authenticate_error, authenticate_ok, ecdsa_verify,
  extract_euicc_signed1,
}
use virtual_rsp.Smdp.Authenticate.{
  Fields, AuthRequest, ci_get_cert_for_pkid, present, refuse_chain, refuse_decoding, expect_ok,
  selected, check_euicc, profile_file, profile_metadata, authenticated, AuthInput, auth_input,
  auth_answer, auth_steps, keep_session, authenticate_client,
}

pub not_raised : (e : Error) (b : Bool) → raise_if (not b) e ≡ ok tt → b ≡ true
not_raised e true h = refl
not_raised e false h = absurd (cc)

refuse_chain_lem : (r : Result (Unit {0})) → refuse_chain r ≡ ok tt → r ≡ ok tt
unfolding refuse_chain
refuse_chain_lem (ok u) h = h
refuse_chain_lem (err e) h = absurd (cc)

refuse_decoding_lem {ℓ} : {A : Type ℓ} (r : Result A) {a : A} → refuse_decoding r ≡ ok a → r ≡ ok a
unfolding refuse_decoding
refuse_decoding_lem (ok u) h = h
refuse_decoding_lem (err e) h = absurd (cc)

expect_ok_lem : (a : AuthResponse) {r : AuthOk} → expect_ok a ≡ ok r → a ≡ authenticate_ok r
unfolding expect_ok
expect_ok_lem authenticate_error h = absurd (cc)
expect_ok_lem (authenticate_ok r) h = ap authenticate_ok (ok-injective h)

module _ (x : Ext) (g : Config) where
  -- The certificates of an eUICC and its EID under the root with a key identifier: the root is one
  -- of the server's and has signed itself, the eUICC's certificate comes from it directly or by way
  -- of the EUM's, which names the root, and the EID is the one of the certificate and in the range
  -- of the EUM.
  pub record IsTrusted (ci_id : Bytes) (euicc eum : Cert) (eid : Text) : Type 0 where
    pub root : Cert
    pub root_known : ci_get_cert_for_pkid g.ci_certs ci_id ≡ ok (some root)
    pub root_signed : IsSigned x.verify root root
    pub issued : IsIssued x.verify root eum euicc
    pub eum_names_root : eum.auth_key_id ≡ some ci_id
    pub eid_certified : euicc.serial_number ≡ some eid
    pub eid_permitted : validate_eid_range eid eum ≡ true

  -- What `check_euicc` has checked.
  check_euicc_inversion :
      (ss : Session) (r : AuthOk) (signed1 : Bytes) (euicc eum : Cert) (eid : Text)
      → check_euicc x g ss r signed1 euicc eum ≡ ok eid
      → IsTrusted ss.ci_cert_id euicc eum eid
        × (ecdsa_verify x euicc r.signature1 signed1 ≡ ok true)
        × (r.server_challenge ≡ ss.server_challenge)
  unfolding check_euicc cert_get_auth_key_id present
  check_euicc_inversion ss r signed1 euicc eum eid h =
      let (aki, a, h1) = >>=-eq-ok (required not_found eum.auth_key_id) _ h in
      let (_, b, h2) = >>=-eq-ok (raise_if (not (bytes_beq aki ss.ci_cert_id)) _) _ h1 in
      let (found, c, h3) = >>=-eq-ok (ci_get_cert_for_pkid g.ci_certs ss.ci_cert_id) _ h2 in
      let (ci, d, h4) = >>=-eq-ok (required attribute_error found) _ h3 in
      let (cs0, e, h5) = >>=-eq-ok (new_set x.verify ci) _ h4 in
      let (cs, f, h6) = >>=-eq-ok (add_intermediate_cert eum cs0) _ h5 in
      let (_, k, h7) = >>=-eq-ok (refuse_chain (verify_cert_chain x.verify cs euicc 100)) _ h6 in
      let (valid, l, h8) = >>=-eq-ok (ecdsa_verify x euicc r.signature1 signed1) _ h7 in
      let (_, m, h9) = >>=-eq-ok (raise_if (not valid) _) _ h8 in
      let (eid', n, h10) = >>=-eq-ok (required index_error euicc.serial_number) _ h9 in
      let (_, o, h11) = >>=-eq-ok (raise_if (not (validate_eid_range eid' eum)) _) _ h10 in
      let (_, p, h12) =
        >>=-eq-ok (raise_if (not (bytes_beq r.server_challenge ss.server_challenge)) _) _ h11 in
      let same = ok-injective h12 in
      let (self, issued) =
        verify_cert_chain-IsIssued x.verify ci eum euicc cs0 cs 100 e f (refuse_chain_lem _ k) in
      (
        record {
          root = ci;
          root_known = c ∙ ap ok (required-eq-ok _ _ d);
          root_signed = self;
          issued = issued;
          eum_names_root = required-eq-ok _ _ a ∙ ap some (bytes_beq_eq _ _ (not_raised _ _ b));
          eid_certified = required-eq-ok _ _ n ∙ ap some same;
          eid_permitted = ap (λ t. validate_eid_range t eum) (sym same) ∙ not_raised _ _ o;
        },
        l ∙ ap ok (not_raised _ _ m),
        bytes_beq_eq _ _ (not_raised _ _ p),
      )

  -- What `auth_input` has read.
  pub record IsInput (request : AuthRequest) (i : AuthInput) : Type 0 where
    pub request_names : request.transaction_id ≡ some i.tid
    pub decoded : x.decode_authenticate i.response_bin ≡ ok (authenticate_ok i.answer)
    pub extracted : extract_euicc_signed1 x i.response_bin ≡ ok i.signed1

  auth_input-IsInput :
      (request : AuthRequest) (i : AuthInput) → auth_input x g request ≡ ok i → IsInput request i
  unfolding auth_input
  auth_input-IsInput request i h =
      let (tid, b, h1) =
        >>=-eq-ok (required (key_error "transactionId") request.transaction_id) _ h in
      let (b64, _, h2) =
        >>=-eq-ok (required (key_error "authenticateServerResponse") request.response) _ h1 in
      let (bin, _, h3) = >>=-eq-ok (x.b64decode b64) _ h2 in
      let (response, c, h4) = >>=-eq-ok (refuse_decoding (x.decode_authenticate bin)) _ h3 in
      let (r, d, h5) = >>=-eq-ok (expect_ok response) _ h4 in
      let (signed1, e, h6) = >>=-eq-ok (extract_euicc_signed1 x bin) _ h5 in
      let (euicc_bin, _, h7) = >>=-eq-ok (x.encode_certificate r.euicc_certificate) _ h6 in
      let (eum_bin, _, h8) = >>=-eq-ok (x.encode_certificate r.eum_certificate) _ h7 in
      let (euicc, _, h9) = >>=-eq-ok (x.load_der euicc_bin) _ h8 in
      let (eum, _, h10) = >>=-eq-ok (x.load_der eum_bin) _ h9 in
      subst (IsInput request) (ok-injective h10) (record {
        request_names = required-eq-ok _ _ b;
        decoded = refuse_decoding_lem _ c ∙ ap ok (expect_ok_lem response d);
        extracted = e;
      })

  -- The session that is stored again.
  pub record IsBound (i : AuthInput) (old : Session) (eid : Text) (new : Session) : Type 0 where
    pub new_euicc : new.euicc_cert ≡ some i.euicc
    pub new_eum : new.eum_cert ≡ some i.eum
    pub new_eid : new.eid ≡ some eid
    pub same_root : new.ci_cert_id ≡ old.ci_cert_id
    pub same_tid : new.transaction_id ≡ old.transaction_id

  auth_answer-IsBound :
      (nonce : Bytes) (i : AuthInput) (ss : Session) (eid : Text) (files : Dict Bytes)
      (out : Session × Fields)
      → auth_answer x g nonce i ss eid files ≡ ok out
      → IsBound i ss eid out.0
  unfolding auth_answer authenticated
  auth_answer-IsBound nonce i ss eid files out h =
      let (m, _, h1) = >>=-eq-ok (selected i.answer.ctx_params) _ h in
      let (content, _, h2) = >>=-eq-ok (profile_file x g m files) _ h1 in
      let (metadata, _, h3) = >>=-eq-ok (profile_metadata x g m content) _ h2 in
      let (_, _, h4) =
        >>=-eq-ok (gen_store_metadata_request x.tools.encode_metadata metadata) _ h3 in
      let (_, _, h5) = >>=-eq-ok (x.tools.h2b ss.transaction_id) _ h4 in
      subst (λ (o : Session × Fields). IsBound i ss eid o.0) (ok-injective h5)
        (record {
          new_euicc = refl;
          new_eum = refl;
          new_eid = refl;
          same_root = refl;
          same_tid = refl;
        })

  -- What a successful `authenticateClient` has checked, and the server after it.
  pub record Accepted (request : AuthRequest) (s after : Server) : Type 0 where
    pub input : AuthInput
    pub old : Session
    pub new : Session
    pub eid : Text
    pub is_input : IsInput request input
    pub was_known : find input.tid s.rss ≡ some old
    pub stored : after ≡ record s { rss = put input.tid new s.rss }
    pub trusted : IsTrusted old.ci_cert_id input.euicc input.eum eid
    pub signature_valid : ecdsa_verify x input.euicc input.answer.signature1 input.signed1 ≡ ok true
    pub challenge_returned : input.answer.server_challenge ≡ old.server_challenge
    pub is_bound : IsBound input old eid new

  -- If `authenticateClient` answers, then the session of the request was known; the eUICC returned
  -- its server challenge in an answer whose signature holds under the eUICC's certificate; that
  -- certificate and the EID are trusted under the root that the session was opened with; and the
  -- server differs only in this session, which now holds the certificates and the EID.
  pub authenticate_client_lem :
      (nonce : Bytes) (request : AuthRequest) (s : Server) {fields : Fields}
      → (authenticate_client x g nonce request s).0 ≡ ok fields
      → Accepted request s (authenticate_client x g nonce request s).1
  unfolding authenticate_client auth_steps keep_session
  authenticate_client_lem nonce request s h =
      let (found, a, _, same) =
        continue-eq-ok (auth_steps x g nonce request s) (keep_session x g) s h in
      let (i, b, h1) = >>=-eq-ok (auth_input x g request) _ a in
      let (ss, c, h2) =
        >>=-eq-ok (required (api_error "8.10.1" "3.9" "Unknown") (find i.tid s.rss)) _ h1 in
      let (eid, d, h3) = >>=-eq-ok (check_euicc x g ss i.answer i.signed1 i.euicc i.eum) _ h2 in
      let (out, e, h4) = >>=-eq-ok (auth_answer x g nonce i ss eid s.files) _ h3 in
      let (trusted, signature, challenge) =
        check_euicc_inversion ss i.answer i.signed1 i.euicc i.eum eid d in
      record {
        input = i;
        old = ss;
        new = out.0;
        eid = eid;
        is_input = auth_input-IsInput request i b;
        was_known = required-eq-ok _ _ c;
        stored =
            ap (λ (m : Result Fields × Server). m.1) same
            ∙ ap (λ f. (keep_session x g f s).1) (sym (ok-injective h4));
        trusted = trusted;
        signature_valid = signature;
        challenge_returned = challenge;
        is_bound = auth_answer-IsBound nonce i ss eid s.files out e;
      }
