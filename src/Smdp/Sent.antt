-- ===== src/Smdp/Sent.antt =====
-- What `getBoundProfilePackage` of pysim/osmo-smdpp.py has found and encoded when it returns.
use virtual_rsp.Common.{
  ◌≡◌, sym, ap, ◌∙◌, subst, [], ◌∷◌, inr, some, String, Result, ok, >>=-eq-ok, required-eq-ok,
  ok-injective, required, attribute_error, os_error, Result-cases, inl,
}
use virtual_rsp.Common.Exec.{continue-eq-ok, pure}
use virtual_rsp.Bsp.Padding.{Bytes}
use virtual_rsp.Bsp.Algo.{Bsp}
use virtual_rsp.Bsp.Stream.{encrypt_and_mac}
use virtual_rsp.BoundProfile.Tools.{
  UnprotectedProfilePackage, ProtectedProfilePackage, BoundProfilePackage,
}
use virtual_rsp.BoundProfile.Channel.{to_der, from_der, from_ppp, encode_inputs}
use virtual_rsp.BoundProfile.Encode.{keys_of, protected_as, protect, encode_from, encode}
use virtual_rsp.Common.Dict.{find}
use virtual_rsp.Smdp.Session.{Session}
use virtual_rsp.Smdp.Server.{Ext, Config, Server}
use virtual_rsp.Smdp.Authenticate.{Fields, present, profile_path}
use virtual_rsp.Smdp.Download.{
  DownloadRequest, DownloadInput, DrawnKeys, fixed_instance, with_keys, download_input,
  check_prepared, download_steps, bound_package, bound_reply, store_bound, recorded, set_session,
  deliver,
}

abbrev pub Found : Type 0
Found = String × Session × String × UnprotectedProfilePackage

module _ (x : Ext) (g : Config) where
  -- the session with the keys of one download
  abbrev pub keyed_session : DrawnKeys → DownloadInput → Bytes → Session
  keyed_session drawn i secret = with_keys i.ss i.otpk drawn.ot (x.public_key drawn.ot) secret

  pub record IsFound (drawn : DrawnKeys) (request : DownloadRequest) (s : Server)
      (i : DownloadInput) (found : Found) : Type 0 where
    pub secret : Bytes
    pub matching_id : String
    pub content : Bytes
    pub has_matching_id : i.ss.matching_id ≡ some matching_id
    pub has_file : find (profile_path x g matching_id) s.files ≡ some content
    pub exchanged : x.tools.exchange drawn.ot i.otpk ≡ ok secret
    pub is_found :
        (i.tid, keyed_session drawn i secret, matching_id, from_der content i.ss.profile_metadata)
        ≡ found

  pub download_steps-IsFound :
      (drawn : DrawnKeys) (request : DownloadRequest) (s : Server) (i : DownloadInput)
      (found : Found)
      → download_input x g request s ≡ ok i
      → download_steps x g drawn.ot request s ≡ ok found
      → IsFound drawn request s i found
  unfolding download_steps present
  download_steps-IsFound drawn request s i found e h =
      let (j, a, h1) = >>=-eq-ok (download_input x g request s) _ h in
      let (_, b, h2) = >>=-eq-ok (check_prepared x g j) _ h1 in
      let (secret, c, h3) = >>=-eq-ok (x.tools.exchange drawn.ot j.otpk) _ h2 in
      let (m, d, h4) = >>=-eq-ok (required attribute_error j.ss.matching_id) _ h3 in
      let (content, f, h5) =
        >>=-eq-ok (required os_error (find (profile_path x g m) s.files)) _ h4 in
      let same : j ≡ i = ok-injective (sym a ∙ e) in
      subst (λ (k : DownloadInput). IsFound drawn request s k found) same
        (record {
          secret = secret;
          matching_id = m;
          content = content;
          has_matching_id = required-eq-ok _ _ d;
          has_file = required-eq-ok _ _ f;
          exchanged = c;
          is_found = ok-injective h5;
        })

  -- A reply and the package in it.
  pub record IsSent (nonce : Bytes) (ss : Session) (upp : UnprotectedProfilePackage) (tid : String)
      (fields : Fields) : Type 0 where
    pub ppp : ProtectedProfilePackage
    pub after : Bsp
    pub bpp : Bytes
    pub bound : BoundProfilePackage
    pub is_protected : protect x.tools upp fixed_instance ≡ (ok ppp, after)
    pub is_encoded :
        encode x.tools ss (x.sign g.dp_pb.priv_key nonce) (from_ppp ppp) ≡ ok (bpp, bound)
    pub is_reply : fields ≡ ("transactionId", tid) ∷ ("boundProfilePackage", x.b64encode bpp) ∷ []

  bound_package_lem :
      (nonce : Bytes) (ss : Session) (ppp : ProtectedProfilePackage) (bpp : Bytes)
      → bound_package x g nonce ss ppp ≡ ok bpp
      → (b : BoundProfilePackage) × (encode x.tools ss
            (x.sign g.dp_pb.priv_key nonce)
            (from_ppp ppp)
          ≡ ok (bpp, b))
  unfolding bound_package
  bound_package_lem nonce ss ppp bpp h =
      let (out, a, h1) =
        >>=-eq-ok (encode x.tools ss (x.sign g.dp_pb.priv_key nonce) (from_ppp ppp)) _ h in
      (out.1, a ∙ ap (λ (b : Bytes). ok (b, out.1)) (ok-injective h1))

  pub deliver-IsSent :
      (nonce : Bytes) (now : String) (tid : String) (ss : Session) (m : String)
      (upp : UnprotectedProfilePackage) (s : Server) (fields : Fields)
      → (deliver x g nonce now (tid, ss, m, upp) s).0 ≡ ok fields
      → IsSent nonce ss upp tid fields
  unfolding deliver store_bound bound_reply
  deliver-IsSent nonce now tid ss m upp s fields h =
      let (ppp, a, h1, _) =
        continue-eq-ok (protect x.tools upp fixed_instance).0 (store_bound x g nonce tid ss)
          (recorded x g now tid ss m s) h in
      let (bpp, b, h2, _) =
        continue-eq-ok (bound_package x g nonce ss ppp) (bound_reply x g tid)
          (set_session tid ss (recorded x g now tid ss m s)) h1 in
      let (bound, e) = bound_package_lem nonce ss ppp bpp b in
      record {
        ppp = ppp;
        after = (protect x.tools upp fixed_instance).1;
        bpp = bpp;
        bound = bound;
        is_protected =
            ap (λ (r : Result ProtectedProfilePackage). (r, (protect x.tools upp fixed_instance).1))
              a;
        is_encoded = e;
        is_reply = sym (ok-injective h2);
      }

  -- What `encode` has computed when it returns.
  pub encode_had_inputs :
      (sign : Bytes → Bytes) (ss : Session) (b b' : BoundProfilePackage) (bpp : Bytes)
      → encode x.tools ss sign b ≡ ok (bpp, b')
      → (bsp : Bsp) × (isc : Bytes) × (smr : Bytes) × (encode_inputs x.tools ss sign b
          ≡ ok (bsp, isc, smr))
  unfolding encode encode_from
  encode_had_inputs sign ss b b' bpp h = elim (Result-cases (encode_inputs x.tools ss sign b)) [
    | inl ((bsp, isc, smr), e) ↦ (bsp, isc, smr, e)
    | inr (e, k) ↦ let bad = ap (encode_from x.tools b) (sym k) ∙ h in absurd (cc)
  ]

  pub protect_keeps_metadata :
      (upp : UnprotectedProfilePackage) (ppp : ProtectedProfilePackage) (b b' : Bsp)
      → protect x.tools upp b ≡ (ok ppp, b')
      → ppp.metadata ≡ upp.metadata
  unfolding protect protected_as
  protect_keeps_metadata upp ppp b b' h =
      let (outs, _, h1, _) =
        continue-eq-ok (encrypt_and_mac x.tools.crypto 0x86 (to_der upp) b).0
          (λ outs. pure (protected_as upp (keys_of b) outs))
          (encrypt_and_mac x.tools.crypto 0x86 (to_der upp) b).1
          (ap (λ (r : Result ProtectedProfilePackage × Bsp). r.0) h) in
      sym (ap (λ (p : ProtectedProfilePackage). p.metadata) (ok-injective h1))
