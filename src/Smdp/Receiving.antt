-- ===== src/Smdp/Receiving.antt =====
-- What the eUICC reads in the package that `getBoundProfilePackage` of pysim/osmo-smdpp.py returns.
use virtual_rsp.Common.{ℕ, ◌≡◌, refl, sym, ap, ◌∙◌, [], ◌∷◌, inr, some, String, ok, ok-injective}
use virtual_rsp.Common.Exec.{continue-eq-ok}
use virtual_rsp.Bsp.Padding.{Bytes}
use virtual_rsp.Bsp.Algo.{Bsp}
use virtual_rsp.BoundProfile.Tools.{
  IsTools, wrap_as_der_tlv, ProtectedProfilePackage, BoundProfilePackage,
}
use virtual_rsp.BoundProfile.Channel.{from_der, from_ppp, encode_inputs}
use virtual_rsp.BoundProfile.Encode.{keys_of}
use virtual_rsp.BoundProfile.Decode.{Decoded, decode}
use virtual_rsp.BoundProfile.Contents.{IsSmall}
use virtual_rsp.BoundProfile.RoundTrip.{decode-encode}
use virtual_rsp.Smdp.Eid.{Text}
use virtual_rsp.Common.Dict.{find}
use virtual_rsp.Smdp.Server.{Ext, Config, Server}
use virtual_rsp.Smdp.Authenticate.{Fields, profile_path}
use virtual_rsp.Smdp.Download.{
  DownloadRequest, DownloadInput, DrawnKeys, fixed_instance, with_keys, download_input,
  download_steps, deliver, get_bound_profile_package,
}
use virtual_rsp.Smdp.Sent.{
  Found, keyed_session, download_steps-IsFound, IsSent, deliver-IsSent, encode_had_inputs,
  protect_keeps_metadata,
}

module _ (x : Ext) (g : Config) where
  -- Each plaintext of the package has less than 1 MiB.
  pub record IsWithinLimits (drawn : DrawnKeys) (s : Server) (i : DownloadInput) : Type 0 where
    pub small_files :
        (path : String) (content : Bytes) → find path s.files ≡ some content → IsSmall content
    pub small_configuration : IsSmall x.tools.configure_isdp
    pub small_keys : IsSmall (x.tools.encode_keys (keys_of fixed_instance))
    pub small_inputs :
        (secret : Bytes) (ppp : ProtectedProfilePackage) (bsp : Bsp) (isc smr : Bytes)
        → ppp.metadata ≡ i.ss.profile_metadata
        → encode_inputs x.tools
            (keyed_session x g drawn i secret)
            (x.sign g.dp_pb.priv_key drawn.nonce)
            (from_ppp ppp)
          ≡ ok (bsp, isc, smr)
        → IsSmall isc × IsSmall smr

  -- The reply holds a package whose sequence this eUICC decodes to the file of the session's
  -- matching ID.
  pub record IsReceived (ot : ℕ × String) (eid : Text) (s : Server) (i : DownloadInput)
      (fields : Fields) : Type 0 where
    pub matching_id : String
    pub bpp_seq : Bytes
    pub decoded : Decoded
    pub has_matching_id : i.ss.matching_id ≡ some matching_id
    pub has_file : find (profile_path x g matching_id) s.files ≡ some decoded.upp
    pub is_decoded : decode x.tools ot eid bpp_seq ≡ ok decoded
    pub is_reply :
        fields
        ≡ ("transactionId", i.tid)
          ∷ ("boundProfilePackage", x.b64encode (wrap_as_der_tlv x.tools 0xBF36 bpp_seq))
          ∷ []

  IsSent-IsReceived :
      (drawn : DrawnKeys) (s : Server) (i : DownloadInput) (ot : ℕ × String) (eid : Text)
      (fields : Fields) (secret content : Bytes) (m : String)
      → IsTools x.tools
      → x.tools.exchange ot (x.public_key drawn.ot) ≡ ok secret
      → i.ss.matching_id ≡ some m
      → find (profile_path x g m) s.files ≡ some content
      → i.ss.eid ≡ some eid
      → IsWithinLimits drawn s i
      → IsSent x g drawn.nonce
          (keyed_session x g drawn i secret)
          (from_der content i.ss.profile_metadata)
          i.tid
          fields
      → IsReceived ot eid s i fields
  unfolding with_keys from_der from_ppp
  IsSent-IsReceived drawn s i ot eid fields secret content m laws shared named file q limits sent =
      let ss = keyed_session x g drawn i secret in
      let sign = x.sign g.dp_pb.priv_key drawn.nonce in
      let b = from_ppp sent.ppp in
      let upp = from_der content i.ss.profile_metadata in
      let (bsp, isc, smr, inputs) =
        encode_had_inputs x g sign ss b sent.bound sent.bpp sent.is_encoded in
      let (small_isc, small_smr) =
        limits.small_inputs secret sent.ppp bsp isc smr
          (protect_keeps_metadata x g upp sent.ppp fixed_instance sent.after sent.is_protected)
          inputs in
      let (bpp_seq, b', d, encoded, decoded, same, _, _, _) =
        decode-encode x.tools laws sign ss b upp ot eid (x.public_key drawn.ot) secret isc smr bsp
          inputs
          (inr (
            fixed_instance, sent.after, sent.ppp, refl, sent.is_protected, refl, limits.small_keys,
          ))
          q refl refl shared small_isc limits.small_configuration small_smr
          (limits.small_files (profile_path x g m) content file) in
      let wrapped : sent.bpp ≡ wrap_as_der_tlv x.tools 0xBF36 bpp_seq =
        ap (λ (r : Bytes × BoundProfilePackage). r.0)
          (ok-injective (sym sent.is_encoded ∙ encoded)) in
      record {
        matching_id = m;
        bpp_seq = bpp_seq;
        decoded = d;
        has_matching_id = named;
        has_file = file ∙ ap (λ (c : Bytes). some c) (sym same);
        is_decoded = decoded;
        is_reply =
            sent.is_reply
            ∙ ap
                (λ (bpp : Bytes).
                  ("transactionId", i.tid) ∷ ("boundProfilePackage", x.b64encode bpp) ∷ [])
                wrapped;
      }

  -- If `getBoundProfilePackage` returns, then its reply holds a package whose sequence the eUICC
  -- decodes to the content of the profile file that the session's matching ID names: the eUICC
  -- that has the EID of the session and the key pair of the one-time public key in the request.
  -- The key exchange gives both sides one secret, and each plaintext has less than 1 MiB.
  pub get_bound_profile_package-IsReceived :
      (drawn : DrawnKeys) (now : String) (request : DownloadRequest) (s : Server)
      (i : DownloadInput) (ot : ℕ × String) (eid : Text) (fields : Fields)
      → IsTools x.tools
      → ((a b : ℕ × String)
          → x.tools.exchange a (x.public_key b) ≡ x.tools.exchange b (x.public_key a))
      → download_input x g request s ≡ ok i
      → i.otpk ≡ x.public_key ot
      → i.ss.eid ≡ some eid
      → IsWithinLimits drawn s i
      → (get_bound_profile_package x g drawn now request s).0 ≡ ok fields
      → IsReceived ot eid s i fields
  unfolding get_bound_profile_package with_keys from_der from_ppp
  get_bound_profile_package-IsReceived drawn now request s i ot eid fields laws dh e p q limits h =
      let (found, a, h1, _) =
        continue-eq-ok (download_steps x g drawn.ot request s) (λ f. deliver x g drawn.nonce now f)
          s h in
      let f = download_steps-IsFound x g drawn request s i found e a in
      let upp = from_der f.content i.ss.profile_metadata in
      let ss = keyed_session x g drawn i f.secret in
      let h2 : (deliver x g drawn.nonce now (i.tid, ss, f.matching_id, upp) s).0 ≡ ok fields =
        ap (λ (r : Found). (deliver x g drawn.nonce now r s).0) f.is_found ∙ h1 in
      let sent = deliver-IsSent x g drawn.nonce now i.tid ss f.matching_id upp s fields h2 in
      let shared : x.tools.exchange ot (x.public_key drawn.ot) ≡ ok f.secret =
        dh ot drawn.ot ∙ ap (x.tools.exchange drawn.ot) (sym p) ∙ f.exchanged in
      IsSent-IsReceived drawn s i ot eid fields f.secret f.content f.matching_id laws shared
        f.has_matching_id f.has_file q limits sent
