-- ===== src/BoundProfile/Agreement.antt =====
-- The eUICC of pysim/pySim/esim/es8p.py derives the instance that the server encodes with, from
-- the secure channel request that the server sends.
use virtual_rsp.Common.{
  ℕ, ◌≡◌, refl, sym, ap, ◌∙◌, subst, some, String, ok, >>=-eq-ok, required, required-eq-ok,
  ok-injective, exception,
}
use virtual_rsp.Bsp.Padding.{Bytes}
use virtual_rsp.Bsp.Algo.{Bsp}
use virtual_rsp.Bsp.Keys.{from_kdf, bsp_key_derivation}
use virtual_rsp.Smdp.Eid.{Text}
use virtual_rsp.Smdp.Session.{
  Session, ProfileMetadata, StoreMetadata, gen_store_metadata_request, notification_infos,
}
use virtual_rsp.BoundProfile.Tools.{Tools, SecureChannel, BoundProfilePackage, from_bytes}
use virtual_rsp.BoundProfile.Channel.{
  secure_channel, gen_initialise_secure_channel, package_metadata, session_instance, encode_inputs,
}
use virtual_rsp.BoundProfile.Decode.{channel_instance}

some-injective {ℓ} : {A : Type ℓ} {a b : A} → some a ≡ some b → a ≡ b
some-injective h = cc

module _ (t : Tools) where
  -- What the eUICC needs of the session is in it.
  record IsKeyed (ss : Session) (bsp : Bsp) : Type 0 where
    eid_text : Text
    eid : Bytes
    host : Bytes
    secret : Bytes
    has_eid : ss.eid ≡ some eid_text
    eid_decoded : t.eid_bytes eid_text ≡ ok eid
    has_host : ss.host_id ≡ some host
    has_secret : ss.shared_secret ≡ some secret
    derived : from_kdf t.kdf t.crypto.encode_len secret 0x88 16 host eid ≡ ok bsp

  session_instance-IsKeyed :
      (ss : Session) (bsp : Bsp) → session_instance t ss ≡ ok bsp → IsKeyed ss bsp
  unfolding session_instance
  session_instance-IsKeyed ss bsp h =
      let (text, a, h1) = >>=-eq-ok (required (exception "TypeError") ss.eid) _ h in
      let (eid, b, h2) = >>=-eq-ok (t.eid_bytes text) _ h1 in
      let (host, c, h3) = >>=-eq-ok (required (exception "TypeError") ss.host_id) _ h2 in
      let (secret, d, h4) = >>=-eq-ok (required (exception "TypeError") ss.shared_secret) _ h3 in
      record {
        eid_text = text;
        eid = eid;
        host = host;
        secret = secret;
        has_eid = required-eq-ok _ _ a;
        eid_decoded = b;
        has_host = required-eq-ok _ _ c;
        has_secret = required-eq-ok _ _ d;
        derived = h4;
      }

  record IsChannel (ss : Session) (host : Bytes) (i : SecureChannel) : Type 0 where
    tid : Bytes
    otpk : Bytes
    has_otpk : ss.smdp_otpk ≡ some otpk
    is_channel : secure_channel tid host otpk ≡ i

  gen_initialise-IsChannel :
      (sign : Bytes → Bytes) (ss : Session) (host : Bytes) (i : SecureChannel) (signature : Bytes)
      → gen_initialise_secure_channel t sign ss.transaction_id host ss.smdp_otpk ss.euicc_otpk
        ≡ ok (i, signature)
      → IsChannel ss host i
  unfolding gen_initialise_secure_channel
  gen_initialise-IsChannel sign ss host i signature h =
      let (tid, a, h1) = >>=-eq-ok (t.h2b ss.transaction_id) _ h in
      let (otpk, b, h2) = >>=-eq-ok (required (exception "TypeError") ss.smdp_otpk) _ h1 in
      let (peer, c, h3) = >>=-eq-ok (required (exception "TypeError") ss.euicc_otpk) _ h2 in
      record {
        tid = tid;
        otpk = otpk;
        has_otpk = required-eq-ok _ _ b;
        is_channel = ap (λ (p : SecureChannel × Bytes). p.0) (ok-injective h3);
      }

  metadata_encoded :
      (m : ProfileMetadata) (smr : Bytes)
      → gen_store_metadata_request t.encode_metadata m ≡ ok smr
      → (s : StoreMetadata) × (t.encode_metadata s ≡ smr)
  unfolding gen_store_metadata_request
  metadata_encoded m smr h =
      let (infos, a, h1) = >>=-eq-ok (notification_infos m.notifications) _ h in
      (_, ok-injective h1)

  block_nr-from_kdf :
      (secret host eid : Bytes) (bsp : Bsp)
      → from_kdf t.kdf t.crypto.encode_len secret 0x88 16 host eid ≡ ok bsp
      → bsp.block_nr ≡ 1
  unfolding from_kdf bsp_key_derivation
  block_nr-from_kdf secret host eid bsp h = sym (ap (λ (b : Bsp). b.block_nr) (ok-injective h))

  -- The server sends `isc`, from which the eUICC with the key pair `ot` derives the secret and the
  -- instance of the server.
  pub record IsAgreed (ot : ℕ × String) (eid : Text) (secret : Bytes) (bsp : Bsp) (isc smr : Bytes)
      : Type 0 where
    pub channel : SecureChannel
    pub signature : Bytes
    pub metadata : StoreMetadata
    pub is_channel : t.encode_channel channel signature ≡ isc
    pub is_metadata : t.encode_metadata metadata ≡ smr
    pub agreed : channel_instance t ot eid channel ≡ ok (secret, bsp)
    pub starts : bsp.block_nr ≡ 1

  channel_instance_lem :
      (ot : ℕ × String) (text : Text) (secret eid tid host otpk : Bytes) (bsp : Bsp)
      → t.exchange ot otpk ≡ ok secret
      → t.eid_bytes text ≡ ok eid
      → from_kdf t.kdf t.crypto.encode_len secret 0x88 16 host eid ≡ ok bsp
      → channel_instance t ot text (secure_channel tid host otpk) ≡ ok (secret, bsp)
  unfolding channel_instance secure_channel from_bytes
  channel_instance_lem ot text secret eid tid host otpk bsp x e k = rw x (rw e (rw k refl))

  agreed_lem :
      (ss : Session) (host otpk secret : Bytes) (i : SecureChannel) (bsp : Bsp) (ot : ℕ × String)
      (eid : Text)
      → IsKeyed ss bsp
      → IsChannel ss host i
      → ss.host_id ≡ some host
      → ss.eid ≡ some eid
      → ss.smdp_otpk ≡ some otpk
      → ss.shared_secret ≡ some secret
      → t.exchange ot otpk ≡ ok secret
      → channel_instance t ot eid i ≡ ok (secret, bsp)
  agreed_lem ss host otpk secret i bsp ot eid k m c e o s x =
      let e1 : k.eid_text ≡ eid = some-injective (sym k.has_eid ∙ e) in
      let h1 : k.host ≡ host = some-injective (sym k.has_host ∙ c) in
      let s1 : k.secret ≡ secret = some-injective (sym k.has_secret ∙ s) in
      let o1 : m.otpk ≡ otpk = some-injective (sym m.has_otpk ∙ o) in
      subst (λ (j : SecureChannel). channel_instance t ot eid j ≡ ok (secret, bsp)) m.is_channel
        (channel_instance_lem ot eid secret k.eid m.tid host m.otpk bsp (rw o1 x)
          (rw (← e1) k.eid_decoded) (rw (← s1) (rw (← h1) k.derived)))

  pub encode_inputs-IsAgreed :
      (sign : Bytes → Bytes) (ss : Session) (b : BoundProfilePackage) (ot : ℕ × String) (eid : Text)
      (otpk secret : Bytes) (bsp : Bsp) (isc smr : Bytes)
      → encode_inputs t ss sign b ≡ ok (bsp, isc, smr)
      → ss.eid ≡ some eid
      → ss.smdp_otpk ≡ some otpk
      → ss.shared_secret ≡ some secret
      → t.exchange ot otpk ≡ ok secret
      → IsAgreed ot eid secret bsp isc smr
  unfolding encode_inputs
  encode_inputs-IsAgreed sign ss b ot eid otpk secret bsp isc smr h e o s x =
      let (b1, k, h1) = >>=-eq-ok (session_instance t ss) _ h in
      let (host, c, h2) = >>=-eq-ok (required (exception "TypeError") ss.host_id) _ h1 in
      let ((i, signature), g, h3) =
        >>=-eq-ok
          (gen_initialise_secure_channel t sign ss.transaction_id host ss.smdp_otpk ss.euicc_otpk) _
          h2 in
      let (m, _, h4) = >>=-eq-ok (package_metadata t b) _ h3 in
      let (smr1, q, h5) = >>=-eq-ok (gen_store_metadata_request t.encode_metadata m) _ h4 in
      let keyed = session_instance-IsKeyed ss b1 k in
      let made = gen_initialise-IsChannel sign ss host i signature g in
      let (sm, sent) = metadata_encoded m smr1 q in
      let same = ok-injective h5 in
      let same_bsp : b1 ≡ bsp = ap (λ (p : Bsp × Bytes × Bytes). p.0) same in
      record {
        channel = i;
        signature = signature;
        metadata = sm;
        is_channel = ap (λ (p : Bsp × Bytes × Bytes). p.1) same;
        is_metadata = sent ∙ ap (λ (p : Bsp × Bytes × Bytes). p.2) same;
        agreed =
            subst (λ (c : Bsp). channel_instance t ot eid i ≡ ok (secret, c)) same_bsp
              (agreed_lem ss host otpk secret i b1 ot eid keyed made (required-eq-ok _ _ c) e o s
                x);
        starts =
            subst (λ (c : Bsp). c.block_nr ≡ 1) same_bsp
              (block_nr-from_kdf keyed.secret keyed.host keyed.eid b1 keyed.derived);
      }
