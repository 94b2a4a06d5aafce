-- ===== src/Smdp/Startup/Running.antt =====
-- The key pairs, the sessions and the history of a server of pysim/osmo-smdpp.py that has started.
use Prim.Native.String.{◌++◌ as concat}
use virtual_rsp.Common.{
  [], Bool, true, false, some, String, Result, ok, err, >>=-eq-ok, ok-injective, ◌≡◌, refl, sym, ap,
  ◌∙◌, subst,
}
use virtual_rsp.Bsp.Padding.{Bytes}
use virtual_rsp.Common.Exec.{continue}
use virtual_rsp.Certs.{Cert, cert_policy_has_oid}
use virtual_rsp.Certs.Keys.{
  KeyPair, new_pair, check_policy, read_cert, cert_from_der_file, privkey_from_pem_file,
}
use virtual_rsp.Smdp.Store.{RspSessionStore, open_shelf, new_store}
use virtual_rsp.Smdp.History.File.{load}
use virtual_rsp.Smdp.Authenticate.{join_path, ci_get_cert_for_pkid}
use virtual_rsp.Smdp.Startup.{
  id_rsp_role_dp_auth_v2, id_rsp_role_dp_pb_v2, Arguments, Started, object_after, cert_path,
  key_path, Disk, load_certs_from_path, load_files, suffix, load_pair, open_store, start_server,
}
use virtual_rsp.Smdp.Startup.Checked.{IsCiFile, guarded-eq-ok, load_files-All, found-All}

object_after-eq-ok : (r : Result (Unit {0})) (k k' : KeyPair) → object_after (r, k) ≡ ok k' → k ≡ k'
unfolding object_after
object_after-eq-ok (ok _) k k' h = ok-injective h
object_after-eq-ok (err e) k k' h = absurd (cc)

module _ {A : Type 0} (f : A → KeyPair → KeyPair) where
  object_after-continue :
      (r : Result A) (k k' : KeyPair)
      → object_after (continue r (λ a k. (ok tt, f a k)) k) ≡ ok k'
      → (a : A) × (r ≡ ok a) × (f a k ≡ k')
  unfolding object_after
  object_after-continue (ok a) k k' h = (a, refl, ok-injective h)
  object_after-continue (err e) k k' h = absurd (cc)

module _ (w : Disk) where
  -- A certificate with a policy and a key, which are read from two files.
  pub record IsPair (oid certificate key : String) (k : KeyPair) : Type 0 where
    pub cert : Cert
    pub cert_content : Bytes
    pub priv_key : Bytes
    pub key_content : Bytes
    pub same :
        k ≡ record { required_policy_oid = some oid; cert = some cert; priv_key = some priv_key }
    pub cert_read : w.read certificate ≡ ok cert_content
    pub cert_loaded : w.load_der cert_content ≡ ok cert
    pub policy : cert_policy_has_oid cert oid ≡ true
    pub key_read : w.read key ≡ ok key_content
    pub key_loaded : w.load_pem_key key_content ≡ ok priv_key

  read_cert-eq-ok :
      (oid path : String) (cert : Cert)
      → read_cert w.read w.load_der w.load_pem_key w.sign (some oid) path ≡ ok cert
      → (content : Bytes) × (w.read path ≡ ok content)
        × (w.load_der content ≡ ok cert)
        × (cert_policy_has_oid cert oid ≡ true)
  unfolding read_cert check_policy
  read_cert-eq-ok oid path cert h =
      let (content, r, g) = >>=-eq-ok (w.read path) _ h in
      let (loaded, l, i) = >>=-eq-ok (w.load_der content) _ g in
      let (p, e) = guarded-eq-ok (cert_policy_has_oid loaded oid) _ loaded cert i in
      (content, r, l ∙ ap ok e, subst (λ x. cert_policy_has_oid x oid ≡ true) e p)

  load_pair-IsPair :
      (oid certificate key : String) (k : KeyPair)
      → load_pair w oid certificate key ≡ ok k
      → IsPair oid certificate key k
  unfolding load_pair cert_from_der_file privkey_from_pem_file new_pair read_cert check_policy
  load_pair-IsPair oid certificate key k h =
      let (k1, c, g) =
        >>=-eq-ok
          (object_after (
            cert_from_der_file w.read w.load_der w.load_pem_key w.sign certificate
              (new_pair (some oid))))
          _ h in
      let (cert, r, e) = object_after-continue (λ a k. record k { cert = some a }) _ _ k1 c in
      let (key_bytes, q, e') =
        object_after-continue (λ a k. record k { priv_key = some a }) _ _ k g in
      let (content, cert_read, cert_loaded, policy) = read_cert-eq-ok oid certificate cert r in
      let (key_content, key_read, key_loaded) = >>=-eq-ok (w.read key) _ q in
      record {
        cert = cert;
        cert_content = content;
        priv_key = key_bytes;
        key_content = key_content;
        same = sym e' ∙ ap {A = KeyPair} (λ x. record x { priv_key = some key_bytes }) (sym e);
        cert_read = cert_read;
        cert_loaded = cert_loaded;
        policy = policy;
        key_read = key_read;
        key_loaded = key_loaded;
      }

  -- The store that `open_store` makes: empty in memory, or with what its file has.
  abbrev pub IsStore : Bool → Bool → RspSessionStore → Type 0
  IsStore use_brainpool true s = s ≡ record { in_memory = true; shelf = open_shelf; entries = [] }
  IsStore use_brainpool false s =
      (w.sessions (join_path w.data_dir (concat "sm-dp-sessions-" (suffix use_brainpool)))
        ≡ ok s.entries)
      × (s.shelf ≡ open_shelf)

  open_store-IsStore :
      (use_brainpool in_memory : Bool) (s : RspSessionStore)
      → open_store w use_brainpool in_memory ≡ ok s
      → IsStore use_brainpool in_memory s
  unfolding open_store new_store
  open_store-IsStore use_brainpool true s h = sym (ok-injective h)
  open_store-IsStore use_brainpool false s h =
      let (entries, r, g) =
        >>=-eq-ok
          (w.sessions (join_path w.data_dir (concat "sm-dp-sessions-" (suffix use_brainpool)))) _
          h in
      let e = ok-injective g in (r ∙ ap (λ x. ok x.entries) e, sym (ap (λ x. x.shelf) e))

  -- What a server that has started holds.
  pub record IsRunning (a : Arguments) (s : Started) : Type 0 where
    -- a root certificate that a handler finds comes from a file, and has the policy of a CI
    pub roots :
        (pkid : Bytes) (c : Cert)
        → ci_get_cert_for_pkid s.ci_certs pkid ≡ ok (some c)
        → IsCiFile w (w.walk a.ci_certs_path) c
    pub dp_auth :
        IsPair id_rsp_role_dp_auth_v2
          (cert_path a.common_cert_path "DPauth" a.use_brainpool)
          (key_path a.common_cert_path "DPauth" a.use_brainpool)
          s.dp_auth
    pub dp_pb :
        IsPair id_rsp_role_dp_pb_v2
          (cert_path a.common_cert_path "DPpb" a.use_brainpool)
          (key_path a.common_cert_path "DPpb" a.use_brainpool)
          s.dp_pb
    pub sessions : IsStore a.use_brainpool a.in_memory s.rss
    pub history :
        s.download_history ≡ load (w.history (join_path w.data_dir "download_history.json"))

  -- When the server starts, every root certificate that its handlers can find comes from a DER or
  -- PEM file below the directory of CI certificates and has the policy of a CI; its two key pairs
  -- are those of the files of their roles and of the curve asked for, the certificates with the
  -- policies of DPauth and DPpb; its sessions are none in memory, or those in the file of the
  -- curve; and its history is the one that its file gives.
  pub start_server-IsRunning :
      (a : Arguments) (s : Started) → start_server w a ≡ ok s → IsRunning a s
  unfolding start_server load_certs_from_path
  start_server-IsRunning a s h =
      let (certs, r1, h1) = >>=-eq-ok (load_files w (w.walk a.ci_certs_path)) _ h in
      let (auth, r2, h2) = >>=-eq-ok (load_pair w id_rsp_role_dp_auth_v2 _ _) _ h1 in
      let (pb, r3, h3) = >>=-eq-ok (load_pair w id_rsp_role_dp_pb_v2 _ _) _ h2 in
      let (rss, r4, h4) = >>=-eq-ok (open_store w a.use_brainpool a.in_memory) _ h3 in
      let e = ok-injective h4 in
      subst (IsRunning a) e (record {
        roots = λ pkid c.
            found-All w (IsCiFile w (w.walk a.ci_certs_path)) certs pkid c
              (load_files-All w (w.walk a.ci_certs_path) certs r1);
        dp_auth = load_pair-IsPair _ _ _ auth r2;
        dp_pb = load_pair-IsPair _ _ _ pb r3;
        sessions = open_store-IsStore a.use_brainpool a.in_memory rss r4;
        history = refl;
      })
