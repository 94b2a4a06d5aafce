-- ===== src/Smdp/Safety.antt =====
-- The invariant of the session store: a session with an eUICC certificate is one whose client was
-- authenticated.
use virtual_rsp.Common.{
  ℕ, ◌≡◌, ◌≢◌, refl, sym, ap, ◌∙◌, subst, ◌⊎◌, inl, inr, Bool-cases, ◌==◌, eq_iff, false, none,
  some, String,
}
use virtual_rsp.Bsp.Padding.{Bytes}
use virtual_rsp.Certs.{Cert}
use virtual_rsp.Common.Dict.{
  Dict, find, put, remove, find-put, find-put_other, find-remove, find-remove_other,
}
use virtual_rsp.Smdp.Eid.{Text}
use virtual_rsp.Smdp.Session.{Session, new_session}
use virtual_rsp.Smdp.Download.{with_keys}
use virtual_rsp.Smdp.Server.{Ext, Config}
use virtual_rsp.Smdp.Trust.{IsTrusted, IsBound}
use virtual_rsp.Smdp.Authenticate.{AuthInput}

differs : (k l : String) → (k == l) ≡ false → k ≢ l
differs k l f e = let t = (eq_iff k l).1 e in cc

module _ (x : Ext) (g : Config) where
  -- the certificates and the EID of a session are trusted under its root
  pub record IsVetted (ss : Session) : Type 0 where
    pub euicc : Cert
    pub eum : Cert
    pub eid : Text
    pub has_euicc : ss.euicc_cert ≡ some euicc
    pub has_eum : ss.eum_cert ≡ some eum
    pub has_eid : ss.eid ≡ some eid
    pub trusted : IsTrusted x g ss.ci_cert_id euicc eum eid

  abbrev pub IsSafe : Session → Type 0
  IsSafe ss = (ss.euicc_cert ≡ none) ⊎ IsVetted ss

  -- every session of the store is safe
  abbrev pub AreSafe : Dict Session → Type 0
  AreSafe rss = (tid : String) (ss : Session) → find tid rss ≡ some ss → IsSafe ss

  pub AreSafe-put :
      (tid : String) (ss : Session) (rss : Dict Session)
      → IsSafe ss
      → AreSafe rss
      → AreSafe (put tid ss rss)
  AreSafe-put tid ss rss h all other old f = elim (Bool-cases (other == tid)) [
    | inl t ↦
        let here : find other (put tid ss rss) ≡ some ss =
          ap (λ k. find k (put tid ss rss)) ((eq_iff other tid).0 t) ∙ find-put tid ss rss in
        let same : some ss ≡ some old = sym here ∙ f in subst IsSafe (let e = same in cc) h
    | inr d ↦ all other old (sym (find-put_other tid other ss rss (differs other tid d)) ∙ f)
  ]

  pub AreSafe-remove : (tid : String) (rss : Dict Session) → AreSafe rss → AreSafe (remove tid rss)
  AreSafe-remove tid rss all other old f = elim (Bool-cases (other == tid)) [
    | inl t ↦
        let gone : find other (remove tid rss) ≡ none =
          ap (λ k. find k (remove tid rss)) ((eq_iff other tid).0 t) ∙ find-remove tid rss in
        absurd (cc)
    | inr d ↦ all other old (sym (find-remove_other tid other rss (differs other tid d)) ∙ f)
  ]

  pub new_session-IsSafe :
      (tid : String) (challenge ci : Bytes) → IsSafe (new_session tid challenge ci)
  unfolding new_session
  new_session-IsSafe tid challenge ci = inl refl

  pub with_keys-IsSafe :
      (ss : Session) (otpk : Bytes) (ot : ℕ × String) (smdp_otpk secret : Bytes)
      → IsSafe ss
      → IsSafe (with_keys ss otpk ot smdp_otpk secret)
  unfolding with_keys
  with_keys-IsSafe ss otpk ot smdp_otpk secret (inl e) = inl e
  with_keys-IsSafe ss otpk ot smdp_otpk secret (inr v) = inr (record {
    euicc = v.euicc;
    eum = v.eum;
    eid = v.eid;
    has_euicc = v.has_euicc;
    has_eum = v.has_eum;
    has_eid = v.has_eid;
    trusted = v.trusted;
  })

  pub IsBound-IsSafe :
      (i : AuthInput) (old : Session) (eid : Text) (new : Session)
      → IsBound x g i old eid new
      → IsTrusted x g old.ci_cert_id i.euicc i.eum eid
      → IsSafe new
  IsBound-IsSafe i old eid new b t = inr (record {
    euicc = i.euicc;
    eum = i.eum;
    eid = eid;
    has_euicc = b.new_euicc;
    has_eum = b.new_eum;
    has_eid = b.new_eid;
    trusted = subst (λ c. IsTrusted x g c i.euicc i.eum eid) (sym b.same_root) t;
  })

  -- a safe session that has an eUICC certificate
  pub IsVetted-euicc :
      (ss : Session) (euicc : Cert)
      → IsSafe ss
      → ss.euicc_cert ≡ some euicc
      → (v : IsVetted ss) × (v.euicc ≡ euicc)
  IsVetted-euicc ss euicc (inl e) h = absurd (cc)
  IsVetted-euicc ss euicc (inr v) h =
      (v, let e : some v.euicc ≡ some euicc = sym v.has_euicc ∙ h in cc)
