-- ===== src/Certs/Issued.antt =====
-- What a `CertificateSet` of x509_cert.py accepts that has one intermediate certificate, as the
-- server builds it from the EUM certificate.
use virtual_rsp.Common.{
  ℕ, ◌≡◌, refl, sym, ap, ◌∙◌, subst, ◌⊎◌, inl, inr, [], ◌∷◌, Bool, true, false, not, Bool-cases,
  none, some, ok, raise_if, required, >>=-eq-ok, required-eq-ok, ok-injective, bytes_beq,
  bytes_beq_refl, bytes_beq_eq, if◌then◌else◌, Error,
}
use virtual_rsp.Bsp.Padding.{Bytes}
use virtual_rsp.Certs.{
  not_found, Cert, CertificateSet, cert_get_subject_key_id, cert_get_auth_key_id,
  cert_policy_has_oid, id_rsp_role_ci, put_cert, find_cert, add_intermediate_cert, new_set,
  check_signed, verify_cert_chain,
}
use virtual_rsp.Certs.Chain.{
  IsSigned, check_signed_lem, Chain, anchored, linked, verify_cert_chain_iff,
}

not_raised : (e : Error) (b : Bool) → raise_if b e ≡ ok tt → b ≡ false
not_raised e true h = absurd (cc)
not_raised e false h = refl

-- A set with an intermediate certificate: what was checked of it, and the set.
pub add_intermediate_cert_inversion :
    (eum : Cert) (root : Cert) (cs : CertificateSet)
    → add_intermediate_cert eum (record { root_cert = root; intermediate_certs = [] }) ≡ ok cs
    → (aki ski : Bytes) × (eum.auth_key_id ≡ some aki)
      × (bytes_beq aki ski ≡ false)
      × (cs ≡ record { root_cert = root; intermediate_certs = (ski, eum) ∷ [] })
unfolding add_intermediate_cert cert_get_auth_key_id cert_get_subject_key_id put_cert
add_intermediate_cert_inversion eum root cs h =
    let (usage, _, h1) = >>=-eq-ok (required not_found eum.key_usage) _ h in
    let (_, _, h2) = >>=-eq-ok (raise_if (not usage.0) _) _ h1 in
    let (aki, a, h3) = >>=-eq-ok (required not_found eum.auth_key_id) _ h2 in
    let (ski, _, h4) = >>=-eq-ok (required not_found eum.subject_key_id) _ h3 in
    let (_, d, h5) = >>=-eq-ok (raise_if (bytes_beq aki ski) _) _ h4 in
    (aki, ski, required-eq-ok _ _ a, not_raised _ _ d, sym (ok-injective h5))

module _ (verify : Bytes → Bytes → Bytes → Bool) where
  -- What was checked of the root of a set, and the set.
  pub new_set_inversion :
      (root : Cert) (cs : CertificateSet)
      → new_set verify root ≡ ok cs
      → IsSigned verify root root × (cs ≡ record { root_cert = root; intermediate_certs = [] })
  unfolding new_set
  new_set_inversion root cs h =
      let (_, s, h1) = >>=-eq-ok (check_signed verify root root) _ h in
      let (_, _, h2) =
        >>=-eq-ok (raise_if (not (cert_policy_has_oid root id_rsp_role_ci)) _) _ h1 in
      let (usage, _, h3) = >>=-eq-ok (required not_found root.key_usage) _ h2 in
      let (_, _, h4) = >>=-eq-ok (raise_if (not usage.0) _) _ h3 in
      let (_, _, h5) = >>=-eq-ok (raise_if (not usage.1) _) _ h4 in
      (check_signed_lem verify root root s, sym (ok-injective h5))

  -- The key of the root has signed the certificate, or has signed the EUM's, whose key has.
  pub IsIssued : Cert → Cert → Cert → Type 0
  IsIssued root eum c = IsSigned verify c root ⊎ (IsSigned verify c eum × IsSigned verify eum root)

  abbrev pub pair_set : Cert → Cert → Bytes → CertificateSet
  pair_set root eum ski = record { root_cert = root; intermediate_certs = (ski, eum) ∷ [] }

  found_one :
      (k ski : Bytes) (eum parent : Cert)
      → find_cert k ((ski, eum) ∷ []) ≡ some parent
      → (bytes_beq ski k ≡ true) × (eum ≡ parent)
  unfolding find_cert
  found_one k ski eum parent h = elim (Bool-cases (bytes_beq ski k)) [
    | inl t ↦ (t, let e = subst (λ b. (if b then some eum else none) ≡ some parent) t h in cc)
    | inr f ↦ absurd (let e = subst (λ b. (if b then some eum else none) ≡ some parent) f h in cc)
  ]

  -- The intermediate certificate is not its own parent.
  not_again :
      (eum parent : Cert) (aki ski k : Bytes)
      → eum.auth_key_id ≡ some aki
      → bytes_beq aki ski ≡ false
      → parent.auth_key_id ≡ some k
      → eum ≡ parent
      → bytes_beq ski k ≡ true
      → ⊥
  not_again eum parent aki ski k a d b e t =
      let same : some k ≡ some aki = sym b ∙ ap (λ (c : Cert). c.auth_key_id) (sym e) ∙ a in
      let q = bytes_beq_eq ski k t in let r = bytes_beq_refl aki in cc

  Chain-IsIssued :
      (root eum : Cert) (aki ski : Bytes) {n : ℕ} {c : Cert}
      → eum.auth_key_id ≡ some aki
      → bytes_beq aki ski ≡ false
      → Chain verify (pair_set root eum ski) n c
      → IsIssued root eum c
  unfolding IsIssued
  Chain-IsIssued root eum aki ski a d (anchored _ _ s) = inl s
  Chain-IsIssued root eum aki ski {c = c} a d
        (linked {parent = parent} {k = k} _ _ _ f s (anchored _ _ s2)) =
      let (_, e) = found_one k ski eum parent f in
      inr (
        subst (λ (p : Cert). IsSigned verify c p) (sym e) s,
        subst (λ (p : Cert). IsSigned verify p root) (sym e) s2,
      )
  Chain-IsIssued root eum aki ski a d
        (linked {parent = parent} {k = k} _ _ _ f s
          (linked {parent = parent2} {k = k2} b _ _ f2 _ _)) =
      let (_, e) = found_one k ski eum parent f in
      let (t, _) = found_one k2 ski eum parent2 f2 in
      absurd (not_again eum parent aki ski k2 a d b e t)

  -- A certificate whose chain is verified in a set of a root and one intermediate certificate is
  -- signed by the root, or by the intermediate certificate, which is signed by the root; and the
  -- root has signed itself.
  pub verify_cert_chain-IsIssued :
      (root eum c : Cert) (cs0 cs : CertificateSet) (depth : ℕ)
      → new_set verify root ≡ ok cs0
      → add_intermediate_cert eum cs0 ≡ ok cs
      → verify_cert_chain verify cs c depth ≡ ok tt
      → IsSigned verify root root × IsIssued root eum c
  verify_cert_chain-IsIssued root eum c cs0 cs depth h0 h1 h2 =
      let (self, e0) = new_set_inversion root cs0 h0 in
      let (aki, ski, a, d, e) =
        add_intermediate_cert_inversion eum root cs
          (ap (add_intermediate_cert eum) (sym e0) ∙ h1) in
      let (n, _, ch) =
        (verify_cert_chain_iff verify (pair_set root eum ski) c depth).0
          (ap (λ s. verify_cert_chain verify s c depth) (sym e) ∙ h2) in
      (self, Chain-IsIssued root eum aki ski a d ch)
