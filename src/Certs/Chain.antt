-- ===== src/Certs/Chain.antt =====
-- What `verify_cert_chain` of x509_cert.py accepts: signature chains up to the root.
use virtual_rsp.Common.{
  ℕ, zero, suc, ◌-◌, ◌≤◌, ◌≡◌, refl, sym, ap, ◌⊎◌, inl, inr, ◌↔◌, arith, Bool, true, false, not,
  Bool-cases, Option, none, some, Result, ok, raise_if, ◌>>=◌, >>=-eq-ok, required-eq-ok,
  ok-injective, Error, ◌∙◌, verify_error, invalid_signature, subst, required, bytes_beq,
  bytes_beq_refl, bytes_beq_eq, ◌≢◌,
}
use virtual_rsp.Bsp.Padding.{Bytes}
use virtual_rsp.Certs.{
  not_found, Cert, CertificateSet, cert_get_subject_key_id, cert_get_auth_key_id, find_cert,
  check_signed, issuer, chain_round, follow, verify_cert_chain,
}

module _ (verify : Bytes → Bytes → Bytes → Bool) where
  -- `signed` carries a signature of the key of `signer`
  abbrev pub IsSigned : Cert → Cert → Type 0
  IsSigned signed signer = verify signer.public_key signed.signature signed.tbs ≡ true

  raised_false : (e : Error) (b : Bool) → raise_if (not b) e ≡ ok tt → b ≡ true
  raised_false e true h = refl
  raised_false e false h = absurd (cc)

  pub check_signed_lem :
      (c signer : Cert) → check_signed verify c signer ≡ ok tt → IsSigned c signer
  unfolding check_signed
  check_signed_lem c signer h = raised_false invalid_signature _ h

module _ (verify : Bytes → Bytes → Bytes → Bool) (cs : CertificateSet) where
  -- A certificate names the root as its issuer and is signed by it, or names an intermediate
  -- certificate, is signed by it, and that has a chain. The number is the length of the chain.
  pub data Chain : ℕ → Cert → Type 0 where
    anchored :
        {c : Cert} {k : Bytes}
        → c.auth_key_id ≡ some k
        → cs.root_cert.subject_key_id ≡ some k
        → IsSigned verify c cs.root_cert
        → Chain 0 c
    linked :
        {n : ℕ} {c parent : Cert} {k r : Bytes}
        → c.auth_key_id ≡ some k
        → cs.root_cert.subject_key_id ≡ some r
        → k ≢ r
        → find_cert k cs.intermediate_certs ≡ some parent
        → IsSigned verify c parent
        → Chain n parent
        → Chain (suc n) c

  differ : (k r : Bytes) → k ≡ r → bytes_beq k r ≡ false → ⊥
  differ k r e f = let t = bytes_beq_refl r in cc

  unequal : (k r : Bytes) → k ≢ r → bytes_beq k r ≡ false
  unequal k r d = elim (Bool-cases (bytes_beq k r)) [
    | inl t ↦ absurd (d (bytes_beq_eq k r t))
    | inr f ↦ f
  ]

  at_root :
      {k r : Bytes} {c : Cert} {next : Option Cert}
      → c.auth_key_id ≡ some k
      → cs.root_cert.subject_key_id ≡ some r
      → bytes_beq k r ≡ true
      → issuer verify cs c k true ≡ ok next
      → (next ≡ none) × Chain 0 c
  unfolding issuer
  at_root {c = c} a b t h =
      let (_, s, e) = >>=-eq-ok (check_signed verify c cs.root_cert) _ h in
      (
        sym (ok-injective e),
        anchored a (b ∙ ap some (sym (bytes_beq_eq _ _ t)))
            (check_signed_lem verify c cs.root_cert s),
      )

  at_parent :
      {k r : Bytes} {c : Cert} {next : Option Cert}
      → c.auth_key_id ≡ some k
      → cs.root_cert.subject_key_id ≡ some r
      → bytes_beq k r ≡ false
      → issuer verify cs c k false ≡ ok next
      → (parent : Cert) × (next ≡ some parent) × ((n : ℕ) → Chain n parent → Chain (suc n) c)
  unfolding issuer
  at_parent {k = k} {c = c} a b f h =
      let (parent, g, h1) =
        >>=-eq-ok
          (required (verify_error "Could not find intermediate certificate")
            (find_cert k cs.intermediate_certs))
          _ h in
      let (_, s, e) = >>=-eq-ok (check_signed verify c parent) _ h1 in
      (
        parent,
        sym (ok-injective e),
        λ n up.
            linked a b (λ e. differ _ _ e f) (required-eq-ok _ _ g)
              (check_signed_lem verify c parent s) up,
      )

  -- A round that returns, by what it found.
  round_inversion :
      (c : Cert) (next : Option Cert)
      → chain_round verify cs c ≡ ok next
      → ((next ≡ none) × Chain 0 c)
        ⊎ ((parent : Cert) × (next ≡ some parent) × ((n : ℕ) → Chain n parent → Chain (suc n) c))
  unfolding chain_round cert_get_auth_key_id cert_get_subject_key_id
  round_inversion c next h =
      let (k, a, h1) = >>=-eq-ok (required not_found c.auth_key_id) _ h in
      let (r, b, h2) = >>=-eq-ok (required not_found cs.root_cert.subject_key_id) _ h1 in
      let a' = required-eq-ok _ _ a in
      let b' = required-eq-ok _ _ b in
      elim (Bool-cases (bytes_beq k r)) [
        | inl t ↦ inl (at_root a' b' t (ap (issuer verify cs c k) (sym t) ∙ h2))
        | inr f ↦ inr (at_parent a' b' f (ap (issuer verify cs c k) (sym f) ∙ h2))
      ]

  -- the rounds that are left: this one, and `fuel` more
  abbrev rounds : ℕ → Cert → Result (Unit {0})
  rounds fuel c = chain_round verify cs c >>= follow verify cs fuel

  rounds-Chain : (fuel : ℕ) (c : Cert) → rounds fuel c ≡ ok tt → (n : ℕ) × (n ≤ fuel) × Chain n c
  unfolding follow
  rounds-Chain zero c h =
      let (next, a, h1) = >>=-eq-ok (chain_round verify cs c) _ h in
      elim (round_inversion c next a) [
        | inl (e, ch) ↦ (0, omega arith, ch)
        | inr (parent, e, up) ↦
            absurd (let f = subst (λ x. follow verify cs 0 x ≡ ok tt) e h1 in cc)
      ]
  rounds-Chain (suc fuel) c h =
      let (next, a, h1) = >>=-eq-ok (chain_round verify cs c) _ h in
      elim (round_inversion c next a) [
        | inl (e, ch) ↦ (0, omega arith, ch)
        | inr (parent, e, up) ↦
            let (n, l, ch) =
              rounds-Chain fuel parent (subst (λ x. follow verify cs (suc fuel) x ≡ ok tt) e h1) in
            (suc n, omega (arith, l), up n ch)
      ]

  root_round :
      (c : Cert) {k : Bytes}
      → c.auth_key_id ≡ some k
      → cs.root_cert.subject_key_id ≡ some k
      → IsSigned verify c cs.root_cert
      → chain_round verify cs c ≡ ok none
  unfolding chain_round cert_get_auth_key_id cert_get_subject_key_id issuer check_signed
  root_round c {k = k} a b s = rw a (rw b (rw (bytes_beq_refl k) (rw s refl)))

  link_round :
      (c parent : Cert) {k r : Bytes}
      → c.auth_key_id ≡ some k
      → cs.root_cert.subject_key_id ≡ some r
      → k ≢ r
      → find_cert k cs.intermediate_certs ≡ some parent
      → IsSigned verify c parent
      → chain_round verify cs c ≡ ok (some parent)
  unfolding chain_round cert_get_auth_key_id cert_get_subject_key_id issuer check_signed
  link_round c parent {k = k} {r = r} a b d f s =
      rw a (rw b (rw (unequal k r d) (rw f (rw s refl))))

  Chain-rounds : {n : ℕ} {c : Cert} (fuel : ℕ) → n ≤ fuel → Chain n c → rounds fuel c ≡ ok tt
  unfolding follow
  Chain-rounds {c = c} fuel l (anchored a b s) =
      ap (λ m. m >>= follow verify cs fuel) (root_round c a b s)
  Chain-rounds zero l (linked a b d f s up) = absurd (omega (arith, l))
  Chain-rounds {c = c} (suc fuel) l (linked {parent = parent} a b d f s up) =
      ap (λ m. m >>= follow verify cs (suc fuel)) (link_round c parent a b d f s)
      ∙ Chain-rounds fuel (omega (arith, l)) up

  -- `verify_cert_chain` returns exactly when the certificate has a chain of signatures to the root
  -- with at most `max_depth` certificates (one where the depth is zero), the root not counted.
  pub verify_cert_chain_iff :
      (cert : Cert) (max_depth : ℕ)
      → (verify_cert_chain verify cs cert max_depth ≡ ok tt)
        ↔ ((n : ℕ) × (n ≤ max_depth - 1) × Chain n cert)
  unfolding verify_cert_chain
  verify_cert_chain_iff cert max_depth =
      (rounds-Chain (max_depth - 1) cert, λ (n, l, ch). Chain-rounds (max_depth - 1) l ch)
