-- ===== src/Smdp/Startup/Checked.antt =====
-- What a server of pysim/osmo-smdpp.py that has started holds.
use virtual_rsp.Common.{
  [], ◌∷◌, ◌++◌, List, Bool, true, false, not, some, String, Result, ok, err, Error, ◌>>=◌, ◌>>◌,
  ◌∙◌, required, index_error, bytes_beq, All, >>=-eq-ok, ok-injective, Bool-cases, raise_if,
  value_error, ◌≡◌, ◌⊎◌, inl, inr, refl, sym, ap, subst,
}
use virtual_rsp.Bsp.Padding.{Bytes}
use virtual_rsp.Certs.{Cert, cert_policy_has_oid, id_rsp_role_ci}
use virtual_rsp.Smdp.Authenticate.{join_path, ci_get_cert_for_pkid}
use virtual_rsp.Smdp.Startup.{
  Format, der, pem, other, format_of, with_rest, Disk, checked_ci, load_file, load_files,
}

pub guarded-eq-ok :
    (b : Bool) (e : Error) (x y : Cert) → (raise_if (not b) e >> ok x) ≡ ok y → (b ≡ true) × (x ≡ y)
guarded-eq-ok true e x y h = (refl, ok-injective h)
guarded-eq-ok false e x y h = absurd (cc)

with_rest-eq-ok :
    (r : Result Cert) (rest : Result (List Cert)) (certs : List Cert)
    → with_rest r rest ≡ ok certs
    → (c : Cert) × (cs : List Cert) × (r ≡ ok c) × (rest ≡ ok cs) × (c ∷ cs ≡ certs)
unfolding with_rest
with_rest-eq-ok (ok c) (ok cs) certs h = (c, cs, refl, refl, ok-injective h)
with_rest-eq-ok (ok c) (err e) certs h = absurd (cc)
with_rest-eq-ok (err e) rest certs h = absurd (cc)

module _ (w : Disk) where
  abbrev reader_of : Format → Bytes → Result Cert
  reader_of der content = w.load_der content
  reader_of pem content = w.load_pem content
  reader_of other content = err (value_error "")

  -- A certificate that a file of a walk holds, with the policy of a CI.
  pub record IsCiFile (files : List (String × String)) (c : Cert) : Type 0 where
    pub before : List (String × String)
    pub directory : String
    pub name : String
    pub after : List (String × String)
    pub content : Bytes
    pub listed : files ≡ before ++ (directory, name) ∷ after
    pub is_read : w.read (join_path directory name) ≡ ok content
    pub loaded : reader_of (format_of name) content ≡ ok c
    pub policy : cert_policy_has_oid c id_rsp_role_ci ≡ true

  load_file-IsCiFile :
      (reader : Bytes → Result Cert) (directory name : String) (c : Cert)
      → load_file w reader (directory, name) ≡ ok c
      → (content : Bytes) × (w.read (join_path directory name) ≡ ok content)
        × (reader content ≡ ok c)
        × (cert_policy_has_oid c id_rsp_role_ci ≡ true)
  unfolding load_file checked_ci
  load_file-IsCiFile reader directory name c h =
      let (c', r, h1) = >>=-eq-ok (w.read (join_path directory name) >>= reader) _ h in
      let (content, q, l) = >>=-eq-ok (w.read (join_path directory name)) reader r in
      let (p, e) = guarded-eq-ok (cert_policy_has_oid c' id_rsp_role_ci) _ c' c h1 in
      (content, q, l ∙ ap ok e, subst (λ x. cert_policy_has_oid x id_rsp_role_ci ≡ true) e p)

  wider :
      (f : String × String) (files : List (String × String)) (c : Cert)
      → IsCiFile files c
      → IsCiFile (f ∷ files) c
  wider f files c i = record {
    before = f ∷ i.before;
    directory = i.directory;
    name = i.name;
    after = i.after;
    content = i.content;
    listed = ap (◌∷◌ f) i.listed;
    is_read = i.is_read;
    loaded = i.loaded;
    policy = i.policy;
  }

  widen-All :
      (f : String × String) (files : List (String × String)) (cs : List Cert)
      → All (IsCiFile files) cs
      → All (IsCiFile (f ∷ files)) cs
  widen-All f files [] a = tt
  widen-All f files (c ∷ cs) (i, is) = (wider f files c i, widen-All f files cs is)

  first_file :
      (directory name : String) (files : List (String × String)) (c : Cert)
      → load_file w (reader_of (format_of name)) (directory, name) ≡ ok c
      → IsCiFile ((directory, name) ∷ files) c
  first_file directory name files c h =
      let (content, q, l, p) = load_file-IsCiFile (reader_of (format_of name)) directory name c h in
      record {
        before = [];
        directory = directory;
        name = name;
        after = files;
        content = content;
        listed = refl;
        is_read = q;
        loaded = l;
        policy = p;
      }

  Format-cases : (f : Format) → (f ≡ der) ⊎ ((f ≡ pem) ⊎ (f ≡ other))
  Format-cases der = inl refl
  Format-cases pem = inr (inl refl)
  Format-cases other = inr (inr refl)

  pub load_files-All :
      (files : List (String × String)) (certs : List Cert)
      → load_files w files ≡ ok certs
      → All (IsCiFile files) certs
  unfolding load_files
  load_files-All [] certs h = subst (All (IsCiFile [])) (ok-injective h) tt
  load_files-All ((directory, name) ∷ files) certs h =
      let first : (reader : Bytes → Result Cert)
          → reader ≡ reader_of (format_of name)
          → with_rest (load_file w reader (directory, name)) (load_files w files) ≡ ok certs
          → All (IsCiFile ((directory, name) ∷ files)) certs =
        λ reader e g.
          let (c, cs, r, rest, same) = with_rest-eq-ok _ _ certs g in
          subst (All (IsCiFile ((directory, name) ∷ files))) same (
            first_file directory name files c
                (subst (λ x. load_file w x (directory, name) ≡ ok c) e r),
            widen-All (directory, name) files cs (load_files-All files cs rest),
          ) in
      elim (Format-cases (format_of name)) [
        | inl e ↦ first w.load_der (ap reader_of (sym e)) (rw (e, load_files) at h)
        | inr (inl e) ↦ first w.load_pem (ap reader_of (sym e)) (rw (e, load_files) at h)
        | inr (inr e) ↦
            widen-All (directory, name) files certs
              (load_files-All files certs (rw (e, load_files) at h))
      ]

  -- whatever holds of all CI certificates holds of the one that is found
  pub found-All :
      (P : Cert → Type 0) (certs : List Cert) (pkid : Bytes) (c : Cert)
      → All P certs
      → ci_get_cert_for_pkid certs pkid ≡ ok (some c)
      → P c
  unfolding ci_get_cert_for_pkid
  found-All P [] pkid c a h = absurd (cc)
  found-All P (x ∷ certs) pkid c (p, a) h =
      let (id, e, g) = >>=-eq-ok (required index_error x.subject_key_id) _ h in
      elim (Bool-cases (bytes_beq id pkid)) [
        | inl t ↦ let q : ok (some x) ≡ ok (some c) = rw t at g in let s : x ≡ c = cc in subst P s p
        | inr f ↦ found-All P certs pkid c a (rw f at g)
      ]
