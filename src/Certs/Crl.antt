-- ===== src/Certs/Crl.antt =====
-- The revocation list of `CertificateSet` in pysim/pySim/esim/x509_cert.py. The package requests,
-- X.509 and the attributes that `Cert` has not are parameters.
use virtual_rsp.Common.{
  ap, sym, subst, ℕ, [], ◌∷◌, ◌++◌, List, Bool, not, Option, none, some, String, Result, ok, err,
  Error, ◌>>=◌, ◌>>◌, raise_if, exception, value_error, verify_error, truthy, All, ◌≡◌, ◌⊎◌, inl,
  inr, refl, if◌then◌else◌,
}
use virtual_rsp.Bsp.Padding.{Bytes}
use virtual_rsp.Certs.{Cert, CertificateSet}

-- What `requests.get` gives: a response, a connection error, or another exception.
pub data Fetched (Response : Type 0) : Type 0 where
  responded : Response → Fetched Response
  connection_error : Fetched Response
  raised : Error → Fetched Response

-- A name of a distribution point: a URI or another name.
pub data GeneralName : Type 0 where
  uri : String → GeneralName
  other_name : GeneralName

-- The argument `urls`
pub data Urls : Type 0 where
  no_urls : Urls
  one_url : String → Urls
  many_urls : List String → Urls

-- `merged_list += n`, where `full_name` may be `None`
unfoldable pub merged : List (Option (List GeneralName)) → Result (List GeneralName)
merged [] = ok []
merged (none ∷ ns) = err (exception "TypeError")
merged (some n ∷ ns) = do rest ← merged ns; ok (n ++ rest)

unfoldable pub uris : List GeneralName → List String
uris [] = []
uris (uri u ∷ ns) = u ∷ uris ns
uris (other_name ∷ ns) = uris ns

-- `CertificateSet` with its `crl`
pub record RevocableSet (Crl : Type 0) : Type 0 where
  pub certs : CertificateSet
  pub crl : Option Crl

-- What `load_der_x509_crl` may be given: the bytes that it needs, or a response of requests.
pub data Argument (Response : Type 0) : Type 0 where
  content : Bytes → Argument Response
  response_object : Response → Argument Response

-- `TypeError`, which the function raises on an argument that is not bytes
abbrev pub type_error : Error
type_error = exception "TypeError"

module _ {Response Crl : Type 0} (get : String → Fetched Response)
    (load_der_x509_crl : Argument Response → Result Crl) (is_signature_valid : Crl → Bytes → Bool)
    (distribution_points : Cert → Result (List (Option (List GeneralName)))) where
  -- What was fetched, read as a list that the root has signed.
  unfoldable pub trusted : Bytes → Argument Response → Result Crl
  trusted key fetched = do
    crl ← load_der_x509_crl fetched
    raise_if (not (is_signature_valid crl key))
        (value_error "Given CRL has incorrect signature and cannot be trusted")
    ok crl

  unfoldable pub accept : RevocableSet Crl → Result Crl → Result (RevocableSet Crl)
  accept s (ok crl) = ok (record s { crl = some crl })
  accept s (err e) = err e

  -- `for url in urls`; the response itself is passed on, and not its content
  unfoldable pub load_first : List String → RevocableSet Crl → Result (RevocableSet Crl)
  unfolding trusted accept
  load_first [] s = ok s
  load_first (url ∷ urls) s = elim (get url) [
    | responded response ↦
        accept s (trusted s.certs.root_cert.public_key (response_object response))
    | connection_error ↦ load_first urls s
    | raised e ↦ err e
  ]

  unfoldable pub root_urls : RevocableSet Crl → Result (List String)
  unfolding merged uris
  root_urls s = do
    points ← distribution_points s.certs.root_cert
    names ← merged points
    ok (uris names)

  unfoldable pub urls_of : Urls → RevocableSet Crl → Result (List String)
  unfolding root_urls
  urls_of no_urls s = root_urls s
  urls_of (one_url u) s = if truthy u then ok (u ∷ []) else root_urls s
  urls_of (many_urls []) s = root_urls s
  urls_of (many_urls (u ∷ us)) s = ok (u ∷ us)

  -- `load_crl`
  unfoldable pub load_crl : Urls → RevocableSet Crl → Result (RevocableSet Crl)
  unfolding urls_of load_first
  load_crl urls s = do us ← urls_of urls s; load_first us s

  -- No URL of the list could be reached.
  abbrev pub AllUnreachable : List String → Type 0
  AllUnreachable = All (λ u. get u ≡ connection_error)

  -- The first URL that could be reached, and what getting it gave.
  pub record IsFirst (us : List String) (fetched : Fetched Response) : Type 0 where
    pub skipped : List String
    pub url : String
    pub others : List String
    pub split : us ≡ skipped ++ url ∷ others
    pub unreachable : AllUnreachable skipped
    pub got : get url ≡ fetched

  -- What loading from a list of URLs comes to. The cases exclude each other.
  abbrev pub Loading : List String → RevocableSet Crl → Result (RevocableSet Crl) → Type 0
  Loading us s r =
      (AllUnreachable us × (r ≡ ok s))
      ⊎ (((response : Response) × IsFirst us (responded response) × (r ≡ err type_error))
          ⊎ ((e : Error) × IsFirst us (raised e) × (r ≡ err e)))

  first :
      (url : String) (us : List String) (fetched : Fetched Response)
      → get url ≡ fetched
      → IsFirst (url ∷ us) fetched
  first url us fetched h = record {
    skipped = [];
    url = url;
    others = us;
    split = refl;
    unreachable = tt;
    got = h;
  }

  later :
      (url : String) (us : List String) (fetched : Fetched Response)
      → get url ≡ connection_error
      → IsFirst us fetched
      → IsFirst (url ∷ us) fetched
  later url us fetched lost i = record {
    skipped = url ∷ i.skipped;
    url = i.url;
    others = i.others;
    split = ap (◌∷◌ url) i.split;
    unreachable = (lost, i.unreachable);
    got = i.got;
  }

  Loading-cons :
      (url : String) (us : List String) (s : RevocableSet Crl) (r : Result (RevocableSet Crl))
      → get url ≡ connection_error
      → Loading us s r
      → Loading (url ∷ us) s r
  Loading-cons url us s r lost (inl (all, e)) = inl ((lost, all), e)
  Loading-cons url us s r lost (inr (inl (response, i, e))) =
      inr (inl (response, later url us _ lost i, e))
  Loading-cons url us s r lost (inr (inr (x, i, e))) = inr (inr (x, later url us _ lost i, e))

  skip :
      (url : String) (us : List String) (s : RevocableSet Crl)
      → get url ≡ connection_error
      → load_first (url ∷ us) s ≡ load_first us s
  unfolding load_first
  skip url us s lost = rw (lost, load_first) refl

  Fetched-cases :
      (f : Fetched Response)
      → ((r : Response) × (f ≡ responded r))
        ⊎ ((f ≡ connection_error) ⊎ ((e : Error) × (f ≡ raised e)))
  Fetched-cases (responded r) = inl (r, refl)
  Fetched-cases connection_error = inr (inl refl)
  Fetched-cases (raised e) = inr (inr (e, refl))

  module _
      (needs_bytes : (r : Response) → load_der_x509_crl (response_object r) ≡ err type_error) where
    load_first-Loading : (us : List String) (s : RevocableSet Crl) → Loading us s (load_first us s)
    unfolding load_first trusted accept
    load_first-Loading [] s = inl (tt, refl)
    load_first-Loading (url ∷ us) s = elim (Fetched-cases (get url)) [
      | inl (response, there) ↦
          rw (there, load_first)
            (rw (needs_bytes response) (inr (inl (response, first url us _ there, refl))))
      | inr (inl lost) ↦
          subst (Loading (url ∷ us) s) (sym (skip url us s lost))
            (Loading-cons url us s _ lost (load_first-Loading us s))
      | inr (inr (e, bad)) ↦ rw (bad, load_first) (inr (inr (e, first url us _ bad, refl)))
    ]

    -- `load_crl` never loads a revocation list, since `load_der_x509_crl` raises TypeError on a
    -- response, which is no bytes. Where the URLs are known, given or those in the root certificate:
    -- if none could be reached, it returns and the set is as it was; if one could and the first of
    -- these responds, it raises TypeError; and it raises what getting the first of these raised.
    pub load_crl-Loading :
        (urls : Urls) (us : List String) (s : RevocableSet Crl)
        → urls_of urls s ≡ ok us
        → Loading us s (load_crl urls s)
    unfolding load_crl
    load_crl-Loading urls us s known = rw known (load_first-Loading us s)

-- `verify_cert_crl`, with what reading the attribute `serial_nr` gives; a list of no certificates
-- is false
module _ {Crl : Type 0} (serial_nr : Cert → Result ℕ) (is_empty : Crl → Bool)
    (is_revoked : Crl → ℕ → Bool) where
  unfoldable pub verify_cert_crl : RevocableSet Crl → Cert → Result (Unit {0})
  verify_cert_crl s cert = elim s.crl [
    | none ↦ ok tt
    | some crl ↦ if is_empty crl then ok tt else (do
      n ← serial_nr cert
      raise_if (is_revoked crl n)
          (verify_error "Certificate is present in CRL, verification failed"))
  ]
