-- ===== src/Smdp/Session.antt =====
-- The session of pysim/pySim/esim/rsp.py, how it is pickled, and the profile metadata of
-- pysim/pySim/esim/es8p.py that it holds.
use virtual_rsp.Common.{
  ℕ, ◌≡◌, ◌≢◌, refl, [], ◌∷◌, List, ◌++◌, Bool, not, Option, none, some, String, Result, ok, ◌>>=◌,
  ◌>>◌, arith, raise_if, value_error, leb, nat_beq, length, if◌then◌else◌,
}
use virtual_rsp.Esim.Pmo.{new_pmo, to_bitstring}
use virtual_rsp.Bsp.Padding.{Bytes}
use virtual_rsp.Certs.{Cert}

-- `ProfileMetadata`
pub record ProfileMetadata : Type 0 where
  pub iccid_bin : Bytes
  pub spn : String
  pub profile_name : String
  -- `icon` with `icon_type`
  pub icon : Option (Bytes × ℕ)
  pub notifications : List (String × String)

unfoldable pub new_metadata : Bytes → String → String → ProfileMetadata
new_metadata iccid spn name = record {
  iccid_bin = iccid;
  spn = spn;
  profile_name = name;
  icon = none;
  notifications = [];
}

unfoldable pub set_icon : Bool → Bytes → ProfileMetadata → Result ProfileMetadata
set_icon is_png bytes m = do
  raise_if (not (leb (length bytes) 1024)) (value_error "Icon data must not exceed 1024 bytes")
  ok (record m { icon = some (bytes, if is_png then 1 else 0) })

unfoldable pub add_notification : String → String → ProfileMetadata → ProfileMetadata
add_notification event address m = record m {
  notifications = m.notifications ++ (event, address) ∷ [];
}

-- the `StoreMetadataRequest` that is encoded; an empty icon and no notifications are left out
pub record StoreMetadata : Type 0 where
  pub iccid : Bytes
  pub provider : String
  pub name : String
  pub icon : Option (Bytes × ℕ)
  pub notifications : Option (List ((Bytes × ℕ) × String))

unfoldable pub kept_icon : Option (Bytes × ℕ) → Option (Bytes × ℕ)
kept_icon (some (b ∷ bs, t)) = some (b ∷ bs, t)
kept_icon _ = none

unfoldable pub kept_notifications :
    List ((Bytes × ℕ) × String) → Option (List ((Bytes × ℕ) × String))
kept_notifications [] = none
kept_notifications (n ∷ ns) = some (n ∷ ns)

unfoldable pub notification_infos : List (String × String) → Result (List ((Bytes × ℕ) × String))
unfolding new_pmo to_bitstring
notification_infos [] = ok []
notification_infos ((event, address) ∷ ns) =
    let rest = notification_infos ns in
    do pmo ← new_pmo event; bits ← to_bitstring pmo; infos ← rest; ok ((bits, address) ∷ infos)

unfoldable pub gen_store_metadata_request : (StoreMetadata → Bytes) → ProfileMetadata → Result Bytes
unfolding notification_infos kept_icon kept_notifications
gen_store_metadata_request encode m = do
  infos ← notification_infos m.notifications
  ok (
      encode (record {
        iccid = m.iccid_bin;
        provider = m.spn;
        name = m.profile_name;
        icon = kept_icon m.icon;
        notifications = kept_notifications infos;
      }))

-- `RspSessionState`. A private key is its number and its curve. `matchingId` is not set before
-- the client is authenticated.
pub record Session : Type 0 where
  pub transaction_id : String
  pub server_challenge : Bytes
  pub ci_cert_id : Bytes
  pub euicc_cert : Option Cert
  pub eum_cert : Option Cert
  pub eid : Option (List ℕ)
  pub profile_metadata : Option ProfileMetadata
  pub smdp_signature2 : Option Bytes
  pub euicc_otpk : Option Bytes
  pub smdp_ot : Option (ℕ × String)
  pub smdp_otpk : Option Bytes
  pub host_id : Option Bytes
  pub shared_secret : Option Bytes
  pub matching_id : Option String

unfoldable pub new_session : String → Bytes → Bytes → Session
new_session tid challenge ci = record {
  transaction_id = tid;
  server_challenge = challenge;
  ci_cert_id = ci;
  euicc_cert = none;
  eum_cert = none;
  eid = none;
  profile_metadata = none;
  smdp_signature2 = none;
  euicc_otpk = none;
  smdp_ot = none;
  smdp_otpk = none;
  host_id = none;
  shared_secret = none;
  matching_id = none;
}

-- What is pickled: the certificates as DER and the private key in parts, and the other members as
-- they are. They are kept in a session without certificates and key.
pub record Pickled : Type 0 where
  pub members : Session
  pub euicc_cert_der : Option Bytes
  pub eum_cert_der : Option Bytes
  pub smdp_otsk : Option (ℕ × String)

unfoldable pub der_of : Option Cert → Option Bytes
der_of none = none
der_of (some c) = some c.der

unfoldable pub getstate : Session → Pickled
unfolding der_of
getstate ss = record {
  members = record ss { euicc_cert = none; eum_cert = none; smdp_ot = none };
  euicc_cert_der = der_of ss.euicc_cert;
  eum_cert_der = der_of ss.eum_cert;
  smdp_otsk = ss.smdp_ot;
}

-- `load_der` is `x509.load_der_x509_certificate`
module _ (load_der : Bytes → Result Cert) where
  unfoldable pub load_cert : Option Bytes → Result (Option Cert)
  load_cert none = ok none
  load_cert (some der) = do c ← load_der der; ok (some c)

  -- a key whose number is 0 counts as absent
  unfoldable pub load_key : Option (ℕ × String) → Option (ℕ × String)
  load_key none = none
  load_key (some (n, curve)) = if nat_beq n 0 then none else some (n, curve)

  unfoldable pub setstate : Pickled → Result Session
  unfolding load_cert load_key
  setstate p = do
    euicc ← load_cert p.euicc_cert_der
    eum ← load_cert p.eum_cert_der
    ok (record p.members { euicc_cert = euicc; eum_cert = eum; smdp_ot = load_key p.smdp_otsk })

  -- a certificate that loads from its DER form as itself
  unfoldable pub IsLoadable : Option Cert → Type 0
  IsLoadable none = Unit
  IsLoadable (some c) = load_der c.der ≡ ok c

  unfoldable pub IsKey : Option (ℕ × String) → Type 0
  IsKey none = Unit
  IsKey (some (n, curve)) = n ≢ 0

  load_cert-der_of : (o : Option Cert) → IsLoadable o → load_cert (der_of o) ≡ ok o
  unfolding load_cert der_of IsLoadable
  load_cert-der_of none h = refl
  load_cert-der_of (some c) h = rw h refl

  load_key_lem : (o : Option (ℕ × String)) → IsKey o → load_key o ≡ o
  unfolding load_key IsKey
  load_key_lem none h = refl
  load_key_lem (some (n, curve)) h = ground arith

  -- A session that is pickled and loaded again is the same session, if its certificates load from
  -- their DER form as themselves and its private key is not zero.
  pub setstate-getstate :
      (ss : Session)
      → IsLoadable ss.euicc_cert
      → IsLoadable ss.eum_cert
      → IsKey ss.smdp_ot
      → setstate (getstate ss) ≡ ok ss
  unfolding setstate getstate
  setstate-getstate ss a b k =
      rw (load_cert-der_of ss.euicc_cert a)
        (rw (load_cert-der_of ss.eum_cert b) (rw (load_key_lem ss.smdp_ot k) refl))
