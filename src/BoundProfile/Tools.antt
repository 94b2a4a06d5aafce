-- ===== src/BoundProfile/Tools.antt =====
-- The functions of the packages that pysim/pySim/esim/es8p.py calls, as parameters, and the data
-- of its packages.
use virtual_rsp.Common.{
  List, ℕ, ◌+◌, ◌*◌, ◌%◌, ◌^◌, ◌≤◌, ◌<◌, ◌≡◌, ◌≢◌, ◌⊎◌, [], ◌∷◌, ◌++◌, Option, String, Result, ok,
  err, Error, length,
}
use virtual_rsp.Bsp.Padding.{Bytes}
use virtual_rsp.Bsp.Algo.{Crypto, IsCrypto}
use virtual_rsp.Smdp.Eid.{Text}
use virtual_rsp.Smdp.Session.{ProfileMetadata, StoreMetadata}

-- `int.from_bytes(b, 'big')`
unfoldable pub from_bytes : ℕ → Bytes → ℕ
from_bytes n [] = n
from_bytes n (b ∷ bs) = from_bytes (n * 256 + b) bs

-- What `gen_initialiseSecureChannel` builds, without its signature.
pub record SecureChannel : Type 0 where
  pub remote_op_id : ℕ
  pub transaction_id : Bytes
  pub key_type : Bytes
  pub key_len : Bytes
  pub host_id : Bytes
  pub smdp_otpk : Bytes

-- `ReplaceSessionKeysRequest`
pub record SessionKeys : Type 0 where
  pub ppk_enc : Bytes
  pub ppk_cmac : Bytes
  pub initial_mcv : Bytes

-- AES and CMAC; the key derivation; BER-TLV, where `parse_rawtag` gives tag, value and remainder
-- and `return_rawtlv` tag, the whole of the TLV and remainder; hexadecimal texts; ASN.1; ECDH.
pub record Tools : Type 0 where
  pub crypto : Crypto
  pub kdf : ℕ → Bytes → Bytes → Bytes
  pub encode_tag : ℕ → Bytes
  pub parse_rawtag : Bytes → Result (ℕ × Bytes × Bytes)
  pub return_rawtlv : Bytes → Result (ℕ × Bytes × Bytes)
  pub h2b : String → Result Bytes
  pub eid_bytes : Text → Result Bytes
  pub encode_channel : SecureChannel → Bytes → Bytes
  pub decode_channel : Bytes → Result (SecureChannel × Bytes)
  pub configure_isdp : Bytes
  pub decode_configure : Bytes → Result (Unit {0})
  pub encode_metadata : StoreMetadata → Bytes
  pub decode_metadata : Bytes → Result StoreMetadata
  pub encode_keys : SessionKeys → Bytes
  pub decode_keys : Bytes → Result SessionKeys
  pub exchange : ℕ × String → Bytes → Result Bytes

-- The tags in a bound profile package, context tags of one byte, and its own.
abbrev pub IsByteTag : ℕ → Type 0
IsByteTag tag = (128 ≤ tag) × (tag < 224) × (tag % 32 ≢ 31)

abbrev pub IsTag : ℕ → Type 0
IsTag tag = IsByteTag tag ⊎ (tag ≡ 0xBF36)

module _ (t : Tools) where
  -- `wrap_as_der_tlv`
  unfoldable pub wrap_as_der_tlv : ℕ → Bytes → Bytes
  wrap_as_der_tlv tag v = t.encode_tag tag ++ t.crypto.encode_len (length v) ++ v

  -- What the code relies on: a TLV of at most 4 GiB parses back whatever stands after it, and
  -- nothing is parsed from no bytes; what is
  -- returned of a TLV and its remainder are the bytes given; the tag of one byte is that byte; the ASN.1 codec undoes
  -- itself on keys and requests, reads the metadata it wrote, and writes a secure channel request as one TLV.
  pub record IsTools : Type 0 where
    pub cipher : IsCrypto t.crypto
    pub encode_tag_one : (tag : ℕ) → IsByteTag tag → t.encode_tag tag ≡ tag ∷ []
    pub parse_wrapped :
        (tag : ℕ) (v rest : Bytes)
        → IsTag tag
        → length v < 2 ^ 32
        → t.parse_rawtag (wrap_as_der_tlv tag v ++ rest) ≡ ok (tag, v, rest)
    pub return_wrapped :
        (tag : ℕ) (v rest : Bytes)
        → IsTag tag
        → length v < 2 ^ 32
        → t.return_rawtlv (wrap_as_der_tlv tag v ++ rest) ≡ ok (tag, wrap_as_der_tlv tag v, rest)
    pub return_splits :
        (m tlv rest : Bytes) (tag : ℕ)
        → t.return_rawtlv m ≡ ok (tag, tlv, rest)
        → (0 < length tlv) × (tlv ++ rest ≡ m)
    pub parse_nothing : (e : Error) × (t.parse_rawtag [] ≡ err e)
    pub return_channel :
        (i : SecureChannel) (signature rest : Bytes)
        → length (t.encode_channel i signature) < 2 ^ 32
        → t.return_rawtlv (t.encode_channel i signature ++ rest)
          ≡ ok (0xBF23, t.encode_channel i signature, rest)
    pub channel_inverse :
        (i : SecureChannel) (signature : Bytes)
        → t.decode_channel (t.encode_channel i signature) ≡ ok (i, signature)
    pub configure_inverse : t.decode_configure t.configure_isdp ≡ ok tt
    pub metadata_decodes :
        (m : StoreMetadata)
        → (m' : StoreMetadata) × (t.decode_metadata (t.encode_metadata m) ≡ ok m')
    pub keys_inverse : (k : SessionKeys) → t.decode_keys (t.encode_keys k) ≡ ok k

-- `UnprotectedProfilePackage`, with the bytes that `from_der` set last
pub record UnprotectedProfilePackage : Type 0 where
  pub metadata : Option ProfileMetadata
  pub der : Bytes

-- `ProtectedProfilePackage`, with the keys it is protected under
pub record ProtectedProfilePackage : Type 0 where
  pub metadata : Option ProfileMetadata
  pub upp : UnprotectedProfilePackage
  pub keys : SessionKeys
  pub encoded : List Bytes

-- `BoundProfilePackage`
pub record BoundProfilePackage : Type 0 where
  pub upp : Option UnprotectedProfilePackage
  pub ppp : Option ProtectedProfilePackage
