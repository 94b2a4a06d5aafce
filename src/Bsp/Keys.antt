-- ===== src/Bsp/Keys.antt =====
-- The derivation of the session keys in pysim/pySim/esim/bsp.py. The X9.63 key derivation function
-- with SHA-256 is a parameter, as is the BER length.
use virtual_rsp.Common.{
  ℕ, zero, suc, ◌+◌, ◌≤◌, ◌≡◌, refl, sym, ap, ◌∙◌, subst, arith, [], ◌∷◌, ◌++◌, append_assoc, not,
  Result, ok, ◌>>=◌, ◌>>◌, >>=-eq-ok, ok-injective, raise_if, assertion_error, leb, length, take,
  drop, length-take, length-drop, take-append-drop,
}
use virtual_rsp.Bsp.Padding.{Bytes}
use virtual_rsp.Bsp.Algo.{Bsp}

-- `kdf length info secret`
module _ (kdf : ℕ → Bytes → Bytes → Bytes) (encode_len : ℕ → Bytes) where
  unfoldable pub shared_info : ℕ → ℕ → Bytes → Bytes → Bytes
  shared_info key_type key_length host_id eid =
      key_type ∷ key_length ∷ encode_len (length host_id)
      ++ host_id
      ++ encode_len (length eid)
      ++ eid

  -- `bsp_key_derivation` with keys of 16 bytes: `s_enc`, `s_mac` and the initial chaining value
  unfoldable pub bsp_key_derivation : Bytes → ℕ → ℕ → Bytes → Bytes → Result (Bytes × Bytes × Bytes)
  unfolding shared_info
  bsp_key_derivation secret key_type key_length host_id eid = do
    raise_if (not (leb key_type 255)) assertion_error
    raise_if (not (leb key_length 255)) assertion_error
    let out = kdf 48 (shared_info key_type key_length host_id eid) secret
    ok (take 16 (drop 16 out), take 16 (drop 32 out), take 16 out)

  -- `BspInstance.from_kdf`
  unfoldable pub from_kdf : Bytes → ℕ → ℕ → Bytes → Bytes → Result Bsp
  unfolding bsp_key_derivation
  from_kdf secret key_type key_length host_id eid = do
    (s_enc, s_mac, initial_mcv) ← bsp_key_derivation secret key_type key_length host_id eid
    ok (record { s_enc = s_enc; block_nr = 1; s_mac = s_mac; mac_chain = initial_mcv })

abbrev empty : Bytes
empty = []

drop_nil : (n : ℕ) → drop n empty ≡ empty
drop_nil zero = refl
drop_nil (suc n) = refl

take_all : (n : ℕ) (m : Bytes) → length m ≤ n → take n m ≡ m
take_all zero [] h = refl
take_all zero (b ∷ m) h = absurd (omega (arith, h))
take_all (suc n) [] h = refl
take_all (suc n) (b ∷ m) h = ap (◌∷◌ b) (take_all n m (omega (arith, h)))

drop_twice : (n k : ℕ) (m : Bytes) → drop k (drop n m) ≡ drop (n + k) m
drop_twice zero k m = ap (λ j. drop j m) (omega arith)
drop_twice (suc n) k [] = drop_nil k ∙ sym (drop_nil (suc n + k))
drop_twice (suc n) k (b ∷ m) =
    let e : suc (n + k) ≡ suc n + k = omega arith in drop_twice n k m ∙ ap (λ j. drop j (b ∷ m)) e

thirds :
    (out : Bytes)
    → length out ≡ 48
    → (length (take 16 out) ≡ 16)
      × (length (take 16 (drop 16 out)) ≡ 16)
      × (length (take 16 (drop 32 out)) ≡ 16)
      × (take 16 out ++ take 16 (drop 16 out) ++ take 16 (drop 32 out) ≡ out)
thirds out h =
    let l16 = length-drop 16 out in
    let l32 = length-drop 32 out in
    let last : take 16 (drop 32 out) ≡ drop 16 (drop 16 out) =
      take_all 16 (drop 32 out) (omega (arith, h, l32)) ∙ sym (drop_twice 16 16 out) in
    (
      omega (arith, h, length-take 16 out),
      omega (arith, h, l16, length-take 16 (drop 16 out)),
      omega (arith, h, l32, length-take 16 (drop 32 out)),
      ap (λ m. take 16 out ++ take 16 (drop 16 out) ++ m) last
          ∙ append_assoc (take 16 out) (take 16 (drop 16 out)) (drop 16 (drop 16 out))
          ∙ ap (λ m. take 16 out ++ m) (take-append-drop 16 (drop 16 out))
          ∙ take-append-drop 16 out,
    )

-- An instance that is made from a shared secret starts at block 1 and has a chaining value and two
-- keys of 16 bytes each, which make up the 48 bytes that are derived for both keys, the host and the
-- EID, if the key derivation function gives as many bytes as it is asked for.
pub from_kdf_lem :
    (kdf : ℕ → Bytes → Bytes → Bytes) (encode_len : ℕ → Bytes) (secret : Bytes)
    (key_type key_length : ℕ) (host_id eid : Bytes) (b : Bsp)
    → ((n : ℕ) (info s : Bytes) → length (kdf n info s) ≡ n)
    → from_kdf kdf encode_len secret key_type key_length host_id eid ≡ ok b
    → (b.block_nr ≡ 1)
      × (length b.mac_chain ≡ 16)
      × (length b.s_enc ≡ 16)
      × (length b.s_mac ≡ 16)
      × (b.mac_chain ++ b.s_enc ++ b.s_mac
          ≡ kdf 48 (shared_info kdf encode_len key_type key_length host_id eid) secret)
unfolding from_kdf bsp_key_derivation
from_kdf_lem kdf encode_len secret key_type key_length host_id eid b k h =
    let out = kdf 48 (shared_info kdf encode_len key_type key_length host_id eid) secret in
    let (keys, a, h1) =
      >>=-eq-ok (bsp_key_derivation kdf encode_len secret key_type key_length host_id eid) _ h in
    let (_, _, a1) = >>=-eq-ok (raise_if (not (leb key_type 255)) _) _ a in
    let (_, _, a2) = >>=-eq-ok (raise_if (not (leb key_length 255)) _) _ a1 in
    let (l0, l1, l2, all) =
      thirds out (k 48 (shared_info kdf encode_len key_type key_length host_id eid) secret) in
    let same : record {
      s_enc = take 16 (drop 16 out);
      block_nr = 1;
      s_mac = take 16 (drop 32 out);
      mac_chain = take 16 out;
    }
        ≡ b =
      ap
        (λ (p : Bytes × Bytes × Bytes). record {
          s_enc = p.0;
          block_nr = 1;
          s_mac = p.1;
          mac_chain = p.2;
        })
        (ok-injective a2)
      ∙ ok-injective h1 in
    subst
      (λ (c : Bsp).
        (c.block_nr ≡ 1)
        × (length c.mac_chain ≡ 16)
        × (length c.s_enc ≡ 16)
        × (length c.s_mac ≡ 16)
        × (c.mac_chain ++ c.s_enc ++ c.s_mac ≡ out))
      same (refl, l0, l1, l2, all)
