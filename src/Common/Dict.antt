-- ===== src/Common/Dict.antt =====
-- Python dictionaries with text keys, as association lists in the order of insertion; the
-- in-memory shelf of `RspSessionStore` in pysim/pySim/esim/rsp.py is one of sessions.
use virtual_rsp.Common.{
  [], ◌∷◌, List, Bool-cases, ◌==◌, eq_iff, eq_refl, str_ne, Option, none, some, String, ◌≡◌, ◌≢◌,
  refl, sym, ◌∙◌, inl, inr, if◌then◌else◌,
}

abbrev pub Dict {ℓ} : Type ℓ → Type ℓ
Dict V = List (String × V)

module _ {ℓ} {V : Type ℓ} where
  -- `d.get(key, None)`
  unfoldable pub find : String → Dict V → Option V
  find key [] = none
  find key ((k, v) ∷ d) = let rest = find key d in if k == key then some v else rest

  -- `d[key] = value`
  unfoldable pub put : String → V → Dict V → Dict V
  put key value [] = (key, value) ∷ []
  put key value ((k, v) ∷ d) =
      let rest = put key value d in if k == key then (k, value) ∷ d else (k, v) ∷ rest

  -- `del d[key]` where the key is present; the keys are different
  unfoldable pub remove : String → Dict V → Dict V
  remove key [] = []
  remove key ((k, v) ∷ d) = let rest = remove key d in if k == key then rest else (k, v) ∷ rest

  pub find-put : (key : String) (value : V) (d : Dict V) → find key (put key value d) ≡ some value
  unfolding find put
  find-put key value [] = rw (eq_refl key) refl
  find-put key value ((k, v) ∷ d) = elim (Bool-cases (k == key)) [
    | inl t ↦ rw t (rw t refl)
    | inr f ↦ rw f (rw f (find-put key value d))
  ]

  if_same :
      (other k : String) (v : V) (d e : Dict V)
      → find other e ≡ find other d
      → find other ((k, v) ∷ e) ≡ find other ((k, v) ∷ d)
  unfolding find
  if_same other k v d e h = rw h refl

  pub find-put_other :
      (key other : String) (value : V) (d : Dict V)
      → other ≢ key
      → find other (put key value d) ≡ find other d
  unfolding find put
  find-put_other key other value [] n = rw (str_ne key other (λ e. n (sym e))) refl
  find-put_other key other value ((k, v) ∷ d) n = elim (Bool-cases (k == key)) [
    | inl t ↦ let e = str_ne k other (λ e. n (sym e ∙ (eq_iff k key).0 t)) in rw t (rw e refl)
    | inr f ↦ rw f (if_same other k v d _ (find-put_other key other value d n))
  ]

  pub find-remove : (key : String) (d : Dict V) → find key (remove key d) ≡ none
  unfolding find remove
  find-remove key [] = refl
  find-remove key ((k, v) ∷ d) = elim (Bool-cases (k == key)) [
    | inl t ↦ rw t (find-remove key d)
    | inr f ↦ rw f (rw f (find-remove key d))
  ]

  pub find-remove_other :
      (key other : String) (d : Dict V) → other ≢ key → find other (remove key d) ≡ find other d
  unfolding find remove
  find-remove_other key other [] n = refl
  find-remove_other key other ((k, v) ∷ d) n = elim (Bool-cases (k == key)) [
    | inl t ↦
        let e = str_ne k other (λ e. n (sym e ∙ (eq_iff k key).0 t)) in
        rw t (rw e (find-remove_other key other d n))
    | inr f ↦ rw f (if_same other k v d _ (find-remove_other key other d n))
  ]
