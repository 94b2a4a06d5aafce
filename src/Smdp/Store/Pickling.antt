-- ===== src/Smdp/Store/Pickling.antt =====
-- The sessions that the session store of pysim/pySim/esim/rsp.py pickles, and how looking up,
-- storing and deleting act on them.
use virtual_rsp.Common.{
  suc, [], ◌∷◌, none, some, String, Result, ok, length, ◌≡◌, ◌⊎◌, refl, ap, inl, inr, Bool-cases,
  Option-cases, subst, ◌==◌,
}
use virtual_rsp.Common.Dict.{Dict, find, put, remove}
use virtual_rsp.Bsp.Padding.{Bytes}
use virtual_rsp.Certs.{Cert}
use virtual_rsp.Smdp.Session.{
  Session, Pickled, getstate, setstate, IsLoadable, IsKey, setstate-getstate,
}

abbrev pub pickled : Dict Session → Dict Pickled
pickled [] = []
pickled ((k, ss) ∷ d) = (k, getstate ss) ∷ pickled d

module _ (load_der : Bytes → Result Cert) where
  -- A session whose certificates load from their DER form as themselves and whose key is not zero.
  pub record AllLoad (ss : Session) : Type 0 where
    pub euicc : IsLoadable load_der ss.euicc_cert
    pub eum : IsLoadable load_der ss.eum_cert
    pub key : IsKey load_der ss.smdp_ot

  abbrev pub LoadsAll : Dict Session → Type 0
  LoadsAll [] = Unit
  LoadsAll ((_, ss) ∷ d) = AllLoad ss × LoadsAll d

  find-pickled-none : (k : String) (d : Dict Session) → find k d ≡ none → find k (pickled d) ≡ none
  unfolding find
  find-pickled-none k [] h = refl
  find-pickled-none k ((k', ss) ∷ d) h = elim (Bool-cases (k' == k)) [
    | inl t ↦ let bad : some ss ≡ none = rw (t, find) at h in absurd (cc)
    | inr f ↦ rw f (find-pickled-none k d (rw (f, find) at h))
  ]

  find-pickled-some :
      (k : String) (ss : Session) (d : Dict Session)
      → LoadsAll d
      → find k d ≡ some ss
      → (find k (pickled d) ≡ some (getstate ss)) × AllLoad ss
  unfolding find
  find-pickled-some k ss [] l h = absurd (cc)
  find-pickled-some k ss ((k', ss') ∷ d) (l, ls) h = elim (Bool-cases (k' == k)) [
    | inl t ↦
        let q : some ss' ≡ some ss = rw (t, find) at h in
        let e : ss' ≡ ss = cc in (rw t (ap (λ x. some (getstate x)) e), subst AllLoad e l)
    | inr f ↦ let (e, al) = find-pickled-some k ss d ls (rw (f, find) at h) in (rw f e, al)
  ]

  pub put-pickled :
      (k : String) (ss : Session) (d : Dict Session)
      → put k (getstate ss) (pickled d) ≡ pickled (put k ss d)
  unfolding put
  put-pickled k ss [] = refl
  put-pickled k ss ((k', ss') ∷ d) = elim (Bool-cases (k' == k)) [
    | inl t ↦ rw t refl
    | inr f ↦ rw f (ap (◌∷◌ (k', getstate ss')) (put-pickled k ss d))
  ]

  pub remove-pickled : (k : String) (d : Dict Session) → remove k (pickled d) ≡ pickled (remove k d)
  unfolding remove
  remove-pickled k [] = refl
  remove-pickled k ((k', ss') ∷ d) = elim (Bool-cases (k' == k)) [
    | inl t ↦ rw t (remove-pickled k d)
    | inr f ↦ rw f (ap (◌∷◌ (k', getstate ss')) (remove-pickled k d))
  ]

  pub put-LoadsAll :
      (k : String) (ss : Session) (d : Dict Session)
      → AllLoad ss
      → LoadsAll d
      → LoadsAll (put k ss d)
  unfolding put
  put-LoadsAll k ss [] a l = (a, tt)
  put-LoadsAll k ss ((k', ss') ∷ d) a (b, l) = elim (Bool-cases (k' == k)) [
    | inl t ↦ rw t (a, l)
    | inr f ↦ rw f (b, put-LoadsAll k ss d a l)
  ]

  pub remove-LoadsAll : (k : String) (d : Dict Session) → LoadsAll d → LoadsAll (remove k d)
  unfolding remove
  remove-LoadsAll k [] l = l
  remove-LoadsAll k ((k', ss') ∷ d) (b, l) = elim (Bool-cases (k' == k)) [
    | inl t ↦ rw t (remove-LoadsAll k d l)
    | inr f ↦ rw f (b, remove-LoadsAll k d l)
  ]

  pub length-pickled : (d : Dict Session) → length (pickled d) ≡ length d
  length-pickled [] = refl
  length-pickled (_ ∷ d) = ap suc (length-pickled d)

  pub find-cases :
      (k : String) (d : Dict Session)
      → LoadsAll d
      → ((find k d ≡ none) × (find k (pickled d) ≡ none))
        ⊎ ((ss : Session) × (find k d ≡ some ss)
            × (find k (pickled d) ≡ some (getstate ss))
            × (setstate load_der (getstate ss) ≡ ok ss))
  find-cases k d l = elim (Option-cases (find k d)) [
    | inl e ↦ inl (e, find-pickled-none k d e)
    | inr (ss, e) ↦
        let (there, a) = find-pickled-some k ss d l e in
        inr (ss, e, there, setstate-getstate load_der ss a.euicc a.eum a.key)
  ]
