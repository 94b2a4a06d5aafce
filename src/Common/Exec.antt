-- ===== src/Common/Exec.antt =====
-- Methods of an object with a state `S` that may raise: they return the result and the new state.
use mathlib.Core.Logic.{◌⊎◌, inl, inr}
use mathlib.Core.Path.{◌≡◌, refl}
use virtual_rsp.Common.Python.{Result, ok, err, Error}

abbrev pub Exec {ℓ} : Type ℓ → Type ℓ → Type ℓ
Exec S A = S → Result A × S

module _ {ℓ} {S A : Type ℓ} where
  abbrev pub pure : A → Exec S A
  pure a s = (ok a, s)

  abbrev pub lift : Result A → Exec S A
  lift r s = (r, s)

  abbrev pub gets : (S → A) → Exec S A
  gets f s = (ok (f s), s)

abbrev pub modify {ℓ} : {S : Type ℓ} → (S → S) → Exec S (Unit {ℓ})
modify f s = (ok tt, f s)

module _ {ℓ} {S A B : Type ℓ} where
  abbrev pub continue : Result A → (A → Exec S B) → Exec S B
  continue (ok a) f s = f a s
  continue (err e) f s = (err e, s)

  infixl 5 ◌>>=◌ ◌>>◌
  abbrev pub ◌>>=◌ : Exec S A → (A → Exec S B) → Exec S B
  ◌>>=◌ m f s = let (r, s') = m s in continue r f s'

  abbrev pub ◌>>◌ : Exec S A → Exec S B → Exec S B
  m >> k = m >>= λ _. k

  -- A step after a result: it raises with the state kept, or runs on the value.
  pub continue-eq-ok :
      (r : Result A) (f : A → Exec S B) (s : S) {b : B}
      → (continue r f s).0 ≡ ok b
      → (a : A) × (r ≡ ok a) × ((f a s).0 ≡ ok b) × (continue r f s ≡ f a s)
  continue-eq-ok (ok a) f s h = (a, refl, h, refl)
  continue-eq-ok (err e) f s h = absurd (cc)

  pub continue-cases :
      (r : Result A) (f : A → Exec S B) (s : S)
      → ((a : A) × (r ≡ ok a) × (continue r f s ≡ f a s))
        ⊎ ((e : Error) × (continue r f s ≡ (err e, s)))
  continue-cases (ok a) f s = inl (a, refl, refl)
  continue-cases (err e) f s = inr (e, refl)

-- `try: return m() except Exception as e: return f(e)`
abbrev pub catch {ℓ} : {S A : Type ℓ} → Exec S A → (Error → A) → Exec S A
catch m f s = let (r, s') = m s in (elim r [ ok a ↦ ok a | err e ↦ ok (f e) ], s')
