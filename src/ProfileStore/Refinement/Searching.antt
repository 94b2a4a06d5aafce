-- ===== src/ProfileStore/Refinement/Searching.antt =====
-- The searches of gui/services/profile_store.py by position, and the edits at the position found,
-- against the lists of profiles of `Abstract`.
use virtual_rsp.Common.{
  ℕ, zero, suc, ◌+◌, ◌<◌, ◌≡◌, ◌⊎◌, inl, inr, refl, sym, ap, ◌∙◌, arith, Bool, true, false, not,
  none, some, List, [], ◌∷◌, map, Result, ok, Bool-cases, ◌==◌, nat_beq, if◌then◌else◌,
}
use virtual_rsp.ProfileStore.Defs.{Profile, Entry, enabled, disabled, to_dict}
use virtual_rsp.ProfileStore.Methods.{
  find_target, set_state, state_at, disable_entry, disable_other, disable_others, remove_at,
}
use virtual_rsp.ProfileStore.Abstract.{pick, keep, in_state, switched, switched_off, IsDistinct}

pub pick-eq-none :
    (test : Profile → Bool) (p : Profile) (ps : List Profile)
    → pick test (p ∷ ps) ≡ none
    → (test p ≡ false) × (pick test ps ≡ none)
pick-eq-none test p ps h = elim (Bool-cases (test p)) [
  | inl b ↦
      let bad : some p ≡ none = sym (ap (λ (c : Bool). if c then some p else pick test ps) b) ∙ h in
      absurd (cc)
  | inr b ↦ (b, sym (ap (λ (c : Bool). if c then some p else pick test ps) b) ∙ h)
]

module _ (test : Profile → Bool) where
  -- The only profile that passes the test, at its position.
  pub data At : ℕ → Profile → List Profile → Type 0 where
    here :
        {p : Profile} {ps : List Profile} → test p ≡ true → pick test ps ≡ none → At zero p (p ∷ ps)
    there :
        {j : ℕ} {p q : Profile} {ps : List Profile}
        → test q ≡ false
        → At j p ps
        → At (suc j) p (q ∷ ps)

  pub state_at-At :
      {j : ℕ} {p : Profile} {a : List Profile} → At j p a → state_at j (map to_dict a) ≡ ok p.state
  unfolding state_at to_dict
  state_at-At (here t n) = refl
  state_at-At (there t h) = state_at-At h

  keep_all : (a : List Profile) → pick test a ≡ none → keep (λ q. not (test q)) a ≡ a
  keep_all [] h = refl
  keep_all (p ∷ ps) h = let (f, n) = pick-eq-none test p ps h in rw f (ap (◌∷◌ p) (keep_all ps n))

  pub remove_at-At :
      {j : ℕ} {p : Profile} {a : List Profile}
      → At j p a
      → remove_at j (map to_dict a) ≡ map to_dict (keep (λ q. not (test q)) a)
  unfolding remove_at
  remove_at-At (here {p} {ps} t n) = rw t (ap (map to_dict) (sym (keep_all ps n)))
  remove_at-At (there {q = q} t h) = rw t (ap (◌∷◌ (to_dict q)) (remove_at-At h))

  no_target_switched_off : (a : List Profile) → pick test a ≡ none → map (switched_off test) a ≡ a
  no_target_switched_off [] h = refl
  no_target_switched_off (p ∷ ps) h =
      let (f, n) = pick-eq-none test p ps h in rw f (ap (◌∷◌ p) (no_target_switched_off ps n))

  pub set_state-At :
      {j : ℕ} {p : Profile} {a : List Profile}
      → At j p a
      → set_state j disabled (map to_dict a) ≡ map to_dict (map (switched_off test) a)
  unfolding set_state to_dict
  set_state-At (here {p} {ps} t n) =
      rw t (
        ap (λ l. to_dict (in_state disabled p) ∷ map to_dict l) (sym (no_target_switched_off ps n)))
  set_state-At (there {q = q} t h) = rw t (ap (◌∷◌ (to_dict q)) (set_state-At h))

  -- A round of the loop that disables the others.
  disable_entry-to_dict :
      (p : Profile) → test p ≡ false → disable_entry (to_dict p) ≡ ok (to_dict (switched test p))
  unfolding disable_entry to_dict
  disable_entry-to_dict p f =
      rw f (elim (Bool-cases (p.state == enabled)) [ inl on ↦ rw on refl | inr off ↦ rw off refl ])

  disable_other-to_dict :
      (t i : ℕ) (p : Profile)
      → nat_beq i t ≡ false
      → test p ≡ false
      → disable_other t i (to_dict p) ≡ ok (to_dict (switched test p))
  unfolding disable_other
  disable_other-to_dict t i p n f = rw n (disable_entry-to_dict p f)

  disable_others-none :
      (t i : ℕ) (a : List Profile)
      → t < i
      → pick test a ≡ none
      → disable_others t i (map to_dict a) ≡ ok (map to_dict (map (switched test) a))
  unfolding disable_others
  disable_others-none t i [] l h = refl
  disable_others-none t i (p ∷ ps) l h =
      let (f, n) = pick-eq-none test p ps h in
      rw (disable_other-to_dict t i p (ground arith) f)
        (rw (disable_others-none t (i + 1) ps (omega arith) n) refl)

  -- The others are disabled, and then the one that is found is enabled.
  pub disable_others-At :
      {j : ℕ} {p : Profile} {a : List Profile} (t i : ℕ)
      → t ≡ i + j
      → At j p a
      → (qs : List Entry) × (disable_others t i (map to_dict a) ≡ ok qs)
        × (set_state j enabled qs ≡ map to_dict (map (switched test) a))
  unfolding disable_others disable_other set_state to_dict
  disable_others-At t i e (here {p} {ps} h n) =
      let same : nat_beq i t ≡ true = ground arith in
      (
        to_dict p ∷ map to_dict (map (switched test) ps),
        rw same (rw (disable_others-none t (i + 1) ps (omega (arith, e)) n) refl),
        rw h refl,
      )
  disable_others-At t i e (there {q = q} h at) =
      let other : nat_beq i t ≡ false = ground arith in
      let (qs, f, g) = disable_others-At t (i + 1) (omega (arith, e)) at in
      (
        to_dict (switched test q) ∷ qs,
        rw (disable_other-to_dict t i q other h) (rw f refl),
        ap (◌∷◌ (to_dict (switched test q))) g,
      )

-- A search of the code whose test agrees with a test of profiles that at most one passes.
module _ (hit : Entry → Result Bool) (test : Profile → Bool)
    (agrees : (p : Profile) → hit (to_dict p) ≡ ok (test p))
    (lone : (p : Profile) (ps : List Profile)
      → IsDistinct (p ∷ ps)
      → test p ≡ true
      → pick test ps ≡ none) where
  pub find_target-pick :
      (i : ℕ) (a : List Profile)
      → IsDistinct a
      → ((pick test a ≡ none) × (find_target hit i (map to_dict a) ≡ ok none))
        ⊎ ((j : ℕ) × (p : Profile) × At test j p a
            × (pick test a ≡ some p)
            × (find_target hit i (map to_dict a) ≡ ok (some (i + j))))
  unfolding find_target
  find_target-pick i [] d = inl (refl, refl)
  find_target-pick i (p ∷ ps) d = elim (Bool-cases (test p)) [
    | inl b ↦ inr (
      zero,
      p,
      At.here b (lone p ps d b),
      rw b refl,
      rw (agrees p) (rw b (ap (λ n. ok (some n)) (omega arith))),
    )
    | inr b ↦ elim (find_target-pick (i + 1) ps d.2) [
      | inl (n, f) ↦ inl (rw b n, rw (agrees p) (rw b f))
      | inr (j, q, at, n, f) ↦ inr (
        suc j,
        q,
        At.there b at,
        rw b n,
        rw (agrees p) (rw b (f ∙ ap (λ n. ok (some n)) (omega arith))),
      )
    ]
  ]
