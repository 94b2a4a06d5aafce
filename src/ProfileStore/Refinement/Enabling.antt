-- ===== src/ProfileStore/Refinement/Enabling.antt =====
-- `enable_profile` and `disable_profile` of gui/services/profile_store.py against `Abstract`.
use virtual_rsp.Common.{
  ℕ, arith, ◌≡◌, inl, inr, refl, ap, ◌∙◌, true, false, String, none, some, List, map, ok,
  Bool-cases, ◌==◌,
}
use virtual_rsp.ProfileStore.Defs.{Profile, Entry, Disk, Io, enabled, disabled, to_dict}
use virtual_rsp.ProfileStore.Methods.{
  profiles_of, find_target, set_state, state_at, disable_others, matches, enable_found, enable_edit,
  enable_profile, disable_found, disable_edit, disable_profile,
}
use virtual_rsp.ProfileStore.Runs.Edits.{with_profiles}
use virtual_rsp.ProfileStore.Abstract.{iccid, names, switched, switched_off, enable, disable}
use virtual_rsp.ProfileStore.Refinement.Searching.{
  find_target-pick, state_at-At, set_state-At, disable_others-At,
}
use virtual_rsp.ProfileStore.Refinement.Naming.{
  matches-names, names-lone, switched-IsDistinct, switched_off-IsDistinct,
}
use virtual_rsp.ProfileStore.Refinement.Represents.{
  Represents, Outcome, Outcome-kept, transact_kept, writes-Outcome,
}

module _ (io : Io) (a : List Profile) (d : Disk) (r : Represents a d) where
  enable_missing :
      (i : String)
      → find_target (matches (some i) none) 0 (map to_dict a) ≡ ok none
      → enable_edit (some i) none r.db ≡ ok ((false, "Profile not found"), none)
  unfolding enable_edit profiles_of enable_found
  enable_missing i f = rw r.listed (rw f refl)

  enable_there :
      (i : String) (j : ℕ) (qs : List Entry)
      → find_target (matches (some i) none) 0 (map to_dict a) ≡ ok (some j)
      → disable_others j 0 (map to_dict a) ≡ ok qs
      → enable_edit (some i) none r.db
        ≡ ok ((true, "Profile enabled"), some (with_profiles r.db (set_state j enabled qs)))
  unfolding enable_edit profiles_of enable_found
  enable_there i j qs f g = rw r.listed (rw f (rw g refl))

  pub enable-Outcome : (i : String) → Outcome (enable i) a (enable_profile io (some i) none d)
  unfolding enable_profile
  enable-Outcome i =
      let test = names (iccid i) in
      let edit = enable_edit (some i) none in
      elim (find_target-pick (matches (some i) none) test (matches-names i) (names-lone (iccid i)) 0
        a r.distinct) [
          | inl (n, f) ↦
              Outcome-kept io (enable i) a d r (false, "Profile not found") a (rw n refl) _
                (transact_kept io edit a d r _ (enable_missing i f)) refl
          | inr (j, p, at, n, f) ↦
              let f' : find_target (matches (some i) none) 0 (map to_dict a) ≡ ok (some j) =
                f ∙ ap (λ (k : ℕ). ok (some k)) (omega arith) in
              let (qs, g, e) = disable_others-At test j 0 (omega arith) at in
              let e' =
                enable_there i j qs f' g
                ∙ ap (λ l. ok ((true, "Profile enabled"), some (with_profiles r.db l))) e in
              writes-Outcome io edit a d r (enable i) _ (map (switched test) a) (λ t. t) _
                (rw n refl) e' (switched-IsDistinct test a r.distinct) (λ _. refl) (λ _. refl)
        ]

  disable_missing :
      (i : String)
      → find_target (matches (some i) none) 0 (map to_dict a) ≡ ok none
      → disable_edit (some i) none r.db ≡ ok ((false, "Profile not found"), none)
  unfolding disable_edit profiles_of disable_found
  disable_missing i f = rw r.listed (rw f refl)

  module _ (i s : String) (j : ℕ)
      (f : find_target (matches (some i) none) 0 (map to_dict a) ≡ ok (some j))
      (e : state_at j (map to_dict a) ≡ ok s) where
    disable_on :
        (s == enabled) ≡ true
        → disable_edit (some i) none r.db
          ≡ ok (
            (true, "Profile disabled"),
            some (with_profiles r.db (set_state j disabled (map to_dict a))),
          )
    unfolding disable_edit profiles_of disable_found
    disable_on on = rw r.listed (rw f (rw e (rw on refl)))

    disable_off :
        (s == enabled) ≡ false
        → disable_edit (some i) none r.db ≡ ok ((false, "Profile already disabled"), none)
    unfolding disable_edit profiles_of disable_found
    disable_off off = rw r.listed (rw f (rw e (rw off refl)))

  pub disable-Outcome : (i : String) → Outcome (disable i) a (disable_profile io (some i) none d)
  unfolding disable_profile
  disable-Outcome i =
      let test = names (iccid i) in
      let edit = disable_edit (some i) none in
      elim (find_target-pick (matches (some i) none) test (matches-names i) (names-lone (iccid i)) 0
        a r.distinct) [
          | inl (n, f) ↦
              Outcome-kept io (disable i) a d r (false, "Profile not found") a (rw n refl) _
                (transact_kept io edit a d r _ (disable_missing i f)) refl
          | inr (j, p, at, n, f) ↦
              let f' : find_target (matches (some i) none) 0 (map to_dict a) ≡ ok (some j) =
                f ∙ ap (λ (k : ℕ). ok (some k)) (omega arith) in
              let e = state_at-At test at in
              elim (Bool-cases (p.state == enabled)) [
                | inl on ↦
                    writes-Outcome io edit a d r (disable i) _ (map (switched_off test) a) (λ t. t)
                      _ (rw n (rw on refl))
                      (disable_on i p.state j f' e on
                        ∙ ap (λ l. ok ((true, "Profile disabled"), some (with_profiles r.db l)))
                            (set_state-At test at))
                      (switched_off-IsDistinct test a r.distinct) (λ _. refl) (λ _. refl)
                | inr off ↦
                    Outcome-kept io (disable i) a d r _ a (rw n (rw off refl)) _
                      (transact_kept io edit a d r _ (disable_off i p.state j f' e off)) refl
              ]
        ]
