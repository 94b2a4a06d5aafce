-- ===== src/ProfileStore/Refinement/Deleting.antt =====
-- `delete_profile` of gui/services/profile_store.py against `Abstract`.
use virtual_rsp.Common.{
  ℕ, arith, ◌≡◌, inl, inr, refl, ap, ◌∙◌, true, false, not, String, Option, none, some, List, map,
  ok, Bool-cases, ◌==◌,
}
use virtual_rsp.ProfileStore.Defs.{Profile, Disk, Io, enabled, to_dict}
use virtual_rsp.ProfileStore.Methods.{
  profiles_of, find_target, state_at, remove_at, delete_matches, delete_found, delete_edit,
  delete_profile,
}
use virtual_rsp.ProfileStore.Runs.Edits.{with_profiles}
use virtual_rsp.ProfileStore.Abstract.{Named, names, keep, delete}
use virtual_rsp.ProfileStore.Refinement.Searching.{find_target-pick, state_at-At, remove_at-At}
use virtual_rsp.ProfileStore.Refinement.Naming.{names-lone, keep-IsDistinct}
use virtual_rsp.ProfileStore.Refinement.Represents.{
  Represents, Outcome, Outcome-kept, transact_kept, writes-Outcome,
}

module _ (io : Io) (a : List Profile) (d : Disk) (r : Represents a d) where
  -- A deletion by one of the names.
  module _ (n : Named) (i m : Option String)
      (agrees : (p : Profile) → delete_matches i none m (to_dict p) ≡ ok (names n p)) where
    delete_missing :
        find_target (delete_matches i none m) 0 (map to_dict a) ≡ ok none
        → delete_edit i none m r.db ≡ ok ((false, "Profile not found"), none)
    unfolding delete_edit profiles_of delete_found
    delete_missing f = rw r.listed (rw f refl)

    module _ (s : String) (j : ℕ)
        (f : find_target (delete_matches i none m) 0 (map to_dict a) ≡ ok (some j))
        (e : state_at j (map to_dict a) ≡ ok s) where
      delete_on :
          (s == enabled) ≡ true
          → delete_edit i none m r.db
            ≡ ok ((false, "Cannot delete enabled profile (disable it first)"), none)
      unfolding delete_edit profiles_of delete_found
      delete_on on = rw r.listed (rw f (rw e (rw on refl)))

      delete_off :
          (s == enabled) ≡ false
          → delete_edit i none m r.db
            ≡ ok
                ((true, "Profile deleted"), some (with_profiles r.db (remove_at j (map to_dict a))))
      unfolding delete_edit profiles_of delete_found
      delete_off off = rw r.listed (rw f (rw e (rw off refl)))

    pub delete-Outcome : Outcome (delete n) a (delete_profile io i none m d)
    unfolding delete_profile
    delete-Outcome =
        let edit = delete_edit i none m in
        elim (find_target-pick (delete_matches i none m) (names n) agrees (names-lone n) 0 a
          r.distinct) [
            | inl (g, f) ↦
                Outcome-kept io (delete n) a d r (false, "Profile not found") a (rw g refl) _
                  (transact_kept io edit a d r _ (delete_missing f)) refl
            | inr (j, p, at, g, f) ↦
                let f' : find_target (delete_matches i none m) 0 (map to_dict a) ≡ ok (some j) =
                  f ∙ ap (λ (k : ℕ). ok (some k)) (omega arith) in
                let e = state_at-At (names n) at in
                elim (Bool-cases (p.state == enabled)) [
                  | inl on ↦
                      Outcome-kept io (delete n) a d r _ a (rw g (rw on refl)) _
                        (transact_kept io edit a d r _ (delete_on p.state j f' e on)) refl
                  | inr off ↦
                      writes-Outcome io edit a d r (delete n) _ (keep (λ q. not (names n q)) a)
                        (λ t. t) _ (rw g (rw off refl))
                        (delete_off p.state j f' e off
                          ∙ ap (λ l. ok ((true, "Profile deleted"), some (with_profiles r.db l)))
                              (remove_at-At (names n) at))
                        (keep-IsDistinct (λ q. not (names n q)) a r.distinct) (λ _. refl)
                        (λ _. refl)
                ]
          ]
