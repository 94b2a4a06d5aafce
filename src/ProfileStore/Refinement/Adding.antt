-- ===== src/ProfileStore/Refinement/Adding.antt =====
-- `add_profile` of gui/services/profile_store.py against `Abstract`.
use virtual_rsp.Common.{
  arith, ◌≡◌, ◌⊎◌, inl, inr, refl, ap, Bool, true, false, String, none, some, List, [], ◌∷◌, ◌++◌,
  map, map-append, Result, ok, err, Bool-cases, truthy, ◌==◌,
}
use virtual_rsp.ProfileStore.Defs.{Profile, Disk, Io, to_dict}
use virtual_rsp.ProfileStore.Methods.{Reply, profiles_of, has_matching_id, add_edit, add_profile}
use virtual_rsp.ProfileStore.Runs.Edits.{with_profiles}
use virtual_rsp.ProfileStore.Abstract.{matching_id, names, pick, add, Allows}
use virtual_rsp.ProfileStore.Refinement.Naming.{append-IsDistinct}
use virtual_rsp.ProfileStore.Refinement.Represents.{
  Represents, Outcome, Outcome-kept, transact_kept, writes-Outcome,
}

unfoldable pub added : Result Bool × Disk → Result Reply × Disk
added (ok b, d) = (ok (b, ""), d)
added (err e, d) = (err e, d)

-- The duplicate test of the code, against the names.
has_matching_id-pick :
    (m : String) (a : List Profile)
    → ((has_matching_id m (map to_dict a) ≡ true)
        × (p : Profile) × (pick (names (matching_id m)) a ≡ some p))
      ⊎ ((has_matching_id m (map to_dict a) ≡ false) × (pick (names (matching_id m)) a ≡ none))
unfolding has_matching_id to_dict
has_matching_id-pick m [] = inr (refl, refl)
has_matching_id-pick m (p ∷ ps) = elim (Bool-cases (truthy m)) [
  | inl t ↦ elim (Bool-cases (p.matching_id == m)) [
    | inl e ↦ inl (rw (t, e) refl, p, rw (t, e) refl)
    | inr e ↦ elim (has_matching_id-pick m ps) [
      | inl (h, q, f) ↦ inl (rw e h, q, rw t (rw e f))
      | inr (h, f) ↦ inr (rw e h, rw t (rw e f))
    ]
  ]
  | inr t ↦ elim (has_matching_id-pick m ps) [
    | inl (h, q, f) ↦ inl (ground (arith, h), q, rw t f)
    | inr (h, f) ↦ inr (ground (arith, h), rw t f)
  ]
]

module _ (io : Io) (a : List Profile) (d : Disk) (r : Represents a d) where
  add_refused :
      (p : Profile)
      → has_matching_id p.matching_id (map to_dict a) ≡ true
      → add_edit p r.db ≡ ok (false, none)
  unfolding add_edit profiles_of
  add_refused p h = rw r.listed (rw h refl)

  add_accepted :
      (p : Profile)
      → has_matching_id p.matching_id (map to_dict a) ≡ false
      → add_edit p r.db ≡ ok (true, some (with_profiles r.db (map to_dict (a ++ p ∷ []))))
  unfolding add_edit profiles_of
  add_accepted p h = rw r.listed (rw h (rw (map-append to_dict a (p ∷ [])) refl))

  pub add-Outcome :
      (p : Profile) → Allows (add p) a → Outcome (add p) a (added (add_profile io p d))
  unfolding add_profile added
  add-Outcome p fresh = elim (has_matching_id-pick p.matching_id a) [
    | inl (h, q, t) ↦
        Outcome-kept io (add p) a d r (false, "") a (rw t refl) _
          (ap added (transact_kept io (add_edit p) a d r false (add_refused p h))) refl
    | inr (h, t) ↦
        writes-Outcome io (add_edit p) a d r (add p) (true, "") (a ++ p ∷ []) added true (rw t refl)
          (add_accepted p h) (append-IsDistinct a p r.distinct fresh t) (λ _. refl) (λ _. refl)
  ]
