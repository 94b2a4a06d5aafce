-- ===== src/ProfileStore/Refinement/Naming.antt =====
-- The tests of the searches of gui/services/profile_store.py against names of profiles, and what
-- keeps profiles distinct.
use virtual_rsp.Common.{
  arith, ◌≡◌, refl, sym, ap, ◌∙◌, Bool, true, false, ◌&&◌, String, none, some, List, [], ◌∷◌, ◌++◌,
  map, ok, truthy, ◌==◌, eq_iff, Bool-cases, inl, inr,
}
use virtual_rsp.ProfileStore.Defs.{Profile, to_dict}
use virtual_rsp.ProfileStore.Methods.{matches, delete_matches, field_is}
use virtual_rsp.ProfileStore.Abstract.{
  Named, iccid, matching_id, names, pick, keep, switched, switched_off, IsDistinct,
}
use virtual_rsp.ProfileStore.Refinement.Searching.{pick-eq-none}

both : (a b : Bool) → (a && b) ≡ true → (a ≡ true) × (b ≡ true)
both true b h = (refl, h)
both false b h = absurd (cc)

-- The searches agree with the names.
pub matches-names :
    (i : String) (p : Profile) → matches (some i) none (to_dict p) ≡ ok (names (iccid i) p)
unfolding matches field_is to_dict
matches-names i p = elim (Bool-cases (truthy i)) [
  | inl t ↦ elim (Bool-cases (p.iccid == i)) [ inl e ↦ rw t (rw e refl) | inr e ↦ rw t (rw e refl) ]
  | inr f ↦ rw f refl
]

pub delete_matches-iccid :
    (i : String) (p : Profile)
    → delete_matches (some i) none none (to_dict p) ≡ ok (names (iccid i) p)
unfolding delete_matches field_is to_dict
delete_matches-iccid i p = elim (Bool-cases (truthy i)) [
  | inl t ↦ elim (Bool-cases (p.iccid == i)) [ inl e ↦ rw t (rw e refl) | inr e ↦ rw t (rw e refl) ]
  | inr f ↦ rw f refl
]

pub delete_matches-matching_id :
    (m : String) (p : Profile)
    → delete_matches none none (some m) (to_dict p) ≡ ok (names (matching_id m) p)
unfolding delete_matches field_is to_dict
delete_matches-matching_id m p = elim (Bool-cases (truthy m)) [
  | inl t ↦ elim (Bool-cases (p.matching_id == m)) [
    | inl e ↦ rw t (rw e refl)
    | inr e ↦ rw t (rw e refl)
  ]
  | inr f ↦ rw f refl
]

-- At most one of distinct profiles has a name.
pub names-lone :
    (n : Named) (p : Profile) (ps : List Profile)
    → IsDistinct (p ∷ ps)
    → names n p ≡ true
    → pick (names n) ps ≡ none
names-lone (iccid i) p ps d h =
    let same = (eq_iff p.iccid i).0 (both (truthy i) (p.iccid == i) h).1 in
    ap (λ s. pick (names (iccid s)) ps) (sym same) ∙ d.0
names-lone (matching_id m) p ps d h =
    let same = (eq_iff p.matching_id m).0 (both (truthy m) (p.matching_id == m) h).1 in
    ap (λ s. pick (names (matching_id s)) ps) (sym same) ∙ d.1

-- An edit of profiles that keeps their names.
module _ (f : Profile → Profile) (iccids : (p : Profile) → (f p).iccid ≡ p.iccid)
    (ids : (p : Profile) → (f p).matching_id ≡ p.matching_id) where
  named : (n : Named) (p : Profile) → names n (f p) ≡ names n p
  named (iccid i) p = ap (λ s. truthy i && (s == i)) (iccids p)
  named (matching_id m) p = ap (λ s. truthy m && (s == m)) (ids p)

  pick-map :
      (n : Named) (ps : List Profile) → pick (names n) ps ≡ none → pick (names n) (map f ps) ≡ none
  pick-map n [] h = refl
  pick-map n (p ∷ ps) h =
      let (b, r) = pick-eq-none (names n) p ps h in rw (named n p ∙ b) (pick-map n ps r)

  map-IsDistinct : (a : List Profile) → IsDistinct a → IsDistinct (map f a)
  map-IsDistinct [] d = tt
  map-IsDistinct (p ∷ ps) d = (
    ap (λ s. pick (names (iccid s)) (map f ps)) (iccids p) ∙ pick-map (iccid p.iccid) ps d.0,
    ap (λ s. pick (names (matching_id s)) (map f ps)) (ids p)
        ∙ pick-map (matching_id p.matching_id) ps d.1,
    map-IsDistinct ps d.2,
  )

module _ (test : Profile → Bool) where
  switched_iccid : (p : Profile) → (switched test p).iccid ≡ p.iccid
  switched_iccid p = ground arith

  switched_id : (p : Profile) → (switched test p).matching_id ≡ p.matching_id
  switched_id p = ground arith

  switched_off_iccid : (p : Profile) → (switched_off test p).iccid ≡ p.iccid
  switched_off_iccid p = ground arith

  switched_off_id : (p : Profile) → (switched_off test p).matching_id ≡ p.matching_id
  switched_off_id p = ground arith

  -- switching profiles on and off keeps them distinct
  pub switched-IsDistinct : (a : List Profile) → IsDistinct a → IsDistinct (map (switched test) a)
  switched-IsDistinct a d = map-IsDistinct (switched test) switched_iccid switched_id a d

  pub switched_off-IsDistinct :
      (a : List Profile) → IsDistinct a → IsDistinct (map (switched_off test) a)
  switched_off-IsDistinct a d =
      map-IsDistinct (switched_off test) switched_off_iccid switched_off_id a d

  pick-keep :
      (n : Named) (ps : List Profile)
      → pick (names n) ps ≡ none
      → pick (names n) (keep test ps) ≡ none
  pick-keep n [] h = refl
  pick-keep n (p ∷ ps) h =
      let (b, r) = pick-eq-none (names n) p ps h in
      elim (Bool-cases (test p)) [
        | inl t ↦ rw t (rw b (pick-keep n ps r))
        | inr t ↦ rw t (pick-keep n ps r)
      ]

  pub keep-IsDistinct : (a : List Profile) → IsDistinct a → IsDistinct (keep test a)
  keep-IsDistinct [] d = tt
  keep-IsDistinct (p ∷ ps) d = elim (Bool-cases (test p)) [
    | inl t ↦ rw t (
      pick-keep (iccid p.iccid) ps d.0,
      pick-keep (matching_id p.matching_id) ps d.1,
      keep-IsDistinct ps d.2,
    )
    | inr t ↦ rw t (keep-IsDistinct ps d.2)
  ]

-- who has a name of another profile shares the name
shares_iccid : (p q : Profile) → names (iccid p.iccid) q ≡ false → names (iccid q.iccid) p ≡ false
shares_iccid p q h = elim (Bool-cases (names (iccid q.iccid) p)) [
  | inr b ↦ b
  | inl b ↦
      let (t, e) = both (truthy q.iccid) (p.iccid == q.iccid) b in
      let same = (eq_iff p.iccid q.iccid).0 e in
      let yes' : names (iccid p.iccid) q ≡ true =
        ap (λ s. truthy s && (q.iccid == s)) same ∙ (rw t ((eq_iff q.iccid q.iccid).1 refl)) in
      absurd (cc)
]

shares_id :
    (p q : Profile)
    → names (matching_id p.matching_id) q ≡ false
    → names (matching_id q.matching_id) p ≡ false
shares_id p q h = elim (Bool-cases (names (matching_id q.matching_id) p)) [
  | inr b ↦ b
  | inl b ↦
      let (t, e) = both (truthy q.matching_id) (p.matching_id == q.matching_id) b in
      let same = (eq_iff p.matching_id q.matching_id).0 e in
      let yes' : names (matching_id p.matching_id) q ≡ true =
        ap (λ s. truthy s && (q.matching_id == s)) same
        ∙ (rw t ((eq_iff q.matching_id q.matching_id).1 refl)) in
      absurd (cc)
]

pick-append :
    (test : Profile → Bool) (ps : List Profile) (p : Profile)
    → pick test ps ≡ none
    → test p ≡ false
    → pick test (ps ++ p ∷ []) ≡ none
pick-append test [] p h f = rw f refl
pick-append test (q ∷ ps) p h f =
    let (b, r) = pick-eq-none test q ps h in rw b (pick-append test ps p r f)

pub append-IsDistinct :
    (a : List Profile) (p : Profile)
    → IsDistinct a
    → pick (names (iccid p.iccid)) a ≡ none
    → pick (names (matching_id p.matching_id)) a ≡ none
    → IsDistinct (a ++ p ∷ [])
append-IsDistinct [] p d h k = (refl, refl, tt)
append-IsDistinct (q ∷ ps) p d h k =
    let (b, r) = pick-eq-none (names (iccid p.iccid)) q ps h in
    let (c, s) = pick-eq-none (names (matching_id p.matching_id)) q ps k in
    (
      pick-append (names (iccid q.iccid)) ps p d.0 (shares_iccid p q b),
      pick-append (names (matching_id q.matching_id)) ps p d.1 (shares_id p q c),
      append-IsDistinct ps p d.2 r s,
    )
