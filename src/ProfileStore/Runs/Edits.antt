-- ===== src/ProfileStore/Runs/Edits.antt =====
-- What each method of gui/services/profile_store.py has done to the object in memory when it
-- writes it back.
use virtual_rsp.Common.{
  ◌≡◌, refl, ℕ, Bool, true, false, String, Option, none, some, List, [], ◌∷◌, ◌++◌, Result, ok,
  >>=-eq-ok, required-eq-ok, key_error, ◌==◌, if◌then◌else◌, eq_iff,
}
use virtual_rsp.ProfileStore.Defs.{Profile, Entry, Db, enabled, disabled, to_dict}
use virtual_rsp.ProfileStore.Methods.{
  Reply, profiles_of, find_target, matches, delete_matches, set_state, state_at, disable_others,
  remove_at, enable_found, enable_edit, disable_found, disable_edit, delete_found, delete_edit,
  has_matching_id, add_edit,
}

abbrev pub with_profiles : Db → List Entry → Db
with_profiles x ps = record x { profiles = some ps }

-- The search found entry `i` of the stored list `ps`.
pub record Found (hit : Entry → Result Bool) (x : Db) (ps : List Entry) (i : ℕ) : Type 0 where
  pub stored : x.profiles ≡ some ps
  pub target : find_target hit 0 ps ≡ ok (some i)

enable_found-writes :
    (x y : Db) (a : Reply) (ps : List Entry) (t : Option ℕ)
    → enable_found x ps t ≡ ok (a, some y)
    → (i : ℕ) × (qs : List Entry) × (t ≡ some i)
      × (disable_others i 0 ps ≡ ok qs)
      × (y ≡ with_profiles x (set_state i enabled qs))
unfolding enable_found
enable_found-writes x y a ps none e = absurd (cc)
enable_found-writes x y a ps (some i) e =
    let (qs, p, q) = >>=-eq-ok (disable_others i 0 ps) _ e in (i, qs, refl, p, cc)

pub enable_edit-writes :
    (iccid aid : Option String) (x y : Db) (a : Reply)
    → enable_edit iccid aid x ≡ ok (a, some y)
    → (ps : List Entry) × (i : ℕ) × (qs : List Entry) × Found (matches iccid aid) x ps i
      × (disable_others i 0 ps ≡ ok qs)
      × (y ≡ with_profiles x (set_state i enabled qs))
unfolding enable_edit profiles_of
enable_edit-writes iccid aid x y a e =
    let (ps, p, e1) = >>=-eq-ok (profiles_of x) _ e in
    let (t, q, e2) = >>=-eq-ok (find_target (matches iccid aid) 0 ps) _ e1 in
    let (i, qs, it, r, w) = enable_found-writes x y a ps t e2 in
    (
      ps,
      i,
      qs,
      record { stored = required-eq-ok (key_error "profiles") x.profiles p; target = rw (← it) q },
      r,
      w,
    )

module _ {ℓ} {A : Type ℓ} (r r' a : A) (x y : Db) where
  writes_then :
      (b : Bool)
      → if◌then◌else◌ {A = Result (A × Option Db)} b (ok (r, some x)) (ok (r', none))
        ≡ ok (a, some y)
      → (b ≡ true) × (y ≡ x)
  writes_then true e = (refl, cc)
  writes_then false e = absurd (cc)

  writes_else :
      (b : Bool)
      → if◌then◌else◌ {A = Result (A × Option Db)} b (ok (r', none)) (ok (r, some x))
        ≡ ok (a, some y)
      → (b ≡ false) × (y ≡ x)
  writes_else true e = absurd (cc)
  writes_else false e = (refl, cc)

disable_found-writes :
    (x y : Db) (a : Reply) (ps : List Entry) (t : Option ℕ)
    → disable_found x ps t ≡ ok (a, some y)
    → (i : ℕ) × (t ≡ some i)
      × (state_at i ps ≡ ok enabled)
      × (y ≡ with_profiles x (set_state i disabled ps))
unfolding disable_found
disable_found-writes x y a ps none e = absurd (cc)
disable_found-writes x y a ps (some i) e =
    let (s, p, q) = >>=-eq-ok (state_at i ps) _ e in
    let (t, w) = writes_then _ _ a _ y (s == enabled) q in
    (i, refl, rw (← (eq_iff s enabled).0 t) p, w)

pub disable_edit-writes :
    (iccid aid : Option String) (x y : Db) (a : Reply)
    → disable_edit iccid aid x ≡ ok (a, some y)
    → (ps : List Entry) × (i : ℕ) × Found (matches iccid aid) x ps i
      × (state_at i ps ≡ ok enabled)
      × (y ≡ with_profiles x (set_state i disabled ps))
unfolding disable_edit profiles_of
disable_edit-writes iccid aid x y a e =
    let (ps, p, e1) = >>=-eq-ok (profiles_of x) _ e in
    let (t, q, e2) = >>=-eq-ok (find_target (matches iccid aid) 0 ps) _ e1 in
    let (i, it, r, w) = disable_found-writes x y a ps t e2 in
    (
      ps,
      i,
      record { stored = required-eq-ok (key_error "profiles") x.profiles p; target = rw (← it) q },
      r,
      w,
    )

delete_found-writes :
    (x y : Db) (a : Reply) (ps : List Entry) (t : Option ℕ)
    → delete_found x ps t ≡ ok (a, some y)
    → (i : ℕ) × (s : String) × (t ≡ some i)
      × (state_at i ps ≡ ok s)
      × ((s == enabled) ≡ false)
      × (y ≡ with_profiles x (remove_at i ps))
unfolding delete_found
delete_found-writes x y a ps none e = absurd (cc)
delete_found-writes x y a ps (some i) e =
    let (s, p, q) = >>=-eq-ok (state_at i ps) _ e in
    let (t, w) = writes_else _ _ a _ y (s == enabled) q in (i, s, refl, p, t, w)

pub delete_edit-writes :
    (iccid aid m : Option String) (x y : Db) (a : Reply)
    → delete_edit iccid aid m x ≡ ok (a, some y)
    → (ps : List Entry) × (i : ℕ) × (s : String) × Found (delete_matches iccid aid m) x ps i
      × (state_at i ps ≡ ok s)
      × ((s == enabled) ≡ false)
      × (y ≡ with_profiles x (remove_at i ps))
unfolding delete_edit profiles_of
delete_edit-writes iccid aid m x y a e =
    let (ps, p, e1) = >>=-eq-ok (profiles_of x) _ e in
    let (t, q, e2) = >>=-eq-ok (find_target (delete_matches iccid aid m) 0 ps) _ e1 in
    let (i, s, it, r, n, w) = delete_found-writes x y a ps t e2 in
    (
      ps,
      i,
      s,
      record { stored = required-eq-ok (key_error "profiles") x.profiles p; target = rw (← it) q },
      r,
      n,
      w,
    )

pub add_edit-writes :
    (p : Profile) (x y : Db) (a : Bool)
    → add_edit p x ≡ ok (a, some y)
    → (ps : List Entry) × (x.profiles ≡ some ps)
      × (has_matching_id p.matching_id ps ≡ false)
      × (y ≡ with_profiles x (ps ++ to_dict p ∷ []))
unfolding add_edit profiles_of
add_edit-writes p x y a e =
    let (ps, q, e1) = >>=-eq-ok (profiles_of x) _ e in
    let (n, w) = writes_else _ _ a _ y (has_matching_id p.matching_id ps) e1 in
    (ps, required-eq-ok (key_error "profiles") x.profiles q, n, w)
