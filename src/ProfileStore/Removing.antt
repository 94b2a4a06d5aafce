-- ===== src/ProfileStore/Removing.antt =====
-- Disabling and deleting in gui/services/profile_store.py: an enabled profile is never deleted.
use virtual_rsp.Common.{
  ◌≡◌, ◌≢◌, refl, ◌∙◌, ap, ℕ, zero, suc, Bool, true, false, String, Option, some, List, [], ◌∷◌,
  Result, ok, arith, ◌==◌, eq_iff, required-eq-ok, key_error,
}
use virtual_rsp.ProfileStore.Defs.{Entry, Db, absent, Disk, Io, enabled, disabled, read_db}
use virtual_rsp.ProfileStore.Methods.{
  Reply, disable_edit, disable_profile, delete_edit, delete_profile, matches, delete_matches,
  set_state, state_at, remove_at,
}
use virtual_rsp.ProfileStore.Runs.Atomic.{stamped}
use virtual_rsp.ProfileStore.Runs.Edits.{disable_edit-writes, delete_edit-writes}
use virtual_rsp.ProfileStore.Runs.OneEnabled.{count_enabled, find_target_bound}
use virtual_rsp.ProfileStore.Switching.{
  Stores, IsFirst, transact_succeeds, find_target-IsFirst, disable_edit_silent, delete_edit_silent,
  state_at-set_state, statelesses, statelesses-set_state,
}

count-remove_disabled :
    (i : ℕ) (s : String) (ps : List Entry)
    → state_at i ps ≡ ok s
    → (s == enabled) ≡ false
    → count_enabled (remove_at i ps) ≡ count_enabled ps
unfolding state_at count_enabled remove_at
count-remove_disabled i s [] h n = refl
count-remove_disabled zero s (p ∷ ps) h n =
    let e = required-eq-ok (key_error "state") p.state h in rw (e, n) refl
count-remove_disabled (suc i) s (p ∷ ps) h n = ground (arith, count-remove_disabled i s ps h n)

count-disable_enabled :
    (i : ℕ) (ps : List Entry)
    → state_at i ps ≡ ok enabled
    → suc (count_enabled (set_state i disabled ps)) ≡ count_enabled ps
unfolding state_at count_enabled set_state
count-disable_enabled i [] h = absurd (cc)
count-disable_enabled zero (p ∷ ps) h =
    let e = required-eq-ok (key_error "state") p.state h in rw e refl
count-disable_enabled (suc i) (p ∷ ps) h = ground (arith, count-disable_enabled i ps h)

-- What `delete_profile` has done to the stored list `ps` when it leaves `qs`.
pub record Removed (hit : Entry → Result Bool) (ps qs : List Entry) : Type 0 where
  pub target : ℕ
  pub first : IsFirst hit ps target
  pub state : String
  pub held : state_at target ps ≡ ok state
  pub off : state ≢ enabled
  pub rest : qs ≡ remove_at target ps
  pub others : count_enabled qs ≡ count_enabled ps

-- When `delete_profile` reports success, the file holds what it held without the first profile
-- that matches, that profile was not enabled, and as many profiles are enabled as before.
pub delete_profile_spares_enabled :
    (io : Io) (iccid aid m : Option String) (d : Disk) (a : Reply)
    → d.temp ≡ absent
    → (delete_profile io iccid aid m d).0 ≡ ok a
    → a.0 ≡ true
    → (x : Db) × (ps qs : List Entry) × (read_db d ≡ ok x)
      × (x.profiles ≡ some ps)
      × Stores io d x qs (delete_profile io iccid aid m d).1
      × Removed (delete_matches iccid aid m) ps qs
unfolding delete_profile
delete_profile_spares_enabled io iccid aid m d a clean h t =
    let (x, y, r, e, w) =
      transact_succeeds io (delete_edit iccid aid m) d (delete_edit_silent iccid aid m) clean h t in
    let (ps, i, s, f, g, n, z) = delete_edit-writes iccid aid m x y a e in
    (
      x,
      ps,
      remove_at i ps,
      r,
      f.stored,
      w ∙ ap (λ v. stamped io v d) z,
      record {
        target = i;
        first = find_target-IsFirst (delete_matches iccid aid m) i 0 i ps (omega arith) f.target;
        state = s;
        held = g;
        off = λ q. cc (n, (eq_iff s enabled).1 q);
        rest = refl;
        others = count-remove_disabled i s ps g n;
      },
    )

-- What `disable_profile` has done to the stored list `ps` when it leaves `qs`.
pub record Disabled (hit : Entry → Result Bool) (ps qs : List Entry) : Type 0 where
  pub target : ℕ
  pub first : IsFirst hit ps target
  pub on : state_at target ps ≡ ok enabled
  pub off : state_at target qs ≡ ok disabled
  pub fewer : suc (count_enabled qs) ≡ count_enabled ps
  pub same : statelesses qs ≡ statelesses ps

-- When `disable_profile` reports success, the first profile that matches was enabled and is
-- disabled now, one profile fewer is enabled, and nothing but that state changed.
pub disable_profile_disables :
    (io : Io) (iccid aid : Option String) (d : Disk) (a : Reply)
    → d.temp ≡ absent
    → (disable_profile io iccid aid d).0 ≡ ok a
    → a.0 ≡ true
    → (x : Db) × (ps qs : List Entry) × (read_db d ≡ ok x)
      × (x.profiles ≡ some ps)
      × Stores io d x qs (disable_profile io iccid aid d).1
      × Disabled (matches iccid aid) ps qs
unfolding disable_profile
disable_profile_disables io iccid aid d a clean h t =
    let (x, y, r, e, w) =
      transact_succeeds io (disable_edit iccid aid) d (disable_edit_silent iccid aid) clean h t in
    let (ps, i, f, g, z) = disable_edit-writes iccid aid x y a e in
    let (_, b) = find_target_bound (matches iccid aid) 0 i ps f.target in
    (
      x,
      ps,
      set_state i disabled ps,
      r,
      f.stored,
      w ∙ ap (λ v. stamped io v d) z,
      record {
        target = i;
        first = find_target-IsFirst (matches iccid aid) i 0 i ps (omega arith) f.target;
        on = g;
        off = state_at-set_state i disabled ps (omega arith);
        fewer = count-disable_enabled i ps g;
        same = statelesses-set_state i disabled ps;
      },
    )
