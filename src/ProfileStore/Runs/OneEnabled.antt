-- ===== src/ProfileStore/Runs/OneEnabled.antt =====
-- At most one stored profile is enabled (gui/services/profile_store.py).
use virtual_rsp.Common.{
  ok-injective, >>=-eq-ok, required-eq-ok, key_error, ◌≡◌, refl, ap, ◌≤◌, ◌<◌, ◌+◌, ℕ, zero, suc,
  Bool, true, false, String, Option, some, List, [], ◌∷◌, ◌++◌, Result, ok, All, same?, ◌==◌,
  if◌then◌else◌, arith, get_or, length, ◌≢◌, required,
}
use virtual_rsp.ProfileStore.Defs.{Profile, Entry, Db, Disk, Io, enabled, disabled, to_dict}
use virtual_rsp.ProfileStore.Methods.{
  enable_edit, disable_edit, delete_edit, add_edit, set_eid_edit, initial_data, set_state,
  remove_at, disable_others, disable_entry, disable_other, find_target, matches,
}
use virtual_rsp.ProfileStore.Runs.{Call, run}
use virtual_rsp.ProfileStore.Runs.Edits.{
  enable_edit-writes, disable_edit-writes, delete_edit-writes, add_edit-writes,
}
use virtual_rsp.ProfileStore.Runs.Keeps.{IsSound, IsKept, AllowedCall, Keeps, run-IsSound}

abbrev pub is_enabled : Entry → Bool
is_enabled p = same? p.state (some enabled)

unfoldable pub count_enabled : List Entry → ℕ
count_enabled [] = 0
count_enabled (p ∷ ps) = if is_enabled p then suc (count_enabled ps) else count_enabled ps

abbrev pub AtMostOne : Db → Type 0
AtMostOne x = count_enabled (get_or x.profiles []) ≤ 1

disabled_not_enabled : (disabled == enabled) ≡ false
disabled_not_enabled = refl

demoted :
    (p q : Entry) (s : String) (b : Bool)
    → p.state ≡ some s
    → (s == enabled) ≡ b
    → (if b then ok (record p { state = some disabled }) else ok p) ≡ ok q
    → is_enabled q ≡ false
demoted p q s true x y h = rw (← ok-injective h) refl
demoted p q s false x y h = rw (← ok-injective h) (rw x y)

disable_entry-disabled : (p q : Entry) → disable_entry p ≡ ok q → is_enabled q ≡ false
unfolding disable_entry
disable_entry-disabled p q e =
    let (s, x, y) = >>=-eq-ok (required (key_error "state") p.state) _ e in
    demoted p q s (s == enabled) (required-eq-ok _ p.state x) refl y

disable_other-disabled :
    (t i : ℕ) (p q : Entry) → i ≢ t → disable_other t i p ≡ ok q → is_enabled q ≡ false
unfolding disable_other
disable_other-disabled t i p q h e = ground (arith, disable_entry-disabled p q)

-- What a round of the loop and the rest of it have done.
pub disable_others-cons :
    (t i : ℕ) (p q : Entry) (ps qs : List Entry)
    → disable_others t i (p ∷ ps) ≡ ok (q ∷ qs)
    → (disable_other t i p ≡ ok q) × (disable_others t (i + 1) ps ≡ ok qs)
unfolding disable_others
disable_others-cons t i p q ps qs e = ground arith

pub disable_others-not_nil :
    (t i : ℕ) (p : Entry) (ps : List Entry) → disable_others t i (p ∷ ps) ≢ ok []
unfolding disable_others
disable_others-not_nil t i p ps e = ground arith

pub disable_others-nil :
    (t i : ℕ) (q : Entry) (qs : List Entry) → disable_others t i [] ≢ ok (q ∷ qs)
unfolding disable_others
disable_others-nil t i q qs e = ground arith

-- Beyond its target the loop leaves nothing enabled.
count-disable_others_after :
    (t i : ℕ) (ps qs : List Entry) → t < i → disable_others t i ps ≡ ok qs → count_enabled qs ≡ 0
unfolding count_enabled
count-disable_others_after t i [] [] h e = refl
count-disable_others_after t i [] (q ∷ qs) h e = absurd (disable_others-nil t i q qs e)
count-disable_others_after t i (p ∷ ps) [] h e = absurd (disable_others-not_nil t i p ps e)
count-disable_others_after t i (p ∷ ps) (q ∷ qs) h e =
    let (e1, e2) = disable_others-cons t i p q ps qs e in
    rw (disable_other-disabled t i p q (omega arith) e1)
      (count-disable_others_after t (i + 1) ps qs (omega arith) e2)

-- Up to its target and with the target set, it leaves exactly one, if the target is there.
pub count-disable_others :
    (k i t : ℕ) (ps qs : List Entry)
    → t ≡ k + i
    → disable_others t i ps ≡ ok qs
    → k < length ps
    → count_enabled (set_state k enabled qs) ≡ 1
unfolding count_enabled set_state
count-disable_others k i t [] qs m e h = absurd (omega arith)
count-disable_others k i t (p ∷ ps) [] m e h = absurd (disable_others-not_nil t i p ps e)
count-disable_others zero i t (p ∷ ps) (q ∷ qs) m e h =
    let (e1, e2) = disable_others-cons t i p q ps qs e in
    ap suc (count-disable_others_after t (i + 1) ps qs (omega arith) e2)
count-disable_others (suc k) i t (p ∷ ps) (q ∷ qs) m e h =
    let (e1, e2) = disable_others-cons t i p q ps qs e in
    rw (disable_other-disabled t i p q (omega arith) e1)
      (count-disable_others k (i + 1) t ps qs (omega arith) e2 (omega arith))

-- The search returns a position inside the list.
pub find_target_bound :
    (hit : Entry → Result Bool) (i t : ℕ) (ps : List Entry)
    → find_target hit i ps ≡ ok (some t)
    → (i ≤ t) × (t < i + length ps)
unfolding find_target
find_target_bound hit i t [] e = absurd (cc)
find_target_bound hit i t (p ∷ ps) e = ground (arith, find_target_bound hit (i + 1) t ps)

count-set_disabled :
    (i : ℕ) (ps : List Entry) → count_enabled (set_state i disabled ps) ≤ count_enabled ps
unfolding count_enabled set_state
count-set_disabled i [] = omega arith
count-set_disabled zero (p ∷ ps) = ground arith
count-set_disabled (suc i) (p ∷ ps) = ground (arith, count-set_disabled i ps)

count-remove_at : (i : ℕ) (ps : List Entry) → count_enabled (remove_at i ps) ≤ count_enabled ps
unfolding count_enabled remove_at
count-remove_at i [] = omega arith
count-remove_at zero (p ∷ ps) = ground arith
count-remove_at (suc i) (p ∷ ps) = ground (arith, count-remove_at i ps)

count-append :
    (ps : List Entry) (p : Profile)
    → (p.state == enabled) ≡ false
    → count_enabled (ps ++ to_dict p ∷ []) ≡ count_enabled ps
unfolding count_enabled to_dict
count-append [] p h = rw h
count-append (q ∷ ps) p h = ground (arith, count-append ps p h)

-- The profiles that the program adds are disabled.
abbrev pub IsDisabled : Profile → Type 0
IsDisabled p = (p.state == enabled) ≡ false

enable-Keeps : (iccid aid : Option String) → Keeps AtMostOne (enable_edit iccid aid)
enable-Keeps iccid aid x y a h e =
    let (ps, i, qs, f, d, w) = enable_edit-writes iccid aid x y a e in
    let (_, b) = find_target_bound (matches iccid aid) 0 i ps f.target in
    rw w (omega (arith, count-disable_others i 0 i ps qs (omega arith) d (omega arith)))

disable-Keeps : (iccid aid : Option String) → Keeps AtMostOne (disable_edit iccid aid)
disable-Keeps iccid aid x y a h e =
    let (ps, i, f, s, w) = disable_edit-writes iccid aid x y a e in
    rw w (omega (arith, count-set_disabled i ps, (rw f.stored at h)))

delete-Keeps : (iccid aid m : Option String) → Keeps AtMostOne (delete_edit iccid aid m)
delete-Keeps iccid aid m x y a h e =
    let (ps, i, s, f, r, n, w) = delete_edit-writes iccid aid m x y a e in
    rw w (omega (arith, count-remove_at i ps, (rw f.stored at h)))

add-Keeps : (p : Profile) → IsDisabled p → Keeps AtMostOne (add_edit p)
add-Keeps p q x y a h e =
    let (ps, f, n, w) = add_edit-writes p x y a e in rw w (rw (count-append ps p q) (rw f at h))

eid-Keeps : (e : String) → Keeps AtMostOne (set_eid_edit e)
unfolding set_eid_edit
eid-Keeps e x y a h q = ground arith

AtMostOne-IsKept : IsKept AtMostOne IsDisabled
unfolding initial_data set_eid_edit count_enabled
AtMostOne-IsKept = record {
  stamp = λ x t h. h;
  initial = λ io. omega arith;
  enabling = enable-Keeps;
  disabling = disable-Keeps;
  deleting = delete-Keeps;
  adding = add-Keeps;
  renaming = eid-Keeps;
}

-- Through any sequence of calls, each with its own file fault, at most one profile in the file is
-- enabled and no temporary file is left, if that held at the start and no added profile is enabled.
pub run-AtMostOne :
    (cs : List (Io × Call)) (d : Disk)
    → All (AllowedCall IsDisabled) cs
    → IsSound AtMostOne d
    → IsSound AtMostOne (run cs d)
run-AtMostOne = run-IsSound AtMostOne-IsKept
