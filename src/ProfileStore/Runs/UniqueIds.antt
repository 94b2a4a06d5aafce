-- ===== src/ProfileStore/Runs/UniqueIds.antt =====
-- No two stored profiles share a matching ID that is not empty (gui/services/profile_store.py).
use virtual_rsp.Common.{
  ◌≡◌, refl, ap, ◌+◌, ℕ, zero, suc, Bool, true, false, ◌&&◌, ◌||◌, String, Option, none, some, List,
  [], ◌∷◌, ◌++◌, ok, All, same?, ◌==◌, arith, get_or, eq_iff, truthy, sym, >>=-eq-ok, required,
  key_error, ok-injective, if◌then◌else◌,
}
use virtual_rsp.ProfileStore.Defs.{Profile, Entry, Db, Disk, Io, to_dict, disabled, enabled}
use virtual_rsp.ProfileStore.Methods.{
  enable_edit, disable_edit, delete_edit, add_edit, set_eid_edit, initial_data, set_state,
  remove_at, disable_others, disable_other, disable_entry, has_matching_id,
}
use virtual_rsp.ProfileStore.Runs.{Call, add, run}
use virtual_rsp.ProfileStore.Runs.Edits.{
  enable_edit-writes, disable_edit-writes, delete_edit-writes, add_edit-writes,
}
use virtual_rsp.ProfileStore.Runs.OneEnabled.{
  disable_others-cons, disable_others-nil, disable_others-not_nil,
}
use virtual_rsp.ProfileStore.Runs.Keeps.{IsSound, IsKept, AllowedCall, Keeps, run-IsSound}

abbrev pub ids : List Entry → List (Option String)
ids [] = []
ids (p ∷ ps) = p.matching_id ∷ ids ps

-- the matching ID `m` is not empty and stands in the list
unfoldable pub has_id : String → List (Option String) → Bool
has_id m [] = false
has_id m (x ∷ l) = (same? x (some m) && truthy m) || has_id m l

abbrev pub IsDistinct : List (Option String) → Type 0
IsDistinct [] = Unit
IsDistinct (none ∷ l) = IsDistinct l
IsDistinct (some m ∷ l) = (has_id m l ≡ false) × IsDistinct l

abbrev pub UniqueIds : Db → Type 0
UniqueIds x = IsDistinct (ids (get_or x.profiles []))

has_matching_id-has_id : (m : String) (ps : List Entry) → has_matching_id m ps ≡ has_id m (ids ps)
unfolding has_matching_id has_id
has_matching_id-has_id m [] = refl
has_matching_id-has_id m (p ∷ ps) = rw (has_matching_id-has_id m ps)

ids-set_state : (i : ℕ) (v : String) (ps : List Entry) → ids (set_state i v ps) ≡ ids ps
unfolding set_state
ids-set_state i v [] = refl
ids-set_state zero v (p ∷ ps) = refl
ids-set_state (suc i) v (p ∷ ps) = ap (◌∷◌ p.matching_id) (ids-set_state i v ps)

demoted_id :
    (p q : Entry) (b : Bool)
    → (if b then ok (record p { state = some disabled }) else ok p) ≡ ok q
    → q.matching_id ≡ p.matching_id
demoted_id p q true h = ap (λ (e : Entry). e.matching_id) (sym (ok-injective h))
demoted_id p q false h = ap (λ (e : Entry). e.matching_id) (sym (ok-injective h))

disable_entry_id : (p q : Entry) → disable_entry p ≡ ok q → q.matching_id ≡ p.matching_id
unfolding disable_entry
disable_entry_id p q e =
    let (s, _, y) = >>=-eq-ok (required (key_error "state") p.state) _ e in
    demoted_id p q (s == enabled) y

disable_other_id :
    (t i : ℕ) (p q : Entry) → disable_other t i p ≡ ok q → q.matching_id ≡ p.matching_id
unfolding disable_other
disable_other_id t i p q e = ground (arith, disable_entry_id p q)

ids-disable_others :
    (t i : ℕ) (ps qs : List Entry) → disable_others t i ps ≡ ok qs → ids qs ≡ ids ps
ids-disable_others t i [] [] e = refl
ids-disable_others t i [] (q ∷ qs) e = absurd (disable_others-nil t i q qs e)
ids-disable_others t i (p ∷ ps) [] e = absurd (disable_others-not_nil t i p ps e)
ids-disable_others t i (p ∷ ps) (q ∷ qs) e =
    let (e1, e2) = disable_others-cons t i p q ps qs e in
    cc (disable_other_id t i p q e1, ids-disable_others t (i + 1) ps qs e2)

has_id-remove_at :
    (m : String) (i : ℕ) (ps : List Entry)
    → has_id m (ids ps) ≡ false
    → has_id m (ids (remove_at i ps)) ≡ false
unfolding has_id remove_at
has_id-remove_at m i [] h = h
has_id-remove_at m zero (p ∷ ps) h = ground arith
has_id-remove_at m (suc i) (p ∷ ps) h = ground (arith, has_id-remove_at m i ps)

IsDistinct-tail : (x : Option String) (l : List (Option String)) → IsDistinct (x ∷ l) → IsDistinct l
IsDistinct-tail none l h = h
IsDistinct-tail (some m) l h = h.1

IsDistinct-remove_at :
    (i : ℕ) (ps : List Entry) → IsDistinct (ids ps) → IsDistinct (ids (remove_at i ps))
unfolding remove_at
IsDistinct-remove_at i [] h = h
IsDistinct-remove_at zero (p ∷ ps) h = IsDistinct-tail p.matching_id (ids ps) h
IsDistinct-remove_at (suc i) (p ∷ ps) h =
    keep p.matching_id h (IsDistinct-remove_at i ps (IsDistinct-tail p.matching_id (ids ps) h))
  where
    keep :
        (x : Option String)
        → IsDistinct (x ∷ ids ps)
        → IsDistinct (ids (remove_at i ps))
        → IsDistinct (x ∷ ids (remove_at i ps))
    keep none g r = r
    keep (some m) g r = (has_id-remove_at m i ps g.0, r)

has_id-append :
    (m n : String) (l : List (Option String))
    → has_id m l ≡ false
    → (has_id n (some m ∷ l) ≡ false)
    → has_id m (l ++ some n ∷ []) ≡ false
unfolding has_id
has_id-append m n [] h k = ground (arith, eq_iff m n, eq_iff n m, eq_iff m "", eq_iff n "")
has_id-append m n (x ∷ l) h k = ground (arith, has_id-append m n l, eq_iff m n, eq_iff n m)

IsDistinct-append :
    (n : String) (l : List (Option String))
    → has_id n l ≡ false
    → IsDistinct l
    → IsDistinct (l ++ some n ∷ [])
unfolding has_id
IsDistinct-append n [] h d = (refl, tt)
IsDistinct-append n (none ∷ l) h d = IsDistinct-append n l h d
IsDistinct-append n (some m ∷ l) h d =
    (has_id-append m n l d.0 h, IsDistinct-append n l (ground arith) d.1)

ids-append :
    (ps : List Entry) (p : Profile) → ids (ps ++ to_dict p ∷ []) ≡ ids ps ++ some p.matching_id ∷ []
unfolding to_dict
ids-append [] p = refl
ids-append (q ∷ ps) p = ap (◌∷◌ q.matching_id) (ids-append ps p)

enable-Keeps : (iccid aid : Option String) → Keeps UniqueIds (enable_edit iccid aid)
enable-Keeps iccid aid x y a h e =
    let (ps, i, qs, f, d, w) = enable_edit-writes iccid aid x y a e in
    rw w (rw (ids-set_state i enabled qs) (rw (ids-disable_others i 0 ps qs d) (rw f.stored at h)))

disable-Keeps : (iccid aid : Option String) → Keeps UniqueIds (disable_edit iccid aid)
disable-Keeps iccid aid x y a h e =
    let (ps, i, f, s, w) = disable_edit-writes iccid aid x y a e in
    rw w (rw (ids-set_state i disabled ps) (rw f.stored at h))

delete-Keeps : (iccid aid m : Option String) → Keeps UniqueIds (delete_edit iccid aid m)
delete-Keeps iccid aid m x y a h e =
    let (ps, i, s, f, r, n, w) = delete_edit-writes iccid aid m x y a e in
    rw w (IsDistinct-remove_at i ps (rw f.stored at h))

add-Keeps : (p : Profile) → Unit {0} → Keeps UniqueIds (add_edit p)
add-Keeps p q x y a h e =
    let (ps, f, n, w) = add_edit-writes p x y a e in
    rw w (
      rw (ids-append ps p)
        (IsDistinct-append p.matching_id (ids ps) (rw has_matching_id-has_id at n) (rw f at h)))

eid-Keeps : (e : String) → Keeps UniqueIds (set_eid_edit e)
unfolding set_eid_edit
eid-Keeps e x y a h q = rw (← same_profiles) h
  where
    same_profiles : x.profiles ≡ y.profiles
    same_profiles = ground arith

UniqueIds-IsKept : IsKept UniqueIds (λ p. Unit)
unfolding initial_data
UniqueIds-IsKept = record {
  stamp = λ x t h. h;
  initial = λ io. tt;
  enabling = enable-Keeps;
  disabling = disable-Keeps;
  deleting = delete-Keeps;
  adding = add-Keeps;
  renaming = eid-Keeps;
}

any_calls : (cs : List (Io × Call)) → All (AllowedCall (λ p. Unit)) cs
any_calls [] = tt
any_calls ((io, add p) ∷ cs) = (tt, any_calls cs)
any_calls ((io, _) ∷ cs) = (tt, any_calls cs)

-- Through any sequence of calls, each with its own file fault, no two profiles in the file share a
-- matching ID that is not empty, if that held at the start.
pub run-UniqueIds :
    (cs : List (Io × Call)) (d : Disk) → IsSound UniqueIds d → IsSound UniqueIds (run cs d)
run-UniqueIds cs d s = run-IsSound UniqueIds-IsKept cs d (any_calls cs) s
