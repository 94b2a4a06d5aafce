-- ===== src/LpaCommand/Deleting.antt =====
-- `LpaCommandService.delete_profile` (mno/services/lpa_command.py) deletes by the matching ID of
-- the profile that it looks up by ICCID.
use virtual_rsp.Common.{
  ◌≡◌, refl, Bool, false, String, Option, none, some, List, [], ◌∷◌, ok, >>=-eq-ok, get_or, ◌>>=◌,
  ℕ, ◌+◌,
}
use virtual_rsp.ProfileStore.Defs.{Profile, Entry, Db, Disk, Io, read_db}
use virtual_rsp.ProfileStore.Methods
use virtual_rsp.ProfileStore.Methods.{
  Reply, delete_edit, delete_matches, delete_found, find_target, profiles_of, transact, settle,
  get_profile, list_profiles, first_profile, from_dicts, profile_matches,
}
use virtual_rsp.LpaCommand.{World, delete_profile}

-- An empty matching ID matches nothing.
find_by_empty_id :
    (i : ℕ) (ps : List Entry) → find_target (delete_matches none none (some "")) i ps ≡ ok none
unfolding find_target delete_matches
find_by_empty_id i [] = refl
find_by_empty_id i (p ∷ ps) = find_by_empty_id (i + 1) ps

delete_by_empty_id :
    (io : Io) (d : Disk) (x : Db) (ps : List Entry)
    → read_db d ≡ ok x
    → x.profiles ≡ some ps
    → Methods.delete_profile io none none (some "") d ≡ (ok (false, "Profile not found"), d)
unfolding Methods.delete_profile transact settle delete_edit profiles_of
delete_by_empty_id io d x ps r s = rw r (rw s (rw (find_by_empty_id 0 ps) refl))

-- A profile is found only in a list that is stored.
stored_if_found :
    (now : String) (test : Profile → Bool) (o : Option (List Entry)) (p : Profile)
    → (from_dicts now (get_or o []) >>= λ qs. ok (first_profile test qs)) ≡ ok (some p)
    → (ps : List Entry) × (o ≡ some ps)
unfolding from_dicts first_profile
stored_if_found now test none p h = absurd (cc)
stored_if_found now test (some ps) p h = (ps, refl)

found_in :
    (now : String) (iccid : Option String) (d : Disk) (p : Profile)
    → Methods.get_profile now iccid none none d ≡ ok (some p)
    → (x : Db) × (ps : List Entry) × (read_db d ≡ ok x) × (x.profiles ≡ some ps)
unfolding get_profile list_profiles
found_in now iccid d p h =
    let (qs, a, e) = >>=-eq-ok (list_profiles now d) _ h in
    let (x, r, b) = >>=-eq-ok (read_db d) _ a in
    let (ps, s) = stored_if_found now (profile_matches iccid none none) x.profiles p (rw b e) in
    (x, ps, r, s)

-- If the profile that is found by its ICCID has an empty matching ID, `delete_profile` answers
-- "Profile not found", changes no file and sends no command.
pub delete_without_matching_id :
    (io : Io) (iccid : String) (w : World) (p : Profile)
    → Methods.get_profile io.now (some iccid) none none w.disk ≡ ok (some p)
    → p.matching_id ≡ ""
    → delete_profile io iccid w ≡ (ok (false, "Profile not found"), w)
unfolding delete_profile
delete_without_matching_id io iccid w p g e =
    let (x, ps, r, s) = found_in io.now (some iccid) w.disk p g in
    rw g (rw e (rw (delete_by_empty_id io w.disk x ps r s) refl))
