-- ===== src/ProfileStore/Examples.antt =====
-- The store of gui/services/profile_store.py on two small files.
use virtual_rsp.Common.{
  ◌≡◌, refl, true, false, String, none, some, List, [], ◌∷◌, ok, err, os_error, arith,
}
use virtual_rsp.ProfileStore.Defs.{
  Profile, Entry, Db, json, absent, Disk, Io, no_fault, rename_fails, to_dict, read_db,
  write_atomic,
}
use virtual_rsp.ProfileStore.Methods.{
  enable_profile, enable_edit, disable_profile, disable_edit, delete_profile, delete_edit,
  add_profile, add_edit, get_profile, matches, delete_matches, find_target, transact, set_state,
  disable_others, disable_other, disable_entry, state_at, remove_at, profiles_of, has_matching_id,
}
use virtual_rsp.ProfileStore.Runs.{Call, enable, disable, delete, add, call, run}
use virtual_rsp.ProfileStore.Runs.Atomic.{failed_call_changes_nothing}
use virtual_rsp.ProfileStore.Runs.Keeps.{IsSound}
use virtual_rsp.ProfileStore.Runs.OneEnabled.{AtMostOne, count_enabled, run-AtMostOne}
use virtual_rsp.ProfileStore.Runs.UniqueIds.{UniqueIds, run-UniqueIds, has_id}
use virtual_rsp.ProfileStore.RoundTrip.{get_profile-add_profile}

abbrev sim : String → String → String → Profile
sim iccid m state = record {
  iccid = iccid;
  isdp_aid = "A0";
  state = state;
  profile_name = "Test";
  service_provider = "Osmocom";
  matching_id = m;
  installed_at = "2025-01-01T00:00:00Z";
}

abbrev entry : String → String → String → Entry
entry iccid m state = record {
  iccid = some iccid;
  isdp_aid = some "A0";
  state = some state;
  profile_name = some "Test";
  service_provider = some "Osmocom";
  matching_id = some m;
  installed_at = some "2025-01-01T00:00:00Z";
}

abbrev two : Db
two = record {
  eid = some "8904";
  profiles = some (entry "891" "A" "enabled" ∷ entry "892" "B" "disabled" ∷ []);
  last_modified = none;
}

abbrev disk : Disk
disk = record { db = json two; temp = absent }

abbrev fine : Io
fine = record { now = "2025-06-01T00:00:00Z"; fault = no_fault }

abbrev failing : Io
failing = record { now = "2025-06-01T00:00:00Z"; fault = rename_fails }

abbrev calls : List (Io × Call)
calls =
    (fine, enable (some "892") none)
    ∷ (failing, disable (some "892") none)
    ∷ (fine, add (sim "893" "C" "disabled"))
    ∷ (fine, delete none none (some "A"))
    ∷ []

disk-AtMostOne : IsSound AtMostOne disk
unfolding count_enabled
disk-AtMostOne = record { clean = refl; holds = omega arith }

disk-UniqueIds : IsSound UniqueIds disk
unfolding has_id
disk-UniqueIds = record { clean = refl; holds = (refl, (refl, tt)) }

run-AtMostOne_example : IsSound AtMostOne (run calls disk)
run-AtMostOne_example = run-AtMostOne calls disk (tt, (tt, (refl, (tt, tt)))) disk-AtMostOne

run-UniqueIds_example : IsSound UniqueIds (run calls disk)
run-UniqueIds_example = run-UniqueIds calls disk disk-UniqueIds

rename_failed : (call failing (enable (some "892") none) disk).0 ≡ err os_error
unfolding call enable_profile transact enable_edit profiles_of find_target matches disable_others
    disable_other disable_entry set_state write_atomic read_db
rename_failed = refl

failed_call_changes_nothing_example : (call failing (enable (some "892") none) disk).1 ≡ disk
failed_call_changes_nothing_example =
    failed_call_changes_nothing failing (enable (some "892") none) disk refl
      (λ h. cc (rename_failed, h))

enabled_second : (enable_profile fine (some "892") none disk).0 ≡ ok (true, "Profile enabled")
unfolding enable_profile transact enable_edit profiles_of find_target matches disable_others
    disable_other disable_entry set_state write_atomic read_db
enabled_second = refl

disabled_first : (disable_profile fine (some "891") none disk).0 ≡ ok (true, "Profile disabled")
unfolding disable_profile transact disable_edit profiles_of find_target matches state_at set_state
    write_atomic read_db
disabled_first = refl

deleted_second : (delete_profile fine none none (some "B") disk).0 ≡ ok (true, "Profile deleted")
unfolding delete_profile transact delete_edit profiles_of find_target delete_matches state_at
    remove_at write_atomic read_db
deleted_second = refl

-- The enabled profile is not deleted.
delete_refused :
    delete_profile fine none none (some "A") disk
    ≡ (ok (false, "Cannot delete enabled profile (disable it first)"), disk)
unfolding delete_profile transact delete_edit profiles_of find_target delete_matches state_at
    read_db
delete_refused = refl

added_third : (add_profile fine (sim "893" "C" "disabled") disk).0 ≡ ok true
unfolding add_profile transact add_edit profiles_of has_matching_id to_dict write_atomic read_db
added_third = refl

get_profile-add_profile_example :
    get_profile "later" none none (some "C") (add_profile fine (sim "893" "C" "disabled") disk).1
    ≡ ok (some (sim "893" "C" "disabled"))
unfolding read_db
get_profile-add_profile_example =
    get_profile-add_profile fine "later" (sim "893" "C" "disabled") disk two refl refl
      ((λ h. cc, λ h. cc), ((λ h. cc, λ h. cc), tt)) refl refl added_third
