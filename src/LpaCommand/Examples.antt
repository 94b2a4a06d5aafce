-- ===== src/LpaCommand/Examples.antt =====
-- Calls of `LpaCommandService` (mno/services/lpa_command.py) on a store of two profiles, of which
-- the second has no matching ID.
use virtual_rsp.Common.{◌≡◌, refl, true, false, String, none, some, List, [], ◌∷◌, ok, arith}
use virtual_rsp.ProfileStore.Defs.{
  Profile, Entry, Db, json, absent, Io, no_fault, from_dict, built, read_db, write_atomic,
}
use virtual_rsp.ProfileStore.Methods
use virtual_rsp.ProfileStore.Methods.{
  Reply, matches, get_profile, list_profiles, from_dicts, first_profile, profile_matches,
  enable_edit, transact, profiles_of, find_target, disable_others, disable_other, disable_entry,
  set_state,
}
use virtual_rsp.ProfileStore.Runs.Keeps.{IsSound}
use virtual_rsp.ProfileStore.Runs.OneEnabled.{AtMostOne, count_enabled}
use virtual_rsp.ProfileStore.Runs.UniqueIds.{UniqueIds, has_id}
use virtual_rsp.ProfileStore.Switching.{Stores, Switched}
use virtual_rsp.LpaCommand.{
  World, Ran, exited, profile_args, enable_profile, switch_profile, delete_profile,
  download_profile,
}
use virtual_rsp.LpaCommand.Switching.{switch_profile_switches}
use virtual_rsp.LpaCommand.Deleting.{delete_without_matching_id}
use virtual_rsp.LpaCommand.Downloading.{download_profile-IsSound}

abbrev entry : String → String → String → Entry
entry iccid m state = record {
  iccid = some iccid;
  isdp_aid = some "A0";
  state = some state;
  profile_name = some "Test";
  service_provider = some "Osmocom";
  matching_id = some m;
  installed_at = some "2025-01-01";
}

abbrev store : Db
store = record {
  eid = some "8904";
  profiles = some (entry "891" "A" "enabled" ∷ entry "892" "" "disabled" ∷ []);
  last_modified = none;
}

abbrev world : World
world = record { disk = record { db = json store; temp = absent }; sent = [] }

abbrev io : Io
io = record { now = "2025-06-01"; fault = no_fault }

abbrev nameless : Profile
nameless = record {
  iccid = "892";
  isdp_aid = "A0";
  state = "disabled";
  profile_name = "Test";
  service_provider = "Osmocom";
  matching_id = "";
  installed_at = "2025-01-01";
}

found_nameless :
    Methods.get_profile "2025-06-01" (some "892") none none world.disk ≡ ok (some nameless)
unfolding get_profile list_profiles from_dicts first_profile profile_matches from_dict built read_db
found_nameless = refl

delete_without_matching_id_example :
    delete_profile io "892" world ≡ (ok (false, "Profile not found"), world)
delete_without_matching_id_example =
    delete_without_matching_id io "892" world nameless found_nameless refl

switched : (switch_profile io "891" "892" world).0 ≡ ok (true, "Profile 892 enabled")
unfolding switch_profile enable_profile Methods.enable_profile transact enable_edit profiles_of
    find_target matches disable_others disable_other disable_entry set_state write_atomic read_db
switched = refl

switch_profile_switches_example :
    (x : Db) × (ps qs : List Entry) × (read_db world.disk ≡ ok x)
    × (x.profiles ≡ some ps)
    × Stores io world.disk x qs (switch_profile io "891" "892" world).1.disk
    × Switched (matches (some "892") none) ps qs
    × ((switch_profile io "891" "892" world).1.sent ≡ profile_args "enable" "892" ∷ [])
switch_profile_switches_example =
    switch_profile_switches io "891" "892" world (true, "Profile 892 enabled") refl switched refl

abbrev answers : List String → Ran
answers args = exited 0 "" ""

download_profile-IsSound_example :
    IsSound AtMostOne (download_profile answers io "smdp" "B-1" world).1.disk
    × IsSound UniqueIds (download_profile answers io "smdp" "B-1" world).1.disk
unfolding count_enabled has_id
download_profile-IsSound_example =
    download_profile-IsSound answers io "smdp" "B-1" world
      (record { clean = refl; holds = omega arith })
      (record { clean = refl; holds = (refl, (refl, tt)) })
