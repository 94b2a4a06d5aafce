-- ===== src/LpaService/Examples.antt =====
-- Runs of `LPAService` (gui/services/lpa_service.py) with an lpac that only lists profiles.
use virtual_rsp.Common.{◌≡◌, refl, false, none, some, ok, err, attribute_error}
use virtual_rsp.LpaService.{
  Json, text, array, object, end, no_more, member, Ending, exited, Command, profile_command,
  download_command, download_profile, enable_profile, disable_profile, delete_profile, get_eid,
  list_profiles,
}
use virtual_rsp.LpaService.Replies.{IsHonest, replies-IsHonest}

abbrev lpac : Command → Ending
lpac c = exited 0 "out" ""

replies-IsHonest_example :
    IsHonest "Profile 89 enabled" (lpac (profile_command "enable" "89")) (enable_profile lpac "89")
    × IsHonest "Profile 89 disabled"
        (lpac (profile_command "disable" "89"))
        (disable_profile lpac "89")
    × IsHonest "Profile 89 deleted"
        (lpac (profile_command "delete" "89"))
        (delete_profile lpac "89")
    × IsHonest "Profile downloaded successfully"
        (lpac (download_command "smdp" "M"))
        (download_profile lpac "smdp" "M")
replies-IsHonest_example = replies-IsHonest lpac "89" "smdp" "M"

no_text : enable_profile (λ c. exited 1 "" "") "89" ≡ (false, "Enable failed")
unfolding enable_profile
no_text = refl

abbrev chip : Json
chip = object (
    member "payload"
      (object (member "data" (object (member "eidValue" (text "89") no_more)) no_more)) no_more)

eid_read : get_eid (λ s. some chip) lpac ≡ ok (text "89")
unfolding get_eid
eid_read = refl

-- a payload that is not an object raises
payload_list :
    get_eid (λ s. some (object (member "payload" (array end) no_more))) lpac ≡ err attribute_error
unfolding get_eid
payload_list = refl

nothing_listed : list_profiles (λ s. none) lpac ≡ ok (array end)
unfolding list_profiles
nothing_listed = refl
