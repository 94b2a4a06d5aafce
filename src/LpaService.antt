-- ===== src/LpaService.antt =====
-- gui/services/lpa_service.py: `LPAService`, which runs the command line tool lpac on the eUICC.
-- What lpac answers is an argument of each method, and the JSON reader is a parameter.
pub mod Replies
mod Examples
use Prim.Native.String.{◌++◌ as concat}
use virtual_rsp.Common.{
  ℕ, String, Bool, true, false, Option, none, some, List, [], ◌∷◌, Result, ok, err, value_error,
  attribute_error, nat_beq, truthy, ◌==◌, if◌then◌else◌, ◌>>=◌,
}

-- What `json.loads` returns, as far as the code looks into it.
mutual
  pub data Json : Type 0 where
    text : String → Json
    array : JsonList → Json
    object : Members → Json
    -- a number or a truth value, with whether it counts as true
    scalar : Bool → Json
    -- `None`
    null : Json

  pub data JsonList : Type 0 where
    end : JsonList
    item : Json → JsonList → JsonList

  pub data Members : Type 0 where
    no_more : Members
    member : String → Json → Members → Members

-- How `subprocess.run` ends: with a return code and two texts, at its time limit, or with an
-- exception that has a text.
pub data Ending : Type 0 where
  exited : ℕ → String → String → Ending
  timeout_expired : Ending
  failed : String → Ending

-- The command that lpac is called with and its time limit in seconds.
pub record Command : Type 0 where
  pub args : List String
  pub timeout : ℕ

-- `_run_lpac`: success, stdout, stderr
unfoldable pub run_lpac : Ending → Bool × String × String
run_lpac (exited code out errors) = (nat_beq code 0, out, errors)
run_lpac timeout_expired = (false, "", "Command timed out")
run_lpac (failed e) = (false, "", e)

-- `stderr or stdout or default`
unfoldable pub first_text : String → String → String → String
first_text errors out default =
    if truthy errors then errors else if truthy out then out else default

-- The reply of a method that changes the eUICC, from what lpac returned.
unfoldable pub reply : String → String → Bool × String × String → Bool × String
unfolding first_text
reply done default (true, out, errors) = (true, done)
reply done default (false, out, errors) = (false, first_text errors out default)

abbrev pub profile_command : String → String → Command
profile_command verb iccid = record { args = "profile" ∷ verb ∷ iccid ∷ []; timeout = 30 }

unfoldable pub download_command : String → String → Command
download_command address matching_id = record {
  args = "profile" ∷ "download" ∷ "-s" ∷ address ∷ "-m" ∷ matching_id ∷ [];
  timeout = 120;
}

-- Each method is given how each command would end.
module _ (lpac : Command → Ending) where
  unfoldable pub download_profile : String → String → Bool × String
  unfolding run_lpac reply download_command
  download_profile address matching_id =
      reply "Profile downloaded successfully" "Download failed"
        (run_lpac (lpac (download_command address matching_id)))

  unfoldable pub enable_profile : String → Bool × String
  unfolding run_lpac reply
  enable_profile iccid =
      reply (concat "Profile " (concat iccid " enabled")) "Enable failed"
        (run_lpac (lpac (profile_command "enable" iccid)))

  unfoldable pub disable_profile : String → Bool × String
  unfolding run_lpac reply
  disable_profile iccid =
      reply (concat "Profile " (concat iccid " disabled")) "Disable failed"
        (run_lpac (lpac (profile_command "disable" iccid)))

  unfoldable pub delete_profile : String → Bool × String
  unfolding run_lpac reply
  delete_profile iccid =
      reply (concat "Profile " (concat iccid " deleted")) "Delete failed"
        (run_lpac (lpac (profile_command "delete" iccid)))

-- `d.get(key, default)`, an attribute that only objects have
unfoldable pub member_of : String → Json → Members → Json
member_of key default no_more = default
member_of key default (member k v ms) =
    let rest = member_of key default ms in if k == key then v else rest

unfoldable pub get : String → Json → Json → Result Json
unfolding member_of
get key default (object ms) = ok (member_of key default ms)
get key default _ = err attribute_error

abbrev pub empty_object : Json
empty_object = object no_more

-- `if chip_info`
unfoldable pub truthy_json : Json → Bool
truthy_json (text s) = truthy s
truthy_json (array end) = false
truthy_json (array (item j l)) = true
truthy_json (object no_more) = false
truthy_json (object (member k v ms)) = true
truthy_json (scalar b) = b
truthy_json null = false

-- `json.loads` gives `none` where it raises `JSONDecodeError`.
module _ (loads : String → Option Json) (lpac : Command → Ending) where
  unfoldable pub loaded : Bool × String × String → Option Json
  loaded (true, out, errors) = loads out
  loaded (false, out, errors) = none

  unfoldable pub get_chip_info : Option Json
  unfolding loaded run_lpac
  get_chip_info = loaded (run_lpac (lpac (record { args = "chip" ∷ "info" ∷ []; timeout = 30 })))

  unfoldable pub profile_info_list : Option Json → Result Json
  unfolding get
  profile_info_list none = ok (array end)
  profile_info_list (some data_json) = do
    payload ← get "payload" empty_object data_json
    d ← get "data" empty_object payload
    get "profileInfoList" (array end) d

  unfoldable pub list_profiles : Result Json
  unfolding profile_info_list loaded run_lpac
  list_profiles =
      profile_info_list
        (loaded (run_lpac (lpac (record { args = "profile" ∷ "list" ∷ []; timeout = 30 }))))

  unfoldable pub eid_in : Json → Result Json
  unfolding get
  eid_in chip_info = do
    payload ← get "payload" empty_object chip_info
    d ← get "data" empty_object payload
    get "eidValue" null d

  unfoldable pub eid_of : Option Json → Result Json
  unfolding eid_in truthy_json
  eid_of none = ok null
  eid_of (some chip_info) = if truthy_json chip_info then eid_in chip_info else ok null

  unfoldable pub get_eid : Result Json
  unfolding eid_of get_chip_info
  get_eid = eid_of get_chip_info
