-- ===== src/LpaCommand.antt =====
-- mno/services/lpa_command.py: `LpaCommandService`, which keeps the shared profile store and sends
-- the same commands to the eUICC by the command line tool lpac. What lpac answers is a parameter.
pub mod Iccid
pub mod Deleting
pub mod Switching
pub mod Downloading
mod Examples
use Prim.Native.String.{◌++◌ as concat}
use virtual_rsp.Common.{
  ℕ, String, Bool, true, false, Option, none, some, List, [], ◌∷◌, ◌++◌, Result, ok, err, ◌>>=◌,
  nat_beq, truthy, if◌then◌else◌,
}
use virtual_rsp.ProfileStore.Defs.{Profile, Disk, Io, disabled}
use virtual_rsp.ProfileStore.Methods
use virtual_rsp.ProfileStore.Methods.{Reply}
use virtual_rsp.LpaCommand.Iccid.{generated_iccid}

-- What `subprocess.run` does: it ends with a return code and two texts, passes its time limit, or
-- raises with a text.
pub data Ran : Type 0 where
  exited : ℕ → String → String → Ran
  timed_out : Ran
  raised : String → Ran

-- The store's file, and the commands that lpac was called with.
pub record World : Type 0 where
  pub disk : Disk
  pub sent : List (List String)

-- `_run_lpac`: success, stdout, stderr
pub lpac_result : Ran → Bool × String × String
lpac_result (exited rc out err_text) = (nat_beq rc 0, out, err_text)
lpac_result timed_out = (false, "", "Command timed out")
lpac_result (raised text) = (false, "", text)

abbrev pub send : List String → World → World
send args w = record w { sent = w.sent ++ args ∷ [] }

-- After a method of the store: report its failure, or send the command to lpac, whose answer is
-- dropped, and report success.
unfoldable pub after_store :
    String → List String → World → Result Reply × Disk → Result Reply × World
after_store text args w (err e, d) = (err e, record w { disk = d })
after_store text args w (ok (false, msg), d) = (ok (false, msg), record w { disk = d })
after_store text args w (ok (true, _), d) = (ok (true, text), send args (record w { disk = d }))

abbrev pub profile_text : String → String → String
profile_text iccid done = concat "Profile " (concat iccid done)

abbrev pub profile_args : String → String → List String
profile_args verb iccid = "profile" ∷ verb ∷ iccid ∷ []

unfoldable pub enable_profile : Io → String → World → Result Reply × World
unfolding after_store
enable_profile io iccid w =
    after_store (profile_text iccid " enabled") (profile_args "enable" iccid) w
      (Methods.enable_profile io (some iccid) none w.disk)

unfoldable pub disable_profile : Io → String → World → Result Reply × World
unfolding after_store
disable_profile io iccid w =
    after_store (profile_text iccid " disabled") (profile_args "disable" iccid) w
      (Methods.disable_profile io (some iccid) none w.disk)

-- The rest of `delete_profile` once the profile was looked up.
unfoldable pub delete_looked_up :
    Io → String → World → Result (Option Profile) → Result Reply × World
unfolding after_store
delete_looked_up io iccid w (err e) = (err e, w)
delete_looked_up io iccid w (ok none) = (ok (false, "Profile not found"), w)
delete_looked_up io iccid w (ok (some p)) =
    after_store (profile_text iccid " deleted") (profile_args "delete" iccid) w
      (Methods.delete_profile io none none (some p.matching_id) w.disk)

unfoldable pub delete_profile : Io → String → World → Result Reply × World
unfolding delete_looked_up
delete_profile io iccid w =
    delete_looked_up io iccid w (Methods.get_profile io.now (some iccid) none none w.disk)

-- `switch_profile`, which does not read the ICCID to switch from
unfoldable pub switch_profile : Io → String → String → World → Result Reply × World
switch_profile io from_iccid to_iccid w = enable_profile io to_iccid w

-- The profile that `download_profile` adds.
unfoldable pub downloaded : String → String → Profile
downloaded now m = record {
  iccid = generated_iccid m;
  isdp_aid = "";
  state = disabled;
  profile_name = m;
  service_provider = "OsmocomSPN";
  matching_id = m;
  installed_at = now;
}

-- `a or b` for texts
or_text : String → String → String
or_text a b = if truthy a then a else b

-- `add_profile` may return `False`, which `download_profile` does not read.
added : String → World → Result Bool × Disk → Result Reply × World
added m w (err e, d) = (err e, record w { disk = d })
added m w (ok _, d) = (ok (true, profile_text m " downloaded and installed"), record w { disk = d })

unfoldable pub after_download : Io → String → World → Bool × String × String → Result Reply × World
unfolding added or_text
after_download io m w (true, out, err_text) =
    added m w (Methods.add_profile io (downloaded io.now m) w.disk)
after_download io m w (false, out, err_text) =
    (ok (false, or_text err_text (or_text out "Download failed")), w)

unfoldable pub download_profile :
    (List String → Ran) → Io → String → String → World → Result Reply × World
unfolding after_download lpac_result
download_profile lpac io address m w =
    let args = "profile" ∷ "download" ∷ "-s" ∷ address ∷ "-m" ∷ m ∷ [] in
    after_download io m (send args w) (lpac_result (lpac args))

-- `get_chip_info`; `loads` is `json.loads`, with `none` where it raises `JSONDecodeError`
unfoldable pub parsed {ℓ} : {J : Type ℓ} → (String → Option J) → Bool × String × String → Option J
parsed loads (true, out, err_text) = loads out
parsed loads (false, out, err_text) = none

unfoldable pub get_chip_info {ℓ} :
    {J : Type ℓ} → (String → Option J) → (List String → Ran) → World → Option J × World
unfolding parsed lpac_result
get_chip_info loads lpac w =
    let args = "chip" ∷ "info" ∷ [] in (parsed loads (lpac_result (lpac args)), send args w)

-- `get_eid`, where any exception is `None`
unfoldable pub get_eid : World → Option String
get_eid w = elim (Methods.get_eid w.disk) [ ok e ↦ some e | err _ ↦ none ]

-- The keys of `list_profiles`.
pub record Listed : Type 0 where
  pub iccid : String
  pub profile_name : String
  pub profile_state : String
  pub service_provider_name : String
  pub matching_id : String
  pub installed_at : String

listed : List Profile → List Listed
listed [] = []
listed (p ∷ ps) =
    record {
      iccid = p.iccid;
      profile_name = p.profile_name;
      profile_state = p.state;
      service_provider_name = p.service_provider;
      matching_id = p.matching_id;
      installed_at = p.installed_at;
    }
    ∷ listed ps

-- `list_profiles`, where any exception is the empty list
pub list_profiles : String → World → List Listed
unfolding listed
list_profiles now w = elim (Methods.list_profiles now w.disk) [ ok ps ↦ listed ps | err _ ↦ [] ]
