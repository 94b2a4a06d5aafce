-- ===== src/Smdp/Mno.antt =====
-- The endpoints of pysim/osmo-smdpp.py for the MNO console. Their JSON answers are records; the
-- rate of successes is a fraction, and the time of a file a parameter.
use Prim.Native.Char.{code}
use Prim.Native.String.{◌++◌ as concat}
use virtual_rsp.Common.{
  ℕ, ◌+◌, ◌-◌, ◌*◌, [], ◌∷◌, List, Bool, true, false, not, ◌&&◌, ◌==◌, Option, none, some, String,
  ok, err, os_error, leb, nat_beq, length, chars, take_chars, drop_chars, text_starts_with, truthy,
  if◌then◌else◌,
}
use virtual_rsp.Common.Exec.{Exec}
use virtual_rsp.Bsp.Padding.{Bytes}
use virtual_rsp.Common.Dict.{Dict, find, put, remove}
use virtual_rsp.Smdp.Eid.{Text}
use virtual_rsp.Smdp.Session.{Session}
use virtual_rsp.Smdp.History.{Download}
use virtual_rsp.Smdp.Server.{Config, Server}
use virtual_rsp.Smdp.Authenticate.{join_path}

-- status code and text of an answer
abbrev pub Response : Type 0
Response = ℕ × String

-- `s.endswith('.der')`
unfoldable pub ends_with_der : String → Bool
ends_with_der s = leb 4 (chars s) && (drop_chars (chars s - 4) s == ".der")

unfoldable pub has_slash : String → Bool
has_slash String.[] = false
has_slash (String.◌∷◌ c s) = let rest = has_slash s in if nat_beq (code c) 47 then true else rest

-- the names in a directory with their contents: `os.listdir` on the files by their paths
unfoldable pub list_directory : String → Dict Bytes → List (String × Bytes)
unfolding has_slash
list_directory directory [] = []
list_directory directory ((path, content) ∷ files) =
    let rest = list_directory directory files in
    let name = drop_chars (chars directory + 1) path in
    if text_starts_with path (concat directory "/") && not (has_slash name)
    then (name, content) ∷ rest
    else rest

-- an entry of `mno_list_profiles`
pub record ProfileInfo : Type 0 where
  pub matching_id : String
  pub size : ℕ
  pub modified : String

unfoldable pub profile_infos : (String → String) → List (String × Bytes) → List ProfileInfo
unfolding ends_with_der
profile_infos modified [] = []
profile_infos modified ((name, content) ∷ files) =
    let rest = profile_infos modified files in
    if ends_with_der name
    then record {
      matching_id = take_chars (chars name - 4) name;
      size = length content;
      modified = modified name;
    }
      ∷ rest
    else rest

-- an entry of `mno_list_sessions`; `none` stands for its texts that say that nothing is known. No
-- session has a time of creation, so the time of the request is shown.
pub record SessionInfo : Type 0 where
  pub transaction_id : String
  pub eid : Option Text
  pub matching_id : Option String
  pub started_at : String

unfoldable pub shown_eid : Option Text → Option Text
shown_eid (some (c ∷ cs)) = some (c ∷ cs)
shown_eid _ = none

unfoldable pub shown_id : Option String → Option String
shown_id (some m) = if truthy m then some m else none
shown_id none = none

unfoldable pub session_infos : String → Dict Session → List SessionInfo
unfolding shown_eid shown_id
session_infos now [] = []
session_infos now ((tid, ss) ∷ rss) =
    record {
      transaction_id = tid;
      eid = shown_eid ss.eid;
      matching_id = shown_id ss.matching_id;
      started_at = now;
    }
    ∷ session_infos now rss

unfoldable pub count_status : String → List Download → ℕ
count_status status [] = 0
count_status status (d ∷ ds) =
    let rest = count_status status ds in if d.status == status then rest + 1 else rest

unfoldable pub count_der : List (String × Bytes) → ℕ
unfolding ends_with_der
count_der [] = 0
count_der ((name, _) ∷ files) =
    let rest = count_der files in if ends_with_der name then rest + 1 else rest

-- `mno_get_stats`; the rate is a numerator and a denominator, or 0 for an empty history
pub record Stats : Type 0 where
  pub total_profiles : ℕ
  pub active_sessions : ℕ
  pub total_downloads : ℕ
  pub success_rate : Option (ℕ × ℕ)
  pub failed_count : ℕ

unfoldable pub success_rate : List Download → Option (ℕ × ℕ)
unfolding count_status
success_rate [] = none
success_rate (d ∷ ds) = some (count_status "success" (d ∷ ds) * 100, length (d ∷ ds))

module _ (g : Config) where
  unfoldable pub mno_list_profiles : (String → String) → Server → List ProfileInfo
  unfolding list_directory profile_infos
  mno_list_profiles modified s = profile_infos modified (list_directory g.upp_dir s.files)

  -- the path of an uploaded file
  unfoldable pub upload_path : String → String
  unfolding join_path
  upload_path name = join_path g.upp_dir name

  -- `open(path, 'wb')` raises where the path is not writable
  unfoldable pub write_upload : (String → Bool) → String → Bytes → Exec Server Response
  unfolding upload_path
  write_upload writable name content s =
      if writable (upload_path name)
      then (
        ok (201, "Profile uploaded"),
        record s { files = put (upload_path name) content s.files },
      )
      else (err os_error, s)

  -- `mno_upload_profile`, with the header `X-Filename`
  unfoldable pub mno_upload_profile : (String → Bool) → Option String → Bytes → Exec Server Response
  unfolding write_upload ends_with_der
  mno_upload_profile writable none content s = (ok (400, "Invalid filename"), s)
  mno_upload_profile writable (some name) content s =
      if truthy name && ends_with_der name
      then write_upload writable name content s
      else (ok (400, "Invalid filename"), s)

  -- `mno_delete_profile`
  unfoldable pub delete_file : String → Option Bytes → Exec Server Response
  delete_file path none s = (ok (404, "Profile not found"), s)
  delete_file path (some _) s =
      (ok (200, "Profile deleted"), record s { files = remove path s.files })

  unfoldable pub mno_delete_profile : String → Exec Server Response
  unfolding upload_path delete_file
  mno_delete_profile matching_id s =
      let path = upload_path (concat matching_id ".der") in delete_file path (find path s.files) s

  unfoldable pub mno_list_sessions : String → Server → List SessionInfo
  unfolding session_infos
  mno_list_sessions now s = session_infos now s.rss

  unfoldable pub mno_list_downloads : Server → List Download
  mno_list_downloads s = s.history

  unfoldable pub mno_get_stats : Server → Stats
  unfolding list_directory count_der success_rate count_status
  mno_get_stats s = record {
    total_profiles = count_der (list_directory g.upp_dir s.files);
    active_sessions = length s.rss;
    total_downloads = length s.history;
    success_rate = success_rate s.history;
    failed_count = count_status "failed" s.history;
  }
