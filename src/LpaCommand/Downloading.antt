-- ===== src/LpaCommand/Downloading.antt =====
-- `LpaCommandService.download_profile` (mno/services/lpa_command.py) on the shared store.
use virtual_rsp.Common.{◌≡◌, refl, Bool, String, List, [], ◌∷◌, arith, ◌⊎◌, inl, inr}
use virtual_rsp.ProfileStore.Defs.{Disk, Io}
use virtual_rsp.ProfileStore.Methods
use virtual_rsp.ProfileStore.Methods.{Reply}
use virtual_rsp.ProfileStore.Runs.{add, call, run}
use virtual_rsp.ProfileStore.Runs.Keeps.{IsSound}
use virtual_rsp.ProfileStore.Runs.OneEnabled.{AtMostOne, run-AtMostOne}
use virtual_rsp.ProfileStore.Runs.UniqueIds.{UniqueIds, run-UniqueIds}
use virtual_rsp.LpaCommand.{
  World, Ran, download_profile, after_download, send, downloaded, lpac_result,
}

added-AtMostOne :
    (io : Io) (m : String) (d : Disk)
    → IsSound AtMostOne d
    → IsSound AtMostOne (Methods.add_profile io (downloaded io.now m) d).1
unfolding run call downloaded
added-AtMostOne io m d s = run-AtMostOne ((io, add (downloaded io.now m)) ∷ []) d (refl, tt) s

added-UniqueIds :
    (io : Io) (m : String) (d : Disk)
    → IsSound UniqueIds d
    → IsSound UniqueIds (Methods.add_profile io (downloaded io.now m) d).1
unfolding run call
added-UniqueIds io m d s = run-UniqueIds ((io, add (downloaded io.now m)) ∷ []) d s

-- The file after a download is the file before it, or the file after `add_profile`.
after_download_disk :
    (io : Io) (m : String) (w : World) (r : Bool × String × String)
    → ((after_download io m w r).1.disk ≡ w.disk)
      ⊎ ((after_download io m w r).1.disk ≡ (Methods.add_profile io (downloaded io.now m) w.disk).1)
unfolding after_download
after_download_disk io m w r = ground arith

-- Whatever lpac answers and whatever file fault there is, a download keeps the store's invariants:
-- at most one profile is enabled, matching IDs are unique, and no temporary file is left.
pub download_profile-IsSound :
    (lpac : List String → Ran) (io : Io) (address m : String) (w : World)
    → IsSound AtMostOne w.disk
    → IsSound UniqueIds w.disk
    → IsSound AtMostOne (download_profile lpac io address m w).1.disk
      × IsSound UniqueIds (download_profile lpac io address m w).1.disk
unfolding download_profile
download_profile-IsSound lpac io address m w one unique =
    let args = "profile" ∷ "download" ∷ "-s" ∷ address ∷ "-m" ∷ m ∷ [] in
    elim (after_download_disk io m (send args w) (lpac_result (lpac args))) [
      | inl same ↦ (rw same one, rw same unique)
      | inr e ↦ (rw e (added-AtMostOne io m w.disk one), rw e (added-UniqueIds io m w.disk unique))
    ]
