-- ===== src/ProfileStore/Runs.antt =====
-- Sequences of calls of a `ProfileStore` (gui/services/profile_store.py), each with its own clock
-- and its own file faults.
pub mod Atomic
pub mod Edits
pub mod Keeps
pub mod OneEnabled
pub mod UniqueIds
use virtual_rsp.Common.{String, Bool, Option, List, [], ◌∷◌, Result, ok, err, true}
use virtual_rsp.ProfileStore.Defs.{Profile, Disk, Io}
use virtual_rsp.ProfileStore.Methods.{
  Reply, enable_profile, disable_profile, delete_profile, add_profile, set_eid, ensure_db_exists,
}

pub data Call : Type 0 where
  enable disable : Option String → Option String → Call
  delete : Option String → Option String → Option String → Call
  add : Profile → Call
  eid : String → Call
  ensure : Call

-- What the caller learns: whether the method reports success, or the exception.
pub replied : Result Reply × Disk → Result Bool × Disk
replied (ok r, d) = (ok r.0, d)
replied (err e, d) = (err e, d)

pub returned : Result (Unit {0}) × Disk → Result Bool × Disk
returned (ok _, d) = (ok true, d)
returned (err e, d) = (err e, d)

unfoldable pub call : Io → Call → Disk → Result Bool × Disk
unfolding replied returned
call io (enable iccid aid) d = replied (enable_profile io iccid aid d)
call io (disable iccid aid) d = replied (disable_profile io iccid aid d)
call io (delete iccid aid m) d = replied (delete_profile io iccid aid m d)
call io (add p) d = add_profile io p d
call io (eid e) d = returned (set_eid io e d)
call io ensure d = returned (ensure_db_exists io d)

unfoldable pub run : List (Io × Call) → Disk → Disk
run [] d = d
run ((io, c) ∷ cs) d = run cs (call io c d).1
