-- ===== src/LpaCommand/Switching.antt =====
-- `LpaCommandService.switch_profile` (mno/services/lpa_command.py).
use virtual_rsp.Common.{
  ◌≡◌, refl, ◌∙◌, true, false, String, none, some, List, [], ◌∷◌, ◌++◌, Result, ok, err, arith,
}
use virtual_rsp.ProfileStore.Defs.{Entry, Db, absent, Disk, Io, read_db}
use virtual_rsp.ProfileStore.Methods
use virtual_rsp.ProfileStore.Methods.{Reply, matches}
use virtual_rsp.ProfileStore.Switching.{Stores, Switched, enable_profile_switches}
use virtual_rsp.LpaCommand.{World, profile_args, after_store, enable_profile, switch_profile}

-- What a call that reports success has done: the store's method reported success, the file is as
-- it left it, and one command was sent.
after_store_success :
    (text : String) (args : List String) (w : World) (o : Result Reply × Disk) (a : Reply)
    → (after_store text args w o).0 ≡ ok a
    → a.0 ≡ true
    → (b : Reply) × (o.0 ≡ ok b)
      × (b.0 ≡ true)
      × (after_store text args w o).1.disk ≡ o.1
      × (after_store text args w o).1.sent ≡ w.sent ++ args ∷ []
unfolding after_store
after_store_success text args w (err e, d) a h t = absurd (cc)
after_store_success text args w (ok (false, msg), d) a h t = absurd (ground arith)
after_store_success text args w (ok (true, msg), d) a h t = ((true, msg), refl, refl, refl, refl)

-- When `switch_profile` reports success, the first stored profile with the ICCID to switch to is
-- the only one enabled, nothing but states changed in the file, and one enable command went to
-- lpac, whatever ICCID it was asked to switch from.
pub switch_profile_switches :
    (io : Io) (from_iccid to_iccid : String) (w : World) (a : Reply)
    → w.disk.temp ≡ absent
    → (switch_profile io from_iccid to_iccid w).0 ≡ ok a
    → a.0 ≡ true
    → (x : Db) × (ps qs : List Entry) × (read_db w.disk ≡ ok x)
      × (x.profiles ≡ some ps)
      × Stores io w.disk x qs (switch_profile io from_iccid to_iccid w).1.disk
      × Switched (matches (some to_iccid) none) ps qs
      × ((switch_profile io from_iccid to_iccid w).1.sent
          ≡ w.sent ++ profile_args "enable" to_iccid ∷ [])
unfolding switch_profile enable_profile
switch_profile_switches io from_iccid to_iccid w a clean h t =
    let (b, p, q, r, s) =
      after_store_success _ (profile_args "enable" to_iccid) w
        (Methods.enable_profile io (some to_iccid) none w.disk) a h t in
    let (x, ps, qs, g, f, z, k) =
      enable_profile_switches io (some to_iccid) none w.disk b clean p q in
    (x, ps, qs, g, f, r ∙ z, k, s)
