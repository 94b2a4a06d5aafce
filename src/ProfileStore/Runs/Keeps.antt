-- ===== src/ProfileStore/Runs/Keeps.antt =====
-- Invariants of the stored object through any sequence of calls of the store, from what each edit
-- of gui/services/profile_store.py does to the object in memory.
use virtual_rsp.Common.{◌≡◌, inl, inr, String, Option, some, List, [], ◌∷◌, Result, ok, All, subst}
use virtual_rsp.ProfileStore.Defs.{
  Profile, Db, DbFile, missing, garbage, json, absent, Disk, Io, read_db, parsed,
}
use virtual_rsp.ProfileStore.Methods.{
  transact, enable_edit, enable_profile, disable_edit, disable_profile, delete_edit, delete_profile,
  add_edit, add_profile, set_eid, set_eid_edit, ensure_db_exists, create_if_missing, initial_data,
}
use virtual_rsp.ProfileStore.Runs.{Call, enable, disable, delete, add, eid, ensure, call, run}
use virtual_rsp.ProfileStore.Runs.Atomic.{
  transact_cases, replied-state, returned-state, write_atomic_lem,
}

-- `P` of the object in the file, if there is one.
abbrev pub Holds : (Db → Type 0) → DbFile → Type 0
Holds P missing = Unit
Holds P garbage = Unit
Holds P (json x) = P x

-- No temporary file is left, and `P` holds of the database file.
pub record IsSound (P : Db → Type 0) (d : Disk) : Type 0 where
  pub clean : d.temp ≡ absent
  pub holds : Holds P d.db

-- An edit keeps `P` if it leaves `P` true of the object that is written back.
abbrev pub Keeps {ℓ} : {A : Type ℓ} → (Db → Type 0) → (Db → Result (A × Option Db)) → Type ℓ
Keeps {A} P edit = (x y : Db) (a : A) → P x → edit x ≡ ok (a, some y) → P y

-- What an invariant asks of each edit, and of the profiles that are added.
pub record IsKept (P : Db → Type 0) (IsAllowed : Profile → Type 0) : Type 0 where
  pub stamp : (x : Db) (t : Option String) → P x → P (record x { last_modified = t })
  pub initial : (io : Io) → P (initial_data io)
  pub enabling : (iccid aid : Option String) → Keeps P (enable_edit iccid aid)
  pub disabling : (iccid aid : Option String) → Keeps P (disable_edit iccid aid)
  pub deleting : (iccid aid m : Option String) → Keeps P (delete_edit iccid aid m)
  pub adding : (p : Profile) → IsAllowed p → Keeps P (add_edit p)
  pub renaming : (e : String) → Keeps P (set_eid_edit e)

abbrev pub AllowedCall : (Profile → Type 0) → Io × Call → Type 0
AllowedCall IsAllowed (io, add p) = IsAllowed p
AllowedCall IsAllowed (io, _) = Unit

read-Holds : (P : Db → Type 0) (f : DbFile) (x : Db) → Holds P f → parsed f ≡ ok x → P x
unfolding parsed
read-Holds P missing x h e = absurd (cc)
read-Holds P garbage x h e = absurd (cc)
read-Holds P (json y) x h e = subst P (cc) h

module _ {P : Db → Type 0} {IsAllowed : Profile → Type 0} (kept : IsKept P IsAllowed) where
  transact-IsSound {ℓ} :
      {A : Type ℓ} (io : Io) (edit : Db → Result (A × Option Db)) (d : Disk)
      → Keeps P edit
      → IsSound P d
      → IsSound P (transact io edit d).1
  unfolding read_db
  transact-IsSound io edit d keep s = elim (transact_cases io edit d s.clean) [
    | inl same ↦ rw same s
    | inr (a, x, y, p, q, w) ↦ rw w (record {
      clean = s.clean;
      holds = kept.stamp y (some io.now) (keep x y a (read-Holds P d.db x s.holds p) q);
    })
  ]

  create-IsSound :
      (io : Io) (f : DbFile) (d : Disk) → IsSound P d → IsSound P (create_if_missing io f d).1
  unfolding create_if_missing
  create-IsSound io missing d s = elim (write_atomic_lem io (initial_data io) d s.clean) [
    | inl w ↦ rw w (record {
      clean = s.clean;
      holds = kept.stamp (initial_data io) (some io.now) (kept.initial io);
    })
    | inr w ↦ rw w s
  ]
  create-IsSound io garbage d s = s
  create-IsSound io (json x) d s = s

  ensure-IsSound : (io : Io) (d : Disk) → IsSound P d → IsSound P (ensure_db_exists io d).1
  unfolding ensure_db_exists
  ensure-IsSound io d s = create-IsSound io d.db d s

  call-IsSound :
      (io : Io) (c : Call) (d : Disk)
      → AllowedCall IsAllowed (io, c)
      → IsSound P d
      → IsSound P (call io c d).1
  unfolding call enable_profile disable_profile delete_profile add_profile set_eid
  call-IsSound io (enable iccid aid) d h s =
      rw replied-state (transact-IsSound io (enable_edit iccid aid) d (kept.enabling iccid aid) s)
  call-IsSound io (disable iccid aid) d h s =
      rw replied-state (transact-IsSound io (disable_edit iccid aid) d (kept.disabling iccid aid) s)
  call-IsSound io (delete iccid aid m) d h s =
      rw replied-state
        (transact-IsSound io (delete_edit iccid aid m) d (kept.deleting iccid aid m) s)
  call-IsSound io (add p) d h s = transact-IsSound io (add_edit p) d (kept.adding p h) s
  call-IsSound io (eid e) d h s =
      rw returned-state (transact-IsSound io (set_eid_edit e) d (kept.renaming e) s)
  call-IsSound io ensure d h s = rw returned-state (ensure-IsSound io d s)

  -- Through any calls, with any faults, the object in the file keeps `P`.
  pub run-IsSound :
      (cs : List (Io × Call)) (d : Disk)
      → All (AllowedCall IsAllowed) cs
      → IsSound P d
      → IsSound P (run cs d)
  unfolding run
  run-IsSound [] d h s = s
  run-IsSound ((io, c) ∷ cs) d h s = run-IsSound cs (call io c d).1 h.1 (call-IsSound io c d h.0 s)
