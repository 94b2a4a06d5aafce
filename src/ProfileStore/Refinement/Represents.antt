-- ===== src/ProfileStore/Refinement/Represents.antt =====
-- The disks that hold a list of profiles of `Abstract`, and what an edit of
-- gui/services/profile_store.py makes of them.
use virtual_rsp.Common.{
  ◌≡◌, ◌⊎◌, inl, inr, refl, ap, ◌∙◌, subst, Option, none, some, List, map, Result, ok, err,
  os_error,
}
use virtual_rsp.ProfileStore.Defs.{Profile, Db, json, absent, Disk, Io, to_dict, read_db}
use virtual_rsp.ProfileStore.Methods.{Reply, transact}
use virtual_rsp.ProfileStore.Runs.Atomic.{stamped, write_atomic_lem}
use virtual_rsp.ProfileStore.Runs.Edits.{with_profiles}
use virtual_rsp.ProfileStore.Abstract.{Command, promised, Promise, kept, failed, IsDistinct}

-- A disk whose file holds the profiles, and no temporary file.
pub record Represents (a : List Profile) (d : Disk) : Type 0 where
  pub db : Db
  pub clean : d.temp ≡ absent
  pub stored : d.db ≡ json db
  pub listed : db.profiles ≡ some (map to_dict a)
  pub distinct : IsDistinct a

-- What is promised happens, on the profiles and on the disk.
abbrev pub Outcome : Command → List Profile → Result Reply × Disk → Type 0
Outcome c a x = (b : List Profile) × Promise c a x.0 b × Represents b x.1

module _ (io : Io) (c : Command) (a : List Profile) (d : Disk) (r : Represents a d) where
  pub Outcome-kept :
      (rep : Reply) (b : List Profile)
      → promised c a ≡ (rep, b)
      → (t : Result Reply × Disk) → t ≡ (ok rep, d)
      → b ≡ a
      → Outcome c a t
  Outcome-kept rep b e t s same =
      rw s (b, subst (λ (q : Reply × List Profile). Promise c a (ok q.0) q.1) e kept, rw same r)

  Outcome-failed : (t : Result Reply × Disk) → t ≡ (err os_error, d) → Outcome c a t
  Outcome-failed t s = rw s (a, failed, r)

  Outcome-written :
      (rep : Reply) (b : List Profile)
      → promised c a ≡ (rep, b)
      → (t : Result Reply × Disk) → t ≡ (ok rep, stamped io (with_profiles r.db (map to_dict b)) d)
      → IsDistinct b
      → Outcome c a t
  Outcome-written rep b e t s distinct = rw s (
    b,
    subst (λ (q : Reply × List Profile). Promise c a (ok q.0) q.1) e kept,
    record {
      db = record (with_profiles r.db (map to_dict b)) { last_modified = some io.now };
      clean = r.clean;
      stored = refl;
      listed = refl;
      distinct = distinct;
    },
  )

module _ {A : Type 0} (io : Io) (edit : Db → Result (A × Option Db)) (a : List Profile) (d : Disk)
    (r : Represents a d) where
  read_stored : read_db d ≡ ok r.db
  unfolding read_db
  read_stored = rw r.stored refl

  pub transact_kept : (x : A) → edit r.db ≡ ok (x, none) → transact io edit d ≡ (ok x, d)
  unfolding transact
  transact_kept x e = rw (read_stored, e) refl

  transact_written :
      (x : A) (y : Db)
      → edit r.db ≡ ok (x, some y)
      → (transact io edit d ≡ (ok x, stamped io y d)) ⊎ (transact io edit d ≡ (err os_error, d))
  unfolding transact
  transact_written x y e = elim (write_atomic_lem io y d r.clean) [
    | inl w ↦ inl (rw (read_stored, e) (rw w refl))
    | inr w ↦ inr (rw (read_stored, e) (rw w refl))
  ]

  -- An edit that writes the profiles back.
  pub writes-Outcome :
      (c : Command) (rep : Reply) (b : List Profile) (back : Result A × Disk → Result Reply × Disk)
      (x : A)
      → promised c a ≡ (rep, b)
      → edit r.db ≡ ok (x, some (with_profiles r.db (map to_dict b)))
      → IsDistinct b
      → ((d' : Disk) → back (ok x, d') ≡ (ok rep, d'))
      → ((d' : Disk) → back (err os_error, d') ≡ (err os_error, d'))
      → Outcome c a (back (transact io edit d))
  writes-Outcome c rep b back x p e distinct good bad =
      elim (transact_written x (with_profiles r.db (map to_dict b)) e) [
        | inl w ↦ Outcome-written io c a d r rep b p _ (ap back w ∙ good _) distinct
        | inr w ↦ Outcome-failed io c a d r _ (ap back w ∙ bad d)
      ]
