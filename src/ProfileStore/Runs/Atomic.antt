-- ===== src/ProfileStore/Runs/Atomic.antt =====
-- A call of the store takes effect as a whole or not at all.
use virtual_rsp.Common.{
  ◌≡◌, refl, ◌⊎◌, inl, inr, Bool, true, String, Option, none, some, Result, ok, err, arith, ◌>>=◌,
  os_error, ◌≢◌, ok-injective, err-ne-ok, >>=-eq-ok, ap, ◌∙◌,
}
use virtual_rsp.ProfileStore.Defs.{Profile, Db, json, absent, Disk, Io, read_db, write_atomic}
use virtual_rsp.ProfileStore.Methods.{
  transact, settle, enable_edit, enable_profile, disable_edit, disable_profile, delete_edit,
  delete_profile, add_edit, add_profile, set_eid, set_eid_edit, ensure_db_exists, Reply,
}
use virtual_rsp.ProfileStore.Runs.{
  Call, enable, disable, delete, add, eid, ensure, call, replied, returned,
}

-- A write replaces the whole object and stamps it, or raises and leaves every file as it was.
pub write_atomic_lem :
    (io : Io) (db : Db) (d : Disk)
    → d.temp ≡ absent
    → (write_atomic io db d
        ≡ (ok tt, record d { db = json (record db { last_modified = some io.now }) }))
      ⊎ (write_atomic io db d ≡ (err os_error, d))
unfolding write_atomic
write_atomic_lem io db d clean = ground arith

abbrev pub stamped : Io → Db → Disk → Disk
stamped io db d = record d { db = json (record db { last_modified = some io.now }) }

module _ {ℓ} {A : Type ℓ} (io : Io) (edit : Db → Result (A × Option Db)) (d : Disk) where
  -- What a transaction that changes the files has done.
  abbrev pub Wrote : Type ℓ
  Wrote =
      (a : A) × (x : Db) × (y : Db) × (read_db d ≡ ok x)
      × (edit x ≡ ok (a, some y))
      × (transact io edit d ≡ (ok a, stamped io y d))

  settled :
      (r : Result (A × Option Db)) (x : Db)
      → d.temp ≡ absent
      → read_db d ≡ ok x
      → edit x ≡ r
      → ((transact io edit d).1 ≡ d) ⊎ Wrote
  unfolding transact
  settled (err e) x clean p q = inl (rw (p, q))
  settled (ok (a, none)) x clean p q = inl (rw (p, q))
  settled (ok (a, some y)) x clean p q = elim (write_atomic_lem io y d clean) [
    | inl w ↦ inr (a, x, y, p, q, rw (p, q) (rw w refl))
    | inr w ↦ inl (rw (p, q) (rw w refl))
  ]

  pub transact_cases : d.temp ≡ absent → ((transact io edit d).1 ≡ d) ⊎ Wrote
  unfolding transact
  transact_cases clean = go (read_db d) refl
    where
      go : (r : Result Db) → read_db d ≡ r → ((transact io edit d).1 ≡ d) ⊎ Wrote
      go (err e) p = inl (rw p)
      go (ok x) p = settled (edit x) x clean p refl

module _ {ℓ} {A : Type ℓ} (io : Io) (edit : Db → Result (A × Option Db)) (d : Disk) where
  settle_returned :
      {a : A} (r : Result (A × Option Db))
      → d.temp ≡ absent
      → (settle io d r).0 ≡ ok a
      → (o : Option Db) × (r ≡ ok (a, o))
        × ((y : Db) → o ≡ some y → (settle io d r).1 ≡ stamped io y d)
  unfolding settle
  settle_returned (err e) clean h = absurd (cc)
  settle_returned (ok (b, none)) clean h =
      (none, ap (λ c. ok (c, none)) (ok-injective h), λ y n. absurd (cc))
  settle_returned (ok (b, some y)) clean h = elim (write_atomic_lem io y d clean) [
    | inl w ↦ (some y, ap (λ c. ok (c, some y)) (ok-injective (rw w at h)), λ z n. rw w (cc))
    | inr w ↦ absurd (err-ne-ok (rw w at h))
  ]

  -- A transaction that returned has read an object and edited it; what the edit returned to write
  -- stands in the file now.
  pub transact_returned :
      {a : A}
      → d.temp ≡ absent
      → (transact io edit d).0 ≡ ok a
      → (x : Db) × (o : Option Db) × (read_db d ≡ ok x)
        × (edit x ≡ ok (a, o))
        × ((y : Db) → o ≡ some y → (transact io edit d).1 ≡ stamped io y d)
  unfolding transact
  transact_returned clean h =
      let (o, p, w) = settle_returned (read_db d >>= edit) clean h in
      let (x, q, r) = >>=-eq-ok (read_db d) edit p in (x, o, q, r, w)

enable_edit_writes :
    (iccid aid : Option String) (x y : Db) (a : Reply)
    → enable_edit iccid aid x ≡ ok (a, some y)
    → a.0 ≡ true
unfolding enable_edit
enable_edit_writes iccid aid x y a h = ground arith

disable_edit_writes :
    (iccid aid : Option String) (x y : Db) (a : Reply)
    → disable_edit iccid aid x ≡ ok (a, some y)
    → a.0 ≡ true
unfolding disable_edit
disable_edit_writes iccid aid x y a h = ground arith

delete_edit_writes :
    (iccid aid m : Option String) (x y : Db) (a : Reply)
    → delete_edit iccid aid m x ≡ ok (a, some y)
    → a.0 ≡ true
unfolding delete_edit
delete_edit_writes iccid aid m x y a h = ground arith

add_edit_writes : (p : Profile) (x y : Db) (a : Bool) → add_edit p x ≡ ok (a, some y) → a ≡ true
unfolding add_edit
add_edit_writes p x y a h = ground arith

pub replied-state : (o : Result Reply × Disk) → (replied o).1 ≡ o.1
unfolding replied
replied-state (ok r, d) = refl
replied-state (err e, d) = refl

pub returned-state : (o : Result (Unit {0}) × Disk) → (returned o).1 ≡ o.1
unfolding returned
returned-state (ok r, d) = refl
returned-state (err e, d) = refl

module _ (io : Io) (d : Disk) (clean : d.temp ≡ absent) where
  replied_failure :
      (edit : Db → Result (Reply × Option Db))
      → ((x y : Db) (a : Reply) → edit x ≡ ok (a, some y) → a.0 ≡ true)
      → (replied (transact io edit d)).0 ≢ ok true
      → (replied (transact io edit d)).1 ≡ d
  unfolding replied
  replied_failure edit writes h = elim (transact_cases io edit d clean) [
    | inl same ↦ replied-state (transact io edit d) ∙ same
    | inr (a, x, y, p, q, w) ↦ absurd (h (rw w (ap ok (writes x y a q))))
  ]

  add_failure :
      (p : Profile) → (transact io (add_edit p) d).0 ≢ ok true → (transact io (add_edit p) d).1 ≡ d
  add_failure p h = elim (transact_cases io (add_edit p) d clean) [
    | inl same ↦ same
    | inr (a, x, y, r, q, w) ↦ absurd (h (rw w (ap ok (add_edit_writes p x y a q))))
  ]

  set_eid_failure :
      (e : String)
      → (returned (transact io (set_eid_edit e) d)).0 ≢ ok true
      → (returned (transact io (set_eid_edit e) d)).1 ≡ d
  unfolding returned
  set_eid_failure e h = elim (transact_cases io (set_eid_edit e) d clean) [
    | inl same ↦ returned-state (transact io (set_eid_edit e) d) ∙ same
    | inr (a, x, y, p, q, w) ↦ absurd (h (rw w refl))
  ]

  ensure_failure :
      (returned (ensure_db_exists io d)).0 ≢ ok true → (returned (ensure_db_exists io d)).1 ≡ d
  unfolding returned ensure_db_exists write_atomic
  ensure_failure h = ground arith

-- A call that does not succeed, since it raised or returned `False`, leaves every file as it was,
-- whatever fault the operating system has, if no temporary file stood there before.
pub failed_call_changes_nothing :
    (io : Io) (c : Call) (d : Disk)
    → d.temp ≡ absent
    → (call io c d).0 ≢ ok true
    → (call io c d).1 ≡ d
unfolding call enable_profile disable_profile delete_profile add_profile set_eid
failed_call_changes_nothing io (enable iccid aid) d clean h =
    replied_failure io d clean (enable_edit iccid aid) (enable_edit_writes iccid aid) h
failed_call_changes_nothing io (disable iccid aid) d clean h =
    replied_failure io d clean (disable_edit iccid aid) (disable_edit_writes iccid aid) h
failed_call_changes_nothing io (delete iccid aid m) d clean h =
    replied_failure io d clean (delete_edit iccid aid m) (delete_edit_writes iccid aid m) h
failed_call_changes_nothing io (add p) d clean h = add_failure io d clean p h
failed_call_changes_nothing io (eid e) d clean h = set_eid_failure io d clean e h
failed_call_changes_nothing io ensure d clean h = ensure_failure io d clean h
