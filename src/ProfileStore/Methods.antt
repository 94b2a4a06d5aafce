-- ===== src/ProfileStore/Methods.antt =====
-- The methods of `class ProfileStore` in gui/services/profile_store.py. A method that changes the
-- store reads the file, edits the object in memory, and writes the file back if it has edited it.
use virtual_rsp.Common.{
  ℕ, zero, suc, ◌+◌, String, Bool, true, false, not, ◌&&◌, ◌||◌, Option, none, some, List, [], ◌∷◌,
  ◌++◌, Result, ok, err, key_error, ◌>>=◌, required, get_or, get_elem?, truthy, truthy?, same?,
  nat_beq, ◌==◌, if◌then◌else◌, index_error,
}
use virtual_rsp.ProfileStore.Defs.{
  Profile, Entry, Db, DbFile, missing, Disk, Io, disabled, enabled, to_dict, from_dict, read_db,
  write_atomic,
}

abbrev pub default_eid : String
default_eid = "89049032001001234500012345678901"

-- `(success, message)`
abbrev pub Reply : Type 0
Reply = Bool × String

finish {ℓ} : {A : Type ℓ} → A → Result (Unit {0}) × Disk → Result A × Disk
finish a (ok _, d) = (ok a, d)
finish a (err e, d) = (err e, d)

unfoldable pub settle {ℓ} : {A : Type ℓ} → Io → Disk → Result (A × Option Db) → Result A × Disk
unfolding finish
settle io d (err e) = (err e, d)
settle io d (ok (a, none)) = (ok a, d)
settle io d (ok (a, some db)) = finish a (write_atomic io db d)

-- Read, edit in memory, and write back what the edit returns, if it returns an object to write.
unfoldable pub transact {ℓ} :
    {A : Type ℓ} → Io → (Db → Result (A × Option Db)) → Disk → Result A × Disk
unfolding settle
transact io edit d = settle io d (read_db d >>= edit)

-- `given and d[key] == given`, where `given` may be `None`
unfoldable pub field_is : String → Option String → Option String → Result Bool
field_is key none v = ok false
field_is key (some s) v =
    if truthy s then (do x ← required (key_error key) v; ok (x == s)) else ok false

-- `(iccid and p['iccid'] == iccid) or (isdp_aid and p['isdp_aid'] == isdp_aid)`
unfoldable pub matches : Option String → Option String → Entry → Result Bool
unfolding field_is
matches iccid isdp_aid p = do
  by_iccid ← field_is "iccid" iccid p.iccid
  if by_iccid then ok true else field_is "isdp_aid" isdp_aid p.isdp_aid

-- The search for `target_idx`, which stops at the first hit.
unfoldable pub find_target : (Entry → Result Bool) → ℕ → List Entry → Result (Option ℕ)
find_target hit i [] = ok none
find_target hit i (p ∷ ps) =
    let rest = find_target hit (i + 1) ps in do found ← hit p; if found then ok (some i) else rest

-- `profiles[i]['state'] = v`
unfoldable pub set_state : ℕ → String → List Entry → List Entry
set_state i v [] = []
set_state zero v (p ∷ ps) = record p { state = some v } ∷ ps
set_state (suc i) v (p ∷ ps) = p ∷ set_state i v ps

-- `profiles[i]['state']`
unfoldable pub state_at : ℕ → List Entry → Result String
state_at i ps = do p ← required index_error (get_elem? ps i); required (key_error "state") p.state

-- `if p['state'] == ENABLED: p['state'] = DISABLED`
unfoldable pub disable_entry : Entry → Result Entry
disable_entry p = do
  s ← required (key_error "state") p.state
  if s == enabled then ok (record p { state = some disabled }) else ok p

-- One round of the loop that disables all profiles but the target.
unfoldable pub disable_other : ℕ → ℕ → Entry → Result Entry
disable_other target i p = if nat_beq i target then ok p else disable_entry p

unfoldable pub disable_others : ℕ → ℕ → List Entry → Result (List Entry)
disable_others target i [] = ok []
disable_others target i (p ∷ ps) =
    let rest = disable_others target (i + 1) ps in
    do q ← disable_other target i p; qs ← rest; ok (q ∷ qs)

-- `profiles.pop(i)`
unfoldable pub remove_at : ℕ → List Entry → List Entry
remove_at i [] = []
remove_at zero (p ∷ ps) = ps
remove_at (suc i) (p ∷ ps) = p ∷ remove_at i ps

unfoldable pub profiles_of : Db → Result (List Entry)
profiles_of db = required (key_error "profiles") db.profiles

unfoldable pub enable_found : Db → List Entry → Option ℕ → Result (Reply × Option Db)
enable_found db ps none = ok ((false, "Profile not found"), none)
enable_found db ps (some i) = do
  others ← disable_others i 0 ps
  ok ((true, "Profile enabled"), some (record db { profiles = some (set_state i enabled others) }))

unfoldable pub enable_edit : Option String → Option String → Db → Result (Reply × Option Db)
unfolding enable_found
enable_edit iccid isdp_aid db = do
  ps ← profiles_of db
  target ← find_target (matches iccid isdp_aid) 0 ps
  enable_found db ps target

unfoldable pub enable_profile : Io → Option String → Option String → Disk → Result Reply × Disk
enable_profile io iccid isdp_aid = transact io (enable_edit iccid isdp_aid)

unfoldable pub disable_found : Db → List Entry → Option ℕ → Result (Reply × Option Db)
disable_found db ps none = ok ((false, "Profile not found"), none)
disable_found db ps (some i) = do
  s ← state_at i ps
  if s == enabled
      then ok (
        (true, "Profile disabled"),
        some (record db { profiles = some (set_state i disabled ps) }),
      )
      else ok ((false, "Profile already disabled"), none)

unfoldable pub disable_edit : Option String → Option String → Db → Result (Reply × Option Db)
unfolding disable_found
disable_edit iccid isdp_aid db = do
  ps ← profiles_of db
  target ← find_target (matches iccid isdp_aid) 0 ps
  disable_found db ps target

unfoldable pub disable_profile : Io → Option String → Option String → Disk → Result Reply × Disk
disable_profile io iccid isdp_aid = transact io (disable_edit iccid isdp_aid)

-- The test of `delete_profile`: by matching ID first, by ICCID only without a matching ID.
unfoldable pub delete_matches : Option String → Option String → Option String → Entry → Result Bool
unfolding field_is
delete_matches iccid isdp_aid matching_id p =
    if truthy? matching_id && same? p.matching_id matching_id then ok true else do
      by_iccid ← field_is "iccid" iccid p.iccid
      if by_iccid && not (truthy? matching_id)
          then ok true
          else field_is "isdp_aid" isdp_aid p.isdp_aid

unfoldable pub delete_found : Db → List Entry → Option ℕ → Result (Reply × Option Db)
delete_found db ps none = ok ((false, "Profile not found"), none)
delete_found db ps (some i) = do
  s ← state_at i ps
  if s == enabled
      then ok ((false, "Cannot delete enabled profile (disable it first)"), none)
      else ok ((true, "Profile deleted"), some (record db { profiles = some (remove_at i ps) }))

unfoldable pub delete_edit :
    Option String → Option String → Option String → Db → Result (Reply × Option Db)
unfolding delete_found
delete_edit iccid isdp_aid matching_id db = do
  ps ← profiles_of db
  target ← find_target (delete_matches iccid isdp_aid matching_id) 0 ps
  delete_found db ps target

unfoldable pub delete_profile :
    Io → Option String → Option String → Option String → Disk → Result Reply × Disk
delete_profile io iccid isdp_aid matching_id = transact io (delete_edit iccid isdp_aid matching_id)

-- The duplicate test of `add_profile`.
unfoldable pub has_matching_id : String → List Entry → Bool
has_matching_id m [] = false
has_matching_id m (p ∷ ps) = (same? p.matching_id (some m) && truthy m) || has_matching_id m ps

unfoldable pub add_edit : Profile → Db → Result (Bool × Option Db)
add_edit p db = do
  ps ← profiles_of db
  if has_matching_id p.matching_id ps
      then ok (false, none)
      else ok (true, some (record db { profiles = some (ps ++ to_dict p ∷ []) }))

unfoldable pub add_profile : Io → Profile → Disk → Result Bool × Disk
add_profile io p = transact io (add_edit p)

unfoldable pub set_eid_edit : String → Db → Result (Unit {0} × Option Db)
set_eid_edit eid db = ok (tt, some (record db { eid = some eid }))

unfoldable pub set_eid : Io → String → Disk → Result (Unit {0}) × Disk
set_eid io eid = transact io (set_eid_edit eid)

pub get_eid : Disk → Result String
get_eid d = do db ← read_db d; ok (get_or db.eid default_eid)

unfoldable pub initial_data : Io → Db
initial_data io = record { eid = some default_eid; profiles = some []; last_modified = some io.now }

unfoldable pub create_if_missing : Io → DbFile → Disk → Result (Unit {0}) × Disk
unfolding initial_data
create_if_missing io missing d = write_atomic io (initial_data io) d
create_if_missing io _ d = (ok tt, d)

-- `_ensure_db_exists`
unfoldable pub ensure_db_exists : Io → Disk → Result (Unit {0}) × Disk
unfolding create_if_missing
ensure_db_exists io d = create_if_missing io d.db d

-- `[Profile.from_dict(p) for p in …]`
unfoldable pub from_dicts : String → List Entry → Result (List Profile)
from_dicts now [] = ok []
from_dicts now (e ∷ es) =
    let rest = from_dicts now es in do p ← from_dict now e; ps ← rest; ok (p ∷ ps)

unfoldable pub list_profiles : String → Disk → Result (List Profile)
list_profiles now d = do db ← read_db d; from_dicts now (get_or db.profiles [])

-- The two tests of the loop of `get_profile`.
unfoldable pub profile_matches : Option String → Option String → Option String → Profile → Bool
profile_matches iccid isdp_aid matching_id p =
    (truthy? matching_id && same? (some p.matching_id) matching_id)
    || (truthy? iccid && same? (some p.iccid) iccid && not (truthy? matching_id))
    || (truthy? isdp_aid && same? (some p.isdp_aid) isdp_aid)

unfoldable pub first_profile : (Profile → Bool) → List Profile → Option Profile
first_profile test [] = none
first_profile test (p ∷ ps) = if test p then some p else first_profile test ps

unfoldable pub get_profile :
    String → Option String → Option String → Option String → Disk → Result (Option Profile)
get_profile now iccid isdp_aid matching_id d = do
  ps ← list_profiles now d
  ok (first_profile (profile_matches iccid isdp_aid matching_id) ps)

unfoldable pub get_enabled_profile : String → Disk → Result (Option Profile)
get_enabled_profile now d = do
  ps ← list_profiles now d
  ok (first_profile (λ p. p.state == enabled) ps)
