-- ===== src/ProfileStore/Refinement/Calls.antt =====
-- Sequences of calls of gui/services/profile_store.py, each with its own clock and its own file
-- fault, against `Abstract`.
use virtual_rsp.Common.{none, some, List, [], ◌∷◌, Result}
use virtual_rsp.ProfileStore.Defs.{Profile, Disk, Io}
use virtual_rsp.ProfileStore.Methods.{
  Reply, enable_profile, disable_profile, delete_profile, add_profile,
}
use virtual_rsp.ProfileStore.Abstract.{
  iccid, matching_id, Command, enable, disable, delete, add, promised, Promise, kept, failed, Trace,
  start, step, Allows, AllowsAll,
}
use virtual_rsp.ProfileStore.Refinement.Naming.{delete_matches-iccid, delete_matches-matching_id}
use virtual_rsp.ProfileStore.Refinement.Represents.{Represents, Outcome}
use virtual_rsp.ProfileStore.Refinement.Enabling.{enable-Outcome, disable-Outcome}
use virtual_rsp.ProfileStore.Refinement.Deleting.{delete-Outcome}
use virtual_rsp.ProfileStore.Refinement.Adding.{added, add-Outcome}

-- The method that a command calls.
unfoldable pub invoke : Io → Command → Disk → Result Reply × Disk
unfolding added
invoke io (enable i) d = enable_profile io (some i) none d
invoke io (disable i) d = disable_profile io (some i) none d
invoke io (delete (iccid i)) d = delete_profile io (some i) none none d
invoke io (delete (matching_id m)) d = delete_profile io none none (some m) d
invoke io (add p) d = added (add_profile io p d)

module _ (io : Io) (a : List Profile) (d : Disk) (r : Represents a d) where
  -- One call.
  invoke-Outcome : (c : Command) → Allows c a → Outcome c a (invoke io c d)
  unfolding invoke
  invoke-Outcome (enable i) _ = enable-Outcome io a d r i
  invoke-Outcome (disable i) _ = disable-Outcome io a d r i
  invoke-Outcome (delete (iccid i)) _ =
      delete-Outcome io a d r (iccid i) (some i) none (delete_matches-iccid i)
  invoke-Outcome (delete (matching_id m)) _ =
      delete-Outcome io a d r (matching_id m) none (some m) (delete_matches-matching_id m)
  invoke-Outcome (add p) h = add-Outcome io a d r p h

-- What is allowed after a call, and a trace that starts with one.
Promise-AllowsAll :
    (c : Command) (cs : List (Io × Command)) (a b : List Profile) (r : Result Reply)
    → Promise c a r b
    → AllowsAll cs a
    → AllowsAll cs (promised c a).1
    → AllowsAll cs b
Promise-AllowsAll c cs a b r kept h k = k
Promise-AllowsAll c cs a b r failed h k = h

Trace-before :
    (c : Command) {a b b' : List Profile} (r : Result Reply) {log : List (Command × Result Reply)}
    → Promise c a r b
    → Trace b log b'
    → Trace a ((c, r) ∷ log) b'
Trace-before c r p start = step c r start p
Trace-before c r p (step c' r' t q) = step c' r' (Trace-before c r p t) q

-- The answers of a sequence of calls, and the disk after it.
unfoldable pub run_commands : List (Io × Command) → Disk → List (Command × Result Reply) × Disk
unfolding invoke
run_commands [] d = ([], d)
run_commands ((io, c) ∷ cs) d =
    let (r, d') = invoke io c d in let (log, d'') = run_commands cs d' in ((c, r) ∷ log, d'')

-- Through any sequence of calls of a store that represents some distinct profiles, each with its
-- own file fault, every call gives the answer that the list of profiles promises and changes it as
-- promised, or fails and changes nothing; the file represents the list that results. The calls add
-- profiles with new ICCIDs only.
pub run_commands-Trace :
    (cs : List (Io × Command)) (a : List Profile) (d : Disk)
    → Represents a d
    → AllowsAll cs a
    → (b : List Profile) × Trace a (run_commands cs d).0 b × Represents b (run_commands cs d).1
unfolding run_commands
run_commands-Trace [] a d r h = (a, start, r)
run_commands-Trace ((io, c) ∷ cs) a d r (now, failed_too, later) =
    let (b, p, r') = invoke-Outcome io a d r c now in
    let allowed = Promise-AllowsAll c cs a b _ p failed_too later in
    let (b', t, r'') = run_commands-Trace cs b (invoke io c d).1 r' allowed in
    (b', Trace-before c _ p t, r'')
