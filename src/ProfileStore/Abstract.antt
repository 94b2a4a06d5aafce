-- ===== src/ProfileStore/Abstract.antt =====
-- What gui/services/profile_store.py promises: a list of installed profiles, oldest first, with no
-- file, no index and no missing key. A call is answered and takes effect, or fails and changes
-- nothing.
use virtual_rsp.Common.{
  String, Bool, true, false, not, ◌&&◌, Option, none, some, List, [], ◌∷◌, ◌++◌, map, Result, ok,
  err, os_error, truthy, ◌==◌, ◌≡◌, if◌then◌else◌,
}
use virtual_rsp.ProfileStore.Defs.{Profile, disabled, enabled, Io}
use virtual_rsp.ProfileStore.Methods.{Reply}

-- How a call names a profile; the empty text names none.
pub data Named : Type 0 where
  iccid matching_id : String → Named

abbrev pub names : Named → Profile → Bool
names (iccid i) p = truthy i && (p.iccid == i)
names (matching_id m) p = truthy m && (p.matching_id == m)

abbrev pub pick : (Profile → Bool) → List Profile → Option Profile
pick test [] = none
pick test (p ∷ ps) = let rest = pick test ps in if test p then some p else rest

abbrev pub keep : (Profile → Bool) → List Profile → List Profile
keep test [] = []
keep test (p ∷ ps) = let rest = keep test ps in if test p then p ∷ rest else rest

abbrev pub in_state : String → Profile → Profile
in_state s p = record p { state = s }

-- the profile that is named is enabled, and another enabled one is not any more
abbrev pub switched : (Profile → Bool) → Profile → Profile
switched test p =
    if test p then in_state enabled p else (if p.state == enabled then in_state disabled p else p)

abbrev pub switched_off : (Profile → Bool) → Profile → Profile
switched_off test p = if test p then in_state disabled p else p

-- The calls; only enabling and disabling are by ICCID alone.
pub data Command : Type 0 where
  enable disable : String → Command
  delete : Named → Command
  add : Profile → Command

abbrev pub disable_picked : (Profile → Bool) → List Profile → Option Profile → Reply × List Profile
disable_picked test a none = ((false, "Profile not found"), a)
disable_picked test a (some p) =
    if p.state == enabled
    then ((true, "Profile disabled"), map (switched_off test) a)
    else ((false, "Profile already disabled"), a)

abbrev pub delete_picked : (Profile → Bool) → List Profile → Option Profile → Reply × List Profile
delete_picked test a none = ((false, "Profile not found"), a)
delete_picked test a (some p) =
    if p.state == enabled
    then ((false, "Cannot delete enabled profile (disable it first)"), a)
    else ((true, "Profile deleted"), keep (λ q. not (test q)) a)

abbrev pub enable_picked : (Profile → Bool) → List Profile → Option Profile → Reply × List Profile
enable_picked test a none = ((false, "Profile not found"), a)
enable_picked test a (some p) = ((true, "Profile enabled"), map (switched test) a)

abbrev pub add_unless : Profile → List Profile → Option Profile → Reply × List Profile
add_unless p a none = ((true, ""), a ++ p ∷ [])
add_unless p a (some _) = ((false, ""), a)

-- The answer to a command and the profiles after it.
abbrev pub promised : Command → List Profile → Reply × List Profile
promised (enable i) a = enable_picked (names (iccid i)) a (pick (names (iccid i)) a)
promised (disable i) a = disable_picked (names (iccid i)) a (pick (names (iccid i)) a)
promised (delete n) a = delete_picked (names n) a (pick (names n) a)
promised (add p) a = add_unless p a (pick (names (matching_id p.matching_id)) a)

-- One call: it is answered, or it fails as a whole.
pub data Promise (c : Command) (a : List Profile) : Result Reply → List Profile → Type 0 where
  kept : Promise c a (ok (promised c a).0) (promised c a).1
  failed : Promise c a (err os_error) a

-- What a sequence of calls answers, from some profiles to others.
pub data Trace (a : List Profile) : List (Command × Result Reply) → List Profile → Type 0 where
  start : Trace a [] a
  step :
      {log : List (Command × Result Reply)} {b b' : List Profile} (c : Command) (r : Result Reply)
      → Trace a log b
      → Promise c b r b'
      → Trace a (log ++ (c, r) ∷ []) b'

-- No two profiles share an ICCID or a matching ID, empty ones aside.
abbrev pub IsDistinct : List Profile → Type 0
IsDistinct [] = Unit
IsDistinct (p ∷ ps) =
    (pick (names (iccid p.iccid)) ps ≡ none)
    × (pick (names (matching_id p.matching_id)) ps ≡ none)
    × IsDistinct ps

-- An added profile has an ICCID that is new.
abbrev pub Allows : Command → List Profile → Type 0
Allows (add p) a = pick (names (iccid p.iccid)) a ≡ none
Allows _ a = Unit

-- ... whether the calls before it have failed or not
abbrev pub AllowsAll : List (Io × Command) → List Profile → Type 0
AllowsAll [] a = Unit
AllowsAll ((io, c) ∷ cs) a = Allows c a × AllowsAll cs a × AllowsAll cs (promised c a).1
