-- ===== src/ProfileStore/Refinement/Examples.antt =====
-- A store with two profiles, three calls of it, and their trace.
use virtual_rsp.Common.{refl, String, some, List, [], ◌∷◌}
use virtual_rsp.ProfileStore.Defs.{
  Profile, Db, json, absent, Disk, Io, no_fault, rename_fails, to_dict,
}
use virtual_rsp.ProfileStore.Abstract.{Command, enable, delete, add, iccid, Trace, AllowsAll}
use virtual_rsp.ProfileStore.Refinement.Represents.{Represents}
use virtual_rsp.ProfileStore.Refinement.Calls.{run_commands, run_commands-Trace}

abbrev sim : String → String → String → Profile
sim i m s = record {
  iccid = i;
  isdp_aid = "A0";
  state = s;
  profile_name = "Test";
  service_provider = "Osmocom";
  matching_id = m;
  installed_at = "2025-01-01T00:00:00Z";
}

abbrev installed : List Profile
installed = sim "891" "A" "enabled" ∷ sim "892" "B" "disabled" ∷ []

abbrev db : Db
db = record {
  eid = some "8904";
  profiles = some (to_dict (sim "891" "A" "enabled") ∷ to_dict (sim "892" "B" "disabled") ∷ []);
  last_modified = some "2025-01-01T00:00:00Z";
}

abbrev disk : Disk
disk = record { db = json db; temp = absent }

disk-Represents : Represents installed disk
disk-Represents = record {
  db = db;
  clean = refl;
  stored = refl;
  listed = refl;
  distinct = (refl, refl, (refl, refl, tt));
}

-- the second call fails to rename the file
abbrev calls : List (Io × Command)
calls =
    (record { now = "t1"; fault = no_fault }, enable "892")
    ∷ (record { now = "t2"; fault = rename_fails }, add (sim "893" "C" "disabled"))
    ∷ (record { now = "t3"; fault = no_fault }, delete (iccid "891"))
    ∷ []

calls-AllowsAll : AllowsAll calls installed
calls-AllowsAll = (tt, (refl, (tt, tt, tt), (tt, tt, tt)), (refl, (tt, tt, tt), (tt, tt, tt)))

run_commands-Trace_example :
    (b : List Profile) × Trace installed (run_commands calls disk).0 b
    × Represents b (run_commands calls disk).1
run_commands-Trace_example = run_commands-Trace calls installed disk disk-Represents calls-AllowsAll
