-- ===== src/ProfileStore/Defs.antt =====
-- The data of gui/services/profile_store.py, the database file and its atomic replacement.
use virtual_rsp.Common.{
  String, Option, some, List, Result, ok, err, key_error, value_error, os_error, ◌>>=◌, required,
  get_or, truthy?, if◌then◌else◌,
}

-- `ProfileState`
abbrev pub disabled : String
disabled = "disabled"

abbrev pub enabled : String
enabled = "enabled"

pub record Profile : Type 0 where
  pub iccid : String
  pub isdp_aid : String
  pub state : String
  pub profile_name : String
  pub service_provider : String
  pub matching_id : String
  pub installed_at : String

-- The JSON object of one profile; a key that is not in it is `none`.
pub record Entry : Type 0 where
  pub iccid : Option String
  pub isdp_aid : Option String
  pub state : Option String
  pub profile_name : Option String
  pub service_provider : Option String
  pub matching_id : Option String
  pub installed_at : Option String

-- The JSON object of the database file.
pub record Db : Type 0 where
  pub eid : Option String
  pub profiles : Option (List Entry)
  pub last_modified : Option String

-- `Profile.to_dict`
unfoldable pub to_dict : Profile → Entry
to_dict p = record {
  iccid = some p.iccid;
  isdp_aid = some p.isdp_aid;
  state = some p.state;
  profile_name = some p.profile_name;
  service_provider = some p.service_provider;
  matching_id = some p.matching_id;
  installed_at = some p.installed_at;
}

-- `installed_at or datetime.utcnow()…` of `Profile.__init__`
installed : String → Option String → String
installed now t = if truthy? t then get_or t now else now

unfoldable pub built : String → Entry → String → String → Profile
unfolding installed
built now e iccid isdp_aid = record {
  iccid = iccid;
  isdp_aid = isdp_aid;
  state = get_or e.state disabled;
  profile_name = get_or e.profile_name "";
  service_provider = get_or e.service_provider "";
  matching_id = get_or e.matching_id "";
  installed_at = installed now e.installed_at;
}

-- `Profile.from_dict`, at the time `now`
unfoldable pub from_dict : String → Entry → Result Profile
from_dict now e = do
  iccid ← required (key_error "iccid") e.iccid
  isdp_aid ← required (key_error "isdp_aid") e.isdp_aid
  ok (built now e iccid isdp_aid)

-- What stands at `db_path`, and what stands at the path of the temporary file.
pub data DbFile : Type 0 where
  missing garbage : DbFile
  json : Db → DbFile

pub data TempFile : Type 0 where
  absent partial : TempFile
  whole : Db → TempFile

pub record Disk : Type 0 where
  pub db : DbFile
  pub temp : TempFile

-- Where the operating system fails a write: in `mkstemp`, while the text is written, in `rename`.
pub data Fault : Type 0 where
  mkstemp_fails dump_fails rename_fails no_fault : Fault

-- The environment of one call: the clock, and whether a file operation fails.
pub record Io : Type 0 where
  pub now : String
  pub fault : Fault

unfoldable pub parsed : DbFile → Result Db
parsed missing = err os_error
parsed garbage = err (value_error "JSONDecodeError")
parsed (json db) = ok db

-- `ProfileStore._read_db`
unfoldable pub read_db : Disk → Result Db
unfolding parsed
read_db d = parsed d.db

-- The `except` of `_write_atomic`: remove the temporary file, which is taken to succeed, and raise
-- again.
cleanup : Disk → Result (Unit {0}) × Disk
cleanup d = (err os_error, record d { temp = absent })

-- `os.rename(temp_path, self.db_path)`
rename : TempFile → Disk → Disk
rename (whole db) d = record d { db = json db; temp = absent }
rename _ d = d

stamp : String → Db → Db
stamp now db = record db { last_modified = some now }

-- The file operations, one after the other.
write_steps : Fault → Db → Disk → Result (Unit {0}) × Disk
unfolding cleanup rename
write_steps mkstemp_fails db d = (err os_error, d)
write_steps dump_fails db d = cleanup (record d { temp = partial })
write_steps rename_fails db d = cleanup (record d { temp = whole db })
write_steps no_fault db d = (ok tt, rename (whole db) (record d { temp = whole db }))

-- `ProfileStore._write_atomic`
unfoldable pub write_atomic : Io → Db → Disk → Result (Unit {0}) × Disk
unfolding write_steps stamp
write_atomic io db d = write_steps io.fault (stamp io.now db) d
