-- ===== src/Smdp/Store.antt =====
-- `RspSessionStore` of pysim/pySim/esim/rsp.py: a shelf in a file or in memory, whose values are
-- pickled. A closed shelf raises; `close` of a store in memory leaves `None`.
pub mod Pickling
pub mod Refinement
mod Examples
use virtual_rsp.Common.{
  ℕ, List, [], ◌∷◌, Bool, true, false, Option, none, some, String, Result, ok, err, ◌>>=◌, required,
  value_error, key_error, attribute_error, exception, length, if◌then◌else◌,
}
use virtual_rsp.Common.Dict.{Dict, find, put, remove}
use virtual_rsp.Common.Exec.{Exec, lift}
use virtual_rsp.Bsp.Padding.{Bytes}
use virtual_rsp.Certs.{Cert}
use virtual_rsp.Smdp.Session.{Session, Pickled, getstate, setstate}

pub data Shelf : Type 0 where
  open_shelf closed_shelf no_shelf : Shelf

-- `entries` is what the database file holds, or the dictionary in memory
pub record RspSessionStore : Type 0 where
  pub in_memory : Bool
  pub shelf : Shelf
  pub entries : Dict Pickled

-- The constructor, with what `shelve.open` gives.
unfoldable pub new_store :
    (String → Result (Dict Pickled)) → Option String → Bool → Result RspSessionStore
new_store open_file filename true =
    ok (record { in_memory = true; shelf = open_shelf; entries = [] })
new_store open_file none false =
    err (value_error "filename is required for file-based session store")
new_store open_file (some filename) false = do
  entries ← open_file filename
  ok (record { in_memory = false; shelf = open_shelf; entries = entries })

-- the entries of an open shelf
unfoldable pub opened : RspSessionStore → Result (Dict Pickled)
opened s = elim s.shelf [
  | open_shelf ↦ ok s.entries
  | closed_shelf ↦ err (value_error "invalid operation on closed shelf")
  | no_shelf ↦ err (exception "TypeError")
]

abbrev pub set_entries : Dict Pickled → RspSessionStore → RspSessionStore
set_entries d s = record s { entries = d }

-- a change of the entries, which an exception leaves as they were
unfoldable pub changed : (Dict Pickled → Result (Dict Pickled)) → Exec RspSessionStore (Unit {0})
unfolding opened
changed f s = elim (opened s >>= f) [ ok d ↦ (ok tt, set_entries d s) | err e ↦ (err e, s) ]

-- `__setitem__`
unfoldable pub set_item : String → Session → Exec RspSessionStore (Unit {0})
unfolding changed
set_item key ss = changed (λ d. ok (put key (getstate ss) d))

-- `__delitem__`
unfoldable pub deleted : String → Dict Pickled → Result (Dict Pickled)
deleted key d = do _ ← required (key_error key) (find key d); ok (remove key d)

unfoldable pub del_item : String → Exec RspSessionStore (Unit {0})
unfolding changed deleted
del_item key = changed (deleted key)

unfoldable pub has_key : String → Dict Pickled → Bool
has_key key d = elim (find key d) [ none ↦ false | some _ ↦ true ]

-- `__contains__`
unfoldable pub contains : String → RspSessionStore → Result Bool
unfolding opened has_key
contains key s = do d ← opened s; ok (has_key key d)

-- `__len__`
unfoldable pub len : RspSessionStore → Result ℕ
unfolding opened
len s = do d ← opened s; ok (length d)

unfoldable pub keys_of : Dict Pickled → List String
keys_of [] = []
keys_of ((k, _) ∷ d) = k ∷ keys_of d

-- `__iter__`
unfoldable pub keys : RspSessionStore → Result (List String)
unfolding opened keys_of
keys s = do d ← opened s; ok (keys_of d)

-- `close`
unfoldable pub close : RspSessionStore → RspSessionStore
close s = record s { shelf = if s.in_memory then no_shelf else closed_shelf }

-- `sync`: nothing is cached, so nothing is written
unfoldable pub sync : RspSessionStore → RspSessionStore
sync s = s

module _ (load_der : Bytes → Result Cert) where
  -- `__getitem__`
  unfoldable pub get_item : String → RspSessionStore → Result Session
  unfolding opened
  get_item key s = do
    d ← opened s
    pickled ← required (key_error key) (find key d)
    setstate load_der pickled

  unfoldable pub found : String → Dict Pickled → Result (Option Session)
  found key d = elim (find key d) [
    | none ↦ ok none
    | some pickled ↦ do ss ← setstate load_der pickled; ok (some ss)
  ]

  -- `get(key, None)`, which `__getattr__` finds in the shelf; `None` has no such attribute
  unfoldable pub get : String → RspSessionStore → Result (Option Session)
  unfolding opened found
  get key s = elim s.shelf [
    | open_shelf ↦ found key s.entries
    | closed_shelf ↦ err (value_error "invalid operation on closed shelf")
    | no_shelf ↦ err attribute_error
  ]
