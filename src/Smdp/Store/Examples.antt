-- ===== src/Smdp/Store/Examples.antt =====
-- A store of pysim/pySim/esim/rsp.py in a file with two sessions.
use virtual_rsp.Common.{[], ◌∷◌, List, false, some, ok, ◌≡◌, refl, arith}
use virtual_rsp.Certs.{Cert}
use virtual_rsp.Smdp.Session.{new_session, IsLoadable, IsKey}
use virtual_rsp.Smdp.Setup.{eum, euicc, loaded, session}
use virtual_rsp.Smdp.Store.{RspSessionStore, open_shelf, new_store}
use virtual_rsp.Smdp.Store.Pickling.{AllLoad}
use virtual_rsp.Smdp.Store.Refinement.{
  Use, store, delete, look_up, get_or_none, is_present, count, reopen, run, on_dict, on_store,
  LoadsUse, LoadUses, Represents, run-Represents,
}

loads : (c : Cert) → loaded c.der ≡ ok c → IsLoadable loaded (some c)
unfolding IsLoadable
loads c h = h

session-AllLoad : AllLoad loaded session
unfolding IsKey
session-AllLoad = record {
  euicc = loads euicc refl;
  eum = loads eum refl;
  key = λ h. omega (arith, h);
}

new-AllLoad : AllLoad loaded (new_session "U" [] [])
unfolding IsKey IsLoadable new_session
new-AllLoad = record { euicc = tt; eum = tt; key = tt }

abbrev uses : List Use
uses =
    store "T" session
    ∷ get_or_none "T"
    ∷ store "U" (new_session "U" [] [])
    ∷ delete "T"
    ∷ look_up "T"
    ∷ reopen
    ∷ is_present "U"
    ∷ count
    ∷ []

uses-LoadUses : LoadUses loaded uses
unfolding LoadsUse
uses-LoadUses = (session-AllLoad, (tt, (new-AllLoad, (tt, (tt, (tt, (tt, (tt, tt))))))))

abbrev empty_file : RspSessionStore
empty_file = record { in_memory = false; shelf = open_shelf; entries = [] }

made : new_store (λ _. ok []) (some "sm-dp-sessions-NIST") false ≡ ok empty_file
unfolding new_store
made = refl

starts : Represents loaded false empty_file []
starts = record { same = refl; loads = tt }

run-Represents_example :
    ((run (on_store loaded) uses empty_file).0 ≡ (run (on_dict false) uses []).0)
    × Represents loaded false
        (run (on_store loaded) uses empty_file).1
        (run (on_dict false) uses []).1
run-Represents_example = run-Represents loaded false uses empty_file [] uses-LoadUses starts
