-- ===== src/ProcessManager/Changes.antt =====
-- What a method of `ProcessManager` (gui/services/process_manager.py) may change: the specification
-- of the manager as a map from services to processes, which forgets how the dictionaries are kept.
use Prim.Native.String.{◌++◌ as concat}
use virtual_rsp.Common.{
  str, ℕ, ◌≡◌, ◌≢◌, inl, inr, refl, ◌∙◌, String, true, false, List, [], ◌∷◌, Option, none, some,
  Result, ok, err, Bool-cases, ◌==◌,
}
use virtual_rsp.Common.Dict.{Dict, find}
use virtual_rsp.Common.Exec.{Exec, continue, ◌>>=◌}
use virtual_rsp.ProcessManager.System.{Manager, Os, sleep, run_command, is_running}
use virtual_rsp.ProcessManager.Starting.{free_port, kill_nginx}

-- The dictionaries differ at this key at most, where the second has this value.
pub record IsOnlyAt {ℓ} {V : Type ℓ} (key : String) (value : Option V) (before after : Dict V)
    : Type ℓ where
  pub at_key : find key after ≡ value
  pub elsewhere : (other : String) → other ≢ key → find other after ≡ find other before

-- No process and no log file is registered or forgotten.
pub record IsStill (s s' : Manager) : Type 0 where
  pub processes_kept : s'.processes ≡ s.processes
  pub logs_kept : s'.log_files ≡ s.log_files

pub IsStill-refl : (s : Manager) → IsStill s s
IsStill-refl s = record { processes_kept = refl; logs_kept = refl }

pub IsStill-trans : (s t u : Manager) → IsStill s t → IsStill t u → IsStill s u
IsStill-trans s t u h k = record {
  processes_kept = k.processes_kept ∙ h.processes_kept;
  logs_kept = k.logs_kept ∙ h.logs_kept;
}

-- A method that never registers or forgets.
abbrev pub IsQuiet : {A : Type 0} → Exec Manager A → Type 0
IsQuiet m = (s : Manager) → IsStill s (m s).1

IsStill-continue :
    {A B : Type 0} (r : Result A) (f : A → Exec Manager B) (s t : Manager)
    → IsStill s t
    → ((a : A) → IsQuiet (f a))
    → IsStill s (continue r f t).1
IsStill-continue (err e) f s t h k = h
IsStill-continue (ok a) f s t h k = IsStill-trans s t (f a t).1 h (k a t)

pub IsQuiet-bind :
    {A B : Type 0} (m : Exec Manager A) (f : A → Exec Manager B)
    → IsQuiet m
    → ((a : A) → IsQuiet (f a))
    → IsQuiet (m >>= f)
IsQuiet-bind m f h k s = IsStill-continue (m s).0 f s (m s).1 (h s) k

module _ (os : Os) where
  -- One step of the specification. A process of a service begins only where the service was found
  -- not to run, and is alive; it is forgotten only where the service was found to run.
  pub data Change (s s' : Manager) : Type 0 where
    still : IsStill s s' → Change s s'
    begun :
        (service log : String) (pid : ℕ) (t : Manager)
        → (is_running os service s).0 ≡ ok false
        → os.ended t pid ≡ false
        → IsOnlyAt service (some pid) s.processes s'.processes
        → IsOnlyAt service (some log) s.log_files s'.log_files
        → Change s s'
    finished :
        (service : String)
        → (is_running os service s).0 ≡ ok true
        → IsOnlyAt service none s.processes s'.processes
        → s'.log_files ≡ s.log_files
        → Change s s'

  pub run_command-IsQuiet : (args : List String) → IsQuiet (run_command os args)
  unfolding run_command
  run_command-IsQuiet args s = record { processes_kept = refl; logs_kept = refl }

  pub sleep-IsQuiet : (n : ℕ) → IsQuiet (sleep n)
  unfolding sleep
  sleep-IsQuiet n s = record { processes_kept = refl; logs_kept = refl }

  pub is_running-IsQuiet : (service : String) → IsQuiet (is_running os service)
  unfolding is_running
  is_running-IsQuiet service s = elim (Bool-cases (service == "nginx")) [
    | inl e ↦ rw e (
        IsQuiet-bind (run_command os ("pgrep" ∷ "-f" ∷ "nginx.*nginx-smdpp.conf" ∷ [])) _
          (run_command-IsQuiet _) (λ code. IsStill-refl) s)
    | inr e ↦ rw e (IsStill-refl s)
  ]

  pub free_port-IsQuiet : (port : ℕ) → IsQuiet (free_port os port)
  unfolding free_port
  free_port-IsQuiet port =
      IsQuiet-bind (run_command os ("lsof" ∷ "-ti" ∷ concat ":" (str port) ∷ [])) _
        (run_command-IsQuiet _)
        (λ _.
          IsQuiet-bind
            (run_command os
              ("sh" ∷ "-c" ∷ "kill" ∷ "-9" ∷ concat "`lsof -ti :" (concat (str port) "`") ∷ []))
            _ (run_command-IsQuiet _) (λ _. sleep-IsQuiet 10))

  pub kill_nginx-IsQuiet : IsQuiet (kill_nginx os)
  unfolding kill_nginx
  kill_nginx-IsQuiet =
      IsQuiet-bind (run_command os ("pkill" ∷ "-9" ∷ "nginx" ∷ [])) _ (run_command-IsQuiet _)
        (λ _. sleep-IsQuiet 10)
