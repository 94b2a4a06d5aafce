-- ===== src/ProcessManager/System.antt =====
-- The state of `ProcessManager` (gui/services/process_manager.py) with the clock and what was asked
-- of the operating system, and the operating system as a parameter.
use virtual_rsp.Common.{
  ℕ, ◌+◌, String, Bool, List, [], ◌∷◌, ◌++◌, Option, none, some, Result, Error, nat_beq, ◌==◌, not,
  false, if◌then◌else◌,
}
use virtual_rsp.Common.Dict.{Dict, find}
use virtual_rsp.Common.Exec.{Exec, pure, gets, modify, ◌>>=◌}

pub data Signal : Type 0 where
  sigterm sigkill : Signal

pub data Event : Type 0 where
  ran : List String → Event
  spawned : List String → Event
  signalled : ℕ → Signal → Event

-- `processes` with the number of each process, `log_files`, the time in tenths of a second, and
-- what was asked of the operating system, the first first.
pub record Manager : Type 0 where
  pub processes : Dict ℕ
  pub log_files : Dict String
  pub time : ℕ
  pub events : List Event

-- What the operating system answers, given all that was asked of it: whether `poll` finds an exit
-- code, the return code of a command, the process that was started.
pub record Os : Type 0 where
  pub ended : Manager → ℕ → Bool
  pub exists : Manager → String → Bool
  pub run : Manager → List String → Result ℕ
  pub open_log : Manager → String → Result (Unit {0})
  pub spawn : Manager → List String → Result ℕ
  pub deliver : Manager → ℕ → Signal → Result (Unit {0})
  pub message : Error → String

abbrev record_event : Event → Manager → Manager
record_event e s = record s { events = s.events ++ e ∷ [] }

unfoldable pub sleep : ℕ → Exec Manager (Unit {0})
sleep n = modify (λ s. record s { time = s.time + n })

module _ (os : Os) where
  -- `subprocess.run`
  unfoldable pub run_command : List String → Exec Manager ℕ
  run_command args s = (os.run s args, record_event (ran args) s)

  -- `subprocess.Popen`
  unfoldable pub popen : List String → Exec Manager ℕ
  popen args s = (os.spawn s args, record_event (spawned args) s)

  -- `proc.terminate()` and `proc.kill()`
  unfoldable pub send_signal : ℕ → Signal → Exec Manager (Unit {0})
  send_signal pid sig s = (os.deliver s pid sig, record_event (signalled pid sig) s)

  -- `proc.poll() is not None`
  unfoldable pub poll_ended : ℕ → Exec Manager Bool
  poll_ended pid = gets (λ s. os.ended s pid)

  -- whether a service other than nginx has a process that runs
  abbrev pub running_now : String → Manager → Bool
  running_now service s = elim (find service s.processes) [
    | none ↦ false
    | some pid ↦ not (os.ended s pid)
  ]

  -- `is_running`
  unfoldable pub is_running : String → Exec Manager Bool
  unfolding run_command
  is_running service =
      if service == "nginx"
      then (do
        code ← run_command ("pgrep" ∷ "-f" ∷ "nginx.*nginx-smdpp.conf" ∷ [])
        pure (nat_beq code 0))
      else gets (running_now service)

  -- `get_log_file`
  pub get_log_file : String → Exec Manager (Option String)
  get_log_file service = gets (λ s. find service s.log_files)
