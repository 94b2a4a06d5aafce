-- ===== src/ProcessManager/Examples.antt =====
-- Runs of `ProcessManager` (gui/services/process_manager.py) on an operating system where every
-- command succeeds, each process has the number 7, and all end when the clock is at five seconds.
use virtual_rsp.Common.{str, ◌≡◌, refl, true, List, [], ◌∷◌, some, ok, leb}
use virtual_rsp.Common.Dict.{find}
use virtual_rsp.ProcessManager.System.{
  Manager, Os, is_running, run_command, popen, sleep, poll_ended,
}
use virtual_rsp.ProcessManager.Starting.{
  veuicc, start, launch, launch_steps, confirm, free_port, start_veuicc,
}
use virtual_rsp.ProcessManager.Changes.{free_port-IsQuiet}
use virtual_rsp.ProcessManager.Starts.{Outcome, start-Outcome}
use virtual_rsp.ProcessManager.Refinement.{
  Call, start_veuicc_on, stop_all_now, run, Changes, run-Changes,
}
use virtual_rsp.ProcessManager.Ending.{IsStopped, stop-IsStopped}
use virtual_rsp.ProcessManager.StopAll.{IsAllClosed, stop_all-IsAllClosed}

abbrev tame : Os
tame = record {
  ended = λ s pid. leb 50 s.time;
  exists = λ s path. true;
  run = λ s args. ok 0;
  open_log = λ s path. ok tt;
  spawn = λ s args. ok 7;
  deliver = λ s pid sig. ok tt;
  message = λ e. "error";
}

abbrev idle : Manager
idle = record { processes = []; log_files = []; time = 0; events = [] }

abbrev busy : Manager
busy = record {
  processes = ("veuicc", 7) ∷ [];
  log_files = ("veuicc", "/p/data/veuicc.log") ∷ [];
  time = 20;
  events = [];
}

started : (start_veuicc tame "/p" 8765 idle).0 ≡ ok (true, "v-euicc started on port 8765")
unfolding start_veuicc start launch launch_steps confirm is_running run_command popen sleep
    poll_ended find str
started = refl

start-Outcome_example :
    Outcome tame
      (veuicc "/p" 8765)
      (free_port tame 8765)
      idle
      (start tame (veuicc "/p" 8765) (free_port tame 8765) idle).1
      (start tame (veuicc "/p" 8765) (free_port tame 8765) idle).0
start-Outcome_example =
    start-Outcome tame (veuicc "/p" 8765) (free_port tame 8765) idle (free_port-IsQuiet tame 8765)

abbrev calls : List Call
calls = start_veuicc_on 8765 ∷ stop_all_now ∷ []

run-Changes_example : Changes tame "/p" idle (run tame "/p" calls idle)
run-Changes_example = run-Changes tame "/p" calls idle

busy_found : find "veuicc" busy.processes ≡ some 7
unfolding find
busy_found = refl

stop-IsStopped_example : (s' : Manager) × IsStopped tame "veuicc" "v-euicc" 7 busy s'
stop-IsStopped_example =
    stop-IsStopped tame "veuicc" "v-euicc" 7 busy (λ s pid sig. refl) refl busy_found refl

stop_all-IsAllClosed_example : (s' : Manager) × IsAllClosed tame busy s'
stop_all-IsAllClosed_example =
    stop_all-IsAllClosed tame busy (λ s pid sig. refl) (λ s args. (0, refl))
