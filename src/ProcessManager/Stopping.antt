-- ===== src/ProcessManager/Stopping.antt =====
-- How `ProcessManager` of gui/services/process_manager.py stops a process, and all of them.
use Prim.Native.String.{◌++◌ as concat}
use virtual_rsp.Common.{
  ℕ, zero, suc, String, true, false, not, [], ◌∷◌, key_error, required, if◌then◌else◌,
}
use virtual_rsp.Common.Dict.{find, remove}
use virtual_rsp.Common.Exec.{Exec, pure, lift, gets, modify, catch, ◌>>=◌, ◌>>◌}
use virtual_rsp.ProcessManager.System.{
  Manager, Os, sigterm, sigkill, sleep, run_command, send_signal, poll_ended, is_running,
}
use virtual_rsp.ProcessManager.Starting.{Reply}

-- `del self.processes[service]`
unfoldable pub forget : String → Manager → Manager
forget service s = record s { processes = remove service s.processes }

module _ (os : Os) where
  -- `for _ in range(n)` with its `else`: wait for the process to end, and kill it if it has not
  unfoldable pub wait_ended : ℕ → ℕ → Exec Manager (Unit {0})
  wait_ended zero pid = send_signal os pid sigkill
  wait_ended (suc n) pid =
      let rest = wait_ended n pid in
      do ended ← poll_ended os pid; if ended then pure tt else do sleep 1; rest

  unfoldable pub stop_steps : String → String → Exec Manager Reply
  unfolding wait_ended forget
  stop_steps service stopped = do
    pid ← gets (λ s. find service s.processes) >>= λ p. lift (required (key_error service) p)
    send_signal os pid sigterm
    wait_ended 50 pid
    modify (forget service)
    pure (true, stopped)

  -- `stop_veuicc` and `stop_smdp`
  unfoldable pub stop : String → String → Exec Manager Reply
  unfolding stop_steps
  stop service label = do
    running ← is_running os service
    if not running
        then pure (false, concat label " is not running")
        else catch (stop_steps service (concat label " stopped"))
            (λ e. (false, concat "Failed to stop " (concat label (concat ": " (os.message e)))))

  unfoldable pub stop_veuicc : Exec Manager Reply
  unfolding stop
  stop_veuicc = stop "veuicc" "v-euicc"

  unfoldable pub stop_smdp : Exec Manager Reply
  unfolding stop
  stop_smdp = stop "smdp" "SM-DP+"

  -- `del` where the key may be missing and is tested for
  unfoldable pub stop_nginx : Exec Manager Reply
  unfolding forget
  stop_nginx = do
    running ← is_running os "nginx"
    if not running
        then pure (false, "nginx is not running")
        else catch
            (do
              run_command os ("pkill" ∷ "-15" ∷ "nginx" ∷ [])
              modify (forget "nginx")
              pure (true, "nginx stopped"))
            (λ e. (false, concat "Failed to stop nginx: " (os.message e)))

  -- `stop_all`
  unfoldable pub stop_all : Exec Manager (Unit {0})
  unfolding stop_veuicc stop_smdp stop_nginx
  stop_all = do stop_nginx; stop_smdp; stop_veuicc; pure tt
