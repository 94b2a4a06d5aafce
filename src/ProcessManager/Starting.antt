-- ===== src/ProcessManager/Starting.antt =====
-- How `ProcessManager` of gui/services/process_manager.py starts a process.
use Prim.Native.String.{◌++◌ as concat}
use virtual_rsp.Common.{str, ℕ, String, Bool, true, false, not, List, [], ◌∷◌, if◌then◌else◌}
use virtual_rsp.Common.Dict.{put}
use virtual_rsp.Common.Exec.{Exec, pure, lift, gets, modify, catch, ◌>>=◌, ◌>>◌}
use virtual_rsp.ProcessManager.System.{
  Manager, Os, sleep, run_command, popen, poll_ended, is_running,
}

-- `(success, message)`
abbrev pub Reply : Type 0
Reply = Bool × String

-- What one of the three methods starts: its name in the dictionaries, the file that must be there,
-- the log file, the command, how long it waits for a crash, and its messages.
pub record Launch : Type 0 where
  pub service : String
  pub required_file : String
  pub log_file : String
  pub command : List String
  pub wait : ℕ
  pub already : String
  pub not_found : String
  pub crashed : String
  pub started : String
  pub failed : String

-- `self.processes[…] = proc` and `self.log_files[…] = str(log_file)`
unfoldable pub register : Launch → ℕ → Manager → Manager
register l pid s = record s {
  processes = put l.service pid s.processes;
  log_files = put l.service l.log_file s.log_files;
}

-- What follows the test whether the process has ended.
unfoldable pub confirm : Launch → ℕ → Bool → Exec Manager Reply
unfolding register
confirm l pid true = pure (false, l.crashed)
confirm l pid false = do modify (register l pid); pure (true, l.started)

module _ (os : Os) where
  -- The first `try` of `start_veuicc` and `start_smdp`. A list with `shell=True` runs its first
  -- word; the others are arguments of the shell.
  unfoldable pub free_port : ℕ → Exec Manager (Unit {0})
  free_port port =
      catch
        (do
          run_command os ("lsof" ∷ "-ti" ∷ concat ":" (str port) ∷ [])
          run_command os
              ("sh" ∷ "-c" ∷ "kill" ∷ "-9" ∷ concat "`lsof -ti :" (concat (str port) "`") ∷ [])
          sleep 10)
        (λ _. tt)

  -- The first `try` of `start_nginx`.
  unfoldable pub kill_nginx : Exec Manager (Unit {0})
  kill_nginx = catch (do run_command os ("pkill" ∷ "-9" ∷ "nginx" ∷ []); sleep 10) (λ _. tt)

  -- The second `try`.
  unfoldable pub launch_steps : Launch → Exec Manager Reply
  unfolding confirm
  launch_steps l = do
    gets (λ s. os.open_log s l.log_file) >>= lift
    pid ← popen os l.command
    sleep l.wait
    ended ← poll_ended os pid
    confirm l pid ended

  unfoldable pub launch : Launch → Exec Manager Reply
  unfolding launch_steps
  launch l = do
    present ← gets (λ s. os.exists s l.required_file)
    if not present
        then pure (false, l.not_found)
        else catch (launch_steps l) (λ e. (false, concat l.failed (os.message e)))

  -- A method that starts a process: nothing if it runs, else free what it needs and launch it.
  unfoldable pub start : Launch → Exec Manager (Unit {0}) → Exec Manager Reply
  unfolding launch
  start l clear = do
    running ← is_running os l.service
    if running then pure (false, l.already) else do clear; launch l

unfoldable pub veuicc : String → ℕ → Launch
veuicc root port =
    let bin = concat root "/build/v-euicc/v-euicc-daemon" in
    record {
      service = "veuicc";
      required_file = bin;
      log_file = concat root "/data/veuicc.log";
      command = bin ∷ str port ∷ [];
      wait = 10;
      already = "v-euicc is already running";
      not_found = concat "v-euicc binary not found: " bin;
      crashed = "v-euicc crashed on startup";
      started = concat "v-euicc started on port " (str port);
      failed = "Failed to start v-euicc: ";
    }

unfoldable pub smdp : String → String → ℕ → Launch
smdp root host port =
    let script = concat root "/pysim/osmo-smdpp.py" in
    record {
      service = "smdp";
      required_file = script;
      log_file = concat root "/data/smdp.log";
      command =
          "python3" ∷ script ∷ "-H" ∷ host ∷ "-p" ∷ str port ∷ "--nossl" ∷ "-c" ∷ "generated" ∷ [];
      wait = 20;
      already = "SM-DP+ is already running";
      not_found = concat "SM-DP+ script not found: " script;
      crashed = "SM-DP+ crashed on startup";
      started = concat "SM-DP+ started on " (concat host (concat ":" (str port)));
      failed = "Failed to start SM-DP+: ";
    }

unfoldable pub nginx : String → ℕ → Launch
nginx root port =
    let conf = concat root "/pysim/nginx-smdpp.conf" in
    record {
      service = "nginx";
      required_file = conf;
      log_file = concat root "/data/nginx.log";
      command = "nginx" ∷ "-c" ∷ conf ∷ "-p" ∷ concat root "/pysim" ∷ [];
      wait = 10;
      already = "nginx is already running";
      not_found = concat "nginx config not found: " conf;
      crashed = "nginx crashed on startup";
      started = concat "nginx started (HTTPS port " (concat (str port) ")");
      failed = "Failed to start nginx: ";
    }

module _ (os : Os) (root : String) where
  unfoldable pub start_veuicc : ℕ → Exec Manager Reply
  unfolding start veuicc free_port
  start_veuicc port = start os (veuicc root port) (free_port os port)

  unfoldable pub start_smdp : String → ℕ → Exec Manager Reply
  unfolding start smdp free_port
  start_smdp host port = start os (smdp root host port) (free_port os port)

  unfoldable pub start_nginx : ℕ → Exec Manager Reply
  unfolding start nginx kill_nginx
  start_nginx port = start os (nginx root port) (kill_nginx os)
