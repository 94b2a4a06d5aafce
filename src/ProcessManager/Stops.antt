-- ===== src/ProcessManager/Stops.antt =====
-- The methods of `ProcessManager` (gui/services/process_manager.py) that stop a process follow the
-- specification.
use Prim.Native.String.{◌++◌ as concat}
use virtual_rsp.Common.{
  ℕ, zero, suc, ◌≡◌, inl, inr, refl, String, true, false, List, [], ◌∷◌, none, ok, Result-cases,
  Bool-cases, required, key_error,
}
use virtual_rsp.Common.Dict.{Dict, find, remove, find-remove, find-remove_other}
use virtual_rsp.ProcessManager.System.{
  Manager, Os, Signal, sigterm, sigkill, sleep, run_command, send_signal, poll_ended, is_running,
}
use virtual_rsp.ProcessManager.Stopping.{forget, wait_ended, stop_steps, stop, stop_nginx}
use virtual_rsp.ProcessManager.Changes.{
  IsOnlyAt, IsStill, IsStill-refl, IsStill-trans, IsQuiet, IsQuiet-bind, Change, still, finished,
  is_running-IsQuiet, run_command-IsQuiet, sleep-IsQuiet,
}

remove-IsOnlyAt {ℓ} :
    {V : Type ℓ} (key : String) (d d' : Dict V) → d' ≡ d → IsOnlyAt key none d (remove key d')
remove-IsOnlyAt key d d' e =
    rw e (record {
      at_key = find-remove key d;
      elsewhere = λ other n. find-remove_other key other d n;
    })

module _ (os : Os) where
  send_signal-IsQuiet : (pid : ℕ) (sig : Signal) → IsQuiet (send_signal os pid sig)
  unfolding send_signal
  send_signal-IsQuiet pid sig s = record { processes_kept = refl; logs_kept = refl }

  wait_ended-IsQuiet : (n pid : ℕ) → IsQuiet (wait_ended os n pid)
  unfolding wait_ended poll_ended
  wait_ended-IsQuiet zero pid s = send_signal-IsQuiet pid sigkill s
  wait_ended-IsQuiet (suc n) pid s = elim (Bool-cases (os.ended s pid)) [
    | inl e ↦ rw e (IsStill-refl s)
    | inr e ↦ rw e (
        IsQuiet-bind (sleep 1) (λ _. wait_ended os n pid) (sleep-IsQuiet os 1)
          (λ _. wait_ended-IsQuiet n pid) s)
  ]

  Change-forget :
      (service : String) (s0 s : Manager)
      → IsStill s0 s
      → (is_running os service s0).0 ≡ ok true
      → Change os s0 (forget service s)
  unfolding forget
  Change-forget service s0 s h busy =
      finished service busy (remove-IsOnlyAt service s0.processes s.processes h.processes_kept)
        h.logs_kept

  Change-stop_steps :
      (service stopped : String) (s0 s : Manager)
      → IsStill s0 s
      → (is_running os service s0).0 ≡ ok true
      → Change os s0 (stop_steps os service stopped s).1
  unfolding stop_steps
  Change-stop_steps service stopped s0 s h busy =
      elim (Result-cases (required (key_error service) (find service s.processes))) [
        | inr (e, bad) ↦ rw bad (still h)
        | inl (pid, found) ↦
            let t = (send_signal os pid sigterm s).1 in
            let ht = IsStill-trans s0 s t h (send_signal-IsQuiet pid sigterm s) in
            let u = (wait_ended os 50 pid t).1 in
            let hu = IsStill-trans s0 t u ht (wait_ended-IsQuiet 50 pid t) in
            rw found (elim (Result-cases (send_signal os pid sigterm s).0) [
              | inr (e, bad) ↦ rw bad (still ht)
              | inl (_, sent) ↦ rw sent (elim (Result-cases (wait_ended os 50 pid t).0) [
                | inr (e, bad) ↦ rw bad (still hu)
                | inl (_, done) ↦ rw done (Change-forget service s0 u hu busy)
              ])
            ])
      ]

  pub Change-stop : (service label : String) (s : Manager) → Change os s (stop os service label s).1
  unfolding stop
  Change-stop service label s =
      let h = is_running-IsQuiet os service s in
      elim (Result-cases (is_running os service s).0) [
        | inr (e, bad) ↦ rw bad (still h)
        | inl (false, e) ↦ rw e (still h)
        | inl (true, e) ↦
            rw e (
              Change-stop_steps service (concat label " stopped") s (is_running os service s).1 h e)
      ]

  pub Change-stop_nginx : (s : Manager) → Change os s (stop_nginx os s).1
  unfolding stop_nginx
  Change-stop_nginx s =
      let h = is_running-IsQuiet os "nginx" s in
      let t = (is_running os "nginx" s).1 in
      let args : List String = "pkill" ∷ "-15" ∷ "nginx" ∷ [] in
      let u = (run_command os args t).1 in
      let hu = IsStill-trans s t u h (run_command-IsQuiet os args t) in
      elim (Result-cases (is_running os "nginx" s).0) [
        | inr (e, bad) ↦ rw bad (still h)
        | inl (false, e) ↦ rw e (still h)
        | inl (true, e) ↦ rw e (elim (Result-cases (run_command os args t).0) [
          | inr (x, bad) ↦ rw bad (still hu)
          | inl (code, done) ↦ rw done (Change-forget "nginx" s u hu e)
        ])
      ]
