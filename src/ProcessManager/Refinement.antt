-- ===== src/ProcessManager/Refinement.antt =====
-- The methods of `ProcessManager` (gui/services/process_manager.py) in any order: each follows the
-- specification, and what holds of the manager after all of them.
use virtual_rsp.Common.{
  ℕ, ◌≡◌, ◌≢◌, inl, inr, sym, ap, ◌∙◌, String, List, [], ◌∷◌, none, some, Result-cases, Bool-cases,
  ◌==◌, eq_iff, ne_of_beq,
}
use virtual_rsp.Common.Dict.{find}
use virtual_rsp.ProcessManager.System.{Manager, Os}
use virtual_rsp.ProcessManager.Starting.{
  veuicc, smdp, nginx, free_port, kill_nginx, start_veuicc, start_smdp, start_nginx,
}
use virtual_rsp.ProcessManager.Stopping.{stop, stop_veuicc, stop_smdp, stop_nginx, stop_all}
use virtual_rsp.ProcessManager.Changes.{
  Change, still, begun, finished, free_port-IsQuiet, kill_nginx-IsQuiet,
}
use virtual_rsp.ProcessManager.Starts.{Change-start}
use virtual_rsp.ProcessManager.Stops.{Change-stop, Change-stop_nginx}

-- A call of a method that changes the manager.
pub data Call : Type 0 where
  start_veuicc_on : ℕ → Call
  start_smdp_on : String → ℕ → Call
  start_nginx_on : ℕ → Call
  stop_veuicc_now stop_smdp_now stop_nginx_now stop_all_now : Call

-- A service with a process has a log file.
pub record HasLogs (s : Manager) : Type 0 where
  pub log_of :
      (service : String) (pid : ℕ)
      → find service s.processes ≡ some pid
      → (log : String) × (find service s.log_files ≡ some log)

module _ (os : Os) (root : String) where
  -- the manager after a call
  unfoldable pub call : Call → Manager → Manager
  call (start_veuicc_on port) s = (start_veuicc os root port s).1
  call (start_smdp_on host port) s = (start_smdp os root host port s).1
  call (start_nginx_on port) s = (start_nginx os root port s).1
  call stop_veuicc_now s = (stop_veuicc os s).1
  call stop_smdp_now s = (stop_smdp os s).1
  call stop_nginx_now s = (stop_nginx os s).1
  call stop_all_now s = (stop_all os s).1

  unfoldable pub run : List Call → Manager → Manager
  unfolding call
  run [] s = s
  run (c ∷ cs) s = run cs (call c s)

  -- Steps of the specification, one after the other.
  pub data Changes (s : Manager) : Manager → Type 0 where
    done : Changes s s
    after : {t u : Manager} → Changes s t → Change os t u → Changes s u

  Changes-stop_all : (s : Manager) → Changes s (stop_all os s).1
  unfolding stop_all stop_smdp stop_veuicc
  Changes-stop_all s =
      let c1 = Change-stop_nginx os s in
      let t = (stop_nginx os s).1 in
      let c2 = Change-stop os "smdp" "SM-DP+" t in
      let u = (stop os "smdp" "SM-DP+" t).1 in
      let c3 = Change-stop os "veuicc" "v-euicc" u in
      elim (Result-cases (stop_nginx os s).0) [
        | inr (e, bad) ↦ rw bad (after done c1)
        | inl (_, ok1) ↦ rw ok1 (elim (Result-cases (stop os "smdp" "SM-DP+" t).0) [
          | inr (e, bad) ↦ rw bad (after (after done c1) c2)
          | inl (_, ok2) ↦ rw ok2 (elim (Result-cases (stop os "veuicc" "v-euicc" u).0) [
            | inr (e, bad) ↦ rw bad (after (after (after done c1) c2) c3)
            | inl (_, ok3) ↦ rw ok3 (after (after (after done c1) c2) c3)
          ])
        ])
      ]

  Changes-call : (c : Call) (s : Manager) → Changes s (call c s)
  unfolding call start_veuicc start_smdp start_nginx stop_veuicc stop_smdp
  Changes-call (start_veuicc_on port) s =
      after done
        (Change-start os (veuicc root port) (free_port os port) s (free_port-IsQuiet os port))
  Changes-call (start_smdp_on host port) s =
      after done
        (Change-start os (smdp root host port) (free_port os port) s (free_port-IsQuiet os port))
  Changes-call (start_nginx_on port) s =
      after done (Change-start os (nginx root port) (kill_nginx os) s (kill_nginx-IsQuiet os))
  Changes-call stop_veuicc_now s = after done (Change-stop os "veuicc" "v-euicc" s)
  Changes-call stop_smdp_now s = after done (Change-stop os "smdp" "SM-DP+" s)
  Changes-call stop_nginx_now s = after done (Change-stop_nginx os s)
  Changes-call stop_all_now s = Changes-stop_all s

  Changes-trans : {s t u : Manager} → Changes s t → Changes t u → Changes s u
  Changes-trans h done = h
  Changes-trans h (after k c) = after (Changes-trans h k) c

  -- Every sequence of calls follows the specification: it is a sequence of steps, each of which
  -- leaves the registered processes as they are, begins one live process of one service that was
  -- found not to run, or forgets the process of one service that was found to run; no step touches
  -- another service.
  pub run-Changes : (cs : List Call) (s : Manager) → Changes s (run cs s)
  unfolding run
  run-Changes [] s = done
  run-Changes (c ∷ cs) s = Changes-trans (Changes-call c s) (run-Changes cs (call c s))

  -- The log file after a step.
  log_after :
      (s s' : Manager)
      → HasLogs s
      → Change os s s'
      → (service : String) (pid : ℕ) → find service s'.processes ≡ some pid
      → (log : String) × (find service s'.log_files ≡ some log)
  log_after s s' h (still k) service pid e =
      let (log, f) = h.log_of service pid (rw (← k.processes_kept) e) in (log, rw k.logs_kept f)
  log_after s s' h (begun service log pid t idle alive p l) other pid' e =
      elim (Bool-cases (other == service)) [
        | inl b ↦ (log, rw ((eq_iff other service).0 b) l.at_key)
        | inr b ↦
            let n : other ≢ service = λ q. ne_of_beq other service b q in
            let (log', f) = h.log_of other pid' (sym (p.elsewhere other n) ∙ e) in
            (log', l.elsewhere other n ∙ f)
      ]
  log_after s s' h (finished service busy p k) other pid' e = elim (Bool-cases (other == service)) [
    | inl b ↦
        let bad : none ≡ some pid' =
          sym p.at_key
          ∙ ap (λ (q : String). find q s'.processes) (sym ((eq_iff other service).0 b))
          ∙ e in
        absurd (cc)
    | inr b ↦
        let n : other ≢ service = λ q. ne_of_beq other service b q in
        let (log', f) = h.log_of other pid' (sym (p.elsewhere other n) ∙ e) in (log', rw k f)
  ]

  Change-HasLogs : (s s' : Manager) → HasLogs s → Change os s s' → HasLogs s'
  Change-HasLogs s s' h c = record { log_of = log_after s s' h c }

  Changes-HasLogs : {s s' : Manager} → HasLogs s → Changes s s' → HasLogs s'
  Changes-HasLogs h done = h
  Changes-HasLogs h (after {t} {u} k c) = Change-HasLogs t u (Changes-HasLogs h k) c

  -- After any sequence of calls from a manager whose registered services have log files, they have
  -- log files.
  pub run-HasLogs : (cs : List Call) (s : Manager) → HasLogs s → HasLogs (run cs s)
  run-HasLogs cs s h = Changes-HasLogs h (run-Changes cs s)
