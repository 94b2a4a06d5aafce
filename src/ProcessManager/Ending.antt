-- ===== src/ProcessManager/Ending.antt =====
-- How `stop_veuicc` and `stop_smdp` of gui/services/process_manager.py end.
use Prim.Native.String.{◌++◌ as concat}
use virtual_rsp.Common.{
  ℕ, zero, suc, ◌+◌, ◌≤◌, ◌≡◌, ◌≢◌, ◌⊎◌, inl, inr, refl, ap, ◌∙◌, String, true, false, not, List,
  [], ◌∷◌, ◌++◌, none, some, ok, Option-cases, Bool-cases, ◌==◌, arith,
}
use virtual_rsp.Common.Dict.{find, find-remove, find-remove_other}
use virtual_rsp.ProcessManager.System.{
  Manager, Os, running_now, Signal, signalled, sigterm, sigkill, sleep, send_signal, poll_ended,
  is_running,
}
use virtual_rsp.ProcessManager.Starting.{Reply}
use virtual_rsp.ProcessManager.Stopping.{forget, wait_ended, stop_steps, stop}

module _ (os : Os) where
  -- Signals can be sent to a child process.
  abbrev pub Delivers : Type 0
  Delivers = (s : Manager) (pid : ℕ) (sig : Signal) → os.deliver s pid sig ≡ ok tt

  -- The process has ended, or the last thing asked of the operating system was to kill it.
  abbrev pub IsGone : ℕ → Manager → Type 0
  IsGone pid s =
      (os.ended s pid ≡ true) ⊎ ((es : List _) × (s.events ≡ es ++ signalled pid sigkill ∷ []))

  running_some :
      (service : String) (pid : ℕ) (s : Manager)
      → find service s.processes ≡ some pid
      → running_now os service s ≡ not (os.ended s pid)
  running_some service pid s e = rw (e, running_now) refl

  record IsWaited (n pid : ℕ) (s s' : Manager) : Type 0 where
    processes_kept : s'.processes ≡ s.processes
    in_time : s'.time ≤ s.time + n
    gone : IsGone pid s'

  wait_ended-IsWaited :
      (n pid : ℕ) (s : Manager)
      → Delivers
      → (s' : Manager) × (wait_ended os n pid s ≡ (ok tt, s')) × IsWaited n pid s s'
  unfolding wait_ended poll_ended sleep send_signal
  wait_ended-IsWaited zero pid s d = (
    (send_signal os pid sigkill s).1,
    rw (d s pid sigkill) refl,
    record { processes_kept = refl; in_time = omega arith; gone = inr (s.events, refl) },
  )
  wait_ended-IsWaited (suc n) pid s d = elim (Bool-cases (os.ended s pid)) [
    | inl e ↦ (s, rw e refl, record { processes_kept = refl; in_time = omega arith; gone = inl e })
    | inr e ↦
        let (s', r, w) = wait_ended-IsWaited n pid (record s { time = s.time + 1 }) d in
        (
          s',
          rw e r,
          record {
            processes_kept = w.processes_kept;
            in_time = omega (arith, w.in_time);
            gone = w.gone;
          },
        )
  ]

  -- A running service that is stopped: within five seconds its process has ended or is killed, its
  -- entry is removed, and the method reports success.
  pub record IsStopped (service label : String) (pid : ℕ) (s s' : Manager) : Type 0 where
    pub replied : stop os service label s ≡ (ok (true, concat label " stopped"), s')
    pub removed : find service s'.processes ≡ none
    pub in_time : s'.time ≤ s.time + 50
    pub before : Manager
    pub gone : IsGone pid before
    pub forgotten : s' ≡ forget service before
    pub others_kept : before.processes ≡ s.processes

  -- `stop_veuicc` or `stop_smdp` of a service that runs ends within five seconds: it reports
  -- success, the entry of the service is removed, and before that the process had ended or was
  -- killed, if signals can be sent to the process.
  pub stop-IsStopped :
      (service label : String) (pid : ℕ) (s : Manager)
      → Delivers
      → (service == "nginx") ≡ false
      → find service s.processes ≡ some pid
      → os.ended s pid ≡ false
      → (s' : Manager) × IsStopped service label pid s s'
  unfolding stop stop_steps is_running forget send_signal
  stop-IsStopped service label pid s d n f alive =
      let t = (send_signal os pid sigterm s).1 in
      let (u, r, w) = wait_ended-IsWaited 50 pid t d in
      (
        forget service u,
        record {
          replied = rw n (
              rw (running_some service pid s f)
                (rw alive (rw f (rw (d s pid sigterm) (rw r refl)))));
          removed = find-remove service u.processes;
          in_time = omega (arith, w.in_time);
          before = u;
          gone = w.gone;
          forgotten = refl;
          others_kept = w.processes_kept;
        },
      )

  -- A service that does not run is left alone.
  stop_idle :
      (service label : String) (s : Manager)
      → (service == "nginx") ≡ false
      → running_now os service s ≡ false
      → stop os service label s ≡ (ok (false, concat label " is not running"), s)
  unfolding stop is_running
  stop_idle service label s n h = rw n (rw h refl)

  -- The service has no entry, or the process of its entry was seen to have ended.
  abbrev pub IsDown : String → Manager → Type 0
  IsDown service s =
      (find service s.processes ≡ none)
      ⊎ ((pid : ℕ) × (t : Manager) × (find service s.processes ≡ some pid)
          × (os.ended t pid ≡ true))

  pub record IsClosed (service : String) (s s' : Manager) : Type 0 where
    pub down : IsDown service s'
    pub others :
        (other : String) → other ≢ service → find other s'.processes ≡ find other s.processes

  others_found :
      (service other : String) (s s' t : Manager)
      → other ≢ service
      → s' ≡ forget service t
      → t.processes ≡ s.processes
      → find other s'.processes ≡ find other s.processes
  unfolding forget
  others_found service other s s' t n e k =
      rw e (find-remove_other service other t.processes n ∙ ap (find other) k)

  pub stop-IsClosed :
      (service label : String) (s : Manager)
      → Delivers
      → (service == "nginx") ≡ false
      → (r : Reply) × (s' : Manager) × (stop os service label s ≡ (ok r, s'))
        × IsClosed service s s'
  stop-IsClosed service label s d n = elim (Option-cases (find service s.processes)) [
    | inl none_found ↦ (
      _,
      s,
      stop_idle service label s n (rw (none_found, running_now) refl),
      record { down = inl none_found; others = λ other k. refl },
    )
    | inr (pid, found) ↦ elim (Bool-cases (os.ended s pid)) [
      | inl dead ↦ (
        _,
        s,
        stop_idle service label s n (running_some service pid s found ∙ rw dead refl),
        record { down = inr (pid, s, found, dead); others = λ other k. refl },
      )
      | inr alive ↦
          let (s', stopped) = stop-IsStopped service label pid s d n found alive in
          (
            _,
            s',
            stopped.replied,
            record {
              down = inl stopped.removed;
              others = λ other k.
                  others_found service other s s' stopped.before k stopped.forgotten
                    stopped.others_kept;
            },
          )
    ]
  ]
