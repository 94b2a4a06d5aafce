-- ===== src/ProcessManager/Starts.antt =====
-- What the methods of `ProcessManager` (gui/services/process_manager.py) that start a process may do.
use Prim.Native.String.{◌++◌ as concat}
use virtual_rsp.Common.{
  ℕ, ◌+◌, ◌≡◌, refl, inl, inr, String, true, false, [], ◌∷◌, ◌++◌, some, Result, Error, err, ok,
  Result-cases, Bool-cases, subst, ◌⊎◌, Bool,
}
use virtual_rsp.Common.Dict.{Dict, put, find-put, find-put_other}
use virtual_rsp.Common.Exec.{Exec, catch}
use virtual_rsp.ProcessManager.System.{Manager, Os, spawned, sleep, popen, poll_ended, is_running}
use virtual_rsp.ProcessManager.Starting.{
  Reply, Launch, register, confirm, launch_steps, launch, start,
}
use virtual_rsp.ProcessManager.Changes.{
  IsOnlyAt, IsStill, IsStill-trans, IsQuiet, Change, still, begun, is_running-IsQuiet,
}

put-IsOnlyAt {ℓ} :
    {V : Type ℓ} (key : String) (v : V) (d d' : Dict V)
    → d' ≡ d
    → IsOnlyAt key (some v) d (put key v d')
put-IsOnlyAt key v d d' e =
    rw e
      (record { at_key = find-put key v d; elsewhere = λ other n. find-put_other key other v d n })

module _ (os : Os) (l : Launch) (clear : Exec Manager (Unit {0})) where
  -- When the file is looked for, and when the process is polled.
  abbrev pub ready : Manager → Manager
  ready s = (clear (is_running os l.service s).1).1

  abbrev pub waited : Manager → Manager
  waited s = record (ready s) {
    time = (ready s).time + l.wait;
    events = (ready s).events ++ spawned l.command ∷ [];
  }

  -- The service was found not to run, what it needs was freed without an exception, and the file
  -- that must be there is or is not.
  pub record IsReady (s : Manager) (there : Bool) : Type 0 where
    pub idle : (is_running os l.service s).0 ≡ ok false
    pub freed : (clear (is_running os l.service s).1).0 ≡ ok tt
    pub present : os.exists (ready s) l.required_file ≡ there

  -- The log file was opened and the process was started.
  pub record IsSpawned (s : Manager) (pid : ℕ) : Type 0 where
    pub is_ready : IsReady s true
    pub opened : os.open_log (ready s) l.log_file ≡ ok tt
    pub started : os.spawn (ready s) l.command ≡ ok pid

  -- Why a failure is reported, with its message.
  pub data Refusal (s : Manager) (m : String) : Type 0 where
    runs : (is_running os l.service s).0 ≡ ok true → m ≡ l.already → Refusal s m
    no_file : IsReady s false → m ≡ l.not_found → Refusal s m
    no_log :
        (e : Error)
        → IsReady s true
        → os.open_log (ready s) l.log_file ≡ err e
        → m ≡ concat l.failed (os.message e)
        → Refusal s m
    no_process :
        (e : Error)
        → IsReady s true
        → os.open_log (ready s) l.log_file ≡ ok tt
        → os.spawn (ready s) l.command ≡ err e
        → m ≡ concat l.failed (os.message e)
        → Refusal s m
    crashes :
        (pid : ℕ) → IsSpawned s pid → os.ended (waited s) pid ≡ true → m ≡ l.crashed → Refusal s m

  -- Why an exception leaves the method: the test whether the service runs raised, or the freeing.
  abbrev pub Raise : Manager → Error → Type 0
  Raise s e =
      ((is_running os l.service s).0 ≡ err e)
      ⊎ (((is_running os l.service s).0 ≡ ok false)
          × ((clear (is_running os l.service s).1).0 ≡ err e))

  -- How a method that starts a process ends. The reasons exclude each other.
  pub data Outcome (s s' : Manager) (r : Result Reply) : Type 0 where
    refused : (m : String) → Refusal s m → r ≡ ok (false, m) → IsStill s s' → Outcome s s' r
    raised : (e : Error) → Raise s e → r ≡ err e → IsStill s s' → Outcome s s' r
    up :
        (pid : ℕ)
        → IsSpawned s pid
        → os.ended (waited s) pid ≡ false
        → IsStill s (waited s)
        → s' ≡ register l pid (waited s)
        → r ≡ ok (true, l.started)
        → Outcome s s' r

  confirm-Outcome :
      (pid : ℕ) (f : Error → Reply) (s : Manager)
      → IsStill s (waited s)
      → IsSpawned s pid
      → let (r, s') = catch (confirm l pid (os.ended (waited s) pid)) f (waited s) in Outcome s s' r
  unfolding confirm
  confirm-Outcome pid f s h p = elim (Bool-cases (os.ended (waited s) pid)) [
    | inl e ↦ rw e (refused l.crashed (crashes pid p e refl) refl h)
    | inr e ↦ rw e (up pid p e h refl refl)
  ]

  launch-Outcome :
      (s : Manager)
      → IsStill s (ready s)
      → IsReady s (os.exists (ready s) l.required_file)
      → let (r, s') = launch os l (ready s) in Outcome s s' r
  unfolding launch launch_steps popen sleep poll_ended
  launch-Outcome s h p = elim (Bool-cases (os.exists (ready s) l.required_file)) [
    | inr e ↦ let p' = subst (IsReady s) e p in rw e (refused l.not_found (no_file p' refl) refl h)
    | inl e ↦
        let p' = subst (IsReady s) e p in
        rw e (elim (Result-cases (os.open_log (ready s) l.log_file)) [
          | inr (x, bad) ↦ rw bad (refused _ (no_log x p' bad refl) refl h)
          | inl (_, opened) ↦ rw opened (elim (Result-cases (os.spawn (ready s) l.command)) [
            | inr (x, bad) ↦ rw bad (
                refused _ (no_process x p' opened bad refl) refl
                  (record { processes_kept = h.processes_kept; logs_kept = h.logs_kept }))
            | inl (pid, started) ↦ rw started (
                confirm-Outcome pid _ s
                  (record { processes_kept = h.processes_kept; logs_kept = h.logs_kept })
                  (record { is_ready = p'; opened = opened; started = started }))
          ])
        ])
  ]

  -- How a method that starts a process ends, in one of three ways. It registers the process
  -- and its log file, leaves the other services alone and reports success if the service was found
  -- not to run, what it needs was freed, the file that must be there is there, the log file opened,
  -- the process was started, and it is alive after the wait. It reports a failure, with the message
  -- for the reason, if the service was found to run, or one of these failed from the file on; it
  -- raises what the test or the freeing raised; and then it registers nothing. What it does first
  -- to free the port or to kill nginx is a method that registers nothing.
  pub start-Outcome :
      (s : Manager) → IsQuiet clear → Outcome s (start os l clear s).1 (start os l clear s).0
  unfolding start
  start-Outcome s quiet =
      let h = is_running-IsQuiet os l.service s in
      let s1 = (is_running os l.service s).1 in
      let h1 = IsStill-trans s s1 (ready s) h (quiet s1) in
      elim (Result-cases (is_running os l.service s).0) [
        | inr (e, bad) ↦ rw bad (raised e (inl bad) refl h)
        | inl (true, e) ↦ rw e (refused l.already (runs e refl) refl h)
        | inl (false, e) ↦ rw e (elim (Result-cases (clear s1).0) [
          | inr (x, bad) ↦ rw bad (raised x (inr (e, bad)) refl h1)
          | inl (_, done) ↦
              rw done (launch-Outcome s h1 (record { idle = e; freed = done; present = refl }))
        ])
      ]

  Change-Outcome : (s s' : Manager) (r : Result Reply) → Outcome s s' r → Change os s s'
  unfolding register
  Change-Outcome s s' r (refused m why e h) = still h
  Change-Outcome s s' r (raised e why k h) = still h
  Change-Outcome s s' r (up pid p alive h e k) = rw e (
      begun l.service l.log_file pid (waited s) p.is_ready.idle alive
        (put-IsOnlyAt l.service pid s.processes (waited s).processes h.processes_kept)
        (put-IsOnlyAt l.service l.log_file s.log_files (waited s).log_files h.logs_kept))

  pub Change-start : (s : Manager) → IsQuiet clear → Change os s (start os l clear s).1
  Change-start s quiet =
      Change-Outcome s (start os l clear s).1 (start os l clear s).0 (start-Outcome s quiet)
