-- ===== src/ProcessManager/StopAll.antt =====
-- What `stop_all` of gui/services/process_manager.py leaves.
use virtual_rsp.Common.{
  ℕ, ◌≡◌, ◌⊎◌, inl, inr, refl, ◌∙◌, String, true, false, List, [], ◌∷◌, none, ok, Bool-cases,
  nat_beq, ne_of_beq,
}
use virtual_rsp.Common.Dict.{find, find-remove}
use virtual_rsp.ProcessManager.System.{Manager, Os, run_command, is_running}
use virtual_rsp.ProcessManager.Starting.{Reply}
use virtual_rsp.ProcessManager.Stopping.{forget, stop_nginx, stop_smdp, stop_veuicc, stop_all}
use virtual_rsp.ProcessManager.Ending.{Delivers, IsDown, stop-IsClosed}

module _ (os : Os) where
  -- pkill and pgrep can be called.
  abbrev pub Runs : Type 0
  Runs = (s : Manager) (args : List String) → (code : ℕ) × (os.run s args ≡ ok code)

  abbrev IsNginxClosed : Manager → Manager → Type 0
  IsNginxClosed s s' = (find "nginx" s'.processes ≡ none) ⊎ ((is_running os "nginx" s).0 ≡ ok false)

  stop_nginx-IsNginxClosed :
      (s : Manager)
      → Runs
      → (r : Reply) × (s' : Manager) × (stop_nginx os s ≡ (ok r, s')) × IsNginxClosed s s'
  unfolding stop_nginx is_running run_command forget
  stop_nginx-IsNginxClosed s runs =
      let pgrep : List String = "pgrep" ∷ "-f" ∷ "nginx.*nginx-smdpp.conf" ∷ [] in
      let pkill : List String = "pkill" ∷ "-15" ∷ "nginx" ∷ [] in
      let s1 = (run_command os pgrep s).1 in
      let s2 = (run_command os pkill s1).1 in
      let (code, e) = runs s pgrep in
      let (code2, e2) = runs s1 pkill in
      elim (Bool-cases (nat_beq code 0)) [
        | inl b ↦ (
          (true, "nginx stopped"),
          forget "nginx" s2,
          rw e (rw b (rw e2 refl)),
          inl (find-remove "nginx" s2.processes),
        )
        | inr b ↦ ((false, "nginx is not running"), s1, rw e (rw b refl), inr (rw e (rw b refl)))
      ]

  -- What `stop_all` leaves: no entry of nginx, unless it was found not to run, and none of the two
  -- other services, unless its process had ended.
  pub record IsAllClosed (s s' : Manager) : Type 0 where
    pub returned : stop_all os s ≡ (ok tt, s')
    pub nginx_closed : IsNginxClosed s s'
    pub smdp_down : IsDown os "smdp" s'
    pub veuicc_down : IsDown os "veuicc" s'

  IsNginxClosed-kept :
      (s s' t : Manager)
      → find "nginx" t.processes ≡ find "nginx" s'.processes
      → IsNginxClosed s s'
      → IsNginxClosed s t
  IsNginxClosed-kept s s' t e (inl h) = inl (e ∙ h)
  IsNginxClosed-kept s s' t e (inr h) = inr h

  IsDown-kept :
      (service : String) (s s' : Manager)
      → find service s'.processes ≡ find service s.processes
      → IsDown os service s
      → IsDown os service s'
  IsDown-kept service s s' e (inl h) = inl (e ∙ h)
  IsDown-kept service s s' e (inr (pid, t, h, dead)) = inr (pid, t, e ∙ h, dead)

  -- `stop_all` returns, and then no service is registered with a process that runs: the entry of
  -- the SM-DP+ server and of the eUICC daemon is gone, or its process was seen to have ended, and
  -- the entry of nginx is gone, or nginx was found not to run. The commands can be called, and
  -- signals can be sent.
  pub stop_all-IsAllClosed : (s : Manager) → Delivers os → Runs → (s' : Manager) × IsAllClosed s s'
  unfolding stop_all stop_smdp stop_veuicc
  stop_all-IsAllClosed s d runs =
      let (_, t, e1, nginx) = stop_nginx-IsNginxClosed s runs in
      let (_, u, e2, smdp) = stop-IsClosed os "smdp" "SM-DP+" t d refl in
      let (_, v, e3, veuicc) = stop-IsClosed os "veuicc" "v-euicc" u d refl in
      (
        v,
        record {
          returned = rw e1 (rw e2 (rw e3 refl));
          nginx_closed =
              IsNginxClosed-kept s t v
                (veuicc.others "nginx" (ne_of_beq "nginx" "veuicc" refl)
                  ∙ smdp.others "nginx" (ne_of_beq "nginx" "smdp" refl))
                nginx;
          smdp_down =
              IsDown-kept "smdp" u v (veuicc.others "smdp" (ne_of_beq "smdp" "veuicc" refl))
                smdp.down;
          veuicc_down = veuicc.down;
        },
      )
