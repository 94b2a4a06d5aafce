-- ===== src/Smdp/Keeps.antt =====
-- Each handler of pysim/osmo-smdpp.py keeps the session store safe.
use virtual_rsp.Common.{
  ◌≡◌, refl, sym, ap, subst, inl, inr, Bool, true, false, Option, none, some, String, Result, ok,
  err,
}
use virtual_rsp.Common.Exec.{Exec, continue, continue-cases}
use virtual_rsp.Bsp.Padding.{Bytes}
use virtual_rsp.Common.Dict.{find}
use virtual_rsp.Smdp.Session.{Session}
use virtual_rsp.Smdp.History.{FinalResult}
use virtual_rsp.Smdp.Server.{
  Ext, Config, Server, Notification, installation_result, other_signed, other_notification,
}
use virtual_rsp.Smdp.Authenticate.{
  Fields, AuthRequest, auth_steps, keep_session, authenticate_client,
}
use virtual_rsp.Smdp.Initiate.{
  Drawn, InitiateRequest, initiate_steps, open_session, initiate_authentication,
}
use virtual_rsp.BoundProfile.Tools.{UnprotectedProfilePackage, ProtectedProfilePackage}
use virtual_rsp.BoundProfile.Encode.{protect}
use virtual_rsp.Smdp.Download.{
  DownloadRequest, DrawnKeys, fixed_instance, download_steps, deliver, store_bound, bound_package,
  bound_reply, recorded, set_session, get_bound_profile_package,
}
use virtual_rsp.Smdp.Closing.{
  CancelRequest, cancel_session, cancel_checks, end_session, handle_notification, read_notification,
  notified, pir_valid, installed, conclude,
}
use virtual_rsp.Smdp.Trust.{authenticate_client_lem}
use virtual_rsp.Smdp.Delivery.{IsKeyed, download_steps-IsKeyed}
use virtual_rsp.Smdp.Safety.{
  IsSafe, AreSafe, AreSafe-put, AreSafe-remove, new_session-IsSafe, with_keys-IsSafe,
  IsBound-IsSafe,
}

module _ (x : Ext) (g : Config) where
  -- a safe store stays safe
  abbrev pub Keeps : Server → Server → Type 0
  Keeps s after = AreSafe x g s.rss → AreSafe x g after.rss

  -- a refused step changes nothing
  continue-Keeps :
      {A B : Type 0} (r : Result A) (f : A → Exec Server B) (s : Server)
      → ((a : A) → r ≡ ok a → Keeps s (f a s).1)
      → Keeps s (continue r f s).1
  continue-Keeps (ok a) f s h = h a refl
  continue-Keeps (err e) f s h = λ safe. safe

  pub initiate-Keeps :
      (r : Drawn) (request : InitiateRequest) (s : Server)
      → Keeps s (initiate_authentication x g r request s).1
  unfolding initiate_authentication open_session
  initiate-Keeps r request s =
      continue-Keeps (initiate_steps x g r request s) (open_session x g r) s
        (λ out _. AreSafe-put x g r.uuid _ s.rss (new_session-IsSafe x g r.uuid r.challenge out.0))

  pub authenticate-Keeps :
      (nonce : Bytes) (request : AuthRequest) (s : Server)
      → Keeps s (authenticate_client x g nonce request s).1
  unfolding authenticate_client keep_session
  authenticate-Keeps nonce request s safe =
      elim (continue-cases (auth_steps x g nonce request s) (keep_session x g) s) [
        | inl (out, _, e) ↦
            let a =
              authenticate_client_lem x g nonce request s
                (ap (λ (m : Result Fields × Server). m.0) e) in
            subst (λ (t : Server). AreSafe x g t.rss) (sym a.stored)
              (AreSafe-put x g a.input.tid a.new s.rss
                (IsBound-IsSafe x g a.input a.old a.eid a.new a.is_bound a.trusted) safe)
        | inr (_, e) ↦ subst (λ (m : Result Fields × Server). AreSafe x g m.1.rss) (sym e) safe
      ]

  store_bound-Keeps :
      (nonce : Bytes) (tid : String) (ss : Session) (ppp : ProtectedProfilePackage) (s : Server)
      → IsSafe x g ss
      → Keeps s (store_bound x g nonce tid ss ppp s).1
  unfolding store_bound bound_reply
  store_bound-Keeps nonce tid ss ppp s h safe =
      continue-Keeps (bound_package x g nonce ss ppp) (bound_reply x g tid) (set_session tid ss s)
        (λ _ _ kept. kept) (AreSafe-put x g tid ss s.rss h safe)

  deliver-Keeps :
      (nonce : Bytes) (now : String) (found : String × Session × String × UnprotectedProfilePackage)
      (s : Server)
      → IsSafe x g found.1
      → Keeps s (deliver x g nonce now found s).1
  unfolding deliver
  deliver-Keeps nonce now (tid, ss, m, upp) s h =
      continue-Keeps (protect x.tools upp fixed_instance).0 (store_bound x g nonce tid ss)
        (recorded x g now tid ss m s) (λ ppp _. store_bound-Keeps nonce tid ss ppp _ h)

  IsKeyed-IsSafe :
      (request : DownloadRequest) (s : Server) (tid : String) (new : Session)
      → IsKeyed x g request s tid new
      → AreSafe x g s.rss
      → IsSafe x g new
  IsKeyed-IsSafe request s tid new k safe = subst (IsSafe x g) (sym k.keyed) (
      with_keys-IsSafe x g k.input.ss k.input.otpk k.ot (x.public_key k.ot) k.secret
        (safe k.input.tid k.input.ss k.is_read.was_known))

  pub download-Keeps :
      (drawn : DrawnKeys) (now : String) (request : DownloadRequest) (s : Server)
      → Keeps s (get_bound_profile_package x g drawn now request s).1
  unfolding get_bound_profile_package
  download-Keeps drawn now request s safe =
      continue-Keeps (download_steps x g drawn.ot request s) (deliver x g drawn.nonce now) s
        (λ found a. deliver-Keeps drawn.nonce now found s (
          IsKeyed-IsSafe request s found.0 found.1
            (download_steps-IsKeyed x g drawn.ot request s found a) safe))
        safe

  conclude-Keeps :
      (tid : String) (result : FinalResult) (valid : Bool) (s : Server)
      → Keeps s (conclude x g tid result valid s).1
  unfolding conclude
  conclude-Keeps tid result false s safe = safe
  conclude-Keeps tid result true s safe = AreSafe-remove x g tid s.rss safe

  installed-Keeps :
      (tid : String) (result : FinalResult) (signature pird : Bytes) (o : Option Session)
      (s : Server)
      → Keeps s (installed x g tid result signature pird o s).1
  unfolding installed
  installed-Keeps tid result signature pird none s safe = safe
  installed-Keeps tid result signature pird (some ss) s safe =
      continue-Keeps (pir_valid x g ss signature pird) (conclude x g tid result) s
        (λ valid _. conclude-Keeps tid result valid s) safe

  notified-Keeps : (n : Notification) (s : Server) → Keeps s (notified x g n s).1
  unfolding notified
  notified-Keeps (installation_result tid result signature pird) s safe =
      installed-Keeps (x.b2h tid) result signature pird (find (x.b2h tid) s.rss) s safe
  notified-Keeps (other_signed _ _ _ _ _) s safe = safe
  notified-Keeps other_notification s safe = safe

  pub notify-Keeps :
      (pending : Option String) (s : Server) → Keeps s (handle_notification x g pending s).1
  unfolding handle_notification
  notify-Keeps pending s =
      continue-Keeps (read_notification x g pending) (notified x g) s (λ n _. notified-Keeps n s)

  end_session-Keeps :
      (tid : String) (ends : Bool) (s : Server) → Keeps s (end_session x g (tid, ends) s).1
  unfolding end_session
  end_session-Keeps tid false s safe = safe
  end_session-Keeps tid true s safe = AreSafe-remove x g tid s.rss safe

  pub cancel-Keeps :
      (request : CancelRequest) (s : Server) → Keeps s (cancel_session x g request s).1
  unfolding cancel_session
  cancel-Keeps request s =
      continue-Keeps (cancel_checks x g request s) (end_session x g) s
        (λ out _. end_session-Keeps out.0 out.1 s)
