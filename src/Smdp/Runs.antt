-- ===== src/Smdp/Runs.antt =====
-- Sequences of requests to the SM-DP+ server of pysim/osmo-smdpp.py, and what they keep.
use virtual_rsp.Common.{◌≡◌, sym, subst, [], ◌∷◌, List, Option, String, ok}
use virtual_rsp.Common.Exec.{continue-eq-ok}
use virtual_rsp.Bsp.Padding.{Bytes}
use virtual_rsp.Common.Dict.{find}
use virtual_rsp.Smdp.Server.{Ext, Config, Server}
use virtual_rsp.Smdp.Authenticate.{Fields, AuthRequest, authenticate_client}
use virtual_rsp.Smdp.Initiate.{Drawn, InitiateRequest, initiate_authentication}
use virtual_rsp.Smdp.Download.{
  DownloadRequest, DrawnKeys, DownloadInput, download_steps, deliver, get_bound_profile_package,
}
use virtual_rsp.Smdp.Closing.{CancelRequest, cancel_session, handle_notification}
use virtual_rsp.Smdp.Delivery.{IsRead, IsPrepared, download_steps-IsKeyed}
use virtual_rsp.Smdp.Safety.{AreSafe, IsVetted, IsVetted-euicc}
use virtual_rsp.Smdp.Keeps.{
  Keeps, initiate-Keeps, authenticate-Keeps, download-Keeps, notify-Keeps, cancel-Keeps,
}

-- a request, with what the server draws for it
pub data Call : Type 0 where
  initiate : Drawn → InitiateRequest → Call
  authenticate : Bytes → AuthRequest → Call
  download : DrawnKeys → String → DownloadRequest → Call
  notify : Option String → Call
  cancel : CancelRequest → Call

module _ (x : Ext) (g : Config) where
  -- the server after a request
  unfoldable pub call : Call → Server → Server
  call (initiate r request) s = (initiate_authentication x g r request s).1
  call (authenticate nonce request) s = (authenticate_client x g nonce request s).1
  call (download drawn now request) s = (get_bound_profile_package x g drawn now request s).1
  call (notify pending) s = (handle_notification x g pending s).1
  call (cancel request) s = (cancel_session x g request s).1

  unfoldable pub run : List Call → Server → Server
  unfolding call
  run [] s = s
  run (c ∷ cs) s = run cs (call c s)

  no_sessions : AreSafe x g []
  unfolding find
  no_sessions tid ss h = absurd (cc)

  call-Keeps : (c : Call) (s : Server) → Keeps x g s (call c s)
  unfolding call
  call-Keeps (initiate r request) s = initiate-Keeps x g r request s
  call-Keeps (authenticate nonce request) s = authenticate-Keeps x g nonce request s
  call-Keeps (download drawn now request) s = download-Keeps x g drawn now request s
  call-Keeps (notify pending) s = notify-Keeps x g pending s
  call-Keeps (cancel request) s = cancel-Keeps x g request s

  -- Whatever requests come in whatever order, answered or refused, every session that holds an
  -- eUICC certificate holds an EUM certificate and an EID too that are trusted under its root, if
  -- this held before.
  pub run-AreSafe : (cs : List Call) (s : Server) → AreSafe x g s.rss → AreSafe x g (run cs s).rss
  unfolding run
  run-AreSafe [] s safe = safe
  run-AreSafe (c ∷ cs) s safe = run-AreSafe cs (call c s) (call-Keeps c s safe)

  -- A profile package leaves the server, after any requests to a server that starts without
  -- sessions, only for a request that names a session whose certificates and EID are trusted under
  -- its root, and whose eUICC certificate carries the signature of the request over the signature
  -- that the session was given.
  pub get_bound_profile_package_lem :
      (cs : List Call) (s : Server) (drawn : DrawnKeys) (now : String) (request : DownloadRequest)
      {fields : Fields}
      → s.rss ≡ []
      → (get_bound_profile_package x g drawn now request (run cs s)).0 ≡ ok fields
      → (i : DownloadInput) × IsRead x g request (run cs s) i
        × (p : IsPrepared x g i) × (v : IsVetted x g i.ss) × (v.euicc ≡ p.euicc)
  unfolding get_bound_profile_package
  get_bound_profile_package_lem cs s drawn now request empty h =
      let (found, a, _, _) =
        continue-eq-ok (download_steps x g drawn.ot request (run cs s))
          (deliver x g drawn.nonce now) (run cs s) h in
      let k = download_steps-IsKeyed x g drawn.ot request (run cs s) found a in
      let safe = run-AreSafe cs s (subst (AreSafe x g) (sym empty) no_sessions) in
      let vetted =
        IsVetted-euicc x g k.input.ss k.prepared.euicc
          (safe k.input.tid k.input.ss k.is_read.was_known) k.prepared.session_euicc in
      (k.input, k.is_read, k.prepared, vetted.0, vetted.1)
