-- ===== src/SmdpApi/Examples.antt =====
-- Tests of the client, and the properties applied to a network that brings every request.
use Prim.Native.String.{◌++◌ as concat}
use text.Mathlib.TextLemmas.{nil-append}
use virtual_rsp.Common.{
  String, Bool, true, false, Result, ok, err, [], ◌∷◌, inr, refl, ◌≡◌, ◌⊎◌, api_error, os_error,
}
use virtual_rsp.Bsp.Padding.{Bytes}
use virtual_rsp.Smdp.Server.{Server}
use virtual_rsp.Smdp.Authenticate.{profile_file}
use virtual_rsp.Smdp.Setup.{ext, config, opened}
use virtual_rsp.Smdp.Mno.{has_slash}
use virtual_rsp.SmdpApi.{Http, delete, basename, upload_profile, delete_profile}
use virtual_rsp.SmdpApi.Network.{serve, is_plain, is_header_text, is_segment, IsNetwork, Failed}
use virtual_rsp.SmdpApi.Uploading.{Uploading}
use virtual_rsp.SmdpApi.Deleting.{delete_profile_lem}

-- every path can be written, and a server without an address before its paths
abbrev all_writable : String → Bool
all_writable path = true

abbrev yesterday : String → String
yesterday name = "2025-01-01"

abbrev direct : Http Server
direct = record {
  send = λ request path s.
      let (reply, t) = serve config all_writable yesterday "2025-01-02" request path s in
      (ok reply, t);
}

direct-IsNetwork : IsNetwork config all_writable yesterday "2025-01-02" direct ""
direct-IsNetwork = record {
  outcome = λ request path s literal. rw (nil-append path) (inr (inr refl));
}

abbrev one_file : String → Result Bytes
one_file path = ok (6 ∷ [])

abbrev no_file : String → Result Bytes
no_file path = err os_error

named : basename "/home/x/N.der" ≡ concat "N" ".der"
unfolding basename has_slash
named = refl

-- the name and the ID of the examples are those that arrive as they are
fits : is_header_text "N.der" ≡ true
unfolding is_header_text
fits = refl

segment : is_segment "M" ≡ true
unfolding is_plain has_slash
segment = refl

-- an ID that the address would cut
cut : is_segment "A#B" ≡ false
unfolding is_plain has_slash
cut = refl

unread : upload_profile direct "" no_file "/home/x/N.der" opened ≡ (ok false, opened)
unfolding upload_profile
unread = refl

delete_profile_example :
    (((delete_profile direct "" "M" opened).0 ≡ ok false)
      × Failed (direct.send delete (concat "" (concat "/mno/profiles/" "M")) opened).0)
    ⊎ (((delete_profile direct "" "M" opened).0 ≡ ok true)
        × ((is_segment "M" ≡ false)
            ⊎ (profile_file ext config "M" (delete_profile direct "" "M" opened).1.files
                ≡ err (api_error "8.2.6" "3.8" "Refused"))))
delete_profile_example =
    delete_profile_lem config all_writable yesterday "2025-01-02" direct "" direct-IsNetwork ext "M"
      opened
