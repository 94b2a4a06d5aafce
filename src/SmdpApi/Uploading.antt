-- ===== src/SmdpApi/Uploading.antt =====
-- What `upload_profile` of mno/services/smdp_api.py brings about at the server of
-- pysim/osmo-smdpp.py.
use Prim.Native.String.{◌++◌ as concat}
use virtual_rsp.Common.{
  Error, api_error, if◌then◌else◌, String, Bool, true, false, Result, ok, err, ◌≡◌, ◌⊎◌,
}
use virtual_rsp.Bsp.Padding.{Bytes}
use virtual_rsp.Smdp.Server.{Ext, Config, Server}
use virtual_rsp.Smdp.Authenticate.{profile_file}
use virtual_rsp.Smdp.Profiles.{is_inside}
use virtual_rsp.SmdpApi.{Http, text, post, basename}
use virtual_rsp.SmdpApi.Network.{is_header_text, Failed}

module _ (g : Config) (writable : String → Bool) (modified : String → String) (now : String) where
  -- The server has the content of a file under the matching ID in the name of the file, and gives
  -- it to a device that asks for this ID, if its path lies in the profile directory.
  pub record IsUploaded (x : Ext) (name : String) (content : Bytes) (after : Server) : Type 0 where
    pub matching_id : String
    pub named : name ≡ concat matching_id ".der"
    pub gives : profile_file x g matching_id after.files ≡ (
        if is_inside x g matching_id then ok content else err (api_error "8.2.6" "3.8" "Refused"))

  module _ (h : Http Server) (base_url : String) where
    -- What uploading comes to: a file that cannot be read is not sent; a file that is read is
    -- reported as uploaded, or the request with it failed; and if it is reported, it is uploaded, or
    -- the header cannot hold its name as it is.
    abbrev pub Uploading :
        Ext → (String → Result Bytes) → String → Server → Result Bool × Server → Type 0
    Uploading x open_file filepath s (r, after) =
        ((e : Error) × (open_file filepath ≡ err e) × (r ≡ ok false) × (after ≡ s))
        ⊎ ((content : Bytes) × (open_file filepath ≡ ok content)
            × (((r ≡ ok false)
                  × Failed
                      (h.send (post (basename filepath) content) (concat base_url "/mno/profiles")
                        s).0)
                ⊎ ((r ≡ ok true)
                    × ((is_header_text (basename filepath) ≡ false)
                        ⊎ IsUploaded x (basename filepath) content after))))
