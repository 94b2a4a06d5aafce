-- ===== src/SmdpApi.antt =====
-- mno/services/smdp_api.py: `SmdpApiService`, the client of the MNO console for the endpoints of the
-- SM-DP+ server. The package requests, with the network, is a parameter.
pub mod Network
pub mod Uploading
pub mod Deleting
mod Examples
use Prim.Native.Char.{code}
use Prim.Native.String.{◌++◌ as concat}
use virtual_rsp.Common.{
  ℕ, String, Bool, true, false, ◌&&◌, none, List, [], Result, ok, err, value_error, exception, leb,
  ltb, nat_beq, if◌then◌else◌,
}
use virtual_rsp.Common.Exec.{Exec, pure, lift, catch, ◌>>=◌, ◌>>◌}
use virtual_rsp.Bsp.Padding.{Bytes}
use virtual_rsp.Smdp.History.{Download}
use virtual_rsp.Smdp.Mno.{ProfileInfo, SessionInfo, Stats, has_slash}

-- What an answer has: a text, or JSON of one of the four forms.
pub data Body : Type 0 where
  text : String → Body
  profiles : List ProfileInfo → Body
  sessions : List SessionInfo → Body
  downloads : List Download → Body
  stats : Stats → Body

-- A request; a POST has the header `X-Filename` and the data.
pub data Request : Type 0 where
  get : Request
  post : String → Bytes → Request
  delete : Request

-- `requests.get`, `requests.post` and `requests.delete` of an address, in a world that they change:
-- an exception, or the status and the body of the answer.
pub record Http (W : Type 0) : Type 0 where
  pub send : Request → String → W → Result (ℕ × Body) × W

-- `response.raise_for_status()`
unfoldable pub raise_for_status : ℕ → Result (Unit {0})
raise_for_status status =
    if leb 400 status && ltb status 600 then err (exception "HTTPError") else ok tt

-- `response.json()`: the texts that the server answers with are not JSON
unfoldable pub json : Body → Result Body
json (text t) = err (value_error "JSONDecodeError")
json b = ok b

-- `os.path.basename`
unfoldable pub basename : String → String
basename String.[] = String.[]
basename (String.◌∷◌ c s) =
    let rest = basename s in
    if has_slash s then rest else (if nat_beq (code c) 47 then s else String.◌∷◌ c s)

module _ {W : Type 0} (h : Http W) (base_url : String) where
  -- The `try` of the methods that read.
  unfoldable pub fetch : String → Exec W Body
  unfolding raise_for_status json
  fetch path = do
    (status, body) ← h.send get (concat base_url path)
    lift (raise_for_status status)
    lift (json body)

  unfoldable pub list_profiles : Exec W Body
  unfolding fetch
  list_profiles = catch (fetch "/mno/profiles") (λ _. profiles [])

  -- `open(filepath, 'rb')` and `read` are the argument `open_file`
  unfoldable pub upload_profile : (String → Result Bytes) → String → Exec W Bool
  unfolding basename raise_for_status
  upload_profile open_file filepath =
      catch
        (do
          content ← lift (open_file filepath)
          (status, _) ← h.send (post (basename filepath) content) (concat base_url "/mno/profiles")
          lift (raise_for_status status)
          pure true)
        (λ _. false)

  unfoldable pub delete_profile : String → Exec W Bool
  unfolding raise_for_status
  delete_profile matching_id =
      catch
        (do
          (status, _) ← h.send delete (concat base_url (concat "/mno/profiles/" matching_id))
          lift (raise_for_status status)
          pure true)
        (λ _. false)

  unfoldable pub list_sessions : Exec W Body
  unfolding fetch
  list_sessions = catch (fetch "/mno/sessions") (λ _. sessions [])

  unfoldable pub get_download_history : Exec W Body
  unfolding fetch
  get_download_history = catch (fetch "/mno/downloads") (λ _. downloads [])

  unfoldable pub get_stats : Exec W Body
  unfolding fetch
  get_stats = catch (fetch "/mno/stats") (λ _. stats (record {
    total_profiles = 0;
    active_sessions = 0;
    total_downloads = 0;
    success_rate = none;
    failed_count = 0;
  }))
