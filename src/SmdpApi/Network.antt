-- ===== src/SmdpApi/Network.antt =====
-- The endpoints for the MNO console of pysim/osmo-smdpp.py behind their routes, and what the client
-- of mno/services/smdp_api.py relies on of the network.
use virtual_rsp.Common.{
  ℕ, String, Bool, true, false, inl, inr, refl, not, ◌&&◌, ◌||◌, leb, nat_beq, ◌==◌, some, ◌≤◌, ◌<◌,
  ltb, Bool-cases, arith, ltb→lt, Result, ok, err, Error, truthy, drop_chars, text_starts_with, ◌≡◌,
  ◌⊎◌, if◌then◌else◌,
}
use Prim.Native.Char.{code}
use Prim.Native.String.{◌++◌ as concat}
use virtual_rsp.Common.Exec.{pure, lift, catch, continue, ◌>>◌}
use virtual_rsp.Smdp.Server.{Config, Server}
use virtual_rsp.Smdp.Mno.{
  Response, has_slash, mno_list_profiles, mno_upload_profile, mno_delete_profile, mno_list_sessions,
  mno_list_downloads, mno_get_stats,
}
use virtual_rsp.SmdpApi.{
  Body, text, profiles, sessions, downloads, stats, Request, get, post, delete, Http,
  raise_for_status,
}

-- An exception of a handler is answered by an internal server error.
unfoldable pub answer : Result Response × Server → (ℕ × Body) × Server
answer (ok (status, t), s) = ((status, text t), s)
answer (err e, s) = ((500, text ""), s)

abbrev pub not_found : ℕ × Body
not_found = (404, text "")

-- The characters that an address is sent with as they are: letters, digits, `-`, `_` and `/`. Others
-- may be quoted, end the path (`?` and `#`), or be dots of a segment that is taken away.
abbrev pub is_plain_code : ℕ → Bool
is_plain_code c =
    (leb b'0' c && leb c b'9')
    || ((leb b'A' c && leb c b'Z')
        || ((leb b'a' c && leb c b'z') || (nat_beq c b'-' || (nat_beq c b'_' || nat_beq c b'/'))))

unfoldable pub is_plain : String → Bool
is_plain String.[] = true
is_plain (String.◌∷◌ c s) = is_plain_code (code c) && is_plain s

-- A text that a header is sent with as it is: ASCII without blanks and control characters.
unfoldable pub is_header_text : String → Bool
is_header_text String.[] = true
is_header_text (String.◌∷◌ c s) = (leb 33 (code c) && leb (code c) 126) && is_header_text s

-- A request that arrives as it was sent, if it arrives.
unfoldable pub is_literal : Request → String → Bool
unfolding is_plain is_header_text
is_literal (post name content) path = is_header_text name && is_plain path
is_literal get path = is_plain path
is_literal delete path = is_plain path

-- An ID that the address of a deletion brings as it is: it is not empty, has no slash, and needs no
-- quoting.
abbrev pub is_segment : String → Bool
is_segment m = truthy m && (not (has_slash m) && is_plain m)

module _ (g : Config) (writable : String → Bool) (modified : String → String) (now : String) where
  unfoldable pub shown : String → Server → ℕ × Body
  shown path s =
      if path == "/mno/profiles"
      then (200, profiles (mno_list_profiles g modified s))
      else (if path == "/mno/sessions"
          then (200, sessions (mno_list_sessions g now s))
          else (if path == "/mno/downloads"
              then (200, downloads (mno_list_downloads g s))
              else (if path == "/mno/stats" then (200, stats (mno_get_stats g s)) else not_found)))

  -- The handler that is routed to; for addresses that arrive as they were sent.
  unfoldable pub serve : Request → String → Server → (ℕ × Body) × Server
  unfolding answer shown
  serve get path s = (shown path s, s)
  serve (post name content) path s =
      if path == "/mno/profiles"
      then answer (mno_upload_profile g writable (some name) content s)
      else (not_found, s)
  serve delete path s =
      let matching_id = drop_chars 14 path in
      if text_starts_with path "/mno/profiles/" && not (has_slash matching_id)
      then answer (mno_delete_profile g matching_id s)
      else (not_found, s)

  -- A request whose path and header need no quoting does not arrive, it arrives and its answer does
  -- not, or both do: the network may fail, but it neither repeats nor changes what it brings.
  -- Nothing is said of other requests.
  pub record IsNetwork (h : Http Server) (base_url : String) : Type 0 where
    pub outcome :
        (request : Request) (path : String) (s : Server)
        → is_literal request path ≡ true
        → ((e : Error) × (h.send request (concat base_url path) s ≡ (err e, s)))
          ⊎ (((e : Error) × (h.send request (concat base_url path) s
                  ≡ (err e, (serve request path s).1)))
              ⊎ (h.send request (concat base_url path) s
                  ≡ (ok (serve request path s).0, (serve request path s).1)))

pub both : (a b : Bool) → a && b ≡ true → (a ≡ true) × (b ≡ true)
both true b h = (refl, h)
both false b h = absurd (cc)

-- The request gave no answer, or one whose status tells an error.
abbrev pub Failed : Result (ℕ × Body) → Type 0
Failed reply =
    ((e : Error) × (reply ≡ err e))
    ⊎ ((status : ℕ) × (body : Body) × (reply ≡ ok (status, body)) × (400 ≤ status) × (status < 600))

-- How a method that catches every exception ends, from what its request brings about.
unfoldable pub concluded : {W : Type 0} → Result (ℕ × Body) × W → Result Bool × W
unfolding raise_for_status
concluded r =
    catch (λ _. continue r.0 (λ reply. lift (raise_for_status reply.0) >> pure true) r.1)
      (λ _. false) r.1

leb→le : (a b : ℕ) → leb a b ≡ true → a ≤ b
leb→le a b h = ground arith

-- It returns a Boolean, and false if its request has failed only.
pub concluded_cases :
    {W : Type 0} (r : Result (ℕ × Body) × W)
    → (((concluded r).0 ≡ ok false) × Failed r.0) ⊎ ((concluded r).0 ≡ ok true)
unfolding concluded raise_for_status
concluded_cases (err e, w) = inl (refl, inl (e, refl))
concluded_cases (ok (status, body), w) = elim (Bool-cases (leb 400 status && ltb status 600)) [
  | inr fine ↦ rw fine (inr refl)
  | inl bad ↦
      let (least, most) = both (leb 400 status) (ltb status 600) bad in
      rw bad (inl (refl, inr (status, body, refl, leb→le 400 status least, ltb→lt status 600 most)))
]
