-- ===== src/Smdp/Api.antt =====
-- The wrapper of the RSP handlers in pysim/osmo-smdpp.py: the headers of a request, the header of
-- an answer, and what becomes of an `ApiError`. The JSON text of a body is its fields.
use virtual_rsp.Common.{
  ◌≡◌, refl, sym, ap, ◌∙◌, ◌⊎◌, inl, inr, [], ◌∷◌, ◌++◌, Bool, true, false, not, ◌&&◌, Option, none,
  some, String, Result, ok, err, ◌>>◌, Error, raise_if, ok-injective, err-ne-ok, eq_iff, key_error,
  assertion_error, value_error, index_error, attribute_error, os_error, exception,
  invalid_signature, verify_error, api_error, text_starts_with, truthy, if◌then◌else◌,
}
use virtual_rsp.Common.Exec.{Exec, continue, continue-cases}
use virtual_rsp.Smdp.Server.{Server}
use virtual_rsp.Smdp.Authenticate.{Fields}

pub record Headers : Type 0 where
  pub content_type : Option String
  pub admin_protocol : Option String

unfoldable pub is_json : Option String → Bool
is_json none = false
is_json (some t) = truthy t && text_starts_with t "application/json"

unfoldable pub is_rsp : Option String → Bool
is_rsp none = true
is_rsp (some p) = if truthy p then text_starts_with p "gsma/rsp/v" else true

unfoldable pub validate_request_headers : Headers → Result (Unit {0})
unfolding is_json is_rsp
validate_request_headers h = do
  raise_if (not (is_json h.content_type)) (api_error "1.2.1" "2.1" "Invalid Content-Type header")
  raise_if (not (is_rsp h.admin_protocol))
      (api_error "1.2.2" "2.1" "Unsupported X-Admin-Protocol version")

unfoldable pub optional_field : String → Option String → Fields
optional_field key none = []
optional_field key (some v) = if truthy v then (key, v) ∷ [] else []

unfoldable pub build_status_code : String → String → Option String → Option String → Fields
unfolding optional_field
build_status_code subject_code reason_code subject_id message =
    (("subjectCode", subject_code) ∷ ("reasonCode", reason_code) ∷ [])
    ++ optional_field "subjectIdentifier" subject_id
    ++ optional_field "message" message

-- an answer with its `functionExecutionStatus`
pub record Answer : Type 0 where
  pub status : String
  pub status_code_data : Fields
  pub body : Fields

unfoldable pub build_resp_header : Fields → String → Fields → Answer
build_resp_header js status status_code_data = record {
  status = status;
  status_code_data = status_code_data;
  body = js;
}

-- the body of a response: empty, or an answer
pub data Reply : Type 0 where
  nothing : Reply
  answered : Answer → Reply

-- `handle_apierror`; other exceptions are not handled
unfoldable pub handle_error : Error → Result Reply
unfolding build_status_code build_resp_header
handle_error (api_error subject_code reason_code message) = ok (
    answered (
      build_resp_header [] "Failed"
        (build_status_code subject_code reason_code none (some message))))
handle_error (key_error k) = err (key_error k)
handle_error assertion_error = err assertion_error
handle_error (value_error m) = err (value_error m)
handle_error index_error = err index_error
handle_error attribute_error = err attribute_error
handle_error os_error = err os_error
handle_error (exception m) = err (exception m)
handle_error invalid_signature = err invalid_signature
handle_error (verify_error m) = err (verify_error m)

unfoldable pub reply_to : Result (Option Fields) → Result Reply
unfolding handle_error build_resp_header
reply_to (ok none) = ok nothing
reply_to (ok (some fields)) = ok (answered (build_resp_header fields "Executed-Success" []))
reply_to (err e) = handle_error e

-- `rsp_api_wrapper` around a handler, whose request is already decoded
unfoldable pub api_wrapper : Exec Server (Option Fields) → Headers → Exec Server Reply
unfolding validate_request_headers reply_to
api_wrapper handler headers s =
    let (result, after) = continue (validate_request_headers headers) (λ _. handler) s in
    (reply_to result, after)

answered_injective : {a b : Answer} → answered a ≡ answered b → a ≡ b
answered_injective h = cc

reply_inversion :
    (r : Result (Option Fields)) (a : Answer)
    → reply_to r ≡ ok (answered a)
    → ((a.status ≡ "Executed-Success") × (r ≡ ok (some a.body)))
      ⊎ ((sc rc m : String) × (r ≡ err (api_error sc rc m))
          × (a.status ≡ "Failed")
          × (a.status_code_data ≡ build_status_code sc rc none (some m)))
unfolding reply_to handle_error build_resp_header
reply_inversion (ok none) a h = absurd (cc)
reply_inversion (ok (some fields)) a h =
    let e = answered_injective (ok-injective h) in
    inl (sym (ap (λ (x : Answer). x.status) e), ap (λ (x : Answer). ok (some x.body)) e)
reply_inversion (err (api_error sc rc m)) a h =
    let e = answered_injective (ok-injective h) in
    inr (
      sc,
      rc,
      m,
      refl,
      sym (ap (λ (x : Answer). x.status) e),
      sym (ap (λ (x : Answer). x.status_code_data) e),
    )
reply_inversion (err (key_error k)) a h = absurd (cc)
reply_inversion (err assertion_error) a h = absurd (cc)
reply_inversion (err (value_error m)) a h = absurd (cc)
reply_inversion (err index_error) a h = absurd (cc)
reply_inversion (err attribute_error) a h = absurd (cc)
reply_inversion (err os_error) a h = absurd (cc)
reply_inversion (err (exception m)) a h = absurd (cc)
reply_inversion (err invalid_signature) a h = absurd (cc)
reply_inversion (err (verify_error m)) a h = absurd (cc)

not_executed : (s : String) → s ≡ "Failed" → s ≡ "Executed-Success" → ⊥
not_executed s a b = let e = (eq_iff "Failed" "Executed-Success").1 (sym a ∙ b) in cc

-- a result that is answered with success
executed :
    (r : Result (Option Fields)) (a : Answer)
    → reply_to r ≡ ok (answered a)
    → a.status ≡ "Executed-Success"
    → r ≡ ok (some a.body)
executed r a h e = elim (reply_inversion r a h) [
  | inl (_, same) ↦ same
  | inr (_, _, _, _, f, _) ↦ absurd (not_executed a.status f e)
]

-- An answer says "Executed-Success" only if the headers of the request are valid and the handler has
-- returned the fields of the answer, and then the server is as the handler has left it.
pub api_wrapper_lem :
    (handler : Exec Server (Option Fields)) (headers : Headers) (s : Server) (a : Answer)
    → (api_wrapper handler headers s).0 ≡ ok (answered a)
    → a.status ≡ "Executed-Success"
    → (validate_request_headers headers ≡ ok tt)
      × ((handler s).0 ≡ ok (some a.body))
      × ((api_wrapper handler headers s).1 ≡ (handler s).1)
unfolding api_wrapper
api_wrapper_lem handler headers s a h e =
    elim (continue-cases (validate_request_headers headers) (λ _. handler) s) [
      | inl (_, v, q) ↦ (
        v,
        executed (handler s).0 a
            (ap (λ (m : Result (Option Fields) × Server). reply_to m.0) (sym q) ∙ h) e,
        ap (λ (m : Result (Option Fields) × Server). m.1) q,
      )
      | inr (x, q) ↦ absurd (
          err-ne-ok (
            executed (err x) a
              (ap (λ (m : Result (Option Fields) × Server). reply_to m.0) (sym q) ∙ h) e))
    ]
