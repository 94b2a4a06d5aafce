-- ===== src/Smdp/Examples.antt =====
-- A run of the SM-DP+ server with simple packages, and the theorems applied to it.
use virtual_rsp.Common.{◌≡◌, refl, [], ◌∷◌, some, ok, replicate}
use virtual_rsp.Certs.{
  new_set, add_intermediate_cert, put_cert, verify_cert_chain, chain_round, find_cert, follow,
}
use virtual_rsp.Common.Dict.{find, put}
use virtual_rsp.Smdp.Eid.{validate_eid_range}
use virtual_rsp.Smdp.Session.{new_session, gen_store_metadata_request}
use virtual_rsp.Smdp.History.{choice}
use virtual_rsp.Smdp.Server.{extract_euicc_signed1, extract_euicc_signed2, installation_result}
use virtual_rsp.Smdp.Authenticate.{ci_get_cert_for_pkid, keep_session, authenticate_client}
use virtual_rsp.Smdp.Initiate.{
  initiate_authentication, before_colon, validate_certificate_chain, choose_ci, open_session,
  check_verification, initiate_steps,
}
use virtual_rsp.Bsp.Algo.{encrypt_and_mac_one, mac_only_one, max_payload_size, encrypt, auth}
use virtual_rsp.Bsp.Keys.{from_kdf}
use virtual_rsp.Bsp.Stream.{encrypt_and_mac, mac_only, over_segments}
use virtual_rsp.BoundProfile.Toy.{field}
use virtual_rsp.Smdp.Download.{
  DownloadInput, get_bound_profile_package, download_steps, deliver, store_bound,
}
use virtual_rsp.Smdp.Closing.{
  cancel_session, end_session, cancel_checks, read_notification, handle_notification,
}
use virtual_rsp.Smdp.Trust.{Accepted, authenticate_client_lem}
use virtual_rsp.Smdp.Delivery.{IsRead, IsPrepared}
use virtual_rsp.Smdp.Safety.{AreSafe, IsVetted}
use virtual_rsp.Smdp.Ending.{Ended, cancel_session_lem, IsNotedFailed, handle_notification_fails}
use virtual_rsp.Smdp.Runs.{call, run, run-AreSafe, get_bound_profile_package_lem}
use virtual_rsp.Smdp.Api.{
  Headers, Answer, answered, api_wrapper, validate_request_headers, api_wrapper_lem,
}
use virtual_rsp.Smdp.Setup.{
  ext, config, empty, first, auth_request, calls, request, cancel_request, opened, running,
}

opened_by_first : run ext config (first ∷ []) empty ≡ opened
unfolding run call initiate_authentication put find before_colon ci_get_cert_for_pkid
    validate_certificate_chain choose_ci open_session new_set verify_cert_chain chain_round follow
    check_verification initiate_steps
opened_by_first = refl

auth_answered :
    (authenticate_client ext config [] auth_request opened).0
    ≡ ok (
        ("transactionId", "T")
        ∷ ("profileMetadata", "64")
        ∷ ("smdpSigned2", "64")
        ∷ ("smdpSignature2", "64")
        ∷ ("smdpCertificate", "64")
        ∷ [])
unfolding authenticate_client put find ci_get_cert_for_pkid new_set add_intermediate_cert put_cert
    verify_cert_chain chain_round find_cert follow validate_eid_range keep_session new_session
    extract_euicc_signed1 gen_store_metadata_request
auth_answered = refl

authenticate_client_example :
    Accepted ext config auth_request opened
      (authenticate_client ext config [] auth_request opened).1
authenticate_client_example =
    authenticate_client_lem ext config [] auth_request opened auth_answered

empty-AreSafe : AreSafe ext config empty.rss
unfolding find
empty-AreSafe tid ss h = absurd (cc)

run-AreSafe_example : AreSafe ext config (run ext config calls empty).rss
run-AreSafe_example = run-AreSafe ext config calls empty empty-AreSafe

delivered :
    (get_bound_profile_package ext config
      (record { ot = (5, "secp256r1"); nonce = [] })
      "now"
      request
      (run ext config calls empty)).0
    ≡ ok (("transactionId", "T") ∷ ("boundProfilePackage", "64") ∷ [])
unfolding run call initiate_authentication put find before_colon ci_get_cert_for_pkid
    validate_certificate_chain choose_ci open_session new_set verify_cert_chain chain_round follow
    check_verification initiate_steps authenticate_client add_intermediate_cert put_cert find_cert
    validate_eid_range keep_session new_session extract_euicc_signed1 gen_store_metadata_request
    get_bound_profile_package download_steps deliver store_bound extract_euicc_signed2
    encrypt_and_mac over_segments encrypt_and_mac_one max_payload_size encrypt auth from_kdf
    mac_only mac_only_one field
delivered = refl

get_bound_profile_package_example :
    (i : DownloadInput) × IsRead ext config request (run ext config calls empty) i
    × (p : IsPrepared ext config i) × (v : IsVetted ext config i.ss) × (v.euicc ≡ p.euicc)
get_bound_profile_package_example =
    get_bound_profile_package_lem ext config calls empty
      (record { ot = (5, "secp256r1"); nonce = [] }) "now" request refl delivered

cancelled :
    (cancel_session ext config cancel_request running).0 ≡ ok (some (("transactionId", "T") ∷ []))
unfolding cancel_session cancel_checks end_session find
cancelled = refl

cancel_session_example :
    Ended ext config cancel_request running (cancel_session ext config cancel_request running).1
cancel_session_example =
    cancel_session_lem ext config cancel_request running (("transactionId", "T") ∷ []) cancelled

read :
    read_notification ext config (some "n")
    ≡ ok (installation_result [] (choice "successResult" []) (replicate 64 0) [])
unfolding read_notification
read = refl

handle_notification_fails_example :
    IsNotedFailed ext config "T" running (handle_notification ext config (some "n") running).1
handle_notification_fails_example =
    handle_notification_fails ext config (some "n") running [] "successResult" [] (replicate 64 0)
      [] read

abbrev headers : Headers
headers = record { content_type = some "application/json"; admin_protocol = some "gsma/rsp/v2.2.0" }

abbrev cancel_answer : Answer
cancel_answer = record {
  status = "Executed-Success";
  status_code_data = [];
  body = ("transactionId", "T") ∷ [];
}

cancel_answered :
    (api_wrapper (cancel_session ext config cancel_request) headers running).0
    ≡ ok (answered cancel_answer)
unfolding api_wrapper cancel_session cancel_checks end_session find validate_request_headers
cancel_answered = refl

api_wrapper_example :
    (validate_request_headers headers ≡ ok tt)
    × ((cancel_session ext config cancel_request running).0 ≡ ok (some cancel_answer.body))
    × ((api_wrapper (cancel_session ext config cancel_request) headers running).1
        ≡ (cancel_session ext config cancel_request running).1)
api_wrapper_example =
    api_wrapper_lem (cancel_session ext config cancel_request) headers running cancel_answer
      cancel_answered refl
