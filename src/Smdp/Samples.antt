-- ===== src/Smdp/Samples.antt =====
-- Concrete profiles, identifiers and histories, and the theorems on them.
use virtual_rsp.Smdp.Mno.{mno_upload_profile}
use virtual_rsp.Common.{
  ◌+◌, ◌↔◌, ◌++◌, length, ℕ, ◌≡◌, refl, [], ◌∷◌, true, some, ok, replicate, arith,
}
use virtual_rsp.Smdp.Eid.{validate_eid_range}
use virtual_rsp.Smdp.Oid.{decode_object_identifier}
use virtual_rsp.Smdp.Oid.RoundTrip.{encode_object_identifier, decode-encode_object_identifier}
use virtual_rsp.Smdp.Eid.{Text, is_in, is_iin, starts_with, upper}
use virtual_rsp.Smdp.Eid.Range.{listed, validate_eid_range_iff}
use virtual_rsp.Smdp.History.File.{
  HistoryStore, whole, Recorded, load, writing_of, has_transaction, update_saved, record_all,
  load-update_saved,
}
use virtual_rsp.Common.{Bool, false, ◌==◌}
use virtual_rsp.Smdp.History.{Download, text, choice, record_download, update_download}
use virtual_rsp.Smdp.History.Updates.{records_of, first_updated, update_download_lem}
use virtual_rsp.Common.{none, List, String, ◌≢◌}
use virtual_rsp.Smdp.Setup.{eum, config, opened}

uploaded :
    (mno_upload_profile config (λ _. true) (some "N.der") (6 ∷ []) opened).0
    ≡ ok (201, "Profile uploaded")
unfolding mno_upload_profile
uploaded = refl

-- 2.999.10, the identifier on which the source tests its decoder
encoded : encode_object_identifier 2 999 (10 ∷ []) ≡ 0x88 ∷ 0x37 ∷ 0x0A ∷ []
encoded = refl

decode-encode_object_identifier_example :
    decode_object_identifier
      (encode_object_identifier 2 999 (10 ∷ []) ++ 5 ∷ [])
      4
      (4 + length (encode_object_identifier 2 999 (10 ∷ [])))
    ≡ ok (2 ∷ 999 ∷ 10 ∷ [])
decode-encode_object_identifier_example =
    decode-encode_object_identifier 2 999 (10 ∷ []) 4 (5 ∷ []) (omega arith)
      (λ h. absurd (omega (arith, h)))

validate_eid_range_iff_example : (validate_eid_range (replicate 32 56) eum ≡ true) ↔ (
    (length {0} {A = ℕ} (replicate 32 56) ≡ 32)
    × ((p : Text) × (is_in p (listed eum) ≡ true)
        × (is_iin p ≡ true)
        × (starts_with (upper (replicate 32 56)) p ≡ true)))
validate_eid_range_iff_example = validate_eid_range_iff (replicate 32 56) eum

abbrev downloads : List Download
downloads =
    record_download "now" "U" none "891" "M" "bpp_sent"
      (record_download "now" "T" none "892" "N" "bpp_sent" [])

update_download_example :
    (records_of "T" (update_download "T" "failed" (some (text "no")) downloads)
      ≡ first_updated "failed" (some (text "no")) (records_of "T" downloads))
    × ((other : String)
        → other ≢ "T"
        → records_of other (update_download "T" "failed" (some (text "no")) downloads)
          ≡ records_of other downloads)
update_download_example = update_download_lem "T" "failed" (some (text "no")) downloads

-- `successResult` has the AID and the answer of the eUICC as bytes
abbrev has_bytes : String → List ℕ → Bool
has_bytes c v = c == "successResult"

abbrev saved_downloads : HistoryStore
saved_downloads = record { history = downloads; file = whole downloads }

abbrev next_download : Recorded
next_download = record {
  stopped = false;
  now = "later";
  tid = "V";
  eid = none;
  iccid = "893";
  matching_id = "M";
  status = "bpp_sent";
}

found_t : has_transaction "T" downloads ≡ true
unfolding has_transaction record_download
found_t = refl

load-update_saved_example :
    (load
      (record_all has_bytes (next_download ∷ []) (
        update_saved has_bytes
          (writing_of false)
          "T"
          "success"
          (some (choice "successResult" (4 ∷ [])))
          saved_downloads)).file).history
    ≡ []
load-update_saved_example =
    load-update_saved has_bytes "T" "success" "successResult" (4 ∷ []) false saved_downloads
      (next_download ∷ []) refl found_t
