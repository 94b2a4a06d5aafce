-- ===== src/Smdp/History.antt =====
-- `DownloadHistoryStore` of pysim/osmo-smdpp.py, as the list that it keeps; its file is in `File`,
-- and an error of writing it is logged only.
pub mod Updates
pub mod File
use virtual_rsp.Common.{
  ℕ, [], ◌∷◌, List, ◌++◌, Bool, false, ◌==◌, Option, none, some, String, truthy, if◌then◌else◌,
}

-- A final result: a text, or a choice as the pair that the ASN.1 decoder makes of it.
pub data FinalResult : Type 0 where
  text : String → FinalResult
  choice : String → List ℕ → FinalResult

-- `result == 'success'`; a pair equals no text
unfoldable pub is_success : FinalResult → Bool
is_success (text s) = s == "success"
is_success (choice c v) = false

-- `if final_result`; a pair of two is true
unfoldable pub kept_result : Option FinalResult → Option FinalResult → Option FinalResult
kept_result (some (text s)) old = if truthy s then some (text s) else old
kept_result (some (choice c v)) old = some (choice c v)
kept_result none old = old

pub record Download : Type 0 where
  pub transaction_id : String
  pub eid : Option (List ℕ)
  pub iccid : String
  pub matching_id : String
  pub status : String
  pub timestamp : String
  pub final_result : Option FinalResult

unfoldable pub record_download :
    String → String → Option (List ℕ) → String → String → String → List Download → List Download
record_download now tid eid iccid matching_id status history =
    history
    ++ record {
      transaction_id = tid;
      eid = eid;
      iccid = iccid;
      matching_id = matching_id;
      status = status;
      timestamp = now;
      final_result = none;
    }
      ∷ []

-- The record that is found, with its new values; an empty result is not stored.
unfoldable pub updated : String → Option FinalResult → Download → Download
unfolding kept_result
updated status final d = record d {
  status = status;
  final_result = kept_result final d.final_result;
}

-- the first record of the transaction is changed
unfoldable pub update_download :
    String → String → Option FinalResult → List Download → List Download
unfolding updated
update_download tid status final [] = []
update_download tid status final (d ∷ ds) =
    let rest = update_download tid status final ds in
    if d.transaction_id == tid then updated status final d ∷ ds else d ∷ rest
