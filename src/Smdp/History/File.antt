-- ===== src/Smdp/History/File.antt =====
-- The file of `DownloadHistoryStore` (pysim/osmo-smdpp.py), and what becomes of it when a record
-- cannot be written as JSON.
use virtual_rsp.Common.{
  ℕ, String, Bool, true, false, not, ◌&&◌, ◌==◌, Option, none, some, List, [], ◌∷◌, ◌++◌, ◌≡◌, refl,
  sym, ap, ◌∙◌, inl, inr, Bool-cases, if◌then◌else◌,
}
use virtual_rsp.Smdp.History.{
  FinalResult, text, choice, Download, kept_result, updated, record_download, update_download,
}

-- No file, a file that is not JSON, or the JSON of a history.
pub data HistoryFile : Type 0 where
  missing broken : HistoryFile
  whole : List Download → HistoryFile

-- `history` and the file
pub record HistoryStore : Type 0 where
  pub history : List Download
  pub file : HistoryFile

-- How writing goes apart from the records: it ends, `open` raises, or it stops after `open`.
pub data Writing : Type 0 where
  ends not_opened stops : Writing

-- `__init__` with `_load`: an error is logged and the history stays empty
unfoldable pub load : HistoryFile → HistoryStore
load missing = record { history = []; file = missing }
load broken = record { history = []; file = broken }
load (whole ds) = record { history = ds; file = whole ds }

-- A download that is recorded, with how its writing goes; the file is opened.
pub record Recorded : Type 0 where
  pub stopped : Bool
  pub now : String
  pub tid : String
  pub eid : Option (List ℕ)
  pub iccid : String
  pub matching_id : String
  pub status : String

abbrev pub writing_of : Bool → Writing
writing_of true = stops
writing_of false = ends

unfoldable pub has_transaction : String → List Download → Bool
has_transaction tid [] = false
has_transaction tid (d ∷ ds) =
    let rest = has_transaction tid ds in if d.transaction_id == tid then true else rest

and_false : (b : Bool) → b && false ≡ false
and_false true = refl
and_false false = refl

-- `bytes_in` is whether the decoded value of a choice has bytes in it.
module _ (bytes_in : String → List ℕ → Bool) where
  -- `json.dump` raises on bytes
  unfoldable pub is_json_result : Option FinalResult → Bool
  is_json_result (some (choice c v)) = not (bytes_in c v)
  is_json_result (some (text s)) = true
  is_json_result none = true

  unfoldable pub is_json : List Download → Bool
  unfolding is_json_result
  is_json [] = true
  is_json (d ∷ ds) = is_json_result d.final_result && is_json ds

  -- `_save`: the file is emptied by `open`, and an error is logged
  unfoldable pub save : Writing → HistoryStore → HistoryStore
  unfolding is_json
  save not_opened s = s
  save stops s = record s { file = broken }
  save ends s = record s { file = if is_json s.history then whole s.history else broken }

  unfoldable pub record_saved :
      Writing
      → String
      → String
      → Option (List ℕ)
      → String
      → String
      → String
      → HistoryStore
      → HistoryStore
  unfolding save
  record_saved w now tid eid iccid matching_id status s =
      save w (record s { history = record_download now tid eid iccid matching_id status s.history })

  -- nothing is saved if the transaction is not found
  unfoldable pub update_saved :
      Writing → String → String → Option FinalResult → HistoryStore → HistoryStore
  unfolding has_transaction save
  update_saved w tid status final s =
      if has_transaction tid s.history
      then save w (record s { history = update_download tid status final s.history })
      else s

  unfoldable pub record_all : List Recorded → HistoryStore → HistoryStore
  unfolding record_saved
  record_all [] s = s
  record_all (r ∷ rs) s =
      record_all rs
        (record_saved (writing_of r.stopped) r.now r.tid r.eid r.iccid r.matching_id r.status s)

  is_json-append : (ds es : List Download) → is_json ds ≡ false → is_json (ds ++ es) ≡ false
  unfolding is_json
  is_json-append [] es h = absurd (cc)
  is_json-append (d ∷ ds) es h = elim (Bool-cases (is_json_result d.final_result)) [
    | inl good ↦
        let rest : is_json ds ≡ false = sym (ap (λ (b : Bool). b && is_json ds) good) ∙ h in
        rw good (is_json-append ds es rest)
    | inr bad ↦ rw bad refl
  ]

  -- A choice with bytes that is stored as the result cannot be written.
  is_json-update_download :
      (tid status c : String) (v : List ℕ) (ds : List Download)
      → bytes_in c v ≡ true
      → has_transaction tid ds ≡ true
      → is_json (update_download tid status (some (choice c v)) ds) ≡ false
  unfolding is_json is_json_result has_transaction update_download updated kept_result
  is_json-update_download tid status c v [] b h = absurd (cc)
  is_json-update_download tid status c v (d ∷ ds) b h =
      elim (Bool-cases (d.transaction_id == tid)) [
        | inl found ↦ rw found (rw b refl)
        | inr other ↦
            let later : has_transaction tid ds ≡ true =
              sym (ap (λ (b : Bool). if b then true else has_transaction tid ds) other) ∙ h in
            rw other (
              rw (is_json-update_download tid status c v ds b later)
                (and_false (is_json_result d.final_result)))
      ]

  file-save :
      (stopped : Bool) (s : HistoryStore)
      → is_json s.history ≡ false
      → (save (writing_of stopped) s).file ≡ broken
  unfolding save
  file-save true s h = refl
  file-save false s h = rw h refl

  history-save : (w : Writing) (s : HistoryStore) → (save w s).history ≡ s.history
  unfolding save
  history-save ends s = refl
  history-save not_opened s = refl
  history-save stops s = refl

  file-record_all :
      (rs : List Recorded) (s : HistoryStore)
      → is_json s.history ≡ false
      → s.file ≡ broken
      → (record_all rs s).file ≡ broken
  unfolding record_all record_saved record_download
  file-record_all [] s h f = f
  file-record_all (r ∷ rs) s h f =
      let longer = is_json-append s.history _ h in
      file-record_all rs _ (ap is_json (history-save (writing_of r.stopped) _) ∙ longer)
        (file-save r.stopped _ longer)

  -- When a notification stores its result as the ASN.1 decoder gives it and there are bytes in
  -- it, the history is lost: however many downloads are recorded afterwards, the history that is loaded
  -- when the server starts again is empty.
  pub load-update_saved :
      (tid status c : String) (v : List ℕ) (stopped : Bool) (s : HistoryStore) (rs : List Recorded)
      → bytes_in c v ≡ true
      → has_transaction tid s.history ≡ true
      → (load
          (record_all rs
            (update_saved (writing_of stopped) tid status (some (choice c v)) s)).file).history
        ≡ []
  unfolding load update_saved
  load-update_saved tid status c v stopped s rs b found =
      let bad = is_json-update_download tid status c v s.history b found in
      let u : HistoryStore = record s {
        history = update_download tid status (some (choice c v)) s.history;
      } in
      let gone : (record_all rs (save (writing_of stopped) u)).file ≡ broken =
        file-record_all rs (save (writing_of stopped) u)
          (ap is_json (history-save (writing_of stopped) u) ∙ bad) (file-save stopped u bad) in
      rw found (ap (λ (f : HistoryFile). (load f).history) gone)
