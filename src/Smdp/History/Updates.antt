-- ===== src/Smdp/History/Updates.antt =====
-- What an update changes in the download history of pysim/osmo-smdpp.py.
use virtual_rsp.Common.{
  ◌≡◌, ◌≢◌, refl, sym, ◌∙◌, inl, inr, Bool-cases, [], ◌∷◌, List, ◌==◌, eq_iff, str_ne, Option,
  String, if◌then◌else◌,
}
use virtual_rsp.Smdp.History.{Download, FinalResult, updated, update_download}

-- the records of a transaction
abbrev pub records_of : String → List Download → List Download
records_of tid [] = []
records_of tid (d ∷ ds) =
    let rest = records_of tid ds in if d.transaction_id == tid then d ∷ rest else rest

-- the first record, updated
abbrev pub first_updated : String → Option FinalResult → List Download → List Download
first_updated status final [] = []
first_updated status final (d ∷ ds) = updated status final d ∷ ds

records_cons :
    (tid : String) (d : Download) (ds es : List Download)
    → records_of tid ds ≡ records_of tid es
    → records_of tid (d ∷ ds) ≡ records_of tid (d ∷ es)
records_cons tid d ds es h = rw h refl

others_kept :
    (tid other status : String) (final : Option FinalResult) (history : List Download)
    → other ≢ tid
    → records_of other (update_download tid status final history) ≡ records_of other history
unfolding update_download updated
others_kept tid other status final [] n = refl
others_kept tid other status final (d ∷ ds) n = elim (Bool-cases (d.transaction_id == tid)) [
  | inl t ↦
      let e = str_ne d.transaction_id other (λ e. n (sym e ∙ (eq_iff d.transaction_id tid).0 t)) in
      rw t (rw e refl)
  | inr f ↦ rw f (
      records_cons other d (update_download tid status final ds) ds
        (others_kept tid other status final ds n))
]

own_updated :
    (tid status : String) (final : Option FinalResult) (history : List Download)
    → records_of tid (update_download tid status final history)
      ≡ first_updated status final (records_of tid history)
unfolding update_download updated
own_updated tid status final [] = refl
own_updated tid status final (d ∷ ds) = elim (Bool-cases (d.transaction_id == tid)) [
  | inl t ↦ rw t (rw t refl)
  | inr f ↦ rw f (rw f (own_updated tid status final ds))
]

-- An update of the history changes the first record of its transaction and no other record of it,
-- and it keeps the records of every other transaction.
pub update_download_lem :
    (tid status : String) (final : Option FinalResult) (history : List Download)
    → (records_of tid (update_download tid status final history)
        ≡ first_updated status final (records_of tid history))
      × ((other : String)
          → other ≢ tid
          → records_of other (update_download tid status final history) ≡ records_of other history)
update_download_lem tid status final history =
    (own_updated tid status final history, λ other n. others_kept tid other status final history n)
