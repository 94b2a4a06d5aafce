-- ===== src/Smdp/Profiles.antt =====
-- The profiles that the MNO console uploads and deletes in pysim/osmo-smdpp.py are those that
-- `authenticateClient` finds.
use Prim.Native.String.{◌++◌ as concat}
use text.Mathlib.TextLemmas.{append_assoc, cons-append}
use virtual_rsp.Common.{
  ℕ, suc, ◌+◌, ◌*◌, ◌≤◌, ◌≡◌, ◌≢◌, refl, sym, ap, ◌∙◌, arith, inl, inr, Bool-cases, [], ◌∷◌, List,
  Bool, true, false, ◌&&◌, ◌==◌, eq_iff, Option, none, some, String, Result, ok, err, ok-injective,
  length, api_error, required, text_starts_with, truthy, if◌then◌else◌,
}
use virtual_rsp.Bsp.Padding.{Bytes}
use virtual_rsp.Common.Dict.{Dict, find, put, find-put, find-remove}
use virtual_rsp.Smdp.History.{Download}
use virtual_rsp.Smdp.Server.{Ext, Config, Server}
use virtual_rsp.Smdp.Authenticate.{with_slash, join_path, profile_path, profile_file}
use virtual_rsp.Smdp.Mno.{
  Response, ends_with_der, upload_path, write_upload, mno_upload_profile, mno_delete_profile,
  delete_file, count_status, success_rate, mno_get_stats,
}

same_start : (m : String) → text_starts_with (concat m ".der") "/" ≡ text_starts_with m "/"
same_start String.[] = refl
same_start (String.◌∷◌ c cs) = rw (cons-append c cs ".der") refl

-- an upload under a matching ID goes where the profile of this ID is looked for
pub upload_path_lem :
    (x : Ext) (g : Config) (m : String) → upload_path g (concat m ".der") ≡ profile_path x g m
unfolding upload_path profile_path join_path
upload_path_lem x g m = rw (same_start m) (elim (Bool-cases (text_starts_with m "/")) [
  | inl t ↦ rw t refl
  | inr f ↦ rw f (sym (append_assoc (with_slash g.upp_dir) m ".der"))
])

-- an answer that the other branch does not give comes from this one
chosen :
    (b : Bool) (p q : Result Response × Server) (r : Response)
    → q.0 ≢ ok r
    → (if b then p else q).0 ≡ ok r
    → ((if b then p else q).1 ≡ p.1) × (p.0 ≡ ok r)
chosen true p q r n h = (refl, h)
chosen false p q r n h = absurd (n h)

write_upload_lem :
    (g : Config) (writable : String → Bool) (name : String) (content : Bytes) (s : Server)
    (r : Response)
    → (write_upload g writable name content s).0 ≡ ok r
    → (write_upload g writable name content s).1.files ≡ put (upload_path g name) content s.files
unfolding write_upload
write_upload_lem g writable name content s r h =
    ap (λ (t : Server). t.files) (chosen (writable (upload_path g name)) _ _ r (λ e. cc) h).0

mno_upload_profile_lem :
    (g : Config) (writable : String → Bool) (name : String) (content : Bytes) (s : Server)
    (t : String)
    → (mno_upload_profile g writable (some name) content s).0 ≡ ok (201, t)
    → (mno_upload_profile g writable (some name) content s).1.files
      ≡ put (upload_path g name) content s.files
unfolding mno_upload_profile
mno_upload_profile_lem g writable name content s t h =
    let (same, there) =
      chosen (truthy name && ends_with_der name) (write_upload g writable name content s)
        (ok (400, "Invalid filename"), s) (201, t)
        (λ e. omega (arith, ap (λ (r : Response). r.0) (ok-injective e))) h in
    ap (λ (t : Server). t.files) same ∙ write_upload_lem g writable name content s (201, t) there

-- the path of a matching ID lies in the profile directory
abbrev pub is_inside : Ext → Config → String → Bool
is_inside x g m = text_starts_with (x.realpath (profile_path x g m)) g.upp_dir

-- What `authenticateClient` is given for a matching ID, where a file is found under its path.
abbrev pub given : Ext → Config → String → Option Bytes → Result Bytes
given x g m o =
    if is_inside x g m
    then required (api_error "8.2.6" "3.8" "Refused") o
    else err (api_error "8.2.6" "3.8" "Refused")

found_file :
    (x : Ext) (g : Config) (m : String) (files : Dict Bytes)
    → profile_file x g m files ≡ given x g m (find (profile_path x g m) files)
unfolding profile_file
found_file x g m files = elim (Bool-cases (is_inside x g m)) [
  | inl p ↦ rw p refl
  | inr p ↦ rw p refl
]

-- A profile that is uploaded under a matching ID is the one that `authenticateClient` finds for this
-- matching ID, if its path lies in the profile directory; else this is refused.
pub profile_file-mno_upload_profile :
    (x : Ext) (g : Config) (writable : String → Bool) (m : String) (content : Bytes) (s : Server)
    (t : String)
    → (mno_upload_profile g writable (some (concat m ".der")) content s).0 ≡ ok (201, t)
    → profile_file x g m (mno_upload_profile g writable (some (concat m ".der")) content s).1.files
      ≡ given x g m (some content)
profile_file-mno_upload_profile x g writable m content s t u =
    let written =
      mno_upload_profile_lem g writable (concat m ".der") content s t u
      ∙ ap (λ k. put k content s.files) (upload_path_lem x g m) in
    let there = find-put (profile_path x g m) content s.files in
    rw written
      (found_file x g m (put (profile_path x g m) content s.files) ∙ ap (given x g m) there)

delete_file_lem :
    (path : String) (o : Option Bytes) (s : Server) (g : Config)
    → find path s.files ≡ o
    → find path (delete_file g path o s).1.files ≡ none
unfolding delete_file
delete_file_lem path none s g h = h
delete_file_lem path (some c) s g h = find-remove path s.files

refused_without :
    (x : Ext) (g : Config) (m : String) → given x g m none ≡ err (api_error "8.2.6" "3.8" "Refused")
refused_without x g m = elim (Bool-cases (is_inside x g m)) [
  | inl p ↦ rw p refl
  | inr p ↦ rw p refl
]

-- After a profile is deleted under a matching ID, whether it was there or not, `authenticateClient`
-- refuses this matching ID.
pub profile_file-mno_delete_profile :
    (x : Ext) (g : Config) (m : String) (s : Server)
    → profile_file x g m (mno_delete_profile g m s).1.files
      ≡ err (api_error "8.2.6" "3.8" "Refused")
unfolding mno_delete_profile
profile_file-mno_delete_profile x g m s =
    let path = upload_path g (concat m ".der") in
    let gone =
      ap (λ k. find k (delete_file g path (find path s.files) s).1.files)
        (sym (upload_path_lem x g m))
      ∙ delete_file_lem path (find path s.files) s g refl in
    found_file x g m (delete_file g path (find path s.files) s).1.files
    ∙ ap (given x g m) gone
    ∙ refused_without x g m

not_both : (t : String) → (t == "success") ≡ true → (t == "failed") ≡ true → ⊥
not_both t a b =
    let e =
      (eq_iff "success" "failed").1 (sym ((eq_iff t "success").0 a) ∙ (eq_iff t "failed").0 b) in
    cc

counted :
    (b c : Bool) (m n k : ℕ)
    → (b ≡ true → c ≡ true → ⊥)
    → m + n ≤ k
    → (if b then m + 1 else m) + (if c then n + 1 else n) ≤ suc k
counted true true m n k apart h = absurd (apart refl refl)
counted true false m n k apart h = omega (arith, h)
counted false true m n k apart h = omega (arith, h)
counted false false m n k apart h = omega (arith, h)

count_le :
    (history : List Download)
    → count_status "success" history + count_status "failed" history ≤ length history
unfolding count_status
count_le [] = omega arith
count_le (d ∷ ds) =
    counted (d.status == "success") (d.status == "failed") _ _ (length ds) (not_both d.status)
      (count_le ds)

rate_within :
    (history : List Download) (n d : ℕ)
    → success_rate history ≡ some (n, d)
    → (n ≤ 100 * d) × (d ≡ length history)
unfolding success_rate
rate_within [] n d e = absurd (cc)
rate_within (x ∷ xs) n d e =
    let same : (count_status "success" (x ∷ xs) * 100, length (x ∷ xs)) ≡ (n, d) = cc in
    let c = count_le (x ∷ xs) in
    let a = ap (λ (p : ℕ × ℕ). p.0) same in
    let b = ap (λ (p : ℕ × ℕ). p.1) same in (omega (arith, a, b, c), omega (arith, b))

-- In the statistics the successful and the failed downloads are not more than all downloads, so the
-- rate of successes is a percentage of at most 100.
pub mno_get_stats-within :
    (g : Config) (s : Server)
    → ((mno_get_stats g s).failed_count ≤ (mno_get_stats g s).total_downloads)
      × ((n d : ℕ)
          → (mno_get_stats g s).success_rate ≡ some (n, d)
          → (n ≤ 100 * d) × (d ≡ (mno_get_stats g s).total_downloads))
unfolding mno_get_stats
mno_get_stats-within g s = (omega (arith, count_le s.history), rate_within s.history)
