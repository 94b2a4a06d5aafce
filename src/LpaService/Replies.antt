-- ===== src/LpaService/Replies.antt =====
-- The replies of `LPAService` (gui/services/lpa_service.py).
use Prim.Native.String.{◌++◌ as concat}
use virtual_rsp.Common.{
  ℕ, ◌≡◌, ◌≢◌, ◌⊎◌, inl, inr, refl, String, Bool, true, false, Bool-cases, nat_beq, nat_beq_iff,
  truthy, ap, sym, ◌∙◌, ne_of_beq,
}
use virtual_rsp.LpaService.{
  Ending, exited, timeout_expired, failed, Command, profile_command, download_command, run_lpac,
  first_text, reply, download_profile, enable_profile, disable_profile, delete_profile,
}

-- lpac has ended with return code 0.
abbrev pub Succeeded : Ending → Type 0
Succeeded e = (out : String) × (errors : String) × (e ≡ exited 0 out errors)

-- lpac has ended with return code 0, and true comes with the text of the method; or it has not,
-- and false comes with a text that is not empty.
abbrev pub IsHonest : String → Ending → Bool × String → Type 0
IsHonest done e answer =
    (Succeeded e × (answer ≡ (true, done)))
    ⊎ ((¬ Succeeded e) × (answer.0 ≡ false) × (answer.1 ≢ ""))

not_empty : (s : String) → truthy s ≡ true → s ≢ ""
not_empty s h e = let f : truthy "" ≡ true = sym (ap (λ t. truthy t) e) ∙ h in absurd (cc)

first_text_told : (errors out default : String) → default ≢ "" → first_text errors out default ≢ ""
unfolding first_text
first_text_told errors out default d = elim (Bool-cases (truthy errors)) [
  | inl e ↦ rw e (not_empty errors e)
  | inr e ↦
      rw e (elim (Bool-cases (truthy out)) [ inl o ↦ rw o (not_empty out o) | inr o ↦ rw o d ])
]

failed-IsHonest :
    (done default out errors : String) (e : Ending)
    → default ≢ ""
    → ¬ Succeeded e
    → IsHonest done e (reply done default (false, out, errors))
unfolding reply
failed-IsHonest done default out errors e d n = inr (n, refl, first_text_told errors out default d)

code_of : Ending → ℕ
code_of (exited code out errors) = code
code_of _ = 1

nonzero :
    (code : ℕ) (out errors : String) → nat_beq code 0 ≡ false → ¬ Succeeded (exited code out errors)
unfolding code_of
nonzero code out errors e (out', errors', h) =
    let zero_code : code ≡ 0 = ap code_of h in
    let t : nat_beq code 0 ≡ true = (nat_beq_iff code 0).1 zero_code in
    let bad : true ≡ false = sym t ∙ e in absurd (cc)

exited-IsHonest :
    (done default out errors : String) (code : ℕ) (b : Bool)
    → default ≢ ""
    → nat_beq code 0 ≡ b
    → IsHonest done (exited code out errors) (reply done default (b, out, errors))
unfolding reply
exited-IsHonest done default out errors code true d e =
    inl ((out, errors, ap (λ c. exited c out errors) ((nat_beq_iff code 0).0 e)), refl)
exited-IsHonest done default out errors code false d e =
    failed-IsHonest done default out errors (exited code out errors) d (nonzero code out errors e)

reply-IsHonest :
    (done default : String) (e : Ending)
    → default ≢ ""
    → IsHonest done e (reply done default (run_lpac e))
unfolding run_lpac
reply-IsHonest done default timeout_expired d =
    failed-IsHonest done default "" "Command timed out" timeout_expired d
      (λ (out, errors, h). absurd (cc))
reply-IsHonest done default (failed x) d =
    failed-IsHonest done default "" x (failed x) d (λ (out, errors, h). absurd (cc))
reply-IsHonest done default (exited code out errors) d =
    exited-IsHonest done default out errors code (nat_beq code 0) d refl

-- The four methods that change the eUICC return true, with the text that tells what was done, if
-- lpac has ended their command with return code 0; else they return false with a text that is not
-- empty, also where lpac has written nothing, has passed its time limit, or could not be run.
pub replies-IsHonest :
    (lpac : Command → Ending) (iccid address matching_id : String)
    → IsHonest
        (concat "Profile " (concat iccid " enabled"))
        (lpac (profile_command "enable" iccid))
        (enable_profile lpac iccid)
      × IsHonest
          (concat "Profile " (concat iccid " disabled"))
          (lpac (profile_command "disable" iccid))
          (disable_profile lpac iccid)
      × IsHonest
          (concat "Profile " (concat iccid " deleted"))
          (lpac (profile_command "delete" iccid))
          (delete_profile lpac iccid)
      × IsHonest "Profile downloaded successfully"
          (lpac (download_command address matching_id))
          (download_profile lpac address matching_id)
unfolding enable_profile disable_profile delete_profile download_profile
replies-IsHonest lpac iccid address matching_id = (
  reply-IsHonest _ "Enable failed" _ (ne_of_beq "Enable failed" "" refl),
  reply-IsHonest _ "Disable failed" _ (ne_of_beq "Disable failed" "" refl),
  reply-IsHonest _ "Delete failed" _ (ne_of_beq "Delete failed" "" refl),
  reply-IsHonest _ "Download failed" _ (ne_of_beq "Download failed" "" refl),
)
