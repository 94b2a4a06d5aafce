-- ===== src/SmdpApi/Deleting.antt =====
-- What `delete_profile` of mno/services/smdp_api.py brings about at the server of
-- pysim/osmo-smdpp.py.
use Prim.Native.Char.{code}
use Prim.Native.String.{◌++◌ as concat}
use package.text.Mathlib.TextLemmas.{cons-append, nil-append}
use virtual_rsp.Common.{
  String, Bool, true, false, ok, err, ◌≡◌, ◌⊎◌, inl, inr, refl, chars, nat_beq_refl, drop_chars,
  text_starts_with, truthy, api_error, Option-cases, arith, not, Bool-cases,
}
use virtual_rsp.Common.Dict.{find}
use virtual_rsp.Smdp.Server.{Ext, Config, Server}
use virtual_rsp.Smdp.Authenticate.{profile_file}
use virtual_rsp.Smdp.Mno.{mno_delete_profile, delete_file, upload_path, has_slash}
use virtual_rsp.Smdp.Profiles.{profile_file-mno_delete_profile}
use virtual_rsp.SmdpApi.{text, Http, delete, raise_for_status, delete_profile}
use virtual_rsp.SmdpApi.Network.{
  serve, answer, is_plain, is_plain_code, is_literal, is_segment, IsNetwork, both, Failed,
  concluded, concluded_cases,
}

-- what stands before an ID in a path
drop_chars-concat : (p m : String) → drop_chars (chars p) (concat p m) ≡ m
drop_chars-concat String.[] m = nil-append m
drop_chars-concat (String.◌∷◌ c cs) m = rw (cons-append c cs m) (drop_chars-concat cs m)

text_starts_with-concat : (p m : String) → text_starts_with (concat p m) p ≡ true
text_starts_with-concat String.[] m = refl
text_starts_with-concat (String.◌∷◌ c cs) m =
    rw (cons-append c cs m) (rw (nat_beq_refl (code c)) (text_starts_with-concat cs m))

is_plain-concat :
    (p m : String) → is_plain p ≡ true → is_plain m ≡ true → is_plain (concat p m) ≡ true
unfolding is_plain
is_plain-concat String.[] m a b = rw (nil-append m) b
is_plain-concat (String.◌∷◌ c cs) m a b =
    let (here, rest) = both (is_plain_code (code c)) (is_plain cs) a in
    rw (cons-append c cs m) (rw here (is_plain-concat cs m rest b))

literal_path :
    (m : String) → is_plain m ≡ true → is_literal delete (concat "/mno/profiles/" m) ≡ true
unfolding is_literal is_plain
literal_path m plain = is_plain-concat "/mno/profiles/" m refl plain

of_segment : (m : String) → is_segment m ≡ true → (has_slash m ≡ false) × (is_plain m ≡ true)
of_segment m h =
    let (_, e) = both (truthy m) _ h in
    let (a, b) = both (not (has_slash m)) (is_plain m) e in
    (elim (Bool-cases (has_slash m)) [ inl t ↦ absurd (cc) | inr f ↦ f ], b)

module _ (g : Config) (writable : String → Bool) (modified : String → String) (now : String) where
  serve_delete :
      (m : String) (s : Server)
      → has_slash m ≡ false
      → serve g writable modified now delete (concat "/mno/profiles/" m) s
        ≡ answer (mno_delete_profile g m s)
  unfolding serve
  serve_delete m s h =
      rw (text_starts_with-concat "/mno/profiles/" m)
        (rw (drop_chars-concat "/mno/profiles/" m) (rw h refl))

  -- the answers to a deletion
  delete_answers :
      (m : String) (s : Server)
      → ((mno_delete_profile g m s).0 ≡ ok (200, "Profile deleted"))
        ⊎ ((mno_delete_profile g m s).0 ≡ ok (404, "Profile not found"))
  unfolding mno_delete_profile delete_file
  delete_answers m s = elim (Option-cases (find (upload_path g (concat m ".der")) s.files)) [
    | inl gone ↦ rw gone (inr refl)
    | inr (c, there) ↦ rw there (inl refl)
  ]

  module _ (h : Http Server) (base_url : String)
      (net : IsNetwork g writable modified now h base_url) where
    delete_profile_sent :
        (m : String) (s : Server)
        → delete_profile h base_url m s
          ≡ concluded (h.send delete (concat base_url (concat "/mno/profiles/" m)) s)
    unfolding delete_profile concluded
    delete_profile_sent m s = refl

    -- a deletion whose request is not changed on its way
    deleted-literal :
        (x : Ext) (m : String) (s : Server)
        → is_segment m ≡ true
        → let reply = h.send delete (concat base_url (concat "/mno/profiles/" m)) s in
          (((concluded reply).0 ≡ ok false) × Failed reply.0)
          ⊎ (((concluded reply).0 ≡ ok true)
              × (profile_file x g m (concluded reply).1.files
                  ≡ err (api_error "8.2.6" "3.8" "Refused")))
    unfolding concluded raise_for_status answer
    deleted-literal x m s segment =
        let (whole, plain) = of_segment m segment in
        elim (net.outcome delete (concat "/mno/profiles/" m) s (literal_path m plain)) [
          | inl (e, lost) ↦ rw lost (inl (refl, inl (e, refl)))
          | inr (inl (e, lost)) ↦ rw lost (inl (refl, inl (e, refl)))
          | inr (inr there) ↦ rw there (
              rw (serve_delete m s whole) (elim (delete_answers m s) [
                | inl good ↦ rw good (inr (refl, profile_file-mno_delete_profile x g m s))
                | inr bad ↦ rw bad (
                    inl (refl, inr (404, text "Profile not found", refl, omega arith, omega arith)))
              ]))
        ]

    -- A deletion always returns a Boolean, and false only if its request gave no answer or one with
    -- a status from 400 to 599. If it returns true, a device that asks for the matching ID is
    -- refused; this is so for an ID that is not empty and consists of letters, digits, `-` and `_`,
    -- which the address brings as it is. For other IDs it is not said what true means.
    pub delete_profile_lem :
        (x : Ext) (m : String) (s : Server)
        → (((delete_profile h base_url m s).0 ≡ ok false)
            × Failed (h.send delete (concat base_url (concat "/mno/profiles/" m)) s).0)
          ⊎ (((delete_profile h base_url m s).0 ≡ ok true)
              × ((is_segment m ≡ false)
                  ⊎ (profile_file x g m (delete_profile h base_url m s).1.files
                      ≡ err (api_error "8.2.6" "3.8" "Refused"))))
    delete_profile_lem x m s =
        let reply = h.send delete (concat base_url (concat "/mno/profiles/" m)) s in
        rw (delete_profile_sent m s) (elim (Bool-cases (is_segment m)) [
          | inr odd ↦ elim (concluded_cases reply) [
            | inl failed ↦ inl failed
            | inr reported ↦ inr (reported, inl odd)
          ]
          | inl segment ↦ elim (deleted-literal x m s segment) [
            | inl failed ↦ inl failed
            | inr (reported, gone) ↦ inr (reported, inr gone)
          ]
        ])
