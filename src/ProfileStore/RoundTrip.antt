-- ===== src/ProfileStore/RoundTrip.antt =====
-- A profile that `add_profile` of gui/services/profile_store.py has stored is found again.
use virtual_rsp.Common.{
  ◌≡◌, ◌≢◌, refl, ◌∙◌, ap, Bool, true, false, ◌&&◌, String, Option, none, some, List, [], ◌∷◌, ◌++◌,
  ok, arith, eq_iff, eq_refl, truthy, same?, >>=-eq-ok, get_or, ◌>>=◌, required, key_error, All,
  sym, ok-injective,
}
use virtual_rsp.ProfileStore.Defs.{
  Profile, Entry, Db, absent, parsed, Disk, Io, read_db, to_dict, from_dict, built,
}
use virtual_rsp.ProfileStore.Methods.{
  transact, add_edit, add_profile, has_matching_id, list_profiles, from_dicts, get_profile,
  profile_matches, first_profile,
}
use virtual_rsp.ProfileStore.Runs.Atomic.{stamped, transact_returned}
use virtual_rsp.ProfileStore.Runs.Edits.{add_edit-writes}

-- An entry from which `from_dict` can build a profile.
abbrev pub IsComplete : Entry → Type 0
IsComplete e = (e.iccid ≢ none) × (e.isdp_aid ≢ none)

-- Storing and loading a profile gives it back, if it has a time of installation.
from_dict-to_dict :
    (now : String) (p : Profile) → truthy p.installed_at ≡ true → from_dict now (to_dict p) ≡ ok p
unfolding from_dict to_dict built
from_dict-to_dict now p h = rw h refl

complete-loads :
    (now : String) (e : Entry) → IsComplete e → (p : Profile) × (from_dict now e ≡ ok p)
unfolding from_dict
complete-loads now e c = go e.iccid e.isdp_aid refl refl
  where
    go :
        (i a : Option String)
        → e.iccid ≡ i
        → e.isdp_aid ≡ a
        → (p : Profile) × (from_dict now e ≡ ok p)
    go none a x y = absurd (c.0 x)
    go (some i) none x y = absurd (c.1 y)
    go (some i) (some a) x y = (built now e i a, rw (x, y) refl)

All-load :
    (now : String) (es : List Entry)
    → All IsComplete es
    → (ps : List Profile) × (from_dicts now es ≡ ok ps)
unfolding from_dicts
All-load now [] c = ([], refl)
All-load now (e ∷ es) c =
    let (p, x) = complete-loads now e c.0 in
    let (ps, y) = All-load now es c.1 in (p ∷ ps, rw (x, y) refl)

from_dicts-append :
    (now : String) (es : List Entry) (ps : List Profile) (p : Profile)
    → truthy p.installed_at ≡ true
    → from_dicts now es ≡ ok ps
    → from_dicts now (es ++ to_dict p ∷ []) ≡ ok (ps ++ p ∷ [])
unfolding from_dicts
from_dicts-append now [] ps p h e =
    rw (from_dict-to_dict now p h) (ap (λ l. ok (l ++ p ∷ [])) (ok-injective e))
from_dicts-append now (x ∷ es) ps p h e =
    let (q, a, e1) = >>=-eq-ok (from_dict now x) _ e in
    let (qs, b, e2) = >>=-eq-ok (from_dicts now es) _ e1 in
    rw (a, from_dicts-append now es qs p h b) (ap (λ l. ok (l ++ p ∷ [])) (ok-injective e2))

from_dict_id :
    (now : String) (e : Entry) (p : Profile)
    → from_dict now e ≡ ok p
    → p.matching_id ≡ get_or e.matching_id ""
unfolding from_dict built
from_dict_id now e p h =
    let (i, _, h1) = >>=-eq-ok (required (key_error "iccid") e.iccid) _ h in
    let (a, _, h2) = >>=-eq-ok (required (key_error "isdp_aid") e.isdp_aid) _ h1 in
    ap (λ (q : Profile). q.matching_id) (sym (ok-injective h2))

abbrev by_id : String → Profile → Bool
by_id m = profile_matches none none (some m)

by_id_misses :
    (m : String) (x : Option String) (p : Profile)
    → truthy m ≡ true
    → p.matching_id ≡ get_or x ""
    → (same? x (some m) && truthy m) ≡ false
    → by_id m p ≡ false
unfolding profile_matches
by_id_misses m none p t q h = ground (arith, eq_iff "" m, eq_iff m "", eq_iff p.matching_id m)
by_id_misses m (some x) p t q h = ground (arith, eq_iff x m, eq_iff p.matching_id m)

first_profile_none :
    (now m : String) (es : List Entry) (ps : List Profile)
    → truthy m ≡ true
    → has_matching_id m es ≡ false
    → from_dicts now es ≡ ok ps
    → (rest : List Profile) → first_profile (by_id m) (ps ++ rest) ≡ first_profile (by_id m) rest
unfolding from_dicts first_profile has_matching_id
first_profile_none now m [] ps t n e rest = rw (← ok-injective e) refl
first_profile_none now m (x ∷ es) ps t n e rest =
    let (q, a, e1) = >>=-eq-ok (from_dict now x) _ e in
    let (qs, b, e2) = >>=-eq-ok (from_dicts now es) _ e1 in
    rw (← ok-injective e2) (
      rw (by_id_misses m x.matching_id q t (from_dict_id now x q a) (ground arith))
        (first_profile_none now m es qs t (ground arith) b rest))

by_id_hits : (p : Profile) → truthy p.matching_id ≡ true → by_id p.matching_id p ≡ true
unfolding profile_matches
by_id_hits p t = ground (arith, eq_refl p.matching_id)

first_profile_hit :
    (test : Profile → Bool) (p : Profile) → test p ≡ true → first_profile test (p ∷ []) ≡ some p
unfolding first_profile
first_profile_hit test p h = rw h refl

add_edit_silent : (p : Profile) (x : Db) → add_edit p x ≢ ok (true, none)
unfolding add_edit
add_edit_silent p x h = ground arith

-- When `add_profile` returns `True` for a profile with a matching ID and a time of installation,
-- `get_profile` by that matching ID returns this profile, if every profile that was stored before
-- has an ICCID and an ISD-P AID.
pub get_profile-add_profile :
    (io : Io) (now : String) (p : Profile) (d : Disk) (x : Db)
    → d.temp ≡ absent
    → read_db d ≡ ok x
    → All IsComplete (get_or x.profiles [])
    → truthy p.installed_at ≡ true
    → truthy p.matching_id ≡ true
    → (add_profile io p d).0 ≡ ok true
    → get_profile now none none (some p.matching_id) (add_profile io p d).1 ≡ ok (some p)
unfolding add_profile get_profile list_profiles read_db parsed
get_profile-add_profile io now p d x clean r c ti tm h =
    let (z, o, q, e, w) = transact_returned io (add_edit p) d clean h in
    by_case z o (ok-injective (sym q ∙ r)) e w
  where
    stored :
        (es : List Entry)
        → All IsComplete es
        → has_matching_id p.matching_id es ≡ false
        → (from_dicts now (es ++ to_dict p ∷ []) >>= λ qs.
            ok (first_profile (by_id p.matching_id) qs))
          ≡ ok (some p)
    stored es k n =
        let (ps, l) = All-load now es k in
        rw (from_dicts-append now es ps p ti l) (
          ap ok (
            first_profile_none now p.matching_id es ps tm n l (p ∷ [])
            ∙ first_profile_hit (by_id p.matching_id) p (by_id_hits p tm)))

    by_case :
        (z : Db) (o : Option Db)
        → z ≡ x
        → add_edit p z ≡ ok (true, o)
        → ((y : Db) → o ≡ some y → (transact io (add_edit p) d).1 ≡ stamped io y d)
        → get_profile now none none (some p.matching_id) (add_profile io p d).1 ≡ ok (some p)
    by_case z none j e w = absurd (add_edit_silent p z e)
    by_case z (some y) j e w =
        let (es, f, n, u) = add_edit-writes p z y true e in
        rw (w y refl) (rw u (stored es (rw (← j, f) at c) n))
