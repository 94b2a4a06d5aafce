-- ===== src/ProfileStore/Switching.antt =====
-- What the caller of gui/services/profile_store.py gets when a method reports success.
use virtual_rsp.Common.{
  ◌≡◌, refl, ◌∙◌, ap, sym, ℕ, zero, suc, ◌+◌, ◌<◌, Bool, true, false, String, Option, none, some,
  List, [], ◌∷◌, Result, ok, length, arith, ◌⊎◌, inl, inr, ◌==◌, if◌then◌else◌, >>=-eq-ok,
  ok-injective, required, key_error,
}
use virtual_rsp.ProfileStore.Defs.{Entry, Db, absent, Disk, Io, enabled, disabled, read_db}
use virtual_rsp.ProfileStore.Methods.{
  Reply, enable_edit, enable_profile, disable_edit, delete_edit, transact, find_target, matches,
  set_state, state_at, disable_others, disable_other, disable_entry,
}
use virtual_rsp.ProfileStore.Runs.Atomic.{stamped, transact_returned}
use virtual_rsp.ProfileStore.Runs.Edits.{with_profiles, enable_edit-writes}
use virtual_rsp.ProfileStore.Runs.OneEnabled.{
  count_enabled, disable_others-cons, disable_others-nil, disable_others-not_nil,
  count-disable_others, find_target_bound,
}

-- The object that the file holds now is `x` with the list `ps`, stamped.
abbrev pub Stores : Io → Disk → Db → List Entry → Disk → Type 0
Stores io d x ps d' = d' ≡ stamped io (with_profiles x ps) d

-- An entry without its state, to say that nothing else has changed.
abbrev pub stateless : Entry → Entry
stateless p = record p { state = none }

abbrev pub statelesses : List Entry → List Entry
statelesses [] = []
statelesses (p ∷ ps) = stateless p ∷ statelesses ps

enable_edit_silent :
    (iccid aid : Option String) (x : Db) (a : Reply)
    → enable_edit iccid aid x ≡ ok (a, none)
    → a.0 ≡ false
unfolding enable_edit
enable_edit_silent iccid aid x a h = ground arith

pub disable_edit_silent :
    (iccid aid : Option String) (x : Db) (a : Reply)
    → disable_edit iccid aid x ≡ ok (a, none)
    → a.0 ≡ false
unfolding disable_edit
disable_edit_silent iccid aid x a h = ground arith

pub delete_edit_silent :
    (iccid aid m : Option String) (x : Db) (a : Reply)
    → delete_edit iccid aid m x ≡ ok (a, none)
    → a.0 ≡ false
unfolding delete_edit
delete_edit_silent iccid aid m x a h = ground arith

-- A transaction that reports success, where its edit reports success only when it writes.
module _ (io : Io) (edit : Db → Result (Reply × Option Db)) (d : Disk) where
  pub transact_succeeds :
      {a : Reply}
      → ((x : Db) (b : Reply) → edit x ≡ ok (b, none) → b.0 ≡ false)
      → d.temp ≡ absent
      → (transact io edit d).0 ≡ ok a
      → a.0 ≡ true
      → (x y : Db) × (read_db d ≡ ok x)
        × (edit x ≡ ok (a, some y))
        × ((transact io edit d).1 ≡ stamped io y d)
  transact_succeeds {a} silent clean h t =
      let (x, o, p, q, w) = transact_returned io edit d clean h in by_case x o p q w
    where
      by_case :
          (x : Db) (o : Option Db)
          → read_db d ≡ ok x
          → edit x ≡ ok (a, o)
          → ((y : Db) → o ≡ some y → (transact io edit d).1 ≡ stamped io y d)
          → (x y : Db) × (read_db d ≡ ok x)
            × (edit x ≡ ok (a, some y))
            × ((transact io edit d).1 ≡ stamped io y d)
      by_case x none p q w = absurd (cc (silent x a q))
      by_case x (some y) p q w = (x, y, p, q, w y refl)

-- `i` is the first position of the list that passes the test, which raises at none before it.
pub IsFirst : (Entry → Result Bool) → List Entry → ℕ → Type 0
IsFirst hit [] i = ⊥
IsFirst hit (p ∷ ps) zero = hit p ≡ ok true
IsFirst hit (p ∷ ps) (suc i) = (hit p ≡ ok false) × IsFirst hit ps i

module _ (hit : Entry → Result Bool) where
  find_target-cons :
      (i t : ℕ) (p : Entry) (ps : List Entry)
      → find_target hit i (p ∷ ps) ≡ ok (some t)
      → ((hit p ≡ ok true) × (t ≡ i))
        ⊎ ((hit p ≡ ok false) × (find_target hit (i + 1) ps ≡ ok (some t)))
  unfolding find_target
  find_target-cons i t p ps e = let (b, q, r) = >>=-eq-ok (hit p) _ e in by_case b q r
    where
      by_case :
          (b : Bool)
          → hit p ≡ ok b
          → (if b then ok (some i) else find_target hit (i + 1) ps) ≡ ok (some t)
          → ((hit p ≡ ok true) × (t ≡ i))
            ⊎ ((hit p ≡ ok false) × (find_target hit (i + 1) ps ≡ ok (some t)))
      by_case true q r = inl (q, cc)
      by_case false q r = inr (q, r)

  pub find_target-IsFirst :
      (k i t : ℕ) (ps : List Entry)
      → t ≡ k + i
      → find_target hit i ps ≡ ok (some t)
      → IsFirst hit ps k
  unfolding IsFirst
  find_target-IsFirst k i t [] m e =
      let (_, b) = find_target_bound hit i t [] e in absurd (omega arith)
  find_target-IsFirst zero i t (p ∷ ps) m e = elim (find_target-cons i t p ps e) [
    | inl (q, _) ↦ q
    | inr (_, r) ↦ let (b, _) = find_target_bound hit (i + 1) t ps r in absurd (omega arith)
  ]
  find_target-IsFirst (suc k) i t (p ∷ ps) m e = elim (find_target-cons i t p ps e) [
    | inl (_, n) ↦ absurd (omega arith)
    | inr (q, r) ↦ (q, find_target-IsFirst k (i + 1) t ps (omega arith) r)
  ]

pub statelesses-set_state :
    (i : ℕ) (v : String) (ps : List Entry) → statelesses (set_state i v ps) ≡ statelesses ps
unfolding set_state
statelesses-set_state i v [] = refl
statelesses-set_state zero v (p ∷ ps) = refl
statelesses-set_state (suc i) v (p ∷ ps) = ap (◌∷◌ (stateless p)) (statelesses-set_state i v ps)

demoted_stateless :
    (p q : Entry) (b : Bool)
    → (if b then ok (record p { state = some disabled }) else ok p) ≡ ok q
    → stateless q ≡ stateless p
demoted_stateless p q true h = ap stateless (sym (ok-injective h))
demoted_stateless p q false h = ap stateless (sym (ok-injective h))

disable_entry-stateless : (p q : Entry) → disable_entry p ≡ ok q → stateless q ≡ stateless p
unfolding disable_entry
disable_entry-stateless p q e =
    let (s, _, y) = >>=-eq-ok (required (key_error "state") p.state) _ e in
    demoted_stateless p q (s == enabled) y

disable_other-stateless :
    (t i : ℕ) (p q : Entry) → disable_other t i p ≡ ok q → stateless q ≡ stateless p
unfolding disable_other
disable_other-stateless t i p q e = ground (arith, disable_entry-stateless p q)

statelesses-disable_others :
    (t i : ℕ) (ps qs : List Entry) → disable_others t i ps ≡ ok qs → statelesses qs ≡ statelesses ps
statelesses-disable_others t i [] [] e = refl
statelesses-disable_others t i [] (q ∷ qs) e = absurd (disable_others-nil t i q qs e)
statelesses-disable_others t i (p ∷ ps) [] e = absurd (disable_others-not_nil t i p ps e)
statelesses-disable_others t i (p ∷ ps) (q ∷ qs) e =
    let (e1, e2) = disable_others-cons t i p q ps qs e in
    cc (disable_other-stateless t i p q e1, statelesses-disable_others t (i + 1) ps qs e2)

pub state_at-set_state :
    (i : ℕ) (v : String) (ps : List Entry) → i < length ps → state_at i (set_state i v ps) ≡ ok v
unfolding state_at set_state
state_at-set_state i v [] h = absurd (omega arith)
state_at-set_state zero v (p ∷ ps) h = refl
state_at-set_state (suc i) v (p ∷ ps) h = state_at-set_state i v ps (omega arith)

length-disable_others :
    (t i : ℕ) (ps qs : List Entry) → disable_others t i ps ≡ ok qs → length qs ≡ length ps
length-disable_others t i [] [] e = refl
length-disable_others t i [] (q ∷ qs) e = absurd (disable_others-nil t i q qs e)
length-disable_others t i (p ∷ ps) [] e = absurd (disable_others-not_nil t i p ps e)
length-disable_others t i (p ∷ ps) (q ∷ qs) e =
    let (e1, e2) = disable_others-cons t i p q ps qs e in
    ap suc (length-disable_others t (i + 1) ps qs e2)

-- What `enable_profile` has done to the stored list `ps` when it leaves `qs`.
pub record Switched (hit : Entry → Result Bool) (ps qs : List Entry) : Type 0 where
  pub target : ℕ
  pub first : IsFirst hit ps target
  pub on : state_at target qs ≡ ok enabled
  pub only : count_enabled qs ≡ 1
  pub same : statelesses qs ≡ statelesses ps

-- When `enable_profile` reports success, the file holds what it held with the first profile that
-- matches enabled, no other profile enabled, and nothing but states changed.
pub enable_profile_switches :
    (io : Io) (iccid aid : Option String) (d : Disk) (a : Reply)
    → d.temp ≡ absent
    → (enable_profile io iccid aid d).0 ≡ ok a
    → a.0 ≡ true
    → (x : Db) × (ps qs : List Entry) × (read_db d ≡ ok x)
      × (x.profiles ≡ some ps)
      × Stores io d x qs (enable_profile io iccid aid d).1
      × Switched (matches iccid aid) ps qs
unfolding enable_profile
enable_profile_switches io iccid aid d a clean h t =
    let (x, y, r, e, w) =
      transact_succeeds io (enable_edit iccid aid) d (enable_edit_silent iccid aid) clean h t in
    let (ps, i, os, f, g, z) = enable_edit-writes iccid aid x y a e in
    let (_, b) = find_target_bound (matches iccid aid) 0 i ps f.target in
    (
      x,
      ps,
      set_state i enabled os,
      r,
      f.stored,
      w ∙ ap (λ v. stamped io v d) z,
      record {
        target = i;
        first = find_target-IsFirst (matches iccid aid) i 0 i ps (omega arith) f.target;
        on = state_at-set_state i enabled os (omega (arith, length-disable_others i 0 ps os g));
        only = count-disable_others i 0 i ps os (omega arith) g (omega arith);
        same = statelesses-set_state i enabled os ∙ statelesses-disable_others i 0 ps os g;
      },
    )
