-- ===== src/Smdp/Store/Refinement.antt =====
-- The session store of pysim/pySim/esim/rsp.py beside a dictionary of sessions: how both answer
-- what is asked of them.
use virtual_rsp.Common.{
  ℕ, List, [], ◌∷◌, Bool, true, false, Option, none, some, String, Result, ok, err, required,
  key_error, length, ◌≡◌, refl, sym, ap, inl, inr, All, subst, if◌then◌else◌,
}
use virtual_rsp.Common.Dict.{Dict, find, put, remove}
use virtual_rsp.Common.Exec.{Exec}
use virtual_rsp.Bsp.Padding.{Bytes}
use virtual_rsp.Certs.{Cert}
use virtual_rsp.Smdp.Session.{Session}
use virtual_rsp.Smdp.Store.Pickling.{
  pickled, AllLoad, LoadsAll, find-cases, put-pickled, remove-pickled, put-LoadsAll,
  remove-LoadsAll, length-pickled,
}
use virtual_rsp.Smdp.Store.{
  open_shelf, RspSessionStore, new_store, opened, changed, set_item, deleted, del_item, has_key,
  contains, len, close, sync, get_item, found, get,
}

-- A use of the store; `reopen` closes it and makes a store of the same kind again.
pub data Use : Type 0 where
  store : String → Session → Use
  delete look_up get_or_none is_present : String → Use
  count synchronise reopen : Use

pub data Answer : Type 0 where
  done : Answer
  session : Session → Answer
  maybe : Option Session → Answer
  present : Bool → Answer
  number : ℕ → Answer

abbrev answered {ℓ} : {A : Type ℓ} → (A → Answer) → Result A → Result Answer
answered f (ok a) = ok (f a)
answered f (err e) = err e

-- What each use does to a dictionary of sessions; a file survives closing and memory does not.
unfoldable pub on_dict : Bool → Use → Exec (Dict Session) Answer
unfolding put remove find
on_dict m (store k ss) d = (ok done, put k ss d)
on_dict m (delete k) d = elim (find k d) [
  | none ↦ (err (key_error k), d)
  | some _ ↦ (ok done, remove k d)
]
on_dict m (look_up k) d = (answered session (required (key_error k) (find k d)), d)
on_dict m (get_or_none k) d = (ok (maybe (find k d)), d)
on_dict m (is_present k) d = (ok (present (elim (find k d) [ none ↦ false | some _ ↦ true ])), d)
on_dict m count d = (ok (number (length d)), d)
on_dict m synchronise d = (ok done, d)
on_dict m reopen d = (ok done, if m then [] else d)

-- The answers of a list of uses, and the state in the end.
abbrev pub run : {S : Type 0} → (Use → Exec S Answer) → List Use → S → List (Result Answer) × S
run step [] s = ([], s)
run step (u ∷ us) s = let (r, s') = step u s in let (rs, s'') = run step us s' in (r ∷ rs, s'')

module _ (load_der : Bytes → Result Cert) where
  unfoldable pub on_store : Use → Exec RspSessionStore Answer
  unfolding set_item del_item get_item get contains len sync close new_store
  on_store (store k ss) s = let (r, s') = set_item k ss s in (answered (λ _. done) r, s')
  on_store (delete k) s = let (r, s') = del_item k s in (answered (λ _. done) r, s')
  on_store (look_up k) s = (answered session (get_item load_der k s), s)
  on_store (get_or_none k) s = (answered maybe (get load_der k s), s)
  on_store (is_present k) s = (answered present (contains k s), s)
  on_store count s = (answered number (len s), s)
  on_store synchronise s = (ok done, sync s)
  on_store reopen s =
      let c = close s in
      elim (new_store (λ _. ok c.entries) (some "sessions") c.in_memory) [
        | ok s' ↦ (ok done, s')
        | err e ↦ (err e, c)
      ]

  unfoldable pub LoadsUse : Use → Type 0
  LoadsUse (store _ ss) = AllLoad load_der ss
  LoadsUse _ = Unit

  abbrev store_of : Bool → Dict Session → RspSessionStore
  store_of m d = record { in_memory = m; shelf = open_shelf; entries = pickled d }

  -- An open store of a kind that has the sessions of a dictionary, all of which load.
  pub record Represents (m : Bool) (s : RspSessionStore) (d : Dict Session) : Type 0 where
    pub same : s ≡ store_of m d
    pub loads : LoadsAll load_der d

  -- A use that has been answered alike, with what it leaves.
  abbrev Agrees : Bool → Use → RspSessionStore → Dict Session → Type 0
  Agrees m u s d =
      ((on_store u s).0 ≡ (on_dict m u d).0) × Represents m (on_store u s).1 (on_dict m u d).1

  on_store-Agrees :
      (m : Bool) (u : Use) (d : Dict Session)
      → LoadsUse u
      → LoadsAll load_der d
      → Agrees m u (store_of m d) d
  unfolding on_store on_dict LoadsUse set_item del_item get_item get contains len sync close
      new_store changed deleted has_key opened found put remove find
  on_store-Agrees m (store k ss) d a l = (
    refl,
    record {
      same =
          ap (λ x. record { in_memory = m; shelf = open_shelf; entries = x })
            (put-pickled load_der k ss d);
      loads = put-LoadsAll load_der k ss d a l;
    },
  )
  on_store-Agrees m (delete k) d a l = elim (find-cases load_der k d l) [
    | inl (e, p) ↦
        rw (on_dict, del_item, changed, deleted, e, p) (refl, record { same = refl; loads = l })
    | inr (ss, e, p, q) ↦
        rw (on_dict, del_item, changed, deleted, e, p)
          (
            refl,
            record {
              same =
                  ap (λ x. record { in_memory = m; shelf = open_shelf; entries = x })
                    (remove-pickled load_der k d);
              loads = remove-LoadsAll load_der k d l;
            },
          )
  ]
  on_store-Agrees m (look_up k) d a l = elim (find-cases load_der k d l) [
    | inl (e, p) ↦ rw (e, p) (refl, record { same = refl; loads = l })
    | inr (ss, e, p, q) ↦ rw (e, p) (rw q (refl, record { same = refl; loads = l }))
  ]
  on_store-Agrees m (get_or_none k) d a l = elim (find-cases load_der k d l) [
    | inl (e, p) ↦ rw (found, e, p) (refl, record { same = refl; loads = l })
    | inr (ss, e, p, q) ↦ rw (found, e, p) (rw q (refl, record { same = refl; loads = l }))
  ]
  on_store-Agrees m (is_present k) d a l = elim (find-cases load_der k d l) [
    | inl (e, p) ↦ rw (has_key, e, p) (refl, record { same = refl; loads = l })
    | inr (ss, e, p, q) ↦ rw (has_key, e, p) (refl, record { same = refl; loads = l })
  ]
  on_store-Agrees m count d a l =
      (ap (λ n. ok (number n)) (length-pickled load_der d), record { same = refl; loads = l })
  on_store-Agrees m synchronise d a l = (refl, record { same = refl; loads = l })
  on_store-Agrees true reopen d a l = (refl, record { same = refl; loads = tt })
  on_store-Agrees false reopen d a l = (refl, record { same = refl; loads = l })

  abbrev pub LoadUses : List Use → Type 0
  LoadUses = All LoadsUse

  -- A session store that has the sessions of a dictionary, in a file or in memory, answers every
  -- sequence of uses as the dictionary does, exceptions included, and has its sessions in the end;
  -- when it is closed and made again, a file keeps the sessions and memory has none. The sessions
  -- that are put in are such that their certificates load from DER as themselves and their
  -- private key is not zero.
  pub run-Represents :
      (m : Bool) (us : List Use) (s : RspSessionStore) (d : Dict Session)
      → LoadUses us
      → Represents m s d
      → ((run on_store us s).0 ≡ (run (on_dict m) us d).0)
        × Represents m (run on_store us s).1 (run (on_dict m) us d).1
  run-Represents m [] s d a r = (refl, r)
  run-Represents m (u ∷ us) s d (a, as') r =
      let (x, y) = subst (λ t. Agrees m u t d) (sym r.same) (on_store-Agrees m u d a r.loads) in
      let (xs, ys) = run-Represents m us (on_store u s).1 (on_dict m u d).1 as' y in
      (cc (x, xs), ys)
