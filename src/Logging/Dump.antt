-- ===== src/Logging/Dump.antt =====
-- What `hex_dump` of vrsp_logging.py prints: the bytes by rows, and what a row tells of them.
use Prim.Native.String.{◌++◌ as concat}
use virtual_rsp.Common.{
  ℕ, zero, suc, ◌+◌, ◌*◌, ◌/◌, ◌≤◌, ◌<◌, ◌≡◌, refl, sym, ap, ◌∙◌, String, Option, List, [], ◌∷◌,
  ◌++◌, map, ltb→lt, not-ltb→le, if◌then◌else◌, ◌⊎◌, inl, inr, append-nil, append_assoc, All,
  length, take, drop, length-take, length-drop, take-append-drop, ltb, Bool-cases, str, arith,
}
use virtual_rsp.Logging.{
  Stamp, Log, debug_level, print, dump_line, row_text, print_rows, is_cut, shown_part, print_suffix,
  hex_dump,
}

module _ {ℓ} {A : Type ℓ} where
  -- the lists one after the other
  abbrev joined : List (List A) → List A
  joined [] = []
  joined (x ∷ xs) = x ++ joined xs

  drop-nil : (n : ℕ) → drop {A = A} n [] ≡ []
  drop-nil zero = refl
  drop-nil (suc n) = refl

  drop-drop : (n k j : ℕ) (xs : List A) → j ≡ k + n → drop n (drop k xs) ≡ drop j xs
  drop-drop n zero j xs h = ap (λ (q : ℕ). drop q xs) (omega (arith, h))
  drop-drop n (suc k) zero xs h = absurd (omega (arith, h))
  drop-drop n (suc k) (suc j) [] h = drop-nil n
  drop-drop n (suc k) (suc j) (x ∷ xs) h = drop-drop n k j xs (omega (arith, h))

  drop-all : (n : ℕ) (xs : List A) → length xs ≤ n → drop n xs ≡ []
  drop-all zero [] h = refl
  drop-all zero (x ∷ xs) h = absurd (omega arith)
  drop-all (suc n) [] h = refl
  drop-all (suc n) (x ∷ xs) h = drop-all n xs (omega arith)

-- The slices that the loop takes, with the rounds that are left.
chunks : ℕ → ℕ → List ℕ → List (List ℕ)
chunks zero i m = []
chunks (suc n) i m = take 16 (drop i m) ∷ chunks n (i + 16) m

joined-chunks : (n i : ℕ) (m : List ℕ) → length m ≤ i + 16 * n → joined (chunks n i m) ≡ drop i m
unfolding chunks
joined-chunks zero i m h = sym (drop-all i m (omega arith))
joined-chunks (suc n) i m h =
    ap (λ (r : List ℕ). take 16 (drop i m) ++ r)
      (joined-chunks n (i + 16) m (omega arith) ∙ sym (drop-drop 16 i (i + 16) m refl))
    ∙ take-append-drop 16 (drop i m)

-- a row has a byte at least, and 16 at most
abbrev pub IsRow : List ℕ → Type 0
IsRow c = (0 < length c) × (length c ≤ 16)

All-chunks : (n i : ℕ) (m : List ℕ) → i + 16 * n < length m + 16 → All IsRow (chunks n i m)
unfolding chunks
All-chunks zero i m h = tt
All-chunks (suc n) i m h = (
  (
    omega (arith, h, length-take 16 (drop i m), length-drop i m),
    omega (arith, length-take 16 (drop i m)),
  ),
  All-chunks n (i + 16) m (omega arith),
)

length-chunks : (n i : ℕ) (m : List ℕ) → length (chunks n i m) ≡ n
unfolding chunks
length-chunks zero i m = refl
length-chunks (suc n) i m = ap suc (length-chunks n (i + 16) m)

module _ (t : Stamp) (component color : String) where
  abbrev row : List ℕ → String
  row c = dump_line t component color (row_text c)

  printed-print_rows :
      (n i : ℕ) (m : List ℕ) (s : Log)
      → (print_rows t component color n i m s).printed ≡ s.printed ++ map row (chunks n i m)
  unfolding print_rows chunks
  printed-print_rows zero i m s = sym (append-nil s.printed)
  printed-print_rows (suc n) i m s =
      printed-print_rows n (i + 16) m (print (row (take 16 (drop i m))) s)
      ∙ append_assoc s.printed (row (take 16 (drop i m)) ∷ []) (map row (chunks n (i + 16) m))

  -- The first line, and the last if the bytes are cut.
  abbrev pub header : String → List ℕ → String
  header prefix m =
      dump_line t component color (concat prefix (concat " (" (concat (str (length m)) " bytes):")))

  abbrev pub suffix : Option ℕ → List ℕ → List String
  suffix limit m =
      if is_cut limit m
      then dump_line t component color
          (concat "  " (concat " ... (" (concat (str (length m)) " total)")))
        ∷ []
      else []

  printed-print_suffix :
      (limit : Option ℕ) (m : List ℕ) (s : Log)
      → (print_suffix t component color limit m s).printed ≡ s.printed ++ suffix limit m
  unfolding print_suffix
  printed-print_suffix limit m s = elim (Bool-cases (is_cut limit m)) [
    | inl cut ↦ rw cut refl
    | inr whole ↦ rw whole (sym (append-nil s.printed))
  ]

  -- The level permits it; the rows have all bytes that are shown, in their order, and are as few as
  -- can be.
  pub record IsDumped (prefix : String) (m : List ℕ) (limit : Option ℕ) (s s' : Log) : Type 0 where
    pub permitted : s.level ≤ debug_level
    pub rows : List (List ℕ)
    pub all_shown : joined rows ≡ shown_part limit m
    pub are_rows : All IsRow rows
    pub count : length rows ≡ (length (shown_part limit m) + 15) / 16
    pub lines_printed :
        s'.printed ≡ s.printed ++ (header prefix m ∷ []) ++ map row rows ++ suffix limit m

  -- Where the level is above the debug level, a dump of bytes prints nothing. Where it is not, and
  -- only there, it prints its header, rows of 1 to 16 bytes that together are the bytes shown, one
  -- for each 16 bytes begun, and a line with the length if the bytes are cut.
  pub hex_dump_lem :
      (prefix : String) (m : List ℕ) (limit : Option ℕ) (s : Log)
      → ((debug_level < s.level) × (hex_dump t component color prefix m limit s ≡ s))
        ⊎ IsDumped prefix m limit s (hex_dump t component color prefix m limit s)
  unfolding hex_dump
  hex_dump_lem prefix m limit s = elim (Bool-cases (ltb debug_level s.level)) [
    | inl quiet ↦ rw quiet (inl (ltb→lt debug_level s.level quiet, refl))
    | inr loud ↦
        let shown = shown_part limit m in
        let n = (length shown + 15) / 16 in
        let begun = print (header prefix m) s in
        rw loud (
          inr (record {
            permitted = not-ltb→le debug_level s.level loud;
            rows = chunks n 0 shown;
            all_shown = joined-chunks n 0 shown (omega arith);
            are_rows = All-chunks n 0 shown (omega arith);
            count = length-chunks n 0 shown;
            lines_printed =
                printed-print_suffix limit m (print_rows t component color n 0 shown begun)
                ∙ ap (λ (ls : List String). ls ++ suffix limit m)
                    (printed-print_rows n 0 shown begun);
          }))
  ]
