-- ===== src/Logging/Blind.antt =====
-- What the dump of vrsp_logging.py tells of the bytes: no more than their printable characters.
use Prim.Native.String.{◌++◌ as concat}
use virtual_rsp.Common.{
  ℕ, zero, suc, ◌+◌, ◌/◌, ◌≡◌, refl, sym, ap, ◌∙◌, String, Option, none, some, List, [], ◌∷◌, map,
  length, take, drop, inl, inr, Bool-cases, arith,
}
use virtual_rsp.Logging.{
  Stamp, Log, print, ascii_char, ascii_part, hex_part, dump_line, row_text, print_rows, is_cut,
  shown_part, print_suffix, hex_dump,
}

module _ {ℓ κ} {A : Type ℓ} {B : Type κ} (f : A → B) where
  map-take : (n : ℕ) (xs : List A) → map f (take n xs) ≡ take n (map f xs)
  map-take zero xs = refl
  map-take (suc n) [] = refl
  map-take (suc n) (x ∷ xs) = ap (◌∷◌ (f x)) (map-take n xs)

  map-drop : (n : ℕ) (xs : List A) → map f (drop n xs) ≡ drop n (map f xs)
  map-drop zero xs = refl
  map-drop (suc n) [] = refl
  map-drop (suc n) (x ∷ xs) = map-drop n xs

  length-map : (xs : List A) → length (map f xs) ≡ length xs
  length-map [] = refl
  length-map (x ∷ xs) = ap suc (length-map xs)

-- What a row shows of its bytes: the characters of those that are printable.
ascii_part-same :
    (m m' : List ℕ) → map ascii_char m ≡ map ascii_char m' → ascii_part m ≡ ascii_part m'
unfolding ascii_part
ascii_part-same [] [] h = refl
ascii_part-same [] (c ∷ cs) h = absurd (cc)
ascii_part-same (b ∷ bs) [] h = absurd (cc)
ascii_part-same (b ∷ bs) (c ∷ cs) h =
    let first : ascii_char b ≡ ascii_char c = cc in
    let rest : map ascii_char bs ≡ map ascii_char cs = cc in
    rw (first, ascii_part-same bs cs rest) refl

hex_part-same : (m m' : List ℕ) → length m ≡ length m' → hex_part m ≡ hex_part m'
unfolding hex_part
hex_part-same [] [] h = refl
hex_part-same [] (c ∷ cs) h = absurd (omega (arith, h))
hex_part-same (b ∷ bs) [] h = absurd (omega (arith, h))
hex_part-same (b ∷ []) (c ∷ []) h = refl
hex_part-same (b ∷ []) (c ∷ d ∷ cs) h = absurd (omega (arith, h))
hex_part-same (b ∷ a ∷ bs) (c ∷ []) h = absurd (omega (arith, h))
hex_part-same (b ∷ a ∷ bs) (c ∷ d ∷ cs) h =
    ap (concat ".2x ") (hex_part-same (a ∷ bs) (d ∷ cs) (omega (arith, h)))

-- The bytes have the same printable characters at the same places.
abbrev pub IsAlike : List ℕ → List ℕ → Type 0
IsAlike m m' = map ascii_char m ≡ map ascii_char m'

IsAlike-length : (m m' : List ℕ) → IsAlike m m' → length m ≡ length m'
IsAlike-length m m' h =
    sym (length-map ascii_char m) ∙ ap (λ (l : List String). length l) h ∙ length-map ascii_char m'

IsAlike-take : (n : ℕ) (m m' : List ℕ) → IsAlike m m' → IsAlike (take n m) (take n m')
IsAlike-take n m m' h =
    map-take ascii_char n m ∙ ap (λ (l : List String). take n l) h ∙ sym (map-take ascii_char n m')

IsAlike-drop : (n : ℕ) (m m' : List ℕ) → IsAlike m m' → IsAlike (drop n m) (drop n m')
IsAlike-drop n m m' h =
    map-drop ascii_char n m ∙ ap (λ (l : List String). drop n l) h ∙ sym (map-drop ascii_char n m')

row_text-IsAlike : (m m' : List ℕ) → IsAlike m m' → row_text m ≡ row_text m'
unfolding row_text
row_text-IsAlike m m' h =
    rw (hex_part-same m m' (IsAlike-length m m' h), ascii_part-same m m' h) refl

is_cut-IsAlike :
    (limit : Option ℕ) (m m' : List ℕ) → IsAlike m m' → is_cut limit m ≡ is_cut limit m'
unfolding is_cut
is_cut-IsAlike none m m' h = refl
is_cut-IsAlike (some n) m m' h = rw (IsAlike-length m m' h) refl

shown_part-IsAlike :
    (limit : Option ℕ) (m m' : List ℕ)
    → IsAlike m m'
    → IsAlike (shown_part limit m) (shown_part limit m')
unfolding shown_part
shown_part-IsAlike none m m' h = h
shown_part-IsAlike (some n) m m' h =
    rw (is_cut-IsAlike (some n) m m' h) (elim (Bool-cases (is_cut (some n) m')) [
      | inl cut ↦ rw cut (IsAlike-take n m m' h)
      | inr whole ↦ rw whole h
    ])

module _ (t : Stamp) (component color : String) where
  print_rows-IsAlike :
      (n i : ℕ) (m m' : List ℕ) (s : Log)
      → IsAlike m m'
      → print_rows t component color n i m s ≡ print_rows t component color n i m' s
  unfolding print_rows
  print_rows-IsAlike zero i m m' s h = refl
  print_rows-IsAlike (suc n) i m m' s h =
      print_rows-IsAlike n (i + 16) m m' _ h
      ∙ ap
          (λ (r : String).
            print_rows t component color n (i + 16) m' (print (dump_line t component color r) s))
          (row_text-IsAlike (take 16 (drop i m)) (take 16 (drop i m'))
            (IsAlike-take 16 (drop i m) (drop i m') (IsAlike-drop i m m' h)))

  -- A dump does not show the values of the bytes: two texts of bytes with the same printable
  -- characters at the same places, such as those that have none and are equally long, are dumped
  -- to the same lines.
  pub hex_dump-IsAlike :
      (prefix : String) (m m' : List ℕ) (limit : Option ℕ) (s : Log)
      → IsAlike m m'
      → hex_dump t component color prefix m limit s ≡ hex_dump t component color prefix m' limit s
  unfolding hex_dump print_suffix
  hex_dump-IsAlike prefix m m' limit s h =
      rw
        (
          is_cut-IsAlike limit m m' h,
          IsAlike-length m m' h,
          IsAlike-length (shown_part limit m) (shown_part limit m')
              (shown_part-IsAlike limit m m' h),
          print_rows-IsAlike ((length (shown_part limit m') + 15) / 16) 0 (shown_part limit m)
              (shown_part limit m') _ (shown_part-IsAlike limit m m' h),
        )
        refl
