-- ===== src/Liveness/Numbers.antt =====
-- The packed rows of a side as rows of numbers.
use mathlib.Core.Path.{subst}
use rola.Prelude.{
  All, Bool, List, [], ap, arith, drop, false, get_or, length, length-append, length-drop,
  length-replicate, length-take, map, refl, replicate, suc, take, zero, ℕ, ◌*◌, ◌++◌, ◌+◌, ◌-◌, ◌<◌,
  ◌==◌, ◌^◌, ◌∙◌, ◌∷◌, ◌≡◌,
}
use rola.Liveness.{LivenessLayout, rows, words, token_words}
use rola.Liveness.Words.{weighted, stored_word, pack_words, pack_row}
use rola.Liveness.Roundtrip.{weighted-lt, lane_of, bit_lane}
use rola.Liveness.RowLanes.{stored, IsRow, row_lane}
use rola.Liveness.Runs.{IsTable}

-- The numbers of a packed row.
numbers : ℕ → List Bool → List ℕ
numbers zero lanes = []
numbers (suc count) lanes = weighted 0 (take 32 lanes) ∷ numbers count (drop 32 lanes)

pack_words-stored :
    (count : ℕ) (lanes : List Bool) → pack_words count lanes ≡ stored (numbers count lanes)
unfolding pack_words numbers
pack_words-stored zero lanes = refl
pack_words-stored (suc count) lanes =
    ap (◌∷◌ (stored_word (weighted 0 (take 32 lanes)))) (pack_words-stored count (drop 32 lanes))

numbers-IsRow :
    (count : ℕ) (lanes : List Bool) → length lanes ≡ count * 32 → IsRow count (numbers count lanes)
unfolding numbers
numbers-IsRow zero lanes e = (refl, tt)
numbers-IsRow (suc count) lanes e =
    let (n, small) = numbers-IsRow count (drop 32 lanes) (omega (arith, length-drop 32 lanes, e)) in
    (
      ap suc n,
      (
        subst (λ k. weighted 0 (take 32 lanes) < 2 ^ k) (length-take 32 lanes (omega (arith, e)))
            (weighted-lt (take 32 lanes)),
        small,
      ),
    )

get_or-take :
    (n : ℕ) (xs : List Bool) (i : ℕ) → i < n → get_or (take n xs) i false ≡ get_or xs i false
get_or-take zero xs i lt = elim lt [ ]
get_or-take (suc n) [] i lt = refl
get_or-take (suc n) (x ∷ xs) zero lt = refl
get_or-take (suc n) (x ∷ xs) (suc i) lt = get_or-take n xs i (omega arith)

get_or-drop :
    (n : ℕ) (xs : List Bool) (i : ℕ) → get_or (drop n xs) i false ≡ get_or xs (n + i) false
get_or-drop zero xs i = ap (λ j. get_or xs j false) {x = i} {y = 0 + i} (omega arith)
get_or-drop (suc n) [] i = refl
get_or-drop (suc n) (x ∷ xs) i =
    get_or-drop n xs i
    ∙ ap (λ j. get_or (x ∷ xs) j false) {x = suc (n + i)} {y = suc n + i} (omega arith)

numbers-lane :
    (count : ℕ) (lanes : List Bool) (k s : ℕ)
    → k < count
    → s < 32
    → row_lane (numbers count lanes) k s ≡ get_or lanes (k * 32 + s) false
unfolding numbers
numbers-lane zero lanes k s lt lt' = elim lt [ ]
numbers-lane (suc count) lanes zero s lt lt' =
    ap (λ n. n == 1) (lane_of (take 32 lanes) s)
    ∙ bit_lane (get_or (take 32 lanes) s false)
    ∙ get_or-take 32 lanes s lt'
    ∙ ap (λ j. get_or lanes j false) {x = s} {y = 0 * 32 + s} (omega arith)
numbers-lane (suc count) lanes (suc k) s lt lt' =
    numbers-lane count (drop 32 lanes) k s (omega arith) lt'
    ∙ get_or-drop 32 lanes (k * 32 + s)
    ∙ ap (λ j. get_or lanes j false) {x = 32 + (k * 32 + s)} {y = suc k * 32 + s} (omega arith)

get_or-pad :
    (xs : List Bool) (n i : ℕ) → get_or (xs ++ replicate n false) i false ≡ get_or xs i false
get_or-pad [] zero i = refl
get_or-pad [] (suc n) zero = refl
get_or-pad [] (suc n) (suc i) = get_or-pad [] n i
get_or-pad (x ∷ xs) n zero = refl
get_or-pad (x ∷ xs) n (suc i) = get_or-pad xs n i

-- The table of a side: a row for each digit, of as many bits as tokens.
abbrev pub IsBitTable : LivenessLayout → List (List Bool) → Type 0
IsBitTable l bits = (length bits ≡ rows l) × All (λ row. length row ≡ l.tokens) bits

module _ (l : LivenessLayout) where
  padded : List Bool → List Bool
  padded row = row ++ replicate (words l * 32 - l.tokens) false

  pub table_of : List (List Bool) → List (List ℕ)
  unfolding padded
  table_of [] = []
  table_of (row ∷ bits) = numbers (words l) (padded row) ∷ table_of bits

  pub packed_table : (bits : List (List Bool)) → map (pack_row l) bits ≡ map stored (table_of bits)
  unfolding pack_row table_of padded
  packed_table [] = refl
  packed_table (row ∷ bits) = λ i. pack_words-stored (words l) (padded row) i ∷ packed_table bits i

  pub length-table_of : (bits : List (List Bool)) → length (table_of bits) ≡ length bits
  unfolding table_of
  length-table_of [] = refl
  length-table_of (row ∷ bits) = ap suc (length-table_of bits)

  pub table_of-IsTable :
      (bits : List (List Bool))
      → All (λ row. length row ≡ l.tokens) bits
      → IsTable (words l) (table_of bits)
  unfolding table_of padded words token_words
  table_of-IsTable [] p = tt
  table_of-IsTable (row ∷ bits) p = (
    numbers-IsRow (words l) (padded row) (
        omega (
          arith,
          length-append row (replicate (words l * 32 - l.tokens) false),
          length-replicate (words l * 32 - l.tokens) false,
          p.0,
        )),
    table_of-IsTable bits p.1,
  )

  pub table_lane :
      (bits : List (List Bool)) (row k s : ℕ)
      → row < length bits
      → k < words l
      → s < 32
      → row_lane (get_or (table_of bits) row []) k s
        ≡ get_or (get_or bits row []) (k * 32 + s) false
  unfolding table_of padded
  table_lane [] row k s lt lt' lt'' = elim lt [ ]
  table_lane (r ∷ bits) zero k s lt lt' lt'' =
      numbers-lane (words l) (padded r) k s lt' lt''
      ∙ get_or-pad r (words l * 32 - l.tokens) (k * 32 + s)
  table_lane (r ∷ bits) (suc row) k s lt lt' lt'' = table_lane bits row k s (omega arith) lt' lt''
