-- ===== src/Liveness/RowLanes.antt =====
-- Rows of stored words, lane by lane.
use Prim.Native.Nat.{bit_and, bit_or}
use rola.Prelude.{
  All, Bool, Bool-cases, List, [], ap, arith, false, get_or, inl, inr, length, ltb→lt, lt→ltb, map,
  refl, suc, sym, true, zero, ℕ, ◌&&◌, ◌<◌, ◌^◌, ◌||◌, ◌↔◌, ◌∙◌, ◌∷◌, ◌≡◌,
}
use rola.Liveness.Words.{ℤ, stored_word}
use rola.Liveness.Boxes.{or_rows, and_rows, is_nonzero, any}
use rola.Liveness.Lanes.{
  lane, lane-bit_and, lane-bit_or, bit_or-lt, bit_and-lt, some_lane, lane_pos,
  word_bits-stored_word, is_nonzero-stored_word,
}

-- A row of stored words, from its numbers.
abbrev pub stored : List ℕ → List ℤ
stored ws = map stored_word ws

-- The numbers fit the words.
abbrev pub IsRow : ℕ → List ℕ → Type 0
IsRow count ws = (length ws ≡ count) × All (λ w. w < 2 ^ 32) ws

-- Lane `s` of word `k`.
abbrev pub row_lane : List ℕ → ℕ → ℕ → Bool
row_lane ws k s = lane (get_or ws k 0) s

zip_words : (ℕ → ℕ → ℕ) → List ℕ → List ℕ → List ℕ
zip_words f [] right = []
zip_words f (a ∷ left) [] = []
zip_words f (a ∷ left) (b ∷ right) = f a b ∷ zip_words f left right

or_rows-stored :
    (count : ℕ) (xs ys : List ℕ)
    → IsRow count xs
    → IsRow count ys
    → or_rows (stored xs) (stored ys) ≡ stored (zip_words bit_or xs ys)
unfolding or_rows zip_words
or_rows-stored count [] ys p q = refl
or_rows-stored count (x ∷ xs) [] p q = absurd (omega (arith, p.0, q.0))
or_rows-stored zero (x ∷ xs) (y ∷ ys) p q = absurd (omega (arith, p.0))
or_rows-stored (suc count) (x ∷ xs) (y ∷ ys) p q = λ i.
    stored_word (bit_or (word_bits-stored_word x p.1.0 i) (word_bits-stored_word y q.1.0 i))
    ∷ or_rows-stored count xs ys (omega (arith, p.0), p.1.1) (omega (arith, q.0), q.1.1) i

and_rows-stored :
    (count : ℕ) (xs ys : List ℕ)
    → IsRow count xs
    → IsRow count ys
    → and_rows (stored xs) (stored ys) ≡ stored (zip_words bit_and xs ys)
unfolding and_rows zip_words
and_rows-stored count [] ys p q = refl
and_rows-stored count (x ∷ xs) [] p q = absurd (omega (arith, p.0, q.0))
and_rows-stored zero (x ∷ xs) (y ∷ ys) p q = absurd (omega (arith, p.0))
and_rows-stored (suc count) (x ∷ xs) (y ∷ ys) p q = λ i.
    stored_word (bit_and (word_bits-stored_word x p.1.0 i) (word_bits-stored_word y q.1.0 i))
    ∷ and_rows-stored count xs ys (omega (arith, p.0), p.1.1) (omega (arith, q.0), q.1.1) i

zip_words-IsRow :
    (f : ℕ → ℕ → ℕ) (count : ℕ) (xs ys : List ℕ)
    → ((x y : ℕ) → x < 2 ^ 32 → y < 2 ^ 32 → f x y < 2 ^ 32)
    → IsRow count xs
    → IsRow count ys
    → IsRow count (zip_words f xs ys)
unfolding zip_words
zip_words-IsRow f count [] ys small p q = (p.0, tt)
zip_words-IsRow f count (x ∷ xs) [] small p q = absurd (omega (arith, p.0, q.0))
zip_words-IsRow f zero (x ∷ xs) (y ∷ ys) small p q = absurd (omega (arith, p.0))
zip_words-IsRow f (suc count) (x ∷ xs) (y ∷ ys) small p q =
    let (n, rest) =
      zip_words-IsRow f count xs ys small (omega (arith, p.0), p.1.1) (omega (arith, q.0), q.1.1) in
    (ap suc n, (small x y p.1.0 q.1.0, rest))

zip_words-lane :
    (f : ℕ → ℕ → ℕ) (g : Bool → Bool → Bool) (count : ℕ) (xs ys : List ℕ) (k s : ℕ)
    → ((x y : ℕ) → lane (f x y) s ≡ g (lane x s) (lane y s))
    → length xs ≡ count
    → length ys ≡ count
    → k < count
    → row_lane (zip_words f xs ys) k s ≡ g (row_lane xs k s) (row_lane ys k s)
unfolding zip_words
zip_words-lane f g count [] ys k s law p q lt = absurd (omega (arith, p))
zip_words-lane f g count (x ∷ xs) [] k s law p q lt = absurd (omega (arith, q))
zip_words-lane f g count (x ∷ xs) (y ∷ ys) zero s law p q lt = law x y
zip_words-lane f g zero (x ∷ xs) (y ∷ ys) (suc k) s law p q lt = elim lt [ ]
zip_words-lane f g (suc count) (x ∷ xs) (y ∷ ys) (suc k) s law p q lt =
    zip_words-lane f g count xs ys k s law (omega (arith, p)) (omega (arith, q)) (omega arith)

pub or_rows-lanes :
    (count : ℕ) (xs ys : List ℕ)
    → IsRow count xs
    → IsRow count ys
    → (ws : List ℕ) × (or_rows (stored xs) (stored ys) ≡ stored ws)
      × IsRow count ws
      × ((k s : ℕ) → k < count → row_lane ws k s ≡ row_lane xs k s || row_lane ys k s)
or_rows-lanes count xs ys p q = (
  zip_words bit_or xs ys,
  or_rows-stored count xs ys p q,
  zip_words-IsRow bit_or count xs ys (bit_or-lt 32) p q,
  λ k s lt. zip_words-lane bit_or ◌||◌ count xs ys k s (lane-bit_or s) p.0 q.0 lt,
)

pub and_rows-lanes :
    (count : ℕ) (xs ys : List ℕ)
    → IsRow count xs
    → IsRow count ys
    → (ws : List ℕ) × (and_rows (stored xs) (stored ys) ≡ stored ws)
      × IsRow count ws
      × ((k s : ℕ) → k < count → row_lane ws k s ≡ row_lane xs k s && row_lane ys k s)
and_rows-lanes count xs ys p q = (
  zip_words bit_and xs ys,
  and_rows-stored count xs ys p q,
  zip_words-IsRow bit_and count xs ys (bit_and-lt 32) p q,
  λ k s lt. zip_words-lane bit_and ◌&&◌ count xs ys k s (lane-bit_and s) p.0 q.0 lt,
)

-- A row has a word that is not zero exactly when some lane of it is set.
pub any_lane :
    (count : ℕ) (ws : List ℕ)
    → IsRow count ws
    → (any (map is_nonzero (stored ws)) ≡ true)
      ↔ ((k : ℕ) × (s : ℕ) × (k < count) × (s < 32) × (row_lane ws k s ≡ true))
unfolding any
any_lane count [] p = (λ h. cc, λ h. absurd (omega (arith, p.0, h.2)))
any_lane zero (w ∷ ws) p = absurd (omega (arith, p.0))
any_lane (suc count) (w ∷ ws) p = (
  λ h. elim (Bool-cases (is_nonzero (stored_word w))) [
    | inl here ↦
        let (s, lt, l) =
          some_lane 32 w p.1.0 (ltb→lt 0 w (sym (is_nonzero-stored_word w) ∙ here)) in
        (0, s, omega arith, lt, l)
    | inr not_here ↦
        let (k, s, lt, lt', l) =
          (any_lane count ws (omega (arith, p.0), p.1.1)).0 (later not_here h) in
        (suc k, s, omega arith, lt', l)
  ],
  λ h.
      back (λ k s lt lt' l. (any_lane count ws (omega (arith, p.0), p.1.1)).1 (k, s, lt, lt', l))
        h.0 h.1 h.2 h.3 h.4,
)
  where
    later :
        is_nonzero (stored_word w) ≡ false
        → (is_nonzero (stored_word w) || any (map is_nonzero (stored ws))) ≡ true
        → any (map is_nonzero (stored ws)) ≡ true
    later e h = ground arith

    first : (a b : Bool) → a ≡ true → (a || b) ≡ true
    first a b e = ground arith

    second : (a b : Bool) → b ≡ true → (a || b) ≡ true
    second a b e = ground arith

    back :
        ((k s : ℕ)
          → k < count
          → s < 32
          → row_lane ws k s ≡ true
          → any (map is_nonzero (stored ws)) ≡ true)
        → (k s : ℕ) → k < suc count
        → s < 32
        → row_lane (w ∷ ws) k s ≡ true
        → (is_nonzero (stored_word w) || any (map is_nonzero (stored ws))) ≡ true
    back rest zero s lt lt' l = first _ _ (is_nonzero-stored_word w ∙ lt→ltb 0 w (lane_pos w s l))
    back rest (suc k) s lt lt' l = second _ _ (rest k s (omega arith) lt' l)
