-- ===== src/Lattice/Tests.antt =====
-- The built arm: two levels of width 64, with spans 8 and 16.
use rola.Prelude.{List, [], arith, if◌then◌else◌, ltb, ok, refl, replicate, ℕ, ◌-◌, ◌∷◌, ◌≡◌, ◌⊎◌}
use rola.Lattice.{Level}
use rola.Lattice.Box.{
  fits_inner, ceil_inner, a_inner, exponent, exponents, levels, innermost, check_spans, box_shape,
}
use rola.Tensor.{arange}
use rola.Padding.{bit_length}
use rola.Lattice.Search.{derive_lattice, rank_of, spans_of}
use rola.Lattice.Admitted.{IsCandidate}
use rola.Lattice.Ranks.{IsBetter}
use rola.Lattice.Best.{derive_lattice-best}
use rola.Lattice.Convert.{to_lattice, to_canonical}
use rola.Lattice.Planes.{to_canonical-to_lattice}

abbrev outer : Level
outer = record { width = 64; span = 8 }

abbrev inner : Level
inner = record { width = 64; span = 16 }

abbrev box : List Level
box = outer ∷ inner ∷ []

-- The logarithm of a power of two up to 16.
abbrev log2 : ℕ → ℕ
log2 n =
    if ltb n 2 then 0 else if ltb n 4 then 1 else if ltb n 8 then 2 else if ltb n 16 then 3 else 4

abbrev widths : List ℕ
widths = 64 ∷ 64 ∷ []

built : box_shape log2 widths 4 8 ≡ ok box
unfolding box_shape fits_inner ceil_inner a_inner exponent exponents levels innermost check_spans
    arange
built = refl

-- The logarithm, cut to an int, of a positive number.
abbrev floor_log2 : ℕ → ℕ
floor_log2 n = bit_length n - 1

derived : derive_lattice floor_log2 widths ≡ ok (4, 8)
unfolding derive_lattice bit_length arange
derived = refl

derive_lattice-best_example :
    (k : ℕ) × (m : ℕ) × (derive_lattice floor_log2 widths ≡ ok (k, m))
    × (((box : List Level) × IsCandidate floor_log2 widths k m box
          × ((k' m' : ℕ) (box' : List Level)
              → IsCandidate floor_log2 widths k' m' box'
              → ¬ IsBetter (rank_of (spans_of box') k') (rank_of (spans_of box) k)))
        ⊎ ((k ≡ 1)
            × (m ≡ 1)
            × ((k' m' : ℕ) (box' : List Level) → ¬ IsCandidate floor_log2 widths k' m' box')))
derive_lattice-best_example =
    derive_lattice-best floor_log2 64 (64 ∷ []) (omega arith, (omega arith, tt))

-- Two levels of 4 and 2 digits, in spans of 2 and 2: the rows of the plane are numbered.
abbrev plane : List ℕ
plane = 10 ∷ 11 ∷ 12 ∷ 13 ∷ 14 ∷ 15 ∷ 16 ∷ 17 ∷ []

abbrev small_widths : List ℕ
small_widths = 4 ∷ 2 ∷ []

abbrev small_box : List Level
small_box = record { width = 4; span = 2 } ∷ record { width = 2; span = 2 } ∷ []

small_built : box_shape floor_log2 small_widths 2 1 ≡ ok small_box
unfolding box_shape fits_inner ceil_inner a_inner exponent exponents levels innermost check_spans
    arange bit_length
small_built = refl

to_canonical-to_lattice_example :
    (lattice : List ℕ) × (to_lattice floor_log2 small_widths 2 1 (replicate 8 0) plane ≡ ok lattice)
    × (to_canonical floor_log2 small_widths 2 1 lattice ≡ ok plane)
to_canonical-to_lattice_example =
    to_canonical-to_lattice floor_log2 small_widths 2 1 small_box (replicate 8 0) plane
      (omega arith, (omega arith, tt)) small_built refl refl
