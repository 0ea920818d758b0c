-- ===== src/Lattice/Box.antt =====
-- `box_shape` and `permutation`. The float `math.log2`, cut to an int, is a parameter; the code
-- tests what it gives.
use rola.Prelude.{
  Bool, List, Result, [], if◌then◌else◌, index_error, leb, length, map, max, min, not, ok, raised,
  refuse_if, suc, sum, value_error, zero, ℕ, ◌%◌, ◌&&◌, ◌*◌, ◌+◌, ◌-◌, ◌/◌, ◌==◌, ◌>>=◌, ◌>>◌, ◌^◌,
  ◌||◌, ◌∷◌,
}
use rola.Tensor.{arange}
use rola.Lattice.{Level, leaves, lattice_index}

-- The condition of the `while` loop, and the loop; `fuel` rounds are left.
unfoldable pub fits_inner : ℕ → ℕ → ℕ → Bool
fits_inner k width c = leb (k * 2 ^ (c + 1)) width && width % (k * 2 ^ (c + 1)) == 0

unfoldable pub ceil_inner : ℕ → ℕ → ℕ → ℕ → ℕ
unfolding fits_inner
ceil_inner zero k width c = c
ceil_inner (suc fuel) k width c =
    let rest = ceil_inner fuel k width (suc c) in if fits_inner k width c then rest else c

-- `a_inner`; the width bounds the rounds.
unfoldable pub a_inner : ℕ → ℕ → ℕ → ℕ → ℕ → ℕ
unfolding ceil_inner
a_inner depth j kappa k width =
    min
      (min (max (j / depth + (if j % depth == 0 then 0 else 1)) (4 - kappa))
        (ceil_inner width k width 0))
      j

-- `a[l]`
unfoldable pub exponent : ℕ → ℕ → ℕ → ℕ → ℕ
exponent depth inner j_outer l =
    if l == depth - 1
    then inner
    else j_outer / (depth - 1) + (if leb (depth - 1 - j_outer % (depth - 1)) l then 1 else 0)

unfoldable pub levels : ℕ → List ℕ → List ℕ → List Level
levels k (w ∷ widths) (a ∷ exponents) =
    record { width = w; span = k * 2 ^ a } ∷ levels k widths exponents
levels k _ _ = []

-- `widths[D - 1]`
unfoldable pub innermost : List ℕ → Result ℕ
innermost [] = raised index_error
innermost (w ∷ []) = ok w
innermost (w ∷ v ∷ widths) = innermost (v ∷ widths)

-- The loop over the levels.
unfoldable pub check_spans : List Level → Result (Unit {0})
check_spans [] = ok tt
check_spans (l ∷ box) =
    let rest = check_spans box in if l.width % l.span == 0 then rest else raised value_error

-- The exponents `a` of `box_shape`.
unfoldable pub exponents : (ℕ → ℕ) → ℕ → ℕ → ℕ → ℕ → List ℕ
unfolding a_inner exponent
exponents log2 depth k m width =
    let inner = a_inner depth (log2 m) (log2 k) k width in
    map (exponent depth inner (log2 m - inner)) (arange 0 depth)

-- `box_shape`
unfoldable pub box_shape : (ℕ → ℕ) → List ℕ → ℕ → ℕ → Result (List Level)
unfolding exponents levels innermost check_spans
box_shape log2 widths k m = do
  refuse_if (m == 0 || not (2 ^ log2 m == m)) value_error
  refuse_if (k == 0 || not (2 ^ log2 k == k)) value_error
  width ← innermost widths
  refuse_if (not (sum (exponents log2 (length widths) k m width) == log2 m)) value_error
  check_spans (levels k widths (exponents log2 (length widths) k m width))
  ok (levels k widths (exponents log2 (length widths) k m width))

-- `permutation`
unfoldable pub permutation : (ℕ → ℕ) → List ℕ → ℕ → ℕ → Result (List ℕ)
unfolding box_shape lattice_index
permutation log2 widths k m =
    box_shape log2 widths k m >>= λ box. ok (map (lattice_index box) (arange 0 (leaves box)))
