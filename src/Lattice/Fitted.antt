-- ===== src/Lattice/Fitted.antt =====
-- A box that `box_shape` returns fits the widths, so that the leaf order is a bijection on it.
use rola.Prelude.{
  >>=-returns, All, Bool-cases, List, [], ap, arith, false, inl, inr, length, map, not, ok, prod,
  refl, refuse_if, suc, sum, value_error, zero, ℕ, ◌%◌, ◌*◌, ◌+◌, ◌<◌, ◌==◌, ◌^◌, ◌||◌, ◌∙◌, ◌∷◌,
  ◌≡◌, ◌≤◌,
}
use rola.Tensor.{arange}
use rola.Tensor.Laws.{length-arange}
use mathlib.Core.Path.{subst}
use rola.Lattice.{Level, leaves, lattice_index}
use rola.Lattice.Box.{fits_inner, ceil_inner, exponents, levels, check_spans, innermost, box_shape}
use rola.Lattice.Order.{Divides, lattice_index_distinct}

two_pow_pos : (n : ℕ) → n < 2 ^ n
two_pow_pos zero = omega arith
two_pow_pos (suc n) = omega (arith, two_pow_pos n)

le-span : (k a : ℕ) → 0 < k → 2 ^ a ≤ k * 2 ^ a
le-span zero a h = absurd (omega arith)
le-span (suc k) a h = omega arith

span-pos : (k a : ℕ) → 0 < k → 0 < k * 2 ^ a
span-pos k a h = omega (arith, two_pow_pos a, le-span k a h)

-- A round for each unit of the width is enough: the loop ends where its condition fails, whatever the
-- width, for a positive span.
pub ceil_inner-exits :
    (fuel k width c : ℕ)
    → 0 < k
    → width ≤ fuel + c
    → fits_inner k width (ceil_inner fuel k width c) ≡ false
unfolding ceil_inner fits_inner
ceil_inner-exits zero k width c pos enough =
    ground (arith, two_pow_pos (c + 1), le-span k (c + 1) pos)
ceil_inner-exits (suc fuel) k width c pos enough = elim (Bool-cases (fits_inner k width c)) [
  | inl more ↦ rw more (ceil_inner-exits fuel k width (suc c) pos (omega arith))
  | inr done ↦ rw done done
]

levels-Divides :
    (k : ℕ) (widths es : List ℕ)
    → 0 < k
    → All (λ w. 0 < w) widths
    → check_spans (levels k widths es) ≡ ok tt
    → All Divides (levels k widths es)
unfolding levels check_spans
levels-Divides k [] es pos v run = tt
levels-Divides k (w ∷ widths) [] pos v run = tt
levels-Divides k (w ∷ widths) (a ∷ es) pos v run = elim (Bool-cases (w % (k * 2 ^ a) == 0)) [
  | inl whole ↦ (
    record { span_pos = span-pos k a pos; width_pos = v.0; whole = ground arith },
    levels-Divides k widths es pos v.1 (ground arith),
  )
  | inr bad ↦ cc
]

leaves-levels :
    (k : ℕ) (widths es : List ℕ)
    → length es ≡ length widths
    → leaves (levels k widths es) ≡ prod widths
unfolding levels leaves
leaves-levels k [] es h = refl
leaves-levels k (w ∷ widths) [] h = absurd (omega arith)
leaves-levels k (w ∷ widths) (a ∷ es) h = ap (λ n. w * n) (leaves-levels k widths es (omega arith))

length-map : (l : List ℕ) (f : ℕ → ℕ) → length (map f l) ≡ length l
length-map [] f = refl
length-map (x ∷ xs) f = ap suc (length-map xs f)

length-exponents :
    (log2 : ℕ → ℕ) (depth k m width : ℕ) → length (exponents log2 depth k m width) ≡ depth
unfolding exponents
length-exponents log2 depth k m width = length-map (arange 0 depth) _ ∙ length-arange 0 depth

-- What is said of a box that is returned.
abbrev pub IsFitted : List ℕ → List Level → Type 0
IsFitted widths box = All Divides box × (leaves box ≡ prod widths)

pub box_shape-IsFitted :
    (log2 : ℕ → ℕ) (widths : List ℕ) (k m : ℕ) (box : List Level)
    → All (λ w. 0 < w) widths
    → box_shape log2 widths k m ≡ ok box
    → IsFitted widths box
unfolding box_shape
box_shape-IsFitted log2 widths k m box v =
    >>=-returns {Q = IsFitted widths} (refuse_if (m == 0 || not (2 ^ log2 m == m)) value_error)
      (λ t e1.
        >>=-returns {Q = IsFitted widths} (refuse_if (k == 0 || not (2 ^ log2 k == k)) value_error)
          (λ u e2. >>=-returns {Q = IsFitted widths} (innermost widths) (λ width e3.
            >>=-returns {Q = IsFitted widths}
              (refuse_if (not (sum (exponents log2 (length widths) k m width) == log2 m))
                value_error)
              (λ w e4.
                >>=-returns {Q = IsFitted widths}
                  (check_spans (levels k widths (exponents log2 (length widths) k m width)))
                  (λ x e5 b made.
                    subst (IsFitted widths)
                      (ok_same (levels k widths (exponents log2 (length widths) k m width)) b made)
                      (
                        levels-Divides k widths (exponents log2 (length widths) k m width)
                            (ground arith) v e5,
                        leaves-levels k widths (exponents log2 (length widths) k m width)
                            (length-exponents log2 (length widths) k m width),
                      ))))))
      box
  where
    ok_same : (a b : List Level) → ok a ≡ ok b → a ≡ b
    ok_same a b h = cc

-- A box that `box_shape` returns on positive widths is laid out over all the leaves: `permutation`
-- then gives each leaf a place below their number, and two leaves two places.
pub box_shape_distinct :
    (log2 : ℕ → ℕ) (widths : List ℕ) (k m : ℕ) (box : List Level) (a b : ℕ)
    → All (λ w. 0 < w) widths
    → box_shape log2 widths k m ≡ ok box
    → a < prod widths
    → b < prod widths
    → (lattice_index box a < prod widths) × (lattice_index box a ≡ lattice_index box b → a ≡ b)
box_shape_distinct log2 widths k m box a b v run lt lt' =
    let (divides, whole) = box_shape-IsFitted log2 widths k m box v run in
    let (inside, apart) =
      lattice_index_distinct box a b divides (omega (arith, whole)) (omega (arith, whole)) in
    (omega (arith, whole), apart)
