-- ===== src/Lattice/Order.antt =====
-- The lattice order is a bijection of the leaves.
use rola.Prelude.{All, List, [], ap, arith, refl, sym, ℕ, ◌%◌, ◌*◌, ◌+◌, ◌/◌, ◌<◌, ◌∙◌, ◌∷◌, ◌≡◌}
use native.Mathlib.Nat.{
  mod-lt, div-add-mod, mul-le-mul_right, mul-le-mul_left, mod-eq_of_lt, add-mul-mod_self_left,
}
use native.Mathlib.Decide.{dec_lt}
use rola.Keying.Address.{one_reading}
use rola.Lattice.{
  Level, leaves, owner_leaves, owners, digit, owner_index, local_index, lattice_index,
}

-- A span is positive and divides its width, as `box_shape` makes sure.
pub record Divides (l : Level) : Type 0 where
  pub span_pos : 0 < l.span
  pub width_pos : 0 < l.width
  pub whole : l.width % l.span ≡ 0

-- A digit of a mixed-radix number, below its radix, leaves the number below its bound.
pub below : (q g r R : ℕ) → q < g → r < R → q * R + r < g * R
below q g r R lt lt' = omega (arith, mul-le-mul_right R lt)

digit-lt : (l : Level) (inner : List Level) (ell : ℕ) → Divides l → digit l inner ell < l.width
unfolding digit
digit-lt l inner ell d = mod-lt (ell / leaves inner) d.width_pos

quotient-lt : (l : Level) (d : ℕ) → Divides l → d < l.width → d / l.span < l.width / l.span
quotient-lt l d v lt = elim (dec_lt (d / l.span) (l.width / l.span)) [
  | yes h ↦ h
  | no h ↦ absurd (
      omega (
        arith,
        div-add-mod d l.span,
        div-add-mod l.width l.span,
        v.whole,
        mul-le-mul_left {m = l.width / l.span} {n = d / l.span} l.span (omega arith),
      ))
]

owner_index-lt : (box : List Level) (ell : ℕ) → All Divides box → owner_index box ell < owners box
unfolding owner_index owners
owner_index-lt [] ell v = omega arith
owner_index-lt (l ∷ box) ell v =
    below _ _ _ (owners box) (quotient-lt l (digit l box ell) v.0 (digit-lt l box ell v.0))
      (owner_index-lt box ell v.1)

local_index-lt :
    (box : List Level) (ell : ℕ) → All Divides box → local_index box ell < owner_leaves box
unfolding local_index owner_leaves
local_index-lt [] ell v = omega arith
local_index-lt (l ∷ box) ell v =
    below _ _ _ (owner_leaves box) (mod-lt (digit l box ell) v.0.span_pos)
      (local_index-lt box ell v.1)

-- The last two digits of a number in a mixed radix.
mod_split : (a w R : ℕ) → 0 < w → 0 < R → a % (w * R) ≡ a / R % w * R + a % R
mod_split a w R pos pos' =
    ap (λ k. k % (w * R)) split
    ∙ add-mul-mod_self_left (a / R % w * R + a % R) (w * R) (a / R / w)
    ∙ mod-eq_of_lt (below (a / R % w) w (a % R) R (mod-lt (a / R) pos) (mod-lt a pos'))
  where
    regroup : (x y z : ℕ) → R * (w * x + y) + z ≡ y * R + z + w * R * x
    regroup x y z = omega arith

    split : a ≡ a / R % w * R + a % R + w * R * (a / R / w)
    split =
        sym (div-add-mod a R)
        ∙ ap (λ k. R * k + a % R) (sym (div-add-mod (a / R) w))
        ∙ regroup (a / R / w) (a / R % w) (a % R)

leaves_pos : (box : List Level) → All Divides box → 0 < leaves box
unfolding leaves
leaves_pos [] v = omega arith
leaves_pos (l ∷ box) v =
    omega (arith, mul-le-mul_right (leaves box) v.0.width_pos, leaves_pos box v.1)

-- Owner and place in it determine the leaf, up to whole tensors.
same_leaf :
    (box : List Level) (a b : ℕ)
    → All Divides box
    → owner_index box a ≡ owner_index box b
    → local_index box a ≡ local_index box b
    → a % leaves box ≡ b % leaves box
unfolding owner_index local_index leaves digit
same_leaf [] a b v o i = omega arith
same_leaf (l ∷ box) a b v o i =
    let (quotient, o') =
      one_reading (owners box) (digit l box a / l.span) (digit l box b / l.span) (owner_index box a)
        (owner_index box b) (owner_index-lt box a v.1) (owner_index-lt box b v.1) o in
    let (rest, i') =
      one_reading (owner_leaves box) (digit l box a % l.span) (digit l box b % l.span)
        (local_index box a) (local_index box b) (local_index-lt box a v.1)
        (local_index-lt box b v.1) i in
    let inner = same_leaf box a b v.1 o' i' in
    let digits : digit l box a ≡ digit l box b = omega (
      arith,
      div-add-mod (digit l box a) l.span,
      div-add-mod (digit l box b) l.span,
      ap (λ k. l.span * k) quotient,
      rest,
    ) in
    mod_split a l.width (leaves box) v.0.width_pos (leaves_pos box v.1)
    ∙ (λ j. digits j * leaves box + inner j)
    ∙ sym (mod_split b l.width (leaves box) v.0.width_pos (leaves_pos box v.1))

owners-owner_leaves :
    (box : List Level) → All Divides box → owners box * owner_leaves box ≡ leaves box
unfolding owners owner_leaves leaves
owners-owner_leaves [] v = refl
owners-owner_leaves (l ∷ box) v =
    regroup (l.width / l.span) (owners box) (owner_leaves box)
    ∙ (λ i. width_is i * owners-owner_leaves box v.1 i)
  where
    width_is : l.span * (l.width / l.span) ≡ l.width
    width_is = omega (arith, div-add-mod l.width l.span, v.0.whole)

    regroup : (g os ls : ℕ) → g * os * (l.span * ls) ≡ l.span * g * (os * ls)
    regroup g os ls = omega arith

-- `permutation` maps each leaf of a box to a place in the plane, and two leaves to two places, where
-- each span is positive and divides its level's width.
pub lattice_index_distinct :
    (box : List Level) (a b : ℕ)
    → All Divides box
    → a < leaves box
    → b < leaves box
    → (lattice_index box a < leaves box) × (lattice_index box a ≡ lattice_index box b → a ≡ b)
unfolding lattice_index
lattice_index_distinct box a b v lt lt' = (
  omega (
    arith,
    below (owner_index box a) (owners box) (local_index box a) (owner_leaves box)
        (owner_index-lt box a v) (local_index-lt box a v),
    owners-owner_leaves box v,
  ),
  λ same.
      let (o, i) =
        one_reading (owner_leaves box) (owner_index box a) (owner_index box b) (local_index box a)
          (local_index box b) (local_index-lt box a v) (local_index-lt box b v) same in
      sym (mod-eq_of_lt lt) ∙ same_leaf box a b v o i ∙ mod-eq_of_lt lt',
)
