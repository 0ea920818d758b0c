-- ===== src/Padding.antt =====
-- rola/routing/topology.py and rola/ops/padding.py: the padded widths, and the padding of a tensor's
-- last dimension. A tensor is its rows along that dimension, of one width.
pub mod Level
pub mod Value
mod Tests
use rola.Prelude.{
  Bool, List, Result, [], false, if◌then◌else◌, leb, length, ltb, map, max, min, not, ok, raised,
  refuse_if, replicate, suc, take, true, value_error, zero, ℕ, ◌&&◌, ◌++◌, ◌-◌, ◌/◌, ◌==◌, ◌>>=◌,
  ◌>>◌, ◌^◌, ◌∷◌,
}

-- `MAX_ROUTING_DEPTH`, `MAX_BRANCH_WIDTH` and `PADDED_LEVEL_FLOOR`
abbrev pub max_routing_depth : ℕ
max_routing_depth = 4

abbrev pub max_branch_width : ℕ
max_branch_width = 256

abbrev pub padded_level_floor : ℕ
padded_level_floor = 16

-- `int.bit_length`; each digit is a half, and `digits` of them are enough for a number up to it.
unfoldable pub bit_length_by : ℕ → ℕ → ℕ
bit_length_by zero n = 0
bit_length_by (suc digits) zero = 0
bit_length_by (suc digits) (suc n) = suc (bit_length_by digits (suc n / 2))

unfoldable pub bit_length : ℕ → ℕ
unfolding bit_length_by
bit_length n = bit_length_by n n

-- `padded_level_width`, at an exact int that is not negative
unfoldable pub padded_level_width : ℕ → Result ℕ
unfolding bit_length
padded_level_width width =
    if ltb width 1
    then raised value_error
    else ok (2 ^ bit_length (max width padded_level_floor - 1))

-- `validate_level_width`, at an exact int that is not negative
unfoldable pub validate_level_width : ℕ → Result ℕ
validate_level_width width = do
  refuse_if (ltb width 1) value_error
  refuse_if (ltb max_branch_width width) value_error
  ok width

-- The loop of `validate_routing_shape`.
unfoldable pub check_branches : List ℕ → Result (Unit {0})
check_branches [] = ok tt
check_branches (width ∷ branches) =
    let rest = check_branches branches in
    if ltb max_branch_width width then raised value_error else rest

-- `validate_routing_shape`
unfoldable pub validate_routing_shape : List ℕ → Result (List ℕ)
unfolding check_branches
validate_routing_shape branches = do
  refuse_if (length branches == 0) value_error
  refuse_if (ltb max_routing_depth (length branches)) value_error
  check_branches branches
  ok branches

-- `tuple(padded_level_width(w) for w in widths)`
unfoldable pub padded_widths : List ℕ → Result (List ℕ)
unfolding padded_level_width
padded_widths [] = ok []
padded_widths (width ∷ widths) = do
  padded ← padded_level_width width
  rest ← padded_widths widths
  ok (padded ∷ rest)

-- `padded_value_width`
unfoldable pub padded_value_width : ℕ → List ℕ → Result ℕ
padded_value_width d_v [] = raised value_error
padded_value_width d_v (width ∷ shipped) =
    let rest = padded_value_width d_v shipped in if leb d_v width then ok width else rest

pub record PaddedShape : Type 0 where
  pub widths : List ℕ
  pub padded : List ℕ
  pub d_v : ℕ
  pub dv : ℕ

-- `PaddedShape.of`
unfoldable pub padded_shape : List ℕ → ℕ → List ℕ → Result PaddedShape
unfolding padded_widths padded_value_width
padded_shape widths d_v shipped = do
  padded ← padded_widths widths
  dv ← padded_value_width d_v shipped
  ok (record { widths = widths; padded = padded; d_v = d_v; dv = dv })

unfoldable pub tuple_eq : List ℕ → List ℕ → Bool
tuple_eq [] [] = true
tuple_eq [] (b ∷ right) = false
tuple_eq (a ∷ left) [] = false
tuple_eq (a ∷ left) (b ∷ right) = a == b && tuple_eq left right

-- `is_padded`
unfoldable pub is_padded : PaddedShape → Bool
unfolding tuple_eq
is_padded s = tuple_eq s.widths s.padded && s.d_v == s.dv

-- A tensor, its last dimension innermost.
pub record Tensor {ℓ} (V : Type ℓ) : Type ℓ where
  pub last_dim : ℕ
  pub rows : List (List V)

module _ {ℓ} {V : Type ℓ} (zero_value : V) where
  -- `_pad_last_dim`
  unfoldable pub pad_last_dim : Tensor V → ℕ → Result (Tensor V)
  pad_last_dim t width =
      if t.last_dim == width
      then ok t
      else if ltb width t.last_dim
      then raised value_error
      else ok (record {
        last_dim = width;
        rows = map (λ row. row ++ replicate (width - t.last_dim) zero_value) t.rows;
      })

  -- The loop of `pad_routes` over levels and widths, which are as many.
  unfoldable pub pad_levels : List (Tensor V) → List ℕ → Result (List (Tensor V))
  unfolding pad_last_dim
  pad_levels [] widths = ok []
  pad_levels (level ∷ levels) [] = raised value_error
  pad_levels (level ∷ levels) (width ∷ widths) = do
    padded ← pad_last_dim level width
    rest ← pad_levels levels widths
    ok (padded ∷ rest)

  -- `pad_routes`
  unfoldable pub pad_routes : List (Tensor V) → List ℕ → Result (List (Tensor V))
  unfolding pad_levels
  pad_routes levels widths = do
    refuse_if (not (length levels == length widths)) value_error
    pad_levels levels widths

  -- `pad_v`
  unfoldable pub pad_v : Tensor V → ℕ → Result (Tensor V)
  unfolding pad_last_dim
  pad_v v dv = pad_last_dim v dv

-- `slice_y`, which also copes with a width past the end
unfoldable pub slice_y {ℓ} : {V : Type ℓ} → Tensor V → ℕ → Tensor V
slice_y y d_v = record { last_dim = min d_v y.last_dim; rows = map (take d_v) y.rows }
