-- ===== src/Routing.antt =====
-- rola/routing/activations.py and the levels, the topology and the decay of rola/routing/types.py.
-- A width is an exact int that is not negative.
pub mod Decay
pub mod Constructed
pub mod Packed
pub mod Runs
pub mod Descriptor
pub mod Metadata
pub mod Columns
pub mod Sides
pub mod Canonical
pub mod Accepted
pub mod Plan
pub mod Factors
pub mod Entries
pub mod Bundle
mod Tests
pub mod Padded
pub mod Clock
use rola.Prelude.{
  Bool, List, Result, [], false, if◌then◌else◌, length, map, not, ok, raised, refuse_if, suc, true,
  value_error, ℕ, ◌&&◌, ◌++◌, ◌==◌, ◌>>=◌, ◌>>◌, ◌∷◌,
}
use rola.Padding.{padded_level_width, validate_level_width, validate_routing_shape}

-- The parameter of entmax: the two values that have a row, and every other float.
pub data Alpha : Type 0 where
  three_halves two : Alpha
  other_alpha : ℕ → Alpha

-- `ActivationTag`: the families that have a row, and every other tag.
pub data Tag : Type 0 where
  softmax opaque : Tag
  entmax : Alpha → Tag
  unknown : ℕ → Tag

pub record ActivationProperties : Type 0 where
  pub normalized : Bool
  pub simplex_output : Bool
  pub exact_zeros : Bool
  pub support_differentiable : Bool
  pub kerneled : Bool

-- `ACTIVATION_REGISTRY`
abbrev pub softmax_row : ActivationProperties
softmax_row = record {
  normalized = true;
  simplex_output = true;
  exact_zeros = false;
  support_differentiable = true;
  kerneled = true;
}

abbrev pub entmax_row : ActivationProperties
entmax_row = record {
  normalized = true;
  simplex_output = true;
  exact_zeros = true;
  support_differentiable = false;
  kerneled = true;
}

abbrev pub opaque_row : ActivationProperties
opaque_row = record {
  normalized = true;
  simplex_output = false;
  exact_zeros = true;
  support_differentiable = false;
  kerneled = true;
}

-- `properties_for`; UnknownActivation is a ValueError.
unfoldable pub properties_for : Tag → Result ActivationProperties
properties_for softmax = ok softmax_row
properties_for opaque = ok opaque_row
properties_for (entmax three_halves) = ok entmax_row
properties_for (entmax two) = ok entmax_row
properties_for (entmax (other_alpha n)) = raised value_error
properties_for (unknown n) = raised value_error

pub data Duty : Type 0 where
  read write : Duty

-- `LevelRouting`: IndependentRouting, TiedRouting, UnionRouting and OpaqueRouting.
pub data LevelRouting : Type 0 where
  independent : ℕ → Tag → Tag → LevelRouting
  tied : ℕ → Tag → LevelRouting
  union : ℕ → Alpha → LevelRouting
  foreign : ℕ → LevelRouting

-- `level.width`
unfoldable pub width_of : LevelRouting → ℕ
width_of (independent width r w) = width
width_of (tied width op) = width
width_of (union width alpha) = width
width_of (foreign width) = width

-- The `__post_init__` of the four.
unfoldable pub level_routing : LevelRouting → Result LevelRouting
unfolding properties_for validate_level_width
level_routing (independent width r w) = do
  checked ← validate_level_width width
  reads ← properties_for r
  writes ← properties_for w
  refuse_if (reads.exact_zeros && writes.exact_zeros) value_error
  ok (independent width r w)
level_routing (tied width op) = do
  checked ← validate_level_width width
  properties ← properties_for op
  ok (tied width op)
level_routing (union width alpha) = do
  checked ← validate_level_width width
  properties ← properties_for (entmax alpha)
  refuse_if (not properties.exact_zeros) value_error
  ok (union width alpha)
level_routing (foreign width) = do checked ← validate_level_width width; ok (foreign width)

-- `level.activation(duty)`, as its tag
unfoldable pub activation : LevelRouting → Duty → Tag
activation (independent width r w) read = r
activation (independent width r w) write = w
activation (tied width op) duty = op
activation (union width alpha) duty = entmax alpha
activation (foreign width) duty = opaque

-- `level.at(width)`
unfoldable pub at_width : LevelRouting → ℕ → Result LevelRouting
unfolding level_routing
at_width (independent w r s) width = level_routing (independent width r s)
at_width (tied w op) width = level_routing (tied width op)
at_width (union w alpha) width = level_routing (union width alpha)
at_width (foreign w) width = level_routing (foreign width)

-- `level.duty_simplex_output(duty)`
unfoldable pub duty_simplex_output : LevelRouting → Duty → Result Bool
unfolding activation properties_for
duty_simplex_output (union width alpha) read = ok false
duty_simplex_output level duty = properties_for (activation level duty) >>= λ p. ok p.simplex_output

-- `Topology`, over levels that were constructed
unfoldable pub topology : List LevelRouting → Result (List LevelRouting)
unfolding validate_routing_shape width_of
topology levels = do branches ← validate_routing_shape (map width_of levels); ok levels

-- The levels of `Topology.padded`.
unfoldable pub padded_levels : List LevelRouting → Result (List LevelRouting)
unfolding padded_level_width at_width width_of
padded_levels [] = ok []
padded_levels (level ∷ levels) = do
  width ← padded_level_width (width_of level)
  padded ← at_width level width
  rest ← padded_levels levels
  ok (padded ∷ rest)

-- `Topology.padded`
unfoldable pub padded : List LevelRouting → Result (List LevelRouting)
unfolding padded_levels topology
padded levels = padded_levels levels >>= topology

-- `Topology.unratified_activations`, as the cells; `duty_cells` gives each level's read and write.
unfoldable pub unratified_from : ℕ → List LevelRouting → Result (List (ℕ × Duty))
unfolding activation properties_for
unratified_from i [] = ok []
unratified_from i (level ∷ levels) = do
  reads ← properties_for (activation level read)
  writes ← properties_for (activation level write)
  rest ← unratified_from (suc i) levels
  ok (
      (if reads.kerneled then [] else (i, read) ∷ [])
      ++ ((if writes.kerneled then [] else (i, write) ∷ []) ++ rest))

-- `Topology.kerneled`
unfoldable pub kerneled : List LevelRouting → Result Bool
unfolding unratified_from
kerneled levels = unratified_from 0 levels >>= λ cells. ok (length cells == 0)
