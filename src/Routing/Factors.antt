-- ===== src/Routing/Factors.antt =====
-- `RouteFactors` of rola/routing/factors.py: the tensors of the two sides, known by shape, type and
-- device.
use rola.Prelude.{
  Bool, List, Option, Result, [], false, get_or, if◌then◌else◌, length, map, none, not, ok, raised,
  refuse_if, some, take, true, type_error, value_error, ℕ, ◌==◌, ◌>>=◌, ◌>>◌, ◌∷◌,
}
use rola.Padding.{tuple_eq}
use rola.Routing.{LevelRouting, width_of}
use rola.Routing.Descriptor.{TensorFacts, Dtype}

-- What a field holds: None, something that is not a tensor, or a tensor.
pub data Entry : Type 0 where
  missing foreign : Entry
  tensor : TensorFacts → Entry

pub record RouteFactors : Type 0 where
  pub topology : Option (List LevelRouting)
  pub read : List Entry
  pub write : List Entry
  pub g_write : Entry
  pub read_mass : Entry

-- `tuple(tensor.shape[:3])`
unfoldable pub prefix_of : TensorFacts → List ℕ
prefix_of t = take 3 t.shape

unfoldable pub same_dtype : Dtype → Dtype → Bool
same_dtype Dtype.bfloat16 Dtype.bfloat16 = true
same_dtype Dtype.int32 Dtype.int32 = true
same_dtype (Dtype.other_dtype a) (Dtype.other_dtype b) = a == b
same_dtype _ _ = false

-- The tests of a level against `read[0]`, which is the first tensor that the loop meets, so that it is
-- there exactly when `prefix` is not None.
unfoldable pub agree_with : Option TensorFacts → TensorFacts → Result TensorFacts
unfolding tuple_eq prefix_of same_dtype
agree_with none t = ok t
agree_with (some first) t =
    if not (tuple_eq (prefix_of t) (prefix_of first))
    then raised value_error
    else if not (t.device == first.device)
    then raised value_error
    else if not (same_dtype t.dtype first.dtype)
    then raised value_error
    else ok first

-- The body of the loop, which gives `read[0]`.
unfoldable pub check_level : Option TensorFacts → ℕ → Entry → Result TensorFacts
unfolding agree_with
check_level first width missing = raised type_error
check_level first width foreign = raised type_error
check_level first width (tensor t) =
    if not (length t.shape == 4)
    then raised type_error
    else if not (get_or t.shape 3 0 == width)
    then raised value_error
    else agree_with first t

unfoldable pub check_side : Option TensorFacts → List ℕ → List Entry → Result (Option TensorFacts)
unfolding check_level
check_side first (w ∷ widths) (e ∷ entries) =
    check_level first w e >>= λ kept. check_side (some kept) widths entries
check_side first _ _ = ok first

-- `tuple(column.shape) != prefix`, where None is no tuple
unfoldable pub is_prefix : Option TensorFacts → TensorFacts → Bool
unfolding tuple_eq prefix_of
is_prefix none t = false
is_prefix (some first) t = tuple_eq t.shape (prefix_of first)

unfoldable pub check_column : Option TensorFacts → Entry → Result (Unit {0})
unfolding is_prefix
check_column first missing = ok tt
check_column first foreign = raised value_error
check_column first (tensor t) = refuse_if (not (is_prefix first t)) value_error

-- The two sides, and what `read[0]` then is.
unfoldable pub check_sides : RouteFactors → List ℕ → Result (Option TensorFacts)
unfolding check_side
check_sides r widths = do reads ← check_side none widths r.read; check_side reads widths r.write

unfoldable pub check_columns : RouteFactors → Option TensorFacts → Result (Unit {0})
unfolding check_column
check_columns r first = do check_column first r.g_write; check_column first r.read_mass

unfoldable pub check_bundle : RouteFactors → List ℕ → Result (Unit {0})
unfolding check_sides check_columns
check_bundle r widths = do
  refuse_if (not (length r.read == length widths)) value_error
  refuse_if (not (length r.write == length widths)) value_error
  first ← check_sides r widths
  check_columns r first

-- `RouteFactors`
unfoldable pub route_factors : RouteFactors → Result RouteFactors
unfolding check_bundle width_of
route_factors r = elim r.topology [
  | none ↦ raised type_error
  | some levels ↦ check_bundle r (map width_of levels) >> ok r
]

-- `read[0]`
unfoldable pub anchor : RouteFactors → Option TensorFacts
anchor r = elim r.read [
  | [] ↦ none
  | missing ∷ es ↦ none
  | foreign ∷ es ↦ none
  | tensor t ∷ es ↦ some t
]
