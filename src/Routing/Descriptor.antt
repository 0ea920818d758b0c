-- ===== src/Routing/Descriptor.antt =====
-- `RouteDescriptor` of rola/routing/types.py, and the properties of `ResolvedRouting` that fill one. A
-- tensor is known by its shape, type, layout and device; the numbers are exact ints, and only a support
-- offset may be negative.
use rola.Prelude.{
  Bool, List, Result, [], false, get_or, if◌then◌else◌, length, ltb, not, ok, prod, raised,
  refuse_if, true, value_error, ℕ, ◌++◌, ◌+◌, ◌-◌, ◌/◌, ◌==◌, ◌>>=◌, ◌>>◌, ◌||◌, ◌∷◌,
}
use rola.Padding.{validate_routing_shape, tuple_eq}
use rola.Liveness.Words.{ℤ, pos, negsuc}
use rola.Routing.{LevelRouting, Duty, activation, properties_for}
use rola.Routing.Packed.{last}

-- `ROUTE_DESCRIPTOR_VERSION` and `ROUTE_TILE_SIZE`
abbrev pub route_descriptor_version : ℕ
route_descriptor_version = 2

abbrev pub route_tile_size : ℕ
route_tile_size = 32

pub data Dtype : Type 0 where
  bfloat16 int32 : Dtype
  other_dtype : ℕ → Dtype

pub record TensorFacts : Type 0 where
  pub shape : List ℕ
  pub dtype : Dtype
  pub contiguous : Bool
  pub device : ℕ

pub record RouteDescriptor : Type 0 where
  pub read_values : TensorFacts
  pub write_values : TensorFacts
  pub support_words : TensorFacts
  pub level_offsets : List ℕ
  pub support_offsets : List ℤ
  pub level_widths : List ℕ
  pub radix_strides : List ℕ
  pub support_side_flags : List ℕ
  pub token_origin : ℕ
  pub token_count : ℕ
  pub topology_stamp : List ℕ

-- `prod(widths[index + 1:])` for each index
unfoldable pub radix_strides : List ℕ → List ℕ
radix_strides [] = []
radix_strides (w ∷ widths) = prod widths ∷ radix_strides widths

-- `read_level_can_zero` and `write_level_can_zero`, at one level
unfoldable pub level_can_zero : LevelRouting → Duty → Result Bool
unfolding activation properties_for
level_can_zero (LevelRouting.union w alpha) duty = ok true
level_can_zero level duty = properties_for (activation level duty) >>= λ p. ok p.exact_zeros

-- `support_side_flags`
unfoldable pub support_side_flags : List LevelRouting → Result (List ℕ)
unfolding level_can_zero
support_side_flags [] = ok []
support_side_flags (level ∷ levels) = do
  reads ← level_can_zero level Duty.read
  writes ← level_can_zero level Duty.write
  rest ← support_side_flags levels
  ok (((if reads then 1 else 0) + (if writes then 2 else 0)) ∷ rest)

-- `support_offsets`, with `next` columns taken
unfoldable pub support_offsets_from : ℕ → List ℕ → List ℕ → List ℤ
support_offsets_from next (w ∷ widths) (f ∷ flags) =
    (if f == 0 then negsuc 0 else pos next)
    ∷ support_offsets_from (if f == 0 then next else next + w) widths flags
support_offsets_from next _ _ = []

-- `topology_stamp`
unfoldable pub stamp_of : List ℕ → List ℕ → List ℕ → List ℕ
stamp_of widths strides flags =
    route_descriptor_version ∷ length widths ∷ (widths ++ (strides ++ flags))

-- The parts of `RouteDescriptor.__post_init__`, in their order.
unfoldable pub check_ranks : RouteDescriptor → Result (Unit {0})
check_ranks d = do
  refuse_if (not (length d.read_values.shape == 4) || not (length d.write_values.shape == 4))
      value_error
  refuse_if (not (length d.support_words.shape == 3)) value_error

unfoldable pub check_counts : RouteDescriptor → Result (Unit {0})
unfolding validate_routing_shape
check_counts d = do
  refuse_if
      (length d.level_widths == 0 || not (length d.level_offsets == length d.level_widths + 1))
      value_error
  shape ← validate_routing_shape d.level_widths
  refuse_if
      (not (length d.support_offsets == length d.level_widths)
        || (not (length d.radix_strides == length d.level_widths)
            || not (length d.support_side_flags == length d.level_widths)))
      value_error

-- The `any` over starts, ends and widths.
unfoldable pub any_bad_slice : List ℕ → List ℕ → Bool
any_bad_slice (start ∷ stop ∷ offsets) (w ∷ widths) =
    not (stop == start + w) || (ltb w 2 || any_bad_slice (stop ∷ offsets) widths)
any_bad_slice _ _ = false

unfoldable pub check_slices : List ℕ → List ℕ → Result (Unit {0})
unfolding any_bad_slice
check_slices offsets widths =
    refuse_if (not (get_or offsets 0 0 == 0) || any_bad_slice offsets widths) value_error

unfoldable pub is_offset : ℕ → ℤ → Bool
is_offset n (pos m) = m == n
is_offset n (negsuc m) = false

unfoldable pub is_dense_offset : ℤ → Bool
is_dense_offset (pos m) = false
is_dense_offset (negsuc m) = m == 0

-- The loop over the support offsets; it returns `expected_support_offset`.
unfoldable pub check_support : ℕ → List ℤ → List ℕ → List ℕ → Result ℕ
unfolding is_offset is_dense_offset
check_support expected (o ∷ offsets) (w ∷ widths) (f ∷ flags) =
    let rest = check_support (if f == 0 then expected else expected + w) offsets widths flags in
    if ltb 3 f
    then raised value_error
    else if (if f == 0 then is_dense_offset o else is_offset expected o)
    then rest
    else raised value_error
check_support expected _ _ _ = ok expected

unfoldable pub is_bfloat16 : Dtype → Bool
is_bfloat16 bfloat16 = true
is_bfloat16 int32 = false
is_bfloat16 (other_dtype n) = false

unfoldable pub is_int32 : Dtype → Bool
is_int32 int32 = true
is_int32 bfloat16 = false
is_int32 (other_dtype n) = false

-- `route_tiles`
unfoldable pub route_tiles : ℕ → ℕ
route_tiles tokens = (tokens + route_tile_size - 1) / route_tile_size

-- The tests of the values, of `width` columns in all.
unfoldable pub check_values : TensorFacts → TensorFacts → ℕ → ℕ → Result (Unit {0})
unfolding is_bfloat16 tuple_eq
check_values reads writes tiles width =
    let expected = get_or reads.shape 0 0 ∷ tiles ∷ width ∷ route_tile_size ∷ [] in
    do
      refuse_if
          (not (is_bfloat16 reads.dtype)
            || (not (is_bfloat16 writes.dtype)
                || (not (tuple_eq reads.shape expected)
                    || (not (tuple_eq writes.shape expected)
                        || (not reads.contiguous || not writes.contiguous)))))
          value_error
      refuse_if (not (reads.device == writes.device)) value_error

unfoldable pub check_words : TensorFacts → TensorFacts → ℕ → ℕ → Result (Unit {0})
unfolding is_int32 tuple_eq
check_words reads words tiles width =
    refuse_if
      (not (is_int32 words.dtype)
        || (not (tuple_eq words.shape (get_or reads.shape 0 0 ∷ tiles ∷ width ∷ []))
            || (not words.contiguous || not (words.device == reads.device))))
      value_error

-- `RouteDescriptor`
unfoldable pub route_descriptor : RouteDescriptor → Result (Unit {0})
route_descriptor d = do
  check_ranks d
  check_counts d
  check_slices d.level_offsets d.level_widths
  expected ← check_support 0 d.support_offsets d.level_widths d.support_side_flags
  refuse_if (not (tuple_eq d.radix_strides (radix_strides d.level_widths))) value_error
  check_values d.read_values d.write_values (route_tiles d.token_count) (last d.level_offsets)
  check_words d.read_values d.support_words (route_tiles d.token_count) expected
  refuse_if
      (not
        (tuple_eq d.topology_stamp (stamp_of d.level_widths d.radix_strides d.support_side_flags)))
      value_error
