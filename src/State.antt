-- ===== src/State.antt =====
-- rola/_state.py: the format descriptor of a carried state. A string is a String, and a width list
-- is a list of numbers; the state itself is in State/Carried.antt.
pub mod Widths
pub mod Format
pub mod Carried
pub mod Entry
pub mod Clone
pub mod Invariant
pub mod Held
pub mod Sound
pub mod Bound
pub mod Life
pub mod Copy
pub mod Copied
pub mod Cloned
pub mod Reach
pub mod Refused
pub mod Decode
pub mod Refines
mod Tests
use Prim.Native.Nat.{bit_and}
use text.Mathlib.Text.{◌==◌ as str_eq}
use Prim.Native.String.{String}
use rola.Prelude.{
  Bool, List, Result, [], false, if◌then◌else◌, length, ltb, not, ok, prod, raised, refuse_if, true,
  value_error, ℕ, ◌%◌, ◌&&◌, ◌*◌, ◌+◌, ◌-◌, ◌/◌, ◌==◌, ◌>>◌, ◌^◌, ◌||◌, ◌∷◌,
}
use rola.Keying.{mma_k_quantum}

-- `PAGE_RECTANGLE_BITS`, which is `MMA_K_QUANTUM.bit_length() - 1`
abbrev pub page_rectangle_bits : ℕ
page_rectangle_bits = 4

-- `CANONICAL_ORDER` and `SPLIT_PLANE_DTYPE`
abbrev pub canonical_order : String
canonical_order = "mixed-radix-msb-first"

abbrev pub split_plane_dtype : String
split_plane_dtype = "fp32 as split bf16 planes"

abbrev pub min_level_width : ℕ
min_level_width = 16

pub record StateFormat : Type 0 where
  pub depth : ℕ
  pub widths : List ℕ
  pub order : String
  pub page_bits : ℕ
  pub dv : ℕ
  pub dtype : String
  pub ids : ℕ

-- `N`
unfoldable pub capacity : StateFormat → ℕ
capacity f = prod f.widths

unfoldable pub cols : StateFormat → ℕ
cols f = f.dv + 1

-- `atoms_per_bh`, a shift
unfoldable pub atoms_per_head : StateFormat → ℕ
unfolding capacity
atoms_per_head f = capacity f / 2 ^ f.page_bits

unfoldable pub page_bytes : StateFormat → ℕ
unfolding cols
page_bytes f = 2 ^ f.page_bits * cols f * 4

-- The loop of `__post_init__` over the levels.
unfoldable pub check_widths : List ℕ → Result (Unit {0})
check_widths [] = ok tt
check_widths (width ∷ widths) =
    let rest = check_widths widths in
    if not (bit_and width (width - 1) == 0) || ltb width min_level_width
    then raised value_error
    else rest

-- `StateFormat`, with its `__post_init__`
unfoldable pub state_format : StateFormat → Result StateFormat
unfolding check_widths capacity
state_format f = do
  refuse_if (not (length f.widths == f.depth)) value_error
  check_widths f.widths
  refuse_if (not (str_eq f.order canonical_order)) value_error
  refuse_if (not (f.page_bits == page_rectangle_bits)) value_error
  refuse_if (not (f.dv % 2 == 0)) value_error
  refuse_if (not (capacity f % 2 ^ f.page_bits == 0)) value_error
  ok f

-- Equality of two tuples of numbers.
unfoldable pub widths_eq : List ℕ → List ℕ → Bool
widths_eq [] [] = true
widths_eq [] (b ∷ bs) = false
widths_eq (a ∷ as_left) [] = false
widths_eq (a ∷ as_left) (b ∷ bs) = a == b && widths_eq as_left bs

-- `check`
unfoldable pub check : StateFormat → StateFormat → Result (Unit {0})
unfolding widths_eq
check mine theirs = do
  refuse_if (not (mine.depth == theirs.depth)) value_error
  refuse_if (not (widths_eq mine.widths theirs.widths)) value_error
  refuse_if (not (str_eq mine.order theirs.order)) value_error
  refuse_if (not (mine.page_bits == theirs.page_bits)) value_error
  refuse_if (not (mine.dv == theirs.dv)) value_error
  refuse_if (not (str_eq mine.dtype theirs.dtype)) value_error
  refuse_if (not (mine.ids == theirs.ids)) value_error

-- What a call's routing is to the state. `device` is a handle.
pub record Routes : Type 0 where
  pub batch : ℕ
  pub heads : ℕ
  pub widths : List ℕ
  pub device : ℕ

-- The arguments that `_format_of` calls `StateFormat` with.
unfoldable pub presented : Routes → ℕ → ℕ → StateFormat
presented routes d_v bh = record {
  depth = length routes.widths;
  widths = routes.widths;
  order = canonical_order;
  page_bits = page_rectangle_bits;
  dv = d_v;
  dtype = split_plane_dtype;
  ids = bh * (prod routes.widths / 2 ^ page_rectangle_bits);
}

-- `_format_of`
unfoldable pub format_of : Routes → ℕ → ℕ → Result StateFormat
unfolding presented state_format
format_of routes d_v bh = state_format (presented routes d_v bh)
