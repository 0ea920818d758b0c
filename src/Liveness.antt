-- ===== src/Liveness.antt =====
-- rola/engine/facts/liveness.py: the layout of the liveness words, and the static operands of a side.
-- A tensor over the batch-heads is taken at one batch-head; a row is the list of its tokens' bits or
-- of its words.
pub mod Words
pub mod Boxes
pub mod Folds
pub mod Spans
pub mod Lanes
pub mod RowLanes
pub mod Runs
pub mod Numbers
pub mod Digits
pub mod Activity
pub mod Layout
pub mod Roundtrip
pub mod Mask
mod Tests
use Prim.Native.Nat.{bit_or}
use rola.Prelude.{
  Bool, List, Result, [], false, get_elem?, get_or, if◌then◌else◌, index_error, leb, length, ltb,
  none, not, ok, prod, raised, refuse_if, some, suc, sum, take, value_error, zero, ℕ, ◌%◌, ◌&&◌,
  ◌*◌, ◌++◌, ◌+◌, ◌-◌, ◌/◌, ◌==◌, ◌>>◌, ◌^◌, ◌||◌, ◌∷◌,
}
use mathlib.Core.List.{reverse}
use rola.State.{StateFormat}

-- `TOK_BITS`, `SIDES`, `ATOM_LEAVES` and `BF16_MAGNITUDE_MASK`
abbrev pub tok_bits : ℕ
tok_bits = 32

abbrev pub sides : ℕ
sides = 2

abbrev pub atom_leaves : ℕ
atom_leaves = 16

abbrev pub bf16_magnitude_mask : ℕ
bf16_magnitude_mask = 32767

unfoldable pub token_words : ℕ → ℕ
token_words tokens = (tokens + tok_bits - 1) / tok_bits

unfoldable pub mask_words : ℕ → ℕ
mask_words bits = (bits + 31) / 32

pub record LivenessLayout : Type 0 where
  pub depth : ℕ
  pub widths : List ℕ
  pub tokens : ℕ

-- `LivenessLayout`, with its `__post_init__`
unfoldable pub liveness_layout : LivenessLayout → Result LivenessLayout
liveness_layout l = do
  refuse_if (not (length l.widths == l.depth)) value_error
  refuse_if (ltb l.tokens 1) value_error
  ok l

-- `LivenessLayout.of`
unfoldable pub layout_of : StateFormat → ℕ → Result LivenessLayout
unfolding liveness_layout
layout_of fmt tokens =
    liveness_layout (record { depth = fmt.depth; widths = fmt.widths; tokens = tokens })

-- `sum(self.B[:level])`
unfoldable pub row_base : LivenessLayout → ℕ → ℕ
row_base l level = sum (take level l.widths)

unfoldable pub rows : LivenessLayout → ℕ
rows l = sum l.widths

-- `row_of`
unfoldable pub digit_row : LivenessLayout → ℕ → ℕ → Result ℕ
unfolding row_base
digit_row l level digit = elim (get_elem? l.widths level) [
  | none ↦ raised index_error
  | some width ↦ if ltb digit width then ok (row_base l level + digit) else raised value_error
]

unfoldable pub words : LivenessLayout → ℕ
unfolding token_words
words l = token_words l.tokens

unfoldable pub side_words : LivenessLayout → ℕ
unfolding rows words
side_words l = rows l * words l

unfoldable pub side_bytes : LivenessLayout → ℕ
unfolding side_words
side_bytes l = side_words l * 4

unfoldable pub call_words : LivenessLayout → ℕ
unfolding side_words
call_words l = sides * side_words l

unfoldable pub word_index : LivenessLayout → ℕ → ℕ → ℕ → ℕ → ℕ
unfolding call_words side_words words
word_index l bh side row token =
    bh * call_words l + side * side_words l + row * words l + token / tok_bits

-- `1 << (token % TOK_BITS)`
unfoldable pub token_bit : ℕ → ℕ
token_bit token = 2 ^ (token % tok_bits)

-- `N` and `atoms`
unfoldable pub layout_leaves : LivenessLayout → ℕ
layout_leaves l = prod l.widths

unfoldable pub layout_atoms : LivenessLayout → ℕ
unfolding layout_leaves
layout_atoms l = layout_leaves l / atom_leaves

-- The loop of `radix_strides` over the reversed widths.
unfoldable pub strides_from : ℕ → List ℕ → List ℕ
strides_from suffix [] = []
strides_from suffix (width ∷ widths) = suffix ∷ strides_from (suffix * width) widths

unfoldable pub radix_strides : LivenessLayout → List ℕ
unfolding strides_from
radix_strides l = reverse (strides_from 1 (reverse l.widths))

pub record SideStatics : Type 0 where
  pub dense_levels : List Bool
  pub digit_mask : List Bool

-- The loop of `mask_word` over the bits that are left.
unfoldable pub mask_from : List Bool → ℕ → ℕ → ℕ → ℕ → ℕ
mask_from mask index bit zero word = word
mask_from mask index bit (suc left) word =
    mask_from mask index (suc bit) left
      (if get_or mask (index * 32 + bit) false then bit_or word (2 ^ bit) else word)

unfoldable pub mask_word : SideStatics → ℕ → ℕ
unfolding mask_from
mask_word statics index = mask_from statics.digit_mask index 0 32 0

-- The loop of `side_statics` over the logical and the padded widths.
unfoldable pub check_pads : List ℕ → List ℕ → Result (Unit {0})
check_pads [] widths = ok tt
check_pads (b ∷ logical) [] = ok tt
check_pads (b ∷ logical) (width ∷ widths) =
    let rest = check_pads logical widths in
    if leb 1 b && leb b width then rest else raised value_error

-- `[digit < b for digit in range(B)]`, the digits counted from `first`
unfoldable pub live_digits : ℕ → ℕ → ℕ → List Bool
live_digits b first zero = []
live_digits b first (suc width) = ltb first b ∷ live_digits b (suc first) width

unfoldable pub mask_digits : List ℕ → List ℕ → List Bool
unfolding live_digits
mask_digits [] widths = []
mask_digits (b ∷ logical) [] = []
mask_digits (b ∷ logical) (width ∷ widths) = live_digits b 0 width ++ mask_digits logical widths

unfoldable pub side_statics : LivenessLayout → List Bool → List ℕ → Result SideStatics
unfolding check_pads mask_digits
side_statics l dense logical = do
  refuse_if (not (length dense == l.depth) || not (length logical == l.depth)) value_error
  check_pads logical l.widths
  ok (record { dense_levels = dense; digit_mask = mask_digits logical l.widths })
