-- ===== src/Liveness/Words.antt =====
-- rola/engine/facts/liveness.py: the bits of the words, the model of the pass, and the reader. A
-- stored word is 32 bits that torch reads as a signed number.
use Prim.Native.Nat.{bit_and}
use rola.Prelude.{
  Bool, List, [], drop, false, get_or, if◌then◌else◌, leb, map, not, replicate, set, suc, take,
  zero, ℕ, ◌%◌, ◌*◌, ◌++◌, ◌+◌, ◌-◌, ◌/◌, ◌==◌, ◌^◌, ◌∷◌,
}
use rola.Liveness.{
  LivenessLayout, SideStatics, bf16_magnitude_mask, tok_bits, words, rows, row_base,
}

pub data ℤ : Type 0 where
  pos : ℕ → ℤ
  negsuc : ℕ → ℤ

-- `(plane.view(int16) & BF16_MAGNITUDE_MASK) != 0`, at one amplitude.
unfoldable pub is_live : ℕ → Bool
is_live amplitude = not (bit_and amplitude bf16_magnitude_mask == 0)

-- `(lanes * weights).sum()`, the lanes counted from bit `i`.
unfoldable pub weighted : ℕ → List Bool → ℕ
weighted i [] = 0
weighted i (b ∷ lanes) = (if b then 2 ^ i else 0) + weighted (suc i) lanes

-- `words - (words >= 1 << 31) * (1 << 32)`, below `1 << 32`
unfoldable pub stored_word : ℕ → ℤ
stored_word w = if leb (2 ^ 31) w then negsuc (2 ^ 32 - w - 1) else pos w

-- The lanes of a row, 32 to a word.
unfoldable pub pack_words : ℕ → List Bool → List ℤ
unfolding weighted stored_word
pack_words zero lanes = []
pack_words (suc count) lanes =
    stored_word (weighted 0 (take tok_bits lanes)) ∷ pack_words count (drop tok_bits lanes)

-- `_pack`, at one row
unfoldable pub pack_row : LivenessLayout → List Bool → List ℤ
unfolding pack_words
pack_row l bits = pack_words (words l) (bits ++ replicate (words l * tok_bits - l.tokens) false)

-- `(word >> shift) & 1`, an arithmetic shift
unfoldable pub word_bit : ℤ → ℕ → Bool
word_bit (pos n) shift = n / 2 ^ shift % 2 == 1
word_bit (negsuc n) shift = n / 2 ^ shift % 2 == 0

-- The bits of a word from `shift` on.
unfoldable pub bits_from : ℤ → ℕ → ℕ → List Bool
unfolding word_bit
bits_from word shift zero = []
bits_from word shift (suc count) = word_bit word shift ∷ bits_from word (suc shift) count

unfoldable pub unpack_words : List ℤ → List Bool
unfolding bits_from
unpack_words [] = []
unpack_words (word ∷ row) = bits_from word 0 tok_bits ++ unpack_words row

-- `unpack`, at one row
unfoldable pub unpack_row : LivenessLayout → List ℤ → List Bool
unfolding unpack_words
unpack_row l row = take l.tokens (unpack_words row)

-- Column `r` of a plane whose rows are its tokens.
unfoldable pub column : ℕ → List (List ℕ) → List Bool
unfolding is_live
column r [] = []
column r (token ∷ plane) = is_live (get_or token r 0) ∷ column r plane

-- The amplitude rows of one side, `rows` of them from `r` on.
unfoldable pub amplitude_rows : List (List ℕ) → ℕ → ℕ → List (List Bool)
unfolding column
amplitude_rows plane r zero = []
amplitude_rows plane r (suc count) = column r plane ∷ amplitude_rows plane (suc r) count

-- `live[:, base:base + width, :] = mask[None, :, None]`, from row `base` on
unfoldable pub broadcast : ℕ → ℕ → List Bool → List (List Bool) → List (List Bool)
broadcast tokens base [] live = live
broadcast tokens base (m ∷ mask) live =
    broadcast tokens (suc base) mask (set live base (replicate tokens m))

-- The loop of `liveness_words` over the levels.
unfoldable pub mask_dense :
    LivenessLayout → SideStatics → ℕ → List Bool → List (List Bool) → List (List Bool)
unfolding broadcast row_base
mask_dense l statics level [] live = live
mask_dense l statics level (dense ∷ levels) live = mask_dense l statics (suc level) levels (
    if dense
    then broadcast l.tokens (row_base l level)
        (take (get_or l.widths level 0) (drop (row_base l level) statics.digit_mask)) live
    else live)

-- One side of `liveness_words`.
unfoldable pub side_rows : LivenessLayout → SideStatics → List (List ℕ) → List (List Bool)
unfolding amplitude_rows mask_dense rows
side_rows l statics plane =
    mask_dense l statics 0 statics.dense_levels (amplitude_rows plane 0 (rows l))

-- `liveness_words`, the read side and the write side
unfoldable pub liveness_words :
    LivenessLayout
    → SideStatics
    → SideStatics
    → List (List ℕ)
    → List (List ℕ)
    → List (List ℤ) × List (List ℤ)
unfolding side_rows pack_row
liveness_words l read_statics write_statics read_plane write_plane = (
  map (pack_row l) (side_rows l read_statics read_plane),
  map (pack_row l) (side_rows l write_statics write_plane),
)
