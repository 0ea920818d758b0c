-- ===== src/Liveness/Tests.antt =====
-- A layout of two levels over forty tokens, in words of 32.

use rola.Prelude.{
  Bool, List, [], arith, false, map, ok, refl, replicate, true, ℕ, ◌*◌, ◌++◌, ◌<◌, ◌↔◌, ◌∷◌, ◌≡◌,
}
use rola.Liveness.{
  LivenessLayout, SideStatics, row_base, rows, call_words, word_index, token_bit, side_statics,
}
use rola.Liveness.Words.{pack_row, unpack_row}
use rola.Liveness.Boxes.{Box, check_box}
use rola.Liveness.Folds.{box_live}
use rola.Liveness.Numbers.{IsBitTable}
use rola.Liveness.Digits.{LiveIn}
use rola.Liveness.Activity.{box_live_iff}
use rola.Liveness.Layout.{word_index_distinct}
use rola.Liveness.Roundtrip.{unpack_row-pack_row}

abbrev layout : LivenessLayout
layout = record { depth = 2; widths = 16 ∷ 32 ∷ []; tokens = 40 }

-- Two bits: batch-head, side, row and token.
abbrev head : ℕ
head = 1

abbrev other_head : ℕ
other_head = 0

abbrev row : ℕ
row = 3

abbrev token : ℕ
token = 37

word_index_distinct_example :
    (word_index layout head 0 row token < 2 * call_words layout)
    × (word_index layout head 0 row token ≡ word_index layout other_head 0 row token
        → token_bit token ≡ token_bit token
        → (head ≡ other_head) × (other_head ≡ other_head) × (row ≡ row) × (token ≡ token))
unfolding rows
word_index_distinct_example =
    word_index_distinct layout 2 head other_head 0 0 row row token token (omega arith) (omega arith)
      (omega arith) (omega arith) (omega arith) (omega arith) (omega arith)

-- Every token is live, so that the first word is negative.
abbrev all_live : List Bool
all_live = replicate 40 true

unpack_row-pack_row_example : unpack_row layout (pack_row layout all_live) ≡ all_live
unpack_row-pack_row_example = unpack_row-pack_row layout all_live refl

-- Three tokens over a level of 16 digits: in the run of two digits from 4, the token 2 is live.
abbrev one_level : LivenessLayout
one_level = record { depth = 1; widths = 16 ∷ []; tokens = 3 }

abbrev dead : List Bool
dead = replicate 3 false

abbrev last_live : List Bool
last_live = false ∷ false ∷ true ∷ []

abbrev bits : List (List Bool)
bits = replicate 4 dead ++ (last_live ∷ replicate 11 dead)

abbrev box : Box
box = record { start = 4 ∷ []; span = 2 ∷ [] }

box_accepted : check_box one_level box ≡ ok tt
unfolding check_box
box_accepted = refl

bits-IsBitTable : IsBitTable one_level bits
unfolding rows
bits-IsBitTable = (
  refl,
  (
    refl,
    (
      refl,
      (
        refl,
        (
          refl,
          (
            refl,
            (
              refl,
              (refl, (refl, (refl, (refl, (refl, (refl, (refl, (refl, (refl, (refl, tt)))))))))),
            ),
          ),
        ),
      ),
    ),
  ),
)

box_live_iff_example :
    (box_live one_level (map (pack_row one_level) bits) box ≡ ok true)
    ↔ ((t : ℕ) × (t < 3) × LiveIn one_level bits 0 (4 ∷ []) (2 ∷ []) t)
box_live_iff_example = box_live_iff one_level bits box box_accepted bits-IsBitTable (omega arith)

box_is_live : box_live one_level (map (pack_row one_level) bits) box ≡ ok true
unfolding box_live pack_row rola.Liveness.words
box_is_live = refl
