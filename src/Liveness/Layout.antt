-- ===== src/Liveness/Layout.antt =====
-- The layout of the words: no two bits of a call share a place.
use rola.Prelude.{ap, arith, refl, suc, sym, zero, ℕ, ◌%◌, ◌*◌, ◌+◌, ◌/◌, ◌<◌, ◌^◌, ◌∙◌, ◌≡◌}
use rola.Keying.Address.{one_reading}
use rola.Lattice.Order.{below}
use rola.Liveness.{
  LivenessLayout, token_words, rows, words, side_words, call_words, word_index, token_bit, sides,
}

power_injective : (a b : ℕ) → 2 ^ a ≡ 2 ^ b → a ≡ b
power_injective zero zero h = refl
power_injective zero (suc b) h = absurd (omega (arith, h))
power_injective (suc a) zero h = absurd (omega (arith, h))
power_injective (suc a) (suc b) h = ap suc (power_injective a b (omega (arith, h)))

-- Where the word of a bit is, as one number in a mixed radix.
word_index-radix :
    (l : LivenessLayout) (bh side row token : ℕ)
    → word_index l bh side row token ≡ ((bh * 2 + side) * rows l + row) * words l + token / 32
unfolding word_index call_words side_words
word_index-radix l bh side row token = regroup (rows l) (words l)
  where
    regroup :
        (R W : ℕ)
        → bh * (2 * (R * W)) + side * (R * W) + row * W + token / 32
          ≡ ((bh * 2 + side) * R + row) * W + token / 32
    regroup R W = omega arith

token_word-lt : (l : LivenessLayout) (token : ℕ) → token < l.tokens → token / 32 < words l
unfolding words token_words
token_word-lt l token lt = omega arith

-- The word of a bit of one of `BH` batch-heads is in the call's table, and two bits, of sides, rows
-- and tokens in range, have the same word and the same place in it only if they are the same bit.
pub word_index_distinct :
    (l : LivenessLayout) (BH bh bh' side side' row row' token token' : ℕ)
    → bh < BH
    → side < sides
    → side' < sides
    → row < rows l
    → row' < rows l
    → token < l.tokens
    → token' < l.tokens
    → (word_index l bh side row token < BH * call_words l)
      × (word_index l bh side row token ≡ word_index l bh' side' row' token'
          → token_bit token ≡ token_bit token'
          → (bh ≡ bh') × (side ≡ side') × (row ≡ row') × (token ≡ token'))
unfolding token_bit call_words side_words
word_index_distinct l BH bh bh' side side' row row' token token' b s s' r r' t t' = (
  omega (
    arith,
    word_index-radix l bh side row token,
    below ((bh * 2 + side) * rows l + row) (BH * 2 * rows l) (token / 32) (words l)
        (below (bh * 2 + side) (BH * 2) row (rows l) (below bh BH side 2 b s) r)
        (token_word-lt l token t),
    regroup (rows l) (words l),
  ),
  λ same_word same_bit.
      let (high, word) =
        one_reading (words l) ((bh * 2 + side) * rows l + row) ((bh' * 2 + side') * rows l + row')
          (token / 32) (token' / 32) (token_word-lt l token t) (token_word-lt l token' t')
          (sym (word_index-radix l bh side row token)
            ∙ same_word
            ∙ word_index-radix l bh' side' row' token') in
      let (pair, same_row) =
        one_reading (rows l) (bh * 2 + side) (bh' * 2 + side') row row' r r' high in
      let (same_bh, same_side) = one_reading 2 bh bh' side side' s s' pair in
      (
        same_bh,
        same_side,
        same_row,
        omega (arith, word, power_injective (token % 32) (token' % 32) same_bit),
      ),
)
  where
    regroup : (R W : ℕ) → BH * 2 * R * W ≡ BH * (2 * (R * W))
    regroup R W = omega arith
