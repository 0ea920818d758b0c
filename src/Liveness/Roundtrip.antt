-- ===== src/Liveness/Roundtrip.antt =====
-- The reader gives back the bits that were packed.
use native.Mathlib.Nat.{div-div-eq-div-mul, pow-succ'}
use mathlib.Core.Path.{subst}
use rola.Prelude.{
  Bool, Bool-cases, List, [], ap, arith, drop, false, get_or, inl, inr, leb, length, length-append,
  length-drop, length-replicate, length-take, refl, replicate, suc, sym, take, take-append,
  take-append-drop, true, zero, ℕ, ◌%◌, ◌*◌, ◌++◌, ◌+◌, ◌-◌, ◌/◌, ◌<◌, ◌==◌, ◌^◌, ◌∙◌, ◌∷◌, ◌≡◌,
}
use rola.Liveness.{LivenessLayout, words, token_words}
use rola.Liveness.Words.{
  ℤ, weighted, stored_word, pack_words, pack_row, word_bit, bits_from, unpack_words, unpack_row,
}

doubles : (i : ℕ) (lanes : List Bool) → weighted (suc i) lanes ≡ 2 * weighted i lanes
unfolding weighted
doubles i [] = refl
doubles i (true ∷ lanes) = ground (arith, pow-succ' 2 i, doubles (suc i) lanes)
doubles i (false ∷ lanes) = ground (arith, doubles (suc i) lanes)

pub weighted-lt : (lanes : List Bool) → weighted 0 lanes < 2 ^ length lanes
unfolding weighted
weighted-lt [] = omega arith
weighted-lt (true ∷ lanes) =
    ground (arith, pow-succ' 2 (length lanes), doubles 0 lanes, weighted-lt lanes)
weighted-lt (false ∷ lanes) =
    ground (arith, pow-succ' 2 (length lanes), doubles 0 lanes, weighted-lt lanes)

-- A shift by one more is a shift of the half.
pub shift_half : (a s : ℕ) → a / 2 ^ suc s ≡ a / 2 / 2 ^ s
shift_half a s =
    ap (λ d. a / d) {y = 2 * 2 ^ s} (omega arith) ∙ sym (div-div-eq-div-mul a 2 (2 ^ s))

tail_half : (b : Bool) (lanes : List Bool) → weighted 0 (b ∷ lanes) / 2 ≡ weighted 0 lanes
unfolding weighted
tail_half true lanes = ground (arith, doubles 0 lanes)
tail_half false lanes = ground (arith, doubles 0 lanes)

pub bit_to_ℕ : Bool → ℕ
bit_to_ℕ true = 1
bit_to_ℕ false = 0

pub lane_of :
    (lanes : List Bool) (s : ℕ) → weighted 0 lanes / 2 ^ s % 2 ≡ bit_to_ℕ (get_or lanes s false)
unfolding weighted bit_to_ℕ
lane_of [] zero = omega arith
lane_of [] (suc s) = ap (λ q. q % 2) (shift_half 0 s) ∙ lane_of [] s
lane_of (true ∷ lanes) zero = ground (arith, doubles 0 lanes)
lane_of (false ∷ lanes) zero = ground (arith, doubles 0 lanes)
lane_of (b ∷ lanes) (suc s) =
    ap (λ q. q % 2)
      (shift_half (weighted 0 (b ∷ lanes)) s ∙ ap (λ h. h / 2 ^ s) (tail_half b lanes))
    ∙ lane_of lanes s

-- The bits of a number's complement are the complements of its bits.
complement : (k s n w : ℕ) → n + w + 1 ≡ 2 ^ k → s < k → n / 2 ^ s % 2 + w / 2 ^ s % 2 ≡ 1
complement zero s n w e lt = elim lt [ ]
complement (suc k) zero n w e lt = omega (arith, e)
complement (suc k) (suc s) n w e lt =
    (λ i. shift_half n s i % 2 + shift_half w s i % 2)
    ∙ complement k s (n / 2) (w / 2) (omega (arith, e)) (omega arith)

-- A stored word has the bits of the number, negative or not.
pub word_bit-stored_word :
    (w s : ℕ) → w < 2 ^ 32 → s < 32 → word_bit (stored_word w) s ≡ (w / 2 ^ s % 2 == 1)
unfolding word_bit stored_word
word_bit-stored_word w s lt lt' = elim (Bool-cases (leb (2 ^ 31) w)) [
  | inr small ↦ rw small refl
  | inl large ↦ rw large (flipped _ _ (complement 32 s (2 ^ 32 - w - 1) w (omega arith) lt'))
]
  where
    flipped : (p q : ℕ) → p % 2 + q % 2 ≡ 1 → (p % 2 == 0) ≡ (q % 2 == 1)
    flipped p q h = ground arith

pub bit_lane : (b : Bool) → (bit_to_ℕ b == 1) ≡ b
unfolding bit_to_ℕ
bit_lane true = refl
bit_lane false = refl

bits_from-eq :
    (word : ℤ) (s count : ℕ) (lanes : List Bool)
    → length lanes ≡ count
    → ((i : ℕ) → i < count → word_bit word (s + i) ≡ get_or lanes i false)
    → bits_from word s count ≡ lanes
unfolding bits_from
bits_from-eq word s zero [] e bits = refl
bits_from-eq word s zero (b ∷ lanes) e bits = absurd (omega (arith, e))
bits_from-eq word s (suc count) [] e bits = absurd (omega (arith, e))
bits_from-eq word s (suc count) (b ∷ lanes) e bits = (λ i.
    (ap (word_bit word) {x = s} {y = s + 0} (omega arith) ∙ bits 0 (omega arith)) i
    ∷ bits_from-eq word (suc s) count lanes (omega (arith, e))
        (λ j lt.
          ap (word_bit word) {x = suc s + j} {y = s + suc j} (omega arith)
          ∙ bits (suc j) (omega arith))
        i)

word_unpacks :
    (lanes : List Bool)
    → length lanes ≡ 32
    → bits_from (stored_word (weighted 0 lanes)) 0 32 ≡ lanes
word_unpacks lanes e = bits_from-eq _ 0 32 lanes e (λ i lt.
    ap (word_bit (stored_word (weighted 0 lanes))) {y = i} (omega arith)
    ∙ word_bit-stored_word (weighted 0 lanes) i
        (subst (λ n. weighted 0 lanes < 2 ^ n) e (weighted-lt lanes)) lt
    ∙ ap (λ n. n == 1) (lane_of lanes i)
    ∙ bit_lane (get_or lanes i false))

unpack_words-pack_words :
    (count : ℕ) (lanes : List Bool)
    → length lanes ≡ count * 32
    → unpack_words (pack_words count lanes) ≡ lanes
unfolding unpack_words pack_words
unpack_words-pack_words zero [] e = refl
unpack_words-pack_words zero (b ∷ lanes) e = absurd (omega (arith, e))
unpack_words-pack_words (suc count) lanes e =
    (λ i.
      word_unpacks (take 32 lanes) (length-take 32 lanes (omega (arith, e))) i
      ++ unpack_words-pack_words count (drop 32 lanes) (omega (arith, length-drop 32 lanes, e)) i)
    ∙ take-append-drop 32 lanes

-- `unpack` after `_pack` gives a row of a call's bits back, whatever they are: also a word whose top
-- bit is set, which is stored as a negative number, and also the bits of a last word that the
-- tokens do not fill.
pub unpack_row-pack_row :
    (l : LivenessLayout) (bits : List Bool)
    → length bits ≡ l.tokens
    → unpack_row l (pack_row l bits) ≡ bits
unfolding unpack_row pack_row words token_words
unpack_row-pack_row l bits e =
    ap (take l.tokens) (unpack_words-pack_words (words l) (bits ++ pad) whole)
    ∙ ap (λ n. take n (bits ++ pad)) (sym e)
    ∙ take-append bits pad
  where
    pad : List Bool
    pad = replicate (words l * 32 - l.tokens) false

    whole : length (bits ++ pad) ≡ words l * 32
    whole =
        omega (arith, length-append bits pad, length-replicate (words l * 32 - l.tokens) false, e)
