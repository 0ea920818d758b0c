-- ===== src/Liveness/Lanes.antt =====
-- The 32 lanes of a stored word, and what `|`, `&` and the test for zero are on lanes.
use Prim.Native.Nat.{bit_and, bit_or}
use native.Mathlib.Nat.{pow-succ'}
use rola.Prelude.{
  Bool, Bool-cases, ap, arith, false, inl, inr, leb, leb→le, ltb, lt→ltb, max, min, refl, suc, sym,
  true, zero, ℕ, ◌%◌, ◌&&◌, ◌/◌, ◌<◌, ◌==◌, ◌^◌, ◌||◌, ◌∙◌, ◌≡◌,
}
use rola.Keying.Bits.{and_halves, or_halves}
use rola.Liveness.Words.{stored_word}
use rola.Liveness.Boxes.{word_bits, is_nonzero}
use rola.Liveness.Roundtrip.{shift_half}

-- Bit `s` of a number.
abbrev pub lane : ℕ → ℕ → Bool
lane w s = w / 2 ^ s % 2 == 1

lane_shift : (w s : ℕ) → lane w (suc s) ≡ lane (w / 2) s
lane_shift w s = ap (λ q. q % 2 == 1) (shift_half w s)

both_low : (a b : ℕ) → (min (a % 2) (b % 2) == 1) ≡ (a % 2 == 1) && (b % 2 == 1)
both_low a b = ground arith

either_low : (a b : ℕ) → (max (a % 2) (b % 2) == 1) ≡ (a % 2 == 1) || (b % 2 == 1)
either_low a b = ground arith

pub lane-bit_and : (s x y : ℕ) → lane (bit_and x y) s ≡ lane x s && lane y s
lane-bit_and zero x y = low
  where
    parity : bit_and x y / 2 ^ 0 % 2 ≡ min (x / 2 ^ 0 % 2) (y / 2 ^ 0 % 2)
    parity = omega (arith, and_halves x y)

    low : lane (bit_and x y) 0 ≡ lane x 0 && lane y 0
    low = ap (λ r. r == 1) parity ∙ both_low (x / 2 ^ 0) (y / 2 ^ 0)
lane-bit_and (suc s) x y =
    lane_shift (bit_and x y) s
    ∙ ap (λ w. lane w s) half
    ∙ lane-bit_and s (x / 2) (y / 2)
    ∙ (λ i. sym (lane_shift x s) i && sym (lane_shift y s) i)
  where
    half : bit_and x y / 2 ≡ bit_and (x / 2) (y / 2)
    half = omega (arith, and_halves x y)

pub lane-bit_or : (s x y : ℕ) → lane (bit_or x y) s ≡ lane x s || lane y s
lane-bit_or zero x y = low
  where
    parity : bit_or x y / 2 ^ 0 % 2 ≡ max (x / 2 ^ 0 % 2) (y / 2 ^ 0 % 2)
    parity = omega (arith, or_halves x y)

    low : lane (bit_or x y) 0 ≡ lane x 0 || lane y 0
    low = ap (λ r. r == 1) parity ∙ either_low (x / 2 ^ 0) (y / 2 ^ 0)
lane-bit_or (suc s) x y =
    lane_shift (bit_or x y) s
    ∙ ap (λ w. lane w s) half
    ∙ lane-bit_or s (x / 2) (y / 2)
    ∙ (λ i. sym (lane_shift x s) i || sym (lane_shift y s) i)
  where
    half : bit_or x y / 2 ≡ bit_or (x / 2) (y / 2)
    half = omega (arith, or_halves x y)

-- Neither operator leaves the word.
pub bit_or-lt : (k x y : ℕ) → x < 2 ^ k → y < 2 ^ k → bit_or x y < 2 ^ k
bit_or-lt zero x y lt lt' = ap_lt (omega arith) (omega arith)
  where
    ap_lt : x ≡ 0 → y ≡ 0 → bit_or x y < 1
    ap_lt e e' = rw (e, e') (omega arith)
bit_or-lt (suc k) x y lt lt' = omega (
  arith,
  or_halves x y,
  bit_or-lt k (x / 2) (y / 2) (omega (arith, lt, pow-succ' 2 k))
      (omega (arith, lt', pow-succ' 2 k)),
  pow-succ' 2 k,
)

pub bit_and-lt : (k x y : ℕ) → x < 2 ^ k → y < 2 ^ k → bit_and x y < 2 ^ k
bit_and-lt zero x y lt lt' = ap_lt (omega arith) (omega arith)
  where
    ap_lt : x ≡ 0 → y ≡ 0 → bit_and x y < 1
    ap_lt e e' = rw (e, e') (omega arith)
bit_and-lt (suc k) x y lt lt' = omega (
  arith,
  and_halves x y,
  bit_and-lt k (x / 2) (y / 2) (omega (arith, lt, pow-succ' 2 k))
      (omega (arith, lt', pow-succ' 2 k)),
  pow-succ' 2 k,
)

-- A number below `2 ^ k` that is not zero has a lane.
pub some_lane : (k w : ℕ) → w < 2 ^ k → 0 < w → (s : ℕ) × (s < k) × (lane w s ≡ true)
some_lane zero w lt pos = absurd (omega arith)
some_lane (suc k) w lt pos = elim (Bool-cases (lane w 0)) [
  | inl low ↦ (0, omega arith, low)
  | inr even ↦
      let (s, below, h) = some_lane k (w / 2) (omega (arith, lt, pow-succ' 2 k)) (half even) in
      (suc s, omega arith, lane_shift w s ∙ h)
]
  where
    half : lane w 0 ≡ false → 0 < w / 2
    half h = ground arith

pub lane_pos : (w s : ℕ) → lane w s ≡ true → 0 < w
lane_pos zero s h = absurd (no_lane s h)
  where
    zero_shift : (s : ℕ) → 0 / 2 ^ s % 2 ≡ 0
    zero_shift zero = omega arith
    zero_shift (suc s) = ap (λ q. q % 2) (shift_half 0 s) ∙ zero_shift s

    no_lane : (s : ℕ) → lane 0 s ≡ true → ⊥
    no_lane s h = ground (arith, zero_shift s)
lane_pos (suc w) s h = omega arith

-- A stored word is read back, and is zero just as its number is.
pub word_bits-stored_word : (w : ℕ) → w < 2 ^ 32 → word_bits (stored_word w) ≡ w
unfolding word_bits stored_word
word_bits-stored_word w lt = elim (Bool-cases (leb (2 ^ 31) w)) [
  | inl large ↦ rw large (omega arith)
  | inr small ↦ rw small refl
]

pub is_nonzero-stored_word : (w : ℕ) → is_nonzero (stored_word w) ≡ ltb 0 w
unfolding is_nonzero stored_word
is_nonzero-stored_word w = elim (Bool-cases (leb (2 ^ 31) w)) [
  | inl large ↦ rw large (sym (lt→ltb 0 w (omega (arith, leb→le (2 ^ 31) w large))))
  | inr small ↦ rw small (ground arith)
]
