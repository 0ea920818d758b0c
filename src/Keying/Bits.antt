-- ===== src/Keying/Bits.antt =====
-- The bit operators of the address law on a sixteen-row page: `leaf & 15` and `(slot << 4) | row`.
use Prim.Native.Nat.{digits, bitwise, bit_and, bit_or, bit_and-bitwise, bit_or-bitwise}
use rola.Prelude.{
  ap, arith, max, min, refl, suc, zero, ℕ, ◌%◌, ◌*◌, ◌+◌, ◌-◌, ◌/◌, ◌<◌, ◌∙◌, ◌≡◌, ◌≤◌,
}

-- A digit beyond those of the first number adds nothing to the answer.
module _ (rest : ℕ → ℕ) (pairwise : ℕ → ℕ → ℕ) where
  spare_digit :
      (count x y : ℕ)
      → x ≤ count
      → digits rest pairwise (suc count) x y ≡ digits rest pairwise count x y
  spare_digit zero zero y small = refl
  spare_digit (suc count) zero y small = refl
  spare_digit zero (suc x) y small = absurd (omega arith)
  spare_digit (suc count) (suc x) y small =
      ap (λ high. high * 2 + pairwise (suc x % 2) (y % 2))
        (spare_digit count (suc x / 2) (y / 2) (omega arith))

  spare_digits : (spare x y : ℕ) → digits rest pairwise (spare + x) x y ≡ bitwise rest pairwise x y
  spare_digits zero x y = ap (λ count. digits rest pairwise count x y) (omega arith)
  spare_digits (suc spare) x y =
      ap (λ count. digits rest pairwise count x y) {y = suc (spare + x)} (omega arith)
      ∙ spare_digit (spare + x) x y (omega arith)
      ∙ spare_digits spare x y

  -- The count for `x` serves for the half of its successor.
  halved : (x y : ℕ) → digits rest pairwise x (suc x / 2) y ≡ bitwise rest pairwise (suc x / 2) y
  halved x y =
      ap (λ count. digits rest pairwise count (suc x / 2) y) (omega arith)
      ∙ spare_digits (x - suc x / 2) (suc x / 2) y

pub and_halves : (x y : ℕ) → bit_and x y ≡ min (x % 2) (y % 2) + 2 * bit_and (x / 2) (y / 2)
and_halves zero y = omega (arith, bit_and-bitwise 0 y, bit_and-bitwise 0 (y / 2))
and_halves (suc x) y = omega (
  arith,
  halved (λ low. zero) min x (y / 2),
  bit_and-bitwise (suc x) y,
  bit_and-bitwise (suc x / 2) (y / 2),
)

pub or_halves : (x y : ℕ) → bit_or x y ≡ max (x % 2) (y % 2) + 2 * bit_or (x / 2) (y / 2)
or_halves zero y = omega (arith, bit_or-bitwise 0 y, bit_or-bitwise 0 (y / 2))
or_halves (suc x) y = omega (
  arith,
  halved (λ low. low) max x (y / 2),
  bit_or-bitwise (suc x) y,
  bit_or-bitwise (suc x / 2) (y / 2),
)

by_halves : (n a : ℕ) → a ≤ n → (bit_and a 0 ≡ 0) × (bit_or a 0 ≡ a)
by_halves n zero h = (bit_and-bitwise 0 0, bit_or-bitwise 0 0)
by_halves zero (suc a) h = absurd (omega arith)
by_halves (suc n) (suc a) h =
    let (cleared, kept) = by_halves n (suc a / 2) (omega arith) in
    (omega (arith, and_halves (suc a) 0, cleared), omega (arith, or_halves (suc a) 0, kept))

pub bit_and_fifteen : (a : ℕ) → bit_and a 15 ≡ a % 16
bit_and_fifteen a = omega (
  arith,
  and_halves a 15,
  and_halves (a / 2) 7,
  and_halves (a / 2 / 2) 3,
  and_halves (a / 2 / 2 / 2) 1,
  (by_halves (a / 2 / 2 / 2 / 2) (a / 2 / 2 / 2 / 2) (omega arith)).0,
)

-- The low four bits of a shifted slot are clear, so the OR is a sum.
pub bit_or_row : (s r : ℕ) → r < 16 → bit_or (s * 16) r ≡ s * 16 + r
bit_or_row s r lt = omega (
  arith,
  or_halves (s * 16) r,
  or_halves (s * 16 / 2) (r / 2),
  or_halves (s * 16 / 2 / 2) (r / 2 / 2),
  or_halves (s * 16 / 2 / 2 / 2) (r / 2 / 2 / 2),
  rest,
)
  where
    rest : bit_or (s * 16 / 2 / 2 / 2 / 2) (r / 2 / 2 / 2 / 2) ≡ s
    rest =
        ap (bit_or (s * 16 / 2 / 2 / 2 / 2)) (omega arith)
        ∙ (by_halves (s * 16 / 2 / 2 / 2 / 2) (s * 16 / 2 / 2 / 2 / 2) (omega arith)).1
        ∙ omega arith

pub bit_and_one : (a : ℕ) → bit_and a 1 ≡ a % 2
bit_and_one a = omega (arith, and_halves a 1, (by_halves (a / 2) (a / 2) (omega arith)).0)
