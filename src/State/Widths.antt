-- ===== src/State/Widths.antt =====
-- `width & (width - 1)`: the test for a power of two, and the capacity of lawful widths.
use Prim.Native.Nat.{bit_and}
use rola.Prelude.{
  All, Bool-cases, List, [], ap, arith, false, inl, inr, ltb, not, ok, prod, refl, suc, true, zero,
  ℕ, ◌%◌, ◌*◌, ◌-◌, ◌/◌, ◌<◌, ◌==◌, ◌^◌, ◌||◌, ◌∙◌, ◌∷◌, ◌≡◌, ◌≤◌,
}
use rola.Keying.Bits.{and_halves}
use rola.State.{check_widths, min_level_width}

abbrev pub IsPowerOfTwo : ℕ → Type 0
IsPowerOfTwo n = (k : ℕ) × (n ≡ 2 ^ k)

and_self_pos : (bound n : ℕ) → n ≤ bound → 0 < n → 0 < bit_and n n
and_self_pos zero n small pos = absurd (omega arith)
and_self_pos (suc bound) n small pos = elim (Bool-cases (n % 2 == 0)) [
  | inl even ↦
      let e = at_even even in
      omega (arith, and_halves n n, and_self_pos bound (n / 2) (omega arith) (omega arith))
  | inr odd ↦ let o = at_odd odd in omega (arith, and_halves n n)
]
  where
    at_even : (n % 2 == 0) ≡ true → n % 2 ≡ 0
    at_even h = ground arith

    at_odd : (n % 2 == 0) ≡ false → n % 2 ≡ 1
    at_odd h = ground arith

doubled : (n k : ℕ) → n % 2 ≡ 0 → n / 2 ≡ 2 ^ k → n ≡ 2 ^ suc k
doubled n k even half = omega (arith, half, even)

power_below : (bound n : ℕ) → n ≤ bound → 0 < n → bit_and n (n - 1) ≡ 0 → IsPowerOfTwo n
power_below zero n small pos clear = absurd (omega arith)
power_below (suc bound) n small pos clear = elim (Bool-cases (n % 2 == 0)) [
  | inl even ↦
      let e = at_even even in
      let (k, half) =
        power_below bound (n / 2) (omega arith) (omega arith)
          (omega (arith, and_halves n (n - 1), clear, halves e)) in
      (suc k, doubled n k e half)
  | inr odd ↦ elim (Bool-cases (n == 1)) [
    | inl one ↦ (0, at_one one)
    | inr many ↦ absurd (
        omega (
          arith,
          and_halves n (n - 1),
          clear,
          and_self_pos (n / 2) (n / 2) (omega arith) (at_many many (at_odd odd)),
          odd_halves (at_odd odd),
        ))
  ]
]
  where
    at_even : (n % 2 == 0) ≡ true → n % 2 ≡ 0
    at_even h = ground arith

    at_odd : (n % 2 == 0) ≡ false → n % 2 ≡ 1
    at_odd h = ground arith

    at_one : (n == 1) ≡ true → n ≡ 1
    at_one h = ground arith

    at_many : (n == 1) ≡ false → n % 2 ≡ 1 → 0 < n / 2
    at_many h o = ground arith

    halves : n % 2 ≡ 0 → bit_and (n / 2) ((n - 1) / 2) ≡ bit_and (n / 2) (n / 2 - 1)
    halves e = ap (bit_and (n / 2)) (omega arith)

    odd_halves : n % 2 ≡ 1 → bit_and (n / 2) ((n - 1) / 2) ≡ bit_and (n / 2) (n / 2)
    odd_halves o = ap (bit_and (n / 2)) (omega arith)

-- A width that the format accepts: a power of two, and at least the floor.
pub record IsLawful (width : ℕ) : Type 0 where
  pub power : IsPowerOfTwo width
  pub floor : min_level_width ≤ width

pub check_widths-IsLawful : (widths : List ℕ) → check_widths widths ≡ ok tt → All IsLawful widths
unfolding check_widths
check_widths-IsLawful [] run = tt
check_widths-IsLawful (width ∷ widths) run =
    elim (Bool-cases (not (bit_and width (width - 1) == 0) || ltb width min_level_width)) [
      | inl bad ↦ absurd (refused bad)
      | inr good ↦ (
        record {
          power = power_below width width (omega arith) (big good) (clear good);
          floor = floor_of good;
        },
        check_widths-IsLawful widths (rest good),
      )
    ]
  where
    refused : (not (bit_and width (width - 1) == 0) || ltb width min_level_width) ≡ true → ⊥
    refused bad = ground arith

    rest :
        (not (bit_and width (width - 1) == 0) || ltb width min_level_width) ≡ false
        → check_widths widths ≡ ok tt
    rest good = ground arith

    floor_of :
        (not (bit_and width (width - 1) == 0) || ltb width min_level_width) ≡ false → 16 ≤ width
    floor_of good = ground arith

    big : (not (bit_and width (width - 1) == 0) || ltb width min_level_width) ≡ false → 0 < width
    big good = omega (arith, floor_of good)

    clear :
        (not (bit_and width (width - 1) == 0) || ltb width min_level_width) ≡ false
        → bit_and width (width - 1) ≡ 0
    clear good = ground arith

-- A power of two that is at least 16 is a multiple of 16.
pub lawful-multiple : (width : ℕ) → IsLawful width → (q : ℕ) × (width ≡ 16 * q)
lawful-multiple width l = from l.power.0 l.power.1 l.floor
  where
    from : (k : ℕ) → width ≡ 2 ^ k → 16 ≤ width → (q : ℕ) × (width ≡ 16 * q)
    from zero e h = absurd (omega (arith, e))
    from (suc zero) e h = absurd (omega (arith, e))
    from (suc (suc zero)) e h = absurd (omega (arith, e))
    from (suc (suc (suc zero))) e h = absurd (omega (arith, e))
    from (suc (suc (suc (suc k)))) e h = (2 ^ k, omega (arith, e))

-- Of lawful widths, one at least, the leaves are whole pages.
pub prod-whole_pages :
    (width : ℕ) (widths : List ℕ) → All IsLawful (width ∷ widths) → prod (width ∷ widths) % 16 ≡ 0
prod-whole_pages width widths l =
    let (q, e) = lawful-multiple width l.0 in rw e (multiple q (prod widths))
  where
    multiple : (q r : ℕ) → 16 * q * r % 16 ≡ 0
    multiple q r = omega (arith, regroup q r)
      where
        regroup : (q r : ℕ) → 16 * q * r ≡ 16 * (q * r)
        regroup q r = omega arith

power_clear : (k : ℕ) → bit_and (2 ^ k) (2 ^ k - 1) ≡ 0
power_clear zero = omega (arith, and_halves 1 0)
power_clear (suc k) =
    omega (arith, and_halves (2 ^ suc k) (2 ^ suc k - 1), halves, power_clear k, parity)
  where
    positive : (j : ℕ) → 0 < 2 ^ j
    positive zero = omega arith
    positive (suc j) = omega (arith, positive j)

    halves : bit_and (2 ^ suc k / 2) ((2 ^ suc k - 1) / 2) ≡ bit_and (2 ^ k) (2 ^ k - 1)
    halves = λ i. bit_and (left i) (right i)
      where
        left : 2 ^ suc k / 2 ≡ 2 ^ k
        left = omega arith

        right : (2 ^ suc k - 1) / 2 ≡ 2 ^ k - 1
        right = omega (arith, positive k)

    parity : 2 ^ suc k % 2 ≡ 0
    parity = omega arith

lawful_clear : (width : ℕ) → IsLawful width → bit_and width (width - 1) ≡ 0
lawful_clear width l = ap (λ w. bit_and w (w - 1)) l.power.1 ∙ power_clear l.power.0

pub IsLawful-check_widths : (widths : List ℕ) → All IsLawful widths → check_widths widths ≡ ok tt
unfolding check_widths
IsLawful-check_widths [] l = refl
IsLawful-check_widths (width ∷ widths) l =
    ground (arith, lawful_clear width l.0, l.0.floor, IsLawful-check_widths widths l.1)
